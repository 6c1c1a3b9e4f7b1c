-- ===== src/EdgeFs/Bitmap.antt =====
-- EdgeFS/src/Bitmap.cpp: which chunks of the data file are taken, and the choice of free ones.
pub mod Bits
pub mod Search
pub mod Choice
pub mod Begins
use Prim.Native.Nat.{bit_and, bit_or}
use edge_compute.Base.{
  ℕ, zero, suc, ◌+◌, ◌-◌, ◌*◌, ◌/◌, ◌%◌, ◌^◌, ◌≡◌, Bool, true, false, not, ◌&&◌, ◌||◌, Option, none,
  some, List, [], ◌∷◌, ◌++◌, ◌==◌, leb, length, set, get_or, if◌then◌else◌,
}

-- `bytes` are the bytes at `m_ptr`.
pub record Bitmap : Type 0 where
  pub bytes : List ℕ
  pub bitmap_size : ℕ
  pub total_chunk_num : ℕ
  pub write_chunk_num : ℕ

unfoldable pub init_bitmap : List ℕ → (bitmap_size idx_num : ℕ) → Bitmap
init_bitmap bytes bitmap_size idx_num = record {
  bytes = bytes;
  bitmap_size = bitmap_size;
  total_chunk_num = idx_num;
  write_chunk_num = 0;
}

unfoldable pub mask : ℕ → ℕ
mask idx = 2 ^ (idx % 8)

unfoldable pub is_have : Bitmap → ℕ → Bool
unfolding mask
is_have b idx =
    if leb b.total_chunk_num idx
    then false
    else not (bit_and (get_or b.bytes (idx / 8) 0) (mask idx) == 0)

unfoldable pub insert : ℕ → Bitmap → Bool × Bitmap
unfolding mask
insert idx b = if leb b.total_chunk_num idx then (false, b) else (
  true,
  record b {
    bytes = set b.bytes (idx / 8) (bit_or (get_or b.bytes (idx / 8) 0) (mask idx));
    write_chunk_num = (b.write_chunk_num + 1) % 2 ^ 32;
  },
)

-- The overload for a vector.
unfoldable pub insert_all : List ℕ → Bitmap → Bitmap
insert_all [] b = b
insert_all (idx ∷ idxs) b = insert_all idxs (insert idx b).1

unfoldable pub is_idle : Bitmap → (exclude_chunkid chunkid : ℕ) → Bool
is_idle b exclude_chunkid chunkid = not (is_have b chunkid || chunkid == exclude_chunkid)

-- The loop over all chunks in order, with `rounds` chunks left: `none` is `false`, when the vector
-- was cleared.
unfoldable pub scan_chunks :
    Bitmap → (need_chunk_num exclude_chunkid : ℕ) → (rounds chunkid : ℕ) → List ℕ → Option (List ℕ)
scan_chunks b need exclude zero chunkid idle_chunkids = none
scan_chunks b need exclude (suc rounds) chunkid idle_chunkids =
    let idle = is_idle b exclude chunkid in
    let idle_chunkids' = if idle then idle_chunkids ++ chunkid ∷ [] else idle_chunkids in
    if idle && leb need (length idle_chunkids')
    then some idle_chunkids'
    else scan_chunks b need exclude rounds (chunkid + 1) idle_chunkids'

unfoldable pub generate_idle_chunkids_for_steady :
    Bitmap → List ℕ → (need_chunk_num exclude_chunkid : ℕ) → Option (List ℕ)
generate_idle_chunkids_for_steady b idle_chunkids need exclude =
    scan_chunks b need exclude b.total_chunk_num 0 idle_chunkids

-- How the random draws end.
pub data Drawn : Type 0 where
  enough : List ℕ → Drawn
  gave_up : List ℕ → Drawn

-- The loop of random draws, with `rounds` draws left; draw `k` gives `draws k`.
unfoldable pub draw_chunks :
    Bitmap
    → (draws : ℕ → ℕ) → (need_chunk_num exclude_chunkid : ℕ) → (rounds k : ℕ) → List ℕ
    → Drawn
draw_chunks b draws need exclude zero k idle_chunkids = gave_up idle_chunkids
draw_chunks b draws need exclude (suc rounds) k idle_chunkids =
    let chunkid = draws k % b.total_chunk_num in
    let idle = is_idle b exclude chunkid in
    let idle_chunkids' = if idle then idle_chunkids ++ chunkid ∷ [] else idle_chunkids in
    if idle && leb need (length idle_chunkids')
    then enough idle_chunkids'
    else draw_chunks b draws need exclude rounds (k + 1) idle_chunkids'

unfoldable pub after_draws : Bitmap → (need_chunk_num exclude_chunkid : ℕ) → Drawn → Option (List ℕ)
after_draws b need exclude (enough idle_chunkids) = some idle_chunkids
after_draws b need exclude (gave_up idle_chunkids) =
    scan_chunks b need exclude b.total_chunk_num 0 idle_chunkids

-- `cnt` counts from 1 and ends the loop when it reaches `10 * needChunkNum`.
unfoldable pub generate_idle_chunkids_for_fast :
    Bitmap → (draws : ℕ → ℕ) → List ℕ → (need_chunk_num exclude_chunkid : ℕ) → Option (List ℕ)
unfolding after_draws
generate_idle_chunkids_for_fast b draws idle_chunkids need exclude =
    after_draws b need exclude
      (draw_chunks b draws need exclude (10 * need % 2 ^ 32 - 1) 0 idle_chunkids)

-- `tail` is whether the file's last chunk is used; `none` is a null pointer.
unfoldable pub first_idle : Option Bool → ℕ → List ℕ
first_idle (some false) tail_chunkid = tail_chunkid ∷ []
first_idle _ tail_chunkid = []

-- The vector is empty when `EdgeFS::write` calls this.
unfoldable pub generate_idle_chunkids :
    Bitmap → (draws : ℕ → ℕ) → Option Bool → (tail_chunkid need_chunk_num : ℕ) → Option (List ℕ)
unfolding first_idle
generate_idle_chunkids b draws tail tail_chunkid need =
    if need == 0
    then some []
    else if leb need (length (first_idle tail tail_chunkid))
    then some (first_idle tail tail_chunkid)
    else if leb b.total_chunk_num (b.write_chunk_num * 2 % 2 ^ 32)
    then generate_idle_chunkids_for_steady b (first_idle tail tail_chunkid) need tail_chunkid
    else generate_idle_chunkids_for_fast b draws (first_idle tail tail_chunkid) need tail_chunkid
