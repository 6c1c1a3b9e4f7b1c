-- ===== src/EdgeFs/Chain.antt =====
-- The chains of chunks in the index of EdgeFS/src/EdgeFS.cpp: the walks from the first chunk of a
-- hash key, and what a write and a read compute from them.
pub mod Linked
pub mod Walks
use edge_compute.Base.{
  ℕ, zero, suc, ◌+◌, ◌-◌, ◌*◌, ◌/◌, ◌%◌, ◌^◌, ◌≡◌, Bool, true, false, not, ◌&&◌, ◌||◌, Option, none,
  some, List, [], ◌∷◌, ◌++◌, ◌==◌, ltb, leb, length, get_elem?, get_or, take, if◌then◌else◌,
}
use edge_compute.Sys.{Bytes}
use edge_compute.PunchHole.Wire.{le_value}
use edge_compute.EdgeFs.Format.{
  MetaInfo, zero_meta, Outcome, done, fault, out_of_fuel, invalid_chunkid, sub_32, div_round_up,
}
use edge_compute.EdgeFs.Init.{bytes_eq}

-- A read of an entry; an entry behind the last one is a fault.
abbrev pub with_entry {ℓ} : {A : Type ℓ} → Option MetaInfo → (MetaInfo → Outcome A) → Outcome A
with_entry none k = fault
with_entry (some m) k = k m

abbrev pub and_then {ℓ κ} : {A : Type ℓ} {B : Type κ} → Outcome A → (A → Outcome B) → Outcome B
and_then (done a) k = k a
and_then fault k = fault
and_then out_of_fuel k = out_of_fuel

infixl 5 ◌>>=◌
abbrev pub ◌>>=◌ {ℓ κ} : {A : Type ℓ} {B : Type κ} → Outcome A → (A → Outcome B) → Outcome B
m >>= k = and_then m k

-- The first four bytes of the digest, as the machine reads a `uint32_t`.
unfoldable pub generate_hash_key : Bytes → (chunk_num : ℕ) → ℕ
generate_hash_key sha1_val chunk_num = le_value (take 4 sha1_val) % chunk_num

unfoldable pub chunk_tail_from : ℕ → List MetaInfo → ℕ → Outcome ℕ
chunk_tail_from zero pool i = out_of_fuel
chunk_tail_from (suc fuel) pool i = with_entry (get_elem? pool i) λ m.
    if m.next_chunkid == invalid_chunkid then done i else chunk_tail_from fuel pool m.next_chunkid

-- An entry is named by the number of its chunk.
unfoldable pub find_chunk_tail_meta_info : ℕ → List MetaInfo → ℕ → Outcome ℕ
unfolding chunk_tail_from
find_chunk_tail_meta_info fuel pool head =
    with_entry (get_elem? pool head)
      λ m. if not m.is_used then done head else chunk_tail_from fuel pool head

abbrev pub is_of : Bytes → MetaInfo → Bool
is_of sha1_val m = bytes_eq m.sha1 sha1_val

unfoldable pub file_tail_from : ℕ → List MetaInfo → Bytes → ℕ → Option ℕ → Outcome (Option ℕ)
file_tail_from zero pool sha1_val i tail = out_of_fuel
file_tail_from (suc fuel) pool sha1_val i tail = with_entry (get_elem? pool i) λ m.
    (let tail' = if is_of sha1_val m then some i else tail in
      if m.next_chunkid == invalid_chunkid
      then done tail'
      else file_tail_from fuel pool sha1_val m.next_chunkid tail')

-- `none` is a null pointer.
unfoldable pub find_file_tail_meta_info : ℕ → List MetaInfo → ℕ → Bytes → Outcome (Option ℕ)
unfolding file_tail_from
find_file_tail_meta_info fuel pool head sha1_val =
    with_entry (get_elem? pool head)
      λ m. if not m.is_used then done (some head) else file_tail_from fuel pool sha1_val head none

-- The output parameters of `generateReadChunkids`.
pub record ReadChunks : Type 0 where
  pub write_chunkids : List ℕ
  pub write_total_len : ℕ
  pub last_chunk_write_len : ℕ

abbrev pub no_chunks : ReadChunks
no_chunks = record { write_chunkids = []; write_total_len = 0; last_chunk_write_len = 0 }

unfoldable pub note_chunk : (chunk_size : ℕ) → Bytes → ℕ → MetaInfo → ReadChunks → ReadChunks
note_chunk chunk_size sha1_val i m r =
    if is_of sha1_val m
    then record {
      write_chunkids = r.write_chunkids ++ i ∷ [];
      write_total_len = (r.write_total_len + sub_32 chunk_size m.idle_len) % 2 ^ 64;
      last_chunk_write_len = sub_32 chunk_size m.idle_len;
    }
    else r

unfoldable pub read_chunks_from :
    ℕ → List MetaInfo → (chunk_size : ℕ) → Bytes → ℕ → ReadChunks → Outcome ReadChunks
unfolding note_chunk
read_chunks_from zero pool chunk_size sha1_val i r = out_of_fuel
read_chunks_from (suc fuel) pool chunk_size sha1_val i r = with_entry (get_elem? pool i) λ m.
    if m.next_chunkid == invalid_chunkid
    then done (note_chunk chunk_size sha1_val i m r)
    else read_chunks_from fuel pool chunk_size sha1_val m.next_chunkid
        (note_chunk chunk_size sha1_val i m r)

-- The caller's variables are 0 and the queue is empty.
unfoldable pub generate_read_chunkids :
    ℕ → List MetaInfo → (chunk_size : ℕ) → ℕ → Bytes → Outcome ReadChunks
unfolding read_chunks_from
generate_read_chunkids fuel pool chunk_size head sha1_val = with_entry (get_elem? pool head) λ m.
    if not m.is_used
    then done no_chunks
    else read_chunks_from fuel pool chunk_size sha1_val head no_chunks

-- The output parameters of `calcWriteVariable`.
pub record WritePlan : Type 0 where
  pub first_write_len : ℕ
  pub need_chunk_num : ℕ
  pub last_chunk_write_len : ℕ

unfoldable pub first_len : Option MetaInfo → ℕ → ℕ
first_len none write_len = 0
first_len (some m) write_len =
    if not m.is_used then 0 else if leb m.idle_len write_len then m.idle_len else write_len

unfoldable pub plan_rest : (chunk_size first remain_len : ℕ) → WritePlan
plan_rest chunk_size first remain_len = record {
  first_write_len = first;
  need_chunk_num = div_round_up remain_len chunk_size % 2 ^ 32;
  last_chunk_write_len =
      if remain_len % chunk_size == 0 then chunk_size else remain_len % chunk_size;
}

unfoldable pub calc_write_variable :
    (chunk_size : ℕ) → Option MetaInfo → (write_len : ℕ) → WritePlan
unfolding first_len plan_rest
calc_write_variable chunk_size tail write_len =
    plan_rest chunk_size (first_len tail write_len) (sub_32 write_len (first_len tail write_len))
