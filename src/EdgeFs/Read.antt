-- ===== src/EdgeFs/Read.antt =====
-- `EdgeFS::read` of EdgeFS/src/EdgeFS.cpp: the pieces of the data file that a read takes, and the
-- read of them one after the other.
pub mod Addresses
pub mod Packed
pub mod Pieces
pub mod Whole
pub mod Packs
pub mod Grows
pub mod Back
pub mod Finds
use edge_compute.Base.{
  ℕ, zero, suc, ◌+◌, ◌-◌, ◌*◌, ◌/◌, ◌%◌, ◌^◌, ◌≡◌, Bool, true, false, not, Option, none, some, List,
  [], ◌∷◌, ◌++◌, ◌==◌, ltb, leb, length, get_elem?, take, drop, if◌then◌else◌,
}
use mathlib.Core.Option
use edge_compute.Sys.{Bytes}
use edge_compute.EdgeFs.Format.{FsHead, Outcome, done, fault, out_of_fuel, sub_32}
use edge_compute.EdgeFs.File.{Os, FileOper, read_at}
use edge_compute.EdgeFs.Chain.{◌>>=◌, generate_hash_key, ReadChunks, generate_read_chunkids}
use edge_compute.EdgeFs.Write.{Fs}

-- A piece of the data file, an entry of `readInfo`.
pub record Piece : Type 0 where
  pub offset : ℕ
  pub len : ℕ

abbrev pub min : ℕ → ℕ → ℕ
min a b = if leb a b then a else b

-- The loop over the chunks behind the first, with `rounds` rounds left; it ends behind the last
-- chunk. The length of the last chunk is not looked at.
unfoldable pub read_rest : (chunk_size : ℕ) → List ℕ → (rounds idx remain_len : ℕ) → List Piece
read_rest chunk_size ids zero idx remain_len = []
read_rest chunk_size ids (suc rounds) idx remain_len =
    let chunk_read_len = min chunk_size remain_len in
    let rest = read_rest chunk_size ids rounds ((idx + 1) % 2 ^ 32) (remain_len - chunk_read_len) in
    elim (get_elem? ids idx) [
      | none ↦ []
      | some chunkid ↦ record { offset = chunkid * chunk_size; len = chunk_read_len } ∷ rest
    ]

-- With the first chunk; the rounds are counted in 32 bits.
unfoldable pub read_first :
    (chunk_size : ℕ)
    → List ℕ
    → (last_chunk_write_len read_len idx skip : ℕ) → Option ℕ
    → Outcome (List Piece)
unfolding read_rest
read_first chunk_size ids last_len read_len idx skip none = fault
read_first chunk_size ids last_len read_len idx skip (some chunkid) =
    let first = min (chunk_size - skip) read_len in
    if (idx + 1) % 2 ^ 32 == length ids
    then done (
        record { offset = chunkid * chunk_size + skip; len = min (sub_32 last_len skip) read_len }
        ∷ [])
    else done (
        record { offset = chunkid * chunk_size + skip; len = first }
        ∷ read_rest chunk_size ids ((read_len - first + chunk_size - 1) % 2 ^ 32 / chunk_size)
            ((idx + 1) % 2 ^ 32) (read_len - first))

-- An access behind the end of the queue is a fault.
unfoldable pub calc_read_variable :
    (chunk_size : ℕ) → List ℕ → (last_chunk_write_len read_len offset : ℕ) → Outcome (List Piece)
unfolding read_first
calc_read_variable chunk_size ids last_len read_len offset =
    let idx = offset / chunk_size % 2 ^ 32 in
    read_first chunk_size ids last_len read_len idx (offset % chunk_size) (get_elem? ids idx)

-- Bytes written into a buffer from a position on.
abbrev pub put : (from : ℕ) → Bytes → Bytes → Bytes
put from bytes buff = take from buff ++ bytes ++ drop (from + length bytes) buff

module _ {F : Type 0} (os : Os F) where
  -- The loop over `readInfo`: the length that was read, the caller's buffer and the data file. A
  -- failed read ends it.
  unfoldable pub read_pieces :
      List Piece → (real_read_len : ℕ) → Bytes → FileOper F → ℕ × (Bytes × FileOper F)
  read_pieces [] real buff f = (real, (buff, f))
  read_pieces (p ∷ ps) real buff f =
      let got = read_at os p.len p.offset f in
      elim got.0 [
        | none ↦ (real, (buff, got.1))
        | some bytes ↦ read_pieces ps ((real + p.len) % 2 ^ 32) (put real bytes buff) got.1
      ]

  unfoldable pub read_found :
      (len offset : ℕ) → Bytes → Fs F → ReadChunks → Outcome (Option ℕ × (Bytes × Fs F))
  unfolding read_pieces
  read_found len offset buff fs r =
      if length r.write_chunkids == 0
      then done (none, (buff, fs))
      else if ltb r.write_total_len offset
      then done (none, (buff, fs))
      else calc_read_variable fs.head.chunk_size r.write_chunkids r.last_chunk_write_len len offset
        >>= λ pieces.
            (let (real, (buff', data_mgr)) = read_pieces pieces 0 buff fs.data_mgr in
              done (some real, (buff', record fs { data_mgr = data_mgr })))

  -- `EdgeFS::read` into a buffer that is not null; `none` is -1.
  unfoldable pub read :
      (fuel : ℕ) → Bytes → (len offset : ℕ) → Bytes → Fs F → Outcome (Option ℕ × (Bytes × Fs F))
  unfolding read_found
  read fuel sha1_val len offset buff fs =
      let head = generate_hash_key sha1_val fs.head.chunk_num in
      let fs' = record fs { next_taskid = (fs.next_taskid + 1) % 2 ^ 32 } in
      generate_read_chunkids fuel fs.meta_pool fs.head.chunk_size head sha1_val
      >>= read_found len offset buff fs'
