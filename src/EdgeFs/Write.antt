-- ===== src/EdgeFs/Write.antt =====
-- `EdgeFS::write` of EdgeFS/src/EdgeFS.cpp: a piece of data is put behind the end of a file.
pub mod Plan
pub mod Fill
pub mod Data
pub mod Holds
pub mod Refines
pub mod Appended
pub mod Keeps
pub mod Takes
pub mod Whole
pub mod Creates
pub mod Noted
pub mod First
pub mod Append
pub mod Links
pub mod Correct
pub mod Appends
use edge_compute.Base.{
  ℕ, zero, suc, ◌+◌, ◌-◌, ◌*◌, ◌/◌, ◌%◌, ◌^◌, ◌≡◌, Bool, true, false, not, ◌&&◌, ◌||◌, Option, none,
  some, List, [], ◌∷◌, ◌++◌, ◌==◌, ltb, leb, length, get_elem?, set, take, drop, if◌then◌else◌,
}
use mathlib.Core.Option
use edge_compute.Sys.{Bytes}
use edge_compute.EdgeFs.Format.{
  FsHead, MetaInfo, Outcome, done, fault, out_of_fuel, invalid_chunkid, sub_32,
}
use edge_compute.EdgeFs.Bitmap.{Bitmap, insert, generate_idle_chunkids}
use edge_compute.EdgeFs.File.{Os, FileOper, write_at}
use edge_compute.EdgeFs.Chain.{
  ◌>>=◌, generate_hash_key, find_chunk_tail_meta_info, find_file_tail_meta_info, WritePlan,
  calc_write_variable,
}
use edge_compute.EdgeFs.Chain.Linked.{at}

-- EdgeFS after `initFS`: the mapped index, the data file and `m_nextTaskid`.
pub record Fs (F : Type 0) : Type 0 where
  pub head : FsHead
  pub bit_map : Bitmap
  pub meta_pool : List MetaInfo
  pub data_mgr : FileOper F
  pub next_taskid : ℕ

-- The local variables of the loops, and what they change.
pub record Progress (F : Type 0) : Type 0 where
  pub pool : List MetaInfo
  pub bit_map : Bitmap
  pub data_mgr : FileOper F
  pub remain_len : ℕ
  pub real_write_len : ℕ

-- The entry of a chunk that was written in full or for the last time: `next` is the next chunk, and
-- the last chunk keeps room behind `last_chunk_write_len` bytes.
unfoldable pub filled_meta :
    (chunk_size last_chunk_write_len : ℕ) → Bytes → (next : Option ℕ) → MetaInfo
filled_meta chunk_size last_len sha1_val none = record {
  is_used = true;
  sha1 = sha1_val;
  idle_len = chunk_size - last_len;
  next_chunkid = invalid_chunkid;
}
filled_meta chunk_size last_len sha1_val (some next) = record {
  is_used = true;
  sha1 = sha1_val;
  idle_len = 0;
  next_chunkid = next;
}

-- The first of the idle chunks, or none.
abbrev pub first_or_invalid : List ℕ → ℕ
first_or_invalid [] = invalid_chunkid
first_or_invalid (i ∷ ids) = i

abbrev pub set_next : ℕ → ℕ → List MetaInfo → List MetaInfo
set_next i next pool = set pool i (record (at pool i) { next_chunkid = next })

-- The bytes of a piece of the buffer.
abbrev pub slice : Bytes → (from len : ℕ) → Bytes
slice buff from len = take len (drop from buff)

module _ {F : Type 0} (os : Os F) (chunk_size : ℕ) (sha1_val buff : Bytes) where
  -- One round of the loop over the idle chunks, once `DataMgr::write` succeeded.
  unfoldable pub written_chunk :
      (last_len chunkid : ℕ) → Option ℕ → (write_len : ℕ) → FileOper F → Progress F → Progress F
  unfolding filled_meta
  written_chunk last_len chunkid next write_len data_mgr s = record {
    pool = set s.pool chunkid (filled_meta chunk_size last_len sha1_val next);
    bit_map = (insert chunkid s.bit_map).1;
    data_mgr = data_mgr;
    remain_len = s.remain_len - write_len;
    real_write_len = s.real_write_len + write_len;
  }

  -- The loop over the idle chunks; a failed write ends it.
  unfoldable pub write_chunks : (last_len : ℕ) → List ℕ → Progress F → Progress F
  unfolding written_chunk
  write_chunks last_len [] s = s
  write_chunks last_len (chunkid ∷ ids) s =
      let write_len = if leb chunk_size s.remain_len then chunk_size else s.remain_len in
      let written =
        write_at os (slice buff s.real_write_len write_len) (chunkid * chunk_size) s.data_mgr in
      if not written.0
      then record s { data_mgr = written.1 }
      else write_chunks last_len ids (
          written_chunk last_len chunkid (elim ids [ [] ↦ none | j ∷ rest ↦ some j ]) write_len
            written.1 s)

  -- The offset of the first write: a used chunk is filled up.
  unfoldable pub first_offset : ℕ → MetaInfo → ℕ
  first_offset chunkid m =
      chunkid * chunk_size + (if m.is_used then sub_32 chunk_size m.idle_len else 0)

  -- The entry of the file's last chunk after the first write.
  unfoldable pub first_meta : (first_write_len : ℕ) → MetaInfo → MetaInfo
  first_meta first m = if m.is_used then record m { idle_len = m.idle_len - first } else record {
    is_used = true;
    sha1 = sha1_val;
    idle_len = chunk_size - first;
    next_chunkid = invalid_chunkid;
  }

  -- A chunk that is full lets the chain go on.
  unfoldable pub link_if_full :
      (full : Bool) → (chunk_tail : ℕ) → List ℕ → List MetaInfo → List MetaInfo
  link_if_full true chunk_tail ids pool = set_next chunk_tail (first_or_invalid ids) pool
  link_if_full false chunk_tail ids pool = pool

  -- The first write, once it succeeded.
  unfoldable pub written_first :
      WritePlan → List ℕ → (file_tail chunk_tail : ℕ) → FileOper F → Progress F → Progress F
  unfolding first_meta link_if_full
  written_first plan ids file_tail chunk_tail data_mgr s =
      let m = first_meta plan.first_write_len (at s.pool file_tail) in
      record {
        pool = link_if_full (m.idle_len == 0) chunk_tail ids (set s.pool file_tail m);
        bit_map =
            if (at s.pool file_tail).is_used then s.bit_map else (insert file_tail s.bit_map).1;
        data_mgr = data_mgr;
        remain_len = s.remain_len - plan.first_write_len;
        real_write_len = s.real_write_len + plan.first_write_len;
      }

  unfoldable pub link_chain : (chunk_tail : ℕ) → List ℕ → List MetaInfo → List MetaInfo
  link_chain chunk_tail [] pool = pool
  link_chain chunk_tail (i ∷ ids) pool = set_next chunk_tail i pool

  -- The body of `do … while (0)`. A null file tail has a `firstWriteLen` of 0.
  unfoldable pub write_body :
      WritePlan → List ℕ → Option ℕ → (chunk_tail : ℕ) → Progress F → Progress F
  unfolding written_first first_offset link_chain
  write_body plan ids none chunk_tail s =
      write_chunks plan.last_chunk_write_len ids
        (record s { pool = link_chain chunk_tail ids s.pool })
  write_body plan ids (some file_tail) chunk_tail s =
      let written =
        write_at os (slice buff s.real_write_len plan.first_write_len)
          (first_offset file_tail (at s.pool file_tail)) s.data_mgr in
      if plan.first_write_len == 0
      then write_chunks plan.last_chunk_write_len ids
          (record s { pool = link_chain chunk_tail ids s.pool })
      else if not written.0
      then record s { data_mgr = written.1 }
      else write_chunks plan.last_chunk_write_len ids
          (written_first plan ids file_tail chunk_tail written.1 s)

-- The chunks for a write: `none` is the early return of -1. With nothing to find there are none.
unfoldable pub idle_for : Bitmap → (ℕ → ℕ) → Option Bool → (tail_chunkid need : ℕ) → Option (List ℕ)
idle_for b draws tail tail_chunkid need =
    if need == 0 then some [] else elim (generate_idle_chunkids b draws tail tail_chunkid need) [
      | none ↦ none
      | some [] ↦ none
      | some (i ∷ ids) ↦ some (i ∷ ids)
    ]

abbrev pub start : {F : Type 0} → Fs F → ℕ → Progress F
start fs len = record {
  pool = fs.meta_pool;
  bit_map = fs.bit_map;
  data_mgr = fs.data_mgr;
  remain_len = len;
  real_write_len = 0;
}

abbrev pub finish : {F : Type 0} → Fs F → Progress F → Option ℕ × Fs F
finish fs s = (
  some s.real_write_len,
  record fs { meta_pool = s.pool; bit_map = s.bit_map; data_mgr = s.data_mgr },
)

-- calcChunkid of a pointer that may be null
abbrev pub chunkid_of : Option ℕ → ℕ
chunkid_of none = invalid_chunkid
chunkid_of (some i) = i

abbrev pub entry_of : List MetaInfo → Option ℕ → Option MetaInfo
entry_of pool none = none
entry_of pool (some i) = some (at pool i)

abbrev pub is_used_of : Option MetaInfo → Option Bool
is_used_of none = none
is_used_of (some m) = some m.is_used

module _ {F : Type 0} (os : Os F) (fuel : ℕ) (draws : ℕ → ℕ) where
  -- With the chunks that were found.
  unfoldable pub write_found :
      Bytes
      → Bytes
      → WritePlan
      → Option ℕ
      → (chunk_tail : ℕ) → Option (List ℕ)
      → Fs F
      → Option ℕ × Fs F
  unfolding write_body
  write_found sha1_val buff plan file_tail chunk_tail none fs = (none, fs)
  write_found sha1_val buff plan file_tail chunk_tail (some ids) fs = finish fs (
      write_body os fs.head.chunk_size sha1_val buff plan ids file_tail chunk_tail
        (start fs (length buff)))

  -- With both ends of the chain.
  unfoldable pub write_at_tails :
      Bytes → Bytes → Option ℕ → (chunk_tail : ℕ) → Fs F → Option ℕ × Fs F
  unfolding write_found idle_for
  write_at_tails sha1_val buff file_tail chunk_tail fs =
      let tail = entry_of fs.meta_pool file_tail in
      let plan = calc_write_variable fs.head.chunk_size tail (length buff) in
      write_found sha1_val buff plan file_tail chunk_tail
        (idle_for fs.bit_map draws (is_used_of tail) (chunkid_of file_tail) plan.need_chunk_num) fs

  -- `EdgeFS::write` of a buffer that is not null, for a file with this digest. The task's number
  -- goes up.
  unfoldable pub write : Bytes → Bytes → Fs F → Outcome (Option ℕ × Fs F)
  unfolding write_at_tails
  write sha1_val buff fs =
      let head = generate_hash_key sha1_val fs.head.chunk_num in
      let fs' = record fs { next_taskid = (fs.next_taskid + 1) % 2 ^ 32 } in
      find_file_tail_meta_info fuel fs.meta_pool head sha1_val >>= λ file_tail.
      find_chunk_tail_meta_info fuel fs.meta_pool head >>= λ chunk_tail.
      done (write_at_tails sha1_val buff file_tail chunk_tail fs')
