-- ===== src/EdgeFs/Disk.antt =====
-- A disk that keeps what is written: the system calls behind EdgeFS/src/common/FileOper.cpp, with
-- their documented behaviour, and what a write at an offset leaves of the data file.
pub mod Area
use edge_compute.Base.{
  ℕ, zero, suc, ◌+◌, ◌-◌, ◌*◌, ◌≤◌, ◌<◌, ◌≡◌, ◌≢◌, refl, Bool, true, false, not, ◌&&◌, Option, none,
  some, List, [], ◌∷◌, ◌++◌, ◌==◌, ltb, leb, length, get_or, take, drop, is_pos, arith, Bool-cases,
  inl, inr, ◌⊎◌, ◌∙◌, sym, ap, if◌then◌else◌, ==_refl,
}
use edge_compute.Sys.{Bytes}
use edge_compute.EdgeFs.File.{Os, FileOper, wrote_all, write_here, write_at}

-- The bytes of a file from a position on.
abbrev pub area : (ℕ → ℕ) → (from n : ℕ) → Bytes
area content from zero = []
area content from (suc n) = content from ∷ area content (from + 1) n

-- lseek, write and read of a file without end: `content` is its bytes, and `position` where the next
-- call reads or writes.
pub record IsDisk {F : Type 0} (os : Os F) : Type 0 where
  pub content : F → ℕ → ℕ
  pub position : F → ℕ
  pub seeks : (f : F) (offset : ℕ) → (os.lseek f offset).0 ≡ true
  pub sought : (f : F) (offset : ℕ) → position (os.lseek f offset).1 ≡ offset
  pub unmoved : (f : F) (offset k : ℕ) → content (os.lseek f offset).1 k ≡ content f k
  pub writes : (f : F) (buff : Bytes) → (os.write f buff).0 ≡ some (length buff)
  pub written :
      (f : F) (buff : Bytes) (k : ℕ)
      → content (os.write f buff).1 k ≡ (
          if leb (position f) k && ltb k (position f + length buff)
          then get_or buff (k - position f) 0
          else content f k)
  pub reads : (f : F) (len : ℕ) → (os.read f len).0 ≡ some (area (content f) (position f) len)
  pub unharmed : (f : F) (len k : ℕ) → content (os.read f len).1 k ≡ content f k

module _ {F : Type 0} (os : Os F) (disk : IsDisk os) where
  -- The data file of a FileOper.
  abbrev pub bytes_of : FileOper F → ℕ → ℕ
  bytes_of f = disk.content f.file

  pub write_at-IsDisk :
      (buff : Bytes) (offset : ℕ) (f : FileOper F) (k : ℕ)
      → is_pos f.fd ≡ true
      → ((write_at os buff offset f).0 ≡ true)
        × (bytes_of (write_at os buff offset f).1 k ≡ (
            if leb offset k && ltb k (offset + length buff)
            then get_or buff (k - offset) 0
            else bytes_of f k))
  unfolding write_at write_here wrote_all
  write_at-IsDisk buff offset f k is_open =
      let f' = (os.lseek f.file offset).1 in
      rw
        (
          is_open,
          disk.seeks f.file offset,
          disk.writes f' buff,
          disk.written f' buff k,
          disk.sought f.file offset,
          disk.unmoved f.file offset k,
          ==_refl (length buff),
        )
        (refl, refl)
