-- ===== src/EdgeFs/File.antt =====
-- EdgeFS/src/common/FileOper.cpp: reads and writes at an offset of an open file.
use edge_compute.Base.{
  ℕ, Bool, false, not, Option, none, some, [], ◌==◌, length, ℤ, is_pos, if◌then◌else◌,
}
use edge_compute.Sys.{Bytes}

-- The system calls on an open file, with the file before and after: `none` is -1.
pub record Os (F : Type 0) : Type 0 where
  pub lseek : F → ℕ → Bool × F
  pub write : F → Bytes → Option ℕ × F
  pub read : F → ℕ → Option Bytes × F

pub record FileOper (F : Type 0) : Type 0 where
  pub fd : ℤ
  pub file : F

unfoldable pub wrote_all : Option ℕ → ℕ → Bool
wrote_all none len = false
wrote_all (some n) len = n == len

-- The length is compared as an unsigned number, so -1 is the length 2 ^ 32 - 1; the buffer is then
-- as it was.
unfoldable pub read_all : Option Bytes → ℕ → Option Bytes
read_all none len = if len == 0xffffffff then some [] else none
read_all (some b) len = if len == length b then some b else none

module _ {F : Type 0} (os : Os F) where
  unfoldable pub write_here : Bytes → FileOper F → Bool × FileOper F
  unfolding wrote_all
  write_here buff f = if not (is_pos f.fd) then (false, f) else (
    wrote_all (os.write f.file buff).0 (length buff),
    record f { file = (os.write f.file buff).1 },
  )

  unfoldable pub write_at : Bytes → (offset : ℕ) → FileOper F → Bool × FileOper F
  unfolding write_here
  write_at buff offset f =
      let sought = os.lseek f.file offset in
      if not (is_pos f.fd)
      then (false, f)
      else if not sought.0
      then (false, record f { file = sought.1 })
      else write_here buff (record f { file = sought.1 })

  unfoldable pub read_here : ℕ → FileOper F → Option Bytes × FileOper F
  unfolding read_all
  read_here len f =
      if not (is_pos f.fd)
      then (none, f)
      else (read_all (os.read f.file len).0 len, record f { file = (os.read f.file len).1 })

  unfoldable pub read_at : (len offset : ℕ) → FileOper F → Option Bytes × FileOper F
  unfolding read_here
  read_at len offset f =
      let sought = os.lseek f.file offset in
      if not (is_pos f.fd)
      then (none, f)
      else if not sought.0
      then (none, record f { file = sought.1 })
      else read_here len (record f { file = sought.1 })
