-- ===== src/EdgeFs/Format.antt =====
-- The layout of EdgeFS's index file (EdgeFS/src/EdgeFSProtocol.h), its constants
-- (EdgeFS/src/EdgeFSConst.h), and the macros and helpers of EdgeFS/src/common.
use edge_compute.Base.{
  ℕ, ◌+◌, ◌-◌, ◌/◌, ◌%◌, ◌^◌, Bool, false, [], ◌∷◌, ltb, replicate, if◌then◌else◌,
}
use edge_compute.Sys.{Bytes}

-- "edgefs"
abbrev pub edge_fs_magic : Bytes
edge_fs_magic = 101 ∷ 100 ∷ 103 ∷ 101 ∷ 102 ∷ 115 ∷ []

abbrev pub invalid_chunkid : ℕ
invalid_chunkid = 0xffffffff

abbrev pub min_chunk_size : ℕ
min_chunk_size = 1048576

abbrev pub max_chunk_size : ℕ
max_chunk_size = 134217728

abbrev pub disk_rw_align_size : ℕ
disk_rw_align_size = 4096

-- EdgeFSHead; `magic` holds the first six bytes.
pub record FsHead : Type 0 where
  pub magic : Bytes
  pub coverable_disk_size : ℕ
  pub usable_memory : ℕ
  pub chunk_size : ℕ
  pub chunk_num : ℕ
  pub bitmap_size : ℕ

-- MetaInfo with the digest of its MetaData; the code uses no other field.
pub record MetaInfo : Type 0 where
  pub is_used : Bool
  pub sha1 : Bytes
  pub idle_len : ℕ
  pub next_chunkid : ℕ

-- What `memset` leaves of an entry.
abbrev pub zero_meta : MetaInfo
zero_meta = record { is_used = false; sha1 = replicate 20 0; idle_len = 0; next_chunkid = 0 }

-- The sizes of the packed structs.
abbrev pub size_of_head : ℕ
size_of_head = 40

abbrev pub size_of_meta_info : ℕ
size_of_meta_info = 42

-- The difference of two unsigned 32-bit, or 64-bit, values.
abbrev pub sub_32 : ℕ → ℕ → ℕ
sub_32 a b = (a + 2 ^ 32 - b) % 2 ^ 32

abbrev pub sub_64 : ℕ → ℕ → ℕ
sub_64 a b = (a + 2 ^ 64 - b) % 2 ^ 64

-- DIV_ROUND_UP in 64-bit arithmetic.
abbrev pub div_round_up : ℕ → ℕ → ℕ
div_round_up n d = (n + d - 1) % 2 ^ 64 / d

-- ALIGN_DOWN: `n & ~(d - 1)` is the largest multiple of `d`, a power of two, that is not above `n`.
abbrev pub align_down : ℕ → ℕ → ℕ
align_down n d = n - n % d

-- Utils::limit
abbrev pub limit : ℕ → (min max : ℕ) → ℕ
limit val min max =
    let val' = if ltb val min then min else val in if ltb max val' then max else val'

-- A call that returns, reads or divides where it must not, or goes on beyond its fuel.
pub data Outcome {ℓ} (A : Type ℓ) : Type ℓ where
  done : A → Outcome A
  fault : Outcome A
  out_of_fuel : Outcome A
