-- ===== src/EdgeFs/Init/Sizes.antt =====
-- The sizes that `initFS` computes, and the reload of an index file.
use native.Mathlib.Nat.{mul-le-mul_left}
use Prim.Native.Nat.{bit_and, bit_and-bitwise}
use edge_compute.Base.{
  ℕ, zero, suc, ◌+◌, ◌-◌, ◌*◌, ◌/◌, ◌%◌, ◌^◌, ◌≤◌, ◌<◌, ◌≡◌, refl, true, false, some, [], ◌∷◌, ◌==◌,
  length, replicate, length-replicate, get_or, arith, Bool-cases, inl, inr, sym, ◌↔◌,
}
use edge_compute.Sys.{Bytes, Env}
use edge_compute.EdgeFs.Format.{
  zero_meta, done, fault, edge_fs_magic, min_chunk_size, max_chunk_size, disk_rw_align_size,
}
use edge_compute.EdgeFs.Bitmap.{init_bitmap, is_have, mask}
use edge_compute.EdgeFs.Bitmap.Bits.{IsBitmap}
use edge_compute.EdgeFs.Init.{
  SystemInfo, Geometry, sizes, is_refused, memory_chunks, choose_chunk_size, init_fs_calc_variable,
  init_fs_check_param, init_fs, init_with, Index, Mapped, head_for, create_index, reload_index,
  head_matches, bytes_eq,
}

-- The sizes fit the disk and the memory, and the parts of the index file fit together.
pub record Fits (info : SystemInfo) (g : Geometry) : Type 0 where
  pub aligned : g.chunk_size % disk_rw_align_size ≡ 0
  pub large : min_chunk_size ≤ g.chunk_size
  pub small : g.chunk_size ≤ max_chunk_size
  pub some_chunks : 0 < g.chunk_num
  pub numbered : g.chunk_num < 2 ^ 32
  pub bits : g.chunk_num ≤ 8 * g.bitmap_size
  pub on_disk : g.disk_size ≡ g.chunk_num * g.chunk_size
  pub disk : g.disk_size ≤ info.disk_capacity
  pub parts : g.mmap_size ≡ 40 + g.bitmap_size + g.chunk_num * 42
  pub memory : g.mmap_size ≤ info.usable_memory

chosen :
    (info : SystemInfo)
    → (min_chunk_size ≤ choose_chunk_size info)
      × (choose_chunk_size info ≤ max_chunk_size)
      × (choose_chunk_size info % disk_rw_align_size ≡ 0)
unfolding choose_chunk_size
chosen info = ground arith

sizes-Fits :
    (info : SystemInfo) (size : ℕ)
    → min_chunk_size ≤ size
    → size ≤ max_chunk_size
    → size % disk_rw_align_size ≡ 0
    → is_refused info (sizes info.disk_capacity size) ≡ false
    → Fits info (sizes info.disk_capacity size)
unfolding sizes is_refused
sizes-Fits info size large small aligned accepted =
    let n = info.disk_capacity / size % 2 ^ 32 in
    let bounded : n < 2 ^ 32 = omega arith in
    let product : n * size ≤ n * 2 ^ 27 = mul-le-mul_left n small in
    let mapped = 40 + (n + 7) % 2 ^ 32 / 8 + n * 42 in
    record {
      aligned = aligned;
      large = large;
      small = small;
      some_chunks = ground arith;
      numbered = bounded;
      bits = ground arith;
      on_disk = omega (arith, product);
      disk = ground arith;
      parts = omega arith;
      memory = ground arith;
    }

-- If `initFSCalcVariable` succeeds, the chunk size is a multiple of 4096 between the two limits, the
-- bitmap has a bit for every chunk, nothing overflowed, the chunks lie on the disk, and the head, the
-- bitmap and the entries fit in the memory.
pub init_fs_calc_variable-Fits :
    (info : SystemInfo) (g : Geometry) → init_fs_calc_variable info ≡ done (some g) → Fits info g
unfolding init_fs_calc_variable sizes is_refused
init_fs_calc_variable-Fits info g e = elim (Bool-cases (memory_chunks info == 0)) [
  | inl zero_chunks ↦ let e' = rw zero_chunks at e in cc
  | inr some_chunks ↦
      let size = choose_chunk_size info in
      let (large, small, aligned) = chosen info in
      let g' = sizes info.disk_capacity size in
      elim (Bool-cases (is_refused info g')) [
        | inl refused ↦ let e' = rw (some_chunks, refused) at e in cc
        | inr accepted ↦
            let e' = rw (some_chunks, accepted) at e in
            let same : g' ≡ g = cc in
            rw (sym same) (sizes-Fits info size large small aligned accepted)
      ]
]

get_or-replicate : (n k : ℕ) → get_or (replicate {A = ℕ} n 0) k 0 ≡ 0
get_or-replicate zero k = refl
get_or-replicate (suc n) zero = refl
get_or-replicate (suc n) (suc k) = get_or-replicate n k

no_bits : (m : ℕ) → bit_and 0 m ≡ 0
no_bits m = bit_and-bitwise 0 m

-- A new index file for sizes that fit has an entry for every chunk, and no chunk is taken.
pub create_index-Empty :
    (info : SystemInfo) (g : Geometry)
    → Fits info g
    → IsBitmap (create_index g).bit_map
      × (length (create_index g).meta_pool ≡ g.chunk_num)
      × ((j : ℕ) → is_have (create_index g).bit_map j ≡ false)
unfolding create_index init_bitmap is_have mask
create_index-Empty info g fits = (
  record {
    bytes = λ k. omega (arith, get_or-replicate g.bitmap_size k);
    room = omega (arith, fits.bits, length-replicate {A = ℕ} g.bitmap_size 0);
  },
  length-replicate g.chunk_num zero_meta,
  λ j. rw (get_or-replicate g.bitmap_size (j / 8), no_bits (2 ^ (j % 8))) (ground arith),
)

-- What the mapped file keeps of a file system.
abbrev pub saved : Mapped → Index
saved fs = record { head = fs.head; bits = fs.bit_map.bytes; meta_pool = fs.meta_pool }

pub bytes_eq_refl : (xs : Bytes) → bytes_eq xs xs ≡ true
unfolding bytes_eq
bytes_eq_refl [] = refl
bytes_eq_refl (x ∷ xs) = ground (arith, bytes_eq_refl xs)

pub bytes_eq→eq : (xs ys : Bytes) → bytes_eq xs ys ≡ true → xs ≡ ys
unfolding bytes_eq
bytes_eq→eq [] [] e = refl
bytes_eq→eq [] (y ∷ ys) e = cc
bytes_eq→eq (x ∷ xs) [] e = cc
bytes_eq→eq (x ∷ xs) (y ∷ ys) e = ground (arith, bytes_eq→eq xs ys)

-- The reload of a saved index file of the same sizes gives back the file system, except that it
-- counts no chunk as written.
pub reload_index-saved :
    (g : Geometry) (fs : Mapped)
    → fs.head ≡ head_for g
    → fs.bit_map.bitmap_size ≡ g.bitmap_size
    → fs.bit_map.total_chunk_num ≡ g.chunk_num
    → reload_index g (saved fs)
      ≡ some (record fs { bit_map = record fs.bit_map { write_chunk_num = 0 } })
unfolding reload_index head_matches head_for init_bitmap
reload_index-saved g fs e size total = ground (arith, bytes_eq_refl edge_fs_magic)

-- A reload is accepted only of a file whose head is the one that these sizes would be written with.
pub reload_index-head :
    (g : Geometry) (file : Index) (fs : Mapped)
    → reload_index g file ≡ some fs
    → (file.head ≡ head_for g)
      × (fs.head ≡ file.head)
      × (fs.meta_pool ≡ file.meta_pool)
      × (fs.bit_map.bytes ≡ file.bits)
unfolding reload_index head_matches head_for init_bitmap
reload_index-head g file fs e = ground (arith, bytes_eq→eq file.head.magic edge_fs_magic)

-- `initFS` faults exactly when the memory is enough for 2 ^ 32 entries or more, and the number of
-- entries has no lowest 32 bits: `chunkNum` wraps to 0 and the disk is divided by it.
pub init_fs-fault :
    (env : Env) (info : SystemInfo) (file : Index)
    → info.usable_memory < 2 ^ 64
    → (init_fs env info file ≡ fault)
      ↔ ((83 < info.usable_memory) × ((info.usable_memory - 40) / 42 % 2 ^ 32 ≡ 0))
unfolding init_fs init_with init_fs_check_param init_fs_calc_variable memory_chunks
init_fs-fault env info file small = ground arith
