-- ===== src/EdgeFs/Init.antt =====
-- `initFS` of EdgeFS/src/EdgeFS.cpp, with EdgeFS/src/DataMgr.cpp and EdgeFS/src/IndexMgr.cpp.
pub mod Sizes
use Prim.Native.String.{String}
use edge_compute.Base.{
  ℕ, zero, suc, ◌+◌, ◌-◌, ◌*◌, ◌/◌, ◌%◌, ◌^◌, ◌≡◌, Bool, true, false, not, ◌&&◌, ◌||◌, Option, none,
  some, List, [], ◌∷◌, ◌==◌, ltb, leb, length, replicate, if◌then◌else◌,
}
use edge_compute.Sys.{Env, Bytes, M, pure, ◌>>=◌, ◌>>◌, extern}
use edge_compute.EdgeFs.Format.{
  FsHead, MetaInfo, zero_meta, Outcome, done, fault, out_of_fuel, edge_fs_magic, min_chunk_size,
  max_chunk_size, disk_rw_align_size, size_of_head, size_of_meta_info, sub_64, align_down, limit,
}
use edge_compute.EdgeFs.Bitmap.{Bitmap, init_bitmap}

-- SystemInfo, less the directory
pub record SystemInfo : Type 0 where
  pub disk_capacity : ℕ
  pub usable_memory : ℕ

-- The output parameters of `initFSCalcVariable`.
pub record Geometry : Type 0 where
  pub chunk_num : ℕ
  pub chunk_size : ℕ
  pub disk_size : ℕ
  pub bitmap_size : ℕ
  pub mmap_size : ℕ

unfoldable pub init_fs_check_param : SystemInfo → Bool
init_fs_check_param info = not (leb info.usable_memory (size_of_head + 1 + size_of_meta_info))

-- The sizes for a chunk size; `chunkNum` and `bitmapSize` have 32 bits.
unfoldable pub sizes : (disk_capacity chunk_size : ℕ) → Geometry
sizes disk_capacity chunk_size =
    let chunk_num = disk_capacity / chunk_size % 2 ^ 32 in
    let bitmap_size = (chunk_num + 7) % 2 ^ 32 / 8 in
    record {
      chunk_num = chunk_num;
      chunk_size = chunk_size;
      disk_size = chunk_num * chunk_size % 2 ^ 64;
      bitmap_size = bitmap_size;
      mmap_size = (size_of_head + bitmap_size + chunk_num * size_of_meta_info) % 2 ^ 64;
    }

unfoldable pub is_refused : SystemInfo → Geometry → Bool
is_refused info g =
    g.chunk_num == 0
    || g.chunk_size == 0
    || g.bitmap_size == 0
    || g.disk_size == 0
    || g.mmap_size == 0
    || ltb info.disk_capacity g.disk_size
    || ltb info.usable_memory g.mmap_size

-- The first number of chunks is how many entries the memory holds.
unfoldable pub memory_chunks : SystemInfo → ℕ
memory_chunks info = sub_64 info.usable_memory size_of_head / size_of_meta_info % 2 ^ 32

unfoldable pub choose_chunk_size : SystemInfo → ℕ
unfolding memory_chunks
choose_chunk_size info =
    limit (align_down (info.disk_capacity / memory_chunks info % 2 ^ 32) disk_rw_align_size)
      min_chunk_size max_chunk_size

-- `none` is the return value `false`; a division by zero is a fault.
unfoldable pub init_fs_calc_variable : SystemInfo → Outcome (Option Geometry)
unfolding memory_chunks choose_chunk_size sizes is_refused
init_fs_calc_variable info =
    if memory_chunks info == 0
    then fault
    else if is_refused info (sizes info.disk_capacity (choose_chunk_size info))
    then done none
    else done (some (sizes info.disk_capacity (choose_chunk_size info)))

-- The index file as it is mapped: its head, the bytes of the bitmap, and the entries of the chunks.
-- A file that is there and shorter than its head, whose mapping cannot be read, is not among them.
pub record Index : Type 0 where
  pub head : FsHead
  pub bits : List ℕ
  pub meta_pool : List MetaInfo

-- The file system after `initFS`: the mapped file and the fields of Bitmap.
pub record Mapped : Type 0 where
  pub head : FsHead
  pub bit_map : Bitmap
  pub meta_pool : List MetaInfo

unfoldable pub head_for : Geometry → FsHead
head_for g = record {
  magic = edge_fs_magic;
  coverable_disk_size = g.disk_size;
  usable_memory = g.mmap_size;
  chunk_size = g.chunk_size;
  chunk_num = g.chunk_num;
  bitmap_size = g.bitmap_size;
}

-- initFSCalcPointerAddrForCreateIdxFile, once the file is mapped
unfoldable pub create_index : Geometry → Mapped
unfolding head_for
create_index g = record {
  head = head_for g;
  bit_map = init_bitmap (replicate g.bitmap_size 0) g.bitmap_size g.chunk_num;
  meta_pool = replicate g.chunk_num zero_meta;
}

unfoldable pub bytes_eq : Bytes → Bytes → Bool
bytes_eq [] [] = true
bytes_eq (x ∷ xs) (y ∷ ys) = x == y && bytes_eq xs ys
bytes_eq _ _ = false

-- The comparison of the index file's head.
unfoldable pub head_matches : Geometry → FsHead → Bool
unfolding bytes_eq
head_matches g h =
    bytes_eq h.magic edge_fs_magic
    && h.usable_memory == g.mmap_size
    && h.coverable_disk_size == g.disk_size
    && h.chunk_num == g.chunk_num
    && h.chunk_size == g.chunk_size
    && h.bitmap_size == g.bitmap_size

-- initFSCalcPointerAddrForReloadIdxFile, once the file is mapped
unfoldable pub reload_index : Geometry → Index → Option Mapped
unfolding head_matches
reload_index g file =
    if head_matches g file.head
    then some (record {
      head = file.head;
      bit_map = init_bitmap file.bits g.bitmap_size g.chunk_num;
      meta_pool = file.meta_pool;
    })
    else none

module _ (env : Env) where
  -- FileOper::open and ftruncate
  unfoldable pub init_data_mgr : M Bool
  init_data_mgr = do
    opened ← extern env "open edgefs.data"
    if not opened then pure false else extern env "ftruncate edgefs.data"

  -- The index file exists if `access` succeeds; then its size is left alone.
  unfoldable pub init_index_mgr : M (Bool × Bool)
  init_index_mgr = do
    exists ← extern env "access edgefs.idx"
    opened ← extern env "open edgefs.idx"
    if not opened
        then pure (false, exists)
        else if exists
        then pure (true, true)
        else do truncated ← extern env "ftruncate edgefs.idx"; pure (truncated, false)

  -- initFSCalcPointerAddr
  unfoldable pub map_index : Bool → Geometry → Index → M (Option Mapped)
  map_index exists g file = do
    mapped ← extern env "mmap"
    if not mapped
        then pure none
        else if exists
        then pure (reload_index g file)
        else pure (some (create_index g))

  unfoldable pub init_files : Geometry → Index → M (Option Mapped)
  unfolding init_data_mgr init_index_mgr map_index
  init_files g file = do
    data_ready ← init_data_mgr
    if not data_ready then pure none else do
      (index_ready, exists) ← init_index_mgr
      if not index_ready then pure none else map_index exists g file

  -- initFSFailRollBack unlinks both files.
  unfoldable pub roll_back : M (Option Mapped)
  roll_back = do _ ← extern env "unlink edgefs.data"; _ ← extern env "unlink edgefs.idx"; pure none

  unfoldable pub or_roll_back : Option Mapped → M (Option Mapped)
  unfolding roll_back
  or_roll_back none = roll_back
  or_roll_back (some fs) = pure (some fs)

  -- `file` is what the index file holds, if it exists.
  unfoldable pub init_with : Outcome (Option Geometry) → Index → Outcome (M (Option Mapped))
  unfolding init_files or_roll_back
  init_with (done (some g)) file = done (init_files g file >>= or_roll_back)
  init_with (done none) file = done roll_back
  init_with fault file = fault
  init_with out_of_fuel file = out_of_fuel

  unfoldable pub init_fs : SystemInfo → Index → Outcome (M (Option Mapped))
  unfolding init_with
  init_fs info file =
      if init_fs_check_param info
      then init_with (init_fs_calc_variable info) file
      else done roll_back
