-- ===== src/Tests/Store.antt =====
-- The theorems of the file store at a small store of three chunks of four bytes.
use edge_compute.Base.{
  ℕ, zero, suc, ◌-◌, ◌/◌, ◌%◌, ◌^◌, ◌≤◌, ◌<◌, ◌≡◌, refl, true, ◌||◌, none, some, List, [], ◌∷◌,
  ◌++◌, leb, length, take, pos, if◌then◌else◌, arith, ==_refl, replicate, get_or, ◌↔◌,
}
use edge_compute.Sys.{Bytes}
use edge_compute.Tests.Systems.{working}
use edge_compute.EdgeFs.Format.{MetaInfo, zero_meta, invalid_chunkid, done, fault}
use edge_compute.EdgeFs.Bitmap.{
  Bitmap, mask, is_have, insert_all, is_idle, scan_chunks, first_idle,
  generate_idle_chunkids_for_steady, generate_idle_chunkids,
}
use edge_compute.EdgeFs.Bitmap.Bits.{IsBitmap, Kept, is_in, is_have-insert_all}
use edge_compute.EdgeFs.Bitmap.Search.{idle_from, scan_chunks-idle_from, Distinct, Free}
use edge_compute.EdgeFs.Bitmap.Choice.{
  is_steady, generate_idle_chunkids-Free, generate_idle_chunkids-repeats,
}
use edge_compute.EdgeFs.Init.{
  SystemInfo, Geometry, sizes, is_refused, memory_chunks, choose_chunk_size, init_fs_calc_variable,
  bytes_eq, Mapped, head_for, reload_index, init_fs,
}
use edge_compute.EdgeFs.Init.Sizes.{
  Fits, init_fs_calc_variable-Fits, saved, reload_index-saved, init_fs-fault,
}
use edge_compute.EdgeFs.File.{Os, wrote_all, write_here, write_at}
use edge_compute.EdgeFs.Chain.{
  find_chunk_tail_meta_info, find_file_tail_meta_info, ReadChunks, generate_read_chunkids,
}
use edge_compute.EdgeFs.Chain.Linked.{at, Linked}
use edge_compute.EdgeFs.Read.Finds.{Linked-finds}
use edge_compute.EdgeFs.Read.{Piece, calc_read_variable, read_found}
use edge_compute.EdgeFs.Read.Addresses.{
  addresses, file_addresses, calc_read_variable-addresses, read_found-out,
}
use edge_compute.EdgeFs.Write.{Fs}
use edge_compute.EdgeFs.Write.Fill.{Writes}
use edge_compute.EdgeFs.Write.Appends.{IsStore}

-- Every call succeeds, and what is written is kept.
abbrev disk : Os (List ℕ)
disk = record {
  lseek = λ f offset. (true, f);
  write = λ f buff. (some (length buff), f ++ buff);
  read = λ f len. (some (take len f), f);
}

abbrev pub sha1_val : Bytes
sha1_val = replicate 20 0

abbrev tail_meta : MetaInfo
tail_meta = record { is_used = true; sha1 = sha1_val; idle_len = 2; next_chunkid = invalid_chunkid }

abbrev pub pool : List MetaInfo
pool = tail_meta ∷ zero_meta ∷ zero_meta ∷ []

-- Chunk 0 is taken, and more than half counts as written.
abbrev pub half_full : Bitmap
half_full = record { bytes = 1 ∷ []; bitmap_size = 1; total_chunk_num = 3; write_chunk_num = 2 }

abbrev fresh : Bitmap
fresh = record half_full { write_chunk_num = 1 }

abbrev pub geometry : Geometry
geometry = record {
  chunk_num = 3;
  chunk_size = 4;
  disk_size = 12;
  bitmap_size = 1;
  mmap_size = 167;
}

abbrev store : Fs (List ℕ)
store = record {
  head = head_for geometry;
  bit_map = half_full;
  meta_pool = pool;
  data_mgr = record { fd = pos 3; file = [] };
  next_taskid = 0;
}

abbrev pub buff : Bytes
buff = 1 ∷ 2 ∷ 3 ∷ 4 ∷ 5 ∷ 6 ∷ 7 ∷ []

disk-Writes : Writes disk
unfolding write_at write_here wrote_all
disk-Writes b offset f e = ground (arith, ==_refl (length b))

pub half_full-IsBitmap : IsBitmap half_full
half_full-IsBitmap = record { bytes = λ k. byte k; room = omega arith }
  where
    byte : (k : ℕ) → get_or (1 ∷ []) k 0 < 256
    byte zero = omega arith
    byte (suc k) = omega arith

pub pool-Linked : Linked pool (0 ∷ [])
pool-Linked = (omega arith, refl, refl)

pub store-IsStore : IsStore store
unfolding head_for is_have mask
store-IsStore = record {
  is_open = refl;
  some_size = omega arith;
  bounded = omega arith;
  chunks = refl;
  few = omega arith;
  marks = λ k small. marked k small;
  room = λ k. small_room k;
}
  where
    marked : (k : ℕ) → k < 3 → is_have half_full k ≡ (at pool k).is_used
    marked zero small = refl
    marked (suc zero) small = refl
    marked (suc (suc zero)) small = refl
    marked (suc (suc (suc k))) small = absurd (omega arith)

    small_room : (k : ℕ) → (at pool k).idle_len ≤ 4
    small_room zero = omega arith
    small_room (suc zero) = omega arith
    small_room (suc (suc zero)) = omega arith
    small_room (suc (suc (suc k))) = omega arith

is_have-insert_all_example :
    Kept half_full (insert_all (1 ∷ 2 ∷ []) half_full)
    × ((j : ℕ)
        → is_have (insert_all (1 ∷ 2 ∷ []) half_full) j
          ≡ (is_in j (1 ∷ 2 ∷ []) || is_have half_full j))
is_have-insert_all_example =
    is_have-insert_all (1 ∷ 2 ∷ []) half_full half_full-IsBitmap (omega arith, (omega arith, tt))

scan_chunks-idle_from_example : scan_chunks half_full 2 0 3 0 [] ≡ (
    if leb 2 (length (idle_from half_full 0 3 0))
    then some (take 2 (idle_from half_full 0 3 0))
    else none)
unfolding is_idle is_have mask
scan_chunks-idle_from_example = scan_chunks-idle_from half_full 2 0 3 0 [] (omega arith)

generate_idle_chunkids-Free_example :
    (length {A = ℕ} (1 ∷ 2 ∷ []) ≡ 2)
    × Free half_full (1 ∷ 2 ∷ [])
    × (is_steady half_full ≡ true → Distinct (1 ∷ 2 ∷ []))
unfolding generate_idle_chunkids first_idle generate_idle_chunkids_for_steady scan_chunks is_idle
    is_have mask
generate_idle_chunkids-Free_example =
    generate_idle_chunkids-Free half_full (λ k. 0) (some true) 0 2 (1 ∷ 2 ∷ []) (omega arith)
      (λ e. cc) refl

generate_idle_chunkids-repeats_example :
    generate_idle_chunkids fresh (λ k. 1) none 0 2 ≡ some (1 ∷ 1 ∷ [])
unfolding is_idle is_have mask
generate_idle_chunkids-repeats_example =
    generate_idle_chunkids-repeats fresh (λ k. 1) 0 1 refl refl (omega arith) refl refl

abbrev small_disk : SystemInfo
small_disk = record { disk_capacity = 4194304; usable_memory = 1000 }

abbrev four_chunks : Geometry
four_chunks = record {
  chunk_num = 4;
  chunk_size = 1048576;
  disk_size = 4194304;
  bitmap_size = 1;
  mmap_size = 209;
}

init_fs_calc_variable-Fits_example : Fits small_disk four_chunks
unfolding init_fs_calc_variable memory_chunks choose_chunk_size sizes is_refused
init_fs_calc_variable-Fits_example = init_fs_calc_variable-Fits small_disk four_chunks refl

abbrev mapped : Mapped
mapped = record { head = head_for geometry; bit_map = half_full; meta_pool = pool }

reload_index-saved_example :
    reload_index geometry (saved mapped)
    ≡ some (record mapped { bit_map = record half_full { write_chunk_num = 0 } })
reload_index-saved_example = reload_index-saved geometry mapped refl refl refl

abbrev huge_memory : SystemInfo
huge_memory = record { disk_capacity = 4194304; usable_memory = 180388626472 }

init_fs-fault_example :
    (init_fs (working []) huge_memory (saved mapped) ≡ fault)
    ↔ ((83 < 180388626472) × ((180388626472 - 40) / 42 % 2 ^ 32 ≡ 0))
init_fs-fault_example = init_fs-fault (working []) huge_memory (saved mapped) (omega arith)

-- Two chunks of the file, with one of another between them and the end.
abbrev shared_pool : List MetaInfo
shared_pool =
    record tail_meta { idle_len = 0; next_chunkid = 2 }
    ∷ record tail_meta { sha1 = 1 ∷ take 19 sha1_val }
    ∷ record tail_meta { idle_len = 3; next_chunkid = 1 }
    ∷ []

Linked-finds_example :
    (find_chunk_tail_meta_info 9 shared_pool 0 ≡ done 1)
    × (find_file_tail_meta_info 9 shared_pool 0 sha1_val ≡ done (some 2))
    × (generate_read_chunkids 9 shared_pool 4 0 sha1_val
        ≡ done
            (record { write_chunkids = 0 ∷ 2 ∷ []; write_total_len = 5; last_chunk_write_len = 1 }))
unfolding bytes_eq
Linked-finds_example =
    Linked-finds shared_pool 9 4 sha1_val 0 (2 ∷ 1 ∷ []) (omega arith) (omega arith) small_room
      (
        omega arith,
        refl,
        refl,
        omega arith,
        (omega arith, refl, refl, omega arith, (omega arith, refl, refl)),
      )
      (omega arith) (omega arith)
  where
    small_room : (k : ℕ) → (at shared_pool k).idle_len ≤ 4
    small_room zero = omega arith
    small_room (suc zero) = omega arith
    small_room (suc (suc zero)) = omega arith
    small_room (suc (suc (suc k))) = omega arith

calc_read_variable-addresses_example :
    (ps : List Piece) × (calc_read_variable 4 (2 ∷ 0 ∷ 1 ∷ []) 3 7 2 ≡ done ps)
    × (addresses ps ≡ file_addresses 4 (2 ∷ 0 ∷ 1 ∷ []) 2 7)
calc_read_variable-addresses_example =
    calc_read_variable-addresses 4 (omega arith) (2 ∷ 0 ∷ 1 ∷ []) 3 7 2 (omega arith) (omega arith)
      (omega arith) (omega arith) (omega arith) (omega arith)

abbrev full_chunks : ReadChunks
full_chunks = record { write_chunkids = 2 ∷ 0 ∷ []; write_total_len = 8; last_chunk_write_len = 4 }

read_found-out_example : read_found disk 5 8 [] store full_chunks ≡ fault
unfolding head_for
read_found-out_example =
    read_found-out disk 5 [] store full_chunks (omega arith) (omega arith) (omega arith) refl
