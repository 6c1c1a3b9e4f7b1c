-- ===== src/Tests/Files.antt =====
-- The theorems on the bytes of the files, at a disk that keeps what is written to it and a store of
-- three chunks of four bytes.
use edge_compute.Base.{
  ℕ, ◌+◌, ◌-◌, ◌≡◌, refl, true, false, ◌&&◌, some, List, [], ◌∷◌, ◌++◌, leb, ltb, length, pos, take,
  drop, if◌then◌else◌, arith, get_or,
}
use edge_compute.Sys.{Bytes}
use edge_compute.PunchHole.Wire.{le_value}
use edge_compute.Tests.Store.{
  sha1_val, pool, half_full, geometry, buff, half_full-IsBitmap, pool-Linked, store-IsStore,
}
use edge_compute.EdgeFs.Format.{done}
use edge_compute.EdgeFs.Bitmap.{
  mask, is_have, is_idle, scan_chunks, first_idle, generate_idle_chunkids_for_steady,
  generate_idle_chunkids,
}
use edge_compute.EdgeFs.Bitmap.Bits.{IsBitmap, is_in}
use edge_compute.EdgeFs.Bitmap.Search.{Distinct}
use edge_compute.EdgeFs.Init.{head_for, bytes_eq}
use edge_compute.EdgeFs.File.{Os}
use edge_compute.EdgeFs.Chain.{
  generate_hash_key, note_chunk, first_len, plan_rest, calc_write_variable,
}
use edge_compute.EdgeFs.Chain.Linked.{Linked}
use edge_compute.EdgeFs.Disk.{area, IsDisk}
use edge_compute.EdgeFs.Write.{Fs, idle_for, write}
use edge_compute.EdgeFs.Write.Appends.{IsStore}
use edge_compute.EdgeFs.Write.Whole.{contents_of, file_contents-write}
use edge_compute.EdgeFs.Write.Creates.{file_contents-write_new}
use edge_compute.EdgeFs.Read.{put, read}
use edge_compute.EdgeFs.Read.Packed.{file_chunks, IsPacked}
use edge_compute.EdgeFs.Read.Whole.{read-contents}
use edge_compute.EdgeFs.Read.Back.{read-write, read-write_new}

-- The bytes of the data file and the position of the next call.
pub record Memory : Type 0 where
  pub bytes : ℕ → ℕ
  pub next : ℕ

abbrev memory_os : Os Memory
memory_os = record {
  lseek = λ f offset. (true, record f { next = offset });
  write = λ f b. (
    some (length b),
    record {
      bytes = λ k.
          if leb f.next k && ltb k (f.next + length b) then get_or b (k - f.next) 0 else f.bytes k;
      next = f.next + length b;
    },
  );
  read = λ f len. (some (area f.bytes f.next len), record f { next = f.next + len });
}

memory_os-IsDisk : IsDisk memory_os
memory_os-IsDisk = record {
  content = λ f. f.bytes;
  position = λ f. f.next;
  seeks = λ f offset. refl;
  sought = λ f offset. refl;
  unmoved = λ f offset k. refl;
  writes = λ f b. refl;
  written = λ f b k. refl;
  reads = λ f len. refl;
  unharmed = λ f len k. refl;
}

abbrev blank : Memory
blank = record { bytes = λ k. 0; next = 0 }

abbrev memory_store : Fs Memory
memory_store = record {
  head = head_for geometry;
  bit_map = half_full;
  meta_pool = pool;
  data_mgr = record { fd = pos 3; file = blank };
  next_taskid = 0;
}

memory_store-IsStore : IsStore memory_store
memory_store-IsStore = record {
  is_open = refl;
  some_size = store-IsStore.some_size;
  bounded = store-IsStore.bounded;
  chunks = store-IsStore.chunks;
  few = store-IsStore.few;
  marks = store-IsStore.marks;
  room = store-IsStore.room;
}

file_contents-write_example :
    (fs' : Fs Memory) × (write memory_os 9 (λ k. 0) sha1_val buff memory_store ≡ done (some 7, fs'))
    × (IsStore fs' × IsBitmap fs'.bit_map)
    × Linked fs'.meta_pool (0 ∷ 1 ∷ 2 ∷ [])
    × Distinct (0 ∷ 1 ∷ 2 ∷ [])
    × (contents_of memory_os memory_os-IsDisk fs' sha1_val (0 ∷ 1 ∷ 2 ∷ [])
        ≡ contents_of memory_os memory_os-IsDisk memory_store sha1_val (0 ∷ []) ++ buff)
    × ((digest : Bytes) (xs : List ℕ)
        → bytes_eq sha1_val digest ≡ false
        → ((k : ℕ) → is_in k xs ≡ true → is_in k (1 ∷ 2 ∷ []) ≡ false)
        → contents_of memory_os memory_os-IsDisk fs' digest xs
          ≡ contents_of memory_os memory_os-IsDisk memory_store digest xs)
unfolding head_for generate_hash_key note_chunk bytes_eq idle_for generate_idle_chunkids first_idle
    generate_idle_chunkids_for_steady scan_chunks is_idle is_have mask calc_write_variable plan_rest
    first_len le_value
file_contents-write_example =
    file_contents-write memory_os memory_os-IsDisk 9 (λ k. 0) memory_store memory_store-IsStore
      half_full-IsBitmap sha1_val buff (omega arith) 0 [] pool-Linked (1 ∷ 2 ∷ []) refl (refl, tt)
      (omega arith) (omega arith) refl (refl, (refl, tt))

-- A digest whose first chunk is the last one.
abbrev other_sha1 : Bytes
other_sha1 = 2 ∷ take 19 sha1_val

abbrev six_bytes : Bytes
six_bytes = take 6 buff

file_contents-write_new_example :
    (l : List ℕ) × (fs' : Fs Memory) × (2 ∷ 1 ∷ [] ≡ 2 ∷ l)
    × (write memory_os 9 (λ k. 0) other_sha1 six_bytes memory_store ≡ done (some 6, fs'))
    × (IsStore fs' × IsBitmap fs'.bit_map)
    × Linked fs'.meta_pool (2 ∷ l)
    × (contents_of memory_os memory_os-IsDisk fs' other_sha1 (2 ∷ l) ≡ six_bytes)
    × ((digest : Bytes) (xs : List ℕ)
        → ((k : ℕ) → is_in k xs ≡ true → is_in k (2 ∷ 1 ∷ []) ≡ false)
        → contents_of memory_os memory_os-IsDisk fs' digest xs
          ≡ contents_of memory_os memory_os-IsDisk memory_store digest xs)
unfolding head_for generate_hash_key idle_for generate_idle_chunkids first_idle
    generate_idle_chunkids_for_steady scan_chunks is_idle is_have mask plan_rest le_value
file_contents-write_new_example =
    file_contents-write_new memory_os memory_os-IsDisk 9 (λ k. 0) memory_store memory_store-IsStore
      half_full-IsBitmap other_sha1 six_bytes (omega arith) 2 (omega arith) refl (2 ∷ 1 ∷ []) refl
      (omega arith) refl (refl, (refl, tt))

abbrev room_for_three : Bytes
room_for_three = 9 ∷ 9 ∷ 9 ∷ []

read-contents_example :
    (fs' : Fs Memory) × (read memory_os 9 sha1_val 2 0 room_for_three memory_store
      ≡ done (
        some 2,
        (
          put 0
              (take 2
                (drop 0 (contents_of memory_os memory_os-IsDisk memory_store sha1_val (0 ∷ []))))
              room_for_three,
          fs',
        ),
      ))
    × (fs'.meta_pool ≡ memory_store.meta_pool)
    × ((digest : Bytes) (xs : List ℕ)
        → contents_of memory_os memory_os-IsDisk fs' digest xs
          ≡ contents_of memory_os memory_os-IsDisk memory_store digest xs)
unfolding head_for generate_hash_key bytes_eq le_value
read-contents_example =
    read-contents memory_os memory_os-IsDisk 9 memory_store memory_store-IsStore sha1_val 0 []
      pool-Linked 2 0 room_for_three refl (omega arith) (omega arith) (omega arith) tt (omega arith)
      (omega arith) (omega arith) (omega arith)

read-write_example :
    (fs' : Fs Memory) × (fs'' : Fs Memory) × (write memory_os 9 (λ k. 0) sha1_val buff memory_store
      ≡ done (some 7, fs'))
    × IsPacked fs'.meta_pool (file_chunks fs'.meta_pool sha1_val (0 ∷ 1 ∷ 2 ∷ []))
    × (read memory_os 9 sha1_val 3 4 room_for_three fs'
        ≡ done (
          some 3,
          (
            put 0
                (take 3 (
                  drop 4 (
                    contents_of memory_os memory_os-IsDisk memory_store sha1_val (0 ∷ []) ++ buff)))
                room_for_three,
            fs'',
          ),
        ))
unfolding head_for generate_hash_key note_chunk bytes_eq idle_for generate_idle_chunkids first_idle
    generate_idle_chunkids_for_steady scan_chunks is_idle is_have mask calc_write_variable plan_rest
    first_len le_value
read-write_example =
    read-write memory_os memory_os-IsDisk 9 (λ k. 0) memory_store memory_store-IsStore
      half_full-IsBitmap sha1_val buff (omega arith) 0 [] pool-Linked (1 ∷ 2 ∷ []) refl (refl, tt)
      (omega arith) (omega arith) (omega arith) refl (refl, (refl, tt)) (omega arith) tt 3 4
      room_for_three (omega arith) (omega arith) (omega arith) (omega arith)

read-write_new_example :
    (fs' : Fs Memory) × (fs'' : Fs Memory) × (write memory_os 9
        (λ k. 0)
        other_sha1
        six_bytes
        memory_store
      ≡ done (some 6, fs'))
    × (read memory_os 9 other_sha1 3 2 room_for_three fs' ≡ done (some 3, (3 ∷ 4 ∷ 5 ∷ [], fs'')))
unfolding head_for generate_hash_key idle_for generate_idle_chunkids first_idle
    generate_idle_chunkids_for_steady scan_chunks is_idle is_have mask plan_rest le_value
read-write_new_example =
    read-write_new memory_os memory_os-IsDisk 9 (λ k. 0) memory_store memory_store-IsStore
      half_full-IsBitmap other_sha1 six_bytes (omega arith) 2 (omega arith) refl (2 ∷ 1 ∷ []) refl
      (omega arith) (omega arith) refl (refl, (refl, tt)) (omega arith) 3 2 room_for_three
      (omega arith) (omega arith) (omega arith) (omega arith)
