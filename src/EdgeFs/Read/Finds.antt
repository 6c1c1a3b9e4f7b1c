-- ===== src/EdgeFs/Read/Finds.antt =====
-- What the walks of EdgeFS/src/EdgeFS.cpp along the chain of a hash key find.
use edge_compute.Base.{ℕ, ◌≤◌, ◌<◌, ◌^◌, ◌≡◌, none, List, ◌∷◌, length, arith, ◌∙◌, ap}
use edge_compute.Sys.{Bytes}
use edge_compute.EdgeFs.Format.{MetaInfo, done}
use edge_compute.EdgeFs.Chain.{
  ReadChunks, no_chunks, find_chunk_tail_meta_info, find_file_tail_meta_info,
  generate_read_chunkids,
}
use edge_compute.EdgeFs.Chain.Linked.{at, Linked, last}
use edge_compute.EdgeFs.Chain.Walks.{noted, Linked-walks}
use edge_compute.EdgeFs.Read.Packed.{file_chunks, size_of, last_len_of, noted-Notes}
use edge_compute.EdgeFs.Read.Packs.{end_of, file_tail-end_of}

-- The chunks of a file in a chain, with the bytes that they hold and those that the last one holds.
abbrev pub found_in : List MetaInfo → (chunk_size : ℕ) → List ℕ → ReadChunks
found_in pool chunk_size ids = record {
  write_chunkids = ids;
  write_total_len = size_of pool chunk_size ids;
  last_chunk_write_len = last_len_of pool chunk_size ids 0;
}

-- Let a chain be linked, the chunk size be between 1 and 2 ^ 32 - 1, no chunk have more room than its
-- size, and the file's bytes be fewer than 2 ^ 64. From the first chunk of the chain, with fuel for its chunks, the three walks end: one finds
-- the last chunk of the chain; one the last of its chunks that are the file's, if there is one; and
-- one the file's chunks in their order, the number of bytes in them and that in the last of them.
pub Linked-finds :
    (pool : List MetaInfo) (fuel c : ℕ) (sha1_val : Bytes) (i : ℕ) (l : List ℕ)
    → 0 < c
    → c < 2 ^ 32
    → ((k : ℕ) → (at pool k).idle_len ≤ c)
    → Linked pool (i ∷ l)
    → length (i ∷ l) ≤ fuel
    → size_of pool c (file_chunks pool sha1_val (i ∷ l)) < 2 ^ 64
    → (find_chunk_tail_meta_info fuel pool i ≡ done (last i l))
      × (find_file_tail_meta_info fuel pool i sha1_val
          ≡ done (end_of (file_chunks pool sha1_val (i ∷ l)) none))
      × (generate_read_chunkids fuel pool c i sha1_val
          ≡ done (found_in pool c (file_chunks pool sha1_val (i ∷ l))))
Linked-finds pool fuel c sha1_val i l some_size bounded room h enough fits =
    let (ends, tails, reads) = Linked-walks pool fuel c sha1_val i l h enough in
    let (ids, sum, rest) =
      noted-Notes pool c some_size sha1_val bounded room (i ∷ l) no_chunks (omega (arith, fits)) in
    let total : (noted pool c sha1_val (i ∷ l) no_chunks).write_total_len
        ≡ size_of pool c (file_chunks pool sha1_val (i ∷ l)) =
      omega (arith, sum) in
    let r = noted pool c sha1_val (i ∷ l) no_chunks in
    let same : r ≡ found_in pool c (file_chunks pool sha1_val (i ∷ l)) = λ j. record {
      write_chunkids = ids j;
      write_total_len = total j;
      last_chunk_write_len = rest j;
    } in
    (ends, tails ∙ ap done (file_tail-end_of pool sha1_val (i ∷ l) none), reads ∙ ap done same)
