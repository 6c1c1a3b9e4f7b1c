-- ===== src/EdgeFs/Chain/Walks.antt =====
-- The walks end on a chain, and what they find there.
use edge_compute.Base.{
  ℕ, zero, suc, ◌<◌, ◌≤◌, ◌≡◌, refl, ◌≢◌, true, false, Option, none, some, List, [], ◌∷◌, ◌==◌,
  length, get_elem?-in, arith, if◌then◌else◌, ==→eq,
}
use edge_compute.Sys.{Bytes}
use edge_compute.EdgeFs.Format.{MetaInfo, zero_meta, invalid_chunkid, done, out_of_fuel}
use edge_compute.EdgeFs.Chain.{
  is_of, chunk_tail_from, find_chunk_tail_meta_info, file_tail_from, find_file_tail_meta_info,
  ReadChunks, no_chunks, note_chunk, read_chunks_from, generate_read_chunkids,
}
use edge_compute.EdgeFs.Chain.Linked.{at, Linked, last}

-- The last chunk of a file among the chunks of a list.
abbrev pub file_tail : List MetaInfo → Bytes → List ℕ → Option ℕ → Option ℕ
file_tail pool sha1_val [] tail = tail
file_tail pool sha1_val (i ∷ l) tail =
    file_tail pool sha1_val l (if is_of sha1_val (at pool i) then some i else tail)

-- What a read notes of the chunks of a list, in order.
abbrev pub noted : List MetaInfo → (chunk_size : ℕ) → Bytes → List ℕ → ReadChunks → ReadChunks
noted pool chunk_size sha1_val [] r = r
noted pool chunk_size sha1_val (i ∷ l) r =
    noted pool chunk_size sha1_val l (note_chunk chunk_size sha1_val i (at pool i) r)

Linked-next :
    (pool : List MetaInfo) (i j : ℕ) (l : List ℕ)
    → Linked pool (i ∷ j ∷ l)
    → ((at pool i).next_chunkid == invalid_chunkid) ≡ false
Linked-next pool i j l (small, used, next, more, h) = ground (arith, ==→eq j invalid_chunkid)

module _ (pool : List MetaInfo) where
  pub chunk_tail_from-last :
      (fuel i : ℕ) (l : List ℕ)
      → Linked pool (i ∷ l)
      → length (i ∷ l) ≤ fuel
      → chunk_tail_from fuel pool i ≡ done (last i l)
  unfolding chunk_tail_from
  chunk_tail_from-last zero i l h enough = absurd (omega arith)
  chunk_tail_from-last (suc fuel) i [] (small, used, next) enough =
      rw (get_elem?-in pool i zero_meta small, next) refl
  chunk_tail_from-last (suc fuel) i (j ∷ l) h enough =
      let (small, used, next, more, h') = h in
      rw (get_elem?-in pool i zero_meta small, Linked-next pool i j l h, next)
        (chunk_tail_from-last fuel j l h' (omega arith))

  pub file_tail_from-file_tail :
      (fuel : ℕ) (sha1_val : Bytes) (i : ℕ) (l : List ℕ) (tail : Option ℕ)
      → Linked pool (i ∷ l)
      → length (i ∷ l) ≤ fuel
      → file_tail_from fuel pool sha1_val i tail ≡ done (file_tail pool sha1_val (i ∷ l) tail)
  unfolding file_tail_from
  file_tail_from-file_tail zero sha1_val i l tail h enough = absurd (omega arith)
  file_tail_from-file_tail (suc fuel) sha1_val i [] tail (small, used, next) enough =
      rw (get_elem?-in pool i zero_meta small, next) refl
  file_tail_from-file_tail (suc fuel) sha1_val i (j ∷ l) tail h enough =
      let (small, used, next, more, h') = h in
      rw (get_elem?-in pool i zero_meta small, Linked-next pool i j l h, next)
        (file_tail_from-file_tail fuel sha1_val j l
          (if is_of sha1_val (at pool i) then some i else tail) h' (omega arith))

  pub read_chunks_from-noted :
      (fuel chunk_size : ℕ) (sha1_val : Bytes) (i : ℕ) (l : List ℕ) (r : ReadChunks)
      → Linked pool (i ∷ l)
      → length (i ∷ l) ≤ fuel
      → read_chunks_from fuel pool chunk_size sha1_val i r
        ≡ done (noted pool chunk_size sha1_val (i ∷ l) r)
  unfolding read_chunks_from
  read_chunks_from-noted zero chunk_size sha1_val i l r h enough = absurd (omega arith)
  read_chunks_from-noted (suc fuel) chunk_size sha1_val i [] r (small, used, next) enough =
      rw (get_elem?-in pool i zero_meta small, next) refl
  read_chunks_from-noted (suc fuel) chunk_size sha1_val i (j ∷ l) r h enough =
      let (small, used, next, more, h') = h in
      rw (get_elem?-in pool i zero_meta small, Linked-next pool i j l h, next)
        (read_chunks_from-noted fuel chunk_size sha1_val j l
          (note_chunk chunk_size sha1_val i (at pool i) r) h' (omega arith))

  Linked-head :
      (i : ℕ) (l : List ℕ) → Linked pool (i ∷ l) → (i < length pool) × ((at pool i).is_used ≡ true)
  Linked-head i [] (small, used, next) = (small, used)
  Linked-head i (j ∷ l) (small, used, next, more, h) = (small, used)

  -- From the first chunk of a chain, with fuel for its chunks, the three walks end: one finds the
  -- last chunk of the chain, one the last chunk of the file in it, and one the file's chunks in their
  -- order with the sum of the lengths that were written.
  pub Linked-walks :
      (fuel chunk_size : ℕ) (sha1_val : Bytes) (i : ℕ) (l : List ℕ)
      → Linked pool (i ∷ l)
      → length (i ∷ l) ≤ fuel
      → (find_chunk_tail_meta_info fuel pool i ≡ done (last i l))
        × (find_file_tail_meta_info fuel pool i sha1_val
            ≡ done (file_tail pool sha1_val (i ∷ l) none))
        × (generate_read_chunkids fuel pool chunk_size i sha1_val
            ≡ done (noted pool chunk_size sha1_val (i ∷ l) no_chunks))
  unfolding find_chunk_tail_meta_info find_file_tail_meta_info generate_read_chunkids
  Linked-walks fuel chunk_size sha1_val i l h enough =
      let (small, used) = Linked-head i l h in
      let entry = get_elem?-in pool i zero_meta small in
      (
        rw (entry, used) (chunk_tail_from-last fuel i l h enough),
        rw (entry, used) (file_tail_from-file_tail fuel sha1_val i l none h enough),
        rw (entry, used) (read_chunks_from-noted fuel chunk_size sha1_val i l no_chunks h enough),
      )

  -- Where the chain runs into an entry that names itself, the walks never end.
  pub chunk_tail_from-runs_on :
      (fuel i : ℕ)
      → i < length pool
      → (at pool i).next_chunkid ≡ i
      → i ≢ invalid_chunkid
      → chunk_tail_from fuel pool i ≡ out_of_fuel
  unfolding chunk_tail_from
  chunk_tail_from-runs_on zero i small self ne = refl
  chunk_tail_from-runs_on (suc fuel) i small self ne =
      let more : ((at pool i).next_chunkid == invalid_chunkid) ≡ false =
        ground (arith, ==→eq i invalid_chunkid) in
      rw (get_elem?-in pool i zero_meta small, more, self)
        (chunk_tail_from-runs_on fuel i small self ne)
