-- ===== src/EdgeFs/Write/Whole.antt =====
-- `EdgeFS::write` as a whole, on a disk that keeps what is written: it appends to the bytes of the
-- file and leaves a store.
use edge_compute.EdgeFs.Write.Takes.{write_body-Took, result_of, Took-IsStore}
use edge_compute.Base.{
  ℕ, ◌+◌, ◌^◌, ◌<◌, ◌≤◌, ◌≡◌, refl, true, false, Option, none, some, List, [], ◌∷◌, ◌++◌, length,
  arith, ap, ==_refl, sym, subst,
}
use edge_compute.Sys.{Bytes}
use edge_compute.EdgeFs.Format.{MetaInfo, done}
use edge_compute.EdgeFs.Init.{bytes_eq}
use edge_compute.EdgeFs.Bitmap.Bits.{is_in, IsBitmap}
use edge_compute.EdgeFs.Bitmap.Search.{Distinct}
use edge_compute.EdgeFs.File.{Os}
use edge_compute.EdgeFs.Chain.{WritePlan, calc_write_variable, no_chunks, generate_hash_key}
use edge_compute.EdgeFs.Chain.Linked.{Linked, last}
use edge_compute.EdgeFs.Chain.Walks.{file_tail, noted, Linked-walks}
use edge_compute.EdgeFs.Disk.{IsDisk, bytes_of}
use edge_compute.EdgeFs.Contents.{file_contents}
use edge_compute.EdgeFs.Write.{
  Fs, Progress, start, write_body, entry_of, is_used_of, chunkid_of, idle_for, write,
  write_at_tails, write_found,
}
use edge_compute.EdgeFs.Write.Append.{fill-joins}
use edge_compute.EdgeFs.Write.First.{is_in-append}
use edge_compute.EdgeFs.Write.Data.{IsDisk-Writes}
use edge_compute.EdgeFs.Write.Correct.{write_body-Body}
use edge_compute.EdgeFs.Write.Appended.{write_body-Appended}
use edge_compute.EdgeFs.Write.Appends.{IsStore, chosen-Fresh}

Distinct-append :
    (xs ys : List ℕ)
    → Distinct xs
    → Distinct ys
    → ((k : ℕ) → is_in k xs ≡ true → is_in k ys ≡ false)
    → Distinct (xs ++ ys)
Distinct-append [] ys dx dy apart = dy
Distinct-append (x ∷ xs) ys (out, dx) dy apart = (
  ground (arith, is_in-append x xs ys, apart x (ground (arith, ==_refl x)), out),
  Distinct-append xs ys dx dy (λ k e. apart k (ground arith)),
)

-- The bytes of a file in a store, for the chunks of a chain.
abbrev pub contents_of : {F : Type 0} (os : Os F) → IsDisk os → Fs F → Bytes → List ℕ → Bytes
contents_of os disk fs sha1_val xs =
    file_contents fs.meta_pool (bytes_of os disk fs.data_mgr) fs.head.chunk_size sha1_val xs

module _ {F : Type 0} (os : Os F) (disk : IsDisk os) (fuel : ℕ) (draws : ℕ → ℕ) (fs : Fs F)
    (good : IsStore fs) (bits : IsBitmap fs.bit_map) (sha1_val buff : Bytes)
    (short : length buff < 2 ^ 32) (h : ℕ) (l : List ℕ) (linked : Linked fs.meta_pool (h ∷ l)) where
  abbrev pub tail : Option ℕ
  tail = file_tail fs.meta_pool sha1_val (h ∷ l) none

  abbrev pub plan : WritePlan
  plan = calc_write_variable fs.head.chunk_size (entry_of fs.meta_pool tail) (length buff)

  abbrev pub body_of : List ℕ → Progress F
  body_of ids =
      write_body os fs.head.chunk_size sha1_val buff plan ids tail (last h l)
        (start fs (length buff))

  -- The write returns the whole length and leaves `result_of`.
  abbrev pub Results : List ℕ → Type 0
  Results ids =
      (write os fuel draws sha1_val buff fs ≡ done (some (length buff), result_of fs (body_of ids)))
      × (IsStore (result_of fs (body_of ids)) × IsBitmap (body_of ids).bit_map)
      × Linked (body_of ids).pool (h ∷ (l ++ ids))
      × Distinct (h ∷ (l ++ ids))
      × (contents_of os disk (result_of fs (body_of ids)) sha1_val (h ∷ (l ++ ids))
          ≡ contents_of os disk fs sha1_val (h ∷ l) ++ buff)
      × ((digest : Bytes) (xs : List ℕ)
          → bytes_eq sha1_val digest ≡ false
          → ((k : ℕ) → is_in k xs ≡ true → is_in k ids ≡ false)
          → contents_of os disk (result_of fs (body_of ids)) digest xs
            ≡ contents_of os disk fs digest xs)

  pub write-Results :
      (ids : List ℕ)
      → generate_hash_key sha1_val fs.head.chunk_num ≡ h
      → Distinct (h ∷ l)
      → length (h ∷ l) ≤ fuel
      → (noted fs.meta_pool fs.head.chunk_size sha1_val (h ∷ l) no_chunks).write_total_len
          + length buff
        < 2 ^ 64
      → idle_for fs.bit_map draws
          (is_used_of (entry_of fs.meta_pool tail))
          (chunkid_of tail)
          plan.need_chunk_num
        ≡ some ids
      → Distinct ids
      → Results ids
  unfolding write write_at_tails write_found
  write-Results ids key d enough fits found distinct =
      let c = fs.head.chunk_size in
      let p = fs.meta_pool in
      let writes = IsDisk-Writes os disk in
      let (size, fresh) =
        chosen-Fresh os writes fuel draws fs good sha1_val buff short h l linked ids found
          distinct in
      let (ends, tails, reads) = Linked-walks p fuel c sha1_val h l linked enough in
      let s = start fs (length buff) in
      let (q, r, pool, real, joined, was, same_ids, sum, small) =
        write_body-Body os writes c good.some_size good.bounded sha1_val buff short h l s linked d
          refl refl good.is_open tail ids refl size good.room fits in
      let chain =
        fill-joins c plan.last_chunk_write_len sha1_val p q h l ids good.few linked d fresh
          joined in
      let took =
        write_body-Took os disk c good.some_size good.bounded sha1_val buff short h l s linked d
          refl refl good.is_open tail ids refl size fresh.below in
      let (appended, others) =
        write_body-Appended os disk c good.some_size good.bounded sha1_val buff short h l s linked d
          refl refl good.is_open tail ids refl size good.room fresh in
      (
        rw (key, tails, ends, found)
            (ap (λ (n : ℕ). done (some n, result_of fs (body_of ids))) real),
        Took-IsStore os fs sha1_val buff good bits ids (body_of ids) took fresh.below,
        subst (λ (x : List MetaInfo). Linked x (h ∷ (l ++ ids))) (sym pool) chain,
        Distinct-append (h ∷ l) ids d distinct fresh.apart,
        appended,
        others,
      )

  -- Let the disk keep what is written to it and leave the rest alone; let the data file be open, the
  -- chunk size between 1 and 2 ^ 32 - 1, the bitmap well formed and marking exactly the used chunks,
  -- and no chunk have more room than its size. Let the hash key's first chunk start a chain of
  -- different chunks, with fuel for all of them, the buffer be shorter than 2 ^ 32 bytes and the file
  -- with it shorter than 2 ^ 64, and the chunks that are found for the write be different. Then
  -- `write` returns the length of the buffer and leaves such a store and bitmap; the chain goes on
  -- with the chunks that were found and its chunks are different; what it holds of the file is the
  -- file's old bytes with the buffer behind them; and a file of another digest keeps its bytes in
  -- every list of chunks without the new ones.
  pub file_contents-write :
      (ids : List ℕ)
      → generate_hash_key sha1_val fs.head.chunk_num ≡ h
      → Distinct (h ∷ l)
      → length (h ∷ l) ≤ fuel
      → (noted fs.meta_pool fs.head.chunk_size sha1_val (h ∷ l) no_chunks).write_total_len
          + length buff
        < 2 ^ 64
      → idle_for fs.bit_map draws
          (is_used_of (entry_of fs.meta_pool tail))
          (chunkid_of tail)
          plan.need_chunk_num
        ≡ some ids
      → Distinct ids
      → (fs' : Fs F) × (write os fuel draws sha1_val buff fs ≡ done (some (length buff), fs'))
        × (IsStore fs' × IsBitmap fs'.bit_map)
        × Linked fs'.meta_pool (h ∷ (l ++ ids))
        × Distinct (h ∷ (l ++ ids))
        × (contents_of os disk fs' sha1_val (h ∷ (l ++ ids))
            ≡ contents_of os disk fs sha1_val (h ∷ l) ++ buff)
        × ((digest : Bytes) (xs : List ℕ)
            → bytes_eq sha1_val digest ≡ false
            → ((k : ℕ) → is_in k xs ≡ true → is_in k ids ≡ false)
            → contents_of os disk fs' digest xs ≡ contents_of os disk fs digest xs)
  file_contents-write ids key d enough fits found distinct =
      let (run, kept, chain, different, appended, others) =
        write-Results ids key d enough fits found distinct in
      (result_of fs (body_of ids), run, kept, chain, different, appended, others)
