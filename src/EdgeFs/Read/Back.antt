-- ===== src/EdgeFs/Read/Back.antt =====
-- `EdgeFS::write` and then `EdgeFS::read`: what was written is read back.
use edge_compute.Base.{
  ℕ, ◌+◌, ◌^◌, ◌≤◌, ◌<◌, ◌≡◌, refl, false, Option, some, List, [], ◌∷◌, ◌++◌, length, take, drop,
  arith, ◌∙◌, ap, sym, subst, length-append, inr,
}
use edge_compute.Sys.{Bytes}
use edge_compute.EdgeFs.Format.{MetaInfo, done}
use edge_compute.EdgeFs.Bitmap.Bits.{IsBitmap}
use edge_compute.EdgeFs.Bitmap.Search.{Distinct}
use edge_compute.EdgeFs.File.{Os}
use edge_compute.EdgeFs.Chain.{plan_rest, no_chunks, generate_hash_key}
use edge_compute.EdgeFs.Chain.Linked.{at, Linked}
use edge_compute.EdgeFs.Chain.Walks.{noted}
use edge_compute.EdgeFs.Disk.{IsDisk}
use edge_compute.EdgeFs.Write.{
  link_chain, Fs, start, idle_for, entry_of, is_used_of, chunkid_of, write,
}
use edge_compute.EdgeFs.Write.Data.{IsDisk-Writes}
use edge_compute.EdgeFs.Write.Appends.{IsStore, chosen-Fresh}
use edge_compute.EdgeFs.Write.Fill.{AllBelow-resize}
use edge_compute.EdgeFs.Write.Append.{Fresh}
use edge_compute.EdgeFs.Write.Links.{length-link_chain}
use edge_compute.EdgeFs.Write.Takes.{result_of}
use edge_compute.EdgeFs.Write.Whole
use edge_compute.EdgeFs.Write.Creates
use edge_compute.EdgeFs.Read.{put, read}
use edge_compute.EdgeFs.Read.Packed.{file_chunks, IsPacked}
use edge_compute.EdgeFs.Read.Whole.{read-contents}
use edge_compute.EdgeFs.Read.Packs.{fill-IsPacked}
use edge_compute.EdgeFs.Read.Grows.{write_body-packed}

module _ {F : Type 0} (os : Os F) (disk : IsDisk os) (fuel : ℕ) (draws : ℕ → ℕ) (fs : Fs F)
    (good : IsStore fs) (bits : IsBitmap fs.bit_map) (sha1_val buff : Bytes)
    (short : length buff < 2 ^ 32) (h : ℕ) (l : List ℕ) (linked : Linked fs.meta_pool (h ∷ l)) where
  abbrev tail_of : Option ℕ
  tail_of = Whole.tail os disk fuel draws fs good bits sha1_val buff short h l linked

  abbrev need_of : ℕ
  need_of =
      (Whole.plan os disk fuel draws fs good bits sha1_val buff short h l linked).need_chunk_num

  -- Let the disk keep what is written to it and leave the rest alone; let the data file be open, the
  -- chunk size between 1 and 2 ^ 27, the bitmap well formed and marking exactly the used chunks, and no
  -- chunk have more room than its size. Let the hash key's first chunk start a chain of different
  -- chunks, in which all chunks of the file but its last are full; let the chain have, with the
  -- different chunks that are found for the write, no more chunks than the fuel and fewer than
  -- 2 ^ 32; let the buffer be shorter than 2 ^ 32 bytes and the file with it shorter than 2 ^ 64.
  -- Then `write` returns the length of the buffer, still all chunks of the file but its last are
  -- full, and a `read` behind it of some bytes, fewer than 2 ^ 31 and within the file, into a buffer
  -- that has room for them, returns their number and puts into the buffer what stands there in the
  -- file's old bytes followed by the buffer that was written.
  pub read-write :
      (ids : List ℕ)
      → generate_hash_key sha1_val fs.head.chunk_num ≡ h
      → Distinct (h ∷ l)
      → length (h ∷ (l ++ ids)) ≤ fuel
      → length (h ∷ (l ++ ids)) < 2 ^ 32
      → (noted fs.meta_pool fs.head.chunk_size sha1_val (h ∷ l) no_chunks).write_total_len
          + length buff
        < 2 ^ 64
      → idle_for fs.bit_map draws
          (is_used_of (entry_of fs.meta_pool tail_of))
          (chunkid_of tail_of)
          need_of
        ≡ some ids
      → Distinct ids
      → fs.head.chunk_size ≤ 2 ^ 27
      → IsPacked fs.meta_pool (file_chunks fs.meta_pool sha1_val (h ∷ l))
      → (len offset : ℕ) (out : Bytes) → 0 < len
      → len < 2 ^ 31
      → offset + len ≤ length (Whole.contents_of os disk fs sha1_val (h ∷ l) ++ buff)
      → len ≤ length out
      → (fs' : Fs F) × (fs'' : Fs F) × (write os fuel draws sha1_val buff fs
          ≡ done (some (length buff), fs'))
        × IsPacked fs'.meta_pool (file_chunks fs'.meta_pool sha1_val (h ∷ (l ++ ids)))
        × (read os fuel sha1_val len offset out fs'
            ≡ done (
              some len,
              (
                put 0
                    (take len (drop offset (Whole.contents_of os disk fs sha1_val (h ∷ l) ++ buff)))
                    out,
                fs'',
              ),
            ))
  read-write ids key d enough few fits found distinct small packed len offset out some_len short_len
        within room =
      let c = fs.head.chunk_size in
      let enough' : length (h ∷ l) ≤ fuel = omega (arith, length-append (h ∷ l) ids, enough) in
      let (size, fresh) =
        chosen-Fresh os (IsDisk-Writes os disk) fuel draws fs good sha1_val buff short h l linked
          ids found distinct in
      let (run, (good', bits'), chain, different, appended, others) =
        Whole.write-Results os disk fuel draws fs good bits sha1_val buff short h l linked ids key d
          enough' fits found distinct in
      let s = start fs (length buff) in
      let packed' =
        write_body-packed os disk c good.some_size good.bounded sha1_val buff short h l s linked d
          refl refl good.is_open packed tail_of ids refl size fresh in
      let fs' =
        result_of fs
          (Whole.body_of os disk fuel draws fs good bits sha1_val buff short h l linked ids) in
      let (fs'', was_read, same_pool, same) =
        read-contents os disk fuel fs' good' sha1_val h (l ++ ids) chain len offset out key enough
          few small packed' some_len short_len
          (omega (arith, ap (λ (b : Bytes). length b) appended, within)) room in
      (
        fs',
        fs'',
        run,
        packed',
        was_read
            ∙ ap (λ (b : Bytes). done (some len, (put 0 (take len (drop offset b)) out, fs'')))
                appended,
      )

module _ {F : Type 0} (os : Os F) (disk : IsDisk os) (fuel : ℕ) (draws : ℕ → ℕ) (fs : Fs F)
    (good : IsStore fs) (bits : IsBitmap fs.bit_map) (sha1_val buff : Bytes)
    (short : length buff < 2 ^ 32) (h : ℕ) (in_pool : h < length fs.meta_pool)
    (unused : (at fs.meta_pool h).is_used ≡ false) where
  abbrev new_need : ℕ
  new_need = (plan_rest fs.head.chunk_size 0 (length buff)).need_chunk_num

  -- Let the disk keep what is written to it and leave the rest alone; let the data file be open, the
  -- chunk size between 1 and 2 ^ 27, the bitmap well formed and marking exactly the used chunks, and no
  -- chunk have more room than its size. Let the hash key's first chunk be one that is not used; let
  -- the buffer be not empty and shorter than 2 ^ 32 bytes, and the chunks that are found for it be
  -- different, no more than the fuel and fewer than 2 ^ 32. Then `write` returns the length of the
  -- buffer, and a `read` behind it of some bytes, fewer than 2 ^ 31 and within the buffer, into a
  -- buffer that has room for them, returns their number and puts there what stands in the buffer that
  -- was written.
  pub read-write_new :
      (ids : List ℕ)
      → generate_hash_key sha1_val fs.head.chunk_num ≡ h
      → length ids ≤ fuel
      → length ids < 2 ^ 32
      → idle_for fs.bit_map draws (some false) h new_need ≡ some ids
      → Distinct ids
      → fs.head.chunk_size ≤ 2 ^ 27
      → (len offset : ℕ) (out : Bytes) → 0 < len
      → len < 2 ^ 31
      → offset + len ≤ length buff
      → len ≤ length out
      → (fs' : Fs F) × (fs'' : Fs F) × (write os fuel draws sha1_val buff fs
          ≡ done (some (length buff), fs'))
        × (read os fuel sha1_val len offset out fs'
            ≡ done (some len, (put 0 (take len (drop offset buff)) out, fs'')))
  read-write_new ids key enough few found d small len offset out some_len short_len within room =
      let c = fs.head.chunk_size in
      let (l, (begins, run, (good', bits'), chain, created, others, pool, below)) =
        Creates.write_new-Results os disk fuel draws fs good bits sha1_val buff short h in_pool
          unused ids key (omega arith) found d in
      let fs' = result_of fs (
        Creates.body_of os disk fuel draws fs good bits sha1_val buff short h in_pool unused ids) in
      let q = link_chain os c sha1_val buff h ids fs.meta_pool in
      let last_len = (plan_rest c 0 (length buff)).last_chunk_write_len in
      let fresh : Fresh q [] ids = record {
        below = AllBelow-resize ids (length-link_chain os c sha1_val buff fs.meta_pool h ids) below;
        distinct = d;
        apart = λ k e. cc;
      } in
      let packed =
        fill-IsPacked c last_len sha1_val q q [] ids (λ k. refl) (λ k. omega arith) tt
          (inr (λ t e. cc)) fresh in
      let packed' : IsPacked fs'.meta_pool (file_chunks fs'.meta_pool sha1_val (h ∷ l)) =
        subst (λ (x : List ℕ). IsPacked fs'.meta_pool (file_chunks fs'.meta_pool sha1_val x)) begins
          (subst (λ (p : List MetaInfo). IsPacked p (file_chunks p sha1_val ids)) (sym pool)
            packed) in
      let size = ap (λ (x : List ℕ). length x) begins in
      let (fs'', was_read, same_pool, same) =
        read-contents os disk fuel fs' good' sha1_val h l chain len offset out key
          (omega (arith, size, enough)) (omega (arith, size, few)) small packed' some_len short_len
          (omega (arith, ap (λ (b : Bytes). length b) created, within)) room in
      (
        fs',
        fs'',
        run,
        was_read
            ∙ ap (λ (b : Bytes). done (some len, (put 0 (take len (drop offset b)) out, fs'')))
                created,
      )
