-- ===== src/EdgeFs/Write/Creates.antt =====
-- `EdgeFS::write` for a hash key whose first chunk is not used: it begins a chain.
use edge_compute.Base.{
  ℕ, ◌^◌, ◌<◌, ◌≡◌, refl, Bool, true, false, some, List, [], ◌∷◌, ◌==◌, length, get_elem?-in, arith,
  ◌∙◌, ap, Option-cases, inl, inr, sym, subst,
}
use edge_compute.Sys.{Bytes}
use edge_compute.EdgeFs.Format.{sub_32, MetaInfo, zero_meta, done}
use edge_compute.EdgeFs.Bitmap.{Bitmap, generate_idle_chunkids}
use edge_compute.EdgeFs.Bitmap.Bits.{is_in, AllBelow, IsBitmap}
use edge_compute.EdgeFs.Bitmap.Search.{Distinct}
use edge_compute.EdgeFs.Bitmap.Choice.{IsTail}
use edge_compute.EdgeFs.Bitmap.Begins.{Begins, generate_idle_chunkids-Begins}
use edge_compute.EdgeFs.File.{Os}
use edge_compute.EdgeFs.Chain.{
  WritePlan, first_len, plan_rest, calc_write_variable, generate_hash_key,
  find_chunk_tail_meta_info, find_file_tail_meta_info,
}
use edge_compute.EdgeFs.Chain.Linked.{at, Linked}
use edge_compute.EdgeFs.Disk.{IsDisk, bytes_of}
use edge_compute.EdgeFs.Contents.{file_contents, file_contents-frame, chunk_contents-same}
use edge_compute.EdgeFs.Write.{
  is_used_of, entry_of, Fs, Progress, start, link_chain, write_chunks, write_body, idle_for, write,
  write_at_tails, write_found,
}
use edge_compute.EdgeFs.Write.Plan.{full_len-plan}
use edge_compute.EdgeFs.Write.Fill.{
  full_len, fill, AllBelow-resize, fill-Linked, write_chunks-Filled,
}
use edge_compute.EdgeFs.Write.Links.{link_chain-kept, length-link_chain}
use edge_compute.EdgeFs.Write.Data.{IsDisk-Writes}
use edge_compute.EdgeFs.Write.Holds.{write_chunks-keeps, write_chunks-adds}
use edge_compute.EdgeFs.Write.Keeps.{Took-trans, write_chunks-Took, link_chain-Took}
use edge_compute.EdgeFs.Write.Appends.{IsStore, idle_for-Free, Free-AllBelow}
use edge_compute.EdgeFs.Write.Takes.{result_of, Took-IsStore}
use edge_compute.EdgeFs.Write.Whole.{contents_of}

idle_for-Begins :
    (b : Bitmap) (draws : ℕ → ℕ) (tail_chunkid need : ℕ) (ids : List ℕ)
    → 0 < need
    → idle_for b draws (some false) tail_chunkid need ≡ some ids
    → Begins (tail_chunkid ∷ []) ids
unfolding idle_for
idle_for-Begins b draws tail_chunkid need ids positive e =
    let needed : (need == 0) ≡ false = ground arith in
    elim (Option-cases (generate_idle_chunkids b draws (some false) tail_chunkid need)) [
      | inl short ↦ let e' = rw (needed, short) at e in cc
      | inr ([], found) ↦ let e' = rw (needed, found) at e in cc
      | inr (i ∷ is, found) ↦
          let e' = rw (needed, found) at e in
          let same : i ∷ is ≡ ids = cc in
          rw (sym same)
            (generate_idle_chunkids-Begins b draws tail_chunkid need (i ∷ is) positive found)
    ]

full_len-positive : (c r : ℕ) (ids : List ℕ) → 0 < full_len c r ids → 0 < length ids
full_len-positive c r [] some_len = some_len
full_len-positive c r (i ∷ ids) some_len = omega arith

module _ {F : Type 0} (os : Os F) (disk : IsDisk os) (fuel : ℕ) (draws : ℕ → ℕ) (fs : Fs F)
    (good : IsStore fs) (bits : IsBitmap fs.bit_map) (sha1_val buff : Bytes)
    (short : length buff < 2 ^ 32) (h : ℕ) (small : h < length fs.meta_pool)
    (unused : (at fs.meta_pool h).is_used ≡ false) where
  abbrev c : ℕ
  c = fs.head.chunk_size

  abbrev pub plan : WritePlan
  plan = plan_rest c 0 (length buff)

  plan-whole : calc_write_variable c (some (at fs.meta_pool h)) (length buff) ≡ plan
  unfolding calc_write_variable first_len
  plan-whole =
      let flat : sub_32 (length buff) 0 ≡ length buff = omega arith in rw (unused, flat) refl

  abbrev linked_start : List ℕ → Progress F
  linked_start ids = record (start fs (length buff)) {
    pool = link_chain os c sha1_val buff h ids fs.meta_pool;
  }

  abbrev pub body_of : List ℕ → Progress F
  body_of ids = write_chunks os c sha1_val buff plan.last_chunk_write_len ids (linked_start ids)

  run :
      (ids : List ℕ)
      → generate_hash_key sha1_val fs.head.chunk_num ≡ h
      → idle_for fs.bit_map draws (some false) h plan.need_chunk_num ≡ some ids
      → write os fuel draws sha1_val buff fs
        ≡ done (some (body_of ids).real_write_len, result_of fs (body_of ids))
  unfolding write write_at_tails write_found write_body find_file_tail_meta_info
      find_chunk_tail_meta_info plan_rest
  run ids key found =
      let found' : idle_for fs.bit_map draws (is_used_of (entry_of fs.meta_pool (some h))) h
            plan.need_chunk_num
          ≡ some ids =
        ap (λ (u : Bool). idle_for fs.bit_map draws (some u) h plan.need_chunk_num) unused
        ∙ found in
      rw (key, get_elem?-in fs.meta_pool h zero_meta small, unused, plan-whole, found') refl

  -- The first chunk gets its link before it is filled; no chunk's contents change by that.
  linking-keeps :
      (ids : List ℕ) (digest : Bytes) (xs : List ℕ)
      → file_contents
          (link_chain os c sha1_val buff h ids fs.meta_pool)
          (bytes_of os disk fs.data_mgr)
          c
          digest
          xs
        ≡ contents_of os disk fs digest xs
  linking-keeps ids digest xs =
      let f = bytes_of os disk fs.data_mgr in
      file_contents-frame c digest fs.meta_pool (link_chain os c sha1_val buff h ids fs.meta_pool) f
        f xs
        λ k within.
          (let (sha1, idle, used) = link_chain-kept os c sha1_val buff fs.meta_pool h ids k small in
            chunk_contents-same c digest (at fs.meta_pool k)
              (at (link_chain os c sha1_val buff h ids fs.meta_pool) k) f f k sha1 idle
              (λ o o_small. refl))

  chain_of :
      (ids l : List ℕ)
      → ids ≡ h ∷ l
      → AllBelow (length fs.meta_pool) ids
      → Distinct ids
      → Linked
          (fill c plan.last_chunk_write_len sha1_val ids
            (link_chain os c sha1_val buff h ids fs.meta_pool))
          (h ∷ l)
  chain_of ids l begins below d =
      let last_len = plan.last_chunk_write_len in
      let pool = link_chain os c sha1_val buff h ids fs.meta_pool in
      let size = length-link_chain os c sha1_val buff fs.meta_pool h ids in
      let parts : AllBelow (length fs.meta_pool) (h ∷ l) × Distinct (h ∷ l) =
        subst (λ (x : List ℕ). AllBelow (length fs.meta_pool) x × Distinct x) begins (below, d) in
      subst (λ (x : List ℕ). Linked (fill c last_len sha1_val x pool) (h ∷ l)) (sym begins)
        (fill-Linked c last_len sha1_val h l pool (omega (arith, size, good.few))
          (AllBelow-resize (h ∷ l) size parts.0) parts.1)

  -- The write returns the whole length and leaves `result_of`.
  abbrev pub Results : List ℕ → List ℕ → Type 0
  Results ids l =
      (ids ≡ h ∷ l)
      × (write os fuel draws sha1_val buff fs
          ≡ done (some (length buff), result_of fs (body_of ids)))
      × (IsStore (result_of fs (body_of ids)) × IsBitmap (body_of ids).bit_map)
      × Linked (body_of ids).pool (h ∷ l)
      × (contents_of os disk (result_of fs (body_of ids)) sha1_val (h ∷ l) ≡ buff)
      × ((digest : Bytes) (xs : List ℕ)
          → ((k : ℕ) → is_in k xs ≡ true → is_in k ids ≡ false)
          → contents_of os disk (result_of fs (body_of ids)) digest xs
            ≡ contents_of os disk fs digest xs)
      × ((body_of ids).pool
          ≡ fill fs.head.chunk_size plan.last_chunk_write_len sha1_val ids
              (link_chain os fs.head.chunk_size sha1_val buff h ids fs.meta_pool))
      × AllBelow (length fs.meta_pool) ids

  pub write_new-Results :
      (ids : List ℕ)
      → generate_hash_key sha1_val fs.head.chunk_num ≡ h
      → 0 < length buff
      → idle_for fs.bit_map draws (some false) h plan.need_chunk_num ≡ some ids
      → Distinct ids
      → (l : List ℕ) × Results ids l
  write_new-Results ids key positive found d =
      let c = fs.head.chunk_size in
      let tail : IsTail fs.bit_map (some false) h =
        λ x. (good.marks h small ∙ unused, omega (arith, good.chunks, small)) in
      let (size, free) =
        idle_for-Free fs.bit_map draws (some false) h plan.need_chunk_num ids
          (omega (arith, good.chunks, small)) tail found in
      let below = Free-AllBelow fs.bit_map (length fs.meta_pool) ids good.chunks free in
      let (last_small, sum) =
        full_len-plan c 0 (length buff) ids good.some_size good.bounded short size in
      let (l, begins) =
        idle_for-Begins fs.bit_map draws h plan.need_chunk_num ids
          (omega (
            arith,
            size,
            full_len-positive c plan.last_chunk_write_len ids (omega (arith, sum, positive)),
          ))
          found in
      let s₁ = linked_start ids in
      let linking = link_chain-Took os c sha1_val buff (start fs (length buff)) h ids small in
      let below₁ = AllBelow-resize ids linking.size below in
      let (pool, marks, real) =
        write_chunks-Filled os c sha1_val buff (IsDisk-Writes os disk) plan.last_chunk_write_len ids
          s₁ last_small good.is_open sum in
      let whole : (body_of ids).real_write_len ≡ length buff = omega (arith, real) in
      let took =
        Took-trans os c sha1_val buff ids (start fs (length buff)) s₁ (body_of ids) linking (
          write_chunks-Took os c sha1_val buff (IsDisk-Writes os disk) plan.last_chunk_write_len ids
            s₁ last_small good.is_open sum below₁) in
      let keeps =
        write_chunks-keeps os disk c sha1_val buff plan.last_chunk_write_len ids s₁ last_small
          good.is_open sum (omega arith) below₁ d in
      let adds =
        write_chunks-adds os disk c sha1_val buff plan.last_chunk_write_len ids s₁ last_small
          good.is_open sum (omega arith) below₁ d in
      (
        l,
        (
          begins,
          run ids key found ∙ ap (λ (n : ℕ). done (some n, result_of fs (body_of ids))) whole,
          Took-IsStore os fs sha1_val buff good bits ids (body_of ids) took below,
          subst (λ (p : List MetaInfo). Linked p (h ∷ l)) (sym pool)
              (chain_of ids l begins below d),
          subst (λ (x : List ℕ). contents_of os disk (result_of fs (body_of ids)) sha1_val x ≡ buff)
              begins (adds [] λ k within. cc),
          λ digest xs apart. keeps digest xs apart ∙ linking-keeps ids digest xs,
          pool,
          below,
        ),
      )

  -- Let the disk keep what is written to it and leave the rest alone; let the data file be open, the
  -- chunk size between 1 and 2 ^ 32 - 1, the bitmap well formed and marking exactly the used chunks,
  -- and no chunk have more room than its size. Let the hash key's first chunk be one that is not
  -- used, the buffer not empty and shorter than 2 ^ 32 bytes, and the chunks that are found for it be
  -- different. Then `write` returns the length of the buffer and leaves such a store and bitmap; the
  -- chunks that were found begin with that first chunk and are a chain, which holds exactly the
  -- buffer of the file; and in a list of chunks without them every file keeps its bytes.
  pub file_contents-write_new :
      (ids : List ℕ)
      → generate_hash_key sha1_val fs.head.chunk_num ≡ h
      → 0 < length buff
      → idle_for fs.bit_map draws (some false) h plan.need_chunk_num ≡ some ids
      → Distinct ids
      → (l : List ℕ) × (fs' : Fs F) × (ids ≡ h ∷ l)
        × (write os fuel draws sha1_val buff fs ≡ done (some (length buff), fs'))
        × (IsStore fs' × IsBitmap fs'.bit_map)
        × Linked fs'.meta_pool (h ∷ l)
        × (contents_of os disk fs' sha1_val (h ∷ l) ≡ buff)
        × ((digest : Bytes) (xs : List ℕ)
            → ((k : ℕ) → is_in k xs ≡ true → is_in k ids ≡ false)
            → contents_of os disk fs' digest xs ≡ contents_of os disk fs digest xs)
  file_contents-write_new ids key positive found d =
      let (l, (begins, run, kept, chain, created, others, pool, below)) =
        write_new-Results ids key positive found d in
      (l, result_of fs (body_of ids), begins, run, kept, chain, created, others)
