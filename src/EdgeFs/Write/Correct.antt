-- ===== src/EdgeFs/Write/Correct.antt =====
-- `EdgeFS::write` on a chain: it appends to the file.
use edge_compute.Base.{
  ℕ, ◌+◌, ◌-◌, ◌^◌, ◌<◌, ◌≤◌, ◌≡◌, refl, ◌⊎◌, true, Option, none, some, List, [], ◌∷◌, ◌==◌, length,
  arith, ◌∙◌, ap, is_pos, Bool-cases, inl, inr, ==→eq, ==_refl,
}
use edge_compute.Sys.{Bytes}
use edge_compute.EdgeFs.Format.{MetaInfo, sub_32}
use edge_compute.EdgeFs.Bitmap.Bits.{is_in}
use edge_compute.EdgeFs.Bitmap.Search.{Distinct}
use edge_compute.EdgeFs.File.{Os, FileOper, write_at}
use edge_compute.EdgeFs.Chain.{
  ReadChunks, no_chunks, WritePlan, calc_write_variable, plan_rest, first_len,
}
use edge_compute.EdgeFs.Chain.Linked.{at, Linked, last}
use edge_compute.EdgeFs.Chain.Walks.{noted, file_tail}
use edge_compute.EdgeFs.Write.{
  Progress, write_body, write_chunks, entry_of, link_chain, written_first, first_meta, first_offset,
  slice,
}
use edge_compute.EdgeFs.Write.Plan.{
  first_len-none, first_len-small, full_len-plan, plan_rest-nothing,
}
use edge_compute.EdgeFs.Write.Fill.{Writes, write_at-fd, fill, full_len, write_chunks-Filled}
use edge_compute.EdgeFs.Write.Noted.{noted-frame}
use edge_compute.EdgeFs.Write.First.{file_tail-LastOf, is_in-append, first-noted, grown}
use edge_compute.EdgeFs.Write.Append.{Joined}
use edge_compute.EdgeFs.Write.Links.{
  Linked-entry, link_chain-Joined, link_chain-same, first_pool, first_pool-Joined,
  first_pool-Shrunk,
}

empty : (ids : List ℕ) → length ids ≡ 0 → ids ≡ []
empty [] e = refl
empty (i ∷ ids) e = absurd (omega arith)

-- The file's last chunk is one of the chain.
pub file_tail-is_in :
    (p : List MetaInfo) (sha1_val : Bytes) (xs : List ℕ) (t : ℕ)
    → file_tail p sha1_val xs none ≡ some t
    → is_in t xs ≡ true
file_tail-is_in p sha1_val xs t e = elim (file_tail-LastOf p 0 sha1_val xs none t e) [
  | inl (impossible, silent) ↦ cc
  | inr (pre, post, split, of, silent) ↦
      rw split (ground (arith, is_in-append t pre (t ∷ post), ==_refl t))
]

module _ {F : Type 0} (os : Os F) (writes : Writes os) (c : ℕ) (some_size : 0 < c)
    (bounded : c < 2 ^ 32) (sha1_val buff : Bytes) (short : length buff < 2 ^ 32) (h : ℕ)
    (l : List ℕ) (s : Progress F) (linked : Linked s.pool (h ∷ l)) (d : Distinct (h ∷ l))
    (whole : s.remain_len ≡ length buff) (new : s.real_write_len ≡ 0)
    (is_open : is_pos s.data_mgr.fd ≡ true) where
  abbrev pub old : ReadChunks
  old = noted s.pool c sha1_val (h ∷ l) no_chunks

  -- The pool is `q` with the new chunks filled, and in `q` the chain is joined and noted with what the
  -- first write put in it.
  abbrev pub Body : List ℕ → (last_len : ℕ) → Progress F → Type 0
  Body ids last_len s' =
      (q : List MetaInfo) × (r : ReadChunks) × (s'.pool ≡ fill c last_len sha1_val ids q)
      × (s'.real_write_len ≡ length buff)
      × Joined s.pool q h l ids
      × (noted q c sha1_val (h ∷ l) no_chunks ≡ r)
      × (r.write_chunkids ≡ old.write_chunkids)
      × (r.write_total_len + full_len c last_len ids ≡ old.write_total_len + length buff)
      × (last_len ≤ c)

  -- Nothing is put in the file's last chunk.
  write_chunks-Body :
      (ids : List ℕ)
      → length ids ≡ (plan_rest c 0 (length buff)).need_chunk_num
      → Body ids (plan_rest c 0 (length buff)).last_chunk_write_len (
          write_chunks os c sha1_val buff
            (plan_rest c 0 (length buff)).last_chunk_write_len
            ids
            (record s { pool = link_chain os c sha1_val buff (last h l) ids s.pool }))
  write_chunks-Body ids e =
      let last_len = (plan_rest c 0 (length buff)).last_chunk_write_len in
      let q = link_chain os c sha1_val buff (last h l) ids s.pool in
      let (small, sum) = full_len-plan c 0 (length buff) ids some_size bounded short e in
      let (pool, bits, real) =
        write_chunks-Filled os c sha1_val buff writes last_len ids (record s { pool = q }) small
          is_open (whole ∙ sum) in
      (
        q,
        old,
        pool,
        real ∙ omega (arith, whole, new),
        link_chain-Joined os c sha1_val buff s.pool h l linked ids,
        noted-frame s.pool q c sha1_val (h ∷ l) no_chunks
            (λ k x. link_chain-same os c sha1_val buff s.pool h l linked ids k),
        refl,
        omega (arith, sum),
        small,
      )

  -- The file's last chunk is filled up first.
  module _ (t : ℕ) (within : is_in t (h ∷ l) ≡ true)
      (tail : file_tail s.pool sha1_val (h ∷ l) none ≡ some t) (room : (at s.pool t).idle_len ≤ c)
      (fits : old.write_total_len + length buff < 2 ^ 64) where
    abbrev first : ℕ
    first = first_len (some (at s.pool t)) (length buff)

    used : (at s.pool t).is_used ≡ true
    used = (Linked-entry s.pool h l t linked within).1

    first-small :
        (first ≤ (at s.pool t).idle_len)
        × (first ≤ length buff)
        × ((first ≡ (at s.pool t).idle_len) ⊎ (first ≡ length buff))
    first-small = first_len-small (at s.pool t) (length buff) used

    abbrev plan : WritePlan
    plan = plan_rest c first (length buff - first)

    full_or_none :
        (ids : List ℕ)
        → length ids ≡ plan.need_chunk_num
        → ((ids ≡ []) ⊎ ((((at s.pool t).idle_len - first) == 0) ≡ true))
    full_or_none ids e = elim first-small.2 [
      | inl whole_room ↦ inr (ground arith)
      | inr whole_buff ↦
          let none_left : length buff - first ≡ 0 = omega arith in
          let none_needed : length ids ≡ 0 =
            e
            ∙ ap (λ (n : ℕ). (plan_rest c first n).need_chunk_num) none_left
            ∙ plan_rest-nothing c first some_size bounded in
          inl (empty ids none_needed)
    ]

    written_first-Body :
        (ids : List ℕ) (f : FileOper F)
        → is_pos f.fd ≡ true
        → length ids ≡ plan.need_chunk_num
        → Body ids plan.last_chunk_write_len (
            write_chunks os c sha1_val buff plan.last_chunk_write_len ids
              (written_first os c sha1_val buff plan ids t (last h l) f s))
    unfolding written_first first_meta plan_rest
    written_first-Body ids f stays_open e =
        let (fit, less, why) = first-small in
        let full = ((at s.pool t).idle_len - first) == 0 in
        let q = first_pool os c sha1_val buff s.pool h l linked t first within full ids in
        let s' = written_first os c sha1_val buff plan ids t (last h l) f s in
        let here : s'.pool ≡ q = rw used refl in
        let (small, sum) =
          full_len-plan c first (length buff - first) ids some_size bounded (omega arith) e in
        let (pool, bits, real) =
          write_chunks-Filled os c sha1_val buff writes plan.last_chunk_write_len ids s' small
            stays_open (omega (arith, whole, sum)) in
        (
          q,
          grown old first,
          pool ∙ ap (fill c plan.last_chunk_write_len sha1_val ids) here,
          omega (arith, real, whole, new, less),
          first_pool-Joined os c sha1_val buff s.pool h l linked t first within full ids
              (full_or_none ids e),
          first-noted s.pool q c sha1_val (h ∷ l) t first no_chunks d tail
              (first_pool-Shrunk os c sha1_val buff s.pool h l linked t first within full ids
                (h ∷ l))
              fit room bounded (omega (arith, fits, less)),
          refl,
          omega (arith, sum, less),
          small,
        )

  abbrev pub plan_for : Option ℕ → WritePlan
  plan_for tail = calc_write_variable c (entry_of s.pool tail) (length buff)

  pub write_body-Body :
      (tail : Option ℕ) (ids : List ℕ)
      → file_tail s.pool sha1_val (h ∷ l) none ≡ tail
      → length ids ≡ (plan_for tail).need_chunk_num
      → ((k : ℕ) → (at s.pool k).idle_len ≤ c)
      → old.write_total_len + length buff < 2 ^ 64
      → Body ids
          (plan_for tail).last_chunk_write_len
          (write_body os c sha1_val buff (plan_for tail) ids tail (last h l) s)
  unfolding calc_write_variable write_body
  write_body-Body none ids found e room fits =
      let flat : sub_32 (length buff) 0 ≡ length buff = omega arith in
      rw (first_len-none (length buff), flat)
        (write_chunks-Body ids (rw (first_len-none (length buff), flat) at e))
  write_body-Body (some t) ids found e room fits =
      let within = file_tail-is_in s.pool sha1_val (h ∷ l) t found in
      let (fit, less, why) = first-small t within found (room t) fits in
      let f : ℕ = first_len (some (at s.pool t)) (length buff) in
      elim (Bool-cases (f == 0)) [
        | inl unfilled ↦
            let zero_first : f ≡ 0 = ==→eq f 0 unfilled in
            let flat : sub_32 (length buff) 0 ≡ length buff = omega arith in
            rw (zero_first, flat) (write_chunks-Body ids (rw (zero_first, flat) at e))
        | inr filled ↦
            let flat : sub_32 (length buff) f ≡ length buff - f = omega (arith, less) in
            let piece = slice buff s.real_write_len f in
            let offset = first_offset os c sha1_val buff t (at s.pool t) in
            rw (flat, filled, writes piece offset s.data_mgr is_open)
              (written_first-Body t within found (room t) fits ids
                (write_at os piece offset s.data_mgr).1
                (ap is_pos (write_at-fd os piece offset s.data_mgr) ∙ is_open) (rw flat at e))
      ]
