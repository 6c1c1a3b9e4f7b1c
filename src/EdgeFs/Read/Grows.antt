-- ===== src/EdgeFs/Read/Grows.antt =====
-- What the body of `EdgeFS::write` leaves of a file whose chunks are full but for the last.
use edge_compute.Base.{
  ℕ, ◌-◌, ◌^◌, ◌≤◌, ◌<◌, ◌≡◌, refl, true, Option, none, some, List, [], ◌∷◌, ◌++◌, ◌==◌, length,
  is_pos, arith, Bool-cases, inl, inr, ◌⊎◌, ◌∙◌, ap, sym, subst, ==→eq, ==_refl,
}
use edge_compute.Sys.{Bytes}
use edge_compute.EdgeFs.Format.{MetaInfo}
use edge_compute.EdgeFs.Bitmap.Bits.{is_in}
use edge_compute.EdgeFs.Bitmap.Search.{Distinct}
use edge_compute.EdgeFs.File.{Os, write_at}
use edge_compute.EdgeFs.Chain.{WritePlan, first_len, plan_rest, calc_write_variable}
use edge_compute.EdgeFs.Chain.Linked.{at, Linked, last}
use edge_compute.EdgeFs.Chain.Walks.{file_tail}
use edge_compute.EdgeFs.Disk.{IsDisk}
use edge_compute.EdgeFs.Write.{
  Progress, slice, first_meta, first_offset, written_first, link_chain, write_chunks, write_body,
  entry_of,
}
use edge_compute.EdgeFs.Write.Plan.{
  full_len-plan, plan_rest-nothing, first_len-none, first_len-small,
}
use edge_compute.EdgeFs.Write.Fill.{fill, AllBelow-resize, write_at-fd, write_chunks-Filled}
use edge_compute.EdgeFs.Write.Append.{Fresh}
use edge_compute.EdgeFs.Write.Links.{
  Linked-entry, link_chain-same, link_chain-Joined, first_pool, first_pool-size, first_pool-Shrunk,
}
use edge_compute.EdgeFs.Write.Data.{IsDisk-Writes}
use edge_compute.EdgeFs.Write.Correct.{file_tail-is_in}
use edge_compute.EdgeFs.Write.Appended.{body-filled, plan-eq, plan-whole}
use edge_compute.EdgeFs.Read.Packed.{file_chunks, IsPacked}
use edge_compute.EdgeFs.Read.Packs.{fill-IsPacked}

no_chunk : (ids : List ℕ) → length ids ≡ 0 → ids ≡ []
no_chunk [] e = refl
no_chunk (i ∷ ids) e = absurd (omega arith)

same_end : (t t' : ℕ) (tail : Option ℕ) → tail ≡ some t → tail ≡ some t' → t ≡ t'
same_end t t' tail e e' = cc

module _ {F : Type 0} (os : Os F) (disk : IsDisk os) (c : ℕ) (some_size : 0 < c)
    (bounded : c < 2 ^ 32) (sha1_val buff : Bytes) (short : length buff < 2 ^ 32) (h : ℕ)
    (l : List ℕ) (s : Progress F) (linked : Linked s.pool (h ∷ l)) (d : Distinct (h ∷ l))
    (whole : s.remain_len ≡ length buff) (new : s.real_write_len ≡ 0)
    (is_open : is_pos s.data_mgr.fd ≡ true)
    (packed : IsPacked s.pool (file_chunks s.pool sha1_val (h ∷ l))) where
  -- The chunks of the file are full but for the last.
  abbrev pub Packs : List ℕ → Progress F → Type 0
  Packs ids s' = IsPacked s'.pool (file_chunks s'.pool sha1_val (h ∷ (l ++ ids)))

  -- The loop over the new chunks, from a pool `q` on.
  write_chunks-packed :
      (first : ℕ) (ids : List ℕ) (q : List MetaInfo) (s₁ : Progress F)
      → s₁.pool ≡ q
      → is_pos s₁.data_mgr.fd ≡ true
      → s₁.remain_len ≡ length buff - first
      → first ≤ length buff
      → length ids ≡ (plan_rest c first (length buff - first)).need_chunk_num
      → ((k : ℕ) → (at q k).sha1 ≡ (at s.pool k).sha1)
      → ((k : ℕ) → (at q k).idle_len ≤ (at s.pool k).idle_len)
      → (0 < length buff - first
          → (t : ℕ) → file_tail s.pool sha1_val (h ∷ l) none ≡ some t
          → (at q t).idle_len ≡ 0)
      → Fresh q (h ∷ l) ids
      → Packs ids (
          write_chunks os c sha1_val buff
            (plan_rest c first (length buff - first)).last_chunk_write_len
            ids
            s₁)
  write_chunks-packed first ids q s₁ ep op em less e sha1 idle full fresh =
      let last_len = (plan_rest c first (length buff - first)).last_chunk_write_len in
      let (small, sum) =
        full_len-plan c first (length buff - first) ids some_size bounded (omega arith) e in
      let (pool, bits, real) =
        write_chunks-Filled os c sha1_val buff (IsDisk-Writes os disk) last_len ids s₁ small op
          (em ∙ sum) in
      let ready : (ids ≡ [])
          ⊎ ((t : ℕ) → file_tail s.pool sha1_val (h ∷ l) none ≡ some t → (at q t).idle_len ≡ 0) =
        elim (Bool-cases ((length buff - first) == 0)) [
          | inl nothing ↦ inl (
              no_chunk ids (
                e
                ∙ ap (λ (n : ℕ). (plan_rest c first n).need_chunk_num)
                    (==→eq (length buff - first) 0 nothing)
                ∙ plan_rest-nothing c first some_size bounded))
          | inr rest ↦ inr (full (ground arith))
        ] in
      subst (λ (p : List MetaInfo). IsPacked p (file_chunks p sha1_val (h ∷ (l ++ ids))))
        (sym (pool ∙ ap (fill c last_len sha1_val ids) ep))
        (fill-IsPacked c last_len sha1_val s.pool q (h ∷ l) ids sha1 idle packed ready fresh)

  Fresh-resize :
      (q : List MetaInfo) (ids : List ℕ)
      → length q ≡ length s.pool
      → Fresh s.pool (h ∷ l) ids
      → Fresh q (h ∷ l) ids
  Fresh-resize q ids size fresh = record {
    below = AllBelow-resize ids size fresh.below;
    distinct = fresh.distinct;
    apart = fresh.apart;
  }

  -- With nothing to fill up: the file's last chunk is full, or the buffer is empty.
  unfilled-packed :
      (ids : List ℕ)
      → length ids ≡ (plan_rest c 0 (length buff)).need_chunk_num
      → (0 < length buff
          → (t : ℕ) → file_tail s.pool sha1_val (h ∷ l) none ≡ some t
          → (at s.pool t).idle_len ≡ 0)
      → Fresh s.pool (h ∷ l) ids
      → Packs ids (
          write_chunks os c sha1_val buff
            (plan_rest c 0 (length buff)).last_chunk_write_len
            ids
            (record s { pool = link_chain os c sha1_val buff (last h l) ids s.pool }))
  unfilled-packed ids e full fresh =
      let q = link_chain os c sha1_val buff (last h l) ids s.pool in
      let same = link_chain-same os c sha1_val buff s.pool h l linked ids in
      let flat : length buff - 0 ≡ length buff = omega arith in
      subst
        (λ (n : ℕ). Packs ids (
          write_chunks os c sha1_val buff (plan_rest c 0 n).last_chunk_write_len ids
            (record s { pool = q })))
        flat
        (write_chunks-packed 0 ids q (record s { pool = q }) refl is_open (whole ∙ sym flat)
          (omega arith) (e ∙ ap (λ (n : ℕ). (plan_rest c 0 n).need_chunk_num) (sym flat))
          (λ k. (same k).0) (λ k. omega (arith, (same k).1))
          (λ some_len t found. (same t).1 ∙ full (omega arith) t found)
          (Fresh-resize q ids (link_chain-Joined os c sha1_val buff s.pool h l linked ids).size
            fresh))

  abbrev done_body : Option ℕ → List ℕ → WritePlan → Progress F
  done_body tail ids plan = write_body os c sha1_val buff plan ids tail (last h l) s

  pub write_body-packed :
      (tail : Option ℕ) (ids : List ℕ)
      → file_tail s.pool sha1_val (h ∷ l) none ≡ tail
      → length ids ≡ (calc_write_variable c (entry_of s.pool tail) (length buff)).need_chunk_num
      → Fresh s.pool (h ∷ l) ids
      → Packs ids (done_body tail ids (calc_write_variable c (entry_of s.pool tail) (length buff)))
  unfolding write_body plan_rest
  write_body-packed none ids found e fresh =
      let plan =
        plan-whole os disk c some_size bounded sha1_val buff short h l s linked d whole new is_open
          none (first_len-none (length buff)) in
      subst (λ (p : WritePlan). Packs ids (done_body none ids p)) (sym plan)
        (unfilled-packed ids (e ∙ ap (λ (p : WritePlan). p.need_chunk_num) plan)
          (λ some_len t found'. cc) fresh)
  write_body-packed (some t) ids found e fresh =
      let within = file_tail-is_in s.pool sha1_val (h ∷ l) t found in
      let used = (Linked-entry s.pool h l t linked within).1 in
      let f : ℕ = first_len (some (at s.pool t)) (length buff) in
      let (fit, less, why) = first_len-small (at s.pool t) (length buff) used in
      elim (Bool-cases (f == 0)) [
        | inl unfilled ↦
            let plan =
              plan-whole os disk c some_size bounded sha1_val buff short h l s linked d whole new
                is_open (some (at s.pool t)) (==→eq f 0 unfilled) in
            subst (λ (p : WritePlan). Packs ids (done_body (some t) ids p)) (sym plan)
              (unfilled-packed ids (e ∙ ap (λ (p : WritePlan). p.need_chunk_num) plan)
                (λ some_len t' found'.
                  (let idle : (at s.pool t).idle_len ≡ 0 = elim why [
                    | inl a ↦ omega (arith, a, ==→eq f 0 unfilled)
                    | inr b ↦ absurd (omega (arith, b, ==→eq f 0 unfilled))
                  ] in
                    subst (λ (k : ℕ). (at s.pool k).idle_len ≡ 0)
                      (same_end t t' (file_tail s.pool sha1_val (h ∷ l) none) found found') idle))
                fresh)
        | inr filled ↦
            let plan =
              plan-eq os disk c some_size bounded sha1_val buff short h l s linked d whole new
                is_open (some (at s.pool t)) f refl less in
            let start = first_offset os c sha1_val buff t (at s.pool t) in
            let full = ((at s.pool t).idle_len - f) == 0 in
            let written = (write_at os (slice buff s.real_write_len f) start s.data_mgr).1 in
            let q = first_pool os c sha1_val buff s.pool h l linked t f within full ids in
            let itself =
              λ (k : ℕ). (let e : is_in k (k ∷ []) ≡ true = ground (arith, ==_refl k) in e) in
            let changed = λ (k : ℕ).
              first_pool-Shrunk os c sha1_val buff s.pool h l linked t f within full ids (k ∷ []) in
            let s₁ =
              written_first os c sha1_val buff (plan_rest c f (length buff - f)) ids t (last h l)
                written s in
            let pool : s₁.pool ≡ q = unfold written_first first_meta in (rw used refl) in
            let fd = write_at-fd os (slice buff s.real_write_len f) start s.data_mgr in
            subst (λ (p : WritePlan). Packs ids (done_body (some t) ids p)) (sym plan)
              (subst (Packs ids)
                (sym (
                  body-filled os disk c some_size bounded sha1_val buff short h l s linked d whole
                    new is_open t f (length buff - f) ids filled))
                (write_chunks-packed f ids q s₁ pool
                  (unfold written_first in (ap is_pos fd ∙ is_open))
                  (unfold written_first in (omega (arith, whole))) less
                  (e ∙ ap (λ (p : WritePlan). p.need_chunk_num) plan)
                  (λ k. (changed k).sha1 k (itself k))
                  (λ k. ground (arith, (changed k).idle k (itself k)))
                  (λ some_len t' found'.
                    (let idle : (at q t).idle_len ≡ 0 = elim why [
                      | inl a ↦ ground (arith, a, (changed t).idle t (itself t), ==_refl t)
                      | inr b ↦ absurd (omega (arith, b))
                    ] in
                      subst (λ (k : ℕ). (at q k).idle_len ≡ 0)
                        (same_end t t' (file_tail s.pool sha1_val (h ∷ l) none) found found') idle))
                  (Fresh-resize q ids
                    (first_pool-size os c sha1_val buff s.pool h l linked t f within full ids)
                    fresh)))
      ]
