-- ===== src/EdgeFs/Write/Appended.antt =====
-- The body of `EdgeFS::write` as an append to the bytes of a file, with and without a piece in the
-- last chunk.
use edge_compute.EdgeFs.Write.Refines.{Appended, unfilled-Appended, filled-Appended}
use edge_compute.Base.{
  ℕ, ◌+◌, ◌-◌, ◌*◌, ◌^◌, ◌<◌, ◌≤◌, ◌≡◌, refl, true, false, Option, none, some, List, ◌∷◌, ◌==◌,
  length, arith, ◌∙◌, ap, is_pos, Bool-cases, inl, inr, ==→eq, sym, subst,
}
use edge_compute.Sys.{Bytes}
use edge_compute.EdgeFs.Format.{MetaInfo, sub_32}
use edge_compute.EdgeFs.Bitmap.Search.{Distinct}
use edge_compute.EdgeFs.File.{Os, write_at}
use edge_compute.EdgeFs.Chain.{WritePlan, first_len, plan_rest, calc_write_variable}
use edge_compute.EdgeFs.Chain.Linked.{at, Linked, last}
use edge_compute.EdgeFs.Chain.Walks.{file_tail}
use edge_compute.EdgeFs.Disk.{IsDisk}
use edge_compute.EdgeFs.Write.{
  Progress, slice, first_meta, first_offset, written_first, write_chunks, write_body, entry_of,
}
use edge_compute.EdgeFs.Write.Plan.{first_len-none, first_len-small}
use edge_compute.EdgeFs.Write.Append.{Fresh}
use edge_compute.EdgeFs.Write.Links.{Linked-entry, first_pool-size, first_pool}
use edge_compute.EdgeFs.Write.Data.{IsDisk-Writes}
use edge_compute.EdgeFs.Write.Correct.{file_tail-is_in}

module _ {F : Type 0} (os : Os F) (disk : IsDisk os) (c : ℕ) (some_size : 0 < c)
    (bounded : c < 2 ^ 32) (sha1_val buff : Bytes) (short : length buff < 2 ^ 32) (h : ℕ)
    (l : List ℕ) (s : Progress F) (linked : Linked s.pool (h ∷ l)) (d : Distinct (h ∷ l))
    (whole : s.remain_len ≡ length buff) (new : s.real_write_len ≡ 0)
    (is_open : is_pos s.data_mgr.fd ≡ true) where
  abbrev pub body : WritePlan → List ℕ → Option ℕ → Progress F
  body plan ids tail = write_body os c sha1_val buff plan ids tail (last h l) s

  pub body-filled :
      (t f r : ℕ) (ids : List ℕ)
      → (f == 0) ≡ false
      → body (plan_rest c f r) ids (some t)
        ≡ write_chunks os c sha1_val buff (plan_rest c f r).last_chunk_write_len ids (
            written_first os c sha1_val buff
              (plan_rest c f r)
              ids
              t
              (last h l)
              (write_at os
                (slice buff s.real_write_len f)
                (first_offset os c sha1_val buff t (at s.pool t))
                s.data_mgr).1
              s)
  unfolding write_body plan_rest
  body-filled t f r ids filled =
      rw
        (
          filled,
          IsDisk-Writes os disk (slice buff s.real_write_len f)
              (first_offset os c sha1_val buff t (at s.pool t)) s.data_mgr is_open,
        )
        refl

  pub plan-eq :
      (m : Option MetaInfo) (f : ℕ)
      → first_len m (length buff) ≡ f
      → f ≤ length buff
      → calc_write_variable c m (length buff) ≡ plan_rest c f (length buff - f)
  unfolding calc_write_variable
  plan-eq m f e less =
      let flat : sub_32 (length buff) f ≡ length buff - f = omega arith in rw (e, flat) refl

  pub plan-whole :
      (m : Option MetaInfo)
      → first_len m (length buff) ≡ 0
      → calc_write_variable c m (length buff) ≡ plan_rest c 0 (length buff)
  plan-whole m e =
      let same : length buff - 0 ≡ length buff = omega arith in
      plan-eq m 0 e (omega arith) ∙ ap (plan_rest c 0) same

  pub write_body-Appended :
      (tail : Option ℕ) (ids : List ℕ)
      → file_tail s.pool sha1_val (h ∷ l) none ≡ tail
      → length ids ≡ (calc_write_variable c (entry_of s.pool tail) (length buff)).need_chunk_num
      → ((k : ℕ) → (at s.pool k).idle_len ≤ c)
      → Fresh s.pool (h ∷ l) ids
      → Appended os disk c some_size bounded sha1_val buff short h l s linked d whole new is_open
          ids
          (body (calc_write_variable c (entry_of s.pool tail) (length buff)) ids tail)
  unfolding write_body plan_rest
  write_body-Appended none ids found e room fresh =
      let plan = plan-whole none (first_len-none (length buff)) in
      subst
        (λ (p : WritePlan).
          Appended os disk c some_size bounded sha1_val buff short h l s linked d whole new is_open
            ids (body p ids none))
        (sym plan)
        (unfilled-Appended os disk c some_size bounded sha1_val buff short h l s linked d whole new
          is_open ids (e ∙ ap (λ (p : WritePlan). p.need_chunk_num) plan) fresh)
  write_body-Appended (some t) ids found e room fresh =
      let within = file_tail-is_in s.pool sha1_val (h ∷ l) t found in
      let used = (Linked-entry s.pool h l t linked within).1 in
      let f : ℕ = first_len (some (at s.pool t)) (length buff) in
      let (fit, less, why) = first_len-small (at s.pool t) (length buff) used in
      let idle = (at s.pool t).idle_len in
      elim (Bool-cases (f == 0)) [
        | inl unfilled ↦
            let plan = plan-whole (some (at s.pool t)) (==→eq f 0 unfilled) in
            subst
              (λ (p : WritePlan).
                Appended os disk c some_size bounded sha1_val buff short h l s linked d whole new
                  is_open ids (body p ids (some t)))
              (sym plan)
              (unfilled-Appended os disk c some_size bounded sha1_val buff short h l s linked d
                whole new is_open ids (e ∙ ap (λ (p : WritePlan). p.need_chunk_num) plan) fresh)
        | inr filled ↦
            let plan = plan-eq (some (at s.pool t)) f refl less in
            let start = first_offset os c sha1_val buff t (at s.pool t) in
            let flat : sub_32 c idle ≡ c - idle = omega (arith, room t, bounded) in
            let behind : start ≡ t * c + (c - idle) =
              unfold first_offset in (rw (used, flat) refl) in
            let full = (idle - f) == 0 in
            let s₁ =
              written_first os c sha1_val buff (plan_rest c f (length buff - f)) ids t (last h l)
                (write_at os (slice buff s.real_write_len f) start s.data_mgr).1 s in
            let pool : s₁.pool
                ≡ first_pool os c sha1_val buff s.pool h l linked t f within full ids =
              unfold written_first first_meta in (rw used refl) in
            subst
              (λ (p : WritePlan).
                Appended os disk c some_size bounded sha1_val buff short h l s linked d whole new
                  is_open ids (body p ids (some t)))
              (sym plan)
              (subst
                (Appended os disk c some_size bounded sha1_val buff short h l s linked d whole new
                  is_open ids)
                (sym (body-filled t f (length buff - f) ids filled))
                (filled-Appended os disk c some_size bounded sha1_val buff short h l s linked d
                  whole new is_open t within found (room t) f start fit less behind full ids s₁ pool
                  (unfold written_first in refl) (unfold written_first in (omega (arith, new)))
                  (unfold written_first in (omega (arith, whole)))
                  (e ∙ ap (λ (p : WritePlan). p.need_chunk_num) plan) fresh
                  (first_pool-size os c sha1_val buff s.pool h l linked t f within full ids)))
      ]
