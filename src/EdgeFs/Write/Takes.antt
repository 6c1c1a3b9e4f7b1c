-- ===== src/EdgeFs/Write/Takes.antt =====
-- The chunks that the body of `EdgeFS::write` takes, and that the bitmap marks them.
use edge_compute.Base.{
  ℕ, ◌+◌, ◌-◌, ◌%◌, ◌^◌, ◌<◌, ◌≡◌, refl, Bool, true, ◌||◌, Option, none, some, List, [], ◌∷◌, ◌==◌,
  length, arith, ◌∙◌, ap, is_pos, Bool-cases, inl, inr, ==→eq, sym, subst,
}
use edge_compute.Sys.{Bytes}
use edge_compute.EdgeFs.Format.{MetaInfo}
use edge_compute.EdgeFs.Bitmap.{Bitmap, is_have, insert_all}
use edge_compute.EdgeFs.Bitmap.Bits.{is_in, AllBelow, IsBitmap, is_have-insert_all}
use edge_compute.EdgeFs.Bitmap.Search.{Distinct}
use edge_compute.EdgeFs.File.{Os, FileOper, write_at}
use edge_compute.EdgeFs.Chain.{WritePlan, first_len, plan_rest, calc_write_variable}
use edge_compute.EdgeFs.Chain.Linked.{at, Linked, last}
use edge_compute.EdgeFs.Chain.Walks.{file_tail}
use edge_compute.EdgeFs.Disk.{IsDisk}
use edge_compute.EdgeFs.Write.{
  Fs, Progress, start, slice, first_meta, first_offset, written_first, link_chain, write_chunks,
  write_body, entry_of,
}
use edge_compute.EdgeFs.Write.Plan.{full_len-plan, first_len-none, first_len-small}
use edge_compute.EdgeFs.Write.Fill.{AllBelow-resize, write_at-fd}
use edge_compute.EdgeFs.Write.Links.{Linked-entry, tail_small, first_pool, first_pool-size}
use edge_compute.EdgeFs.Write.Data.{IsDisk-Writes}
use edge_compute.EdgeFs.Write.Correct.{file_tail-is_in}
use edge_compute.EdgeFs.Write.Appended.{body-filled, plan-eq, plan-whole}
use edge_compute.EdgeFs.Write.Keeps.{
  Took, Took-trans, write_chunks-Took, link_chain-Took, first_pool-kept,
}
use edge_compute.EdgeFs.Write.Appends.{IsStore}

module _ {F : Type 0} (os : Os F) (disk : IsDisk os) (c : ℕ) (some_size : 0 < c)
    (bounded : c < 2 ^ 32) (sha1_val buff : Bytes) (short : length buff < 2 ^ 32) (h : ℕ)
    (l : List ℕ) (s : Progress F) (linked : Linked s.pool (h ∷ l)) (d : Distinct (h ∷ l))
    (whole : s.remain_len ≡ length buff) (new : s.real_write_len ≡ 0)
    (is_open : is_pos s.data_mgr.fd ≡ true) where
  unfilled-Took :
      (ids : List ℕ)
      → length ids ≡ (plan_rest c 0 (length buff)).need_chunk_num
      → AllBelow (length s.pool) ids
      → Took os c sha1_val buff ids s (
          write_chunks os c sha1_val buff
            (plan_rest c 0 (length buff)).last_chunk_write_len
            ids
            (record s { pool = link_chain os c sha1_val buff (last h l) ids s.pool }))
  unfilled-Took ids e below =
      let s₁ : Progress F = record s {
        pool = link_chain os c sha1_val buff (last h l) ids s.pool;
      } in
      let last_len = (plan_rest c 0 (length buff)).last_chunk_write_len in
      let (small, sum) = full_len-plan c 0 (length buff) ids some_size bounded short e in
      let linking =
        link_chain-Took os c sha1_val buff s (last h l) ids
          (tail_small os c sha1_val buff s.pool h l linked) in
      Took-trans os c sha1_val buff ids s s₁ (write_chunks os c sha1_val buff last_len ids s₁)
        linking
        (write_chunks-Took os c sha1_val buff (IsDisk-Writes os disk) last_len ids s₁ small is_open
          (whole ∙ sum) (AllBelow-resize ids linking.size below))

  first-Took :
      (t f r : ℕ) (ids : List ℕ) (written : FileOper F)
      → is_in t (h ∷ l) ≡ true
      → written.fd ≡ s.data_mgr.fd
      → Took os c sha1_val buff [] s
          (written_first os c sha1_val buff (plan_rest c f r) ids t (last h l) written s)
  unfolding insert_all
  first-Took t f r ids written within fd =
      let used = (Linked-entry s.pool h l t linked within).1 in
      let full = ((at s.pool t).idle_len - f) == 0 in
      let q = first_pool os c sha1_val buff s.pool h l linked t f within full ids in
      let kept = first_pool-kept os c sha1_val buff h l s linked t f within full ids in
      let s₁ = written_first os c sha1_val buff (plan_rest c f r) ids t (last h l) written s in
      let pool : s₁.pool ≡ q =
        unfold written_first first_meta in unfold plan_rest in (rw used refl) in
      record {
        size =
            ap (λ (p : List MetaInfo). length p) pool
            ∙ first_pool-size os c sha1_val buff s.pool h l linked t f within full ids;
        used = λ k. ap (λ (p : List MetaInfo). (at p k).is_used) pool ∙ (kept k).0;
        room = λ k room.
            omega (arith, ap (λ (p : List MetaInfo). (at p k).idle_len) pool, (kept k).1, room);
        bits = unfold written_first in (rw used refl);
        fd = unfold written_first in fd;
      }

  abbrev done_body : Option ℕ → List ℕ → WritePlan → Progress F
  done_body tail ids plan = write_body os c sha1_val buff plan ids tail (last h l) s

  pub write_body-Took :
      (tail : Option ℕ) (ids : List ℕ)
      → file_tail s.pool sha1_val (h ∷ l) none ≡ tail
      → length ids ≡ (calc_write_variable c (entry_of s.pool tail) (length buff)).need_chunk_num
      → AllBelow (length s.pool) ids
      → Took os c sha1_val buff ids s
          (done_body tail ids (calc_write_variable c (entry_of s.pool tail) (length buff)))
  unfolding write_body plan_rest
  write_body-Took none ids found e below =
      let plan =
        plan-whole os disk c some_size bounded sha1_val buff short h l s linked d whole new is_open
          none (first_len-none (length buff)) in
      subst (λ (p : WritePlan). Took os c sha1_val buff ids s (done_body none ids p)) (sym plan)
        (unfilled-Took ids (e ∙ ap (λ (p : WritePlan). p.need_chunk_num) plan) below)
  write_body-Took (some t) ids found e below =
      let within = file_tail-is_in s.pool sha1_val (h ∷ l) t found in
      let used = (Linked-entry s.pool h l t linked within).1 in
      let f : ℕ = first_len (some (at s.pool t)) (length buff) in
      let (fit, less, why) = first_len-small (at s.pool t) (length buff) used in
      elim (Bool-cases (f == 0)) [
        | inl unfilled ↦
            let plan =
              plan-whole os disk c some_size bounded sha1_val buff short h l s linked d whole new
                is_open (some (at s.pool t)) (==→eq f 0 unfilled) in
            subst (λ (p : WritePlan). Took os c sha1_val buff ids s (done_body (some t) ids p))
              (sym plan)
              (unfilled-Took ids (e ∙ ap (λ (p : WritePlan). p.need_chunk_num) plan) below)
        | inr filled ↦
            let plan =
              plan-eq os disk c some_size bounded sha1_val buff short h l s linked d whole new
                is_open (some (at s.pool t)) f refl less in
            let start = first_offset os c sha1_val buff t (at s.pool t) in
            let full = ((at s.pool t).idle_len - f) == 0 in
            let written = (write_at os (slice buff s.real_write_len f) start s.data_mgr).1 in
            let s₁ =
              written_first os c sha1_val buff (plan_rest c f (length buff - f)) ids t (last h l)
                written s in
            let (small, sum) =
              full_len-plan c f (length buff - f) ids some_size bounded (omega arith)
                (e ∙ ap (λ (p : WritePlan). p.need_chunk_num) plan) in
            let fd = write_at-fd os (slice buff s.real_write_len f) start s.data_mgr in
            let first = first-Took t f (length buff - f) ids written within fd in
            subst (λ (p : WritePlan). Took os c sha1_val buff ids s (done_body (some t) ids p))
              (sym plan)
              (subst (Took os c sha1_val buff ids s)
                (sym (
                  body-filled os disk c some_size bounded sha1_val buff short h l s linked d whole
                    new is_open t f (length buff - f) ids filled))
                (Took-trans os c sha1_val buff ids s s₁ _ first (
                  write_chunks-Took os c sha1_val buff (IsDisk-Writes os disk)
                    (plan_rest c f (length buff - f)).last_chunk_write_len ids s₁ small
                    (ap is_pos first.fd ∙ is_open)
                    (unfold written_first in (omega (arith, whole, sum)))
                    (AllBelow-resize ids first.size below))))
      ]

-- The store that `write` leaves.
abbrev pub result_of : {F : Type 0} → Fs F → Progress F → Fs F
result_of fs s = record fs {
  meta_pool = s.pool;
  bit_map = s.bit_map;
  data_mgr = s.data_mgr;
  next_taskid = (fs.next_taskid + 1) % 2 ^ 32;
}

pub Took-IsStore :
    {F : Type 0} (os : Os F) (fs : Fs F) (sha1_val buff : Bytes)
    → IsStore fs
    → IsBitmap fs.bit_map
    → (ids : List ℕ) (s : Progress F)
    → Took os fs.head.chunk_size sha1_val buff ids (start fs (length buff)) s
    → AllBelow (length fs.meta_pool) ids
    → IsStore (result_of fs s) × IsBitmap s.bit_map
Took-IsStore os fs sha1_val buff good bits ids s took below =
    let (kept, marks) =
      is_have-insert_all ids fs.bit_map bits
        (subst (λ (n : ℕ). AllBelow n ids) good.chunks below) in
    let same = took.bits in
    (
      record {
        is_open = ap is_pos took.fd ∙ good.is_open;
        some_size = good.some_size;
        bounded = good.bounded;
        chunks =
            took.size
            ∙ good.chunks
            ∙ sym kept.1
            ∙ ap (λ (b : Bitmap). b.total_chunk_num) (sym same);
        few = omega (arith, took.size, good.few);
        marks = λ k small.
            ap (λ (b : Bitmap). is_have b k) same
            ∙ marks k
            ∙ ap (λ (x : Bool). is_in k ids || x) (good.marks k (omega (arith, took.size, small)))
            ∙ sym (took.used k);
        room = λ k. took.room k (good.room k);
      },
      subst IsBitmap (sym same) kept.0,
    )
