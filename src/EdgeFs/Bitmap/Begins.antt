-- ===== src/EdgeFs/Bitmap/Begins.antt =====
-- The search for idle chunks goes on with the chunks that were there before: an unused last chunk
-- comes first.
use mathlib.Core.List.{append_assoc}
use edge_compute.Base.{
  ℕ, zero, suc, ◌+◌, ◌%◌, ◌<◌, ◌≡◌, false, some, List, [], ◌∷◌, ◌++◌, ◌==◌, leb, length, arith, ◌∙◌,
  Bool-cases, inl, inr, sym,
}
use edge_compute.EdgeFs.Bitmap.{
  Bitmap, is_idle, scan_chunks, draw_chunks, after_draws, first_idle,
  generate_idle_chunkids_for_steady, generate_idle_chunkids_for_fast, generate_idle_chunkids,
}
use edge_compute.EdgeFs.Bitmap.Choice.{is_steady}

abbrev pub Begins : List ℕ → List ℕ → Type 0
Begins xs ys = (zs : List ℕ) × (ys ≡ xs ++ zs)

Begins-cons : (xs : List ℕ) (x : ℕ) (ys : List ℕ) → Begins (xs ++ x ∷ []) ys → Begins xs ys
Begins-cons xs x ys (zs, e) = (x ∷ zs, e ∙ append_assoc xs (x ∷ []) zs)

scan_chunks-Begins :
    (b : Bitmap) (need exclude rounds chunkid : ℕ) (found ids : List ℕ)
    → scan_chunks b need exclude rounds chunkid found ≡ some ids
    → Begins found ids
unfolding scan_chunks
scan_chunks-Begins b need exclude zero chunkid found ids e = cc
scan_chunks-Begins b need exclude (suc rounds) chunkid found ids e =
    elim (Bool-cases (is_idle b exclude chunkid)) [
      | inl idle ↦ elim (Bool-cases (leb need (length (found ++ chunkid ∷ [])))) [
        | inl full ↦
            let e' = rw (idle, full) at e in
            (chunkid ∷ [], let same : found ++ chunkid ∷ [] ≡ ids = cc in sym same)
        | inr more ↦ Begins-cons found chunkid ids (
            scan_chunks-Begins b need exclude rounds (chunkid + 1) (found ++ chunkid ∷ []) ids
              (rw (idle, more) at e))
      ]
      | inr taken ↦ scan_chunks-Begins b need exclude rounds (chunkid + 1) found ids (rw taken at e)
    ]

after_draws-Begins :
    (b : Bitmap) (draws : ℕ → ℕ) (need exclude rounds k : ℕ) (found ids : List ℕ)
    → after_draws b need exclude (draw_chunks b draws need exclude rounds k found) ≡ some ids
    → Begins found ids
unfolding draw_chunks after_draws
after_draws-Begins b draws need exclude zero k found ids e =
    scan_chunks-Begins b need exclude b.total_chunk_num 0 found ids e
after_draws-Begins b draws need exclude (suc rounds) k found ids e =
    let chunkid = draws k % b.total_chunk_num in
    elim (Bool-cases (is_idle b exclude chunkid)) [
      | inl idle ↦ elim (Bool-cases (leb need (length (found ++ chunkid ∷ [])))) [
        | inl full ↦
            let e' = rw (idle, full) at e in
            (chunkid ∷ [], let same : found ++ chunkid ∷ [] ≡ ids = cc in sym same)
        | inr more ↦ Begins-cons found chunkid ids (
            after_draws-Begins b draws need exclude rounds (k + 1) (found ++ chunkid ∷ []) ids
              (rw (idle, more) at e))
      ]
      | inr taken ↦ after_draws-Begins b draws need exclude rounds (k + 1) found ids (rw taken at e)
    ]

-- A search for at least one chunk, for a file whose last chunk is not used, returns that chunk first.
pub generate_idle_chunkids-Begins :
    (b : Bitmap) (draws : ℕ → ℕ) (tail_chunkid need : ℕ) (ids : List ℕ)
    → 0 < need
    → generate_idle_chunkids b draws (some false) tail_chunkid need ≡ some ids
    → Begins (tail_chunkid ∷ []) ids
unfolding generate_idle_chunkids generate_idle_chunkids_for_steady generate_idle_chunkids_for_fast
    first_idle
generate_idle_chunkids-Begins b draws tail_chunkid need ids positive e =
    let needed : (need == 0) ≡ false = ground arith in
    elim (Bool-cases (leb need (length {A = ℕ} (tail_chunkid ∷ [])))) [
      | inl full ↦
          let e' = rw (needed, full) at e in
          ([], let same : tail_chunkid ∷ [] ≡ ids = cc in sym same)
      | inr more ↦ elim (Bool-cases (is_steady b)) [
        | inl steady ↦
            scan_chunks-Begins b need tail_chunkid b.total_chunk_num 0 (tail_chunkid ∷ []) ids
              (rw (needed, more, steady) at e)
        | inr random ↦
            after_draws-Begins b draws need tail_chunkid _ 0 (tail_chunkid ∷ []) ids
              (rw (needed, more, random) at e)
      ]
    ]
