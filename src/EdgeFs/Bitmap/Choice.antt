-- ===== src/EdgeFs/Bitmap/Choice.antt =====
-- `generate_idle_chunkids` as a whole: what it chooses, when it fails, and its repeated choices.
use native.Mathlib.Nat.{mod-eq_of_lt}
use edge_compute.Base.{
  ℕ, ◌+◌, ◌-◌, ◌*◌, ◌%◌, ◌^◌, ◌≤◌, ◌<◌, ◌≡◌, refl, Bool, true, false, Option, none, some, List, [],
  ◌∷◌, ◌++◌, ◌==◌, leb, length, take, arith, Bool-cases, inl, inr, sym,
}
use edge_compute.EdgeFs.Bitmap.{
  Bitmap, is_have, is_idle, scan_chunks, draw_chunks, Drawn, enough, gave_up, after_draws,
  first_idle, generate_idle_chunkids_for_steady, generate_idle_chunkids_for_fast,
  generate_idle_chunkids,
}
use edge_compute.EdgeFs.Bitmap.Search.{
  idle_from, scan_chunks-idle_from, scan_chunks-Free, idle_from-idle, idle_from-Distinct, Distinct,
  Free, draw_chunks-Free, DrawnFree,
}

-- The disk is at least half full, so that the chunks are searched in order.
abbrev pub is_steady : Bitmap → Bool
is_steady b = leb b.total_chunk_num (b.write_chunk_num * 2 % 2 ^ 32)

-- The file's last chunk, if it is not used, is a free chunk.
abbrev pub IsTail : Bitmap → Option Bool → ℕ → Type 0
IsTail b tail tail_chunkid =
    tail ≡ some false → (is_have b tail_chunkid ≡ false) × (tail_chunkid < b.total_chunk_num)

first_idle-Free :
    (b : Bitmap) (tail : Option Bool) (tail_chunkid : ℕ)
    → IsTail b tail tail_chunkid
    → Free b (first_idle tail tail_chunkid)
unfolding first_idle
first_idle-Free b none tail_chunkid good = tt
first_idle-Free b (some true) tail_chunkid good = tt
first_idle-Free b (some false) tail_chunkid good = ((good refl).0, (good refl).1, tt)

first_idle-small :
    (tail : Option Bool) (tail_chunkid : ℕ) → length (first_idle tail tail_chunkid) ≤ 1
unfolding first_idle
first_idle-small none tail_chunkid = omega arith
first_idle-small (some true) tail_chunkid = omega arith
first_idle-small (some false) tail_chunkid = omega arith

first_idle-Distinct :
    (tail : Option Bool) (tail_chunkid : ℕ) → Distinct (first_idle tail tail_chunkid)
unfolding first_idle
first_idle-Distinct none tail_chunkid = tt
first_idle-Distinct (some true) tail_chunkid = tt
first_idle-Distinct (some false) tail_chunkid = (refl, tt)

after_draws-Free :
    (b : Bitmap) (need exclude : ℕ) (d : Drawn) (ids : List ℕ)
    → DrawnFree b need d
    → after_draws b need exclude d ≡ some ids
    → (length ids ≡ need) × Free b ids
unfolding after_draws
after_draws-Free b need exclude (enough found) ids free e =
    let same : found ≡ ids = cc in rw (sym same) free
after_draws-Free b need exclude (gave_up found) ids (few, free) e =
    let (size, good, which) = scan_chunks-Free b need exclude found ids few free e in (size, good)

first_then-Distinct :
    (b : Bitmap) (tail : Option Bool) (tail_chunkid n : ℕ)
    → Distinct
        (first_idle tail tail_chunkid ++ take n (idle_from b tail_chunkid b.total_chunk_num 0))
unfolding first_idle is_idle
first_then-Distinct b none tail_chunkid n = idle_from-Distinct b tail_chunkid b.total_chunk_num 0 n
first_then-Distinct b (some true) tail_chunkid n =
    idle_from-Distinct b tail_chunkid b.total_chunk_num 0 n
first_then-Distinct b (some false) tail_chunkid n = (
  ground (arith, idle_from-idle b tail_chunkid b.total_chunk_num 0 n tail_chunkid),
  idle_from-Distinct b tail_chunkid b.total_chunk_num 0 n,
)

-- Let there be a chunk, and let the file's last chunk, if it is not used, be free. When a search
-- succeeds, it returns as many chunks as were asked for, and every one of them is a
-- chunk that there is and that is not taken. If the disk was at least half full, no chunk is
-- returned twice.
pub generate_idle_chunkids-Free :
    (b : Bitmap) (draws : ℕ → ℕ) (tail : Option Bool) (tail_chunkid need : ℕ) (ids : List ℕ)
    → 0 < b.total_chunk_num
    → IsTail b tail tail_chunkid
    → generate_idle_chunkids b draws tail tail_chunkid need ≡ some ids
    → (length ids ≡ need) × Free b ids × (is_steady b ≡ true → Distinct ids)
unfolding generate_idle_chunkids generate_idle_chunkids_for_steady generate_idle_chunkids_for_fast
generate_idle_chunkids-Free b draws tail tail_chunkid need ids some_chunks good e =
    let found = first_idle tail tail_chunkid in
    let free = first_idle-Free b tail tail_chunkid good in
    elim (Bool-cases (need == 0)) [
      | inl nothing ↦
          let e' = rw nothing at e in
          let same : [] ≡ ids = cc in rw (sym same) (ground arith, tt, λ x. tt)
      | inr needed ↦ elim (Bool-cases (leb need (length found))) [
        | inl full ↦
            let e' = rw (needed, full) at e in
            let same : found ≡ ids = cc in
            rw (sym same) (
              ground (arith, first_idle-small tail tail_chunkid),
              free,
              λ x. first_idle-Distinct tail tail_chunkid,
            )
        | inr more ↦ elim (Bool-cases (is_steady b)) [
          | inl steady ↦
              let e' = rw (needed, more, steady) at e in
              let (size, good', which) =
                scan_chunks-Free b need tail_chunkid found ids (ground arith) free e' in
              (
                size,
                good',
                λ x. rw which (first_then-Distinct b tail tail_chunkid (need - length found)),
              )
          | inr random ↦
              let e' = rw (needed, more, random) at e in
              let drawn =
                draw_chunks-Free b draws need tail_chunkid (10 * need % 2 ^ 32 - 1) 0 found
                  some_chunks (ground arith) free in
              let (size, good') = after_draws-Free b need tail_chunkid _ ids drawn e' in
              (size, good', λ x. cc)
        ]
      ]
    ]

scan_chunks-short :
    (b : Bitmap) (need exclude : ℕ) (found : List ℕ)
    → length found < need
    → scan_chunks b need exclude b.total_chunk_num 0 found ≡ none
    → length (idle_from b exclude b.total_chunk_num 0) < need
scan_chunks-short b need exclude found few e =
    let list = idle_from b exclude b.total_chunk_num 0 in
    let law = scan_chunks-idle_from b need exclude b.total_chunk_num 0 found few in
    elim (Bool-cases (leb need (length found + length list))) [
      | inl met ↦ let law' = rw met at law in cc
      | inr short ↦ ground arith
    ]

after_draws-short :
    (b : Bitmap) (need exclude : ℕ) (d : Drawn)
    → DrawnFree b need d
    → after_draws b need exclude d ≡ none
    → length (idle_from b exclude b.total_chunk_num 0) < need
unfolding after_draws
after_draws-short b need exclude (enough found) free e = cc
after_draws-short b need exclude (gave_up found) (few, free) e =
    scan_chunks-short b need exclude found few e

-- Let there be a chunk, and let the file's last chunk, if it is not used, be free. A search fails only when fewer chunks are free than were asked for, the file's last chunk aside.
pub generate_idle_chunkids-short :
    (b : Bitmap) (draws : ℕ → ℕ) (tail : Option Bool) (tail_chunkid need : ℕ)
    → 0 < b.total_chunk_num
    → IsTail b tail tail_chunkid
    → generate_idle_chunkids b draws tail tail_chunkid need ≡ none
    → length (idle_from b tail_chunkid b.total_chunk_num 0) < need
unfolding generate_idle_chunkids generate_idle_chunkids_for_steady generate_idle_chunkids_for_fast
generate_idle_chunkids-short b draws tail tail_chunkid need some_chunks good e =
    let found = first_idle tail tail_chunkid in
    let free = first_idle-Free b tail tail_chunkid good in
    elim (Bool-cases (need == 0)) [
      | inl nothing ↦ let e' = rw nothing at e in cc
      | inr needed ↦ elim (Bool-cases (leb need (length found))) [
        | inl full ↦ let e' = rw (needed, full) at e in cc
        | inr more ↦ elim (Bool-cases (is_steady b)) [
          | inl steady ↦
              let e' = rw (needed, more, steady) at e in
              scan_chunks-short b need tail_chunkid found (ground arith) e'
          | inr random ↦
              let e' = rw (needed, more, random) at e in
              after_draws-short b need tail_chunkid _
                (draw_chunks-Free b draws need tail_chunkid (10 * need % 2 ^ 32 - 1) 0 found
                  some_chunks (ground arith) free)
                e'
        ]
      ]
    ]

-- While the disk is less than half full, a search for two chunks whose first two draws are the same
-- free chunk, other than the excluded one, returns that chunk twice.
pub generate_idle_chunkids-repeats :
    (b : Bitmap) (draws : ℕ → ℕ) (tail_chunkid chunkid : ℕ)
    → is_steady b ≡ false
    → is_idle b tail_chunkid chunkid ≡ true
    → chunkid < b.total_chunk_num
    → draws 0 ≡ chunkid
    → draws 1 ≡ chunkid
    → generate_idle_chunkids b draws none tail_chunkid 2 ≡ some (chunkid ∷ chunkid ∷ [])
unfolding generate_idle_chunkids generate_idle_chunkids_for_fast draw_chunks first_idle after_draws
generate_idle_chunkids-repeats b draws tail_chunkid chunkid random idle small e₀ e₁ =
    let m : chunkid % b.total_chunk_num ≡ chunkid = mod-eq_of_lt small in
    rw (random, e₀, e₁, m, idle) refl
