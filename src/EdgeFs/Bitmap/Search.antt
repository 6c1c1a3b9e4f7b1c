-- ===== src/EdgeFs/Bitmap/Search.antt =====
-- The choice of free chunks: the loop over all chunks against the list of free chunks.
use edge_compute.Base.{
  ℕ, zero, suc, ◌+◌, ◌-◌, ◌%◌, ◌≤◌, ◌<◌, ◌≡◌, refl, true, false, none, some, List, [], ◌∷◌, ◌++◌,
  leb, length, take, if◌then◌else◌, arith, Bool-cases, inl, inr, length-append, length-take,
}
use native.Mathlib.Nat.{mod-lt}
use mathlib.Core.List.{append_assoc}
use edge_compute.EdgeFs.Bitmap.{
  Bitmap, is_have, is_idle, scan_chunks, draw_chunks, Drawn, enough, gave_up,
}
use edge_compute.EdgeFs.Bitmap.Bits.{is_in}

-- The free chunks from `chunkid` on, in order.
abbrev pub idle_from : Bitmap → ℕ → (rounds chunkid : ℕ) → List ℕ
idle_from b exclude zero chunkid = []
idle_from b exclude (suc rounds) chunkid =
    let rest = idle_from b exclude rounds (chunkid + 1) in
    if is_idle b exclude chunkid then chunkid ∷ rest else rest

-- While chunks are still needed, the loop takes the first free ones, and fails if there are too few.
pub scan_chunks-idle_from :
    (b : Bitmap) (need exclude rounds chunkid : ℕ) (found : List ℕ)
    → length found < need
    → scan_chunks b need exclude rounds chunkid found ≡ (
        if leb need (length found + length (idle_from b exclude rounds chunkid))
        then some (found ++ take (need - length found) (idle_from b exclude rounds chunkid))
        else none)
unfolding scan_chunks
scan_chunks-idle_from b need exclude zero chunkid found few = ground arith
scan_chunks-idle_from b need exclude (suc rounds) chunkid found few =
    elim (Bool-cases (is_idle b exclude chunkid)) [
      | inl idle ↦
          let rest = idle_from b exclude rounds (chunkid + 1) in
          let found' = found ++ chunkid ∷ [] in
          let size : length found' ≡ length found + 1 = length-append found (chunkid ∷ []) in
          let left : need - length found ≡ suc (need - length found') = omega (arith, size) in
          elim (Bool-cases (leb need (length found'))) [
            | inl full ↦
                let last : need - length found' ≡ 0 = ground (arith, size) in
                let met : leb need (length found + suc (length rest)) ≡ true =
                  ground (arith, size) in
                rw (idle, full, met, left, last) refl
            | inr more ↦
                let few' : length found' < need = ground arith in
                let step = scan_chunks-idle_from b need exclude rounds (chunkid + 1) found' few' in
                let sum : length found + suc (length rest) ≡ length found' + length rest =
                  omega (arith, size) in
                rw
                  (
                    idle,
                    more,
                    left,
                    sum,
                    step,
                    append_assoc found (chunkid ∷ []) (take (need - length found') rest),
                  )
                  refl
          ]
      | inr taken ↦ rw taken (scan_chunks-idle_from b need exclude rounds (chunkid + 1) found few)
    ]

pub idle_from-idle :
    (b : Bitmap) (exclude rounds chunkid n j : ℕ)
    → is_in j (take n (idle_from b exclude rounds chunkid)) ≡ true
    → (is_idle b exclude j ≡ true) × (chunkid ≤ j) × (j < chunkid + rounds)
idle_from-idle b exclude zero chunkid zero j e = cc
idle_from-idle b exclude zero chunkid (suc n) j e = cc
idle_from-idle b exclude (suc rounds) chunkid zero j e = cc
idle_from-idle b exclude (suc rounds) chunkid (suc n) j e = ground (
  arith,
  idle_from-idle b exclude rounds (chunkid + 1) n j,
  idle_from-idle b exclude rounds (chunkid + 1) (suc n) j,
)

-- No chunk stands twice in a list.
abbrev pub Distinct : List ℕ → Type 0
Distinct [] = Unit {0}
Distinct (i ∷ is) = (is_in i is ≡ false) × Distinct is

pub idle_from-Distinct :
    (b : Bitmap) (exclude rounds chunkid n : ℕ)
    → Distinct (take n (idle_from b exclude rounds chunkid))
idle_from-Distinct b exclude zero chunkid zero = tt
idle_from-Distinct b exclude zero chunkid (suc n) = tt
idle_from-Distinct b exclude (suc rounds) chunkid zero = tt
idle_from-Distinct b exclude (suc rounds) chunkid (suc n) =
    elim (Bool-cases (is_idle b exclude chunkid)) [
      | inl idle ↦ rw idle (
        ground (arith, idle_from-idle b exclude rounds (chunkid + 1) n chunkid),
        idle_from-Distinct b exclude rounds (chunkid + 1) n,
      )
      | inr taken ↦ rw taken (idle_from-Distinct b exclude rounds (chunkid + 1) (suc n))
    ]

-- Chunks that there are and that are not taken.
abbrev pub Free : Bitmap → List ℕ → Type 0
Free b [] = Unit {0}
Free b (i ∷ is) = (is_have b i ≡ false) × (i < b.total_chunk_num) × Free b is

Free-append : (b : Bitmap) (xs ys : List ℕ) → Free b xs → Free b ys → Free b (xs ++ ys)
Free-append b [] ys hx hy = hy
Free-append b (x ∷ xs) ys (a, c, d) hy = (a, c, Free-append b xs ys d hy)

idle_from-Free :
    (b : Bitmap) (exclude rounds chunkid n : ℕ)
    → chunkid + rounds ≤ b.total_chunk_num
    → Free b (take n (idle_from b exclude rounds chunkid))
unfolding is_idle
idle_from-Free b exclude zero chunkid zero room = tt
idle_from-Free b exclude zero chunkid (suc n) room = tt
idle_from-Free b exclude (suc rounds) chunkid zero room = tt
idle_from-Free b exclude (suc rounds) chunkid (suc n) room = ground (
  arith,
  idle_from-Free b exclude rounds (chunkid + 1) n (omega arith),
  idle_from-Free b exclude rounds (chunkid + 1) (suc n) (omega arith),
)

-- What the loop over all chunks chooses behind what was found before.
pub scan_chunks-Free :
    (b : Bitmap) (need exclude : ℕ) (found ids : List ℕ)
    → length found < need
    → Free b found
    → scan_chunks b need exclude b.total_chunk_num 0 found ≡ some ids
    → (length ids ≡ need)
      × Free b ids
      × (ids ≡ found ++ take (need - length found) (idle_from b exclude b.total_chunk_num 0))
scan_chunks-Free b need exclude found ids few free e =
    let list = idle_from b exclude b.total_chunk_num 0 in
    let law = scan_chunks-idle_from b need exclude b.total_chunk_num 0 found few in
    elim (Bool-cases (leb need (length found + length list))) [
      | inl met ↦
          let law' = rw met at law in
          let same : ids ≡ found ++ take (need - length found) list = cc in
          let size : length (found ++ take (need - length found) list) ≡ need = ground (
            arith,
            length-append found (take (need - length found) list),
            length-take (need - length found) list,
          ) in
          rw same (
            size,
            Free-append b found (take (need - length found) list) free
                (idle_from-Free b exclude b.total_chunk_num 0 (need - length found) (omega arith)),
            refl,
          )
      | inr short ↦ let law' = rw short at law in cc
    ]

-- The draws choose free chunks, and as many as are needed if they do not give up.
abbrev pub DrawnFree : Bitmap → ℕ → Drawn → Type 0
DrawnFree b need (enough ids) = (length ids ≡ need) × Free b ids
DrawnFree b need (gave_up ids) = (length ids < need) × Free b ids

pub draw_chunks-Free :
    (b : Bitmap) (draws : ℕ → ℕ) (need exclude rounds k : ℕ) (found : List ℕ)
    → 0 < b.total_chunk_num
    → length found < need
    → Free b found
    → DrawnFree b need (draw_chunks b draws need exclude rounds k found)
unfolding draw_chunks is_idle
draw_chunks-Free b draws need exclude zero k found some_chunks few free = (few, free)
draw_chunks-Free b draws need exclude (suc rounds) k found some_chunks few free =
    let chunkid = draws k % b.total_chunk_num in
    let small : chunkid < b.total_chunk_num = mod-lt (draws k) some_chunks in
    let found' = found ++ chunkid ∷ [] in
    let size : length found' ≡ length found + 1 = length-append found (chunkid ∷ []) in
    elim (Bool-cases (is_idle b exclude chunkid)) [
      | inl idle ↦
          let free' : Free b found' = Free-append b found (chunkid ∷ []) free (ground arith) in
          elim (Bool-cases (leb need (length found'))) [
            | inl full ↦ rw (idle, full) (ground (arith, size), free')
            | inr more ↦
                rw (idle, more)
                  (draw_chunks-Free b draws need exclude rounds (k + 1) found' some_chunks
                    (ground arith) free')
          ]
      | inr taken ↦
          rw taken (draw_chunks-Free b draws need exclude rounds (k + 1) found some_chunks few free)
    ]
