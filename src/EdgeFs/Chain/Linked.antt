-- ===== src/EdgeFs/Chain/Linked.antt =====
-- A chain as the list of its chunks.
use edge_compute.Base.{
  ℕ, ◌<◌, ◌≡◌, ◌≢◌, true, false, List, [], ◌∷◌, ◌++◌, ◌==◌, length, get_or, arith, if◌then◌else◌,
  ◌∙◌, ==_refl,
}
use edge_compute.EdgeFs.Format.{MetaInfo, zero_meta, invalid_chunkid}
use edge_compute.EdgeFs.Bitmap.Bits.{is_in}
use edge_compute.EdgeFs.Bitmap.Search.{Distinct}

abbrev pub at : List MetaInfo → ℕ → MetaInfo
at pool i = get_or pool i zero_meta

-- Each chunk of the list is used and names the next one, and the last names none.
abbrev pub Linked : List MetaInfo → List ℕ → Type 0
Linked pool [] = ⊥
Linked pool (i ∷ []) =
    (i < length pool) × ((at pool i).is_used ≡ true) × ((at pool i).next_chunkid ≡ invalid_chunkid)
Linked pool (i ∷ j ∷ l) =
    (i < length pool)
    × ((at pool i).is_used ≡ true)
    × ((at pool i).next_chunkid ≡ j)
    × (j ≢ invalid_chunkid)
    × Linked pool (j ∷ l)

abbrev pub last : ℕ → List ℕ → ℕ
last i [] = i
last i (j ∷ l) = last j l

pub last-is_in : (i : ℕ) (l : List ℕ) → is_in (last i l) (i ∷ l) ≡ true
last-is_in i [] = ground (arith, ==_refl i)
last-is_in i (j ∷ l) = ground (arith, last-is_in j l)

-- Only the entries of the chain matter.
pub Linked-frame :
    (p q : List MetaInfo) (xs : List ℕ)
    → length q ≡ length p
    → ((k : ℕ)
        → is_in k xs ≡ true
        → ((at q k).is_used ≡ (at p k).is_used) × ((at q k).next_chunkid ≡ (at p k).next_chunkid))
    → Linked p xs
    → Linked q xs
Linked-frame p q [] size same h = h
Linked-frame p q (i ∷ []) size same h = ground (arith, same i (ground (arith, ==_refl i)))
Linked-frame p q (i ∷ j ∷ l) size same (small, used, next, more, h) =
    let (u, n) = same i (ground (arith, ==_refl i)) in
    (
      omega arith,
      u ∙ used,
      n ∙ next,
      more,
      Linked-frame p q (j ∷ l) size (λ k e. same k (ground arith)) h,
    )

-- Two chains are one when the last chunk of the first is made to name the first of the second.
pub Linked-append :
    (p q : List MetaInfo) (i : ℕ) (l : List ℕ) (j : ℕ) (m : List ℕ)
    → length q ≡ length p
    → ((k : ℕ)
        → is_in k (i ∷ l) ≡ true
        → ((at q k).is_used ≡ (at p k).is_used)
          × ((at q k).next_chunkid ≡ (if k == last i l then j else (at p k).next_chunkid)))
    → j ≢ invalid_chunkid
    → Distinct (i ∷ l)
    → Linked p (i ∷ l)
    → Linked q (j ∷ m)
    → Linked q (i ∷ (l ++ j ∷ m))
Linked-append p q i [] j m size same ne d h g = ground (arith, same i (ground (arith, ==_refl i)))
Linked-append p q i (k ∷ l) j m size same ne (new, d) (small, used, next, more, h) g =
    let (u, n) = same i (ground (arith, ==_refl i)) in
    let other : (i == last k l) ≡ false = ground (arith, last-is_in k l) in
    (
      omega arith,
      u ∙ used,
      rw other at n ∙ next,
      more,
      Linked-append p q k l j m size (λ x e. same x (ground arith)) ne d h g,
    )
