-- ===== src/EdgeFs/Read/Packs.antt =====
-- After a write all chunks of the file but its last are full, if they were before.
use mathlib.Core.List.{append-nil}
use edge_compute.Base.{
  ℕ, ◌≤◌, ◌≡◌, refl, true, Option, none, some, List, [], ◌∷◌, ◌++◌, length, length-set, set, arith,
  Bool-cases, inl, inr, ◌⊎◌, ◌∙◌, ap, sym, subst, ==_refl,
}
use edge_compute.Sys.{Bytes}
use edge_compute.EdgeFs.Format.{MetaInfo}
use edge_compute.EdgeFs.Init.Sizes.{bytes_eq_refl}
use edge_compute.EdgeFs.Bitmap.Bits.{is_in, AllBelow}
use edge_compute.EdgeFs.Bitmap.Search.{Distinct}
use edge_compute.EdgeFs.Chain.{is_of}
use edge_compute.EdgeFs.Chain.Linked.{at}
use edge_compute.EdgeFs.Chain.Walks.{file_tail}
use edge_compute.EdgeFs.Write.{filled_meta}
use edge_compute.EdgeFs.Write.Fill.{fill, fill-outside, at-set, AllBelow-resize}
use edge_compute.EdgeFs.Write.Append.{Fresh}
use edge_compute.EdgeFs.Read.Packed.{file_chunks, IsPacked}

abbrev pub AllFull : List MetaInfo → List ℕ → Type 0
AllFull p [] = Unit {0}
AllFull p (i ∷ l) = ((at p i).idle_len ≡ 0) × AllFull p l

-- The last of some chunks.
abbrev pub end_of : List ℕ → Option ℕ → Option ℕ
end_of [] tail = tail
end_of (i ∷ l) tail = end_of l (some i)

pub file_tail-end_of :
    (p : List MetaInfo) (sha1_val : Bytes) (xs : List ℕ) (tail : Option ℕ)
    → file_tail p sha1_val xs tail ≡ end_of (file_chunks p sha1_val xs) tail
file_tail-end_of p sha1_val [] tail = refl
file_tail-end_of p sha1_val (x ∷ xs) tail = elim (Bool-cases (is_of sha1_val (at p x))) [
  | inl mine ↦ rw mine (file_tail-end_of p sha1_val xs (some x))
  | inr other ↦ rw other (file_tail-end_of p sha1_val xs tail)
]

packed-AllFull :
    (p : List MetaInfo) (i : ℕ) (l : List ℕ)
    → IsPacked p (i ∷ l)
    → ((t : ℕ) → end_of l (some i) ≡ some t → (at p t).idle_len ≡ 0)
    → AllFull p (i ∷ l)
packed-AllFull p i [] packed full = (full i refl, tt)
packed-AllFull p i (j ∷ l) (here, packed) full = (here, packed-AllFull p j l packed full)

-- A file whose chunks are packed has full chunks only when its last chunk is full.
file_chunks-AllFull :
    (p : List MetaInfo) (cs : List ℕ)
    → IsPacked p cs
    → ((t : ℕ) → end_of cs none ≡ some t → (at p t).idle_len ≡ 0)
    → AllFull p cs
file_chunks-AllFull p [] packed full = tt
file_chunks-AllFull p (i ∷ l) packed full = packed-AllFull p i l packed full

IsPacked-append :
    (p : List MetaInfo) (xs ys : List ℕ) → AllFull p xs → IsPacked p ys → IsPacked p (xs ++ ys)
IsPacked-append p [] ys full packed = packed
IsPacked-append p (x ∷ []) [] full packed = tt
IsPacked-append p (x ∷ []) (y ∷ ys) full packed = (full.0, packed)
IsPacked-append p (x ∷ x' ∷ xs) ys full packed =
    (full.0, IsPacked-append p (x' ∷ xs) ys full.1 packed)

-- Where the chunks get no more room.
IsPacked-shrunk :
    (p q : List MetaInfo) (cs : List ℕ)
    → ((k : ℕ) → is_in k cs ≡ true → (at q k).idle_len ≤ (at p k).idle_len)
    → IsPacked p cs
    → IsPacked q cs
IsPacked-shrunk p q [] less packed = tt
IsPacked-shrunk p q (i ∷ []) less packed = tt
IsPacked-shrunk p q (i ∷ j ∷ l) less (full, packed) = (
  omega (arith, less i (ground (arith, ==_refl i)), full),
  IsPacked-shrunk p q (j ∷ l) (λ k e. less k (ground arith)) packed,
)

AllFull-same :
    (p q : List MetaInfo) (cs : List ℕ)
    → ((k : ℕ) → is_in k cs ≡ true → (at q k).idle_len ≡ (at p k).idle_len)
    → AllFull p cs
    → AllFull q cs
AllFull-same p q [] same full = tt
AllFull-same p q (i ∷ l) same (here, full) = (
  same i (ground (arith, ==_refl i)) ∙ here,
  AllFull-same p q l (λ k e. same k (ground arith)) full,
)

file_chunks-frame :
    (p q : List MetaInfo) (sha1_val : Bytes) (xs : List ℕ)
    → ((k : ℕ) → is_in k xs ≡ true → (at q k).sha1 ≡ (at p k).sha1)
    → file_chunks q sha1_val xs ≡ file_chunks p sha1_val xs
file_chunks-frame p q sha1_val [] same = refl
file_chunks-frame p q sha1_val (x ∷ xs) same =
    rw
      (
        same x (ground (arith, ==_refl x)),
        file_chunks-frame p q sha1_val xs (λ k e. same k (ground arith)),
      )
      refl

file_chunks-append :
    (p : List MetaInfo) (sha1_val : Bytes) (xs ys : List ℕ)
    → file_chunks p sha1_val (xs ++ ys) ≡ file_chunks p sha1_val xs ++ file_chunks p sha1_val ys
file_chunks-append p sha1_val [] ys = refl
file_chunks-append p sha1_val (x ∷ xs) ys = elim (Bool-cases (is_of sha1_val (at p x))) [
  | inl mine ↦ rw mine (ap (◌∷◌ x) (file_chunks-append p sha1_val xs ys))
  | inr other ↦ rw other (file_chunks-append p sha1_val xs ys)
]

is_in-file_chunks :
    (p : List MetaInfo) (sha1_val : Bytes) (xs : List ℕ) (k : ℕ)
    → is_in k (file_chunks p sha1_val xs) ≡ true
    → is_in k xs ≡ true
is_in-file_chunks p sha1_val [] k e = cc
is_in-file_chunks p sha1_val (x ∷ xs) k e = elim (Bool-cases (is_of sha1_val (at p x))) [
  | inl mine ↦ ground (arith, is_in-file_chunks p sha1_val xs k, rw mine at e)
  | inr other ↦ ground (arith, is_in-file_chunks p sha1_val xs k, rw other at e)
]

module _ (c last_len : ℕ) (sha1_val : Bytes) where
  -- The chunks that were filled are of the file, and packed.
  fill-chunks :
      (ids : List ℕ) (q : List MetaInfo)
      → AllBelow (length q) ids
      → Distinct ids
      → (file_chunks (fill c last_len sha1_val ids q) sha1_val ids ≡ ids)
        × IsPacked (fill c last_len sha1_val ids q) ids
  unfolding filled_meta
  fill-chunks [] q below d = (refl, tt)
  fill-chunks (i ∷ []) q below d =
      let m = filled_meta c last_len sha1_val none in
      let mine : at (set q i m) i ≡ m = ground (arith, at-set q i i m, ==_refl i) in
      (rw (mine, bytes_eq_refl sha1_val) refl, tt)
  fill-chunks (i ∷ j ∷ l) q below d =
      let m = filled_meta c last_len sha1_val (some j) in
      let below' = AllBelow-resize (j ∷ l) (length-set q i m) below.1 in
      let mine : at (set q i m) i ≡ m = ground (arith, at-set q i i m, ==_refl i) in
      let here = fill-outside c last_len sha1_val (j ∷ l) (set q i m) i below' d.0 in
      let (chunks, packed) = fill-chunks (j ∷ l) (set q i m) below' d.1 in
      (
        rw (here, mine, bytes_eq_refl sha1_val, chunks) refl,
        (ap (λ (x : MetaInfo). x.idle_len) (here ∙ mine), packed),
      )

  -- The new chunks come behind full ones.
  pub fill-IsPacked :
      (p q : List MetaInfo) (xs ids : List ℕ)
      → ((k : ℕ) → (at q k).sha1 ≡ (at p k).sha1)
      → ((k : ℕ) → (at q k).idle_len ≤ (at p k).idle_len)
      → IsPacked p (file_chunks p sha1_val xs)
      → (ids ≡ []) ⊎ ((t : ℕ) → file_tail p sha1_val xs none ≡ some t → (at q t).idle_len ≡ 0)
      → Fresh q xs ids
      → IsPacked
          (fill c last_len sha1_val ids q)
          (file_chunks (fill c last_len sha1_val ids q) sha1_val (xs ++ ids))
  fill-IsPacked p q xs ids sha1 idle packed ready fresh =
      let q' = fill c last_len sha1_val ids q in
      let cs = file_chunks p sha1_val xs in
      let outside = λ (k : ℕ) (e : is_in k xs ≡ true).
        fill-outside c last_len sha1_val ids q k fresh.below (fresh.apart k e) in
      let old : file_chunks q' sha1_val xs ≡ cs =
        file_chunks-frame p q' sha1_val xs
          (λ k e. ap (λ (m : MetaInfo). m.sha1) (outside k e) ∙ sha1 k) in
      let (new, new_packed) = fill-chunks ids q fresh.below fresh.distinct in
      let all : file_chunks q' sha1_val (xs ++ ids) ≡ cs ++ ids =
        file_chunks-append q' sha1_val xs ids
        ∙ ap (λ (x : List ℕ). x ++ file_chunks q' sha1_val ids) old
        ∙ ap (λ (x : List ℕ). cs ++ x) new in
      let within = λ (k : ℕ) (e : is_in k cs ≡ true). is_in-file_chunks p sha1_val xs k e in
      let same = λ (k : ℕ) (e : is_in k cs ≡ true).
        ap (λ (m : MetaInfo). m.idle_len) (outside k (within k e)) in
      let packed_q = IsPacked-shrunk p q cs (λ k e. idle k) packed in
      subst (IsPacked q') (sym all) (elim ready [
        | inl nothing ↦
            subst (IsPacked q') (sym (ap (λ (x : List ℕ). cs ++ x) nothing ∙ append-nil cs))
              (IsPacked-shrunk q q' cs (λ k e. omega (arith, same k e)) packed_q)
        | inr full ↦
            IsPacked-append q' cs ids
              (AllFull-same q q' cs same (
                file_chunks-AllFull q cs packed_q
                  (λ t e. full t (file_tail-end_of p sha1_val xs none ∙ e))))
              new_packed
      ])
