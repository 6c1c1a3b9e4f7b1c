-- ===== src/EdgeFs/Contents.antt =====
-- A file of EdgeFS as its bytes: what the chunks of a chain hold of it.
use mathlib.Core.List.{append_assoc, append-nil}
use edge_compute.Base.{
  ℕ, ◌+◌, ◌-◌, ◌*◌, ◌<◌, ◌≡◌, ◌≢◌, refl, ◌⊎◌, true, false, Option, none, some, List, [], ◌∷◌, ◌++◌,
  ◌==◌, arith, if◌then◌else◌, ◌∙◌, ap, Bool-cases, inl, inr, ==→eq, ==_refl, sym,
}
use edge_compute.Sys.{Bytes}
use edge_compute.EdgeFs.Format.{MetaInfo}
use edge_compute.EdgeFs.Bitmap.Bits.{is_in}
use edge_compute.EdgeFs.Bitmap.Search.{Distinct}
use edge_compute.EdgeFs.Chain.{is_of}
use edge_compute.EdgeFs.Chain.Linked.{at}
use edge_compute.EdgeFs.Chain.Walks.{file_tail}
use edge_compute.EdgeFs.Disk.{area}
use edge_compute.EdgeFs.Disk.Area.{area-same}
use edge_compute.EdgeFs.Write.First.{is_in-append, Distinct-split}

-- What a chunk holds of a file.
abbrev pub chunk_contents : MetaInfo → (ℕ → ℕ) → (chunk_size : ℕ) → Bytes → ℕ → Bytes
chunk_contents m content chunk_size sha1_val i =
    if is_of sha1_val m then area content (i * chunk_size) (chunk_size - m.idle_len) else []

-- What the chunks of a list hold of a file, in their order.
abbrev pub file_contents : List MetaInfo → (ℕ → ℕ) → (chunk_size : ℕ) → Bytes → List ℕ → Bytes
file_contents pool content chunk_size sha1_val [] = []
file_contents pool content chunk_size sha1_val (i ∷ l) =
    chunk_contents (at pool i) content chunk_size sha1_val i
    ++ file_contents pool content chunk_size sha1_val l

module _ (c : ℕ) (sha1_val : Bytes) where
  pub file_contents-append :
      (p : List MetaInfo) (f : ℕ → ℕ) (xs ys : List ℕ)
      → file_contents p f c sha1_val (xs ++ ys)
        ≡ file_contents p f c sha1_val xs ++ file_contents p f c sha1_val ys
  file_contents-append p f [] ys = refl
  file_contents-append p f (x ∷ xs) ys =
      ap (λ (b : Bytes). chunk_contents (at p x) f c sha1_val x ++ b)
        (file_contents-append p f xs ys)
      ∙ sym (
          append_assoc (chunk_contents (at p x) f c sha1_val x) (file_contents p f c sha1_val xs)
            (file_contents p f c sha1_val ys))

  -- The contents stay when every chunk keeps what it holds.
  pub file_contents-frame :
      (p q : List MetaInfo) (f g : ℕ → ℕ) (xs : List ℕ)
      → ((k : ℕ)
          → is_in k xs ≡ true
          → chunk_contents (at q k) g c sha1_val k ≡ chunk_contents (at p k) f c sha1_val k)
      → file_contents q g c sha1_val xs ≡ file_contents p f c sha1_val xs
  file_contents-frame p q f g [] same = refl
  file_contents-frame p q f g (x ∷ xs) same =
      rw
        (
          same x (ground (arith, ==_refl x)),
          file_contents-frame p q f g xs (λ k e. same k (ground arith)),
        )
        refl

  -- A chunk keeps what it holds when its digest, its room and its area stay.
  pub chunk_contents-same :
      (m m' : MetaInfo) (f g : ℕ → ℕ) (k : ℕ)
      → m'.sha1 ≡ m.sha1
      → m'.idle_len ≡ m.idle_len
      → ((o : ℕ) → o < c → g (k * c + o) ≡ f (k * c + o))
      → chunk_contents m' g c sha1_val k ≡ chunk_contents m f c sha1_val k
  chunk_contents-same m m' f g k e i same =
      let stays = area-same f g (k * c) (c - m.idle_len) (λ o small. same o (omega arith)) in
      rw (e, i, stays) refl

  -- No chunk of the list is of the file.
  abbrev Others : List MetaInfo → List ℕ → Type 0
  Others p xs = (k : ℕ) → is_in k xs ≡ true → is_of sha1_val (at p k) ≡ false

  Others-cons :
      (p : List MetaInfo) (x : ℕ) (l : List ℕ)
      → is_of sha1_val (at p x) ≡ false
      → Others p l
      → Others p (x ∷ l)
  Others-cons p x l other others k within = elim (Bool-cases (k == x)) [
    | inl here ↦ let same : k ≡ x = ==→eq k x here in rw same other
    | inr behind ↦ others k (ground arith)
  ]

  file_tail-splits :
      (p : List MetaInfo) (xs : List ℕ) (tail : Option ℕ) (t : ℕ)
      → file_tail p sha1_val xs tail ≡ some t
      → ((tail ≡ some t) × Others p xs)
        ⊎ ((pre : List ℕ) × (post : List ℕ) × (xs ≡ pre ++ t ∷ post)
            × (is_of sha1_val (at p t) ≡ true)
            × Others p post)
  file_tail-splits p [] tail t e = inl (e, λ k x. cc)
  file_tail-splits p (x ∷ l) tail t e = elim (Bool-cases (is_of sha1_val (at p x))) [
    | inl mine ↦ elim (file_tail-splits p l (some x) t (rw mine at e)) [
      | inl (e', others) ↦
          let same : x ≡ t = cc in inr ([], l, rw same refl, rw (sym same) mine, others)
      | inr (pre, post, e', of, others) ↦ inr (x ∷ pre, post, ap (◌∷◌ x) e', of, others)
    ]
    | inr other ↦ elim (file_tail-splits p l tail t (rw other at e)) [
      | inl (e', others) ↦ inl (e', Others-cons p x l other others)
      | inr (pre, post, e', of, others) ↦ inr (x ∷ pre, post, ap (◌∷◌ x) e', of, others)
    ]
  ]

  Others-contents :
      (p : List MetaInfo) (f : ℕ → ℕ) (xs : List ℕ)
      → Others p xs
      → file_contents p f c sha1_val xs ≡ []
  Others-contents p f [] others = refl
  Others-contents p f (x ∷ xs) others =
      rw (others x (ground (arith, ==_refl x)))
        (Others-contents p f xs (λ k e. others k (ground arith)))

  grows_split :
      (p q : List MetaInfo) (f g : ℕ → ℕ) (pre : List ℕ) (t : ℕ) (post : List ℕ) (b : Bytes)
      → Distinct (pre ++ t ∷ post)
      → Others p post
      → ((k : ℕ)
          → is_in k (pre ++ t ∷ post) ≡ true
          → k ≢ t
          → chunk_contents (at q k) g c sha1_val k ≡ chunk_contents (at p k) f c sha1_val k)
      → chunk_contents (at q t) g c sha1_val t ≡ chunk_contents (at p t) f c sha1_val t ++ b
      → file_contents q g c sha1_val (pre ++ t ∷ post)
        ≡ file_contents p f c sha1_val (pre ++ t ∷ post) ++ b
  grows_split p q f g pre t post b d others same grows =
      let (out, out') = Distinct-split pre t post d in
      let before = file_contents-frame p q f g pre (λ k e.
        same k (ground (arith, is_in-append k pre (t ∷ post))) (λ w. absurd_in pre k t e w out)) in
      let after = file_contents-frame p q f g post (λ k e.
        same k (ground (arith, is_in-append k pre (t ∷ post)))
          (λ w. absurd_in post k t e w out')) in
      let silent = Others-contents p f post others in
      let mine = chunk_contents (at p t) f c sha1_val t in
      let head = file_contents p f c sha1_val pre in
      let old : file_contents p f c sha1_val (pre ++ t ∷ post) ≡ head ++ (mine ++ []) =
        file_contents-append p f pre (t ∷ post) ∙ ap (λ (x : Bytes). head ++ (mine ++ x)) silent in
      let new : file_contents q g c sha1_val (pre ++ t ∷ post) ≡ head ++ ((mine ++ b) ++ []) =
        file_contents-append q g pre (t ∷ post) ∙ rw (before, grows, after, silent) refl in
      let regroup : head ++ ((mine ++ b) ++ []) ≡ (head ++ (mine ++ [])) ++ b =
        simp (append-nil, append_assoc) in
      new ∙ regroup ∙ ap (λ (x : Bytes). x ++ b) (sym old)
    where
      absurd_in : (xs : List ℕ) (k t : ℕ) → is_in k xs ≡ true → k ≡ t → is_in t xs ≡ false → ⊥
      absurd_in xs k t e w out = cc

  -- When the file's last chunk gets a piece behind what it holds, so does the file.
  pub file_contents-grows :
      (p q : List MetaInfo) (f g : ℕ → ℕ) (xs : List ℕ) (t : ℕ) (b : Bytes)
      → Distinct xs
      → file_tail p sha1_val xs none ≡ some t
      → ((k : ℕ)
          → is_in k xs ≡ true
          → k ≢ t
          → chunk_contents (at q k) g c sha1_val k ≡ chunk_contents (at p k) f c sha1_val k)
      → chunk_contents (at q t) g c sha1_val t ≡ chunk_contents (at p t) f c sha1_val t ++ b
      → file_contents q g c sha1_val xs ≡ file_contents p f c sha1_val xs ++ b
  file_contents-grows p q f g xs t b d e same grows = elim (file_tail-splits p xs none t e) [
    | inl (impossible, others) ↦ cc
    | inr (pre, post, split, of, others) ↦
        rw split (grows_split p q f g pre t post b (rw split at d) others (rw split at same) grows)
  ]
