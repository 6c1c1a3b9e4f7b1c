-- ===== src/EdgeFs/Write/First.antt =====
-- The first piece of a write fills up the file's last chunk: what a read then notes of the chain.
use edge_compute.Base.{
  ℕ, ◌+◌, ◌-◌, ◌%◌, ◌^◌, ◌<◌, ◌≤◌, ◌≡◌, refl, ◌⊎◌, true, false, ◌||◌, Option, none, some, List, [],
  ◌∷◌, ◌++◌, ◌==◌, arith, if◌then◌else◌, ◌∙◌, ap, Bool-cases, inl, inr, ==→eq, ==_refl, sym,
}
use edge_compute.Sys.{Bytes}
use edge_compute.EdgeFs.Format.{MetaInfo, sub_32}
use edge_compute.EdgeFs.Bitmap.Bits.{is_in}
use edge_compute.EdgeFs.Bitmap.Search.{Distinct}
use edge_compute.EdgeFs.Chain.{is_of, ReadChunks, note_chunk}
use edge_compute.EdgeFs.Chain.Linked.{at}
use edge_compute.EdgeFs.Chain.Walks.{noted, file_tail}
use edge_compute.EdgeFs.Write.Noted.{noted-append, noted-frame}

-- The chunk `t` is of the file, and no chunk of `post` is.
abbrev pub LastOf : List MetaInfo → (chunk_size : ℕ) → Bytes → List ℕ → ℕ → Type 0
LastOf p c sha1_val xs t =
    (pre : List ℕ) × (post : List ℕ) × (xs ≡ pre ++ t ∷ post)
    × (is_of sha1_val (at p t) ≡ true)
    × ((r : ReadChunks) → noted p c sha1_val post r ≡ r)

pub file_tail-LastOf :
    (p : List MetaInfo) (c : ℕ) (sha1_val : Bytes) (xs : List ℕ) (tail : Option ℕ) (t : ℕ)
    → file_tail p sha1_val xs tail ≡ some t
    → ((tail ≡ some t) × ((r : ReadChunks) → noted p c sha1_val xs r ≡ r))
      ⊎ LastOf p c sha1_val xs t
unfolding note_chunk
file_tail-LastOf p c sha1_val [] tail t e = inl (e, λ r. refl)
file_tail-LastOf p c sha1_val (x ∷ l) tail t e = elim (Bool-cases (is_of sha1_val (at p x))) [
  | inl mine ↦ elim (file_tail-LastOf p c sha1_val l (some x) t (rw mine at e)) [
    | inl (e', silent) ↦
        let same : x ≡ t = cc in inr ([], l, rw same refl, rw (sym same) mine, silent)
    | inr (pre, post, e', of, silent) ↦ inr (x ∷ pre, post, ap (◌∷◌ x) e', of, silent)
  ]
  | inr other ↦ elim (file_tail-LastOf p c sha1_val l tail t (rw other at e)) [
    | inl (e', silent) ↦ inl (e', λ r. rw other (silent r))
    | inr (pre, post, e', of, silent) ↦ inr (x ∷ pre, post, ap (◌∷◌ x) e', of, silent)
  ]
]

pub is_in-append : (k : ℕ) (xs ys : List ℕ) → is_in k (xs ++ ys) ≡ (is_in k xs || is_in k ys)
is_in-append k [] ys = refl
is_in-append k (x ∷ xs) ys = ground (arith, is_in-append k xs ys)

pub Distinct-split :
    (pre : List ℕ) (t : ℕ) (post : List ℕ)
    → Distinct (pre ++ t ∷ post)
    → (is_in t pre ≡ false) × (is_in t post ≡ false)
Distinct-split [] t post d = (refl, d.0)
Distinct-split (x ∷ pre) t post d =
    ground (arith, Distinct-split pre t post d.1, is_in-append x pre (t ∷ post), ==_refl t)

-- From `p` to `q` the room of chunk `t` shrinks by `first`, and nothing else of the chain changes
-- that a read notes.
pub record Shrunk (p q : List MetaInfo) (xs : List ℕ) (t first : ℕ) : Type 0 where
  pub sha1 : (k : ℕ) → is_in k xs ≡ true → (at q k).sha1 ≡ (at p k).sha1
  pub idle :
      (k : ℕ)
      → is_in k xs ≡ true
      → (at q k).idle_len ≡ (if k == t then (at p k).idle_len - first else (at p k).idle_len)

noted-Shrunk :
    (p q : List MetaInfo) (c : ℕ) (sha1_val : Bytes) (xs ys : List ℕ) (t first : ℕ) (r : ReadChunks)
    → Shrunk p q xs t first
    → ((k : ℕ) → is_in k ys ≡ true → is_in k xs ≡ true)
    → is_in t ys ≡ false
    → noted q c sha1_val ys r ≡ noted p c sha1_val ys r
noted-Shrunk p q c sha1_val xs ys t first r s within out =
    noted-frame p q c sha1_val ys r
      λ k e. (s.sha1 k (within k e), ground (arith, s.idle k (within k e), ==→eq k t))

-- The total and the length of the last chunk grow by what was written.
abbrev pub grown : ReadChunks → ℕ → ReadChunks
grown r first = record r {
  write_total_len = r.write_total_len + first;
  last_chunk_write_len = r.last_chunk_write_len + first;
}

first-noted_split :
    (p q : List MetaInfo) (c : ℕ) (sha1_val : Bytes) (pre post : List ℕ) (t first : ℕ)
    (r : ReadChunks)
    → Distinct (pre ++ t ∷ post)
    → is_of sha1_val (at p t) ≡ true
    → ((r : ReadChunks) → noted p c sha1_val post r ≡ r)
    → Shrunk p q (pre ++ t ∷ post) t first
    → first ≤ (at p t).idle_len
    → (at p t).idle_len ≤ c
    → c < 2 ^ 32
    → (noted p c sha1_val (pre ++ t ∷ post) r).write_total_len + first < 2 ^ 64
    → noted q c sha1_val (pre ++ t ∷ post) r ≡ grown (noted p c sha1_val (pre ++ t ∷ post) r) first
unfolding note_chunk
first-noted_split p q c sha1_val pre post t first r d of silent s fits idle bounded room =
    let all = pre ++ t ∷ post in
    let (out, out') = Distinct-split pre t post d in
    let R = noted p c sha1_val pre r in
    let before =
      noted-Shrunk p q c sha1_val all pre t first r s
        (λ k e. ground (arith, is_in-append k pre (t ∷ post))) out in
    let within : is_in t all ≡ true = ground (arith, is_in-append t pre (t ∷ post), ==_refl t) in
    let after = λ (r' : ReadChunks).
      noted-Shrunk p q c sha1_val all post t first r' s
        (λ k e. ground (arith, is_in-append k pre (t ∷ post))) out' in
    let digest = s.sha1 t within in
    let room' : (at q t).idle_len ≡ (at p t).idle_len - first =
      ground (arith, s.idle t within, ==_refl t) in
    let old : noted p c sha1_val all r ≡ note_chunk c sha1_val t (at p t) R =
      noted-append p c sha1_val pre (t ∷ post) r ∙ silent (note_chunk c sha1_val t (at p t) R) in
    let new : noted q c sha1_val all r ≡ note_chunk c sha1_val t (at q t) R =
      noted-append q c sha1_val pre (t ∷ post) r
      ∙ after (note_chunk c sha1_val t (at q t) (noted q c sha1_val pre r))
      ∙ silent (note_chunk c sha1_val t (at q t) (noted q c sha1_val pre r))
      ∙ ap (note_chunk c sha1_val t (at q t)) before in
    let room'' : (R.write_total_len + sub_32 c (at p t).idle_len) % 2 ^ 64 + first < 2 ^ 64 =
      ground (arith, old, room, of) in
    let total : (R.write_total_len + sub_32 c ((at p t).idle_len - first)) % 2 ^ 64
        ≡ (R.write_total_len + sub_32 c (at p t).idle_len) % 2 ^ 64 + first =
      omega arith in
    let len : sub_32 c ((at p t).idle_len - first) ≡ sub_32 c (at p t).idle_len + first =
      omega arith in
    rw (new, old, digest, of, room', total, len) refl

-- When the file's last chunk shrinks so, a read of the chain notes the same chunks, and as much more
-- as was written.
pub first-noted :
    (p q : List MetaInfo) (c : ℕ) (sha1_val : Bytes) (xs : List ℕ) (t first : ℕ) (r : ReadChunks)
    → Distinct xs
    → file_tail p sha1_val xs none ≡ some t
    → Shrunk p q xs t first
    → first ≤ (at p t).idle_len
    → (at p t).idle_len ≤ c
    → c < 2 ^ 32
    → (noted p c sha1_val xs r).write_total_len + first < 2 ^ 64
    → noted q c sha1_val xs r ≡ grown (noted p c sha1_val xs r) first
unfolding note_chunk
first-noted p q c sha1_val xs t first r d e s fits idle bounded room =
    elim (file_tail-LastOf p c sha1_val xs none t e) [
      | inl (impossible, silent) ↦ cc
      | inr (pre, post, split, of, silent) ↦ rw split (
          first-noted_split p q c sha1_val pre post t first r (rw split at d) of silent
            (rw split at s) fits idle bounded (rw split at room))
    ]
