-- ===== src/EdgeFs/Write/Append.antt =====
-- A write puts chunks behind the end of a chain, and a read of the chain then notes them.
use mathlib.Core.List.{append-nil}
use edge_compute.Base.{
  ℕ, ◌+◌, ◌^◌, ◌<◌, ◌≤◌, ◌≡◌, refl, true, false, List, [], ◌∷◌, ◌++◌, ◌==◌, length, arith,
  if◌then◌else◌, ◌∙◌, ap, ==→eq, sym,
}
use edge_compute.Sys.{Bytes}
use edge_compute.EdgeFs.Format.{MetaInfo, invalid_chunkid}
use edge_compute.EdgeFs.Bitmap.Bits.{is_in, AllBelow}
use edge_compute.EdgeFs.Bitmap.Search.{Distinct}
use edge_compute.EdgeFs.Chain.{ReadChunks, no_chunks}
use edge_compute.EdgeFs.Chain.Linked.{at, Linked, Linked-frame, Linked-append, last}
use edge_compute.EdgeFs.Chain.Walks.{noted}
use edge_compute.EdgeFs.Write.{first_or_invalid}
use edge_compute.EdgeFs.Write.Fill.{
  fill, full_len, AllBelow-resize, fill-outside, fill-Linked, length-fill,
}
use edge_compute.EdgeFs.Write.Noted.{noted-append, noted-frame, fill-noted}

-- `q` is `p` with the last chunk of a chain made to name the first of the new chunks.
pub record Joined (p q : List MetaInfo) (h : ℕ) (l ids : List ℕ) : Type 0 where
  pub size : length q ≡ length p
  pub used : (k : ℕ) → is_in k (h ∷ l) ≡ true → (at q k).is_used ≡ (at p k).is_used
  pub next :
      (k : ℕ)
      → is_in k (h ∷ l) ≡ true
      → (at q k).next_chunkid
        ≡ (if k == last h l then first_or_invalid ids else (at p k).next_chunkid)

pub Linked-last :
    (p : List MetaInfo) (h : ℕ) (l : List ℕ)
    → Linked p (h ∷ l)
    → (at p (last h l)).next_chunkid ≡ invalid_chunkid
Linked-last p h [] (small, used, next) = next
Linked-last p h (j ∷ l) (small, used, next, more, rest) = Linked-last p j l rest

-- The new chunks: in the pool, distinct, and none of the chain.
pub record Fresh (p : List MetaInfo) (xs ids : List ℕ) : Type 0 where
  pub below : AllBelow (length p) ids
  pub distinct : Distinct ids
  pub apart : (k : ℕ) → is_in k xs ≡ true → is_in k ids ≡ false

module _ (c last_len : ℕ) (sha1_val : Bytes) (p q : List MetaInfo) (h : ℕ) (l : List ℕ) where
  pub fill-joins :
      (ids : List ℕ)
      → length p ≤ invalid_chunkid
      → Linked p (h ∷ l)
      → Distinct (h ∷ l)
      → Fresh p (h ∷ l) ids
      → Joined p q h l ids
      → Linked (fill c last_len sha1_val ids q) (h ∷ (l ++ ids))
  fill-joins [] few linked d fresh j =
      let e = append-nil l in
      rw e (
        Linked-frame p q (h ∷ l) j.size
          (λ k i.
            (j.used k i, ground (arith, j.next k i, Linked-last p h l linked, ==→eq k (last h l))))
          linked)
  fill-joins (i ∷ ids) few linked d fresh j =
      let below = AllBelow-resize (i ∷ ids) j.size fresh.below in
      let q' = fill c last_len sha1_val (i ∷ ids) q in
      let frame = λ (k : ℕ) (e : is_in k (h ∷ l) ≡ true).
        fill-outside c last_len sha1_val (i ∷ ids) q k below (fresh.apart k e) in
      Linked-append p q' h l i ids (length-fill c last_len sha1_val (i ∷ ids) q ∙ j.size)
        (λ k e. rw (frame k e) (j.used k e, j.next k e)) (omega (arith, fresh.below.0)) d linked
        (fill-Linked c last_len sha1_val i ids q (omega (arith, j.size)) below fresh.distinct)

  -- What a read notes of the longer chain, once it is known what it notes of the old chain.
  pub fill-notes :
      (ids : List ℕ) (r : ReadChunks)
      → last_len ≤ c
      → c < 2 ^ 32
      → Fresh p (h ∷ l) ids
      → length q ≡ length p
      → noted q c sha1_val (h ∷ l) no_chunks ≡ r
      → r.write_total_len + full_len c last_len ids < 2 ^ 64
      → (r' : ReadChunks) × (noted
            (fill c last_len sha1_val ids q)
            c
            sha1_val
            (h ∷ (l ++ ids))
            no_chunks
          ≡ r')
        × (r'.write_chunkids ≡ r.write_chunkids ++ ids)
        × (r'.write_total_len ≡ r.write_total_len + full_len c last_len ids)
  fill-notes [] r small bounded fresh size old room = (
    r,
    ap (λ (xs : List ℕ). noted q c sha1_val (h ∷ xs) no_chunks) (append-nil l) ∙ old,
    sym (append-nil r.write_chunkids),
    omega arith,
  )
  fill-notes (i ∷ ids) r small bounded fresh size old room =
      let below = AllBelow-resize (i ∷ ids) size fresh.below in
      let q' = fill c last_len sha1_val (i ∷ ids) q in
      let frame = noted-frame q q' c sha1_val (h ∷ l) no_chunks λ k e.
        (let same = fill-outside c last_len sha1_val (i ∷ ids) q k below (fresh.apart k e) in
          (ap (λ (m : MetaInfo). m.sha1) same, ap (λ (m : MetaInfo). m.idle_len) same)) in
      let rest = fill-noted c last_len sha1_val small bounded i ids q r below fresh.distinct room in
      (
        _,
        noted-append q' c sha1_val (h ∷ l) (i ∷ ids) no_chunks
            ∙ ap (noted q' c sha1_val (i ∷ ids)) (frame ∙ old)
            ∙ rest,
        refl,
        refl,
      )
