-- ===== src/EdgeFs/Write/Noted.antt =====
-- What a read notes of a chain before and after a write.
use edge_compute.Base.{
  ℕ, ◌+◌, ◌-◌, ◌%◌, ◌^◌, ◌<◌, ◌≤◌, ◌≡◌, refl, true, none, some, List, [], ◌∷◌, ◌++◌, length, set,
  length-set, arith, ◌∙◌, ap, ==_refl,
}
use mathlib.Core.List.{append_assoc}
use edge_compute.Sys.{Bytes}
use edge_compute.EdgeFs.Format.{MetaInfo, sub_32}
use edge_compute.EdgeFs.Init.Sizes.{bytes_eq_refl}
use edge_compute.EdgeFs.Bitmap.Bits.{is_in, AllBelow}
use edge_compute.EdgeFs.Bitmap.Search.{Distinct}
use edge_compute.EdgeFs.Chain.{ReadChunks, note_chunk}
use edge_compute.EdgeFs.Chain.Linked.{at}
use edge_compute.EdgeFs.Chain.Walks.{noted}
use edge_compute.EdgeFs.Write.{filled_meta}
use edge_compute.EdgeFs.Write.Fill.{fill, full_len, at-set, AllBelow-resize, fill-outside}

pub noted-append :
    (p : List MetaInfo) (c : ℕ) (sha1_val : Bytes) (xs ys : List ℕ) (r : ReadChunks)
    → noted p c sha1_val (xs ++ ys) r ≡ noted p c sha1_val ys (noted p c sha1_val xs r)
noted-append p c sha1_val [] ys r = refl
noted-append p c sha1_val (x ∷ xs) ys r =
    noted-append p c sha1_val xs ys (note_chunk c sha1_val x (at p x) r)

-- The noted chunks depend on their digests and lengths only.
pub noted-frame :
    (p q : List MetaInfo) (c : ℕ) (sha1_val : Bytes) (xs : List ℕ) (r : ReadChunks)
    → ((k : ℕ)
        → is_in k xs ≡ true
        → ((at q k).sha1 ≡ (at p k).sha1) × ((at q k).idle_len ≡ (at p k).idle_len))
    → noted q c sha1_val xs r ≡ noted p c sha1_val xs r
noted-frame p q c sha1_val [] r same = refl
noted-frame p q c sha1_val (x ∷ xs) r same =
    let (s, i) = same x (ground (arith, ==_refl x)) in
    let here : note_chunk c sha1_val x (at q x) r ≡ note_chunk c sha1_val x (at p x) r =
      unfold note_chunk in (rw (s, i) refl) in
    ap (noted q c sha1_val xs) here
    ∙ noted-frame p q c sha1_val xs (note_chunk c sha1_val x (at p x) r)
        (λ k e. same k (ground arith))

-- More chunks behind those that were noted.
abbrev pub more : ReadChunks → List ℕ → (len last_len : ℕ) → ReadChunks
more r ids len last_len = record {
  write_chunkids = r.write_chunkids ++ ids;
  write_total_len = r.write_total_len + len;
  last_chunk_write_len = last_len;
}

module _ (c last_len : ℕ) (sha1_val : Bytes) (small : last_len ≤ c) (bounded : c < 2 ^ 32) where
  -- A read notes the chunks of a write with what was written.
  pub fill-noted :
      (i : ℕ) (ids : List ℕ) (pool : List MetaInfo) (r : ReadChunks)
      → AllBelow (length pool) (i ∷ ids)
      → Distinct (i ∷ ids)
      → r.write_total_len + full_len c last_len (i ∷ ids) < 2 ^ 64
      → noted (fill c last_len sha1_val (i ∷ ids) pool) c sha1_val (i ∷ ids) r
        ≡ more r (i ∷ ids) (full_len c last_len (i ∷ ids)) last_len
  unfolding note_chunk filled_meta
  fill-noted i [] pool r below d room =
      let m = filled_meta c last_len sha1_val none in
      let mine : at (set pool i m) i ≡ m = ground (arith, at-set pool i i m, ==_refl i) in
      let len : sub_32 c (c - last_len) ≡ last_len = omega arith in
      let total : (r.write_total_len + last_len) % 2 ^ 64 ≡ r.write_total_len + last_len =
        omega arith in
      rw (mine, bytes_eq_refl sha1_val, len, total) refl
  fill-noted i (j ∷ l) pool r below d room =
      let m = filled_meta c last_len sha1_val (some j) in
      let pool' = set pool i m in
      let size = length-set pool i m in
      let below' = AllBelow-resize (j ∷ l) size below.1 in
      let mine : at pool' i ≡ m = ground (arith, at-set pool i i m, ==_refl i) in
      let here = fill-outside c last_len sha1_val (j ∷ l) pool' i below' d.0 in
      let len : sub_32 c 0 ≡ c = omega arith in
      let total : (r.write_total_len + c) % 2 ^ 64 ≡ r.write_total_len + c = omega arith in
      let r' = more r (i ∷ []) c c in
      let sum : r.write_total_len + c + full_len c last_len (j ∷ l)
          ≡ r.write_total_len + (c + full_len c last_len (j ∷ l)) =
        omega arith in
      let rest = fill-noted j l pool' r' below' d.1 (omega arith) in
      rw
        (
          here,
          mine,
          bytes_eq_refl sha1_val,
          len,
          total,
          rest,
          append_assoc r.write_chunkids (i ∷ []) (j ∷ l),
          sum,
        )
        refl
