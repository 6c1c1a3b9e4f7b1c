-- ===== src/EdgeFs/Read/Packed.antt =====
-- The chunks of a file, and where its bytes stand in the data file when all but its last chunk are full.
use native.Mathlib.Nat.{add-div_right, mod-add-div}
use mathlib.Core.List.{append_assoc, append-nil}
use edge_compute.Base.{
  ℕ, zero, suc, ◌+◌, ◌-◌, ◌*◌, ◌/◌, ◌%◌, ◌^◌, ◌≤◌, ◌<◌, ◌≡◌, refl, List, [], ◌∷◌, ◌++◌, map, length,
  arith, if◌then◌else◌, Bool-cases, inl, inr, ◌∙◌, ap, sym, subst,
}
use edge_compute.Sys.{Bytes}
use edge_compute.EdgeFs.Format.{MetaInfo, sub_32}
use edge_compute.EdgeFs.Chain.{is_of, ReadChunks, note_chunk}
use edge_compute.EdgeFs.Chain.Linked.{at}
use edge_compute.EdgeFs.Chain.Walks.{noted}
use edge_compute.EdgeFs.Disk.{area}
use edge_compute.EdgeFs.Contents.{file_contents}
use edge_compute.EdgeFs.Read.Addresses.{
  range, file_addresses, file_addresses-append, chunk_addresses,
}

-- The chunks of a list that are of a file.
abbrev pub file_chunks : List MetaInfo → Bytes → List ℕ → List ℕ
file_chunks pool sha1_val [] = []
file_chunks pool sha1_val (i ∷ l) =
    if is_of sha1_val (at pool i)
    then i ∷ file_chunks pool sha1_val l
    else file_chunks pool sha1_val l

-- All chunks but the last are full.
abbrev pub IsPacked : List MetaInfo → List ℕ → Type 0
IsPacked pool [] = Unit {0}
IsPacked pool (i ∷ []) = Unit {0}
IsPacked pool (i ∷ j ∷ l) = ((at pool i).idle_len ≡ 0) × IsPacked pool (j ∷ l)

-- How many bytes the chunks hold, and how many of them the last.
abbrev pub size_of : List MetaInfo → (chunk_size : ℕ) → List ℕ → ℕ
size_of pool chunk_size [] = 0
size_of pool chunk_size (i ∷ l) = (chunk_size - (at pool i).idle_len) + size_of pool chunk_size l

abbrev pub last_len_of : List MetaInfo → (chunk_size : ℕ) → List ℕ → ℕ → ℕ
last_len_of pool chunk_size [] n = n
last_len_of pool chunk_size (i ∷ l) n =
    last_len_of pool chunk_size l (chunk_size - (at pool i).idle_len)

abbrev areas : List MetaInfo → (ℕ → ℕ) → (chunk_size : ℕ) → List ℕ → Bytes
areas pool content chunk_size [] = []
areas pool content chunk_size (i ∷ l) =
    area content (i * chunk_size) (chunk_size - (at pool i).idle_len)
    ++ areas pool content chunk_size l

pub area-range : (f : ℕ → ℕ) (from n : ℕ) → area f from n ≡ map f (range from n)
area-range f from zero = refl
area-range f from (suc n) = ap (◌∷◌ (f from)) (area-range f (from + 1) n)

pub map-append : (f : ℕ → ℕ) (xs ys : List ℕ) → map f (xs ++ ys) ≡ map f xs ++ map f ys
map-append f [] ys = refl
map-append f (x ∷ xs) ys = ap (◌∷◌ (f x)) (map-append f xs ys)

module _ (p : List MetaInfo) (c : ℕ) (some_size : 0 < c) (sha1_val : Bytes) where
  file_contents-areas :
      (f : ℕ → ℕ) (xs : List ℕ)
      → file_contents p f c sha1_val xs ≡ areas p f c (file_chunks p sha1_val xs)
  file_contents-areas f [] = refl
  file_contents-areas f (i ∷ l) = elim (Bool-cases (is_of sha1_val (at p i))) [
    | inl mine ↦ rw (mine, file_contents-areas f l) refl
    | inr other ↦ rw other (file_contents-areas f l)
  ]

  -- Behind the first chunk the positions go on with the second.
  file_addresses-cons :
      (i : ℕ) (l : List ℕ) (from n : ℕ)
      → file_addresses c (i ∷ l) (from + c) n ≡ file_addresses c l from n
  file_addresses-cons i l from zero = refl
  file_addresses-cons i l from (suc n) =
      let q : (from + c) / c ≡ suc (from / c) = omega (arith, add-div_right from some_size) in
      let r : (from + c) % c ≡ from % c =
        omega (arith, mod-add-div (from + c) c, mod-add-div from c, ap (λ (t : ℕ). c * t) q) in
      let e : from + c + 1 ≡ from + 1 + c = omega arith in
      rw (q, r, e, file_addresses-cons i l (from + 1) n) refl

  areas-addresses :
      (f : ℕ → ℕ) (ids : List ℕ)
      → IsPacked p ids
      → areas p f c ids ≡ map f (file_addresses c ids 0 (size_of p c ids))
  areas-addresses f [] packed = refl
  areas-addresses f (i ∷ []) packed =
      let n = c - (at p i).idle_len in
      let e : n + 0 ≡ n = omega arith in
      append-nil (area f (i * c) n)
      ∙ area-range f (i * c) n
      ∙ ap (map f) (
          sym (
            chunk_addresses c some_size (i ∷ []) 0 i 0 0 (i * c) n refl (omega arith) (omega arith)
              (omega arith)))
      ∙ ap (λ (t : ℕ). map f (file_addresses c (i ∷ []) 0 t)) (sym e)
  areas-addresses f (i ∷ j ∷ l) (full, packed) =
      let rest = areas-addresses f (j ∷ l) packed in
      let n = size_of p c (j ∷ l) in
      let whole : c - (at p i).idle_len ≡ c = omega (arith, full) in
      let first =
        chunk_addresses c some_size (i ∷ j ∷ l) 0 i 0 0 (i * c) c refl (omega arith) (omega arith)
          (omega arith) in
      let split = file_addresses-append c some_size (i ∷ j ∷ l) 0 c n in
      let later = file_addresses-cons i (j ∷ l) 0 n in
      rw
        (
          whole,
          split,
          map-append f (file_addresses c (i ∷ j ∷ l) 0 c) (file_addresses c (i ∷ j ∷ l) (0 + c) n),
          later,
          first,
          area-range f (i * c) c,
        )
        (ap (λ (b : Bytes). map f (range (i * c) c) ++ b) rest)

  -- The bytes of a packed file are those at its positions in the data file.
  pub file_contents-addresses :
      (f : ℕ → ℕ) (xs : List ℕ)
      → IsPacked p (file_chunks p sha1_val xs)
      → file_contents p f c sha1_val xs
        ≡ map f (
            file_addresses c
              (file_chunks p sha1_val xs)
              0
              (size_of p c (file_chunks p sha1_val xs)))
  file_contents-addresses f xs packed =
      file_contents-areas f xs ∙ areas-addresses f (file_chunks p sha1_val xs) packed

  pub size_of-packed :
      (i : ℕ) (l : List ℕ)
      → IsPacked p (i ∷ l)
      → size_of p c (i ∷ l) + c ≡ length (i ∷ l) * c + last_len_of p c (i ∷ l) 0
  size_of-packed i [] packed = omega arith
  size_of-packed i (j ∷ l) (full, packed) = omega (arith, size_of-packed j l packed, full)

  -- What was noted of the chunks of `l` from `r'` on is `r` with the chunks `ids`.
  abbrev pub Notes : List ℕ → ReadChunks → ReadChunks → List ℕ → Type 0
  Notes l r' r ids =
      ((noted p c sha1_val l r').write_chunkids ≡ r.write_chunkids ++ ids)
      × ((noted p c sha1_val l r').write_total_len ≡ r.write_total_len + size_of p c ids)
      × ((noted p c sha1_val l r').last_chunk_write_len
          ≡ last_len_of p c ids r.last_chunk_write_len)

  -- What a read notes are the chunks of the file, their sum and the length of the last.
  pub noted-Notes :
      (bounded : c < 2 ^ 32) (room : (k : ℕ) → (at p k).idle_len ≤ c) (xs : List ℕ) (r : ReadChunks)
      → r.write_total_len + size_of p c (file_chunks p sha1_val xs) < 2 ^ 64
      → Notes xs r r (file_chunks p sha1_val xs)
  unfolding note_chunk
  noted-Notes bounded room [] r fits = (sym (append-nil r.write_chunkids), omega arith, refl)
  noted-Notes bounded room (i ∷ l) r fits =
      let m = at p i in
      let ids = file_chunks p sha1_val l in
      elim (Bool-cases (is_of sha1_val m)) [
        | inl mine ↦
            let len : sub_32 c m.idle_len ≡ c - m.idle_len = omega (arith, room i) in
            let fits' : r.write_total_len + (c - m.idle_len + size_of p c ids) < 2 ^ 64 =
              rw mine at fits in
            let total : (r.write_total_len + sub_32 c m.idle_len) % 2 ^ 64
                ≡ r.write_total_len + (c - m.idle_len) =
              omega (arith, len, fits') in
            let r' : ReadChunks = record {
              write_chunkids = r.write_chunkids ++ i ∷ [];
              write_total_len = r.write_total_len + (c - m.idle_len);
              last_chunk_write_len = c - m.idle_len;
            } in
            let same : note_chunk c sha1_val i m r ≡ r' = rw (mine, total, len) refl in
            let (chunks, sum, last) = noted-Notes bounded room l r' (omega (arith, fits')) in
            let here : Notes l r' r (i ∷ ids) =
              (chunks ∙ append_assoc r.write_chunkids (i ∷ []) ids, omega (arith, sum), last) in
            subst (λ (x : ReadChunks). Notes l x r (file_chunks p sha1_val (i ∷ l))) (sym same)
              (subst (Notes l r' r)
                (let e : i ∷ ids ≡ file_chunks p sha1_val (i ∷ l) = rw mine refl in e) here)
        | inr other ↦
            let same : note_chunk c sha1_val i m r ≡ r = rw other refl in
            subst (λ (x : ReadChunks). Notes l x r (file_chunks p sha1_val (i ∷ l))) (sym same)
              (subst (Notes l r r)
                (let e : ids ≡ file_chunks p sha1_val (i ∷ l) = rw other refl in e)
                (noted-Notes bounded room l r (rw other at fits)))
      ]
