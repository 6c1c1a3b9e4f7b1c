-- ===== src/EdgeFs/Read/Addresses.antt =====
-- Which bytes of the data file the pieces of a read are.
use native.Mathlib.Nat.{
  lt-div-mul-add, div-lt_iff_lt-mul, mod-lt, mod-add-div, div-eq_of_lt-le, mul-le-mul_right,
}
use mathlib.Core.List.{append-nil}
use edge_compute.Base.{
  ℕ, zero, suc, ◌+◌, ◌-◌, ◌*◌, ◌/◌, ◌%◌, ◌^◌, ◌≤◌, ◌<◌, ◌≡◌, refl, false, List, [], ◌∷◌, ◌++◌, ◌==◌,
  ltb, length, get_elem?, get_or, get_elem?-in, get_elem?-out, arith, Bool-cases, Option-cases, inl,
  inr, ◌⊎◌, ◌∙◌, ap, sym,
}
use edge_compute.EdgeFs.Format.{done, fault, sub_32}
use edge_compute.Sys.{Bytes}
use edge_compute.EdgeFs.File.{Os}
use edge_compute.EdgeFs.Chain.{ReadChunks}
use edge_compute.EdgeFs.Write.{Fs}
use edge_compute.EdgeFs.Read.{read_found, Piece, min, read_rest, read_first, calc_read_variable}

-- The positions from `from` on.
abbrev pub range : (from n : ℕ) → List ℕ
range from zero = []
range from (suc n) = from ∷ range (from + 1) n

-- The positions in the data file that the pieces take, in their order.
abbrev pub addresses : List Piece → List ℕ
addresses [] = []
addresses (p ∷ ps) = range p.offset p.len ++ addresses ps

-- Where the bytes of a file from position `from` on stand in the data file, for its chunks.
abbrev pub file_addresses : (chunk_size : ℕ) → List ℕ → (from n : ℕ) → List ℕ
file_addresses chunk_size ids from zero = []
file_addresses chunk_size ids from (suc n) =
    (get_or ids (from / chunk_size) 0 * chunk_size + from % chunk_size)
    ∷ file_addresses chunk_size ids (from + 1) n

module _ (c : ℕ) (some_size : 0 < c) (ids : List ℕ) where
  pub file_addresses-append :
      (from m n : ℕ)
      → file_addresses c ids from (m + n)
        ≡ file_addresses c ids from m ++ file_addresses c ids (from + m) n
  file_addresses-append from zero n =
      let e : 0 + n ≡ n = omega arith in let e' : from + 0 ≡ from = omega arith in rw (e, e') refl
  file_addresses-append from (suc m) n =
      let e : suc m + n ≡ suc (m + n) = omega arith in
      let e' : from + suc m ≡ from + 1 + m = omega arith in
      rw (e, e', file_addresses-append (from + 1) m n) refl

  joins :
      (from m n k : ℕ) (xs ys : List ℕ)
      → file_addresses c ids from m ≡ xs
      → ys ≡ file_addresses c ids (from + m) n
      → m + n ≡ k
      → xs ++ ys ≡ file_addresses c ids from k
  joins from m n k xs ys ex ey e =
      rw (sym ex, ey)
        (sym (file_addresses-append from m n) ∙ ap (λ (t : ℕ). file_addresses c ids from t) e)

  -- Inside a chunk the bytes stand side by side.
  pub chunk_addresses :
      (i a skip from to n : ℕ)
      → get_or ids i 0 ≡ a
      → skip + n ≤ c
      → from ≡ i * c + skip
      → to ≡ a * c + skip
      → file_addresses c ids from n ≡ range to n
  chunk_addresses i a skip from to zero e fit ef et = refl
  chunk_addresses i a skip from to (suc n) e fit ef et =
      let q : from / c ≡ i = div-eq_of_lt-le c (omega (arith, ef)) (omega (arith, ef, fit)) in
      let r : from % c ≡ skip = omega (arith, mod-add-div from c, ap (λ (t : ℕ). c * t) q, ef) in
      let rest =
        chunk_addresses i a (skip + 1) (from + 1) (to + 1) n e (omega (arith, fit))
          (omega (arith, ef)) (omega (arith, et)) in
      rw (q, r, e, sym et, rest) refl

  read_rest-nothing : (rounds idx : ℕ) → addresses (read_rest c ids rounds idx 0) ≡ []
  unfolding read_rest
  read_rest-nothing zero idx = refl
  read_rest-nothing (suc rounds) idx =
      let none_read : min c 0 ≡ 0 = ground arith in
      elim (Option-cases (get_elem? ids idx)) [
        | inl outside ↦ rw (read_rest, outside) refl
        | inr (a, inside) ↦
            rw (read_rest, inside, none_read) (read_rest-nothing rounds ((idx + 1) % 2 ^ 32))
      ]

  read_rest-addresses :
      (rounds idx from remain : ℕ)
      → length ids < 2 ^ 32
      → (from ≡ idx * c) ⊎ (remain ≡ 0)
      → remain ≤ rounds * c
      → from + remain ≤ length ids * c
      → addresses (read_rest c ids rounds idx remain) ≡ file_addresses c ids from remain
  unfolding read_rest
  read_rest-addresses rounds idx from remain few (inr nothing) enough within =
      rw nothing (read_rest-nothing rounds idx)
  read_rest-addresses zero idx from remain few (inl ef) enough within =
      let e : remain ≡ 0 = omega arith in rw e refl
  read_rest-addresses (suc rounds) idx from remain few (inl ef) enough within =
      elim (Bool-cases (ltb idx (length ids))) [
        | inl inside ↦
            let a = get_or ids idx 0 in
            let n = min c remain in
            let fit : (n ≤ c) × (n ≤ remain) = ground arith in
            let e : n + (remain - n) ≡ remain = omega (arith, fit) in
            let m : (idx + 1) % 2 ^ 32 ≡ idx + 1 = ground arith in
            let here_bytes =
              chunk_addresses idx a 0 from (a * c) n refl (omega (arith, fit)) (omega (arith, ef))
                (omega arith) in
            let there : (n ≡ c) ⊎ (remain - n ≡ 0) = ground arith in
            let rest =
              read_rest-addresses rounds (idx + 1) (from + n) (remain - n) few
                (elim there [ inl full ↦ inl (omega (arith, full, ef)) | inr part ↦ inr part ])
                (elim there [ inl full ↦ omega (arith, full) | inr part ↦ omega (arith, part) ])
                (omega (arith, e)) in
            rw (read_rest, get_elem?-in ids idx 0 (ground arith), m)
              (joins from n (remain - n) remain (range (a * c) n) _ here_bytes rest e)
        | inr outside ↦
            let past : length ids * c ≤ idx * c = mul-le-mul_right c (ground arith) in
            let e : remain ≡ 0 = omega (arith, past) in rw e (read_rest-nothing (suc rounds) idx)
      ]

  -- Let a chunk be no longer than 2 ^ 27 bytes, the file have fewer than 2 ^ 32 chunks, all of them
  -- full but the last, of which `last_len` bytes are written, and let the read lie in the file and be
  -- shorter than 2 ^ 31 bytes. Then `calcReadVariable` returns, and the pieces are exactly the places
  -- of the bytes that the read asks for, in their order.
  pub calc_read_variable-addresses :
      (last_len read_len offset : ℕ)
      → c ≤ 2 ^ 27
      → length ids < 2 ^ 32
      → last_len ≤ c
      → 0 < read_len
      → read_len < 2 ^ 31
      → offset + read_len + c ≤ length ids * c + last_len
      → (ps : List Piece) × (calc_read_variable c ids last_len read_len offset ≡ done ps)
        × (addresses ps ≡ file_addresses c ids offset read_len)
  unfolding calc_read_variable read_first
  calc_read_variable-addresses last_len read_len offset small few last_small some_len short within =
      let i = offset / c in
      let skip = offset % c in
      let split = mod-add-div offset c in
      let lt = mod-lt offset some_size in
      let inside : i < length ids = (div-lt_iff_lt-mul some_size).1 (omega (arith, last_small)) in
      let m : i % 2 ^ 32 ≡ i = omega (arith, inside, few) in
      let entry = get_elem?-in ids i 0 inside in
      let a = get_or ids i 0 in
      elim (Bool-cases ((i + 1) % 2 ^ 32 == length ids)) [
        | inl at_end ↦
            let same : length ids ≡ i + 1 = ground arith in
            let area = ap (λ (t : ℕ). t * c) same in
            let fit : skip + read_len ≤ last_len = omega (arith, area) in
            let whole : min (sub_32 last_len skip) read_len ≡ read_len = ground arith in
            let p : Piece = record { offset = a * c + skip; len = read_len } in
            (
              p ∷ [],
              rw (m, entry, at_end, whole) refl,
              append-nil (range (a * c + skip) read_len)
                  ∙ sym (
                      chunk_addresses i a skip offset (a * c + skip) read_len refl
                        (omega (arith, fit)) (omega arith) refl),
            )
        | inr more ↦
            let n = min (c - skip) read_len in
            let remain = read_len - n in
            let fit : (n ≤ c - skip) × (n ≤ read_len) = ground arith in
            let e : n + remain ≡ read_len = omega (arith, fit) in
            let there : (n ≡ c - skip) ⊎ (remain ≡ 0) = ground arith in
            let m' : (i + 1) % 2 ^ 32 ≡ i + 1 = omega (arith, inside, few) in
            let p : Piece = record { offset = a * c + skip; len = n } in
            let rounds = (remain + c - 1) % 2 ^ 32 / c in
            let flat : (remain + c - 1) % 2 ^ 32 ≡ remain + c - 1 =
              omega (arith, e, small, short) in
            let enough : remain ≤ rounds * c =
              rw flat (omega (arith, lt-div-mul-add {a = remain + c - 1} some_size)) in
            let rest =
              read_rest-addresses rounds (i + 1) (offset + n) remain few
                (elim there [ inl full ↦ inl (omega (arith, full)) | inr part ↦ inr part ]) enough
                (omega (arith, e, last_small)) in
            let here_bytes =
              chunk_addresses i a skip offset (a * c + skip) n refl (omega (arith, fit))
                (omega arith) refl in
            (
              p ∷ read_rest c ids rounds (i + 1) remain,
              rw (m, entry, more, m') refl,
              joins offset n remain read_len (range (a * c + skip) n) _ here_bytes rest e,
            )
      ]

-- A read that starts at the end of a file whose chunks are all full passes the check of the offset
-- and reads behind the end of the queue of chunks.
pub read_found-out :
    {F : Type 0} (os : Os F) (len : ℕ) (buff : Bytes) (fs : Fs F) (r : ReadChunks)
    → 0 < fs.head.chunk_size
    → 0 < length r.write_chunkids
    → length r.write_chunkids < 2 ^ 32
    → r.write_total_len ≡ length r.write_chunkids * fs.head.chunk_size
    → read_found os len r.write_total_len buff fs r ≡ fault
unfolding read_found calc_read_variable read_first
read_found-out os len buff fs r some_size some_chunks few full =
    let c = fs.head.chunk_size in
    let n = length r.write_chunkids in
    let q : r.write_total_len / c ≡ n =
      div-eq_of_lt-le c (omega (arith, full)) (omega (arith, full, some_size)) in
    let m : n % 2 ^ 32 ≡ n = omega (arith, few) in
    let found : (n == 0) ≡ false = ground arith in
    let not_above : ltb r.write_total_len r.write_total_len ≡ false = ground arith in
    rw (found, not_above, q, m, get_elem?-out r.write_chunkids n (omega arith)) refl
