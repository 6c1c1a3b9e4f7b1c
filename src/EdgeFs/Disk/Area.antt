-- ===== src/EdgeFs/Disk/Area.antt =====
-- The areas of the data file that the chunks have, before and after a write.
use native.Mathlib.Nat.{mul-le-mul_right}
use edge_compute.Base.{
  ℕ, zero, suc, ◌+◌, ◌-◌, ◌*◌, ◌≤◌, ◌<◌, ◌≡◌, ◌≢◌, refl, true, [], ◌∷◌, ◌++◌, ltb, length, get_or,
  take, drop, is_pos, arith, Bool-cases, inl, inr, ◌⊎◌, ◌∙◌, sym, ap,
}
use edge_compute.Sys.{Bytes}
use edge_compute.EdgeFs.File.{Os, FileOper, write_at}
use edge_compute.EdgeFs.Disk.{area, IsDisk, bytes_of, write_at-IsDisk}

pub area-same :
    (f g : ℕ → ℕ) (from n : ℕ)
    → ((o : ℕ) → o < n → g (from + o) ≡ f (from + o))
    → area g from n ≡ area f from n
area-same f g from zero same = refl
area-same f g from (suc n) same =
    let e : from + 0 ≡ from = omega arith in
    let here : g from ≡ f from = rw e at (same 0 (omega arith)) in
    let rest = area-same f g (from + 1) n (λ o small.
      let e' : from + (o + 1) ≡ from + 1 + o = omega arith in
      rw e' at (same (o + 1) (omega arith))) in
    rw (here, rest) refl

pub area-append :
    (f : ℕ → ℕ) (from m n : ℕ) → area f from (m + n) ≡ area f from m ++ area f (from + m) n
area-append f from zero n =
    let e : 0 + n ≡ n = omega arith in let e' : from + 0 ≡ from = omega arith in rw (e, e') refl
area-append f from (suc m) n =
    let e : suc m + n ≡ suc (m + n) = omega arith in
    let e' : from + suc m ≡ from + 1 + m = omega arith in
    rw (e, e', area-append f (from + 1) m n) refl

pub drop-get_or : (j : ℕ) (b : Bytes) → j < length b → drop j b ≡ get_or b j 0 ∷ drop (suc j) b
drop-get_or j [] small = absurd (omega arith)
drop-get_or zero (x ∷ b) small = refl
drop-get_or (suc j) (x ∷ b) small = drop-get_or j b (omega arith)

pub drop_all : (b : Bytes) → drop (length b) b ≡ []
drop_all [] = refl
drop_all (x ∷ b) = drop_all b

-- Where a file holds a buffer, its area is the buffer.
area-drop :
    (f : ℕ → ℕ) (from : ℕ) (b : Bytes) (j n : ℕ)
    → ((o : ℕ) → o < length b → f (from + o) ≡ get_or b o 0)
    → j + n ≡ length b
    → area f (from + j) n ≡ drop j b
area-drop f from b j zero held e = let e' : j ≡ length b = omega arith in rw e' (sym (drop_all b))
area-drop f from b j (suc n) held e =
    let e' : from + j + 1 ≡ from + suc j = omega arith in
    let rest = area-drop f from b (suc j) n held (omega (arith, e)) in
    rw (drop-get_or j b (omega (arith, e)), held j (omega (arith, e)), e', rest) refl

-- The areas of two chunks have no byte in common.
chunks-apart : (c i k o : ℕ) → i ≢ k → o < c → (k * c + o < i * c) ⊎ (i * c + c ≤ k * c + o)
chunks-apart c i k o ne small = elim (Bool-cases (ltb k i)) [
  | inl below ↦
      let h : (k + 1) * c ≤ i * c = mul-le-mul_right c (ground arith) in inl (omega (arith, h))
  | inr above ↦
      let h : (i + 1) * c ≤ k * c = mul-le-mul_right c (ground arith) in inr (omega (arith, h))
]

module _ {F : Type 0} (os : Os F) (disk : IsDisk os) where
  -- A write in one chunk leaves the other chunks alone.
  pub write_at-other :
      (c : ℕ) (b : Bytes) (i skip start k o : ℕ) (f : FileOper F)
      → start ≡ i * c + skip
      → is_pos f.fd ≡ true
      → skip + length b ≤ c
      → i ≢ k
      → o < c
      → bytes_of os disk (write_at os b start f).1 (k * c + o) ≡ bytes_of os disk f (k * c + o)
  write_at-other c b i skip start k o f e is_open fits ne small = ground (
    arith,
    (write_at-IsDisk os disk b start f (k * c + o) is_open).1,
    chunks-apart c i k o ne small,
  )

  write_behind :
      (b : Bytes) (from skip : ℕ) (f : FileOper F)
      → is_pos f.fd ≡ true
      → area (bytes_of os disk (write_at os b (from + skip) f).1) from (skip + length b)
        ≡ area (bytes_of os disk f) from skip ++ b
  write_behind b from skip f is_open =
      let new = bytes_of os disk (write_at os b (from + skip) f).1 in
      let before = area-same (bytes_of os disk f) new from skip (λ o small.
        ground (arith, (write_at-IsDisk os disk b (from + skip) f (from + o) is_open).1)) in
      let e : from + skip + 0 ≡ from + skip = omega arith in
      let behind : area new (from + skip) (length b) ≡ b = rw e at (
        area-drop new (from + skip) b 0 (length b)
          (λ o small.
            let here : from + skip + o - (from + skip) ≡ o = omega arith in
            ground (
              arith,
              (write_at-IsDisk os disk b (from + skip) f (from + skip + o) is_open).1,
              ap (λ (t : ℕ). get_or b t 0) here,
            ))
          (omega arith)) in
      area-append new from skip (length b) ∙ rw (before, behind) refl

  -- It leaves the bytes before it alone, and puts the buffer behind them.
  pub write_at-area :
      (b : Bytes) (from skip start : ℕ) (f : FileOper F)
      → start ≡ from + skip
      → is_pos f.fd ≡ true
      → area (bytes_of os disk (write_at os b start f).1) from (skip + length b)
        ≡ area (bytes_of os disk f) from skip ++ b
  write_at-area b from skip start f e is_open = rw e (write_behind b from skip f is_open)

pub take-all : (n : ℕ) (b : Bytes) → length b ≤ n → take n b ≡ b
take-all zero [] fits = refl
take-all zero (x ∷ b) fits = absurd (omega arith)
take-all (suc n) [] fits = refl
take-all (suc n) (x ∷ b) fits = ap (λ (t : Bytes). x ∷ t) (take-all n b (omega arith))

pub length-drop : (n : ℕ) (b : Bytes) → length (drop n b) ≡ length b - n
length-drop zero b = omega arith
length-drop (suc n) [] = omega arith
length-drop (suc n) (x ∷ b) = omega (arith, length-drop n b)

pub take-drop : (n m : ℕ) (b : Bytes) → take m (drop n b) ++ drop (n + m) b ≡ drop n b
take-drop zero zero b = refl
take-drop zero (suc m) [] = let e : 0 + suc m ≡ suc m = omega arith in rw e refl
take-drop zero (suc m) (x ∷ b) =
    let e : 0 + suc m ≡ suc (0 + m) = omega arith in
    rw e (ap (λ (t : Bytes). x ∷ t) (take-drop zero m b))
take-drop (suc n) m [] =
    let e : suc n + m ≡ suc (n + m) = omega arith in rw e (ap (λ (t : Bytes). t) (take_nil m))
  where
    take_nil : (m : ℕ) → take {A = ℕ} m [] ++ [] ≡ []
    take_nil zero = refl
    take_nil (suc m) = refl
take-drop (suc n) m (x ∷ b) =
    let e : suc n + m ≡ suc (n + m) = omega arith in rw e (take-drop n m b)
