-- ===== src/EdgeFs/Write/Plan.antt =====
-- The lengths that `calcWriteVariable` computes.
use native.Mathlib.Nat.{
  mod-lt, mod-add-div, add-mul-div_left, div-eq_of_lt, div-le_self, add-div_right, mul-le-mul_right,
}
use edge_compute.Base.{
  ℕ, ◌+◌, ◌-◌, ◌*◌, ◌/◌, ◌%◌, ◌^◌, ◌<◌, ◌≤◌, ◌≡◌, refl, ◌⊎◌, true, Option, none, some, List, [],
  ◌∷◌, ◌==◌, length, arith, if◌then◌else◌, ◌∙◌, ap, Bool-cases, inl, inr, ==→eq,
}
use edge_compute.EdgeFs.Format.{MetaInfo}
use edge_compute.EdgeFs.Chain.{first_len, plan_rest}
use edge_compute.EdgeFs.Write.Fill.{full_len}

-- A last chunk has room for no more than a chunk.
abbrev pub HasRoom : ℕ → Option MetaInfo → Type 0
HasRoom c none = Unit {0}
HasRoom c (some m) = m.idle_len ≤ c

round_up : (n c : ℕ) → 0 < c → (n + c - 1) / c ≡ (if n % c == 0 then n / c else n / c + 1)
round_up n c some_size =
    let split = mod-add-div n c in
    let small = mod-lt n some_size in
    elim (Bool-cases (n % c == 0)) [
      | inl even ↦
          let e : n + c - 1 ≡ (c - 1) + c * (n / c) = ground (arith, split) in
          let low : (c - 1) / c ≡ 0 = div-eq_of_lt (omega arith) in
          rw (even, e) (omega (arith, add-mul-div_left (c - 1) (n / c) some_size, low))
      | inr odd ↦
          let e : n + c - 1 ≡ (n % c - 1 + c) + c * (n / c) = ground (arith, split) in
          let low : (n % c - 1) / c ≡ 0 = div-eq_of_lt (omega arith) in
          let one_more : (n % c - 1 + c) / c ≡ (n % c - 1) / c + 1 =
            add-div_right (n % c - 1) some_size in
          rw (odd, e)
            (omega (arith, add-mul-div_left (n % c - 1 + c) (n / c) some_size, low, one_more))
    ]

full_len-even : (c : ℕ) (ids : List ℕ) → full_len c c ids ≡ c * length ids
full_len-even c [] = omega arith
full_len-even c (i ∷ []) = omega arith
full_len-even c (i ∷ j ∷ l) = omega (arith, full_len-even c (j ∷ l))

full_len-odd : (c r i : ℕ) (ids : List ℕ) → full_len c r (i ∷ ids) ≡ c * length ids + r
full_len-odd c r i [] = omega arith
full_len-odd c r i (j ∷ l) = omega (arith, full_len-odd c r j l)

full_len-ends : (c r k : ℕ) (ids : List ℕ) → length ids ≡ k + 1 → full_len c r ids ≡ c * k + r
full_len-ends c r k [] e = absurd (omega arith)
full_len-ends c r k (i ∷ ids) e = omega (
  arith,
  full_len-odd c r i ids,
  ap (λ (t : ℕ). c * t) (let e' : length ids ≡ k = omega arith in e'),
)

-- The chunks that are needed take exactly what remains.
pub full_len-plan :
    (c first remain : ℕ) (ids : List ℕ)
    → 0 < c
    → c < 2 ^ 32
    → remain < 2 ^ 32
    → length ids ≡ (plan_rest c first remain).need_chunk_num
    → ((plan_rest c first remain).last_chunk_write_len ≤ c)
      × (remain ≡ full_len c (plan_rest c first remain).last_chunk_write_len ids)
unfolding plan_rest
full_len-plan c first remain ids some_size bounded small e =
    let split = mod-add-div remain c in
    let less = mod-lt remain some_size in
    let up = round_up remain c some_size in
    let wide : (remain + c - 1) % 2 ^ 64 ≡ remain + c - 1 = omega arith in
    let few : remain / c ≤ remain = div-le_self remain c in
    elim (Bool-cases (remain % c == 0)) [
      | inl even ↦
          let count : length ids ≡ remain / c = e ∙ (rw (wide, up, even) (omega (arith, few))) in
          rw even (
            omega arith,
            omega (
              arith,
              full_len-even c ids,
              ap (λ (t : ℕ). c * t) count,
              split,
              ==→eq (remain % c) 0 even,
            ),
          )
      | inr odd ↦
          let room : remain / c + 1 ≤ remain =
            ground (arith, mul-le-mul_right (remain / c) some_size, split) in
          let count : length ids ≡ remain / c + 1 =
            e ∙ (rw (wide, up, odd) (omega (arith, room))) in
          rw odd (
            omega (arith, less),
            omega (arith, full_len-ends c (remain % c) (remain / c) ids count, split),
          )
    ]

-- Where nothing remains no chunk is needed.
pub plan_rest-nothing :
    (c first : ℕ) → 0 < c → c < 2 ^ 32 → (plan_rest c first 0).need_chunk_num ≡ 0
unfolding plan_rest
plan_rest-nothing c first some_size bounded =
    let low : (c - 1) / c ≡ 0 = div-eq_of_lt (omega arith) in
    let wide : (c - 1) % 2 ^ 64 ≡ c - 1 = omega arith in
    let flat : 0 + c - 1 ≡ c - 1 = omega arith in rw (flat, wide, low) refl

pub first_len-none : (n : ℕ) → first_len none n ≡ 0
unfolding first_len
first_len-none n = refl

-- The first piece fits in the chunk and in the buffer, and fills one of them up.
pub first_len-small :
    (m : MetaInfo) (n : ℕ)
    → m.is_used ≡ true
    → (first_len (some m) n ≤ m.idle_len)
      × (first_len (some m) n ≤ n)
      × ((first_len (some m) n ≡ m.idle_len) ⊎ (first_len (some m) n ≡ n))
unfolding first_len
first_len-small m n used = ground (arith, used)
