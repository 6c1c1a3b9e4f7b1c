-- ===== src/EdgeFs/Bitmap/Bits.antt =====
-- The bits of the bitmap: what `insert` changes, and what it leaves alone.
use Prim.Native.Nat.{bit_and, bit_or}
use edge_compute.Base.{
  ℕ, zero, suc, ◌*◌, ◌/◌, ◌%◌, ◌^◌, ◌≤◌, ◌<◌, ◌≡◌, refl, Bool, true, false, not, ◌&&◌, ◌||◌, List,
  [], ◌∷◌, ◌==◌, leb, ltb, if◌then◌else◌, length, get_or, get_or-set, arith, length-set, Bool-cases,
  inl, inr, ltb→lt, ◌∙◌,
}
use edge_compute.EdgeFs.Bitmap.{Bitmap, is_have, insert, insert_all, mask}

-- Whether a test passes at each of the first `count` numbers.
passes : (test : ℕ → Bool) (count : ℕ) → Bool
passes test zero = true
passes test (suc count) = if passes test count then test count else false

passes-at : (test : ℕ → Bool) (count i : ℕ) → i < count → passes test count ≡ true → test i ≡ true
unfolding passes
passes-at test zero i small all = absurd (omega arith)
passes-at test (suc count) i small all = ground (arith, passes-at test count i)

abbrev has_bit : ℕ → ℕ → Bool
has_bit b j = not (bit_and b (2 ^ j) == 0)

abbrev same : Bool → Bool → Bool
same true b = b
same false b = not b

-- The test of a byte, and of a bit that is set in it.
abbrev set_is_right : ℕ → ℕ → Bool
set_is_right byte i =
    ltb (bit_or byte (2 ^ i)) 256
    && passes (λ j. same (has_bit (bit_or byte (2 ^ i)) j) (i == j || has_bit byte j)) 8

bit_table : passes (λ byte. passes (set_is_right byte) 8) 256 ≡ true
unfolding passes
bit_table = refl

and_left : (a b : Bool) → (a && b) ≡ true → a ≡ true
and_left a b h = ground arith

and_right : (a b : Bool) → (a && b) ≡ true → b ≡ true
and_right a b h = ground arith

same_eq : (a b : Bool) → same a b ≡ true → a ≡ b
same_eq a b h = ground arith

bits_after :
    (b i j : ℕ)
    → b < 256
    → i < 8
    → j < 8
    → (bit_or b (2 ^ i) < 256) × (has_bit (bit_or b (2 ^ i)) j ≡ (i == j || has_bit b j))
bits_after b i j hb hi hj =
    let row = passes-at _ 256 b hb bit_table in
    let cell = passes-at (set_is_right b) 8 i hi row in
    (ltb→lt _ _ (and_left _ _ cell), same_eq _ _ (passes-at _ 8 j hj (and_right _ _ cell)))

-- The bytes are bytes, and there are enough of them for every chunk.
pub record IsBitmap (b : Bitmap) : Type 0 where
  pub bytes : (k : ℕ) → get_or b.bytes k 0 < 256
  pub room : b.total_chunk_num ≤ 8 * length b.bytes

-- `insert` of a chunk marks that chunk and no other.
pub is_have-insert :
    (b : Bitmap) (i j : ℕ)
    → IsBitmap b
    → i < b.total_chunk_num
    → is_have (insert i b).1 j ≡ (j == i || is_have b j)
unfolding is_have insert mask
is_have-insert b i j wf small =
    let byte = get_or b.bytes (i / 8) 0 in
    let room : i / 8 < length b.bytes = omega (arith, wf.room) in
    let bits = bits_after byte (i % 8) (j % 8) (wf.bytes (i / 8)) (omega arith) (omega arith) in
    ground (arith, bits.1, get_or-set b.bytes (i / 8) (j / 8) (bit_or byte (2 ^ (i % 8))) 0 room)

-- What `insert` leaves: a bitmap of the same size.
abbrev pub Kept : Bitmap → Bitmap → Type 0
Kept b b' = IsBitmap b' × (b'.total_chunk_num ≡ b.total_chunk_num)

insert-Kept : (b : Bitmap) (i : ℕ) → IsBitmap b → Kept b (insert i b).1
unfolding insert mask
insert-Kept b i wf = elim (Bool-cases (leb b.total_chunk_num i)) [
  | inl outside ↦ rw outside (wf, refl)
  | inr inside ↦
      let byte = get_or b.bytes (i / 8) 0 in
      let byte' = bit_or byte (2 ^ (i % 8)) in
      let room : i / 8 < length b.bytes = ground (arith, wf.room) in
      let small : byte' < 256 =
        (bits_after byte (i % 8) 0 (wf.bytes (i / 8)) (omega arith) (omega arith)).0 in
      rw inside (
        record {
          bytes = λ k. ground (arith, small, wf.bytes k, get_or-set b.bytes (i / 8) k byte' 0 room);
          room = omega (arith, wf.room, length-set b.bytes (i / 8) byte');
        },
        refl,
      )
]

-- Whether a chunk is in a list of chunks.
abbrev pub is_in : ℕ → List ℕ → Bool
is_in j [] = false
is_in j (i ∷ is) = j == i || is_in j is

abbrev pub AllBelow : ℕ → List ℕ → Type 0
AllBelow n [] = Unit {0}
AllBelow n (i ∷ is) = (i < n) × AllBelow n is

-- In a bitmap whose bytes cover its chunks, `insert_all` of chunks that there are marks those chunks
-- and no others, and the bytes still cover the chunks, whose number stays.
pub is_have-insert_all :
    (is : List ℕ) (b : Bitmap)
    → IsBitmap b
    → AllBelow b.total_chunk_num is
    → Kept b (insert_all is b)
      × ((j : ℕ) → is_have (insert_all is b) j ≡ (is_in j is || is_have b j))
unfolding insert_all
is_have-insert_all [] b wf small = ((wf, refl), λ j. refl)
is_have-insert_all (i ∷ is) b wf (small, smalls) =
    let b' = (insert i b).1 in
    let (wf', same) = insert-Kept b i wf in
    let (kept, marks) = is_have-insert_all is b' wf' (rw same smalls) in
    ((kept.0, kept.1 ∙ same), λ j. ground (arith, marks j, is_have-insert b i j wf small))
