-- ===== src/EdgeFs/Read/Pieces.antt =====
-- The loop over the pieces of a read, on a disk that keeps what is written.
use mathlib.Core.List.{append_assoc, append-nil}
use edge_compute.Base.{
  ℕ, zero, suc, ◌+◌, ◌%◌, ◌^◌, ◌≤◌, ◌<◌, ◌≡◌, refl, true, some, List, [], ◌∷◌, ◌++◌, map, ◌==◌,
  length, length-append, length-take, take, drop, is_pos, arith, ◌∙◌, ap, sym, subst, ==_refl,
}
use edge_compute.Sys.{Bytes}
use edge_compute.EdgeFs.File.{Os, FileOper, read_all, read_here, read_at}
use edge_compute.EdgeFs.Disk.{area, IsDisk, bytes_of}
use edge_compute.EdgeFs.Disk.Area.{area-same, take-drop, length-drop}
use edge_compute.EdgeFs.Read.{Piece, put, read_pieces}
use edge_compute.EdgeFs.Read.Addresses.{range, addresses}
use edge_compute.EdgeFs.Read.Packed.{area-range, map-append}

pub length-area : (f : ℕ → ℕ) (from n : ℕ) → length (area f from n) ≡ n
length-area f from zero = refl
length-area f from (suc n) = omega (arith, length-area f (from + 1) n)

pub length-map : (f : ℕ → ℕ) (xs : List ℕ) → length (map f xs) ≡ length xs
length-map f [] = refl
length-map f (x ∷ xs) = omega (arith, length-map f xs)

length-range : (from n : ℕ) → length (range from n) ≡ n
length-range from zero = refl
length-range from (suc n) = omega (arith, length-range (from + 1) n)

map-same : (f g : ℕ → ℕ) (xs : List ℕ) → ((k : ℕ) → g k ≡ f k) → map g xs ≡ map f xs
map-same f g [] same = refl
map-same f g (x ∷ xs) same = rw (same x, map-same f g xs same) refl

pub take-append : (n : ℕ) (xs ys : Bytes) → length xs ≡ n → take n (xs ++ ys) ≡ xs
take-append zero [] ys e = refl
take-append zero (x ∷ xs) ys e = absurd (omega arith)
take-append (suc n) [] ys e = absurd (omega arith)
take-append (suc n) (x ∷ xs) ys e = ap (◌∷◌ x) (take-append n xs ys (omega arith))

pub drop-append : (n m : ℕ) (xs ys : Bytes) → length xs ≡ n → drop (n + m) (xs ++ ys) ≡ drop m ys
drop-append zero m [] ys e = let flat : 0 + m ≡ m = omega arith in rw flat refl
drop-append zero m (x ∷ xs) ys e = absurd (omega arith)
drop-append (suc n) m [] ys e = absurd (omega arith)
drop-append (suc n) m (x ∷ xs) ys e =
    let flat : suc n + m ≡ suc (n + m) = omega arith in
    rw flat (drop-append n m xs ys (omega arith))

drop-drop : (n m : ℕ) (b : Bytes) → drop m (drop n b) ≡ drop (n + m) b
drop-drop zero m b = let flat : 0 + m ≡ m = omega arith in rw flat refl
drop-drop (suc n) m [] = let flat : suc n + m ≡ suc (n + m) = omega arith in rw flat (nothing m)
  where
    nothing : (m : ℕ) → drop {A = ℕ} m [] ≡ []
    nothing zero = refl
    nothing (suc m) = refl
drop-drop (suc n) m (x ∷ b) =
    let flat : suc n + m ≡ suc (n + m) = omega arith in rw flat (drop-drop n m b)

put-nil : (from : ℕ) (buff : Bytes) → put from [] buff ≡ buff
put-nil from buff =
    let e : from + length {A = ℕ} [] ≡ 0 + from = omega arith in
    rw (e, append-nil (take from buff)) (take-drop 0 from buff)

length-put :
    (from : ℕ) (a buff : Bytes)
    → from + length a ≤ length buff
    → length (put from a buff) ≡ length buff
length-put from a buff fits = omega (
  arith,
  length-append (take from buff ++ a) (drop (from + length a) buff),
  length-append (take from buff) a,
  length-take from buff,
  length-drop (from + length a) buff,
  fits,
)

-- Two pieces side by side are one.
put-put :
    (from : ℕ) (a b buff : Bytes)
    → from + length a ≤ length buff
    → put (from + length a) b (put from a buff) ≡ put from (a ++ b) buff
put-put from a b buff fits =
    let head = take from buff ++ a in
    let behind = drop (from + length a) buff in
    let size : length head ≡ from + length a =
      omega (arith, length-append (take from buff) a, length-take from buff, fits) in
    let ends : drop (length b) behind ≡ drop (from + length (a ++ b)) buff =
      drop-drop (from + length a) (length b) buff
      ∙ ap (λ (t : ℕ). drop t buff) (omega (arith, length-append a b)) in
    rw
      (
        take-append (from + length a) head behind size,
        drop-append (from + length a) (length b) head behind size,
        ends,
      )
      (ap (λ (x : Bytes). x ++ drop (from + length (a ++ b)) buff)
        (append_assoc (take from buff) a b))

module _ {F : Type 0} (os : Os F) (disk : IsDisk os) where
  read_at-IsDisk :
      (len offset : ℕ) (f : FileOper F)
      → is_pos f.fd ≡ true
      → ((read_at os len offset f).0 ≡ some (area (bytes_of os disk f) offset len))
        × ((k : ℕ) → bytes_of os disk (read_at os len offset f).1 k ≡ bytes_of os disk f k)
        × ((read_at os len offset f).1.fd ≡ f.fd)
  unfolding read_at read_here read_all
  read_at-IsDisk len offset f is_open =
      let f' = (os.lseek f.file offset).1 in
      let position = disk.sought f.file offset in
      let piece = disk.reads f' len in
      let size = length-area (disk.content f') (disk.position f') len in
      let whole : (len == length (area (disk.content f') (disk.position f') len)) ≡ true =
        rw size (==_refl len) in
      let same =
        area-same (disk.content f.file) (disk.content f') offset len
          (λ o small. disk.unmoved f.file offset (offset + o)) in
      rw (is_open, disk.seeks f.file offset, piece, whole, position, same)
        (refl, λ k. disk.unharmed f' len k ∙ disk.unmoved f.file offset k, refl)

  -- The pieces are read into the buffer, one behind the other, and the data file stays.
  abbrev pub ReadInto :
      List Piece → (real : ℕ) → Bytes → FileOper F → ℕ × (Bytes × FileOper F) → Type 0
  ReadInto ps real buff f out =
      (out.0 ≡ real + length (addresses ps))
      × (out.1.0 ≡ put real (map (bytes_of os disk f) (addresses ps)) buff)
      × ((k : ℕ) → bytes_of os disk out.1.1 k ≡ bytes_of os disk f k)
      × (out.1.1.fd ≡ f.fd)

  pub read_pieces-ReadInto :
      (ps : List Piece) (real : ℕ) (buff : Bytes) (f : FileOper F)
      → is_pos f.fd ≡ true
      → real + length (addresses ps) < 2 ^ 32
      → real + length (addresses ps) ≤ length buff
      → ReadInto ps real buff f (read_pieces os ps real buff f)
  unfolding read_pieces
  read_pieces-ReadInto [] real buff f is_open short fits =
      (omega arith, sym (put-nil real buff), λ k. refl, refl)
  read_pieces-ReadInto (p ∷ ps) real buff f is_open short fits =
      let piece = area (bytes_of os disk f) p.offset p.len in
      let (got, same, fd) = read_at-IsDisk p.len p.offset f is_open in
      let f' = (read_at os p.len p.offset f).1 in
      let size : length (addresses (p ∷ ps)) ≡ p.len + length (addresses ps) =
        omega (
          arith,
          length-append (range p.offset p.len) (addresses ps),
          length-range p.offset p.len,
        ) in
      let next : (real + p.len) % 2 ^ 32 ≡ real + p.len = omega (arith, size, short) in
      let buff' = put real piece buff in
      let len' : length buff' ≡ length buff =
        length-put real piece buff
          (omega (arith, size, fits, length-area (bytes_of os disk f) p.offset p.len)) in
      let (sum, out, kept, fd') =
        read_pieces-ReadInto ps (real + p.len) buff' f' (ap is_pos fd ∙ is_open)
          (omega (arith, size, short)) (omega (arith, size, fits, len')) in
      let bytes = bytes_of os disk f in
      let rest = map-same bytes (bytes_of os disk f') (addresses ps) same in
      let len = length-area bytes p.offset p.len in
      let one : put (real + p.len) (map bytes (addresses ps)) buff'
          ≡ put real (piece ++ map bytes (addresses ps)) buff =
        ap (λ (n : ℕ). put (real + n) (map bytes (addresses ps)) buff') (sym len)
        ∙ put-put real piece (map bytes (addresses ps)) buff (omega (arith, len, size, fits)) in
      let all : piece ++ map bytes (addresses ps) ≡ map bytes (addresses (p ∷ ps)) =
        rw (area-range bytes p.offset p.len)
          (sym (map-append bytes (range p.offset p.len) (addresses ps))) in
      let one_round : read_pieces os (p ∷ ps) real buff f
          ≡ read_pieces os ps (real + p.len) buff' f' =
        rw (read_pieces, got, next) refl in
      subst (ReadInto (p ∷ ps) real buff f) (sym one_round) (
        omega (arith, sum, size),
        out
            ∙ ap (λ (x : Bytes). put (real + p.len) x buff') rest
            ∙ one
            ∙ ap (λ (x : Bytes). put real x buff) all,
        λ k. kept k ∙ same k,
        fd' ∙ fd,
      )
