-- ===== src/EdgeFs/Write/Fill.antt =====
-- The loop over the idle chunks: what it leaves of the index when every write succeeds.
use edge_compute.Base.{
  ℕ, ◌+◌, ◌*◌, ◌<◌, ◌≤◌, ◌≡◌, refl, true, false, none, some, List, [], ◌∷◌, ◌==◌, leb, length,
  get_or-set, set, length-set, arith, if◌then◌else◌, ◌∙◌, ap, is_pos, ==_refl, sym, subst,
}
use edge_compute.Sys.{Bytes}
use edge_compute.EdgeFs.Format.{MetaInfo, zero_meta, invalid_chunkid}
use edge_compute.EdgeFs.Bitmap.{insert_all}
use edge_compute.EdgeFs.Bitmap.Bits.{is_in, AllBelow}
use edge_compute.EdgeFs.Bitmap.Search.{Distinct}
use edge_compute.EdgeFs.File.{Os, FileOper, write_here, write_at}
use edge_compute.EdgeFs.Chain.Linked.{at, Linked}
use edge_compute.EdgeFs.Write.{Progress, filled_meta, written_chunk, write_chunks, slice}

-- Every write to an open data file succeeds.
abbrev pub Writes : {F : Type 0} → Os F → Type 0
Writes {F} os =
    (buff : Bytes) (offset : ℕ) (f : FileOper F)
    → is_pos f.fd ≡ true
    → (write_at os buff offset f).0 ≡ true

-- The entries of the chunks of a list, each in turn.
abbrev pub fill : (chunk_size last_len : ℕ) → Bytes → List ℕ → List MetaInfo → List MetaInfo
fill chunk_size last_len sha1_val [] pool = pool
fill chunk_size last_len sha1_val (i ∷ []) pool =
    set pool i (filled_meta chunk_size last_len sha1_val none)
fill chunk_size last_len sha1_val (i ∷ j ∷ l) pool =
    fill chunk_size last_len sha1_val (j ∷ l)
      (set pool i (filled_meta chunk_size last_len sha1_val (some j)))

-- How much the chunks of a list take: all but the last are full.
abbrev pub full_len : (chunk_size last_len : ℕ) → List ℕ → ℕ
full_len chunk_size last_len [] = 0
full_len chunk_size last_len (i ∷ []) = last_len
full_len chunk_size last_len (i ∷ j ∷ l) = chunk_size + full_len chunk_size last_len (j ∷ l)

abbrev pub Filled :
    {F : Type 0} → (chunk_size last_len : ℕ) → Bytes → List ℕ → Progress F → Progress F → Type 0
Filled chunk_size last_len sha1_val ids s s' =
    (s'.pool ≡ fill chunk_size last_len sha1_val ids s.pool)
    × (s'.bit_map ≡ insert_all ids s.bit_map)
    × (s'.real_write_len ≡ s.real_write_len + s.remain_len)

pub write_at-fd :
    {F : Type 0} (os : Os F) (buff : Bytes) (offset : ℕ) (f : FileOper F)
    → (write_at os buff offset f).1.fd ≡ f.fd
unfolding write_at write_here
write_at-fd os buff offset f = ground arith

module _ {F : Type 0} (os : Os F) (chunk_size : ℕ) (sha1_val buff : Bytes)
    (writes : Writes os) where
  pub write_chunks-Filled :
      (last_len : ℕ) (ids : List ℕ) (s : Progress F)
      → last_len ≤ chunk_size
      → is_pos s.data_mgr.fd ≡ true
      → s.remain_len ≡ full_len chunk_size last_len ids
      → Filled chunk_size last_len sha1_val ids s
          (write_chunks os chunk_size sha1_val buff last_len ids s)
  unfolding write_chunks written_chunk insert_all
  write_chunks-Filled last_len [] s small is_open whole = (refl, refl, omega arith)
  write_chunks-Filled last_len (i ∷ []) s small is_open whole =
      let len = if leb chunk_size s.remain_len then chunk_size else s.remain_len in
      let e : len ≡ s.remain_len = ground arith in
      rw (writes (slice buff s.real_write_len len) (i * chunk_size) s.data_mgr is_open)
        (refl, refl, omega (arith, e))
  write_chunks-Filled last_len (i ∷ j ∷ l) s small is_open whole =
      let len = if leb chunk_size s.remain_len then chunk_size else s.remain_len in
      let e : len ≡ chunk_size = ground arith in
      let written = write_at os (slice buff s.real_write_len len) (i * chunk_size) s.data_mgr in
      let s' = written_chunk os chunk_size sha1_val buff last_len i (some j) len written.1 s in
      let (p, b, r) =
        write_chunks-Filled last_len (j ∷ l) s' small
          (ap is_pos (write_at-fd os (slice buff s.real_write_len len) (i * chunk_size) s.data_mgr)
            ∙ is_open)
          (omega (arith, e)) in
      rw (writes (slice buff s.real_write_len len) (i * chunk_size) s.data_mgr is_open)
        (p, b, omega (arith, e, r))

pub AllBelow-resize : {n m : ℕ} (l : List ℕ) → n ≡ m → AllBelow m l → AllBelow n l
AllBelow-resize l e h = subst (λ k. AllBelow k l) (sym e) h

pub at-set :
    (pool : List MetaInfo) (i k : ℕ) (m : MetaInfo)
    → i < length pool
    → at (set pool i m) k ≡ (if k == i then m else at pool k)
at-set pool i k m small = get_or-set pool i k m zero_meta small

module _ (chunk_size last_len : ℕ) (sha1_val : Bytes) where
  pub length-fill :
      (ids : List ℕ) (pool : List MetaInfo)
      → length (fill chunk_size last_len sha1_val ids pool) ≡ length pool
  length-fill [] pool = refl
  length-fill (i ∷ []) pool = length-set pool i (filled_meta chunk_size last_len sha1_val none)
  length-fill (i ∷ j ∷ l) pool =
      let m = filled_meta chunk_size last_len sha1_val (some j) in
      length-fill (j ∷ l) (set pool i m) ∙ length-set pool i m

  pub fill-outside :
      (ids : List ℕ) (pool : List MetaInfo) (k : ℕ)
      → AllBelow (length pool) ids
      → is_in k ids ≡ false
      → at (fill chunk_size last_len sha1_val ids pool) k ≡ at pool k
  fill-outside [] pool k small out = refl
  fill-outside (i ∷ []) pool k small out =
      ground (arith, at-set pool i k (filled_meta chunk_size last_len sha1_val none))
  fill-outside (i ∷ j ∷ l) pool k small out =
      let m = filled_meta chunk_size last_len sha1_val (some j) in
      let size = length-set pool i m in
      ground (
        arith,
        size,
        at-set pool i k m,
        fill-outside (j ∷ l) (set pool i m) k (AllBelow-resize (j ∷ l) size small.1),
      )

  -- The chunks are used and linked in their order.
  pub fill-Linked :
      (i : ℕ) (ids : List ℕ) (pool : List MetaInfo)
      → length pool ≤ invalid_chunkid
      → AllBelow (length pool) (i ∷ ids)
      → Distinct (i ∷ ids)
      → Linked (fill chunk_size last_len sha1_val (i ∷ ids) pool) (i ∷ ids)
  unfolding filled_meta
  fill-Linked i [] pool few small d =
      let m = filled_meta chunk_size last_len sha1_val none in
      ground (arith, at-set pool i i m, length-set pool i m, ==_refl i)
  fill-Linked i (j ∷ l) pool few small d =
      let m = filled_meta chunk_size last_len sha1_val (some j) in
      let size = length-set pool i m in
      let rest =
        fill-Linked j l (set pool i m) (rw size few) (AllBelow-resize (j ∷ l) size small.1) d.1 in
      let here = fill-outside (j ∷ l) (set pool i m) i (AllBelow-resize (j ∷ l) size small.1) d.0 in
      let total = length-fill (j ∷ l) (set pool i m) in
      let mine : at (set pool i m) i ≡ m = ground (arith, at-set pool i i m, ==_refl i) in
      (omega (arith, total, size), rw (here, mine) refl, rw (here, mine) refl, omega arith, rest)
