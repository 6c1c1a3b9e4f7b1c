-- ===== src/EdgeFs/Write/Data.antt =====
-- What the loop over the idle chunks leaves in the data file.
use edge_compute.Base.{
  ℕ, ◌+◌, ◌*◌, ◌<◌, ◌≤◌, ◌≡◌, ◌≢◌, refl, true, false, Option, none, some, List, [], ◌∷◌, ◌++◌, leb,
  length, drop, arith, if◌then◌else◌, ◌∙◌, ap, is_pos, ==_refl, sym, subst, length-take,
}
use edge_compute.Sys.{Bytes}
use edge_compute.EdgeFs.Bitmap.Bits.{is_in}
use edge_compute.EdgeFs.Bitmap.Search.{Distinct}
use edge_compute.EdgeFs.File.{Os, FileOper, write_at}
use edge_compute.EdgeFs.Disk.{area, IsDisk, bytes_of, write_at-IsDisk}
use edge_compute.EdgeFs.Disk.Area.{
  area-same, write_at-other, write_at-area, take-all, length-drop, drop_all, take-drop,
}
use edge_compute.EdgeFs.Write.{Progress, written_chunk, write_chunks, slice}
use edge_compute.EdgeFs.Write.Fill.{full_len, Writes, write_at-fd}

-- The bytes of the chunks of a list: all but the last are full.
abbrev pub chunks_bytes : (ℕ → ℕ) → (chunk_size last_len : ℕ) → List ℕ → Bytes
chunks_bytes content chunk_size last_len [] = []
chunks_bytes content chunk_size last_len (i ∷ []) = area content (i * chunk_size) last_len
chunks_bytes content chunk_size last_len (i ∷ j ∷ l) =
    area content (i * chunk_size) chunk_size ++ chunks_bytes content chunk_size last_len (j ∷ l)

pub IsDisk-Writes : {F : Type 0} (os : Os F) → IsDisk os → Writes os
IsDisk-Writes os disk buff offset f is_open = (write_at-IsDisk os disk buff offset f 0 is_open).0

pub is_in-ne : (k i : ℕ) (l : List ℕ) → is_in k (i ∷ l) ≡ false → i ≢ k
is_in-ne k i l out same = ground (arith, ==_refl i)

module _ {F : Type 0} (os : Os F) (disk : IsDisk os) (c : ℕ) (sha1_val buff : Bytes) where
  abbrev Written : (last_len : ℕ) → List ℕ → Progress F → Progress F → Type 0
  Written last_len ids s s' =
      ((k o : ℕ)
        → is_in k ids ≡ false
        → o < c
        → bytes_of os disk s'.data_mgr (k * c + o) ≡ bytes_of os disk s.data_mgr (k * c + o))
      × (chunks_bytes (bytes_of os disk s'.data_mgr) c last_len ids ≡ drop s.real_write_len buff)

  length-slice : (from len : ℕ) → from + len ≤ length buff → length (slice buff from len) ≡ len
  length-slice from len fits =
      omega (arith, length-take len (drop from buff), length-drop from buff)

  abbrev next_of : List ℕ → Option ℕ
  next_of [] = none
  next_of (j ∷ l) = some j

  abbrev len_of : Progress F → ℕ
  len_of s = if leb c s.remain_len then c else s.remain_len

  abbrev write_of : ℕ → Progress F → FileOper F
  write_of i s = (write_at os (slice buff s.real_write_len (len_of s)) (i * c) s.data_mgr).1

  write_chunks-step :
      (last_len i : ℕ) (l : List ℕ) (s : Progress F)
      → is_pos s.data_mgr.fd ≡ true
      → write_chunks os c sha1_val buff last_len (i ∷ l) s
        ≡ write_chunks os c sha1_val buff last_len l
            (written_chunk os c sha1_val buff last_len i (next_of l) (len_of s) (write_of i s) s)
  unfolding write_chunks
  write_chunks-step last_len i [] s is_open =
      rw (IsDisk-Writes os disk (slice buff s.real_write_len (len_of s)) (i * c) s.data_mgr is_open)
        refl
  write_chunks-step last_len i (j ∷ l) s is_open =
      rw (IsDisk-Writes os disk (slice buff s.real_write_len (len_of s)) (i * c) s.data_mgr is_open)
        refl

  -- Every chunk gets its piece of the buffer, and no other chunk changes.
  nothing_left : {from : ℕ} → from ≡ length buff → drop from buff ≡ []
  nothing_left e = rw e (drop_all buff)

  -- The piece of one chunk
  piece_written :
      (i from len : ℕ) (f : FileOper F)
      → is_pos f.fd ≡ true
      → from + len ≤ length buff
      → len ≤ c
      → ((k o : ℕ)
          → i ≢ k
          → o < c
          → bytes_of os disk (write_at os (slice buff from len) (i * c) f).1 (k * c + o)
            ≡ bytes_of os disk f (k * c + o))
        × (area (bytes_of os disk (write_at os (slice buff from len) (i * c) f).1) (i * c) len
            ≡ slice buff from len)
  piece_written i from len f is_open fits small =
      let size = length-slice from len fits in
      let flat : 0 + length (slice buff from len) ≡ len = omega (arith, size) in
      (
        λ k o ne o_small.
            write_at-other os disk c (slice buff from len) i 0 (i * c) k o f (omega arith) is_open
              (omega (arith, size, small)) ne o_small,
        rw flat at
            (write_at-area os disk (slice buff from len) (i * c) 0 (i * c) f (omega arith) is_open),
      )

  pub write_chunks-Written :
      (last_len : ℕ) (ids : List ℕ) (s : Progress F)
      → last_len ≤ c
      → is_pos s.data_mgr.fd ≡ true
      → s.remain_len ≡ full_len c last_len ids
      → s.real_write_len + s.remain_len ≡ length buff
      → Distinct ids
      → Written last_len ids s (write_chunks os c sha1_val buff last_len ids s)
  unfolding write_chunks written_chunk
  write_chunks-Written last_len [] s small is_open whole total d =
      (λ k o out fits. refl, sym (nothing_left (omega (arith, whole, total))))
  write_chunks-Written last_len (i ∷ []) s small is_open whole total d =
      let len = if leb c s.remain_len then c else s.remain_len in
      let e : len ≡ last_len = ground arith in
      let (apart, held) =
        piece_written i s.real_write_len len s.data_mgr is_open (omega (arith, e, whole, total))
          (omega (arith, e)) in
      let rest : slice buff s.real_write_len len ≡ drop s.real_write_len buff =
        take-all len (drop s.real_write_len buff)
          (omega (arith, length-drop s.real_write_len buff, e)) in
      let mine : area
            (bytes_of os disk (write_at os (slice buff s.real_write_len len) (i * c) s.data_mgr).1)
            (i * c) last_len
          ≡ slice buff s.real_write_len len =
        subst
          (λ (n : ℕ).
            area
              (bytes_of os disk
                (write_at os (slice buff s.real_write_len len) (i * c) s.data_mgr).1)
              (i * c) n
            ≡ slice buff s.real_write_len len)
          e held in
      subst (Written last_len (i ∷ []) s) (sym (write_chunks-step last_len i [] s is_open))
        (λ k o out o_small. apart k o (is_in-ne k i [] out) o_small, mine ∙ rest)
  write_chunks-Written last_len (i ∷ j ∷ l) s small is_open whole total d =
      let len = if leb c s.remain_len then c else s.remain_len in
      let e : len ≡ c = ground arith in
      let (apart, held) =
        piece_written i s.real_write_len len s.data_mgr is_open (omega (arith, e, whole, total))
          (omega (arith, e)) in
      let written = write_at os (slice buff s.real_write_len len) (i * c) s.data_mgr in
      let s' = written_chunk os c sha1_val buff last_len i (some j) len written.1 s in
      let (apart', held') =
        write_chunks-Written last_len (j ∷ l) s' small
          (ap is_pos (write_at-fd os (slice buff s.real_write_len len) (i * c) s.data_mgr)
            ∙ is_open)
          (omega (arith, e, whole)) (omega (arith, e, total, whole)) d.1 in
      let new = bytes_of os disk (write_chunks os c sha1_val buff last_len (j ∷ l) s').data_mgr in
      let stays =
        area-same (bytes_of os disk written.1) new (i * c) c
          (λ o o_small. apart' i o d.0 o_small) in
      let mine : area (bytes_of os disk written.1) (i * c) c ≡ slice buff s.real_write_len len =
        subst
          (λ (n : ℕ). area (bytes_of os disk written.1) (i * c) n ≡ slice buff s.real_write_len len)
          e held in
      subst (Written last_len (i ∷ j ∷ l) s) (sym (write_chunks-step last_len i (j ∷ l) s is_open))
        (
          λ k o out o_small.
              apart' k o (ground arith) o_small ∙ apart k o (is_in-ne k i (j ∷ l) out) o_small,
          (ap (λ (x : Bytes). area new (i * c) c ++ x) held'
              ∙ ap (λ (x : Bytes). x ++ drop (s.real_write_len + len) buff) (stays ∙ mine)
              ∙ take-drop s.real_write_len len buff),
        )
