-- ===== src/EdgeFs/Write/Holds.antt =====
-- `EdgeFS::write` on the bytes of the files: what the new chunks hold, and that the others keep what
-- they hold.
use mathlib.Core.List.{append-nil}
use edge_compute.Base.{
  ℕ, ◌+◌, ◌-◌, ◌*◌, ◌≤◌, ◌≡◌, refl, true, false, none, some, List, [], ◌∷◌, ◌++◌, length,
  length-set, set, drop, arith, ◌∙◌, ap, is_pos, ==_refl,
}
use edge_compute.Sys.{Bytes}
use edge_compute.EdgeFs.Format.{MetaInfo}
use edge_compute.EdgeFs.Init.Sizes.{bytes_eq_refl}
use edge_compute.EdgeFs.Bitmap.Bits.{is_in, AllBelow}
use edge_compute.EdgeFs.Bitmap.Search.{Distinct}
use edge_compute.EdgeFs.File.{Os}
use edge_compute.EdgeFs.Chain.Linked.{at}
use edge_compute.EdgeFs.Disk.{area, IsDisk, bytes_of}
use edge_compute.EdgeFs.Contents.{
  file_contents, file_contents-append, file_contents-frame, chunk_contents-same,
}
use edge_compute.EdgeFs.Write.{Progress, filled_meta, write_chunks}
use edge_compute.EdgeFs.Write.Fill.{
  fill, full_len, fill-outside, at-set, AllBelow-resize, write_chunks-Filled,
}
use edge_compute.EdgeFs.Write.Data.{chunks_bytes, IsDisk-Writes, write_chunks-Written}

-- The chunks that were filled hold what is in their areas.
fill-contents :
    (c last_len : ℕ) (sha1_val : Bytes) (f : ℕ → ℕ) (ids : List ℕ) (q : List MetaInfo)
    → last_len ≤ c
    → AllBelow (length q) ids
    → Distinct ids
    → file_contents (fill c last_len sha1_val ids q) f c sha1_val ids
      ≡ chunks_bytes f c last_len ids
unfolding filled_meta
fill-contents c last_len sha1_val f [] q small below d = refl
fill-contents c last_len sha1_val f (i ∷ []) q small below d =
    let m = filled_meta c last_len sha1_val none in
    let mine : at (set q i m) i ≡ m = ground (arith, at-set q i i m, ==_refl i) in
    let len : c - (c - last_len) ≡ last_len = omega arith in
    rw (mine, bytes_eq_refl sha1_val, len) (append-nil (area f (i * c) last_len))
fill-contents c last_len sha1_val f (i ∷ j ∷ l) q small below d =
    let m = filled_meta c last_len sha1_val (some j) in
    let size = length-set q i m in
    let below' = AllBelow-resize (j ∷ l) size below.1 in
    let mine : at (set q i m) i ≡ m = ground (arith, at-set q i i m, ==_refl i) in
    let here = fill-outside c last_len sha1_val (j ∷ l) (set q i m) i below' d.0 in
    let len : c - 0 ≡ c = omega arith in
    rw
      (
        here,
        mine,
        bytes_eq_refl sha1_val,
        len,
        fill-contents c last_len sha1_val f (j ∷ l) (set q i m) small below' d.1,
      )
      refl

-- With the loop over the idle chunks, from a state `s` of the loop on.
module _ {F : Type 0} (os : Os F) (disk : IsDisk os) (c : ℕ) (sha1_val buff : Bytes) (last_len : ℕ)
    (ids : List ℕ) (s : Progress F) (small : last_len ≤ c) (is_open : is_pos s.data_mgr.fd ≡ true)
    (whole : s.remain_len ≡ full_len c last_len ids)
    (total : s.real_write_len + s.remain_len ≡ length buff) (below : AllBelow (length s.pool) ids)
    (d : Distinct ids) where
  abbrev after : Progress F
  after = write_chunks os c sha1_val buff last_len ids s

  pub write_chunks-keeps :
      (sha1_val' : Bytes) (xs : List ℕ)
      → ((k : ℕ) → is_in k xs ≡ true → is_in k ids ≡ false)
      → file_contents after.pool (bytes_of os disk after.data_mgr) c sha1_val' xs
        ≡ file_contents s.pool (bytes_of os disk s.data_mgr) c sha1_val' xs
  write_chunks-keeps sha1_val' xs apart =
      let (pool, bits, real) =
        write_chunks-Filled os c sha1_val buff (IsDisk-Writes os disk) last_len ids s small is_open
          whole in
      let (kept, new) =
        write_chunks-Written os disk c sha1_val buff last_len ids s small is_open whole total d in
      file_contents-frame c sha1_val' s.pool after.pool (bytes_of os disk s.data_mgr)
        (bytes_of os disk after.data_mgr) xs
        λ k e.
          (let out = apart k e in
            let same : at after.pool k ≡ at s.pool k =
              ap (λ (p : List MetaInfo). at p k) pool
              ∙ fill-outside c last_len sha1_val ids s.pool k below out in
            chunk_contents-same c sha1_val' (at s.pool k) (at after.pool k)
              (bytes_of os disk s.data_mgr) (bytes_of os disk after.data_mgr) k
              (ap (λ (m : MetaInfo). m.sha1) same) (ap (λ (m : MetaInfo). m.idle_len) same)
              (λ o o_small. kept k o out o_small))

  pub write_chunks-adds :
      (xs : List ℕ)
      → ((k : ℕ) → is_in k xs ≡ true → is_in k ids ≡ false)
      → file_contents after.pool (bytes_of os disk after.data_mgr) c sha1_val (xs ++ ids)
        ≡ file_contents s.pool (bytes_of os disk s.data_mgr) c sha1_val xs
          ++ drop s.real_write_len buff
  write_chunks-adds xs apart =
      let (pool, bits, real) =
        write_chunks-Filled os c sha1_val buff (IsDisk-Writes os disk) last_len ids s small is_open
          whole in
      let (kept, new) =
        write_chunks-Written os disk c sha1_val buff last_len ids s small is_open whole total d in
      let f = bytes_of os disk after.data_mgr in
      let filled : file_contents after.pool f c sha1_val ids ≡ drop s.real_write_len buff =
        ap (λ (p : List MetaInfo). file_contents p f c sha1_val ids) pool
        ∙ fill-contents c last_len sha1_val f ids s.pool small below d
        ∙ new in
      file_contents-append c sha1_val after.pool f xs ids
      ∙ ap (λ (b : Bytes). b ++ file_contents after.pool f c sha1_val ids)
          (write_chunks-keeps sha1_val xs apart)
      ∙ ap (λ (b : Bytes). file_contents s.pool (bytes_of os disk s.data_mgr) c sha1_val xs ++ b)
          filled
