-- ===== src/EdgeFs/Write/Keeps.antt =====
-- What `EdgeFS::write` leaves of the store: the bitmap still marks the used chunks.
use edge_compute.Base.{
  ℕ, ◌*◌, ◌<◌, ◌≤◌, ◌≡◌, refl, Bool, true, false, ◌||◌, none, some, List, [], ◌∷◌, leb, length,
  length-set, set, arith, if◌then◌else◌, ◌∙◌, ap, is_pos, Bool-cases, inl, inr, ==→eq, sym, subst,
}
use edge_compute.Sys.{Bytes}
use edge_compute.EdgeFs.Format.{MetaInfo}
use edge_compute.EdgeFs.Bitmap.{insert_all}
use edge_compute.EdgeFs.Bitmap.Bits.{is_in, AllBelow}
use edge_compute.EdgeFs.File.{Os, write_at}
use edge_compute.EdgeFs.Chain.Linked.{at, Linked, last}
use edge_compute.EdgeFs.Write.{
  Progress, filled_meta, first_or_invalid, slice, link_if_full, written_chunk, link_chain,
  write_chunks,
}
use edge_compute.EdgeFs.Write.Fill.{
  fill, length-fill, at-set, AllBelow-resize, write_at-fd, Writes, full_len, write_chunks-Filled,
}
use edge_compute.EdgeFs.Write.Links.{
  link_chain-kept, length-link_chain, at-shrunk, tail_small', at-set_next, first_pool, shrunk,
}

module _ (c last_len : ℕ) (sha1_val : Bytes) where
  fill-used :
      (ids : List ℕ) (q : List MetaInfo) (k : ℕ)
      → AllBelow (length q) ids
      → (at (fill c last_len sha1_val ids q) k).is_used ≡ (is_in k ids || (at q k).is_used)
  unfolding filled_meta
  fill-used [] q k below = refl
  fill-used (i ∷ []) q k below =
      ground (arith, at-set q i k (filled_meta c last_len sha1_val none) below.0)
  fill-used (i ∷ j ∷ l) q k below =
      let m = filled_meta c last_len sha1_val (some j) in
      ground (
        arith,
        at-set q i k m below.0,
        fill-used (j ∷ l) (set q i m) k (AllBelow-resize (j ∷ l) (length-set q i m) below.1),
      )

  fill-room :
      (ids : List ℕ) (q : List MetaInfo) (k : ℕ)
      → AllBelow (length q) ids
      → (at q k).idle_len ≤ c
      → (at (fill c last_len sha1_val ids q) k).idle_len ≤ c
  unfolding filled_meta
  fill-room [] q k below room = room
  fill-room (i ∷ []) q k below room =
      ground (arith, at-set q i k (filled_meta c last_len sha1_val none) below.0)
  fill-room (i ∷ j ∷ l) q k below room =
      let m = filled_meta c last_len sha1_val (some j) in
      fill-room (j ∷ l) (set q i m) k (AllBelow-resize (j ∷ l) (length-set q i m) below.1)
        (ground (arith, at-set q i k m below.0))

module _ {F : Type 0} (os : Os F) (c : ℕ) (sha1_val buff : Bytes) where
  write_chunks-fd :
      (last_len : ℕ) (ids : List ℕ) (s : Progress F)
      → (write_chunks os c sha1_val buff last_len ids s).data_mgr.fd ≡ s.data_mgr.fd
  unfolding write_chunks written_chunk
  write_chunks-fd last_len [] s = refl
  write_chunks-fd last_len (i ∷ ids) s =
      let len = if leb c s.remain_len then c else s.remain_len in
      let piece = slice buff s.real_write_len len in
      let written = write_at os piece (i * c) s.data_mgr in
      let same = write_at-fd os piece (i * c) s.data_mgr in
      elim (Bool-cases written.0) [
        | inl done ↦ rw done (write_chunks-fd last_len ids _ ∙ same)
        | inr failed ↦ rw failed same
      ]

  -- Between `s` and `s'` the chunks of `ids` were taken.
  pub record Took (ids : List ℕ) (s s' : Progress F) : Type 0 where
    pub size : length s'.pool ≡ length s.pool
    pub used : (k : ℕ) → (at s'.pool k).is_used ≡ (is_in k ids || (at s.pool k).is_used)
    pub room : (k : ℕ) → (at s.pool k).idle_len ≤ c → (at s'.pool k).idle_len ≤ c
    pub bits : s'.bit_map ≡ insert_all ids s.bit_map
    pub fd : s'.data_mgr.fd ≡ s.data_mgr.fd

  pub write_chunks-Took :
      (writes : Writes os) (last_len : ℕ) (ids : List ℕ) (s : Progress F)
      → last_len ≤ c
      → is_pos s.data_mgr.fd ≡ true
      → s.remain_len ≡ full_len c last_len ids
      → AllBelow (length s.pool) ids
      → Took ids s (write_chunks os c sha1_val buff last_len ids s)
  write_chunks-Took writes last_len ids s small is_open whole below =
      let (pool, bits, real) =
        write_chunks-Filled os c sha1_val buff writes last_len ids s small is_open whole in
      record {
        size =
            ap (λ (p : List MetaInfo). length p) pool ∙ length-fill c last_len sha1_val ids s.pool;
        used = λ k.
            ap (λ (p : List MetaInfo). (at p k).is_used) pool
            ∙ fill-used c last_len sha1_val ids s.pool k below;
        room = λ k room.
            subst (λ (p : List MetaInfo). (at p k).idle_len ≤ c) (sym pool)
              (fill-room c last_len sha1_val ids s.pool k below room);
        bits = bits;
        fd = write_chunks-fd last_len ids s;
      }

  pub Took-trans :
      (ids : List ℕ) (s s₁ s' : Progress F) → Took [] s s₁ → Took ids s₁ s' → Took ids s s'
  unfolding insert_all
  Took-trans ids s s₁ s' a b = record {
    size = b.size ∙ a.size;
    used = λ k. b.used k ∙ ap (λ (x : Bool). is_in k ids || x) (a.used k);
    room = λ k room. b.room k (a.room k room);
    bits = b.bits ∙ ap (insert_all ids) a.bits;
    fd = b.fd ∙ a.fd;
  }

  pub link_chain-Took :
      (s : Progress F) (i : ℕ) (ids : List ℕ)
      → i < length s.pool
      → Took [] s (record s { pool = link_chain os c sha1_val buff i ids s.pool })
  unfolding insert_all
  link_chain-Took s i ids small = record {
    size = length-link_chain os c sha1_val buff s.pool i ids;
    used = λ k. (link_chain-kept os c sha1_val buff s.pool i ids k small).2;
    room =
        λ k room. omega (arith, (link_chain-kept os c sha1_val buff s.pool i ids k small).1, room);
    bits = refl;
    fd = refl;
  }

  module _ (h : ℕ) (l : List ℕ) (s : Progress F) (linked : Linked s.pool (h ∷ l)) where
    pub first_pool-kept :
        (t first : ℕ) (within : is_in t (h ∷ l) ≡ true) (full : Bool) (ids : List ℕ) (k : ℕ)
        → ((at (first_pool os c sha1_val buff s.pool h l linked t first within full ids) k).is_used
            ≡ (at s.pool k).is_used)
          × ((at
                (first_pool os c sha1_val buff s.pool h l linked t first within full ids)
                k).idle_len
              ≤ (at s.pool k).idle_len)
    unfolding link_if_full
    first_pool-kept t first within true ids k =
        let p' = set s.pool t (shrunk os c sha1_val buff s.pool h l linked t first within) in
        ground (
          arith,
          at-set_next p' (last h l) (first_or_invalid ids) k
              (tail_small' os c sha1_val buff s.pool h l linked t first within),
          at-shrunk os c sha1_val buff s.pool h l linked t first within k,
          at-shrunk os c sha1_val buff s.pool h l linked t first within (last h l),
          ==→eq k (last h l),
          ==→eq k t,
          ==→eq (last h l) t,
        )
    first_pool-kept t first within false ids k =
        ground (arith, at-shrunk os c sha1_val buff s.pool h l linked t first within k, ==→eq k t)
