-- ===== src/EdgeFs/Write/Appends.antt =====
-- `EdgeFS::write` as a whole, for a hash key whose first chunk is used.
use edge_compute.Base.{
  ℕ, ◌+◌, ◌%◌, ◌^◌, ◌<◌, ◌≤◌, ◌≡◌, refl, Bool, true, false, Option, none, some, List, [], ◌∷◌, ◌++◌,
  ◌==◌, length, arith, ◌∙◌, ap, is_pos, Bool-cases, Option-cases, inl, inr, ==→eq, ==_refl, sym,
  subst,
}
use edge_compute.Sys.{Bytes}
use edge_compute.EdgeFs.Format.{MetaInfo, invalid_chunkid, done}
use edge_compute.EdgeFs.Bitmap.{Bitmap, is_have, generate_idle_chunkids}
use edge_compute.EdgeFs.Bitmap.Bits.{is_in, AllBelow}
use edge_compute.EdgeFs.Bitmap.Search.{Distinct, Free}
use edge_compute.EdgeFs.Bitmap.Choice.{generate_idle_chunkids-Free, IsTail}
use edge_compute.EdgeFs.File.{Os}
use edge_compute.EdgeFs.Chain.{
  ReadChunks, no_chunks, generate_hash_key, generate_read_chunkids, calc_write_variable,
}
use edge_compute.EdgeFs.Chain.Linked.{at, Linked, last}
use edge_compute.EdgeFs.Chain.Walks.{noted, file_tail, Linked-walks}
use edge_compute.EdgeFs.Write.{
  Fs, start, write, write_at_tails, write_found, write_body, idle_for, entry_of, is_used_of,
  chunkid_of,
}
use edge_compute.EdgeFs.Write.Fill.{Writes}
use edge_compute.EdgeFs.Write.Append.{Fresh, fill-joins, fill-notes}
use edge_compute.EdgeFs.Write.Links.{Linked-entry}
use edge_compute.EdgeFs.Write.Correct.{write_body-Body, file_tail-is_in}

-- The data file is open, the bitmap marks the chunks that are used, and no chunk has more room than its size.
pub record IsStore {F : Type 0} (fs : Fs F) : Type 0 where
  pub is_open : is_pos fs.data_mgr.fd ≡ true
  pub some_size : 0 < fs.head.chunk_size
  pub bounded : fs.head.chunk_size < 2 ^ 32
  pub chunks : length fs.meta_pool ≡ fs.bit_map.total_chunk_num
  pub few : length fs.meta_pool ≤ invalid_chunkid
  pub marks : (k : ℕ) → k < length fs.meta_pool → is_have fs.bit_map k ≡ (at fs.meta_pool k).is_used
  pub room : (k : ℕ) → (at fs.meta_pool k).idle_len ≤ fs.head.chunk_size

pub idle_for-Free :
    (b : Bitmap) (draws : ℕ → ℕ) (tail : Option Bool) (tail_chunkid need : ℕ) (ids : List ℕ)
    → 0 < b.total_chunk_num
    → IsTail b tail tail_chunkid
    → idle_for b draws tail tail_chunkid need ≡ some ids
    → (length ids ≡ need) × Free b ids
unfolding idle_for
idle_for-Free b draws tail tail_chunkid need ids some_chunks good e =
    elim (Bool-cases (need == 0)) [
      | inl nothing ↦
          let e' = rw nothing at e in let same : [] ≡ ids = cc in rw (sym same) (ground arith, tt)
      | inr needed ↦ elim (Option-cases (generate_idle_chunkids b draws tail tail_chunkid need)) [
        | inl short ↦ let e' = rw (needed, short) at e in cc
        | inr ([], found) ↦ let e' = rw (needed, found) at e in cc
        | inr (i ∷ is, found) ↦
            let e' = rw (needed, found) at e in
            let same : i ∷ is ≡ ids = cc in
            let (size, free, distinct) =
              generate_idle_chunkids-Free b draws tail tail_chunkid need (i ∷ is) some_chunks good
                found in
            rw (sym same) (size, free)
      ]
    ]

pub Free-AllBelow :
    (b : Bitmap) (n : ℕ) (ids : List ℕ) → n ≡ b.total_chunk_num → Free b ids → AllBelow n ids
Free-AllBelow b n [] e free = tt
Free-AllBelow b n (i ∷ ids) e (idle, small, free) = (omega arith, Free-AllBelow b n ids e free)

Free-apart :
    (b : Bitmap) (ids : List ℕ) (k : ℕ) → Free b ids → is_have b k ≡ true → is_in k ids ≡ false
Free-apart b [] k free e = refl
Free-apart b (i ∷ ids) k (idle, small, free) e =
    ground (arith, Free-apart b ids k free e, ==→eq k i)

module _ {F : Type 0} (os : Os F) (writes : Writes os) (fuel : ℕ) (draws : ℕ → ℕ) (fs : Fs F)
    (good : IsStore fs) (sha1_val buff : Bytes) (short : length buff < 2 ^ 32) (h : ℕ) (l : List ℕ)
    (linked : Linked fs.meta_pool (h ∷ l)) where
  abbrev pub tail_of : Option ℕ
  tail_of = file_tail fs.meta_pool sha1_val (h ∷ l) none

  abbrev pub need_of : ℕ
  need_of =
      (calc_write_variable fs.head.chunk_size (entry_of fs.meta_pool tail_of)
        (length buff)).need_chunk_num

  entry_of-IsTail :
      (tail : Option ℕ)
      → tail_of ≡ tail
      → IsTail fs.bit_map (is_used_of (entry_of fs.meta_pool tail)) (chunkid_of tail)
  entry_of-IsTail none e = λ x. cc
  entry_of-IsTail (some t) e =
      let used =
        (Linked-entry fs.meta_pool h l t linked
          (file_tail-is_in fs.meta_pool sha1_val (h ∷ l) t e)).1 in
      λ x. cc

  pub chosen-Fresh :
      (ids : List ℕ)
      → idle_for fs.bit_map draws
          (is_used_of (entry_of fs.meta_pool tail_of))
          (chunkid_of tail_of)
          need_of
        ≡ some ids
      → Distinct ids
      → (length ids ≡ need_of) × Fresh fs.meta_pool (h ∷ l) ids
  chosen-Fresh ids found distinct =
      let head = Linked-entry fs.meta_pool h l h linked (ground (arith, ==_refl h)) in
      let (size, free) =
        idle_for-Free fs.bit_map draws _ (chunkid_of tail_of) need_of ids
          (omega (arith, head.0, good.chunks)) (entry_of-IsTail tail_of refl) found in
      (
        size,
        record {
          below = Free-AllBelow fs.bit_map (length fs.meta_pool) ids good.chunks free;
          distinct = distinct;
          apart = λ k e.
              (let entry = Linked-entry fs.meta_pool h l k linked e in
                Free-apart fs.bit_map ids k free (good.marks k entry.0 ∙ entry.1));
        },
      )

  -- Let the data file be open and writes to it succeed; let the chunk size be between 1 and
  -- 2 ^ 32 - 1, the bitmap mark exactly the used chunks, and no chunk have more room than its size.
  -- Let the hash key's first chunk start a chain of different chunks, with fuel for all of them, the
  -- buffer be shorter than 2 ^ 32 bytes and the file with it shorter than 2 ^ 64, and the chunks that
  -- are found for the write be different. Then `write` returns the length of the buffer; the chain
  -- goes on with the chunks that were found; and a read of the chain, with fuel for it, finds the
  -- file's old chunks, the new ones behind them, and as many bytes more as the buffer holds.
  pub write-appends :
      (ids : List ℕ)
      → generate_hash_key sha1_val fs.head.chunk_num ≡ h
      → Distinct (h ∷ l)
      → length (h ∷ l) ≤ fuel
      → (noted fs.meta_pool fs.head.chunk_size sha1_val (h ∷ l) no_chunks).write_total_len
          + length buff
        < 2 ^ 64
      → idle_for fs.bit_map draws
          (is_used_of (entry_of fs.meta_pool tail_of))
          (chunkid_of tail_of)
          need_of
        ≡ some ids
      → Distinct ids
      → (fs' : Fs F) × (r : ReadChunks) × (write os fuel draws sha1_val buff fs
          ≡ done (some (length buff), fs'))
        × Linked fs'.meta_pool (h ∷ (l ++ ids))
        × ((fuel' : ℕ)
            → length (h ∷ (l ++ ids)) ≤ fuel'
            → generate_read_chunkids fuel' fs'.meta_pool fs.head.chunk_size h sha1_val ≡ done r)
        × (r.write_chunkids
            ≡ (noted fs.meta_pool fs.head.chunk_size sha1_val (h ∷ l) no_chunks).write_chunkids
              ++ ids)
        × (r.write_total_len
            ≡ (noted fs.meta_pool fs.head.chunk_size sha1_val (h ∷ l) no_chunks).write_total_len
              + length buff)
  unfolding write write_at_tails write_found
  write-appends ids key d enough fits found distinct =
      let c = fs.head.chunk_size in
      let p = fs.meta_pool in
      let (size, fresh) = chosen-Fresh ids found distinct in
      let (ends, tails, reads) = Linked-walks p fuel c sha1_val h l linked enough in
      let plan = calc_write_variable c (entry_of p tail_of) (length buff) in
      let s = start fs (length buff) in
      let (q, r₁, pool, real, joined, was, same_ids, sum, small) =
        write_body-Body os writes c good.some_size good.bounded sha1_val buff short h l s linked d
          refl refl good.is_open tail_of ids refl size good.room fits in
      let (r, notes, chunks, total) =
        fill-notes c plan.last_chunk_write_len sha1_val p q h l ids r₁ small good.bounded fresh
          joined.size was (omega (arith, sum, fits)) in
      let chain =
        fill-joins c plan.last_chunk_write_len sha1_val p q h l ids good.few linked d fresh
          joined in
      let s' = write_body os c sha1_val buff plan ids tail_of (last h l) s in
      let fs' : Fs F = record fs {
        meta_pool = s'.pool;
        bit_map = s'.bit_map;
        data_mgr = s'.data_mgr;
        next_taskid = (fs.next_taskid + 1) % 2 ^ 32;
      } in
      let chain' : Linked s'.pool (h ∷ (l ++ ids)) =
        subst (λ (x : List MetaInfo). Linked x (h ∷ (l ++ ids))) (sym pool) chain in
      (
        fs',
        r,
        rw (key, tails, ends, found) (ap (λ (n : ℕ). done (some n, fs')) real),
        chain',
        (λ fuel' enough'.
            (Linked-walks s'.pool fuel' c sha1_val h (l ++ ids) chain' enough').2
            ∙ ap (λ (x : List MetaInfo). done (noted x c sha1_val (h ∷ (l ++ ids)) no_chunks)) pool
            ∙ ap done notes),
        chunks ∙ ap (λ xs. xs ++ ids) same_ids,
        omega (arith, total, sum),
      )
