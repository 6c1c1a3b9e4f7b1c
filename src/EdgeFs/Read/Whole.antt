-- ===== src/EdgeFs/Read/Whole.antt =====
-- `EdgeFS::read` as a whole, on a disk that keeps what is written: it reads the bytes of the file.
use native.Mathlib.Nat.{mul-le-mul_right}
use edge_compute.Base.{
  ℕ, zero, suc, ◌+◌, ◌-◌, ◌*◌, ◌%◌, ◌^◌, ◌≤◌, ◌<◌, ◌≡◌, refl, false, Option, some, List, [], ◌∷◌,
  ◌++◌, map, ◌==◌, ltb, length, take, drop, arith, ◌∙◌, ap, sym,
}
use edge_compute.Sys.{Bytes}
use edge_compute.EdgeFs.Format.{MetaInfo, Outcome, done}
use edge_compute.EdgeFs.File.{Os, FileOper}
use edge_compute.EdgeFs.Chain.{ReadChunks, no_chunks, generate_hash_key}
use edge_compute.EdgeFs.Chain.Linked.{at, Linked}
use edge_compute.EdgeFs.Chain.Walks.{noted, Linked-walks}
use edge_compute.EdgeFs.Disk.{IsDisk, bytes_of}
use edge_compute.EdgeFs.Contents.{file_contents-frame, chunk_contents-same}
use edge_compute.EdgeFs.Write.{Fs}
use edge_compute.EdgeFs.Write.Appends.{IsStore}
use edge_compute.EdgeFs.Write.Whole.{contents_of}
use edge_compute.EdgeFs.Read.{Piece, put, read_pieces, calc_read_variable, read_found, read}
use edge_compute.EdgeFs.Read.Addresses.{
  addresses, file_addresses, file_addresses-append, calc_read_variable-addresses,
}
use edge_compute.EdgeFs.Read.Packed.{
  file_chunks, IsPacked, size_of, last_len_of, size_of-packed, map-append, file_contents-addresses,
  noted-Notes,
}
use edge_compute.EdgeFs.Read.Pieces.{length-map, take-append, drop-append, read_pieces-ReadInto}

length-file_addresses :
    (c : ℕ) (ids : List ℕ) (from n : ℕ) → length (file_addresses c ids from n) ≡ n
length-file_addresses c ids from zero = refl
length-file_addresses c ids from (suc n) = omega (arith, length-file_addresses c ids (from + 1) n)

-- A part of the positions of a file are the positions of a part of it.
part_of :
    (c : ℕ) (some_size : 0 < c) (ids : List ℕ) (f : ℕ → ℕ) (total offset len : ℕ)
    → offset + len ≤ total
    → take len (drop offset (map f (file_addresses c ids 0 total)))
      ≡ map f (file_addresses c ids offset len)
part_of c some_size ids f total offset len fits =
    let rest = total - (offset + len) in
    let whole : total ≡ offset + (len + rest) = omega (arith, fits) in
    let before = map f (file_addresses c ids 0 offset) in
    let here_bytes = map f (file_addresses c ids offset len) in
    let behind = map f (file_addresses c ids (offset + len) rest) in
    let size =
      length-map f (file_addresses c ids 0 offset) ∙ length-file_addresses c ids 0 offset in
    let size' =
      length-map f (file_addresses c ids offset len) ∙ length-file_addresses c ids offset len in
    let at_offset : 0 + offset ≡ offset = omega arith in
    let positions = file_addresses c ids in
    let parts : positions 0 total
        ≡ positions 0 offset ++ (positions offset len ++ positions (offset + len) rest) =
      ap (positions 0) whole
      ∙ file_addresses-append c some_size ids 0 offset (len + rest)
      ∙ ap (λ (t : ℕ). positions 0 offset ++ positions t (len + rest)) at_offset
      ∙ ap (λ (x : List ℕ). positions 0 offset ++ x)
          (file_addresses-append c some_size ids offset len rest) in
    let split : map f (positions 0 total) ≡ before ++ (here_bytes ++ behind) =
      ap (map f) parts
      ∙ map-append f (positions 0 offset) (positions offset len ++ positions (offset + len) rest)
      ∙ ap (λ (x : Bytes). before ++ x)
          (map-append f (positions offset len) (positions (offset + len) rest)) in
    let start : offset ≡ offset + 0 = omega arith in
    ap (λ (b : Bytes). take len (drop offset b)) split
    ∙ ap (λ (t : ℕ). take len (drop t (before ++ (here_bytes ++ behind)))) start
    ∙ ap (λ (b : Bytes). take len b) (drop-append offset 0 before (here_bytes ++ behind) size)
    ∙ take-append len here_bytes behind size'

last_len_of-le :
    (p : List MetaInfo) (c : ℕ) (ids : List ℕ) (n : ℕ) → n ≤ c → last_len_of p c ids n ≤ c
last_len_of-le p c [] n small = small
last_len_of-le p c (i ∷ ids) n small = last_len_of-le p c ids (c - (at p i).idle_len) (omega arith)

size_of-le : (p : List MetaInfo) (c : ℕ) (ids : List ℕ) → size_of p c ids ≤ length ids * c
size_of-le p c [] = omega arith
size_of-le p c (i ∷ ids) = omega (arith, size_of-le p c ids)

length-file_chunks :
    (p : List MetaInfo) (sha1_val : Bytes) (xs : List ℕ)
    → length (file_chunks p sha1_val xs) ≤ length xs
length-file_chunks p sha1_val [] = omega arith
length-file_chunks p sha1_val (i ∷ xs) = ground (arith, length-file_chunks p sha1_val xs)

module _ {F : Type 0} (os : Os F) (disk : IsDisk os) (fs : Fs F) (good : IsStore fs)
    (small : fs.head.chunk_size ≤ 2 ^ 27) where
  -- What a read found of a packed file that has the bytes it asks for.
  abbrev Found : (len offset : ℕ) → Bytes → List ℕ → Outcome (Option ℕ × (Bytes × Fs F)) → Type 0
  Found len offset buff ids out =
      (f' : FileOper F) × (out
        ≡ done (
          some len,
          (
            put 0
                (map (bytes_of os disk fs.data_mgr)
                  (file_addresses fs.head.chunk_size ids offset len))
                buff,
            record fs { data_mgr = f' },
          ),
        ))
      × ((k : ℕ) → bytes_of os disk f' k ≡ bytes_of os disk fs.data_mgr k)

  read_found-run :
      (r : ReadChunks) (len offset : ℕ) (buff out : Bytes) (ps : List Piece)
      → (length r.write_chunkids == 0) ≡ false
      → ltb r.write_total_len offset ≡ false
      → calc_read_variable fs.head.chunk_size r.write_chunkids r.last_chunk_write_len len offset
        ≡ done ps
      → (read_pieces os ps 0 buff fs.data_mgr).0 ≡ len
      → (read_pieces os ps 0 buff fs.data_mgr).1.0 ≡ out
      → read_found os len offset buff fs r
        ≡ done
            (some len, (out, record fs { data_mgr = (read_pieces os ps 0 buff fs.data_mgr).1.1 }))
  unfolding read_found
  read_found-run r len offset buff out ps some_chunks inside calc real read_bytes =
      rw (some_chunks, inside, calc, real, read_bytes) refl

  read_found-Found :
      (ids : List ℕ) (r : ReadChunks) (len offset : ℕ) (buff : Bytes)
      → IsPacked fs.meta_pool ids
      → length ids < 2 ^ 32
      → r.write_chunkids ≡ ids
      → r.write_total_len ≡ size_of fs.meta_pool fs.head.chunk_size ids
      → r.last_chunk_write_len ≡ last_len_of fs.meta_pool fs.head.chunk_size ids 0
      → 0 < len
      → len < 2 ^ 31
      → offset + len ≤ size_of fs.meta_pool fs.head.chunk_size ids
      → len ≤ length buff
      → Found len offset buff ids (read_found os len offset buff fs r)
  read_found-Found [] r len offset buff packed few chunks total last some_len short within room =
      absurd (omega arith)
  read_found-Found (i ∷ ids) r len offset buff packed few chunks total last some_len short within
        room =
      let c = fs.head.chunk_size in
      let p = fs.meta_pool in
      let f = bytes_of os disk fs.data_mgr in
      let (ps, calc, where_read) =
        calc_read_variable-addresses c good.some_size (i ∷ ids) (last_len_of p c (i ∷ ids) 0) len
          offset small few (last_len_of-le p c (i ∷ ids) 0 (omega arith)) some_len short
          (omega (arith, size_of-packed p c good.some_size [] i ids packed, within)) in
      let size : length (addresses ps) ≡ len =
        ap (λ (x : List ℕ). length x) where_read ∙ length-file_addresses c (i ∷ ids) offset len in
      let (sum, out, kept, fd) =
        read_pieces-ReadInto os disk ps 0 buff fs.data_mgr good.is_open (omega (arith, size, short))
          (omega (arith, size, room)) in
      let some_chunks : (length r.write_chunkids == 0) ≡ false =
        ground (arith, ap (λ (x : List ℕ). length x) chunks) in
      let inside : ltb r.write_total_len offset ≡ false = ground (arith, total, within) in
      let calc' =
        ap (λ (x : List ℕ). calc_read_variable c x r.last_chunk_write_len len offset) chunks
        ∙ ap (λ (n : ℕ). calc_read_variable c (i ∷ ids) n len offset) last
        ∙ calc in
      let read_bytes = out ∙ ap (λ (x : List ℕ). put 0 (map f x) buff) where_read in
      (
        (read_pieces os ps 0 buff fs.data_mgr).1.1,
        read_found-run r len offset buff
            (put 0 (map f (file_addresses c (i ∷ ids) offset len)) buff) ps some_chunks inside calc'
            (omega (arith, sum, size)) read_bytes,
        kept,
      )

module _ {F : Type 0} (os : Os F) (disk : IsDisk os) (fuel : ℕ) (fs : Fs F) (good : IsStore fs)
    (sha1_val : Bytes) (h : ℕ) (l : List ℕ) (linked : Linked fs.meta_pool (h ∷ l)) where
  abbrev ids : List ℕ
  ids = file_chunks fs.meta_pool sha1_val (h ∷ l)

  abbrev size : ℕ
  size = size_of fs.meta_pool fs.head.chunk_size ids

  -- Let the disk keep what is written to it and leave the rest alone; let the data file be open, the
  -- chunk size between 1 and 2 ^ 27, the bitmap mark exactly the used chunks, and no chunk have more
  -- room than its size. Let the hash key's first chunk start a chain of fewer than 2 ^ 32 chunks, with
  -- fuel for all of them, in which all chunks of the file but its last are full. Then a `read` of some
  -- bytes, fewer than 2 ^ 31 and within the file, into a buffer that has room for them, returns their
  -- number, puts the bytes of the file that stand there into the buffer, and leaves the
  -- entries of the chunks and the bytes of every file as they were.
  pub read-contents :
      (len offset : ℕ) (buff : Bytes)
      → generate_hash_key sha1_val fs.head.chunk_num ≡ h
      → length (h ∷ l) ≤ fuel
      → length (h ∷ l) < 2 ^ 32
      → fs.head.chunk_size ≤ 2 ^ 27
      → IsPacked fs.meta_pool ids
      → 0 < len
      → len < 2 ^ 31
      → offset + len ≤ length (contents_of os disk fs sha1_val (h ∷ l))
      → len ≤ length buff
      → (fs' : Fs F) × (read os fuel sha1_val len offset buff fs
          ≡ done (
            some len,
            (put 0 (take len (drop offset (contents_of os disk fs sha1_val (h ∷ l)))) buff, fs'),
          ))
        × (fs'.meta_pool ≡ fs.meta_pool)
        × ((digest : Bytes) (xs : List ℕ)
            → contents_of os disk fs' digest xs ≡ contents_of os disk fs digest xs)
  unfolding read read_found
  read-contents len offset buff key enough few small packed some_len short within room =
      let c = fs.head.chunk_size in
      let p = fs.meta_pool in
      let f = bytes_of os disk fs.data_mgr in
      let (ends, tails, reads) = Linked-walks p fuel c sha1_val h l linked enough in
      let r = noted p c sha1_val (h ∷ l) no_chunks in
      let fewer : length ids < 2 ^ 32 = omega (arith, length-file_chunks p sha1_val (h ∷ l), few) in
      let area : length ids * c ≤ 2 ^ 32 * c = mul-le-mul_right c (omega arith) in
      let fits : size < 2 ^ 64 = omega (arith, size_of-le p c ids, area, small) in
      let (chunks, total, last) =
        noted-Notes p c good.some_size sha1_val good.bounded good.room (h ∷ l) no_chunks
          (omega (arith, fits)) in
      let contents = file_contents-addresses p c good.some_size sha1_val f (h ∷ l) packed in
      let whole : length (contents_of os disk fs sha1_val (h ∷ l)) ≡ size =
        ap (λ (b : Bytes). length b) contents
        ∙ length-map f (file_addresses c ids 0 size)
        ∙ length-file_addresses c ids 0 size in
      let fs₁ : Fs F = record fs { next_taskid = (fs.next_taskid + 1) % 2 ^ 32 } in
      let good₁ : IsStore fs₁ = record {
        is_open = good.is_open;
        some_size = good.some_size;
        bounded = good.bounded;
        chunks = good.chunks;
        few = good.few;
        marks = good.marks;
        room = good.room;
      } in
      let (f', found, kept) =
        read_found-Found os disk fs₁ good₁ small ids r len offset buff packed fewer chunks
          (omega (arith, total)) last some_len short (omega (arith, within, whole)) room in
      let part =
        ap (λ (b : Bytes). take len (drop offset b)) contents
        ∙ part_of c good.some_size ids f size offset len (omega (arith, within, whole)) in
      (
        record fs₁ { data_mgr = f' },
        rw (key, reads)
            (found
              ∙ ap (λ (b : Bytes). done (some len, (put 0 b buff, record fs₁ { data_mgr = f' })))
                  (sym part)),
        refl,
        λ digest xs. file_contents-frame c digest p p f (bytes_of os disk f') xs (λ k in_list.
            chunk_contents-same c digest (at p k) (at p k) f (bytes_of os disk f') k refl refl
              (λ o o_small. kept (k * c + o))),
      )
