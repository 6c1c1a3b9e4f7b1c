-- ===== src/EdgeFs/Write/Refines.antt =====
-- `EdgeFS::write` as an append to the bytes of a file.
use mathlib.Core.List.{append_assoc}
use edge_compute.Base.{
  ℕ, ◌+◌, ◌-◌, ◌*◌, ◌^◌, ◌<◌, ◌≤◌, ◌≡◌, ◌≢◌, refl, Bool, true, false, none, some, List, [], ◌∷◌,
  ◌++◌, ◌==◌, length, length-take, drop, arith, ◌∙◌, ap, is_pos, Bool-cases, inl, inr, ==→eq,
  ==_refl, sym,
}
use edge_compute.Sys.{Bytes}
use edge_compute.EdgeFs.Format.{MetaInfo}
use edge_compute.EdgeFs.Init.{bytes_eq}
use edge_compute.EdgeFs.Init.Sizes.{bytes_eq→eq}
use edge_compute.EdgeFs.Bitmap.Bits.{is_in}
use edge_compute.EdgeFs.Bitmap.Search.{Distinct}
use edge_compute.EdgeFs.File.{Os, FileOper, write_at}
use edge_compute.EdgeFs.Chain.{is_of, plan_rest}
use edge_compute.EdgeFs.Chain.Linked.{at, Linked, last}
use edge_compute.EdgeFs.Chain.Walks.{file_tail}
use edge_compute.EdgeFs.Disk.{IsDisk, bytes_of}
use edge_compute.EdgeFs.Disk.Area.{write_at-other, write_at-area, take-drop}
use edge_compute.EdgeFs.Contents.{
  chunk_contents, file_contents, file_contents-frame, chunk_contents-same, file_contents-grows,
}
use edge_compute.EdgeFs.Write.{Progress, slice, link_chain, write_chunks}
use edge_compute.EdgeFs.Write.Plan.{full_len-plan}
use edge_compute.EdgeFs.Write.Fill.{AllBelow-resize, write_at-fd}
use edge_compute.EdgeFs.Write.First.{file_tail-LastOf, Shrunk}
use edge_compute.EdgeFs.Write.Append.{Fresh}
use edge_compute.EdgeFs.Write.Links.{
  link_chain-same, link_chain-Joined, first_pool, first_pool-Shrunk,
}
use edge_compute.EdgeFs.Write.Holds.{write_chunks-keeps, write_chunks-adds}

file_tail-is_of :
    (p : List MetaInfo) (sha1_val : Bytes) (xs : List ℕ) (t : ℕ)
    → file_tail p sha1_val xs none ≡ some t
    → is_of sha1_val (at p t) ≡ true
file_tail-is_of p sha1_val xs t e = elim (file_tail-LastOf p 0 sha1_val xs none t e) [
  | inl (impossible, silent) ↦ cc
  | inr (pre, post, split, of, silent) ↦ of
]

module _ {F : Type 0} (os : Os F) (disk : IsDisk os) (c : ℕ) (some_size : 0 < c)
    (bounded : c < 2 ^ 32) (sha1_val buff : Bytes) (short : length buff < 2 ^ 32) (h : ℕ)
    (l : List ℕ) (s : Progress F) (linked : Linked s.pool (h ∷ l)) (d : Distinct (h ∷ l))
    (whole : s.remain_len ≡ length buff) (new : s.real_write_len ≡ 0)
    (is_open : is_pos s.data_mgr.fd ≡ true) where
  abbrev pub contents : Progress F → Bytes → List ℕ → Bytes
  contents s' digest xs = file_contents s'.pool (bytes_of os disk s'.data_mgr) c digest xs

  -- The file gets the buffer, and the other files stay.
  abbrev pub Appended : List ℕ → Progress F → Type 0
  Appended ids s' =
      (contents s' sha1_val (h ∷ (l ++ ids)) ≡ contents s sha1_val (h ∷ l) ++ buff)
      × ((digest : Bytes) (xs : List ℕ)
          → bytes_eq sha1_val digest ≡ false
          → ((k : ℕ) → is_in k xs ≡ true → is_in k ids ≡ false)
          → contents s' digest xs ≡ contents s digest xs)

  pub unfilled-Appended :
      (ids : List ℕ)
      → length ids ≡ (plan_rest c 0 (length buff)).need_chunk_num
      → Fresh s.pool (h ∷ l) ids
      → Appended ids (
          write_chunks os c sha1_val buff
            (plan_rest c 0 (length buff)).last_chunk_write_len
            ids
            (record s { pool = link_chain os c sha1_val buff (last h l) ids s.pool }))
  unfilled-Appended ids e fresh =
      let q = link_chain os c sha1_val buff (last h l) ids s.pool in
      let s₁ : Progress F = record s { pool = q } in
      let last_len = (plan_rest c 0 (length buff)).last_chunk_write_len in
      let (small, sum) = full_len-plan c 0 (length buff) ids some_size bounded short e in
      let joined = link_chain-Joined os c sha1_val buff s.pool h l linked ids in
      let below = AllBelow-resize ids joined.size fresh.below in
      let keeps =
        write_chunks-keeps os disk c sha1_val buff last_len ids s₁ small is_open (whole ∙ sum)
          (omega (arith, whole, new)) below fresh.distinct in
      let adds =
        write_chunks-adds os disk c sha1_val buff last_len ids s₁ small is_open (whole ∙ sum)
          (omega (arith, whole, new)) below fresh.distinct in
      let linking = λ (digest : Bytes) (xs : List ℕ).
        file_contents-frame c digest s.pool q (bytes_of os disk s.data_mgr)
          (bytes_of os disk s.data_mgr) xs
          (λ k w.
            (let (digest_same, idle_same) =
                link_chain-same os c sha1_val buff s.pool h l linked ids k in
              chunk_contents-same c digest (at s.pool k) (at q k) (bytes_of os disk s.data_mgr)
                (bytes_of os disk s.data_mgr) k digest_same idle_same (λ o x. refl))) in
      (
        adds (h ∷ l) fresh.apart
            ∙ ap (λ (b : Bytes). b ++ drop s.real_write_len buff) (linking sha1_val (h ∷ l))
            ∙ ap (λ (n : ℕ). contents s sha1_val (h ∷ l) ++ drop n buff) new,
        λ digest xs other apart. keeps digest xs apart ∙ linking digest xs,
      )

  -- The file's last chunk is filled up first, by `first` bytes that are written at `start`.
  module _ (t : ℕ) (within : is_in t (h ∷ l) ≡ true)
      (tail : file_tail s.pool sha1_val (h ∷ l) none ≡ some t) (room : (at s.pool t).idle_len ≤ c)
      (first start : ℕ) (fit : first ≤ (at s.pool t).idle_len) (less : first ≤ length buff)
      (behind : start ≡ t * c + (c - (at s.pool t).idle_len)) (full : Bool) (ids : List ℕ) where
    abbrev piece : Bytes
    piece = slice buff s.real_write_len first

    abbrev written : FileOper F
    written = (write_at os piece start s.data_mgr).1

    abbrev filled_pool : List MetaInfo
    filled_pool = first_pool os c sha1_val buff s.pool h l linked t first within full ids

    length-piece : length piece ≡ first
    length-piece = rw new (omega (arith, length-take first buff, less))

    changed : (k : ℕ) → Shrunk s.pool filled_pool (k ∷ []) t first
    changed k =
        first_pool-Shrunk os c sha1_val buff s.pool h l linked t first within full ids (k ∷ [])

    first-keeps :
        (digest : Bytes) (k : ℕ)
        → k ≢ t
        → chunk_contents (at filled_pool k) (bytes_of os disk written) c digest k
          ≡ chunk_contents (at s.pool k) (bytes_of os disk s.data_mgr) c digest k
    first-keeps digest k ne =
        let itself : is_in k (k ∷ []) ≡ true = ground (arith, ==_refl k) in
        chunk_contents-same c digest (at s.pool k) (at filled_pool k) (bytes_of os disk s.data_mgr)
          (bytes_of os disk written) k ((changed k).sha1 k itself)
          (ground (arith, (changed k).idle k itself, ==→eq k t))
          (λ o o_small.
            write_at-other os disk c piece t (c - (at s.pool t).idle_len) start k o s.data_mgr
              behind is_open (omega (arith, length-piece, fit, room)) (λ e. ne (sym e)) o_small)

    first-silent :
        (digest : Bytes)
        → bytes_eq sha1_val digest ≡ false
        → chunk_contents (at filled_pool t) (bytes_of os disk written) c digest t
          ≡ chunk_contents (at s.pool t) (bytes_of os disk s.data_mgr) c digest t
    first-silent digest other =
        let itself : is_in t (t ∷ []) ≡ true = ground (arith, ==_refl t) in
        let mine : (at s.pool t).sha1 ≡ sha1_val =
          bytes_eq→eq (at s.pool t).sha1 sha1_val
            (file_tail-is_of s.pool sha1_val (h ∷ l) t tail) in
        rw ((changed t).sha1 t itself, mine, other) refl

    first-grows :
        chunk_contents (at filled_pool t) (bytes_of os disk written) c sha1_val t
        ≡ chunk_contents (at s.pool t) (bytes_of os disk s.data_mgr) c sha1_val t ++ piece
    first-grows =
        let itself : is_in t (t ∷ []) ≡ true = ground (arith, ==_refl t) in
        let idle : (at filled_pool t).idle_len ≡ (at s.pool t).idle_len - first =
          ground (arith, (changed t).idle t itself, ==_refl t) in
        let len : c - ((at s.pool t).idle_len - first) ≡ c - (at s.pool t).idle_len + length piece =
          omega (arith, length-piece, fit, room) in
        rw ((changed t).sha1 t itself, file_tail-is_of s.pool sha1_val (h ∷ l) t tail, idle, len)
          (write_at-area os disk piece (t * c) (c - (at s.pool t).idle_len) start s.data_mgr behind
            is_open)

    grown :
        file_contents filled_pool (bytes_of os disk written) c sha1_val (h ∷ l)
        ≡ contents s sha1_val (h ∷ l) ++ piece
    grown =
        file_contents-grows c sha1_val s.pool filled_pool (bytes_of os disk s.data_mgr)
          (bytes_of os disk written) (h ∷ l) t piece d tail (λ k w ne. first-keeps sha1_val k ne)
          first-grows

    stays :
        (digest : Bytes) (xs : List ℕ)
        → bytes_eq sha1_val digest ≡ false
        → file_contents filled_pool (bytes_of os disk written) c digest xs ≡ contents s digest xs
    stays digest xs other =
        file_contents-frame c digest s.pool filled_pool (bytes_of os disk s.data_mgr)
          (bytes_of os disk written) xs
          λ k w. elim (Bool-cases (k == t)) [
            | inl here ↦ let same : k ≡ t = ==→eq k t here in rw same (first-silent digest other)
            | inr apart ↦ first-keeps digest k (λ e. ground (arith, ==_refl t))
          ]

    same_state :
        (s₁ : Progress F)
        → s₁.pool ≡ filled_pool
        → s₁.data_mgr ≡ written
        → (digest : Bytes) (xs : List ℕ)
        → contents s₁ digest xs ≡ file_contents filled_pool (bytes_of os disk written) c digest xs
    same_state s₁ ep ed digest xs =
        ap (λ (p : List MetaInfo). file_contents p (bytes_of os disk s₁.data_mgr) c digest xs) ep
        ∙ ap (λ (f : FileOper F). file_contents filled_pool (bytes_of os disk f) c digest xs) ed

    piece_then : piece ++ drop first buff ≡ buff
    piece_then =
        let e : 0 + first ≡ first = omega arith in rw new (rw e at (take-drop 0 first buff))

    pub filled-Appended :
        (s₁ : Progress F)
        → s₁.pool ≡ filled_pool
        → s₁.data_mgr ≡ written
        → s₁.real_write_len ≡ first
        → s₁.remain_len ≡ length buff - first
        → length ids ≡ (plan_rest c first (length buff - first)).need_chunk_num
        → Fresh s.pool (h ∷ l) ids
        → length filled_pool ≡ length s.pool
        → Appended ids (
            write_chunks os c sha1_val buff
              (plan_rest c first (length buff - first)).last_chunk_write_len
              ids
              s₁)
    filled-Appended s₁ ep ed er em e fresh size =
        let last_len = (plan_rest c first (length buff - first)).last_chunk_write_len in
        let (small, sum) =
          full_len-plan c first (length buff - first) ids some_size bounded (omega arith) e in
        let below =
          AllBelow-resize ids (ap (λ (p : List MetaInfo). length p) ep ∙ size) fresh.below in
        let stays_open =
          ap (λ (f : FileOper F). is_pos f.fd) ed
          ∙ ap is_pos (write_at-fd os piece start s.data_mgr)
          ∙ is_open in
        let keeps =
          write_chunks-keeps os disk c sha1_val buff last_len ids s₁ small stays_open (em ∙ sum)
            (omega (arith, em, er, less)) below fresh.distinct in
        let adds =
          write_chunks-adds os disk c sha1_val buff last_len ids s₁ small stays_open (em ∙ sum)
            (omega (arith, em, er, less)) below fresh.distinct in
        (
          adds (h ∷ l) fresh.apart
              ∙ ap (λ (b : Bytes). b ++ drop s₁.real_write_len buff)
                  (same_state s₁ ep ed sha1_val (h ∷ l) ∙ grown)
              ∙ ap (λ (n : ℕ). (contents s sha1_val (h ∷ l) ++ piece) ++ drop n buff) er
              ∙ append_assoc (contents s sha1_val (h ∷ l)) piece (drop first buff)
              ∙ ap (λ (b : Bytes). contents s sha1_val (h ∷ l) ++ b) piece_then,
          λ digest xs other apart.
              keeps digest xs apart ∙ same_state s₁ ep ed digest xs ∙ stays digest xs other,
        )
