-- ===== src/EdgeFs/Write/Links.antt =====
-- What `write` does to the chain before it writes the new chunks.
use edge_compute.Base.{
  ℕ, ◌-◌, ◌<◌, ◌≡◌, refl, ◌⊎◌, Bool, true, false, List, [], ◌∷◌, ◌==◌, length, set, length-set,
  arith, if◌then◌else◌, ◌∙◌, Bool-cases, inl, inr, ==→eq,
}
use edge_compute.Sys.{Bytes}
use edge_compute.EdgeFs.Format.{MetaInfo}
use edge_compute.EdgeFs.Bitmap.Bits.{is_in}
use edge_compute.EdgeFs.Chain.Linked.{at, Linked, last, last-is_in}
use edge_compute.EdgeFs.Write.{first_or_invalid, set_next, link_chain, link_if_full}
use edge_compute.EdgeFs.Write.Fill.{at-set}
use edge_compute.EdgeFs.Write.First.{Shrunk}
use edge_compute.EdgeFs.Write.Append.{Joined, Linked-last}
use edge_compute.EdgeFs.File.{Os}

-- Every chunk of a chain is in the pool and used.
pub Linked-entry :
    (p : List MetaInfo) (h : ℕ) (l : List ℕ) (k : ℕ)
    → Linked p (h ∷ l)
    → is_in k (h ∷ l) ≡ true
    → (k < length p) × ((at p k).is_used ≡ true)
Linked-entry p h [] k linked e = ground (arith, ==→eq k h)
Linked-entry p h (j ∷ l) k (small, used, next, more, rest) e = elim (Bool-cases (k == h)) [
  | inl here ↦ let same : k ≡ h = ==→eq k h here in rw same (small, used)
  | inr other ↦ Linked-entry p j l k rest (ground arith)
]

pub at-set_next :
    (p : List MetaInfo) (i next k : ℕ)
    → i < length p
    → at (set_next i next p) k
      ≡ (if k == i then record (at p i) { next_chunkid = next } else at p k)
at-set_next p i next k small = at-set p i k (record (at p i) { next_chunkid = next }) small

pub link_chain-kept :
    {F : Type 0} (os : Os F) (c : ℕ) (sha1_val buff : Bytes) (p : List MetaInfo) (i : ℕ)
    (ids : List ℕ) (k : ℕ)
    → i < length p
    → ((at (link_chain os c sha1_val buff i ids p) k).sha1 ≡ (at p k).sha1)
      × ((at (link_chain os c sha1_val buff i ids p) k).idle_len ≡ (at p k).idle_len)
      × ((at (link_chain os c sha1_val buff i ids p) k).is_used ≡ (at p k).is_used)
unfolding link_chain
link_chain-kept os c sha1_val buff p i [] k small = (refl, refl, refl)
link_chain-kept os c sha1_val buff p i (j ∷ ids) k small =
    ground (arith, at-set_next p i j k small, ==→eq k i)

pub length-link_chain :
    {F : Type 0} (os : Os F) (c : ℕ) (sha1_val buff : Bytes) (p : List MetaInfo) (i : ℕ)
    (ids : List ℕ)
    → length (link_chain os c sha1_val buff i ids p) ≡ length p
unfolding link_chain
length-link_chain os c sha1_val buff p i [] = refl
length-link_chain os c sha1_val buff p i (j ∷ ids) =
    length-set p i (record (at p i) { next_chunkid = j })

module _ {F : Type 0} (os : Os F) (c : ℕ) (sha1_val buff : Bytes) (p : List MetaInfo) (h : ℕ)
    (l : List ℕ) (linked : Linked p (h ∷ l)) where
  pub tail_small : last h l < length p
  tail_small = (Linked-entry p h l (last h l) linked (last-is_in h l)).0

  pub link_chain-Joined :
      (ids : List ℕ) → Joined p (link_chain os c sha1_val buff (last h l) ids p) h l ids
  unfolding link_chain
  link_chain-Joined [] = record {
    size = refl;
    used = λ k e. refl;
    next = λ k e. ground (arith, Linked-last p h l linked, ==→eq k (last h l));
  }
  link_chain-Joined (i ∷ ids) = record {
    size = length-set p (last h l) (record (at p (last h l)) { next_chunkid = i });
    used = λ k e. ground (arith, at-set_next p (last h l) i k tail_small, ==→eq k (last h l));
    next = λ k e. ground (arith, at-set_next p (last h l) i k tail_small);
  }

  pub link_chain-same :
      (ids : List ℕ) (k : ℕ)
      → ((at (link_chain os c sha1_val buff (last h l) ids p) k).sha1 ≡ (at p k).sha1)
        × ((at (link_chain os c sha1_val buff (last h l) ids p) k).idle_len ≡ (at p k).idle_len)
  link_chain-same ids k =
      let (digest, idle, used) = link_chain-kept os c sha1_val buff p (last h l) ids k tail_small in
      (digest, idle)

  -- The first write: chunk `t` shrinks by `first`, and if it is full the chain goes on.
  module _ (t first : ℕ) (within : is_in t (h ∷ l) ≡ true) where
    abbrev pub shrunk : MetaInfo
    shrunk = record (at p t) { idle_len = (at p t).idle_len - first }

    abbrev pub first_pool : Bool → List ℕ → List MetaInfo
    first_pool full ids = link_if_full os c sha1_val buff full (last h l) ids (set p t shrunk)

    pub at-shrunk : (k : ℕ) → at (set p t shrunk) k ≡ (if k == t then shrunk else at p k)
    at-shrunk k = at-set p t k shrunk (Linked-entry p h l t linked within).0

    pub tail_small' : last h l < length (set p t shrunk)
    tail_small' = omega (arith, tail_small, length-set p t shrunk)

    pub first_pool-size : (full : Bool) (ids : List ℕ) → length (first_pool full ids) ≡ length p
    unfolding link_if_full
    first_pool-size true ids =
        length-set (set p t shrunk) (last h l)
          (record (at (set p t shrunk) (last h l)) { next_chunkid = first_or_invalid ids })
        ∙ length-set p t shrunk
    first_pool-size false ids = length-set p t shrunk

    pub first_pool-Joined :
        (full : Bool) (ids : List ℕ)
        → ((ids ≡ []) ⊎ (full ≡ true))
        → Joined p (first_pool full ids) h l ids
    unfolding link_if_full
    first_pool-Joined true ids why = record {
      size = first_pool-size true ids;
      used = λ k e. ground (
        arith,
        at-set_next (set p t shrunk) (last h l) (first_or_invalid ids) k tail_small',
        at-shrunk k,
        at-shrunk (last h l),
        ==→eq k (last h l),
        ==→eq k t,
        ==→eq (last h l) t,
      );
      next = λ k e. ground (
        arith,
        at-set_next (set p t shrunk) (last h l) (first_or_invalid ids) k tail_small',
        at-shrunk k,
        ==→eq k t,
      );
    }
    first_pool-Joined false [] why = record {
      size = length-set p t shrunk;
      used = λ k e. ground (arith, at-shrunk k, ==→eq k t);
      next = λ k e.
          ground (arith, at-shrunk k, ==→eq k t, Linked-last p h l linked, ==→eq k (last h l));
    }
    first_pool-Joined false (i ∷ ids) (inl e) = cc
    first_pool-Joined false (i ∷ ids) (inr e) = cc

    pub first_pool-Shrunk :
        (full : Bool) (ids xs : List ℕ) → Shrunk p (first_pool full ids) xs t first
    unfolding link_if_full
    first_pool-Shrunk true ids xs = record {
      sha1 = λ k e. ground (
        arith,
        at-set_next (set p t shrunk) (last h l) (first_or_invalid ids) k tail_small',
        at-shrunk k,
        at-shrunk (last h l),
        ==→eq k (last h l),
        ==→eq k t,
        ==→eq (last h l) t,
      );
      idle = λ k e. ground (
        arith,
        at-set_next (set p t shrunk) (last h l) (first_or_invalid ids) k tail_small',
        at-shrunk k,
        at-shrunk (last h l),
        ==→eq k (last h l),
        ==→eq k t,
        ==→eq (last h l) t,
      );
    }
    first_pool-Shrunk false ids xs = record {
      sha1 = λ k e. ground (arith, at-shrunk k, ==→eq k t);
      idle = λ k e. ground (arith, at-shrunk k, ==→eq k t);
    }
