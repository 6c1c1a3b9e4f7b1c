-- ===== src/NatProbe/Dns.antt =====
-- `np_get_server_ip` of NatProbe/nat_probe.c: the addresses of the server's domain.
use Prim.Native.String.{String}
use edge_compute.Base.{
  ℕ, suc, ◌+◌, ◌<◌, ◌≤◌, ◌≡◌, refl, true, false, none, some, List, [], ◌∷◌, ◌++◌, ℤ, pos, minus_one,
  if◌then◌else◌, ltb, ◌==◌, length, take, overlay, set-append, length-overlay, length-append, arith,
  Bool-cases, inl, inr, ap, le→ltb, lt→ltb,
}
use mathlib.Core.List.{append_assoc}
use edge_compute.Sys.{Env, History, M, ok, pure, ◌>>=◌, store, getaddrinfo, resolves}
use edge_compute.NatProbe.Types.{np_public_ip_num}

-- What the caller sees: the return value, its address buffer and `*pret_ip_num`.
pub record Resolved : Type 0 where
  pub retval : ℤ
  pub pip_addr : List ℕ
  pub ret_ip_num : ℕ

-- The loop over the answers; it stops when the buffer is full.
unfoldable pub copy_answers : ℕ → List ℕ → ℕ → List ℕ → M (List ℕ × ℕ)
copy_answers ip_num [] count buf = pure (buf, count)
copy_answers ip_num (a ∷ answers) count buf = do
  buf' ← store buf count a
  if (count + 1) == ip_num
      then pure (buf', count + 1)
      else copy_answers ip_num answers (count + 1) buf'

unfoldable pub np_get_server_ip : Env → String → List ℕ → ℕ → ℕ → M Resolved
np_get_server_ip env pdomain pip_addr ip_num ret = do
  answer ← getaddrinfo env pdomain
  elim answer [
    | none ↦ pure (record { retval = minus_one; pip_addr = pip_addr; ret_ip_num = ret })
    | some answers ↦ do
      (buf, count) ← copy_answers ip_num answers 0 pip_addr
      if ltb count np_public_ip_num
          then pure (record { retval = minus_one; pip_addr = buf; ret_ip_num = ret })
          else pure (record { retval = pos 0; pip_addr = buf; ret_ip_num = count })
  ]

copy_answers-overlay :
    (answers pre buf : List ℕ) (n c : ℕ) (h : History)
    → c ≡ length pre
    → n ≡ c + length buf
    → 0 < length buf
    → copy_answers n answers c (pre ++ buf) h
      ≡ ok (pre ++ overlay answers buf, c + length (take (length buf) answers)) h
unfolding copy_answers
copy_answers-overlay answers pre [] n c h ec en room = absurd (omega arith)
copy_answers-overlay [] pre (r ∷ rest) n c h ec en room =
    let same : c ≡ c + 0 = omega arith in ap (λ (k : ℕ). ok (pre ++ r ∷ rest, k) h) same
copy_answers-overlay (a ∷ answers) pre (r ∷ []) n c h ec en room =
    let fits : ltb c (length (pre ++ r ∷ [])) ≡ true =
      lt→ltb _ _ (omega (arith, length-append pre (r ∷ []))) in
    let full : ((c + 1) == n) ≡ true = ground arith in
    rw (fits, set-append pre r [] c a ec, full) refl
copy_answers-overlay (a ∷ answers) pre (r ∷ r' ∷ rest) n c h ec en room =
    let fits : ltb c (length (pre ++ r ∷ r' ∷ rest)) ≡ true =
      lt→ltb _ _ (omega (arith, length-append pre (r ∷ r' ∷ rest))) in
    let more : ((c + 1) == n) ≡ false = ground arith in
    let next =
      copy_answers-overlay answers (pre ++ a ∷ []) (r' ∷ rest) n (c + 1) h
        (omega (arith, length-append pre (a ∷ []))) (omega arith) (omega arith) in
    let moved : c + 1 + length (take (suc (length rest)) answers)
        ≡ c + suc (length (take (suc (length rest)) answers)) =
      omega arith in
    rw (fits, set-append pre r (r' ∷ rest) c a ec, more)
      (cc (
        next,
        append_assoc pre (a ∷ []) (r' ∷ rest),
        append_assoc pre (a ∷ []) (overlay answers (r' ∷ rest)),
        moved,
      ))

copied :
    (buf answers : List ℕ) (h : History)
    → 0 < length buf
    → copy_answers (length buf) answers 0 buf h
      ≡ ok (overlay answers buf, length (take (length buf) answers)) h
copied buf answers h room =
    let zeroed : 0 + length (take (length buf) answers) ≡ length (take (length buf) answers) =
      omega arith in
    cc (copy_answers-overlay answers [] buf (length buf) 0 h refl (omega arith) room, zeroed)

-- The run with an answer of at least two addresses.
pub np_get_server_ip-enough :
    (env : Env) (domain : String) (buf answers : List ℕ) (ret : ℕ) (h : History)
    → 2 ≤ length (take (length buf) answers)
    → 0 < length buf
    → env.getaddrinfo h domain ≡ some answers
    → np_get_server_ip env domain buf (length buf) ret h
      ≡ ok
          (record {
            retval = pos 0;
            pip_addr = overlay answers buf;
            ret_ip_num = length (take (length buf) answers);
          })
          (resolves (some answers) ∷ h)
unfolding np_get_server_ip
np_get_server_ip-enough env domain buf answers ret h enough room e =
    rw
      (
        e,
        copied buf answers (resolves (some answers) ∷ h) room,
        le→ltb (length (take (length buf) answers)) 2 enough,
      )
      refl

-- What a caller with a buffer of `length buf` entries gets from an answer of the resolver.
abbrev pub Answered : List ℕ → List ℕ → Resolved → Type 0
Answered answers buf r =
    (r.pip_addr ≡ overlay answers buf)
    × (length r.pip_addr ≡ length buf)
    × (r.retval ≡ (if ltb (length (take (length buf) answers)) 2 then minus_one else pos 0))
    × (r.retval ≡ pos 0 → r.ret_ip_num ≡ length (take (length buf) answers))

-- With a buffer that is not empty and its size passed as `ip_num`, `np_get_server_ip` never writes
-- outside the buffer: an answer is copied in order over its front, cut to its size; the call
-- succeeds exactly if two addresses or more were copied, and then reports their number.
pub np_get_server_ip-Answered :
    (env : Env) (domain : String) (buf answers : List ℕ) (ret : ℕ) (h : History)
    → 0 < length buf
    → env.getaddrinfo h domain ≡ some answers
    → (r : Resolved) × (np_get_server_ip env domain buf (length buf) ret h
        ≡ ok r (resolves (some answers) ∷ h))
      × Answered answers buf r
unfolding np_get_server_ip
np_get_server_ip-Answered env domain buf answers ret h room e =
    let count = length (take (length buf) answers) in
    let once = copied buf answers (resolves (some answers) ∷ h) room in
    elim (Bool-cases (ltb count 2)) [
      | inl few ↦ (
        record { retval = minus_one; pip_addr = overlay answers buf; ret_ip_num = ret },
        rw (e, once, few) refl,
        (refl, length-overlay answers buf, rw few refl, λ x. cc),
      )
      | inr enough ↦ (
        record { retval = pos 0; pip_addr = overlay answers buf; ret_ip_num = count },
        rw (e, once, enough) refl,
        (refl, length-overlay answers buf, rw enough refl, λ x. refl),
      )
    ]
