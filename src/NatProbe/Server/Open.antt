-- ===== src/NatProbe/Server/Open.antt =====
-- The second loop of `create_socket`, and `create_socket` itself.
use edge_compute.Base.{
  ℕ, zero, suc, ◌+◌, ◌≤◌, ◌<◌, ◌≡◌, refl, ◌∙◌, ◌⊎◌, inl, inr, Bool, true, false, some, List, ◌∷◌, ℤ,
  minus_one, is_neg, length, set, get_elem?, get_or, arith, lt→ltb, Bool-cases, length-set,
  get_elem?-set_self, get_elem?-set_ne, get_elem?-in, ==→eq, ◌==◌,
}
use edge_compute.Sys.{Env, addr, History, Run, ok, dgram, opens, binds, closes, sets_option}
use edge_compute.Clib.{Clib}
use edge_compute.NatProbe.Server.{NpAddr, open_sockets, so_rcvtimeo}

-- What the second loop may change: the descriptors of `rounds` entries from entry `i` on.
pub record Opened (rounds i : ℕ) (t t' : List NpAddr) : Type 0 where
  pub size : length t' ≡ length t
  pub same_addr :
      (m : ℕ) (a : NpAddr)
      → get_elem? t m ≡ some a
      → (s : ℤ) × (get_elem? t' m ≡ some (record a { sock = s }))
  pub outside : (m : ℕ) → (m < i) ⊎ (i + rounds ≤ m) → get_elem? t' m ≡ get_elem? t m

Opened-skip :
    {rounds i : ℕ} {t t' : List NpAddr} → Opened rounds (i + 1) t t' → Opened (suc rounds) i t t'
Opened-skip o = record {
  size = o.size;
  same_addr = o.same_addr;
  outside = λ m far. o.outside m (omega arith);
}

Opened-set :
    {rounds i : ℕ} {t t' : List NpAddr} (a : NpAddr) (s : ℤ)
    → get_elem? t i ≡ some a
    → i < length t
    → Opened rounds (i + 1) (set t i (record a { sock = s })) t'
    → Opened (suc rounds) i t t'
Opened-set {rounds} {i} {t} {t'} a s at small o = record {
  size = o.size ∙ length-set t i a';
  same_addr = keeps;
  outside = λ m far. o.outside m (omega arith) ∙ get_elem?-set_ne t i m a' (omega arith);
}
  where
    a' : NpAddr
    a' = record a { sock = s }

    keeps :
        (m : ℕ) (b : NpAddr)
        → get_elem? t m ≡ some b
        → (s : ℤ) × (get_elem? t' m ≡ some (record b { sock = s }))
    keeps m b e = elim (Bool-cases (i == m)) [
      | inl here ↦
          let (s', e') = o.same_addr i a' (get_elem?-set_self t i a' small) in
          (s', ground (arith, ==→eq i m here, e'))
      | inr other ↦ o.same_addr m b (get_elem?-set_ne t i m a' (ground arith) ∙ e)
    ]

abbrev pub Opens : ℕ → ℕ → List NpAddr → Run (Bool × List NpAddr) → Type 0
Opens rounds i t r =
    (b : Bool) × (t' : List NpAddr) × (h' : History) × (r ≡ ok (b, t') h') × Opened rounds i t t'

Opens-skip :
    {rounds i : ℕ} {t : List NpAddr} (r : Run (Bool × List NpAddr))
    → Opens rounds (i + 1) t r
    → Opens (suc rounds) i t r
Opens-skip r (b, t', h', e, o) = (b, t', h', e, Opened-skip o)

Opens-set :
    {rounds i : ℕ} {t : List NpAddr} (r : Run (Bool × List NpAddr)) (a : NpAddr) (s : ℤ)
    → get_elem? t i ≡ some a
    → i < length t
    → Opens rounds (i + 1) (set t i (record a { sock = s })) r
    → Opens (suc rounds) i t r
Opens-set r a s at small (b, t', h', e, o) = (b, t', h', e, Opened-set a s at small o)

module _ {J : Type 0} (c : Clib J) (env : Env) where
  -- Whatever the socket calls answer, the second loop returns, and changes descriptors only.
  pub open_sockets-Opens :
      (rounds i : ℕ) (t : List NpAddr) (h : History)
      → i + rounds ≤ length t
      → Opens rounds i t (open_sockets c env rounds i t h)
  unfolding open_sockets
  open_sockets-Opens zero i t h room = (
    true,
    t,
    h,
    refl,
    record { size = refl; same_addr = λ m a e. (a.sock, e); outside = λ m far. refl },
  )
  open_sockets-Opens (suc rounds) i t h room =
      let sock = env.socket h dgram in
      let a = get_or t i (record { ip = 0; port = 0; sock = minus_one }) in
      let at : get_elem? t i ≡ some a = get_elem?-in t i _ (omega arith) in
      let h₁ = opens dgram sock ∷ h in
      let to = addr a.ip (env.htons a.port) in
      let bound = env.bind h₁ sock to in
      let h₂ = binds sock to true ∷ h₁ in
      let timed = env.setsockopt h₂ sock so_rcvtimeo in
      let small : i < length t = omega arith in
      elim (Bool-cases (is_neg sock)) [
        | inl none_left ↦ rw none_left (
          false,
          t,
          h₁,
          refl,
          record { size = refl; same_addr = λ m a e. (a.sock, e); outside = λ m far. refl },
        )
        | inr got ↦ elim (Bool-cases bound) [
          | inr refused ↦
              rw (got, at, refused)
                (Opens-skip _ (
                  open_sockets-Opens rounds (i + 1) t (closes sock ∷ binds sock to false ∷ h₁)
                    (omega arith)))
          | inl is_bound ↦ elim (Bool-cases timed) [
            | inr untimed ↦
                rw (got, at, is_bound, untimed)
                  (Opens-skip _ (
                    open_sockets-Opens rounds (i + 1) t
                      (closes sock ∷ sets_option sock so_rcvtimeo false ∷ h₂) (omega arith)))
            | inl is_timed ↦
                rw (got, at, is_bound, is_timed, lt→ltb i (length t) small)
                  (Opens-set _ a sock at small (
                    open_sockets-Opens rounds (i + 1) (set t i (record a { sock = sock }))
                      (sets_option sock so_rcvtimeo true ∷ h₂)
                      (omega (arith, length-set t i (record a { sock = sock })))))
          ]
        ]
      ]
