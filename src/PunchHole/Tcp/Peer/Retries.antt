-- ===== src/PunchHole/Tcp/Peer/Retries.antt =====
-- The descriptors that the retries of `connect_peer` open and close.
use edge_compute.Base.{
  ℕ, zero, suc, ◌+◌, ◌≡◌, ◌≢◌, ◌≤◌, refl, ◌∙◌, Bool, true, false, not, Option, none, some, [], ◌∷◌,
  ◌==◌, arith, ℤ, pos, negsuc, is_neg, lt→ltb, List, ap, int_eq, if◌then◌else◌, ==_refl,
}
use Prim.Native.Nat.{bit_and}
use edge_compute.Sys.{Env, Addr, Event, Errno, History, opens, binds, stream}
use edge_compute.Sys.Returns.{Returns, returns, bind, mono, choose}
use edge_compute.PunchHole.Wire.{MsgDeviceInfo}
use edge_compute.PunchHole.Common.{
  safe_close, set_sock_opt, set_flag, so_reuseaddr, so_reuseport, so_keepalive,
}
use edge_compute.PunchHole.Tcp.Peer.{
  Client, connected, waits, try_connect, connect_rounds, connect_peer,
}

-- The calls of `socket` that made a descriptor.
unfoldable pub opened : History → ℕ
opened [] = 0
opened (Event.opens k (pos fd) ∷ h) = suc (opened h)
opened (_ ∷ h) = opened h

abbrev pub remove_fd : ℤ → List ℤ → List ℤ
remove_fd fd [] = []
remove_fd fd (x ∷ fds) = if int_eq fd x then fds else x ∷ remove_fd fd fds

-- The descriptors of sockets that are open after a history, the newest first.
unfoldable pub open_fds : History → List ℤ
open_fds [] = []
open_fds (Event.opens k (pos fd) ∷ h) = pos fd ∷ open_fds h
open_fds (Event.closes fd ∷ h) = remove_fd fd (open_fds h)
open_fds (_ ∷ h) = open_fds h

-- With what `socket` returned: a descriptor, or nothing after a failure.
abbrev pub hold : ℤ → List ℤ → List ℤ
hold (pos fd) fds = pos fd ∷ fds
hold (negsuc n) fds = fds

abbrev pub Same : History → History → Type 0
Same h g = (opened g ≡ opened h) × (open_fds g ≡ open_fds h)

module _ (env : Env) where
  set_flag-Same :
      (sock : ℤ) (flag option : ℕ) (h : History)
      → Returns (λ (b : Bool) g. Same h g) (set_flag env sock flag option h)
  unfolding set_flag opened open_fds
  set_flag-Same sock flag option h =
      choose (bit_and flag option == 0) _ _ h (λ e. returns (refl, refl))
        (λ e. returns (refl, refl))

  pub set_sock_opt-Same :
      (sock : ℤ) (flag : ℕ) (h : History)
      → Returns (λ (b : Bool) g. Same h g) (set_sock_opt env sock flag h)
  unfolding set_sock_opt
  set_sock_opt-Same sock flag h = bind (set_flag-Same sock flag so_reuseaddr h) λ a g (o, c).
      choose (not a) _ _ g (λ e. returns (o, c))
        λ e. bind (set_flag-Same sock flag so_reuseport g) λ b g' (o', c').
          choose (not b) _ _ g' (λ e'. returns (o' ∙ o, c' ∙ c))
            λ e'.
              mono (set_flag-Same sock flag so_keepalive g')
                λ d g'' (o'', c''). (o'' ∙ o' ∙ o, c'' ∙ c' ∙ c)

  connected-Same :
      (sock : ℤ) (e : Option Errno) (h : History)
      → Returns (λ (b : Bool) g. Same h g) (connected env sock e h)
  unfolding connected opened open_fds
  connected-Same sock none h = returns (refl, refl)
  connected-Same sock (some e) h =
      choose (waits env e) _ _ h (λ x. returns (refl, refl)) (λ x. returns (refl, refl))

  try_connect-Same :
      (sock : ℤ) (here there : Addr) (h : History)
      → Returns
          (λ (done : Bool) g. Same h g × (done ≡ true → is_neg sock ≡ false))
          (try_connect env sock here there h)
  unfolding try_connect opened open_fds
  try_connect-Same sock here there h =
      choose (is_neg sock) _ _ h (λ e. returns ((refl, refl), λ x. cc))
        λ e. bind (set_sock_opt-Same sock _ h) λ a g same.
          choose (not a) _ _ g (λ e'. returns (same, λ x. e))
            λ e'.
              choose (not (env.bind g sock here)) _ _ (binds sock here (env.bind g sock here) ∷ g)
                (λ e''. returns (same, λ x. e))
                λ e''.
                  mono (connected-Same sock _ _)
                    λ done g' (o, c). ((o ∙ same.0, c ∙ same.1), λ x. e)

  -- The same descriptors are open as before, and the one that is returned.
  abbrev pub Balanced : History → ℕ → ℤ → History → Type 0
  Balanced h tries sock g = (open_fds g ≡ hold sock (open_fds h)) × (opened g ≤ opened h + tries)

  pub socket-hold :
      (s : ℤ) (h : History)
      → (open_fds (opens stream s ∷ h) ≡ hold s (open_fds h))
        × (opened (opens stream s ∷ h) ≤ opened h + 1)
  unfolding opened open_fds
  socket-hold (pos n) h = (refl, omega arith)
  socket-hold (negsuc n) h = (refl, omega arith)

  pub safe_close-hold :
      (s : ℤ) (fds : List ℤ) (h : History)
      → s ≢ pos 0
      → open_fds h ≡ hold s fds
      → Returns (λ _ g. (opened g ≡ opened h) × (open_fds g ≡ fds)) (safe_close s h)
  unfolding safe_close opened open_fds
  safe_close-hold (pos zero) fds h ne e = absurd (ne refl)
  safe_close-hold (pos (suc n)) fds h ne e =
      rw (lt→ltb 0 (suc n) (omega arith)) (returns (refl, rw (e, ==_refl (suc n)) refl))
  safe_close-hold (negsuc n) fds h ne e = returns (refl, e)

  connect_rounds-Balanced :
      (n : ℕ) (here there : Addr) (h : History)
      → ((g : History) → env.socket g stream ≢ pos 0)
      → Returns (Balanced h n) (connect_rounds env n here there h)
  unfolding connect_rounds
  connect_rounds-Balanced zero here there h ne = returns (refl, omega arith)
  connect_rounds-Balanced (suc n) here there h ne =
      let s = env.socket h stream in
      let h₁ = opens stream s ∷ h in
      let (held, one) = socket-hold s h in
      bind (try_connect-Same s here there h₁) λ done g ((o, c), good).
        choose done _ _ g (λ e. returns (c ∙ held, omega (arith, o, one)))
          λ e. bind (safe_close-hold s (open_fds h) g (ne h) (c ∙ held)) λ _ g' (o', c').
            mono (connect_rounds-Balanced n here there g' ne)
              λ r g'' (b, few). (b ∙ ap (hold r) c', omega (arith, o, one, o', few))

  -- If `socket` never returns descriptor 0, a call of `connect_peer` ends. The descriptors that are
  -- open then are those that were open before and the one that it returns, if it returns one; and
  -- it opened nine at most.
  pub connect_peer-Balanced :
      (cl : Client) (d : MsgDeviceInfo) (h : History)
      → ((g : History) → env.socket g stream ≢ pos 0)
      → Returns (Balanced h 9) (connect_peer env cl d h)
  unfolding connect_peer
  connect_peer-Balanced cl d h ne = connect_rounds-Balanced 9 _ _ h ne
