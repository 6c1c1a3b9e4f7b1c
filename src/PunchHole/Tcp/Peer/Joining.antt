-- ===== src/PunchHole/Tcp/Peer/Joining.antt =====
-- The descriptor that `connect_server` opens: kept on success, closed on every failure.
use edge_compute.Base.{
  ℕ, ◌≡◌, ◌≢◌, ◌⊎◌, refl, ◌∙◌, List, negsuc, Bool, true, false, not, Option, none, some, ◌∷◌, arith,
  Option-cases, inl, inr, ℤ, pos, minus_one, int_eq, is_neg, is_pos,
}
use edge_compute.Sys.{Env, History, opens, binds, connects, stream}
use edge_compute.Sys.Returns.{Returns, returns, bind, choose}
use edge_compute.PunchHole.Common.{generate_server_addr}
use edge_compute.PunchHole.Tcp.Peer.{
  Client, connect_server, keep_bev, server_failed, server_ip, all_options, local_addr,
}
use edge_compute.PunchHole.Tcp.Peer.Retries.{
  opened, open_fds, hold, Same, set_sock_opt-Same, safe_close-hold, socket-hold,
}

-- After a success the new descriptor is open and the record holds it, beside the connection that
-- libevent made of it; after a failure the same descriptors are open as before, and the record is
-- as before.
abbrev pub Joined : Env → ℤ → Client → History → Bool × Client → History → Type 0
Joined env sock cl h (true, cl') g =
    (bev : ℕ) × (env.bufferevent_new g sock ≡ some bev)
    × (cl' ≡ record cl { conn_server_sock = sock; ping_bev = some bev })
    × (open_fds g ≡ sock ∷ open_fds h)
Joined env sock cl h (false, cl') g = (cl' ≡ cl) × (open_fds g ≡ open_fds h)

hold-cons : (sock : ℤ) (fds : List ℤ) → is_neg sock ≡ false → hold sock fds ≡ sock ∷ fds
hold-cons (pos n) fds e = refl
hold-cons (negsuc n) fds e = cc

module _ (env : Env) (cl : Client) (h : History) where
  server_failed-Joined :
      (sock : ℤ) (g : History)
      → sock ≢ pos 0
      → Same (opens stream sock ∷ h) g
      → Returns (Joined env sock cl h) (server_failed env sock cl g)
  unfolding server_failed
  server_failed-Joined sock g ne (o, c) =
      bind (safe_close-hold env sock (open_fds h) g ne (c ∙ (socket-hold env sock h).0))
        λ _ g' (o', c'). returns (refl, c')

  keep_bev-Joined :
      (sock : ℤ) (bev : Option ℕ) (g : History)
      → env.bufferevent_new g sock ≡ bev
      → sock ≢ pos 0
      → is_neg sock ≡ false
      → Same (opens stream sock ∷ h) g
      → Returns (Joined env sock cl h) (keep_bev env sock cl bev g)
  unfolding keep_bev
  keep_bev-Joined sock none g made ne held same = server_failed-Joined sock g ne same
  keep_bev-Joined sock (some b) g made ne held (o, c) =
      returns (b, made, refl, c ∙ (socket-hold env sock h).0 ∙ hold-cons sock (open_fds h) held)

  -- If `socket` returns -1 or a descriptor above 0, `connect_server` ends. After a success the open
  -- descriptors are the new one and those from before, and the record holds the new descriptor and
  -- the connection that `bufferevent_socket_new` made of it; after a failure the same descriptors
  -- are open as before, and the record is as before.
  pub connect_server-Joined :
      (env.socket h stream ≡ minus_one) ⊎ (is_pos (env.socket h stream) ≡ true)
      → Returns (Joined env (env.socket h stream) cl h) (connect_server env cl h)
  unfolding connect_server opened open_fds
  connect_server-Joined made =
      let sock = env.socket h stream in
      let h₁ = opens stream sock ∷ h in
      let ne : sock ≢ pos 0 = ground arith in
      choose (int_eq sock minus_one) _ _ h₁ (λ e. server_failed-Joined sock h₁ ne (refl, refl))
        λ e.
          let held : is_neg sock ≡ false = ground arith in
          bind (set_sock_opt-Same env sock all_options h₁) λ a g (o, c).
            choose (not a) _ _ g (λ e'. server_failed-Joined sock g ne (o, c))
              λ e'.
                let g₁ = binds sock (local_addr env cl) (env.bind g sock (local_addr env cl)) ∷ g in
                choose (not (env.bind g sock (local_addr env cl))) _ _ g₁
                  (λ e''. server_failed-Joined sock g₁ ne (o, c))
                  λ e''.
                    let there = generate_server_addr env server_ip in
                    elim (Option-cases (env.connect g₁ sock there)) [
                      | inl joined ↦ rw joined (
                          keep_bev-Joined sock _ (connects sock there none ∷ g₁) refl ne held
                            (o, c))
                      | inr (err, failed) ↦ rw failed (
                          server_failed-Joined sock (connects sock there (some err) ∷ g₁) ne (o, c))
                    ]
