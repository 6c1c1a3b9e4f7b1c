-- ===== src/NatProbe/Client/Loops.antt =====
-- The client's calls return: the loops on interrupted calls, and what they call.
use Prim.Native.String.{String}
use edge_compute.Base.{
  ℕ, zero, suc, ◌<◌, ◌≢◌, inl, inr, true, false, not, Option, none, some, List, [], ◌∷◌, ◌++◌, drop,
  ℤ, length, arith, Bool-cases, Option-cases, ◌==◌, int_eq, minus_one, get_or, get_elem?-in,
}
use edge_compute.Sys.{
  Env, Bytes, Addr, History, sends, receives, not_sent, not_received, eintr, opens, dgram,
  allocates,
}
use edge_compute.Sys.Returns.{
  Returns, returns, bind, choose, Settles, interrupted_sends, interrupted_receives, Sent-cases,
  Received-cases,
}
use edge_compute.Clib.{Clib}
use edge_compute.NatProbe.Client.{
  NpClient, scan_nics, scan_conf, is_local_ip, send_loop, send_msg, recv_loop, recv_text,
  parse_text, request_text,
}

abbrev pub Any {ℓ} : {A : Type ℓ} → A → History → Type 0
Any a h = Unit {0}

module _ (env : Env) where
  scan_nics-Returns :
      (ip : ℕ) (nics : List String) (h : History) → Returns Any (scan_nics env ip nics h)
  unfolding scan_nics
  scan_nics-Returns ip [] h = returns tt
  scan_nics-Returns ip (nic ∷ rest) h = elim (Option-cases (env.ifflags h nic)) [
    | inl e ↦ rw (e, scan_nics) (scan_nics-Returns ip rest h)
    | inr (true, e) ↦ rw (e, scan_nics) (scan_nics-Returns ip rest h)
    | inr (false, e) ↦
        rw (e, scan_nics)
          (elim (Option-cases (env.ifaddr h nic)) [
            | inl e' ↦ rw e' (scan_nics-Returns ip rest h)
            | inr (a, e') ↦ rw e' (elim (Bool-cases (a == ip)) [
              | inl hit ↦ rw hit (returns tt)
              | inr miss ↦ rw miss (scan_nics-Returns ip rest h)
            ])
          ])
  ]

  scan_conf-Returns :
      (ip : ℕ) (r : Option (List String)) (h : History) → Returns Any (scan_conf env ip r h)
  unfolding scan_conf
  scan_conf-Returns ip none h = returns tt
  scan_conf-Returns ip (some nics) h = scan_nics-Returns ip nics h

  pub is_local_ip-Returns : (ip : ℕ) (h : History) → Returns Any (is_local_ip env ip h)
  unfolding is_local_ip
  is_local_ip-Returns ip h =
      choose (int_eq (env.socket h dgram) minus_one) _ _ (opens dgram (env.socket h dgram) ∷ h)
        (λ e. returns tt)
        (λ e.
          bind (scan_conf-Returns ip (env.ifconf (opens dgram (env.socket h dgram) ∷ h)) _)
            λ b g u. returns tt)

module _ {J : Type 0} (c : Clib J) (env : Env) (fuel : ℕ) where
  send_loop-Returns :
      (n k : ℕ) (fd : ℤ) (msg : Bytes) (dst : Addr) (h : History)
      → k < n
      → env.sendto (interrupted_sends k fd dst msg h) fd msg dst ≢ not_sent eintr
      → Returns Any (send_loop c env fuel n fd msg dst h)
  unfolding send_loop
  send_loop-Returns zero k fd msg dst h small ends = absurd (omega arith)
  send_loop-Returns (suc n) zero fd msg dst h small ends =
      elim (Sent-cases (env.sendto h fd msg dst)) [
        | inl e ↦ absurd (ends e)
        | inr (inl (m, e)) ↦ rw e (returns tt)
        | inr (inr (inl e)) ↦ rw e (returns tt)
        | inr (inr (inr e)) ↦ rw e (returns tt)
      ]
  send_loop-Returns (suc n) (suc k) fd msg dst h small ends =
      elim (Sent-cases (env.sendto h fd msg dst)) [
        | inl e ↦ rw e (
            send_loop-Returns n k fd msg dst (sends fd dst msg (not_sent eintr) ∷ h) (omega arith)
              ends)
        | inr (inl (m, e)) ↦ rw e (returns tt)
        | inr (inr (inl e)) ↦ rw e (returns tt)
        | inr (inr (inr e)) ↦ rw e (returns tt)
      ]

  recv_loop-Returns :
      (n k : ℕ) (fd : ℤ) (h : History)
      → k < n
      → env.recvfrom (interrupted_receives k fd h) fd 128 ≢ not_received eintr
      → Returns Any (recv_loop c env fuel n fd h)
  unfolding recv_loop
  recv_loop-Returns zero k fd h small ends = absurd (omega arith)
  recv_loop-Returns (suc n) zero fd h small ends = elim (Received-cases (env.recvfrom h fd 128)) [
    | inl e ↦ absurd (ends e)
    | inr (inl (b, from, e)) ↦ rw e (returns tt)
    | inr (inr (inl e)) ↦ rw e (returns tt)
    | inr (inr (inr e)) ↦ rw e (returns tt)
  ]
  recv_loop-Returns (suc n) (suc k) fd h small ends =
      elim (Received-cases (env.recvfrom h fd 128)) [
        | inl e ↦
            rw e
              (recv_loop-Returns n k fd (receives fd (not_received eintr) ∷ h) (omega arith) ends)
        | inr (inl (b, from, e)) ↦ rw e (returns tt)
        | inr (inr (inl e)) ↦ rw e (returns tt)
        | inr (inr (inr e)) ↦ rw e (returns tt)
      ]

  parse_text-Returns : (r : Option Bytes) (h : History) → Returns Any (parse_text c env fuel r h)
  unfolding parse_text
  parse_text-Returns none h = returns tt
  parse_text-Returns (some bytes) h =
      elim (Option-cases (c.parse (bytes ++ drop (length bytes) (env.garbage h)))) [
        | inl e ↦ rw (e, parse_text) (returns tt)
        | inr (root, e) ↦ rw (e, parse_text) (returns tt)
      ]

  module _ (settles : Settles env fuel) where
    pub send_msg-Returns :
        (cl : NpClient) (j : ℕ) (dst : Addr) (h : History)
        → j < length cl.send_msg
        → Returns Any (send_msg c env fuel cl j dst h)
    unfolding send_msg
    send_msg-Returns cl j dst h small =
        let m = get_or cl.send_msg j (record { msgid = minus_one; network_type = minus_one }) in
        let (k, below, ends) = settles.sends_settle cl.sock dst (request_text c env fuel m) h in
        rw
          (get_elem?-in cl.send_msg j (record { msgid = minus_one; network_type = minus_one })
            small)
          (send_loop-Returns fuel k cl.sock (request_text c env fuel m) dst h below ends)

    pub recv_text-Returns : (fd : ℤ) (h : History) → Returns Any (recv_text c env fuel fd h)
    unfolding recv_text
    recv_text-Returns fd h =
        choose (not (env.alloc h 128)) _ _ (allocates 128 (env.alloc h 128) ∷ h) (λ e. returns tt)
          λ e.
            let (k, below, ends) =
              settles.receives_settle fd 128 (allocates 128 (env.alloc h 128) ∷ h) in
            bind (recv_loop-Returns fuel k fd _ below ends) λ r g u. parse_text-Returns r g
