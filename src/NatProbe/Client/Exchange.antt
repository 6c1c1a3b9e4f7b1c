-- ===== src/NatProbe/Client/Exchange.antt =====
-- `np_send_and_recv_msg`: which replies it accepts, and what it leaves alone.
use edge_compute.Base.{
  ℕ, zero, suc, ◌<◌, ◌≤◌, ◌≡◌, refl, ◌∙◌, Bool, true, false, not, Option, none, some, ◌∷◌, ℤ, pos,
  length, arith, lt→ltb, int_eq→eq, minus_one, get_elem?, get_or, get_elem?-in, set, length-set,
  get_elem?-set_ne,
}
use edge_compute.Sys.{Env, Addr, History, sleeps}
use edge_compute.Sys.Returns.{Returns, returns, bind, mono, choose, Settles}
use edge_compute.Clib.{Clib}
use edge_compute.NatProbe.Types.{RequestMsg, ResponseMsg}
use edge_compute.NatProbe.Client.{NpClient, recv_msg, keep_response, is_reply, attempts}
use edge_compute.NatProbe.Client.Loops.{send_msg-Returns, recv_text-Returns}

-- The sizes of the client's arrays.
pub record IsClient (cl : NpClient) : Type 0 where
  pub requests : length cl.send_msg ≡ 2
  pub responses : length cl.recv_msg ≡ 2
  pub addresses : length cl.ip_addr ≡ 10
  pub counted : cl.ip_addr_num ≤ 10

-- Request `k` has the type `t`, and response `k` its id.
abbrev pub Matches : ℤ → ℕ → NpClient → Type 0
Matches t k cl =
    (q : RequestMsg) × (r : ResponseMsg) × (get_elem? cl.send_msg k ≡ some q)
    × (get_elem? cl.recv_msg k ≡ some r)
    × (r.msgid ≡ q.msgid)
    × (q.network_type ≡ t)

-- From `cl` to `cl'` at most response `j` changed.
pub record OnlyAt (j : ℕ) (cl cl' : NpClient) : Type 0 where
  pub sock : cl'.sock ≡ cl.sock
  pub num : cl'.ip_addr_num ≡ cl.ip_addr_num
  pub ips : cl'.ip_addr ≡ cl.ip_addr
  pub requests : cl'.send_msg ≡ cl.send_msg
  pub size : length cl'.recv_msg ≡ length cl.recv_msg
  pub others : (k : ℕ) → k < j → get_elem? cl'.recv_msg k ≡ get_elem? cl.recv_msg k

OnlyAt-refl : (j : ℕ) (cl : NpClient) → OnlyAt j cl cl
OnlyAt-refl j cl = record {
  sock = refl;
  num = refl;
  ips = refl;
  requests = refl;
  size = refl;
  others = λ k small. refl;
}

OnlyAt-trans : {j : ℕ} {a b d : NpClient} → OnlyAt j a b → OnlyAt j b d → OnlyAt j a d
OnlyAt-trans x y = record {
  sock = y.sock ∙ x.sock;
  num = y.num ∙ x.num;
  ips = y.ips ∙ x.ips;
  requests = y.requests ∙ x.requests;
  size = y.size ∙ x.size;
  others = λ k small. y.others k small ∙ x.others k small;
}

-- The outcome of the attempts for request `j`.
abbrev Tried : ℕ → NpClient → Bool × NpClient → History → Type 0
Tried j cl (right, cl') h =
    OnlyAt j cl cl'
    × (right ≡ true
        → (q : RequestMsg) × (r : ResponseMsg) × (get_elem? cl'.send_msg j ≡ some q)
          × (get_elem? cl'.recv_msg j ≡ some r)
          × (r.msgid ≡ q.msgid))

module _ {J : Type 0} (c : Clib J) (env : Env) (fuel : ℕ) (settles : Settles env fuel) where
  keep_response-OnlyAt :
      (cl : NpClient) (j : ℕ) (r : Option ResponseMsg) (h : History)
      → j < length cl.recv_msg
      → Returns (λ (x : Bool × NpClient) g. OnlyAt j cl x.1) (keep_response c env fuel cl j r h)
  unfolding keep_response
  keep_response-OnlyAt cl j none h small = returns (OnlyAt-refl j cl)
  keep_response-OnlyAt cl j (some m) h small = rw (lt→ltb j (length cl.recv_msg) small) (
      returns (record {
        sock = refl;
        num = refl;
        ips = refl;
        requests = refl;
        size = length-set cl.recv_msg j m;
        others = λ k below. get_elem?-set_ne cl.recv_msg j k m (omega arith);
      }))

  recv_msg-OnlyAt :
      (cl : NpClient) (j : ℕ) (h : History)
      → j < length cl.recv_msg
      → Returns (λ (r : Bool × NpClient) g. OnlyAt j cl r.1) (recv_msg c env fuel cl j h)
  unfolding recv_msg
  recv_msg-OnlyAt cl j h small =
      bind (recv_text-Returns c env fuel settles cl.sock h)
        λ r g u. keep_response-OnlyAt cl j r g small

  is_reply-Matches :
      (got : Bool) (cl : NpClient) (j : ℕ) (h : History)
      → j < length cl.send_msg
      → j < length cl.recv_msg
      → Returns
          (λ (right : Bool) g.
            right ≡ true
            → (q : RequestMsg) × (r : ResponseMsg) × (get_elem? cl.send_msg j ≡ some q)
              × (get_elem? cl.recv_msg j ≡ some r)
              × (r.msgid ≡ q.msgid))
          (is_reply c env fuel got cl j h)
  unfolding is_reply
  is_reply-Matches false cl j h small small' = returns (λ e. cc)
  is_reply-Matches true cl j h small small' =
      let q = get_or cl.send_msg j (record { msgid = minus_one; network_type = minus_one }) in
      let r = get_or cl.recv_msg j (record { msgid = minus_one; ip_addr = 0; port = 0 }) in
      let at =
        get_elem?-in cl.send_msg j (record { msgid = minus_one; network_type = minus_one }) small in
      let at' =
        get_elem?-in cl.recv_msg j (record { msgid = minus_one; ip_addr = 0; port = 0 }) small' in
      rw (at', at) (returns (λ e. (q, r, refl, refl, int_eq→eq r.msgid q.msgid e)))

  pub attempts-Tried :
      (n : ℕ) (cl : NpClient) (j : ℕ) (dst : Addr) (h : History)
      → j < length cl.send_msg
      → j < length cl.recv_msg
      → Returns (Tried j cl) (attempts c env fuel n cl j dst h)
  unfolding attempts
  attempts-Tried zero cl j dst h small small' = returns (OnlyAt-refl j cl, λ e. cc)
  attempts-Tried (suc n) cl j dst h small small' =
      bind (send_msg-Returns c env fuel settles cl j dst h small) λ went h₁ u.
        choose (not went) _ _ h₁ (λ e. returns (OnlyAt-refl j cl, λ e. cc))
          λ e. bind (recv_msg-OnlyAt cl j h₁ small') λ (got, cl') h₂ o.
            let room : j < length cl'.send_msg = rw o.requests small in
            let room' : j < length cl'.recv_msg = omega (arith, o.size) in
            bind (is_reply-Matches got cl' j h₂ room room') λ right h₃ m.
              choose right _ _ h₃ (λ e. returns (o, λ _. m e))
                λ e.
                  mono (attempts-Tried n cl' j dst (sleeps 1 ∷ h₃) room room')
                    λ (b, d) g (o', m'). (OnlyAt-trans o o', m')

-- What the outer loop keeps: the arrays, the socket, and the requests answered so far.
pub record Answered (t : ℤ) (num : ℕ) (cl : NpClient) (j : ℕ) (cl' : NpClient) : Type 0 where
  pub is_client : IsClient cl'
  pub sock : cl'.sock ≡ cl.sock
  pub within : j ≤ num
  pub matched : (k : ℕ) → k < j → Matches t k cl'

abbrev asking : NpClient → ℕ → ℤ → ℕ → NpClient
asking cl j t m = record cl {
  send_msg = set cl.send_msg j (record { msgid = pos m; network_type = t });
  last_msgid = m;
}
