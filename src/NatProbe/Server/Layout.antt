-- ===== src/NatProbe/Server/Layout.antt =====
-- `create_socket` as a whole: the socket table that it leaves for `n` server addresses.
use edge_compute.Base.{
  ℕ, ◌+◌, ◌*◌, ◌≤◌, ◌<◌, ◌≡◌, refl, ap, ◌∙◌, Bool, true, false, some, List, ◌∷◌, ℤ, pos, minus_one,
  length, get_elem?, get_or, get_or-of, arith, take, length-take, replicate, overlay,
  length-overlay,
}
use edge_compute.Sys.{Env, History, Run, ok, out_of_bounds, resolves}
use edge_compute.Clib.{Clib}
use edge_compute.NatProbe.Types.{np_server_port, np_domain}
use edge_compute.NatProbe.Dns.{np_get_server_ip, np_get_server_ip-enough}
use edge_compute.NatProbe.Server.{NpAddr, NpServer, create_socket, fill_table, open_sockets}
use edge_compute.NatProbe.Server.Table.{unbound, Filled, fill_table-Filled, fill_table-out}
use edge_compute.NatProbe.Server.Close.{closings, destroy_socket-closings}
use edge_compute.NatProbe.Server.Open.{Opened, open_sockets-Opens}

-- The descriptors of the two ports of address `k`.
abbrev pub first_sock : List NpAddr → ℕ → ℤ
first_sock t k = (get_or t (2 * k) (unbound 0 0)).sock

abbrev pub second_sock : List NpAddr → ℕ → ℤ
second_sock t k = (get_or t (2 * k + 1) (unbound 0 0)).sock

-- A table for `n` addresses: entries `2 k` and `2 k + 1` are address `k` at the two ports. The `n`
-- pairs that follow the last address stay without a socket.
pub record Laid (n : ℕ) (ips : List ℕ) (t : List NpAddr) : Type 0 where
  pub size : length t ≡ 20
  pub first :
      (k : ℕ)
      → k < 2 * n
      → get_elem? t (2 * k)
        ≡ some (record { ip = get_or ips k 0; port = np_server_port; sock = first_sock t k })
  pub second :
      (k : ℕ)
      → k < 2 * n
      → get_elem? t (2 * k + 1)
        ≡ some (record { ip = get_or ips k 0; port = np_server_port + 1; sock = second_sock t k })
  pub spare :
      (k : ℕ) → n ≤ k → k < 2 * n → (first_sock t k ≡ minus_one) × (second_sock t k ≡ minus_one)

Opened-Laid :
    (n : ℕ) (ips : List ℕ) {t t' t'' : List NpAddr}
    → length t ≡ 20
    → Filled (n * 2) 0 0 ips t t'
    → Opened (n * 2) 0 t' t''
    → Laid n ips t''
Opened-Laid n ips {t} {t'} {t''} size f o = record {
  size = o.size ∙ f.size ∙ size;
  first = λ k small.
      let (s, e) = o.same_addr (2 * k) _ (at_first k small) in
      rw (first_sock, get_or-of t'' (2 * k) (unbound 0 0) _ e) e;
  second = λ k small.
      let (s, e) = o.same_addr (2 * k + 1) _ (at_second k small) in
      rw (second_sock, get_or-of t'' (2 * k + 1) (unbound 0 0) _ e) e;
  spare = λ k far small. (
    ap (λ (a : NpAddr). a.sock)
        (get_or-of t'' (2 * k) (unbound 0 0) _
          (o.outside (2 * k) (omega arith) ∙ at_first k small)),
    ap (λ (a : NpAddr). a.sock)
        (get_or-of t'' (2 * k + 1) (unbound 0 0) _
          (o.outside (2 * k + 1) (omega arith) ∙ at_second k small)),
  );
}
  where
    at_first :
        (k : ℕ) → k < 2 * n → get_elem? t' (2 * k) ≡ some (unbound (get_or ips k 0) np_server_port)
    at_first k small = grind (arith, f.first k)

    at_second :
        (k : ℕ)
        → k < 2 * n
        → get_elem? t' (2 * k + 1) ≡ some (unbound (get_or ips k 0) (np_server_port + 1))
    at_second k small = grind (arith, f.second k)

-- How `create_socket` ends after its second loop.
abbrev ended : NpServer → Bool → List NpAddr → History → Run (ℤ × NpServer)
ended s true t h = ok (pos 0, record s { table = t }) h
ended s false t h = ok (minus_one, record s { table = t }) (closings t h)

abbrev code_of : Bool → ℤ
code_of true = pos 0
code_of false = minus_one

module _ {J : Type 0} (c : Clib J) (env : Env) where
  create_socket-ended :
      (s : NpServer) (ips : List ℕ) (n : ℕ) (done : Bool) {t' t'' : List NpAddr} (h : History)
      {h₁ h' : History}
      → np_get_server_ip env np_domain (replicate 10 0) 10 0 h
        ≡ ok (record { retval = pos 0; pip_addr = ips; ret_ip_num = n }) h₁
      → fill_table (n * 2) 0 0 ips s.table h₁ ≡ ok t' h₁
      → open_sockets c env (n * 2) 0 t' h₁ ≡ ok (done, t'') h'
      → create_socket c env s h ≡ ended s done t'' h'
  unfolding create_socket
  create_socket-ended s ips n true h resolved filled opened = rw (resolved, filled, opened) refl
  create_socket-ended s ips n false {t''} h {h'} resolved filled opened =
      rw (resolved, filled, opened, destroy_socket-closings t'' h') refl

  ended-ok :
      (s : NpServer) (done : Bool) (t : List NpAddr) (h : History)
      → (h' : History) × (ended s done t h ≡ ok (code_of done, record s { table = t }) h')
  ended-ok s true t h = (h, refl)
  ended-ok s false t h = (closings t h, refl)

  -- With a table of 20 entries and two to five addresses, `create_socket` stays within its arrays,
  -- whatever the socket calls answer, and leaves the table laid out.
  pub create_socket-Laid :
      (s : NpServer) (answers : List ℕ) (h : History)
      → length s.table ≡ 20
      → 2 ≤ length answers
      → length answers ≤ 5
      → env.getaddrinfo h np_domain ≡ some answers
      → (code : ℤ) × (s' : NpServer) × (h' : History) × (create_socket c env s h ≡ ok (code, s') h')
        × Laid (length answers) (overlay answers (replicate 10 0)) s'.table
  create_socket-Laid s answers h size few room e =
      let buf : List ℕ = replicate 10 0 in
      let counted : length (take 10 answers) ≡ length answers =
        omega (arith, length-take 10 answers) in
      let resolved =
        np_get_server_ip-enough env np_domain buf answers 0 h (omega arith) (omega arith) e in
      let n = length answers in
      let ips = overlay answers buf in
      let (t', filled, f) =
        fill_table-Filled ips (resolves (some answers) ∷ h) (n * 2) 0 0 s.table
          (omega (arith, length-overlay answers buf)) (omega arith) in
      let (done, t'', h', opened, o) =
        open_sockets-Opens c env (n * 2) 0 t' (resolves (some answers) ∷ h)
          (omega (arith, f.size)) in
      let run = create_socket-ended s ips n done h (rw counted at resolved) filled opened in
      let (last, e') = ended-ok s done t'' h' in
      (code_of done, record s { table = t'' }, last, run ∙ e', Opened-Laid n ips size f o)

  -- With a table of 20 entries and six addresses or more, `create_socket` makes an access outside
  -- its arrays.
  pub create_socket-out :
      (s : NpServer) (answers : List ℕ) (h : History)
      → length s.table ≡ 20
      → 6 ≤ length answers
      → env.getaddrinfo h np_domain ≡ some answers
      → create_socket c env s h ≡ out_of_bounds (resolves (some answers) ∷ h)
  unfolding create_socket
  create_socket-out s answers h size many e =
      let buf : List ℕ = replicate 10 0 in
      let n = length (take 10 answers) in
      let resolved =
        np_get_server_ip-enough env np_domain buf answers 0 h
          (omega (arith, length-take 10 answers)) (omega arith) e in
      let out =
        fill_table-out (overlay answers buf) (resolves (some answers) ∷ h) (n * 2) 0 0 s.table
          (omega (arith, length-overlay answers buf, length-take 10 answers)) (omega arith) refl
          (omega (arith, length-overlay answers buf)) in
      rw (resolved, out) refl
