-- ===== src/NatProbe/Server/Reply.antt =====
-- Which socket answers a request: `process` over a table that `create_socket` laid out.
use edge_compute.Base.{
  ℕ, zero, suc, ◌+◌, ◌*◌, ◌%◌, ◌/◌, ◌≤◌, ◌<◌, ◌≡◌, refl, ap, ◌∙◌, inl, inr, Bool, true, false, ◌&&◌,
  some, List, [], ◌∷◌, ℤ, minus_one, int_eq, int_eq_refl, length, get_elem?, get_or, arith,
  Bool-cases, ◌==◌, ltb, if◌then◌else◌,
}
use edge_compute.Sys.{History, ok}
use edge_compute.NatProbe.Types.{np_server_port}
use edge_compute.NatProbe.Server.{
  NpAddr, NpServer, full_cone_from, restricted_from, process_full_cone_nat,
  process_restricted_cone_nat,
}
use edge_compute.NatProbe.Server.Layout.{Laid, first_sock, second_sock}

abbrev serves : ℤ → NpAddr → Bool
serves sock a = a.port == np_server_port && int_eq a.sock sock

-- No entry before `k` has the socket at the first port.
abbrev FirstAt : ℤ → List NpAddr → ℕ → Type 0
FirstAt sock rest k =
    (m : ℕ) (a : NpAddr) → m < k → get_elem? rest m ≡ some a → serves sock a ≡ false

module _ (sock : ℤ) (table : List NpAddr) (h : History) where
  full_cone_from-hit :
      (rest : List NpAddr) (i k : ℕ) (a b : NpAddr)
      → get_elem? rest k ≡ some a
      → serves sock a ≡ true
      → FirstAt sock rest k
      → get_elem? table ((i + k + 1 + 2) % length table) ≡ some b
      → full_cone_from sock table rest i h ≡ ok b.sock h
  unfolding full_cone_from
  full_cone_from-hit [] i k a b at hit before to = cc
  full_cone_from-hit (x ∷ rest) i zero a b at hit before to =
      let same : x ≡ a = cc in
      let here : i + 0 ≡ i = omega arith in
      let to' : get_elem? table ((i + 1 + 2) % length table) ≡ some b = rw here at to in
      rw (same, hit, to') refl
  full_cone_from-hit (x ∷ rest) i (suc k) a b at hit before to =
      let moved : i + suc k ≡ i + 1 + k = omega arith in
      rw (before 0 x (omega arith) refl) (
        full_cone_from-hit rest (i + 1) k a b at hit
          (λ m c small e. before (suc m) c (omega arith) e) (rw moved at to))

  restricted_from-hit :
      (rest : List NpAddr) (i k : ℕ) (a b : NpAddr)
      → get_elem? rest k ≡ some a
      → serves sock a ≡ true
      → FirstAt sock rest k
      → get_elem? table (i + k + 1) ≡ some b
      → restricted_from sock table rest i h ≡ ok b.sock h
  unfolding restricted_from
  restricted_from-hit [] i k a b at hit before to = cc
  restricted_from-hit (x ∷ rest) i zero a b at hit before to =
      let same : x ≡ a = cc in
      let here : i + 0 ≡ i = omega arith in
      let to' : get_elem? table (i + 1) ≡ some b = rw here at to in rw (same, hit, to') refl
  restricted_from-hit (x ∷ rest) i (suc k) a b at hit before to =
      let moved : i + suc k ≡ i + 1 + k = omega arith in
      rw (before 0 x (omega arith) refl) (
        restricted_from-hit rest (i + 1) k a b at hit
          (λ m c small e. before (suc m) c (omega arith) e) (rw moved at to))

-- The descriptors of the first port are distinct up to address `k`.
abbrev pub DistinctTo : List NpAddr → ℕ → Type 0
DistinctTo t k = (j : ℕ) → j < k → int_eq (first_sock t j) (first_sock t k) ≡ false

module _ {n : ℕ} {ips : List ℕ} (s : NpServer) (laid : Laid n ips s.table) (k : ℕ) (small : k < n)
    (few : n ≤ 5) (distinct : DistinctTo s.table k) where
  abbrev first_entry : NpAddr
  first_entry = record { ip = get_or ips k 0; port = np_server_port; sock = first_sock s.table k }

  abbrev second_entry : NpAddr
  second_entry = record {
    ip = get_or ips k 0;
    port = np_server_port + 1;
    sock = second_sock s.table k;
  }

  first_here : serves (first_sock s.table k) first_entry ≡ true
  first_here = int_eq_refl (first_sock s.table k)

  -- Entry `m` below `2 k` is a first port with another socket, or a second port.
  before : FirstAt (first_sock s.table k) s.table (2 * k)
  before m a lt e = elim (Bool-cases (m % 2 == 0)) [
    | inl even ↦
        let halved : 2 * (m / 2) ≡ m = ground arith in
        let found : get_elem? s.table m
            ≡ some (record {
              ip = get_or ips (m / 2) 0;
              port = np_server_port;
              sock = first_sock s.table (m / 2);
            }) =
          rw halved at (laid.first (m / 2) (omega arith)) in
        ground (arith, found, distinct (m / 2))
    | inr odd ↦
        let halved : 2 * (m / 2) + 1 ≡ m = ground arith in
        let found : get_elem? s.table m
            ≡ some (record {
              ip = get_or ips (m / 2) 0;
              port = np_server_port + 1;
              sock = second_sock s.table (m / 2);
            }) =
          rw halved at (laid.second (m / 2) (omega arith)) in
        ground (arith, found)
  ]

  -- In a table that is laid out for at most five addresses, where no earlier address has the same
  -- socket, a full cone request to the first port of address `k` is answered by the second port of
  -- the next address; for the last address there is no such socket.
  pub process_full_cone_nat-next :
      (h : History)
      → process_full_cone_nat (first_sock s.table k) s h
        ≡ ok (if ltb (k + 1) n then second_sock s.table (k + 1) else minus_one) h
  unfolding process_full_cone_nat
  process_full_cone_nat-next h =
      let b : NpAddr = record {
        ip = get_or ips (k + 1) 0;
        port = np_server_port + 1;
        sock = second_sock s.table (k + 1);
      } in
      let at : (0 + 2 * k + 1 + 2) % 20 ≡ 2 * (k + 1) + 1 = omega arith in
      let found : get_elem? s.table ((0 + 2 * k + 1 + 2) % length s.table) ≡ some b =
        rw (laid.size, at) (laid.second (k + 1) (omega arith)) in
      let run =
        full_cone_from-hit (first_sock s.table k) s.table h s.table 0 (2 * k) first_entry b
          (laid.first k (omega arith)) first_here before found in
      elim (Bool-cases (ltb (k + 1) n)) [
        | inl more ↦ rw more run
        | inr last ↦
            rw last (run ∙ ap (λ x. ok x h) (laid.spare (k + 1) (ground arith) (omega arith)).1)
      ]

  -- In the same table, a restricted cone request to the first port of address `k` is answered by
  -- the second port of the same address.
  pub process_restricted_cone_nat-same :
      (h : History)
      → process_restricted_cone_nat (first_sock s.table k) s h ≡ ok (second_sock s.table k) h
  unfolding process_restricted_cone_nat
  process_restricted_cone_nat-same h =
      restricted_from-hit (first_sock s.table k) s.table h s.table 0 (2 * k) first_entry
        second_entry (laid.first k (omega arith)) first_here before
        (let at : 0 + 2 * k + 1 ≡ 2 * k + 1 = omega arith in rw at (laid.second k (omega arith)))
