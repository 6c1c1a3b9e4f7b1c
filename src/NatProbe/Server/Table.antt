-- ===== src/NatProbe/Server/Table.antt =====
-- The two loops of `create_socket` on the socket table: what they write, and where they leave it.
use edge_compute.Base.{
  ℕ, zero, suc, ◌+◌, ◌*◌, ◌≤◌, ◌<◌, ◌≡◌, refl, ◌∙◌, ◌⊎◌, inl, inr, some, List, minus_one, length,
  set, get_elem?, get_or, arith, ltb, lt→ltb, ltb→lt, Bool-cases, length-set, get_elem?-set_self,
  get_elem?-set_ne, get_elem?-in, get_elem?-out,
}
use edge_compute.Sys.{History, ok, out_of_bounds}
use edge_compute.NatProbe.Types.{np_server_port}
use edge_compute.NatProbe.Server.{NpAddr, fill_table}

abbrev pub unbound : ℕ → ℕ → NpAddr
unbound ip port = record { ip = ip; port = port; sock = minus_one }

-- What the first loop makes of the table: from entry `j` on, two entries for each address.
pub record Filled (rounds i j : ℕ) (tmp : List ℕ) (t t' : List NpAddr) : Type 0 where
  pub size : length t' ≡ length t
  pub first :
      (k : ℕ)
      → k < rounds
      → get_elem? t' (j + 2 * k) ≡ some (unbound (get_or tmp (i + k) 0) np_server_port)
  pub second :
      (k : ℕ)
      → k < rounds
      → get_elem? t' (j + 2 * k + 1) ≡ some (unbound (get_or tmp (i + k) 0) (np_server_port + 1))
  pub outside : (m : ℕ) → (m < j) ⊎ (j + 2 * rounds ≤ m) → get_elem? t' m ≡ get_elem? t m

module _ (tmp : List ℕ) (h : History) where
  Filled-step :
      (rounds i j : ℕ) (t t' : List NpAddr)
      → j + 2 * suc rounds ≤ length t
      → Filled rounds
          (i + 1)
          (j + 2)
          tmp
          (set
            (set t j (unbound (get_or tmp i 0) np_server_port))
            (j + 1)
            (unbound (get_or tmp i 0) (np_server_port + 1)))
          t'
      → Filled (suc rounds) i j tmp t t'
  Filled-step rounds i j t t' room f = record {
    size = f.size ∙ length-set (set t j a) (j + 1) b ∙ length-set t j a;
    first = at_first;
    second = at_second;
    outside = λ m far.
        f.outside m (omega arith)
        ∙ get_elem?-set_ne (set t j a) (j + 1) m b (omega arith)
        ∙ get_elem?-set_ne t j m a (omega arith);
  }
    where
      a : NpAddr
      a = unbound (get_or tmp i 0) np_server_port

      b : NpAddr
      b = unbound (get_or tmp i 0) (np_server_port + 1)

      at_first :
          (k : ℕ)
          → k < suc rounds
          → get_elem? t' (j + 2 * k) ≡ some (unbound (get_or tmp (i + k) 0) np_server_port)
      at_first zero small =
          let here : get_elem? t' j ≡ some a =
            f.outside j (omega arith)
            ∙ get_elem?-set_ne (set t j a) (j + 1) j b (omega arith)
            ∙ get_elem?-set_self t j a (omega arith) in
          let at : j + 2 * 0 ≡ j = omega arith in
          let from : i + 0 ≡ i = omega arith in rw (at, from) here
      at_first (suc k) small = grind (arith, f.first k)

      at_second :
          (k : ℕ)
          → k < suc rounds
          → get_elem? t' (j + 2 * k + 1)
            ≡ some (unbound (get_or tmp (i + k) 0) (np_server_port + 1))
      at_second zero small =
          let here : get_elem? t' (j + 1) ≡ some b =
            f.outside (j + 1) (omega arith)
            ∙ get_elem?-set_self (set t j a) (j + 1) b (omega (arith, length-set t j a)) in
          let at : j + 2 * 0 + 1 ≡ j + 1 = omega arith in
          let from : i + 0 ≡ i = omega arith in rw (at, from) here
      at_second (suc k) small = grind (arith, f.second k)

  -- With room for two entries a round, the first loop of `create_socket` returns.
  pub fill_table-Filled :
      (rounds i j : ℕ) (t : List NpAddr)
      → i + rounds ≤ length tmp
      → j + 2 * rounds ≤ length t
      → (t' : List NpAddr) × (fill_table rounds i j tmp t h ≡ ok t' h) × Filled rounds i j tmp t t'
  unfolding fill_table
  fill_table-Filled zero i j t inside room = (
    t,
    refl,
    record {
      size = refl;
      first = λ k small. elim small [ ];
      second = λ k small. elim small [ ];
      outside = λ m far. refl;
    },
  )
  fill_table-Filled (suc rounds) i j t inside room =
      let a = unbound (get_or tmp i 0) np_server_port in
      let b = unbound (get_or tmp i 0) (np_server_port + 1) in
      let t₂ = set (set t j a) (j + 1) b in
      let (t', done, f) =
        fill_table-Filled rounds (i + 1) (j + 2) t₂ (omega arith)
          (omega (arith, length-set t j a, length-set (set t j a) (j + 1) b)) in
      (
        t',
        rw
            (
              get_elem?-in tmp i 0 (omega arith),
              lt→ltb j (length t) (omega arith),
              lt→ltb (j + 1) (length (set t j a)) (omega (arith, length-set t j a)),
            )
            done,
        Filled-step rounds i j t t' room f,
      )

  -- With a table twice as long as the address buffer, more rounds than addresses read past the buffer.
  pub fill_table-out :
      (rounds i j : ℕ) (t : List NpAddr)
      → length tmp < i + rounds
      → i ≤ length tmp
      → j ≡ 2 * i
      → length t ≡ 2 * length tmp
      → fill_table rounds i j tmp t h ≡ out_of_bounds h
  unfolding fill_table
  fill_table-out zero i j t many inside e size = absurd (omega arith)
  fill_table-out (suc rounds) i j t many inside e size = elim (Bool-cases (ltb i (length tmp))) [
    | inl more ↦
        let small : i < length tmp = ltb→lt i (length tmp) more in
        let a = unbound (get_or tmp i 0) np_server_port in
        let b = unbound (get_or tmp i 0) (np_server_port + 1) in
        rw
          (
            get_elem?-in tmp i 0 small,
            lt→ltb j (length t) (omega arith),
            lt→ltb (j + 1) (length (set t j a)) (omega (arith, length-set t j a)),
          )
          (fill_table-out rounds (i + 1) (j + 2) (set (set t j a) (j + 1) b) (omega arith)
            (omega arith) (omega arith)
            (length-set (set t j a) (j + 1) b ∙ length-set t j a ∙ size))
    | inr all ↦ rw (get_elem?-out tmp i (ground arith)) refl
  ]
