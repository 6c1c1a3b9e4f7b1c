-- ===== src/NatProbe/Client/Probe.antt =====
-- The five tests and the probe: what type they name, and that the socket is closed.
use edge_compute.Base.{◌≡◌, ◌≢◌, ◌⊎◌, Option, none, some, List, [], ◌∷◌, ℤ, get_elem?}
use edge_compute.Sys.{History, M, closes}
use edge_compute.Sys.Returns.{Returns}
use edge_compute.Clib.{Clib}
use edge_compute.NatProbe.Types.{
  ResponseMsg, np_public_network, np_symmetric_nat, np_full_cone_nat, np_restricted_cone_nat,
  np_port_restricted_cone_nat,
}
use edge_compute.NatProbe.Client.{NpClient}
use edge_compute.NatProbe.Client.Exchange.{IsClient, Matches}

-- A test for the type `t` keeps the client in shape, and names `t` or nothing.
abbrev pub Tests : ℤ → NpClient → Option ℤ × NpClient → Type 0
Tests t cl (found, cl') = IsClient cl' × (cl'.sock ≡ cl.sock) × ((found ≡ none) ⊎ (found ≡ some t))

-- Two responses that a symmetric NAT tells apart.
abbrev pub Differ : ResponseMsg → ResponseMsg → Type 0
Differ r₁ r₂ = (r₁.ip_addr ≢ r₂.ip_addr) ⊎ (r₁.port ≢ r₂.port)

abbrev pub Judged : Option ℤ × NpClient → Type 0
Judged (found, cl) =
    (found ≡ none)
    ⊎ ((found ≡ some np_symmetric_nat)
        × ((r₁ : ResponseMsg) × (r₂ : ResponseMsg) × (get_elem? cl.recv_msg 0 ≡ some r₁)
            × (get_elem? cl.recv_msg 1 ≡ some r₂)
            × Differ r₁ r₂)
        × Matches np_symmetric_nat 0 cl
        × Matches np_symmetric_nat 1 cl)

abbrev pub NamedBy : List ℤ → ℤ → Type 0
NamedBy [] t = ⊥
NamedBy (x ∷ xs) t = (t ≡ x) ⊎ NamedBy xs t

-- Each test of the second list is one for the type that stands in its place in the first.
abbrev TestsFor : List ℤ → List (NpClient → M (Option ℤ × NpClient)) → Type 0
TestsFor [] [] = Unit {0}
TestsFor (t ∷ ts) (f ∷ fs) =
    ((cl : NpClient) (h : History) → IsClient cl → Returns (λ r g. Tests t cl r) (f cl h))
    × TestsFor ts fs
TestsFor _ _ = ⊥

-- The types that the probe can find, in the order of its tests.
abbrev pub found_types : List ℤ
found_types =
    np_public_network ∷ np_symmetric_nat ∷ np_full_cone_nat ∷ np_restricted_cone_nat
    ∷ np_port_restricted_cone_nat ∷ []

abbrev Found : List ℤ → NpClient → Option ℤ × NpClient → Type 0
Found types cl (found, cl') =
    (cl'.sock ≡ cl.sock) × ((found ≡ none) ⊎ ((t : ℤ) × (found ≡ some t) × NamedBy types t))

-- The run ended by closing `fd`, and left the type `s` or recorded one of the five.
abbrev pub Closed : ℤ → ℤ → ℤ → History → Type 0
Closed s fd s' g = ((g' : History) × (g ≡ closes fd ∷ g')) × ((s' ≡ s) ⊎ NamedBy found_types s')
