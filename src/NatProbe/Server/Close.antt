-- ===== src/NatProbe/Server/Close.antt =====
-- `destroy_socket` of NatProbe/nat_probe_server.c.
use edge_compute.Base.{◌≡◌, refl, List, [], ◌∷◌, is_neg, if◌then◌else◌, Bool-cases, inl, inr}
use edge_compute.Sys.{History, closes, ok}
use edge_compute.NatProbe.Server.{NpAddr, destroy_socket}

-- The history after each descriptor that is not negative was closed, in the table's order.
unfoldable pub closings : List NpAddr → History → History
closings [] h = h
closings (a ∷ rest) h = closings rest (if is_neg a.sock then h else closes a.sock ∷ h)

pub destroy_socket-closings :
    (t : List NpAddr) (h : History) → destroy_socket t h ≡ ok tt (closings t h)
unfolding destroy_socket closings
destroy_socket-closings [] h = refl
destroy_socket-closings (a ∷ rest) h = elim (Bool-cases (is_neg a.sock)) [
  | inl free ↦ rw free (destroy_socket-closings rest h)
  | inr held ↦ rw held (destroy_socket-closings rest (closes a.sock ∷ h))
]
