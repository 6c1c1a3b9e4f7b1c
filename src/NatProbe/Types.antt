-- ===== src/NatProbe/Types.antt =====
-- NatProbe/nat_probe.h and `get_string_network_type` of NatProbe/nat_probe.c.
use Prim.Native.String.{String}
use edge_compute.Base.{
  ℕ, ◌≡◌, Bool, ◌||◌, Option, some, List, [], ◌∷◌, ℤ, pos, negsuc, is_neg, ltb, arith, refl,
  if◌then◌else◌, get_elem?, ◌<◌, true, false,
}

abbrev pub np_unknown : ℤ
np_unknown = pos 0

abbrev pub np_public_network : ℤ
np_public_network = pos 1

abbrev pub np_full_cone_nat : ℤ
np_full_cone_nat = pos 2

abbrev pub np_restricted_cone_nat : ℤ
np_restricted_cone_nat = pos 3

abbrev pub np_port_restricted_cone_nat : ℤ
np_port_restricted_cone_nat = pos 4

abbrev pub np_symmetric_nat : ℤ
np_symmetric_nat = pos 5

abbrev pub np_domain : String
np_domain = "t05b022.p2cdn.com"

abbrev pub np_server_port : ℕ
np_server_port = 61620

abbrev pub np_public_ip_num : ℕ
np_public_ip_num = 2

abbrev pub np_max_public_ip_num : ℕ
np_max_public_ip_num = 10

-- struct np_request_msg_t
pub record RequestMsg : Type 0 where
  pub msgid : ℤ
  pub network_type : ℤ

-- struct np_response_msg_t
pub record ResponseMsg : Type 0 where
  pub msgid : ℤ
  pub ip_addr : ℕ
  pub port : ℕ

abbrev pub names : List String
names =
    "UNKNOWN" ∷ "PUBLIC_NETWORK" ∷ "FULL_CONE_NAT" ∷ "RESTRICTED_CONE_NAT"
    ∷ "PORT_RESTRICTED_CONE_NAT" ∷ "SYMMETRIC_NAT" ∷ []

abbrev above_symmetric : ℤ → Bool
above_symmetric (pos n) = ltb 5 n
above_symmetric (negsuc n) = false

-- The table is read at the clamped value; `none` would be a read out of bounds.
table_at : ℤ → Option String
table_at (pos n) = get_elem? names n
table_at (negsuc n) = Option.none

pub get_string_network_type : ℤ → Option String
unfolding table_at
get_string_network_type network_type =
    table_at
      (if is_neg network_type || above_symmetric network_type then np_unknown else network_type)

-- The name of a type from UNKNOWN to SYMMETRIC_NAT is the table's entry of that number.
pub get_string_network_type-names :
    (n : ℕ) → n < 6 → get_string_network_type (pos n) ≡ get_elem? names n
unfolding get_string_network_type
get_string_network_type-names n h = ground arith

pub get_string_network_type-unknown :
    (t : ℤ) → (is_neg t || above_symmetric t) ≡ true → get_string_network_type t ≡ some "UNKNOWN"
unfolding get_string_network_type
get_string_network_type-unknown t h = rw h refl
