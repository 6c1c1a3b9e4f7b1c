-- ===== src/PunchHole/Common.antt =====
-- p2p_transfer.c and the macros of p2p_transfer.h, over UDP.
use Prim.Native.String.{String}
use Prim.Native.Nat.{bit_and}
use edge_compute.Base.{
  ℕ, Bool, true, false, not, Option, none, some, List, [], ◌∷◌, ◌==◌, ltb, ℤ, pos, negsuc, is_pos,
  if◌then◌else◌, get_elem?,
}
use edge_compute.Sys.{
  Env, Bytes, Addr, addr, M, Sent, sent, not_sent, Received, received, not_received, eintr, sendto,
  setsockopt, pure, ◌>>=◌, close,
}
use edge_compute.PunchHole.Wire.{MsgDeviceInfo}

abbrev pub p2p_transfer_server_port : ℕ
p2p_transfer_server_port = 7172

abbrev pub p2p_transfer_max_msg_length : ℕ
p2p_transfer_max_msg_length = 128

-- The commands, in the order of their enumeration.
abbrev pub p2p_transfer_unknown_cmd : ℕ
p2p_transfer_unknown_cmd = 0

abbrev pub p2p_transfer_ping : ℕ
p2p_transfer_ping = 1

abbrev pub p2p_transfer_query_device_info_request : ℕ
p2p_transfer_query_device_info_request = 2

abbrev pub p2p_transfer_query_device_info_response : ℕ
p2p_transfer_query_device_info_response = 3

abbrev pub p2p_transfer_punch_hole : ℕ
p2p_transfer_punch_hole = 4

abbrev pub p2p_transfer_punch_hole_to_peer : ℕ
p2p_transfer_punch_hole_to_peer = 5

abbrev pub p2p_transfer_user_data : ℕ
p2p_transfer_user_data = 6

-- NP_PORT_RESTRICTED_CONE_NAT
abbrev pub np_port_restricted_cone_nat : ℕ
np_port_restricted_cone_nat = 4

abbrev pub cmd_names : List String
cmd_names =
    "P2P_TRANSFER_UNKNOWN_CMD" ∷ "P2P_TRANSFER_PING" ∷ "P2P_TRANSFER_QUERY_DEVICE_INFO_REQUEST"
    ∷ "P2P_TRANSFER_QUERY_DEVICE_INFO_RESPONSE" ∷ "P2P_TRANSFER_PUNCH_HOLE"
    ∷ "P2P_TRANSFER_PUNCH_HOLE_TO_PEER" ∷ "P2P_TRANSFER_USER_DATA" ∷ []

-- `none` would be a read outside the table.
unfoldable pub get_string_cmd : ℤ → Option String
get_string_cmd (pos cmd) =
    get_elem? cmd_names (if ltb p2p_transfer_user_data cmd then p2p_transfer_unknown_cmd else cmd)
get_string_cmd (negsuc cmd) = get_elem? cmd_names p2p_transfer_unknown_cmd

-- The options by their numbers on Linux.
abbrev pub so_reuseaddr : ℕ
so_reuseaddr = 2

abbrev pub so_keepalive : ℕ
so_keepalive = 9

abbrev pub so_reuseport : ℕ
so_reuseport = 15

-- One test of `set_sock_opt`: `false` is a failed call.
unfoldable pub set_flag : Env → ℤ → ℕ → ℕ → M Bool
set_flag env sock flag option =
    if bit_and flag option == 0 then pure true else setsockopt env sock option

-- `false` is the return value -1.
unfoldable pub set_sock_opt : Env → ℤ → ℕ → M Bool
unfolding set_flag
set_sock_opt env sock flag = do
  a ← set_flag env sock flag so_reuseaddr
  if not a then pure false else do
    p ← set_flag env sock flag so_reuseport
    if not p then pure false else set_flag env sock flag so_keepalive

unfoldable pub generate_server_addr : Env → String → Addr
generate_server_addr env ip = addr (env.inet_addr ip) (env.htons p2p_transfer_server_port)

unfoldable pub generate_peer_addr : MsgDeviceInfo → Addr
generate_peer_addr d = addr d.ip_addr d.port

-- SAFE_SENDTO: `false` is `goto ERR`. Its `continue` leaves the `do … while (0)` of the macro, so
-- after an interrupted call the caller goes on as after a call that sent.
unfoldable pub after_send : Sent → Bool
after_send (sent n) = true
after_send (not_sent eintr) = true
after_send (not_sent _) = false

unfoldable pub safe_sendto : Env → ℤ → Bytes → Addr → M Bool
unfolding after_send
safe_sendto env sock buf dst = do r ← sendto env sock buf dst; pure (after_send r)

-- SAFE_RECVFROM: `none` is `goto ERR`; after an interrupted call the buffer is as before.
unfoldable pub after_receive : Bytes → Addr → Received → Option (Bytes × Addr)
after_receive buf from (received b a) = some (b, a)
after_receive buf from (not_received eintr) = some (buf, from)
after_receive buf from (not_received _) = none

-- SAFE_CLOSE of a descriptor.
unfoldable pub safe_close : ℤ → M (Unit {0})
safe_close sock = if is_pos sock then close sock else pure tt
