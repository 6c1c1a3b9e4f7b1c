-- ===== src/PunchHole/Udp/Server.antt =====
-- PunchHole/p2p_transfer_udp/p2p_transfer_server/p2p_transfer_server.c: pings and queries.
pub mod Query
use Prim.Native.String.{String}
use edge_compute.Base.{
  ℕ, ◌+◌, ◌-◌, ◌≡◌, Bool, true, false, not, Option, none, some, List, [], ◌∷◌, ◌++◌, ◌==◌, ℤ, pos,
  minus_one, int_eq, if◌then◌else◌, length, replicate,
}
use edge_compute.Sys.{
  Env, Bytes, Addr, addr, M, pure, ◌>>=◌, ◌>>◌, alloc, recvfrom, socket, bind, extern, dgram, ok,
}
use edge_compute.Log
use edge_compute.PunchHole.Wire.{
  MsgHead, MsgPing, MsgDeviceInfo, zero_device_info, p2p_transfer_magic, head_bytes,
  device_info_bytes, read_head, read_ping, read_device_info,
}
use edge_compute.PunchHole.Common.{
  p2p_transfer_max_msg_length, p2p_transfer_unknown_cmd, p2p_transfer_ping,
  p2p_transfer_query_device_info_request, p2p_transfer_query_device_info_response,
  p2p_transfer_punch_hole, safe_sendto, after_receive, generate_peer_addr, generate_server_addr,
  p2p_transfer_server_port,
}
use edge_compute.PunchHole.Registry.{Scan, scan_start, scan_devices, list_add}

-- `s_pall_device_info`, newest first.
abbrev pub Devices : Type 0
Devices = List MsgDeviceInfo

abbrev pub head_of : (cmd_len cmd : ℕ) → MsgHead
head_of cmd_len cmd = record {
  magic = p2p_transfer_magic;
  msgid = 0;
  src_device_sn = 0;
  dst_device_sn = 0;
  cmd_len = cmd_len;
  cmd = cmd;
}

unfoldable pub device_of : MsgPing → Addr → MsgDeviceInfo
device_of p a = record {
  device_sn = p.device_sn;
  ip_addr = a.sin_addr;
  port = a.sin_port;
  network_type = p.network_type;
}

-- PUNCH_HOLE with the device that asks.
unfoldable pub punch_hole_msg : MsgDeviceInfo → Bytes
punch_hole_msg src = head_bytes (head_of 0 p2p_transfer_punch_hole) ++ device_info_bytes src

unfoldable pub response_msg : Scan → Bytes
response_msg s =
    head_bytes (
      head_of 24
        (if s.responds then p2p_transfer_query_device_info_response else p2p_transfer_unknown_cmd))
    ++ device_info_bytes s.query_device_info

module _ (env : Env) (uninit : Addr) where
  unfoldable pub process_ping_cmd : MsgPing → Addr → Devices → M (Bool × Devices)
  process_ping_cmd ping peer_addr devices = do
    got ← alloc env 40
    if not got
        then pure (false, devices)
        else pure (true, list_add (device_of ping peer_addr) devices)

  unfoldable pub send_punch_hole_cmd_to_peer : ℤ → MsgDeviceInfo → MsgDeviceInfo → M Bool
  send_punch_hole_cmd_to_peer sock src query = do
    got ← alloc env 64
    if not got
        then pure false
        else safe_sendto env sock (punch_hole_msg src) (generate_peer_addr query)

  respond : ℤ → Scan → Addr → M Bool
  respond sock s dst = safe_sendto env sock (response_msg s) dst

  unfoldable pub process_query_device_info_cmd : ℤ → (src query : ℕ) → Addr → Devices → M Bool
  unfolding respond
  process_query_device_info_cmd sock src query psrc_peer_addr devices = do
    got ← alloc env 64
    if not got then pure false else do
      got' ← alloc env 24
      if not got' then pure false else do
        let s = scan_devices src query devices scan_start
        if not s.responds then respond sock s psrc_peer_addr else do
          punched ← send_punch_hole_cmd_to_peer sock s.src_device_info s.query_device_info
          if not punched then pure false else respond sock s psrc_peer_addr

  -- The switch of `read_cb` on the command of a received buffer.
  unfoldable pub dispatch : ℤ → Bytes → Addr → Devices → M Devices
  dispatch sock buf peer_addr devices =
      let m = read_head buf in
      if m.cmd == p2p_transfer_ping
      then (process_ping_cmd (read_ping buf) peer_addr devices >>= λ (r : Bool × Devices). pure r.1)
      else if m.cmd == p2p_transfer_query_device_info_request
      then (process_query_device_info_cmd sock m.src_device_sn (read_device_info buf).device_sn
            peer_addr devices
          >> pure devices)
      else pure devices

  unfoldable pub on_received : ℤ → Devices → Option (Bytes × Addr) → M Devices
  on_received sock devices none = pure devices
  on_received sock devices (some (b, a)) =
      dispatch sock (b ++ replicate (p2p_transfer_max_msg_length - length b) 0) a devices

  -- `uninit` is what the stack holds in `peer_addr`.
  unfoldable pub read_cb : ℤ → Devices → M Devices
  unfolding on_received
  read_cb sock devices = do
    got ← alloc env p2p_transfer_max_msg_length
    if not got then pure devices else do
      r ← recvfrom env sock p2p_transfer_max_msg_length
      on_received sock devices (after_receive [] uninit r)

  -- The dispatcher's calls of `read_cb`, for `n` readable datagrams.
  unfoldable pub serve : ℤ → List (Unit {0}) → Devices → M Devices
  serve sock [] devices = pure devices
  serve sock (_ ∷ ready) devices = do devices' ← read_cb sock devices; serve sock ready devices'

  run_loop : ℤ → List (Unit {0}) → M ℤ
  run_loop sock ready = do
    _ ← serve sock ready []
    dispatched ← extern env "event_base_dispatch"
    if dispatched then pure (pos 0) else pure minus_one

  -- `main`, with a datagram for each entry of `ready`. `configure_log` never returns -1.
  unfoldable pub main : List (Unit {0}) → M ℤ
  unfolding run_loop
  main ready = do
    got ← alloc env 40
    if not got then pure minus_one else do
      opened ← extern env "fopen"
      if int_eq
            (Log.configure_log Log.en_print_debug (some "/var/log/p2p_transfer_server.log") (pos 1)
              opened Log.initial).1
            minus_one
          then pure minus_one
          else do
            sock ← socket env dgram
            if int_eq sock minus_one then pure minus_one else do
              bound ← bind env sock (generate_server_addr env "0.0.0.0")
              if not bound then pure minus_one else do
                base ← extern env "event_base_new"
                if not base then pure minus_one else do
                  event ← extern env "event_new"
                  if not event then pure minus_one else run_loop sock ready
