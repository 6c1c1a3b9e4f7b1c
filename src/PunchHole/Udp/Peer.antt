-- ===== src/PunchHole/Udp/Peer.antt =====
-- PunchHole/p2p_transfer_udp/p2p_transfer_peer/p2p_transfer_peer.c: the callbacks of a peer.
use Prim.Native.String.{String}
use edge_compute.Base.{
  ℕ, ◌-◌, ◌^◌, Bool, false, not, Option, none, some, List, [], ◌∷◌, ◌++◌, ◌==◌, ℤ, pos, minus_one,
  int_eq, to_unsigned, if◌then◌else◌, length, replicate,
}
use edge_compute.Log
use edge_compute.Sys.{
  Env, Bytes, Addr, addr, M, pure, ◌>>=◌, ◌>>◌, alloc, recvfrom, socket, bind, extern, dgram, sleep,
}
use edge_compute.PunchHole.Wire.{
  MsgHead, MsgDeviceInfo, p2p_transfer_magic, head_bytes, ping_bytes, device_info_bytes, read_head,
  read_device_info,
}
use edge_compute.PunchHole.Common.{
  p2p_transfer_max_msg_length, p2p_transfer_ping, p2p_transfer_query_device_info_request,
  p2p_transfer_query_device_info_response, p2p_transfer_punch_hole, p2p_transfer_punch_hole_to_peer,
  p2p_transfer_user_data, np_port_restricted_cone_nat, safe_sendto, after_receive,
  generate_peer_addr, generate_server_addr,
}

abbrev pub p2p_transfer_client_port : ℕ
p2p_transfer_client_port = 5152

-- "abc" with its NUL
abbrev pub user_data : Bytes
user_data = 97 ∷ 98 ∷ 99 ∷ 0 ∷ []

abbrev pub server_ip : String
server_ip = "0.0.0.0"

-- `my_device_sn` is an `int` that is stored in 64-bit fields.
abbrev pub head_from : ℤ → (cmd_len cmd : ℕ) → MsgHead
head_from my_device_sn cmd_len cmd = record {
  magic = p2p_transfer_magic;
  msgid = 0;
  src_device_sn = to_unsigned (2 ^ 64) my_device_sn;
  dst_device_sn = 0;
  cmd_len = cmd_len;
  cmd = cmd;
}

pub data Callback : Type 0 where
  reads pings users : Callback

module _ (my_device_sn : ℤ) where
  unfoldable pub punch_hole_to_peer_msg : Bytes
  punch_hole_to_peer_msg = head_bytes (head_from my_device_sn 0 p2p_transfer_punch_hole_to_peer)

  unfoldable pub user_data_msg : Bytes
  user_data_msg = head_bytes (head_from my_device_sn 4 p2p_transfer_user_data) ++ user_data

  unfoldable pub ping_msg : Bytes
  ping_msg =
      head_bytes (head_from my_device_sn 16 p2p_transfer_ping)
      ++ ping_bytes (record {
        device_sn = to_unsigned (2 ^ 64) my_device_sn;
        network_type = np_port_restricted_cone_nat;
      })

  unfoldable pub query_msg : Bytes
  query_msg =
      head_bytes (head_from my_device_sn 24 p2p_transfer_query_device_info_request)
      ++ device_info_bytes (record { device_sn = 2222; ip_addr = 0; port = 0; network_type = 0 })

module _ (env : Env) (my_device_sn : ℤ) (s_sock : ℤ) where
  unfoldable pub process_punch_hole_cmd : MsgDeviceInfo → M Bool
  process_punch_hole_cmd d = do
    got ← alloc env 40
    if not got
        then pure false
        else safe_sendto env s_sock (punch_hole_to_peer_msg my_device_sn) (generate_peer_addr d)

  unfoldable pub punch_hole : MsgDeviceInfo → M Bool
  punch_hole d = do
    sleep 5
    got ← alloc env 44
    if not got
        then pure false
        else safe_sendto env s_sock (user_data_msg my_device_sn) (generate_peer_addr d)

  -- The switch of `read_cb`.
  unfoldable pub dispatch : Bytes → M (Unit {0})
  dispatch buf =
      let cmd = (read_head buf).cmd in
      if cmd == p2p_transfer_punch_hole
      then (process_punch_hole_cmd (read_device_info buf) >> pure tt)
      else if cmd == p2p_transfer_query_device_info_response
      then (punch_hole (read_device_info buf) >> pure tt)
      else pure tt

  unfoldable pub on_received : Option (Bytes × Addr) → M (Unit {0})
  on_received none = pure tt
  on_received (some (b, a)) = dispatch (b ++ replicate (p2p_transfer_max_msg_length - length b) 0)

  unfoldable pub read_cb : M (Unit {0})
  unfolding on_received
  read_cb = do
    got ← alloc env p2p_transfer_max_msg_length
    if not got then pure tt else do
      r ← recvfrom env s_sock p2p_transfer_max_msg_length
      on_received (after_receive [] (addr 0 0) r)

  unfoldable pub ping_cb : M (Unit {0})
  ping_cb = do
    got ← alloc env 56
    if not got then pure tt else do
      _ ← safe_sendto env s_sock (ping_msg my_device_sn) (generate_server_addr env server_ip)
      pure tt

  unfoldable pub user_cb : M (Unit {0})
  user_cb = do
    got ← alloc env 64
    if not got then pure tt else do
      got' ← alloc env 64
      if not got' then pure tt else do
        _ ← safe_sendto env s_sock (query_msg my_device_sn) (generate_server_addr env server_ip)
        pure tt

  -- The callbacks that the dispatcher makes.
  unfoldable pub serve : List Callback → M (Unit {0})
  serve [] = pure tt
  serve (reads ∷ rest) = read_cb >> serve rest
  serve (pings ∷ rest) = ping_cb >> serve rest
  serve (users ∷ rest) = user_cb >> serve rest

-- `main`: `argv` is the argument, if there is one, and `calls` the callbacks that are made. The
-- timer of `user_cb` is not set up for device 2222, nor is any before its `event_new` succeeded.
module _ (env : Env) where
  run_loop : ℤ → ℤ → List Callback → M ℤ
  run_loop sn sock calls = do
    serve env sn sock calls
    dispatched ← extern env "event_base_dispatch"
    if dispatched then pure (pos 0) else pure minus_one

  with_timers : ℤ → ℤ → List Callback → M ℤ
  unfolding run_loop
  with_timers sn sock calls = do
    ping_event ← extern env "event_new"
    if not ping_event
        then pure minus_one
        else if int_eq sn (pos 2222)
        then run_loop sn sock calls
        else do
          user_event ← extern env "event_new"
          if not user_event then pure minus_one else run_loop sn sock calls

  unfoldable pub main : Option String → List Callback → M ℤ
  unfolding with_timers
  main argv calls = do
    opened ← extern env "fopen"
    if int_eq
          (Log.configure_log Log.en_print_debug (some "/var/log/p2p_transfer_peer.log") (pos 1)
            opened Log.initial).1
          minus_one
        then pure minus_one
        else elim argv [
          | none ↦ pure minus_one
          | some arg ↦ do
            sock ← socket env dgram
            if int_eq sock minus_one then pure minus_one else do
              bound ← bind env sock (addr 0 (env.htons p2p_transfer_client_port))
              if not bound then pure minus_one else do
                base ← extern env "event_base_new"
                if not base then pure minus_one else do
                  read_event ← extern env "event_new"
                  if not read_event then pure minus_one else with_timers (env.atoi arg) sock calls
        ]
