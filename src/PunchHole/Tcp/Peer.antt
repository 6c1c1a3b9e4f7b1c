-- ===== src/PunchHole/Tcp/Peer.antt =====
-- PunchHole/p2p_transfer_tcp/p2p_transfer_peer/p2p_transfer_peer.c: a peer's connections and callbacks.
pub mod Retries
pub mod Joining
use Prim.Native.String.{String}
use edge_compute.Base.{
  ℕ, zero, suc, ◌+◌, ◌-◌, ◌^◌, ◌≡◌, Bool, true, false, not, Option, none, some, List, [], ◌∷◌, ◌++◌,
  ◌==◌, ℤ, pos, minus_one, int_eq, is_neg, is_pos, to_unsigned, if◌then◌else◌, length, replicate,
}
use edge_compute.Log
use edge_compute.Sys.{
  Env, Bytes, Addr, addr, M, Errno, etimedout, pure, ◌>>=◌, ◌>>◌, alloc, extern, close, socket,
  bind, connect, sleep, send, recv, stream, bufferevent_write, bufferevent_read, bufferevent_new,
  bufferevent_free, listener_new,
}
use edge_compute.PunchHole.Wire.{
  MsgHead, MsgPing, MsgDeviceInfo, p2p_transfer_magic, head_bytes, ping_bytes, device_info_bytes,
  read_head, read_device_info,
}
use edge_compute.PunchHole.Common.{
  p2p_transfer_ping, p2p_transfer_query_device_info_request, p2p_transfer_punch_hole,
  p2p_transfer_unknown_cmd, np_port_restricted_cone_nat, set_sock_opt, generate_peer_addr,
  generate_server_addr, safe_close,
}
use edge_compute.PunchHole.Tcp.Server.{filled}

abbrev pub p2p_transfer_client_port : ℕ
p2p_transfer_client_port = 5152

abbrev pub server_ip : String
server_ip = "58.220.12.22"

-- SO_REUSEADDR | SO_REUSEPORT | SO_KEEPALIVE
abbrev pub all_options : ℕ
all_options = 15

-- struct p2p_transfer_client_t: an event or the base is there or not, the listener is its descriptor.
pub record Client : Type 0 where
  pub base : Bool
  pub device_sn : ℕ
  pub user_event : Bool
  pub local_ip : ℕ
  pub conn_server_sock : ℤ
  pub ping_event : Bool
  pub ping_bev : Option ℕ
  pub listen_local_sock : ℤ
  pub listener : Option ℤ

abbrev pub head_from : ℕ → (cmd_len cmd : ℕ) → MsgHead
head_from device_sn cmd_len cmd = record {
  magic = p2p_transfer_magic;
  msgid = 0;
  src_device_sn = device_sn;
  dst_device_sn = 0;
  cmd_len = cmd_len;
  cmd = cmd;
}

unfoldable pub ping_msg : ℕ → Bytes
ping_msg sn =
    head_bytes (head_from sn 16 p2p_transfer_ping)
    ++ ping_bytes (record { device_sn = sn; network_type = np_port_restricted_cone_nat })

unfoldable pub query_msg : ℕ → Bytes
query_msg sn =
    head_bytes (head_from sn 24 p2p_transfer_query_device_info_request)
    ++ device_info_bytes (record { device_sn = 2222; ip_addr = 0; port = 0; network_type = 0 })

pub data Callback : Type 0 where
  pings users : Callback
  readable closed : ℕ → Callback

module _ (env : Env) where
  local_addr : Client → Addr
  local_addr cl = addr cl.local_ip (env.htons p2p_transfer_client_port)

  unfoldable pub ping_cb : Client → M (Unit {0})
  ping_cb cl = do
    got ← alloc env 56
    if not got then pure tt else elim cl.ping_bev [
      | none ↦ pure tt
      | some bev ↦ (bufferevent_write env bev (ping_msg cl.device_sn) >> pure tt)
    ]

  -- Whether the sleep of 20 seconds follows a failed `connect`.
  unfoldable pub waits : Errno → Bool
  waits etimedout = false
  waits _ = true

  unfoldable pub connected : ℤ → Option Errno → M Bool
  unfolding waits
  connected sock none = pure true
  connected sock (some e) = if waits e then (sleep 20 >> pure false) else pure false

  -- One round of `connect_peer` on a socket: `true` is `break`, `false` is `goto NEXT`.
  unfoldable pub try_connect : ℤ → Addr → Addr → M Bool
  unfolding connected
  try_connect sock here there = if is_neg sock then pure false else do
    optioned ← set_sock_opt env sock all_options
    if not optioned then pure false else do
      bound ← bind env sock here
      if not bound then pure false else (connect env sock there >>= connected sock)

  -- `while (--retry)` with `n` rounds left.
  unfoldable pub connect_rounds : ℕ → Addr → Addr → M ℤ
  connect_rounds zero here there = pure minus_one
  connect_rounds (suc n) here there = do
    sock ← socket env stream
    done ← try_connect sock here there
    if done then pure sock else (safe_close sock >> connect_rounds n here there)

  unfoldable pub connect_peer : Client → MsgDeviceInfo → M ℤ
  unfolding connect_rounds local_addr
  connect_peer cl d = connect_rounds 9 (local_addr cl) (generate_peer_addr d)

  -- The thread of a PUNCH_HOLE: it waits for one message on the connection.
  unfoldable pub process_punch_hole_cmd_cb : Client → MsgDeviceInfo → M (Option Bytes)
  process_punch_hole_cmd_cb cl d = do
    sock ← connect_peer cl d
    if int_eq sock minus_one
        then (safe_close sock >> pure none)
        else do r ← recv env sock 10; safe_close sock; pure r

  -- The thread is run to its end here; `false` is a failed `pthread_create`.
  unfoldable pub process_punch_hole_cmd : Client → MsgDeviceInfo → M Bool
  process_punch_hole_cmd cl d = do
    started ← extern env "pthread_create"
    if not started then pure false else (process_punch_hole_cmd_cb cl d >> pure true)

  unfoldable pub conn_read_cb : Client → ℕ → M (Unit {0})
  conn_read_cb cl pbev = do
    got ← alloc env 40
    if not got then pure tt else do
      b ← bufferevent_read env pbev 40
      let head = filled 40 b
      if not ((read_head head).cmd == p2p_transfer_punch_hole) then pure tt else do
        got' ← alloc env 24
        if not got' then pure tt else do
          b' ← bufferevent_read env pbev 24
          _ ← process_punch_hole_cmd cl (read_device_info (head ++ filled 24 b'))
          pure tt

  unfoldable pub conn_event_cb : ℕ → M (Unit {0})
  conn_event_cb bev = do bufferevent_free bev; safe_close (env.getfd bev)

  server_failed : ℤ → Client → M (Bool × Client)
  server_failed sock cl = do safe_close sock; pure (false, cl)

  unfoldable pub keep_bev : ℤ → Client → Option ℕ → M (Bool × Client)
  unfolding server_failed
  keep_bev sock cl none = server_failed sock cl
  keep_bev sock cl (some bev) =
      pure (true, record cl { conn_server_sock = sock; ping_bev = some bev })

  -- `true` is the return value 0.
  unfoldable pub connect_server : Client → M (Bool × Client)
  unfolding keep_bev local_addr
  connect_server cl = do
    sock ← socket env stream
    if int_eq sock minus_one then server_failed sock cl else do
      optioned ← set_sock_opt env sock all_options
      if not optioned then server_failed sock cl else do
        bound ← bind env sock (local_addr cl)
        if not bound then server_failed sock cl else do
          e ← connect env sock (generate_server_addr env server_ip)
          elim e [
            | some _ ↦ server_failed sock cl
            | none ↦ (bufferevent_new env sock >>= keep_bev sock cl)
          ]

  -- The listener closes its descriptor when it is freed (LEV_OPT_CLOSE_ON_FREE).
  unfoldable pub keep_listener : Client → Option ℤ → M (Bool × Client)
  keep_listener cl none = pure (false, cl)
  keep_listener cl (some sock) = do
    optioned ← set_sock_opt env sock all_options
    if not optioned
        then (close sock >> pure (false, cl))
        else pure (true, record cl { listen_local_sock = sock; listener = some sock })

  unfoldable pub listen_local : Client → M (Bool × Client)
  unfolding keep_listener local_addr
  listen_local cl = listener_new env (local_addr cl) >>= keep_listener cl

  unfoldable pub add_ping_timer : Client → M (Bool × Client)
  add_ping_timer cl = do
    made ← extern env "event_new"
    if not made
        then pure (false, cl)
        else do _ ← extern env "event_add"; pure (true, record cl { ping_event = true })

  unfoldable pub add_user_timer : Client → M (Bool × Client)
  add_user_timer cl = do
    made ← extern env "event_new"
    if not made
        then pure (false, cl)
        else do _ ← extern env "event_add"; pure (true, record cl { user_event = true })

  sn_of : List String → ℕ
  sn_of [] = 1111
  sn_of (a ∷ rest) = to_unsigned (2 ^ 64) (env.atoi a)

  ip_of : List String → ℕ
  ip_of (a ∷ b ∷ rest) = env.inet_addr b
  ip_of _ = 0

  -- `args` are the arguments behind the program's name.
  unfoldable pub init : List String → M (Option Client)
  unfolding sn_of ip_of
  init args = do
    opened ← extern env "fopen"
    if int_eq
          (Log.configure_log Log.en_print_debug (some "/var/log/p2p_transfer_peer.log") (pos 1)
            opened Log.initial).1
          minus_one
        then pure none
        else do
          got ← alloc env 72
          if not got then pure none else do
            based ← extern env "event_base_new"
            if not based
                then pure none
                else pure (
                    some (record {
                      base = true;
                      device_sn = sn_of args;
                      user_event = false;
                      local_ip = ip_of args;
                      conn_server_sock = minus_one;
                      ping_event = false;
                      ping_bev = none;
                      listen_local_sock = minus_one;
                      listener = none;
                    }))

  free_listener : Option ℤ → M (Unit {0})
  free_listener none = pure tt
  free_listener (some fd) = close fd

  -- What `uninit` closes; the events and the base hold no descriptor of the program.
  unfoldable pub uninit : Option Client → M (Unit {0})
  unfolding free_listener
  uninit none = pure tt
  uninit (some cl) = do
    free_listener cl.listener
    safe_close cl.conn_server_sock
    safe_close cl.listen_local_sock

  unfoldable pub punch_hole : Client → MsgDeviceInfo → M Bool
  punch_hole cl d = do
    sock ← connect_peer cl d
    if int_eq sock minus_one
        then (safe_close sock >> pure false)
        else do went ← send env sock (97 ∷ 98 ∷ 99 ∷ []); safe_close sock; pure went

  unfoldable pub on_response : Client → Option Bytes → M (Unit {0})
  on_response cl none = pure tt
  on_response cl (some b) =
      let buf = filled 64 b in
      if (read_head buf).cmd == p2p_transfer_unknown_cmd
      then pure tt
      else (punch_hole cl (read_device_info buf) >> pure tt)

  unfoldable pub user_cb : Client → M (Unit {0})
  unfolding on_response
  user_cb cl = do
    got ← alloc env 64
    if not got then pure tt else do
      got' ← alloc env 64
      if not got' then pure tt else do
        went ← send env cl.conn_server_sock (query_msg cl.device_sn)
        if not went then pure tt else (recv env cl.conn_server_sock 64 >>= on_response cl)

  -- The callbacks that the dispatcher makes.
  unfoldable pub serve : Client → List Callback → M (Unit {0})
  serve cl [] = pure tt
  serve cl (pings ∷ rest) = ping_cb cl >> serve cl rest
  serve cl (users ∷ rest) = user_cb cl >> serve cl rest
  serve cl (readable bev ∷ rest) = conn_read_cb cl bev >> serve cl rest
  serve cl (closed bev ∷ rest) = conn_event_cb bev >> serve cl rest

  failed : Client → M ℤ
  failed cl = do uninit (some cl); pure minus_one

  run_loop : Client → List Callback → M ℤ
  unfolding failed
  run_loop cl calls = do
    serve cl calls
    dispatched ← extern env "event_base_dispatch"
    if not dispatched then failed cl else (uninit (some cl) >> pure (pos 0))

  with_timers : Client → List Callback → M ℤ
  unfolding failed run_loop
  with_timers cl calls = do
    (ping_made, cl₁) ← add_ping_timer cl
    if not ping_made then failed cl₁ else if cl₁.device_sn == 2222 then run_loop cl₁ calls else do
      (user_made, cl₂) ← add_user_timer cl₁
      if not user_made then failed cl₂ else run_loop cl₂ calls

  unfoldable pub started : List Callback → Option Client → M ℤ
  unfolding failed with_timers
  started calls none = do uninit none; pure minus_one
  started calls (some cl) = do
    (listening, cl₁) ← listen_local cl
    if not listening then failed cl₁ else do
      (joined, cl₂) ← connect_server cl₁
      if not joined then failed cl₂ else with_timers cl₂ calls

  -- `main`, with the arguments behind the program's name and the callbacks that are made.
  unfoldable pub main : List String → List Callback → M ℤ
  unfolding started
  main args calls = init args >>= started calls
