-- ===== src/NatProbe/Server.antt =====
-- NatProbe/nat_probe_server.c: the table of sockets, the two messages and the read event.
pub mod Table
pub mod Open
pub mod Close
pub mod Layout
pub mod Reply
use Prim.Native.String.{String}
use edge_compute.Base.{
  ℕ, zero, suc, ◌+◌, ◌*◌, ◌%◌, ◌≡◌, Bool, true, false, ◌&&◌, ◌||◌, not, Option, none, some, List,
  [], ◌∷◌, ◌++◌, ℤ, pos, minus_one, is_neg, int_eq, if◌then◌else◌, ◌==◌, length, set, drop,
  replicate,
}
use mathlib.Core.Option
use edge_compute.Sys.{
  Env, Bytes, Addr, addr, M, ok, out_of_fuel, pure, ◌>>=◌, ◌>>◌, fetch, store, close, socket,
  setsockopt, bind, sendto, recvfrom, alloc, extern, sent, not_sent, received, not_received, eintr,
  dgram,
}
use edge_compute.Clib.{Clib}
use edge_compute.Log
use edge_compute.NatProbe.Types.{
  RequestMsg, ResponseMsg, np_domain, np_public_network, np_symmetric_nat,
  np_port_restricted_cone_nat, np_full_cone_nat, np_restricted_cone_nat, np_server_port,
  np_public_ip_num, np_max_public_ip_num,
}
use edge_compute.NatProbe.Dns.{np_get_server_ip}

abbrev pub np_server_socket_num : ℕ
np_server_socket_num = 20

-- struct np_addr_t, less the event of libevent
pub record NpAddr : Type 0 where
  pub ip : ℕ
  pub port : ℕ
  pub sock : ℤ

-- struct np_server_t; the table is its field `addr`
pub record NpServer : Type 0 where
  pub table : List NpAddr
  pub send_msg : ResponseMsg
  pub recv_msg : RequestMsg

-- After `memset(&np_server, 0, …)`: every entry has descriptor 0.
abbrev pub zero_server : NpServer
zero_server = record {
  table = replicate np_server_socket_num (record { ip = 0; port = 0; sock = pos 0 });
  send_msg = record { msgid = pos 0; ip_addr = 0; port = 0 };
  recv_msg = record { msgid = pos 0; network_type = pos 0 };
}

unfoldable pub destroy_socket : List NpAddr → M (Unit {0})
destroy_socket [] = pure tt
destroy_socket (a ∷ rest) =
    if is_neg a.sock then destroy_socket rest else (close a.sock >> destroy_socket rest)

-- The first loop of `create_socket`, with `rounds` rounds left: two entries for each address.
unfoldable pub fill_table : ℕ → (i j : ℕ) → List ℕ → List NpAddr → M (List NpAddr)
fill_table zero i j tmp_ip_addr table = pure table
fill_table (suc rounds) i j tmp_ip_addr table = do
  ip ← fetch tmp_ip_addr i
  t ← store table j (record { ip = ip; port = np_server_port; sock = minus_one })
  t' ← store t (j + 1) (record { ip = ip; port = np_server_port + 1; sock = minus_one })
  fill_table rounds (i + 1) (j + 2) tmp_ip_addr t'

abbrev so_rcvtimeo : ℕ
so_rcvtimeo = 20

-- The reply of a full cone test goes out by `addr[(i + 1 + NP_PUBLIC_IP_NUM) % size]`, for the first
-- entry of the first port that has the socket of the request.
unfoldable pub full_cone_from : ℤ → List NpAddr → List NpAddr → ℕ → M ℤ
full_cone_from sock table [] i = pure minus_one
full_cone_from sock table (a ∷ rest) i =
    if a.port == np_server_port && int_eq a.sock sock
    then (fetch table ((i + 1 + np_public_ip_num) % length table) >>= λ (b : NpAddr). pure b.sock)
    else full_cone_from sock table rest (i + 1)

unfoldable pub process_full_cone_nat : ℤ → NpServer → M ℤ
unfolding full_cone_from
process_full_cone_nat sock s = full_cone_from sock s.table s.table 0

unfoldable pub restricted_from : ℤ → List NpAddr → List NpAddr → ℕ → M ℤ
restricted_from sock table [] i = pure minus_one
restricted_from sock table (a ∷ rest) i =
    if a.port == np_server_port && int_eq a.sock sock
    then (fetch table (i + 1) >>= λ (b : NpAddr). pure b.sock)
    else restricted_from sock table rest (i + 1)

unfoldable pub process_restricted_cone_nat : ℤ → NpServer → M ℤ
unfolding restricted_from
process_restricted_cone_nat sock s = restricted_from sock s.table s.table 0

-- The switch of `process`, by the number of the network type.
process_type : ℤ → ℤ → NpServer → M ℤ
process_type t sock s =
    if int_eq t np_public_network
      || int_eq t np_symmetric_nat
      || int_eq t np_port_restricted_cone_nat
    then pure sock
    else if int_eq t np_full_cone_nat
    then process_full_cone_nat sock s
    else if int_eq t np_restricted_cone_nat
    then process_restricted_cone_nat sock s
    else pure minus_one

unfoldable pub process : ℤ → NpServer → M ℤ
unfolding process_type
process sock s = process_type s.recv_msg.network_type sock s

module _ {J : Type 0} (c : Clib J) (env : Env) where
  -- The second loop: entry `i` gets a socket that is bound to its address. `false` is `goto ERR`.
  unfoldable pub open_sockets : ℕ → ℕ → List NpAddr → M (Bool × List NpAddr)
  open_sockets zero i table = pure (true, table)
  open_sockets (suc rounds) i table = do
    sock ← socket env dgram
    if is_neg sock then pure (false, table) else do
      a ← fetch table i
      bound ← bind env sock (addr a.ip (env.htons a.port))
      if not bound then (close sock >> open_sockets rounds (i + 1) table) else do
        timed ← setsockopt env sock so_rcvtimeo
        if not timed
            then (close sock >> open_sockets rounds (i + 1) table)
            else do t ← store table i (record a { sock = sock }); open_sockets rounds (i + 1) t

  unfoldable pub create_socket : NpServer → M (ℤ × NpServer)
  create_socket s = do
    r ← np_get_server_ip env np_domain (replicate np_max_public_ip_num 0) np_max_public_ip_num 0
    if int_eq r.retval minus_one then (destroy_socket s.table >> pure (minus_one, s)) else do
      t ← fill_table (r.ret_ip_num * 2) 0 0 r.pip_addr s.table
      (done, t') ← open_sockets (r.ret_ip_num * 2) 0 t
      if done
          then pure (pos 0, record s { table = t' })
          else (destroy_socket t' >> pure (minus_one, record s { table = t' }))

module _ {J : Type 0} (c : Clib J) (env : Env) (fuel : ℕ) where
  -- `while (1) { recvfrom … }`: a call that a signal interrupts is made again.
  unfoldable pub recv_loop : ℕ → ℤ → M (Option (Bytes × Addr))
  recv_loop zero sock = λ _. out_of_fuel
  recv_loop (suc k) sock = recvfrom env sock 128 >>= λ r. elim r [
    | received bytes from ↦ pure (some (bytes, from))
    | not_received eintr ↦ recv_loop k sock
    | not_received _ ↦ pure none
  ]

  -- The two messages that `recv_msg` fills from a parsed request.
  read_request : J → Addr → NpServer → Option NpServer
  read_request root from s = elim (c.get_object_item root "msgid") [
    | none ↦ none
    | some msgid ↦ elim (c.get_object_item root "network_type") [
      | none ↦ none
      | some network_type ↦ some (record s {
        recv_msg = record { msgid = c.valueint msgid; network_type = c.valueint network_type };
        send_msg = record {
          msgid = c.valueint msgid;
          ip_addr = from.sin_addr;
          port = from.sin_port;
        };
      })
    ]
  ]

  -- `malloc` does not clear the buffer, so the parser sees what it held behind the datagram.
  unfoldable pub recv_msg : ℤ → NpServer → M (Option (Addr × NpServer))
  unfolding read_request
  recv_msg sock s = do
    got ← alloc env 128
    if not got
        then pure none
        else (recv_loop fuel sock >>= λ r. elim r [
          | none ↦ pure none
          | some (bytes, from) ↦ λ h.
              elim (c.parse (bytes ++ drop (length bytes) (env.garbage h))) [
                | none ↦ ok none h
                | some root ↦ ok (Option.map (λ t. (from, t)) (read_request root from s)) h
              ]
        ])

  unfoldable pub send_loop : ℕ → ℤ → Bytes → Addr → M Bool
  send_loop zero sock msg dst = λ _. out_of_fuel
  send_loop (suc k) sock msg dst = sendto env sock msg dst >>= λ r. elim r [
    | sent n ↦ pure (n == length msg)
    | not_sent eintr ↦ send_loop k sock msg dst
    | not_sent _ ↦ pure false
  ]

  -- The text of a response: its message id, the address as a decimal string, and the port.
  unfoldable pub response_text : ResponseMsg → Bytes
  response_text m = c.print (
      c.add_number_to_object
        (c.add_string_to_object (c.add_number_to_object c.create_object "msgid" m.msgid) "ip"
          (c.print_unsigned m.ip_addr))
        "port" (pos m.port))

  unfoldable pub send_msg : ℤ → NpServer → Addr → M Bool
  unfolding response_text
  send_msg sock s client_addr = send_loop fuel sock (response_text s.send_msg) client_addr

  unfoldable pub read_callback : ℤ → NpServer → M NpServer
  read_callback sock s = recv_msg sock s >>= λ r. elim r [
    | none ↦ pure s
    | some (client_addr, s') ↦ do
      out ← process sock s'
      if int_eq out minus_one then pure s' else (send_msg out s' client_addr >> pure s')
  ]

-- The loop of `main` that registers the sockets of the first port with libevent.
add_events : Env → List NpAddr → M Bool
add_events env [] = pure true
add_events env (a ∷ rest) =
    if not (a.port == np_server_port) || int_eq a.sock minus_one
    then add_events env rest
    else do added ← extern env "event_add"; if added then add_events env rest else pure false

give_up : NpServer → M ℤ
give_up s = do destroy_socket s.table; pure minus_one

module _ {J : Type 0} (c : Clib J) (env : Env) (fuel : ℕ) where
  -- The callbacks that the dispatcher makes, for the sockets that become readable in turn.
  unfoldable pub serve : List ℤ → NpServer → M NpServer
  serve [] s = pure s
  serve (sock ∷ ready) s = do s' ← read_callback c env fuel sock s; serve ready s'

  run_loop : List ℤ → NpServer → M ℤ
  run_loop ready s = do
    s' ← serve ready s
    dispatched ← extern env "event_dispatch"
    if dispatched then (destroy_socket s'.table >> pure (pos 0)) else give_up s'

  -- `main` from `memset` on.
  start : List ℤ → M ℤ
  unfolding add_events run_loop give_up
  start ready = do
    (retval, s) ← create_socket c env zero_server
    if int_eq retval minus_one then give_up s else do
      inited ← extern env "event_init"
      if not inited then give_up s else do
        added ← add_events env s.table
        if not added then give_up s else do _ ← extern env "event_add"; run_loop ready s

  -- `uninit` is what the stack holds in `np_server` before `memset`.
  unfoldable pub main : Bool → NpServer → List ℤ → M ℤ
  unfolding start
  main nodaemon uninit ready = do
    opened ← extern env "fopen"
    if int_eq
          (Log.configure_log Log.en_print_notice (some "/var/log/nat_probe_server.log") (pos 1)
            opened Log.initial).1
          minus_one
        then give_up uninit
        else if nodaemon
        then start ready
        else do detached ← extern env "daemon"; if not detached then give_up uninit else start ready
