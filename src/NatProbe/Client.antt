-- ===== src/NatProbe/Client.antt =====
-- NatProbe/nat_probe_client.c: requests with retries, the five tests, and the probe.
pub mod Loops
pub mod Exchange
pub mod Probe
use Prim.Native.String.{String}
use mathlib.Core.Option
use edge_compute.Base.{
  ℕ, zero, suc, ◌+◌, ◌%◌, ◌^◌, ◌≡◌, Bool, true, false, ◌&&◌, ◌||◌, not, Option, none, some, List,
  [], ◌∷◌, ◌++◌, ℤ, pos, minus_one, is_neg, int_eq, to_unsigned, if◌then◌else◌, ◌==◌, ltb, length,
  drop, replicate,
}
use edge_compute.Sys.{
  Env, Bytes, Addr, addr, M, ok, out_of_fuel, pure, ◌>>=◌, ◌>>◌, fetch, store, close, socket,
  setsockopt, sleep, sendto, recvfrom, alloc, sent, not_sent, received, not_received, eintr, dgram,
  Sent, Received,
}
use edge_compute.Clib.{Clib}
use edge_compute.NatProbe.Types.{
  RequestMsg, ResponseMsg, np_domain, np_unknown, np_public_network, np_symmetric_nat,
  np_port_restricted_cone_nat, np_full_cone_nat, np_restricted_cone_nat, np_server_port,
  np_max_public_ip_num, get_string_network_type,
}
use edge_compute.NatProbe.Dns.{np_get_server_ip}

abbrev pub np_retry_send_num : ℕ
np_retry_send_num = 2

abbrev pub np_send_and_recv_num : ℕ
np_send_and_recv_num = 2

-- struct np_client_t; `last_msgid` is the static variable of `generate_msgid`.
pub record NpClient : Type 0 where
  pub sock : ℤ
  pub ip_addr_num : ℕ
  pub ip_addr : List ℕ
  pub send_msg : List RequestMsg
  pub recv_msg : List ResponseMsg
  pub last_msgid : ℕ

-- After `memset(&np_client, 0, …)`.
abbrev pub zero_client : ℕ → NpClient
zero_client last = record {
  sock = pos 0;
  ip_addr_num = 0;
  ip_addr = replicate np_max_public_ip_num 0;
  send_msg = replicate np_send_and_recv_num (record { msgid = pos 0; network_type = pos 0 });
  recv_msg = replicate np_send_and_recv_num (record { msgid = pos 0; ip_addr = 0; port = 0 });
  last_msgid = last;
}

unfoldable pub generate_msgid : ℕ → ℕ → ℕ
generate_msgid pid last = if last == 0 then pid + 1 else last + 1

module _ (env : Env) where
  -- The loop over the interfaces: one that cannot be read, or is a loopback, is passed over.
  unfoldable pub scan_nics : ℕ → List String → M Bool
  scan_nics ip [] = pure false
  scan_nics ip (nic ∷ rest) = λ h. elim (env.ifflags h nic) [
    | none ↦ scan_nics ip rest h
    | some true ↦ scan_nics ip rest h
    | some false ↦ elim (env.ifaddr h nic) [
      | none ↦ scan_nics ip rest h
      | some a ↦ if a == ip then ok true h else scan_nics ip rest h
    ]
  ]

  unfoldable pub scan_conf : ℕ → Option (List String) → M Bool
  scan_conf ip none = pure false
  scan_conf ip (some nics) = scan_nics ip nics

  unfoldable pub is_local_ip : ℕ → M Bool
  unfolding scan_conf
  is_local_ip ip = do
    sock ← socket env dgram
    if int_eq sock minus_one
        then (close sock >> pure false)
        else do found ← λ h. scan_conf ip (env.ifconf h) h; close sock; pure found

  unfoldable pub create_socket : M ℤ
  create_socket = do
    sock ← socket env dgram
    if is_neg sock then pure minus_one else do
      timed ← setsockopt env sock 20
      if timed then pure sock else (close sock >> pure minus_one)

-- The tests are made in turn until one names a type.
unfoldable pub run_tests :
    List (NpClient → M (Option ℤ × NpClient)) → NpClient → M (Option ℤ × NpClient)
run_tests [] cl = pure (none, cl)
run_tests (test ∷ rest) cl = test cl >>= λ r. elim r.0 [
  | some network_type ↦ pure (some network_type, r.1)
  | none ↦ run_tests rest r.1
]

-- The label EXIT: `s_network_type` changes if a type was found, and the socket is closed.
unfoldable pub leave : ℤ → Option ℤ → ℤ → M ℤ
leave s_network_type found sock =
    let network_type : ℤ = elim found [ none ↦ np_unknown | some t ↦ t ] in
    let s' =
      if not (int_eq network_type np_unknown) && not (int_eq s_network_type network_type)
      then network_type
      else s_network_type in
    if is_neg sock then pure s' else (close sock >> pure s')

module _ {J : Type 0} (c : Clib J) (env : Env) (fuel : ℕ) where
  unfoldable pub send_loop : ℕ → ℤ → Bytes → Addr → M Bool
  send_loop zero sock msg dst = λ _. out_of_fuel
  send_loop (suc k) sock msg dst = sendto env sock msg dst >>= λ r. elim r [
    | sent n ↦ pure (length msg == n)
    | not_sent eintr ↦ send_loop k sock msg dst
    | not_sent _ ↦ pure false
  ]

  unfoldable pub request_text : RequestMsg → Bytes
  request_text m = c.print (
      c.add_number_to_object (c.add_number_to_object c.create_object "msgid" m.msgid) "network_type"
        m.network_type)

  unfoldable pub send_msg : NpClient → ℕ → Addr → M Bool
  send_msg cl idx dst = do m ← fetch cl.send_msg idx; send_loop fuel cl.sock (request_text m) dst

  unfoldable pub recv_loop : ℕ → ℤ → M (Option Bytes)
  recv_loop zero sock = λ _. out_of_fuel
  recv_loop (suc k) sock = recvfrom env sock 128 >>= λ r. elim r [
    | received bytes from ↦ pure (some bytes)
    | not_received eintr ↦ recv_loop k sock
    | not_received _ ↦ pure none
  ]

  -- The response in a parsed text: all three items must be there.
  unfoldable pub read_response : J → Option ResponseMsg
  read_response root = elim (c.get_object_item root "msgid") [
    | none ↦ none
    | some msgid ↦ elim (c.get_object_item root "ip") [
      | none ↦ none
      | some ip ↦ elim (c.get_object_item root "port") [
        | none ↦ none
        | some port ↦ some (record {
          msgid = c.valueint msgid;
          ip_addr = c.strtoul (c.valuestring ip) % 2 ^ 32;
          port = to_unsigned (2 ^ 16) (c.valueint port);
        })
      ]
    ]
  ]

  -- The received text, parsed; `malloc` does not clear the buffer behind it.
  unfoldable pub parse_text : Option Bytes → M (Option ResponseMsg)
  parse_text none = pure none
  parse_text (some bytes) = λ h. elim (c.parse (bytes ++ drop (length bytes) (env.garbage h))) [
    | none ↦ ok none h
    | some root ↦ ok (read_response root) h
  ]

  unfoldable pub recv_text : ℤ → M (Option ResponseMsg)
  recv_text sock = do
    got ← alloc env 128
    if not got then pure none else (recv_loop fuel sock >>= parse_text)

  unfoldable pub keep_response : NpClient → ℕ → Option ResponseMsg → M (Bool × NpClient)
  keep_response cl idx none = pure (false, cl)
  keep_response cl idx (some m) = do
    l ← store cl.recv_msg idx m
    pure (true, record cl { recv_msg = l })

  -- `true` is a return value of 0; then `recv_msg[idx]` holds the response.
  unfoldable pub recv_msg : NpClient → ℕ → M (Bool × NpClient)
  unfolding keep_response
  recv_msg cl idx = recv_text cl.sock >>= keep_response cl idx

  -- Whether `recv_msg` succeeded with the id of the request.
  unfoldable pub is_reply : Bool → NpClient → ℕ → M Bool
  is_reply false cl j = pure false
  is_reply true cl j = do
    r ← fetch cl.recv_msg j
    q ← fetch cl.send_msg j
    pure (int_eq r.msgid q.msgid)

  -- The inner loop, with `n` attempts left: `true` when the right reply came.
  unfoldable pub attempts : ℕ → NpClient → ℕ → Addr → M (Bool × NpClient)
  attempts zero cl j dst = pure (false, cl)
  attempts (suc n) cl j dst = do
    went ← send_msg cl j dst
    if not went then pure (false, cl) else do
      (got, cl') ← recv_msg cl j
      right ← is_reply got cl' j
      if right then pure (true, cl') else (sleep 1 >> attempts n cl' j dst)

  -- The outer loop, with `rounds` addresses left.
  unfoldable pub try_addresses : ℕ → (i j : ℕ) → ℤ → ℕ → NpClient → M (ℕ × NpClient)
  try_addresses zero i j network_type num cl = pure (j, cl)
  try_addresses (suc rounds) i j network_type num cl = if not (ltb j num) then pure (j, cl) else do
    ip ← fetch cl.ip_addr i
    let msgid = generate_msgid env.getpid cl.last_msgid
    l ← store cl.send_msg j (record { msgid = pos msgid; network_type = network_type })
    (right, cl') ←
        attempts np_retry_send_num (record cl { send_msg = l; last_msgid = msgid }) j
          (addr ip (env.htons np_server_port))
    try_addresses rounds (i + 1) (if right then j + 1 else j) network_type num cl'

  unfoldable pub np_send_and_recv_msg : NpClient → ℤ → ℕ → M (Bool × NpClient)
  np_send_and_recv_msg cl network_type num = do
    (j, cl') ← try_addresses cl.ip_addr_num 0 0 network_type num cl
    pure (not (ltb j num), cl')

  -- A test returns the type that it writes to `*pnetwork_type`, or `none` for -1.
  unfoldable pub np_is_public_network : NpClient → M (Option ℤ × NpClient)
  np_is_public_network cl = do
    (done, cl') ← np_send_and_recv_msg cl np_public_network 1
    if not done then pure (none, cl') else do
      r ← fetch cl'.recv_msg 0
      is_local ← is_local_ip env r.ip_addr
      if is_local then pure (some np_public_network, cl') else pure (none, cl')

  unfoldable pub np_is_symmetric_nat : NpClient → M (Option ℤ × NpClient)
  np_is_symmetric_nat cl = do
    (done, cl') ← np_send_and_recv_msg cl np_symmetric_nat 2
    if not done then pure (none, cl') else do
      r₁ ← fetch cl'.recv_msg 0
      r₂ ← fetch cl'.recv_msg 1
      if not (r₁.ip_addr == r₂.ip_addr) || not (r₁.port == r₂.port)
          then pure (some np_symmetric_nat, cl')
          else pure (none, cl')

  -- The three tests that only ask whether a reply of the type's kind arrives.
  unfoldable pub answered : ℤ → NpClient → M (Option ℤ × NpClient)
  answered network_type cl = do
    (done, cl') ← np_send_and_recv_msg cl network_type 1
    if done then pure (some network_type, cl') else pure (none, cl')

  unfoldable pub np_is_full_cone_nat : NpClient → M (Option ℤ × NpClient)
  unfolding answered
  np_is_full_cone_nat = answered np_full_cone_nat

  unfoldable pub np_is_restricted_cone_nat : NpClient → M (Option ℤ × NpClient)
  unfolding answered
  np_is_restricted_cone_nat = answered np_restricted_cone_nat

  unfoldable pub np_is_port_restricted_cone_nat : NpClient → M (Option ℤ × NpClient)
  unfolding answered
  np_is_port_restricted_cone_nat = answered np_port_restricted_cone_nat

  abbrev pub tests : List (NpClient → M (Option ℤ × NpClient))
  tests =
      np_is_public_network ∷ np_is_symmetric_nat ∷ np_is_full_cone_nat ∷ np_is_restricted_cone_nat
      ∷ np_is_port_restricted_cone_nat ∷ []

  unfoldable pub np_network_type_probe : ℤ → ℕ → M ℤ
  np_network_type_probe s_network_type last = do
    sock ← create_socket env
    if int_eq sock minus_one then leave s_network_type none sock else do
      r ← np_get_server_ip env np_domain (zero_client last).ip_addr np_max_public_ip_num 0
      if int_eq r.retval minus_one then leave s_network_type none sock else do
        (found, cl) ← run_tests tests (record (zero_client last) {
          sock = sock;
          ip_addr = r.pip_addr;
          ip_addr_num = r.ret_ip_num;
        })
        leave s_network_type found cl.sock

  -- `main`: the exit code and the name that it prints.
  pub main : M (ℤ × Option String)
  main = do t ← np_network_type_probe np_unknown 0; pure (pos 0, get_string_network_type t)
