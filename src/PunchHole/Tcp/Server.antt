-- ===== src/PunchHole/Tcp/Server.antt =====
-- PunchHole/p2p_transfer_tcp/p2p_transfer_server/p2p_transfer_server.c: connections, pings, queries.
pub mod Query
pub mod Connection
use Prim.Native.String.{String}
use edge_compute.Base.{
  ℕ, ◌+◌, ◌-◌, ◌≡◌, Bool, true, false, not, Option, none, some, List, [], ◌∷◌, ◌++◌, ◌==◌, ℤ, pos,
  minus_one, int_eq, if◌then◌else◌, length, replicate,
}
use edge_compute.Log
use edge_compute.Sys.{
  Env, Bytes, Addr, addr, M, pure, ◌>>=◌, ◌>>◌, assert, alloc, extern, bufferevent_write,
  bufferevent_read, bufferevent_new, bufferevent_free,
}
use edge_compute.PunchHole.Wire.{
  MsgHead, MsgPing, MsgDeviceInfo, p2p_transfer_magic, head_bytes, device_info_bytes, read_head,
  read_ping, read_device_info,
}
use edge_compute.PunchHole.Common.{
  p2p_transfer_ping, p2p_transfer_query_device_info_request,
  p2p_transfer_query_device_info_response, p2p_transfer_punch_hole, p2p_transfer_unknown_cmd,
  safe_close,
}
use edge_compute.PunchHole.Registry.{Scan, scan_start}

-- struct p2p_server_device_info_t, less its list node
pub record Device : Type 0 where
  pub pbev : ℕ
  pub info : MsgDeviceInfo

abbrev pub head_of : (cmd_len cmd : ℕ) → MsgHead
head_of cmd_len cmd = record {
  magic = p2p_transfer_magic;
  msgid = 0;
  src_device_sn = 0;
  dst_device_sn = 0;
  cmd_len = cmd_len;
  cmd = cmd;
}

-- The variables of the query loop: the answer, the entry of the device that asks and the count, and
-- the peer's connection.
pub record ConnScan : Type 0 where
  pub scan : Scan
  pub pdst_peer_bev : Option ℕ

-- The first test of the loop: the entry of the queried device.
unfoldable pub note_peer : (query_device_sn : ℕ) → Device → ConnScan → ConnScan
note_peer query d s =
    if d.info.device_sn == query
    then record {
      scan = record {
        responds = true;
        query_device_info = record {
          device_sn = d.info.device_sn;
          ip_addr = d.info.ip_addr;
          port = d.info.port;
          network_type = d.info.network_type;
        };
        src_device_info = s.scan.src_device_info;
        num = s.scan.num + 1;
      };
      pdst_peer_bev = some d.pbev;
    }
    else s

-- The second test: the entry of the device that asks.
unfoldable pub note_asker : (src_device_sn : ℕ) → Device → ConnScan → ConnScan
note_asker src d s =
    if d.info.device_sn == src
    then record {
      scan = record {
        responds = s.scan.responds;
        query_device_info = s.scan.query_device_info;
        src_device_info = record {
          device_sn = d.info.device_sn;
          ip_addr = d.info.ip_addr;
          port = d.info.port;
          network_type = d.info.network_type;
        };
        num = s.scan.num + 1;
      };
      pdst_peer_bev = s.pdst_peer_bev;
    }
    else s

unfoldable pub scan_conns : (src_device_sn query_device_sn : ℕ) → List Device → ConnScan → ConnScan
unfolding note_peer note_asker
scan_conns src query [] s = s
scan_conns src query (d ∷ rest) s =
    let s' = note_asker src d (note_peer query d s) in
    if s'.scan.num == 2 then s' else scan_conns src query rest s'

abbrev pub conn_start : ConnScan
conn_start = record { scan = scan_start; pdst_peer_bev = none }

unfoldable pub punch_hole_msg : MsgDeviceInfo → Bytes
punch_hole_msg src = head_bytes (head_of 24 p2p_transfer_punch_hole) ++ device_info_bytes src

unfoldable pub response_msg : Scan → Bytes
response_msg s =
    head_bytes (
      head_of 24
        (if s.responds then p2p_transfer_query_device_info_response else p2p_transfer_unknown_cmd))
    ++ device_info_bytes s.query_device_info

-- A cleared buffer of `n` bytes after a read of `b`.
abbrev pub filled : ℕ → Bytes → Bytes
filled n b = b ++ replicate (n - length b) 0

module _ (env : Env) where
  unfoldable pub process_ping_cmd : ℕ → MsgPing → Addr → List Device → M (Bool × List Device)
  process_ping_cmd pbev ping client devices = do
    got ← alloc env 48
    if not got
        then pure (false, devices)
        else pure (
          true,
          record {
            pbev = pbev;
            info = record {
              device_sn = ping.device_sn;
              ip_addr = client.sin_addr;
              port = client.sin_port;
              network_type = ping.network_type;
            };
          }
              ∷ devices,
        )

  -- A null connection fails the assertion.
  unfoldable pub send_punch_hole_cmd_to_peer : Option ℕ → MsgDeviceInfo → M Bool
  send_punch_hole_cmd_to_peer none src = assert false >> pure false
  send_punch_hole_cmd_to_peer (some bev) src = do
    got ← alloc env 64
    if not got then pure false else bufferevent_write env bev (punch_hole_msg src)

  has_peer : Option ℕ → Bool
  has_peer none = false
  has_peer (some bev) = true

  unfoldable pub process_query_device_info_cmd : ℕ → (src query : ℕ) → List Device → M Bool
  unfolding has_peer
  process_query_device_info_cmd pquery_bev src query devices = do
    got ← alloc env 64
    if not got then pure false else do
      got' ← alloc env 24
      if not got' then pure false else do
        let s = scan_conns src query devices conn_start
        punched ← send_punch_hole_cmd_to_peer s.pdst_peer_bev s.scan.src_device_info
        if not punched then pure false else do
          written ← bufferevent_write env pquery_bev (response_msg s.scan)
          if not written then pure false else pure (has_peer s.pdst_peer_bev)

  -- The switch of `conn_read_cb`. The body lies in a buffer of its own; it is read here behind the
  -- 40 bytes of the header.
  unfoldable pub dispatch : ℕ → Addr → Bytes → List Device → M (List Device)
  dispatch pbev client head devices =
      let m = read_head head in
      if m.cmd == p2p_transfer_ping
      then (do
        got ← alloc env 16
        if not got then pure devices else do
          b ← bufferevent_read env pbev 16
          (done, devices') ← process_ping_cmd pbev (read_ping (head ++ filled 16 b)) client devices
          pure devices')
      else if m.cmd == p2p_transfer_query_device_info_request
      then (do
        got ← alloc env 24
        if not got then pure devices else do
          b ← bufferevent_read env pbev 24
          _ ←
              process_query_device_info_cmd pbev m.src_device_sn
                (read_device_info (head ++ filled 24 b)).device_sn devices
          pure devices)
      else pure devices

  unfoldable pub conn_read_cb : ℕ → Addr → List Device → M (List Device)
  conn_read_cb pbev client devices = do
    got ← alloc env 40
    if not got
        then pure devices
        else do b ← bufferevent_read env pbev 40; dispatch pbev client (filled 40 b) devices

  -- The connection ends. The list of devices is not touched.
  unfoldable pub conn_event_cb : ℕ → M (Unit {0})
  conn_event_cb bev = do bufferevent_free bev; safe_close (env.getfd bev)

  -- `some` is the new connection with the client's address, which its callbacks get.
  unfoldable pub listener_cb : ℤ → Addr → M (Option (ℕ × Addr))
  listener_cb conn_sock client = do
    got ← alloc env 16
    if not got then pure none else do
      bev ← bufferevent_new env conn_sock
      elim bev [ none ↦ pure none | some b ↦ pure (some (b, client)) ]

-- What the dispatcher reports.
pub data Happening : Type 0 where
  readable : ℕ → Addr → Happening
  closed : ℕ → Happening

module _ (env : Env) where
  unfoldable pub serve : List Happening → List Device → M (List Device)
  serve [] devices = pure devices
  serve (readable bev client ∷ rest) devices = do
    devices' ← conn_read_cb env bev client devices
    serve rest devices'
  serve (closed bev ∷ rest) devices = conn_event_cb env bev >> serve rest devices

  -- `main`, with what the dispatcher reports.
  unfoldable pub main : List Happening → M ℤ
  main happenings = do
    got ← alloc env 48
    if not got then pure minus_one else do
      opened ← extern env "fopen"
      if int_eq
            (Log.configure_log Log.en_print_debug (some "/var/log/p2p_transfer_server.log") (pos 1)
              opened Log.initial).1
            minus_one
          then pure minus_one
          else do
            base ← extern env "event_base_new"
            if not base then pure minus_one else do
              listener ← extern env "evconnlistener_new_bind"
              if not listener then pure minus_one else do
                _ ← serve happenings []
                dispatched ← extern env "event_base_dispatch"
                if dispatched then pure (pos 0) else pure minus_one
