-- ===== src/Tests/Tcp.antt =====
-- The theorems of the TCP programs at concrete devices and connections.
use edge_compute.Base.{◌≡◌, refl, true, false, none, some, List, [], ◌∷◌, minus_one}
use edge_compute.Sys.{History, ok, aborted, out_of_bounds, allocates, writes, ◌>>◌}
use edge_compute.Sys.Returns.{Returns}
use edge_compute.PunchHole.Registry.{Scan}
use edge_compute.PunchHole.Tcp.Server
use edge_compute.PunchHole.Tcp.Server.{Device, scan_conns, conn_start}
use edge_compute.PunchHole.Tcp.Server.Query.{process_query_device_info_cmd-aborts}
use edge_compute.PunchHole.Tcp.Server.Connection.{
  scan_conns-Unique, process_query_device_info_cmd-writes, process_query_device_info_cmd-freed,
}
use edge_compute.PunchHole.Tcp.Peer.{Client, connect_peer}
use edge_compute.PunchHole.Tcp.Peer.{connect_server}
use edge_compute.PunchHole.Tcp.Peer.Joining.{Joined, connect_server-Joined}
use edge_compute.Base.{inr, pos}
use edge_compute.PunchHole.Tcp.Peer.Retries.{Balanced, connect_peer-Balanced}
use edge_compute.Tests.Systems.{working}
use edge_compute.Tests.Transfer.{asking, asked, devices-Unique, distinct}

abbrev connections : List Device
connections = record { pbev = 8; info = asked } ∷ record { pbev = 9; info = asking } ∷ []

scan_conns-Unique_example :
    ((scan_conns 1111 2222 connections conn_start).scan.responds ≡ true)
    × ((scan_conns 1111 2222 connections conn_start).scan.query_device_info ≡ asked)
    × ((scan_conns 1111 2222 connections conn_start).scan.src_device_info ≡ asking)
    × ((scan_conns 1111 2222 connections conn_start).pdst_peer_bev ≡ some 8)
scan_conns-Unique_example = scan_conns-Unique 1111 2222 connections distinct devices-Unique

process_query_device_info_cmd-aborts_example :
    Server.process_query_device_info_cmd (working []) 9 1111 3333 connections []
    ≡ aborted (allocates 24 true ∷ allocates 64 true ∷ [])
process_query_device_info_cmd-aborts_example =
    process_query_device_info_cmd-aborts (working []) 9 1111 3333 [] connections refl refl refl

process_query_device_info_cmd-writes_example :
    (s : Scan) × (s.responds ≡ true)
    × (s.query_device_info ≡ asked)
    × (s.src_device_info ≡ asking)
    × (Server.process_query_device_info_cmd (working []) 9 1111 2222 connections []
        ≡ ok true (
            writes 9 (Server.response_msg s) true
            ∷ writes 8 (Server.punch_hole_msg s.src_device_info) true
            ∷ allocates 64 true
            ∷ allocates 24 true
            ∷ allocates 64 true
            ∷ []))
process_query_device_info_cmd-writes_example =
    process_query_device_info_cmd-writes (working []) (λ h n. refl) 9 1111 2222 8 connections
      distinct devices-Unique refl [] (λ g b m. refl) refl refl

process_query_device_info_cmd-freed_example :
    (g : History) × ((Server.conn_event_cb (working []) 8
          >> Server.process_query_device_info_cmd (working []) 9 1111 2222 connections)
        []
      ≡ out_of_bounds g)
process_query_device_info_cmd-freed_example =
    process_query_device_info_cmd-freed (working []) (λ h n. refl) 9 1111 2222 8 connections
      distinct devices-Unique refl []

abbrev client : Client
client = record {
  base = true;
  device_sn = 1111;
  user_event = false;
  local_ip = 10;
  conn_server_sock = minus_one;
  ping_event = false;
  ping_bev = none;
  listen_local_sock = minus_one;
  listener = none;
}

connect_peer-Balanced_example :
    Returns (Balanced (working []) [] 9) (connect_peer (working []) client asked [])
connect_peer-Balanced_example = connect_peer-Balanced (working []) client asked [] λ g. (λ e. cc)

connect_server-Joined_example :
    Returns (Joined (working []) (pos 3) client []) (connect_server (working []) client [])
connect_server-Joined_example = connect_server-Joined (working []) client [] (inr refl)
