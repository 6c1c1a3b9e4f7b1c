-- ===== src/Tests/Transfer.antt =====
-- PunchHole's theorems at concrete devices, messages and sessions.
use edge_compute.Base.{ℕ, ◌≡◌, ◌≢◌, refl, Bool, true, some, [], ◌∷◌, ◌++◌, pos, arith}
use edge_compute.Sys.{Addr, addr, ◌>>=◌}
use edge_compute.Sys.Returns.{Returns}
use edge_compute.PunchHole.Wire.{
  MsgHead, MsgPing, MsgDeviceInfo, IsHead, IsPing, IsDeviceInfo, head_bytes, device_info_bytes,
  read_head, read_device_info, p2p_transfer_magic,
}
use edge_compute.PunchHole.Wire.Abi.{
  IsLaid, head_fields, device_info_fields, device_info_bytes-IsLaid,
}
use edge_compute.PunchHole.Common.{generate_peer_addr}
use edge_compute.PunchHole.Registry.{Scan, scan_start, scan_devices}
use edge_compute.PunchHole.Registry.Lookup.{Unique, scan_devices-Unique}
use edge_compute.PunchHole.Udp.Server
use edge_compute.PunchHole.Udp.Server.{Devices, punch_hole_msg, response_msg}
use edge_compute.PunchHole.Udp.Server.Query.{
  datagrams, answers, process_query_device_info_cmd-answers,
}
use edge_compute.PunchHole.Udp.Peer
use edge_compute.PunchHole.Udp.Peer.{ping_msg, query_msg, user_data_msg, punch_hole_to_peer_msg}
use edge_compute.PunchHole.Udp.Rendezvous.{
  pinged, on_received-query_msg, on_received-response_msg, session-datagrams,
}
use edge_compute.Tests.Systems.{working, working-Serving}

abbrev asker : Addr
asker = addr 10 1000

abbrev pub asking : MsgDeviceInfo
asking = record { device_sn = 1111; ip_addr = 10; port = 1000; network_type = 4 }

abbrev pub asked : MsgDeviceInfo
asked = record { device_sn = 2222; ip_addr = 20; port = 2000; network_type = 4 }

abbrev pub devices : Devices
devices = asked ∷ asking ∷ []

pub devices-Unique : Unique devices
devices-Unique = (refl, (refl, tt))

pub distinct : ◌≢◌ {A = ℕ} 1111 2222
distinct = omega arith

asked-IsDeviceInfo : IsDeviceInfo asked
asked-IsDeviceInfo = record {
  sn = omega arith;
  ip = omega arith;
  port = omega arith;
  type = omega arith;
}

abbrev head : MsgHead
head = record {
  magic = p2p_transfer_magic;
  msgid = 0;
  src_device_sn = 1111;
  dst_device_sn = 0;
  cmd_len = 24;
  cmd = 2;
}

head-IsHead : IsHead head
head-IsHead = record {
  magic = omega arith;
  msgid = omega arith;
  src = omega arith;
  dst = omega arith;
  len = omega arith;
  cmd = omega arith;
}

abbrev ping : MsgPing
ping = record { device_sn = 1111; network_type = 4 }

ping-IsPing : IsPing ping
ping-IsPing = record { sn = omega arith; type = omega arith }

device_info_bytes-IsLaid_example :
    IsLaid (head_fields head) (head_bytes head)
    × IsLaid (device_info_fields asked) (device_info_bytes asked)
    × (read_head (head_bytes head ++ (device_info_bytes asked ++ (1 ∷ []))) ≡ head)
    × (read_device_info (head_bytes head ++ (device_info_bytes asked ++ (1 ∷ []))) ≡ asked)
device_info_bytes-IsLaid_example =
    device_info_bytes-IsLaid head asked (1 ∷ []) head-IsHead asked-IsDeviceInfo

scan_devices-Unique_example :
    ((scan_devices 1111 2222 devices scan_start).responds ≡ true)
    × ((scan_devices 1111 2222 devices scan_start).query_device_info ≡ asked)
    × ((scan_devices 1111 2222 devices scan_start).src_device_info ≡ asking)
scan_devices-Unique_example = scan_devices-Unique 1111 2222 devices distinct devices-Unique

process_query_device_info_cmd-answers_example :
    Returns
      (λ (done : Bool) g.
        (done ≡ true)
        × ((s : Scan) × (s.responds ≡ true)
            × (s.query_device_info ≡ asked)
            × (s.src_device_info ≡ asking)
            × (datagrams g ≡ answers s asker (datagrams []))))
      (Server.process_query_device_info_cmd
        (working [])
        (addr 0 0)
        (pos 3)
        1111
        2222
        asker
        devices
        [])
process_query_device_info_cmd-answers_example =
    process_query_device_info_cmd-answers (working []) (addr 0 0) (pos 3)
      (working-Serving [] (pos 3)) 1111 2222 asker devices [] distinct devices-Unique

on_received-query_msg_example :
    Returns
      (λ (l' : Devices) g.
        (l' ≡ devices)
        × ((s : Scan) × (s.responds ≡ true)
            × (s.query_device_info ≡ asked)
            × (s.src_device_info ≡ asking)
            × (datagrams g ≡ answers s asker (datagrams []))))
      (Server.on_received
        (working [])
        (addr 0 0)
        (pos 3)
        devices
        (some (query_msg (pos 1111), asker))
        [])
on_received-query_msg_example =
    on_received-query_msg (working []) (addr 0 0) (pos 3) (working-Serving [] (pos 3)) (pos 1111)
      asker devices [] distinct devices-Unique

abbrev found : Scan
found = record { responds = true; query_device_info = asked; src_device_info = asking; num = 2 }

on_received-response_msg_example :
    Returns
      (λ _ g. datagrams g ≡ (generate_peer_addr asked, user_data_msg (pos 1111)) ∷ datagrams [])
      (Peer.on_received (working []) (pos 1111) (pos 3) (some (response_msg found, asker)) [])
on_received-response_msg_example =
    on_received-response_msg (working []) (pos 1111) (pos 3) (working-Serving [] (pos 3)) asked
      asked-IsDeviceInfo found asker [] refl

session-datagrams_example :
    Returns
      (λ (l' : Devices) g.
        (s : Scan) × (s.responds ≡ true)
        × (s.query_device_info ≡ pinged (pos 2222) (addr 20 2000))
        × (datagrams g
            ≡ (asker, response_msg s)
              ∷ (
                generate_peer_addr (pinged (pos 2222) (addr 20 2000)),
                punch_hole_msg (pinged (pos 1111) asker),
              )
              ∷ datagrams []))
      ((Server.on_received (working []) (addr 0 0) (pos 3) [] (some (ping_msg (pos 1111), asker))
          >>= λ l₁.
              Server.on_received
                (working [])
                (addr 0 0)
                (pos 3)
                l₁
                (some (ping_msg (pos 2222), addr 20 2000))
              >>= λ l₂.
                  Server.on_received
                    (working [])
                    (addr 0 0)
                    (pos 3)
                    l₂
                    (some (query_msg (pos 1111), asker)))
        [])
session-datagrams_example =
    session-datagrams (working []) (addr 0 0) (pos 3) (working-Serving [] (pos 3)) (pos 1111) asker
      (addr 20 2000) [] [] distinct tt refl refl
