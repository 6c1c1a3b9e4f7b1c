-- ===== src/PunchHole/Tcp/Server/Query.antt =====
-- What a query does to the TCP server: the loop, an unknown device, and a device that has left.
use edge_compute.Base.{ℕ, ◌≡◌, refl, true, false, List, [], ◌∷◌, arith, map}
use edge_compute.Sys.{Env, History, aborted, allocates}
use edge_compute.PunchHole.Wire.{MsgDeviceInfo}
use edge_compute.PunchHole.Registry.{scan_devices}
use edge_compute.PunchHole.Registry.Lookup.{registered}
use edge_compute.PunchHole.Tcp.Server.{
  Device, ConnScan, conn_start, scan_conns, note_peer, note_asker, process_query_device_info_cmd,
  send_punch_hole_cmd_to_peer,
}

abbrev pub infos : List Device → List MsgDeviceInfo
infos = map λ d. d.info

-- The answer and the entries are those of the UDP server's loop on the devices' information.
pub scan_conns-scan :
    (src query : ℕ) (l : List Device) (s : ConnScan)
    → (scan_conns src query l s).scan ≡ scan_devices src query (infos l) s.scan
unfolding scan_conns scan_devices
scan_conns-scan src query [] s = refl
scan_conns-scan src query (d ∷ rest) s =
    ground (arith, scan_conns-scan src query rest (note_asker src d (note_peer query d s)))

-- A device that is not in the list leaves the connection as it was.
pub scan_conns-none :
    (src query : ℕ) (l : List Device) (s : ConnScan)
    → registered query (infos l) ≡ false
    → (scan_conns src query l s).pdst_peer_bev ≡ s.pdst_peer_bev
unfolding scan_conns
scan_conns-none src query [] s e = refl
scan_conns-none src query (d ∷ rest) s e =
    ground (arith, scan_conns-none src query rest (note_asker src d (note_peer query d s)))

module _ (env : Env) (bev src query : ℕ) (h : History) where
  -- When the two allocations succeed, a query for a device that is not registered ends in a failed
  -- assertion, before anything is written.
  pub process_query_device_info_cmd-aborts :
      (l : List Device)
      → registered query (infos l) ≡ false
      → env.alloc h 64 ≡ true
      → env.alloc (allocates 64 true ∷ h) 24 ≡ true
      → process_query_device_info_cmd env bev src query l h
        ≡ aborted (allocates 24 true ∷ allocates 64 true ∷ h)
  unfolding process_query_device_info_cmd send_punch_hole_cmd_to_peer
  process_query_device_info_cmd-aborts l unknown e e' =
      rw (e, e', scan_conns-none src query l conn_start unknown) refl
