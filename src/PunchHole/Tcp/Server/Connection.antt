-- ===== src/PunchHole/Tcp/Server/Connection.antt =====
-- Which connection a query reaches at the TCP server, and what it writes there.
use edge_compute.Base.{
  ℕ, ◌+◌, ◌≡◌, ◌≢◌, refl, ◌∙◌, Bool, true, false, Option, none, some, List, [], ◌∷◌, ◌==◌,
  if◌then◌else◌, arith, Bool-cases, inl, inr, is_pos, ==_refl, sym, subst,
}
use edge_compute.Sys.{
  Env, Bytes, History, ok, out_of_bounds, allocates, frees, closes, writes, is_freed, ◌>>◌,
}
use edge_compute.PunchHole.Wire.{zero_device_info}
use edge_compute.PunchHole.Common.{safe_close}
use edge_compute.PunchHole.Registry.{Scan, scan_start, scan_devices}
use edge_compute.PunchHole.Registry.Lookup.{registered, entry, Unique, Partial, scan_devices-Unique}
use edge_compute.PunchHole.Tcp.Server.{
  Device, ConnScan, conn_start, scan_conns, process_query_device_info_cmd,
  send_punch_hole_cmd_to_peer, conn_event_cb, punch_hole_msg, response_msg,
}
use edge_compute.PunchHole.Tcp.Server.Query.{infos, scan_conns-scan, scan_conns-none}

-- The connection of the first entry of a device.
abbrev pub conn : ℕ → Option ℕ → List Device → Option ℕ
conn sn other [] = other
conn sn other (d ∷ rest) = if d.info.device_sn == sn then some d.pbev else conn sn other rest

conn-none :
    (sn : ℕ) (other : Option ℕ) (l : List Device)
    → registered sn (infos l) ≡ false
    → conn sn other l ≡ other
conn-none sn other [] e = refl
conn-none sn other (d ∷ rest) e = ground (arith, conn-none sn other rest)

scan_conns-conn :
    (src query : ℕ) (met : Bool) (l : List Device) (s : ConnScan)
    → src ≢ query
    → Unique (infos l)
    → Partial src query met (infos l) s.scan
    → (scan_conns src query l s).pdst_peer_bev ≡ conn query s.pdst_peer_bev l
unfolding scan_conns
scan_conns-conn src query met [] s ne u p = refl
scan_conns-conn src query met (d ∷ rest) s ne u p =
    let sq : Scan = record s.scan {
      responds = true;
      query_device_info = d.info;
      num = s.scan.num + 1;
    } in
    let ss : Scan = record s.scan { src_device_info = d.info; num = s.scan.num + 1 } in
    elim (Bool-cases (d.info.device_sn == query)) [
      | inl is_query ↦ ground (
        arith,
        scan_conns-none src query rest (record { scan = sq; pdst_peer_bev = some d.pbev }),
        conn-none query (some d.pbev) rest,
      )
      | inr other ↦ elim (Bool-cases (d.info.device_sn == src)) [
        | inl is_src ↦ ground (
          arith,
          scan_conns-conn src query true rest
              (record { scan = ss; pdst_peer_bev = s.pdst_peer_bev }) ne u.1,
          conn-none query s.pdst_peer_bev rest,
        )
        | inr neither ↦ ground (arith, scan_conns-conn src query met rest s ne u.1)
      ]
    ]

-- In a list that holds no device twice, the TCP server's loop for two different devices finds the
-- queried device exactly if it is registered, with its entry and its connection, and the entry of the
-- device that asks; an entry that is not there stays zero, and a connection null.
pub scan_conns-Unique :
    (src query : ℕ) (l : List Device)
    → src ≢ query
    → Unique (infos l)
    → ((scan_conns src query l conn_start).scan.responds ≡ registered query (infos l))
      × ((scan_conns src query l conn_start).scan.query_device_info
          ≡ entry query zero_device_info (infos l))
      × ((scan_conns src query l conn_start).scan.src_device_info
          ≡ entry src zero_device_info (infos l))
      × ((scan_conns src query l conn_start).pdst_peer_bev ≡ conn query none l)
scan_conns-Unique src query l ne u =
    let same = sym (scan_conns-scan src query l conn_start) in
    let (a, b, d) = scan_devices-Unique src query (infos l) ne u in
    let bev = scan_conns-conn src query false l conn_start ne u (record {
      counted = refl;
      open_num = omega arith;
      query_once = λ e. cc;
      src_once = λ e. cc;
    }) in
    subst
      (λ (s : Scan).
        (s.responds ≡ registered query (infos l))
        × (s.query_device_info ≡ entry query zero_device_info (infos l))
        × (s.src_device_info ≡ entry src zero_device_info (infos l))
        × ((scan_conns src query l conn_start).pdst_peer_bev ≡ conn query none l))
      same (a, b, d, bev)

module _ (env : Env) (alloc : (h : History) (n : ℕ) → env.alloc h n ≡ true) (bev src query peer : ℕ)
    (l : List Device) (ne : src ≢ query) (u : Unique (infos l))
    (at : conn query none l ≡ some peer) where
  abbrev scanned : Scan
  scanned = scan_devices src query (infos l) scan_start

  reached : (scan_conns src query l conn_start).pdst_peer_bev ≡ some peer
  reached = (scan_conns-Unique src query l ne u).3 ∙ at

  -- Let memory be there, and let the list hold no device twice and the queried device, not the one
  -- that asks, at connection `peer`. If writes succeed and both connections are open, a query writes
  -- a PUNCH_HOLE with the entry of the device that asks to `peer`, then the queried device's entry to
  -- the connection that asks, and nothing else.
  pub process_query_device_info_cmd-writes :
      (h : History)
      → ((g : History) (b : ℕ) (m : Bytes) → env.bufferevent_write g b m ≡ true)
      → is_freed peer h ≡ false
      → is_freed bev h ≡ false
      → (s : Scan) × (s.responds ≡ registered query (infos l))
        × (s.query_device_info ≡ entry query zero_device_info (infos l))
        × (s.src_device_info ≡ entry src zero_device_info (infos l))
        × (process_query_device_info_cmd env bev src query l h
            ≡ ok true (
                writes bev (response_msg s) true
                ∷ writes peer (punch_hole_msg s.src_device_info) true
                ∷ allocates 64 true
                ∷ allocates 24 true
                ∷ allocates 64 true
                ∷ h))
  unfolding process_query_device_info_cmd send_punch_hole_cmd_to_peer
  process_query_device_info_cmd-writes h write open_peer open_bev =
      let h₃ = allocates 64 true ∷ allocates 24 true ∷ allocates 64 true ∷ h in
      let h₄ = writes peer (punch_hole_msg scanned.src_device_info) true ∷ h₃ in
      let (a, b, d) = scan_devices-Unique src query (infos l) ne u in
      (
        scanned,
        a,
        b,
        d,
        rw
            (
              alloc h 64,
              alloc (allocates 64 true ∷ h) 24,
              reached,
              scan_conns-scan src query l conn_start,
              alloc (allocates 24 true ∷ allocates 64 true ∷ h) 64,
              open_peer,
              write h₃ peer (punch_hole_msg scanned.src_device_info),
              open_bev,
              write h₄ bev (response_msg scanned),
            )
            refl,
      )

  -- Let memory be there, and let the list hold no device twice and the queried device, not the one
  -- that asks, at connection `peer`. Once the event callback has ended `peer`, a query for that
  -- device uses the freed connection.
  pub process_query_device_info_cmd-freed :
      (h : History)
      → (g : History) × ((conn_event_cb env peer
              >> process_query_device_info_cmd env bev src query l)
            h
          ≡ out_of_bounds g)
  unfolding process_query_device_info_cmd send_punch_hole_cmd_to_peer conn_event_cb safe_close
  process_query_device_info_cmd-freed h = elim (Bool-cases (is_pos (env.getfd peer))) [
    | inl held ↦
        let g = closes (env.getfd peer) ∷ frees peer ∷ h in
        (
          allocates 64 true ∷ allocates 24 true ∷ allocates 64 true ∷ g,
          rw
              (
                held,
                alloc g 64,
                alloc (allocates 64 true ∷ g) 24,
                reached,
                alloc (allocates 24 true ∷ allocates 64 true ∷ g) 64,
                ==_refl peer,
              )
              refl,
        )
    | inr none_held ↦
        let g = frees peer ∷ h in
        (
          allocates 64 true ∷ allocates 24 true ∷ allocates 64 true ∷ g,
          rw
              (
                none_held,
                alloc g 64,
                alloc (allocates 64 true ∷ g) 24,
                reached,
                alloc (allocates 24 true ∷ allocates 64 true ∷ g) 64,
                ==_refl peer,
              )
              refl,
        )
  ]
