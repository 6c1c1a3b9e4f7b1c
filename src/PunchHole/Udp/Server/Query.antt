-- ===== src/PunchHole/Udp/Server/Query.antt =====
-- What the UDP server sends for a query, and in which order.
use edge_compute.Base.{
  ℕ, ◌≡◌, ◌≢◌, refl, Bool, true, not, List, [], ◌∷◌, if◌then◌else◌, ℤ, arith, length,
}
use edge_compute.Sys.{Env, Bytes, Addr, History, Event, allocates, sent}
use edge_compute.Sys.Returns.{Returns, returns, bind, mono, choose}
use edge_compute.PunchHole.Wire.{MsgDeviceInfo, zero_device_info}
use edge_compute.PunchHole.Common.{safe_sendto, after_send, generate_peer_addr}
use edge_compute.PunchHole.Registry.{Scan, scan_start, scan_devices}
use edge_compute.PunchHole.Registry.Lookup.{entry, registered, Unique, scan_devices-Unique}
use edge_compute.PunchHole.Udp.Server.{
  Devices, punch_hole_msg, response_msg, send_punch_hole_cmd_to_peer, process_query_device_info_cmd,
}

-- The datagrams that went out in a history, with their destinations, newest first; a call of
-- `sendto` that failed or was interrupted sent none.
unfoldable pub datagrams : History → List (Addr × Bytes)
datagrams [] = []
datagrams (Event.sends fd a b (sent n) ∷ h) = (a, b) ∷ datagrams h
datagrams (_ ∷ h) = datagrams h

-- Memory is there, and every send goes out.
pub record Serving (env : Env) (sock : ℤ) : Type 0 where
  pub alloc : (h : History) (n : ℕ) → env.alloc h n ≡ true
  pub sendto : (h : History) (b : Bytes) (a : Addr) → env.sendto h sock b a ≡ sent (length b)

-- The answer for a scan: to a registered device first a PUNCH_HOLE that names the device that asks.
abbrev pub answers : Scan → Addr → List (Addr × Bytes) → List (Addr × Bytes)
answers s asker before =
    (asker, response_msg s)
    ∷ (if s.responds
        then (generate_peer_addr s.query_device_info, punch_hole_msg s.src_device_info) ∷ before
        else before)

module _ (env : Env) (uninit : Addr) (sock : ℤ) (serving : Serving env sock) where
  pub safe_sendto-datagram :
      (b : Bytes) (a : Addr) (h : History)
      → Returns
          (λ (done : Bool) g. (done ≡ true) × (datagrams g ≡ (a, b) ∷ datagrams h))
          (safe_sendto env sock b a h)
  unfolding safe_sendto after_send datagrams
  safe_sendto-datagram b a h = rw (serving.sendto h b a) (returns (refl, refl))

  send_punch_hole-datagram :
      (src query : MsgDeviceInfo) (h : History)
      → Returns
          (λ (done : Bool) g.
            (done ≡ true)
            × (datagrams g ≡ (generate_peer_addr query, punch_hole_msg src) ∷ datagrams h))
          (send_punch_hole_cmd_to_peer env uninit sock src query h)
  unfolding send_punch_hole_cmd_to_peer datagrams
  send_punch_hole-datagram src query h =
      rw (serving.alloc h 64) (
        safe_sendto-datagram (punch_hole_msg src) (generate_peer_addr query)
          (allocates 64 true ∷ h))

  process_query-answers :
      (src query : ℕ) (asker : Addr) (l : Devices) (h : History)
      → Returns
          (λ (done : Bool) g.
            (done ≡ true)
            × (datagrams g ≡ answers (scan_devices src query l scan_start) asker (datagrams h)))
          (process_query_device_info_cmd env uninit sock src query asker l h)
  unfolding process_query_device_info_cmd datagrams
  process_query-answers src query asker l h =
      let s = scan_devices src query l scan_start in
      let h₂ = allocates 24 true ∷ allocates 64 true ∷ h in
      rw (serving.alloc h 64, serving.alloc (allocates 64 true ∷ h) 24)
        (choose (not s.responds) _ _ h₂
          (λ e.
            mono (safe_sendto-datagram (response_msg s) asker h₂)
              λ done g (e', d). (e', ground arith))
          (λ e.
            bind (send_punch_hole-datagram s.src_device_info s.query_device_info h₂)
              λ punched g (e', d). rw e' (
                mono (safe_sendto-datagram (response_msg s) asker g)
                  λ done g' (e'', d'). (e'', ground arith))))

  -- Let memory be there, every send go out, and the list hold no device twice. A
  -- query for another device succeeds. If the queried device is registered, it is sent a
  -- PUNCH_HOLE with the entry of the device that asks, at the address of its own entry, and then
  -- the device that asks is sent that entry; otherwise only the device that asks is sent an
  -- answer.
  pub process_query_device_info_cmd-answers :
      (src query : ℕ) (asker : Addr) (l : Devices) (h : History)
      → src ≢ query
      → Unique l
      → Returns
          (λ (done : Bool) g.
            (done ≡ true)
            × ((s : Scan) × (s.responds ≡ registered query l)
                × (s.query_device_info ≡ entry query zero_device_info l)
                × (s.src_device_info ≡ entry src zero_device_info l)
                × (datagrams g ≡ answers s asker (datagrams h))))
          (process_query_device_info_cmd env uninit sock src query asker l h)
  process_query_device_info_cmd-answers src query asker l h ne u =
      let (a, b, d) = scan_devices-Unique src query l ne u in
      mono (process_query-answers src query asker l h)
        λ done g (e, out). (e, (scan_devices src query l scan_start, a, b, d, out))
