-- ===== src/PunchHole/Udp/Rendezvous.antt =====
-- The UDP server and peer together: what each reads from the other's datagrams, and a session.
use mathlib.Core.List.{append_assoc}
use edge_compute.Base.{
  ℕ, ◌-◌, ◌^◌, ◌<◌, ◌≡◌, ◌≢◌, refl, ap, ◌∙◌, Bool, true, false, some, List, ◌∷◌, ◌++◌, replicate,
  length, ℤ, pos, to_unsigned, arith, if◌then◌else◌,
}
use edge_compute.Sys.{Env, Bytes, Addr, History, ok, allocates, ◌>>=◌, sleeps}
use edge_compute.Sys.Returns.{Returns, returns, bind, mono}
use edge_compute.PunchHole.Wire.{
  MsgHead, MsgPing, MsgDeviceInfo, IsHead, IsDeviceInfo, head_bytes, ping_bytes, device_info_bytes,
  read_head, read_ping, read_device_info, read_head-head_bytes, read_ping-ping_bytes,
  read_device_info-device_info_bytes, zero_device_info,
}
use edge_compute.PunchHole.Common.{
  p2p_transfer_punch_hole, p2p_transfer_ping, p2p_transfer_query_device_info_request,
  p2p_transfer_query_device_info_response, p2p_transfer_unknown_cmd, np_port_restricted_cone_nat,
  generate_peer_addr,
}
use edge_compute.PunchHole.Registry.{Scan, list_add}
use edge_compute.PunchHole.Registry.Lookup.{entry, registered, Unique}
use edge_compute.PunchHole.Udp.Server
use edge_compute.PunchHole.Udp.Server.{Devices, head_of, device_of, punch_hole_msg, response_msg}
use edge_compute.PunchHole.Udp.Server.Query.{
  Serving, datagrams, answers, safe_sendto-datagram, process_query_device_info_cmd-answers,
}
use edge_compute.PunchHole.Udp.Peer
use edge_compute.PunchHole.Udp.Peer.{
  head_from, ping_msg, query_msg, user_data_msg, punch_hole_to_peer_msg,
}

-- A message behind a header, as the receiver's buffer holds it.
abbrev padded : Bytes → Bytes
padded b = b ++ replicate (128 - length b) 0

head_from-IsHead :
    (sn : ℤ) (len cmd : ℕ) → len < 2 ^ 32 → cmd < 2 ^ 32 → IsHead (head_from sn len cmd)
head_from-IsHead sn len cmd a b = ground arith

head_of-IsHead : (len cmd : ℕ) → len < 2 ^ 32 → cmd < 2 ^ 32 → IsHead (head_of len cmd)
head_of-IsHead len cmd a b = ground arith

-- A buffer that starts with a header and goes on with `body`.
module _ (m : MsgHead) (fits : IsHead m) (body : Bytes) where
  padded-head : read_head (padded (head_bytes m ++ body)) ≡ m
  padded-head = ap read_head (append_assoc (head_bytes m) body _) ∙ read_head-head_bytes m _ fits

  padded-body :
      padded (head_bytes m ++ body)
      ≡ head_bytes m ++ (body ++ replicate (128 - length (head_bytes m ++ body)) 0)
  padded-body = append_assoc (head_bytes m) body _

abbrev pub pinged : ℤ → Addr → MsgDeviceInfo
pinged sn a =
    device_of
      (record { device_sn = to_unsigned (2 ^ 64) sn; network_type = np_port_restricted_cone_nat }) a

module _ (env : Env) (uninit : Addr) (sock : ℤ) (serving : Serving env sock) where
  -- A peer's ping registers the peer under its number, at the address that the datagram came from.
  pub on_received-ping_msg :
      (sn : ℤ) (a : Addr) (l : Devices) (h : History)
      → Server.on_received env uninit sock l (some (ping_msg sn, a)) h
        ≡ ok (list_add (pinged sn a) l) (allocates 40 true ∷ h)
  unfolding Server.on_received Server.dispatch Server.process_ping_cmd ping_msg
  on_received-ping_msg sn a l h =
      let m = head_from sn 16 p2p_transfer_ping in
      let p : MsgPing = record {
        device_sn = to_unsigned (2 ^ 64) sn;
        network_type = np_port_restricted_cone_nat;
      } in
      let fits = head_from-IsHead sn 16 p2p_transfer_ping (omega arith) (omega arith) in
      let read : read_ping (padded (head_bytes m ++ ping_bytes p)) ≡ p =
        ap read_ping (padded-body m fits (ping_bytes p))
        ∙ read_ping-ping_bytes m _ p (ground arith) in
      rw (padded-head m fits (ping_bytes p), serving.alloc h 40, read) refl

  -- Let memory be there, every send go out, and the list hold no device twice.
  -- The bytes of a peer's query are answered for device 2222 on behalf of the peer's number, which
  -- is another one, and the list stays as it is.
  pub on_received-query_msg :
      (sn : ℤ) (a : Addr) (l : Devices) (h : History)
      → to_unsigned (2 ^ 64) sn ≢ 2222
      → Unique l
      → Returns
          (λ (l' : Devices) g.
            (l' ≡ l)
            × ((s : Scan) × (s.responds ≡ registered 2222 l)
                × (s.query_device_info ≡ entry 2222 zero_device_info l)
                × (s.src_device_info ≡ entry (to_unsigned (2 ^ 64) sn) zero_device_info l)
                × (datagrams g ≡ answers s a (datagrams h))))
          (Server.on_received env uninit sock l (some (query_msg sn, a)) h)
  unfolding Server.on_received Server.dispatch query_msg
  on_received-query_msg sn a l h ne u =
      let m = head_from sn 24 p2p_transfer_query_device_info_request in
      let d : MsgDeviceInfo = record {
        device_sn = 2222;
        ip_addr = 0;
        port = 0;
        network_type = 0;
      } in
      let fits =
        head_from-IsHead sn 24 p2p_transfer_query_device_info_request (omega arith) (omega arith) in
      let read : read_device_info (padded (head_bytes m ++ device_info_bytes d)) ≡ d =
        ap read_device_info (padded-body m fits (device_info_bytes d))
        ∙ read_device_info-device_info_bytes m _ d (ground arith) in
      rw (padded-head m fits (device_info_bytes d), read)
        (bind
          (process_query_device_info_cmd-answers env uninit sock serving (to_unsigned (2 ^ 64) sn)
            2222 a l h ne u)
          λ done g (e, s). returns (refl, s))

-- What a peer does with the two messages of the server: the addresses come from the message.
module _ (env : Env) (sn : ℤ) (sock : ℤ) (serving : Serving env sock) (d : MsgDeviceInfo)
    (fits : IsDeviceInfo d) where
  -- Let memory be there and every send go out. The bytes of a PUNCH_HOLE with
  -- fields that fit their widths make the peer send PUNCH_HOLE_TO_PEER to the address in the
  -- message, and nothing else.
  pub on_received-punch_hole_msg :
      (a : Addr) (h : History)
      → Returns
          (λ _ g. datagrams g ≡ (generate_peer_addr d, punch_hole_to_peer_msg sn) ∷ datagrams h)
          (Peer.on_received env sn sock (some (punch_hole_msg d, a)) h)
  unfolding Peer.on_received Peer.dispatch Peer.process_punch_hole_cmd punch_hole_msg datagrams
  on_received-punch_hole_msg a h =
      let m = head_of 0 p2p_transfer_punch_hole in
      let good = head_of-IsHead 0 p2p_transfer_punch_hole (omega arith) (omega arith) in
      let read : read_device_info (padded (head_bytes m ++ device_info_bytes d)) ≡ d =
        ap read_device_info (padded-body m good (device_info_bytes d))
        ∙ read_device_info-device_info_bytes m _ d fits in
      rw (padded-head m good (device_info_bytes d), read, serving.alloc h 40)
        (bind
          (safe_sendto-datagram env a sock serving (punch_hole_to_peer_msg sn)
            (generate_peer_addr d) (allocates 40 true ∷ h))
          λ done g (e, sent). returns sent)

  -- Let memory be there and every send go out. The bytes of a response with
  -- fields that fit their widths make the peer send its user data to the device that was queried,
  -- if the response knows it, and nothing else; a response for an unknown device makes it send
  -- nothing.
  pub on_received-response_msg :
      (s : Scan) (a : Addr) (h : History)
      → s.query_device_info ≡ d
      → Returns
          (λ _ g. datagrams g ≡ (
            if s.responds
            then (generate_peer_addr d, user_data_msg sn) ∷ datagrams h
            else datagrams h))
          (Peer.on_received env sn sock (some (response_msg s, a)) h)
  unfolding Peer.on_received Peer.dispatch Peer.punch_hole response_msg datagrams
  on_received-response_msg s a h e = responded s.responds
    where
      good :
          (b : Bool)
          → IsHead (
              head_of 24
                (if b then p2p_transfer_query_device_info_response else p2p_transfer_unknown_cmd))
      good true =
          head_of-IsHead 24 p2p_transfer_query_device_info_response (omega arith) (omega arith)
      good false = head_of-IsHead 24 p2p_transfer_unknown_cmd (omega arith) (omega arith)

      responded :
          (b : Bool)
          → Returns
              (λ _ g. datagrams g ≡ (
                if b then (generate_peer_addr d, user_data_msg sn) ∷ datagrams h else datagrams h))
              (Peer.dispatch env sn sock
                (padded (
                  head_bytes (
                    head_of 24 (
                      if b
                      then p2p_transfer_query_device_info_response
                      else p2p_transfer_unknown_cmd))
                  ++ device_info_bytes s.query_device_info))
                h)
      responded false =
          rw
            (padded-head (head_of 24 p2p_transfer_unknown_cmd) (good false)
              (device_info_bytes s.query_device_info))
            (returns refl)
      responded true =
          let m = head_of 24 p2p_transfer_query_device_info_response in
          let read : read_device_info
                (padded (head_bytes m ++ device_info_bytes s.query_device_info))
              ≡ d =
            ap read_device_info (padded-body m (good true) (device_info_bytes s.query_device_info))
            ∙ read_device_info-device_info_bytes m _ s.query_device_info (rw e fits)
            ∙ e in
          rw
            (
              padded-head m (good true) (device_info_bytes s.query_device_info),
              read,
              serving.alloc (sleeps 5 ∷ h) 44,
            )
            (bind
              (safe_sendto-datagram env a sock serving (user_data_msg sn) (generate_peer_addr d)
                (allocates 44 true ∷ sleeps 5 ∷ h))
              λ done g (e', sent). returns sent)

module _ (env : Env) (uninit : Addr) (sock : ℤ) (serving : Serving env sock) where
  -- Let memory be there, every send go out, and the server's list hold no device
  -- twice and neither the device `sn` nor device 2222. After a ping of `sn` from `a`, one of
  -- device 2222 from `b`, and a query of `sn`, the server has sent the address that device 2222
  -- pinged from a PUNCH_HOLE with the entry of `sn`, then `a` a response with the entry of device
  -- 2222, and nothing else.
  pub session-datagrams :
      (sn : ℤ) (a b : Addr) (l : Devices) (h : History)
      → to_unsigned (2 ^ 64) sn ≢ 2222
      → Unique l
      → registered (to_unsigned (2 ^ 64) sn) l ≡ false
      → registered 2222 l ≡ false
      → Returns
          (λ (l' : Devices) g.
            (s : Scan) × (s.responds ≡ true)
            × (s.query_device_info ≡ pinged (pos 2222) b)
            × (datagrams g
                ≡ (a, response_msg s)
                  ∷ (generate_peer_addr (pinged (pos 2222) b), punch_hole_msg (pinged sn a))
                  ∷ datagrams h))
          ((Server.on_received env uninit sock l (some (ping_msg sn, a)) >>= λ l₁.
              Server.on_received env uninit sock l₁ (some (ping_msg (pos 2222), b)) >>= λ l₂.
              Server.on_received env uninit sock l₂ (some (query_msg sn, a)))
            h)
  unfolding list_add device_of datagrams
  session-datagrams sn a b l h ne u new new' =
      let l₂ = list_add (pinged (pos 2222) b) (list_add (pinged sn a) l) in
      rw
        (
          on_received-ping_msg env uninit sock serving sn a l h,
          on_received-ping_msg env uninit sock serving (pos 2222) b (list_add (pinged sn a) l)
              (allocates 40 true ∷ h),
        )
        (mono
          (on_received-query_msg env uninit sock serving sn a l₂
            (allocates 40 true ∷ allocates 40 true ∷ h) ne (ground arith))
          λ l' g (same, (s, known, query, src, sent)).
            let asks : s.src_device_info ≡ pinged sn a = ground arith in
            let split : answers s a (datagrams h)
                ≡ (a, response_msg s)
                  ∷ (generate_peer_addr s.query_device_info, punch_hole_msg s.src_device_info)
                  ∷ datagrams h =
              ap
                (λ (t : Bool).
                  (a, response_msg s)
                  ∷ (if t
                      then (
                        generate_peer_addr s.query_device_info,
                        punch_hole_msg s.src_device_info,
                      )
                        ∷ datagrams h
                      else datagrams h))
                known in
            let named : ◌≡◌ {A = List (Addr × Bytes)}
                ((a, response_msg s)
                  ∷ (generate_peer_addr s.query_device_info, punch_hole_msg s.src_device_info)
                  ∷ datagrams h)
                ((a, response_msg s)
                  ∷ (generate_peer_addr (pinged (pos 2222) b), punch_hole_msg (pinged sn a))
                  ∷ datagrams h) =
              λ i.
                (a, response_msg s)
                ∷ (generate_peer_addr (query i), punch_hole_msg (asks i))
                ∷ datagrams h in
            (s, known, query, sent ∙ split ∙ named))
