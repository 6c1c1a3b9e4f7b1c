-- ===== src/PunchHole/Registry.antt =====
-- The servers' list of devices, and the loop of `process_query_device_info_cmd` over it.
pub mod Lookup
use edge_compute.Base.{ℕ, ◌+◌, ◌≡◌, Bool, true, false, List, [], ◌∷◌, ◌==◌, if◌then◌else◌}
use edge_compute.PunchHole.Wire.{MsgDeviceInfo, zero_device_info}

-- What the loop has gathered: whether the queried device was met, its entry, the entry of the
-- device that asks, and the variable `num`.
pub record Scan : Type 0 where
  pub responds : Bool
  pub query_device_info : MsgDeviceInfo
  pub src_device_info : MsgDeviceInfo
  pub num : ℕ

abbrev pub scan_start : Scan
scan_start = record {
  responds = false;
  query_device_info = zero_device_info;
  src_device_info = zero_device_info;
  num = 0;
}

unfoldable pub note_query : ℕ → MsgDeviceInfo → Scan → Scan
note_query query_device_sn d s =
    if d.device_sn == query_device_sn
    then record s { responds = true; query_device_info = d; num = s.num + 1 }
    else s

unfoldable pub note_src : ℕ → MsgDeviceInfo → Scan → Scan
note_src src_device_sn d s =
    if d.device_sn == src_device_sn then record s { src_device_info = d; num = s.num + 1 } else s

-- The list is walked from its head, the newest entry, until two entries were noted.
unfoldable pub scan_devices : (src_device_sn query_device_sn : ℕ) → List MsgDeviceInfo → Scan → Scan
unfolding note_query note_src
scan_devices src query [] s = s
scan_devices src query (d ∷ rest) s =
    let s' = note_src src d (note_query query d s) in
    if s'.num == 2 then s' else scan_devices src query rest s'

-- `list_add` of a new entry behind the head of the list.
unfoldable pub list_add : MsgDeviceInfo → List MsgDeviceInfo → List MsgDeviceInfo
list_add d devices = d ∷ devices
