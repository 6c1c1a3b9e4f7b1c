-- ===== src/PunchHole/Registry/Lookup.antt =====
-- What the servers' loop finds in the list of devices.
use edge_compute.Base.{
  ℕ, ◌+◌, ◌<◌, ◌≡◌, ◌≢◌, refl, Bool, true, false, ◌||◌, List, [], ◌∷◌, ◌==◌, if◌then◌else◌, arith,
  Bool-cases, inl, inr,
}
use edge_compute.PunchHole.Wire.{MsgDeviceInfo, zero_device_info}
use edge_compute.PunchHole.Registry.{Scan, scan_start, scan_devices}

-- The first entry of a device, or the second argument.
abbrev pub entry : ℕ → MsgDeviceInfo → List MsgDeviceInfo → MsgDeviceInfo
entry sn other [] = other
entry sn other (d ∷ rest) = if d.device_sn == sn then d else entry sn other rest

abbrev pub registered : ℕ → List MsgDeviceInfo → Bool
registered sn [] = false
registered sn (d ∷ rest) = if d.device_sn == sn then true else registered sn rest

-- No device stands twice in the list.
abbrev pub Unique : List MsgDeviceInfo → Type 0
Unique [] = Unit {0}
Unique (d ∷ rest) = (registered d.device_sn rest ≡ false) × Unique rest

abbrev bit : Bool → ℕ
bit true = 1
bit false = 0

-- What the scan found before stands for what is no longer in the rest of the list.
pub record Partial (src query : ℕ) (met : Bool) (devices : List MsgDeviceInfo) (s : Scan)
    : Type 0 where
  pub counted : s.num ≡ bit s.responds + bit met
  pub open_num : s.num < 2
  pub query_once : s.responds ≡ true → registered query devices ≡ false
  pub src_once : met ≡ true → registered src devices ≡ false

entry-none :
    (sn : ℕ) (other : MsgDeviceInfo) (l : List MsgDeviceInfo)
    → registered sn l ≡ false
    → entry sn other l ≡ other
entry-none sn other [] e = refl
entry-none sn other (d ∷ rest) e = ground (arith, entry-none sn other rest)

-- The result of the loop on the rest of the list.
abbrev Gathers : ℕ → ℕ → List MsgDeviceInfo → Scan → Scan → Type 0
Gathers src query l s r =
    (r.responds ≡ (s.responds || registered query l))
    × (r.query_device_info ≡ entry query s.query_device_info l)
    × (r.src_device_info ≡ entry src s.src_device_info l)

scan_devices-Gathers :
    (src query : ℕ) (met : Bool) (l : List MsgDeviceInfo) (s : Scan)
    → src ≢ query
    → Unique l
    → Partial src query met l s
    → Gathers src query l s (scan_devices src query l s)
unfolding scan_devices
scan_devices-Gathers src query met [] s ne u p = ground arith
scan_devices-Gathers src query met (d ∷ rest) s ne u p =
    let sq : Scan = record s { responds = true; query_device_info = d; num = s.num + 1 } in
    let ss : Scan = record s { src_device_info = d; num = s.num + 1 } in
    elim (Bool-cases (d.device_sn == query)) [
      | inl is_query ↦ ground (
        arith,
        scan_devices-Gathers src query met rest sq ne u.1,
        entry-none src sq.src_device_info rest,
        entry-none query d rest,
      )
      | inr other ↦ elim (Bool-cases (d.device_sn == src)) [
        | inl is_src ↦ ground (
          arith,
          scan_devices-Gathers src query true rest ss ne u.1,
          entry-none src d rest,
          entry-none query ss.query_device_info rest,
        )
        | inr neither ↦ ground (arith, scan_devices-Gathers src query met rest s ne u.1)
      ]
    ]

-- In a list that holds no device twice, the loop for two different devices finds the queried device
-- exactly if it is registered, with its entry, and the entry of the device that asks; an entry that
-- is not there stays zero.
pub scan_devices-Unique :
    (src query : ℕ) (l : List MsgDeviceInfo)
    → src ≢ query
    → Unique l
    → ((scan_devices src query l scan_start).responds ≡ registered query l)
      × ((scan_devices src query l scan_start).query_device_info ≡ entry query zero_device_info l)
      × ((scan_devices src query l scan_start).src_device_info ≡ entry src zero_device_info l)
scan_devices-Unique src query l ne u =
    scan_devices-Gathers src query false l scan_start ne u
      (record { counted = refl; open_num = omega arith; query_once = λ e. cc; src_once = λ e. cc })

-- When the two newest entries are both of the device that asks, the loop counts another queried
-- device as unknown, whatever else is registered.
pub scan_devices-masked :
    (src query : ℕ) (d₁ d₂ : MsgDeviceInfo) (rest : List MsgDeviceInfo)
    → src ≢ query
    → d₁.device_sn ≡ src
    → d₂.device_sn ≡ src
    → (scan_devices src query (d₁ ∷ d₂ ∷ rest) scan_start).responds ≡ false
unfolding scan_devices
scan_devices-masked src query d₁ d₂ rest ne e₁ e₂ = ground arith
