-- ===== src/PunchHole/Wire/Abi.antt =====
-- The structs of PunchHole's p2p_transfer.h under the layout rule of C on a 64-bit little-endian
-- machine: an integer lies at a multiple of its width, and a struct ends at one of its widest's.
use native.Mathlib.Nat.{pow-suc, div-div-eq-div-mul}
use edge_compute.Base.{
  ℕ, zero, suc, ◌+◌, ◌-◌, ◌*◌, ◌/◌, ◌%◌, ◌^◌, ◌≡◌, refl, List, [], ◌∷◌, ◌++◌, arith, take, drop,
  length, ltb, if◌then◌else◌, ◌∙◌, ap, sym,
}
use edge_compute.Sys.{Bytes}
use edge_compute.PunchHole.Wire.{
  MsgHead, MsgDeviceInfo, head_bytes, device_info_bytes, le_bytes, read_head, read_device_info,
  IsHead, IsDeviceInfo, read_head-head_bytes, read_device_info-device_info_bytes,
}

-- The next multiple of a width.
abbrev pub align : (width from : ℕ) → ℕ
align width from = (from + (width - 1)) / width * width

-- The widths and values of a struct's fields, in the order of their declaration.
abbrev pub Fields : Type 0
Fields = List (ℕ × ℕ)

abbrev pub widest : Fields → ℕ
widest [] = 1
widest ((width, value) ∷ fs) = let n = widest fs in if ltb n width then width else n

abbrev pub end_from : ℕ → Fields → ℕ
end_from from [] = from
end_from from ((width, value) ∷ fs) = end_from (align width from + width) fs

abbrev pub size_of_struct : Fields → ℕ
size_of_struct fs = align (widest fs) (end_from 0 fs)

-- The digits of a number to the base 256, from the one of 256 ^ from on.
abbrev pub digits : (from n x : ℕ) → Bytes
digits from zero x = []
digits from (suc n) x = (x / 256 ^ from % 256) ∷ digits (suc from) n x

-- The bytes of every field stand where the rule puts it, the lowest first.
abbrev pub Placed : Bytes → ℕ → Fields → Type 0
Placed b from [] = Unit {0}
Placed b from ((width, value) ∷ fs) =
    (take width (drop (align width from) b) ≡ digits 0 width value)
    × Placed b (align width from + width) fs

abbrev pub IsLaid : Fields → Bytes → Type 0
IsLaid fs b = (length b ≡ size_of_struct fs) × Placed b 0 fs

-- uint64_t magic, msgid, src_device_sn and dst_device_sn, uint32_t cmd_len, and int cmd.
abbrev pub head_fields : MsgHead → Fields
head_fields m =
    (8, m.magic)
    ∷ (8, m.msgid)
    ∷ (8, m.src_device_sn)
    ∷ (8, m.dst_device_sn)
    ∷ (4, m.cmd_len)
    ∷ (4, m.cmd)
    ∷ []

-- uint64_t device_sn, uint32_t ip_addr, uint16_t port, and int network_type.
abbrev pub device_info_fields : MsgDeviceInfo → Fields
device_info_fields d = (8, d.device_sn) ∷ (4, d.ip_addr) ∷ (2, d.port) ∷ (4, d.network_type) ∷ []

le_bytes-digits : (from n x : ℕ) → le_bytes n (x / 256 ^ from) ≡ digits from n x
unfolding le_bytes
le_bytes-digits from zero x = refl
le_bytes-digits from (suc n) x =
    let e : x / 256 ^ from / 256 ≡ x / 256 ^ suc from =
      div-div-eq-div-mul x (256 ^ from) 256 ∙ ap (λ (t : ℕ). x / t) (sym (pow-suc 256 from)) in
    rw (e, le_bytes-digits (suc from) n x) refl

le_bytes_lem : (n x : ℕ) → le_bytes n x ≡ digits 0 n x
le_bytes_lem n x = let e : x / 256 ^ 0 ≡ x = omega arith in rw e at (le_bytes-digits 0 n x)

head-IsLaid : (m : MsgHead) → IsLaid (head_fields m) (head_bytes m)
unfolding head_bytes le_bytes
head-IsLaid m = (
  refl,
  (
    le_bytes_lem 8 m.magic,
    (
      le_bytes_lem 8 m.msgid,
      (
        le_bytes_lem 8 m.src_device_sn,
        (le_bytes_lem 8 m.dst_device_sn, (le_bytes_lem 4 m.cmd_len, (le_bytes_lem 4 m.cmd, tt))),
      ),
    ),
  ),
)

device_info-IsLaid : (d : MsgDeviceInfo) → IsLaid (device_info_fields d) (device_info_bytes d)
unfolding device_info_bytes le_bytes
device_info-IsLaid d = (
  refl,
  (
    le_bytes_lem 8 d.device_sn,
    (le_bytes_lem 4 d.ip_addr, (le_bytes_lem 2 d.port, (le_bytes_lem 4 d.network_type, tt))),
  ),
)

-- A header, and device information, have the size, and their fields the places and bytes, that the
-- layout rule of C gives them, with its padding. In a message of a header, device information and
-- anything more, whose fields fit their widths, what is read as the header is that header, and what
-- is read behind it that information.
pub device_info_bytes-IsLaid :
    (m : MsgHead) (d : MsgDeviceInfo) (rest : Bytes)
    → IsHead m
    → IsDeviceInfo d
    → IsLaid (head_fields m) (head_bytes m)
      × IsLaid (device_info_fields d) (device_info_bytes d)
      × (read_head (head_bytes m ++ (device_info_bytes d ++ rest)) ≡ m)
      × (read_device_info (head_bytes m ++ (device_info_bytes d ++ rest)) ≡ d)
device_info_bytes-IsLaid m d rest fits fits' = (
  head-IsLaid m,
  device_info-IsLaid d,
  read_head-head_bytes m (device_info_bytes d ++ rest) fits,
  read_device_info-device_info_bytes m rest d fits',
)
