-- ===== src/PunchHole/Wire.antt =====
-- The messages of PunchHole's p2p_transfer.h as they lie in memory and on the wire: the layout of
-- the structs on a 64-bit little-endian machine. An `int` is its 32-bit pattern.
pub mod Abi
use native.Mathlib.Nat.{pow-suc}
use edge_compute.Base.{
  ℕ, zero, suc, ◌+◌, ◌*◌, ◌/◌, ◌%◌, ◌^◌, ◌<◌, ◌≡◌, [], ◌∷◌, ◌++◌, arith, take, drop, replicate,
}
use edge_compute.Sys.{Bytes}

-- The `n` bytes of a number, the lowest first.
unfoldable pub le_bytes : ℕ → ℕ → Bytes
le_bytes zero x = []
le_bytes (suc n) x = (x % 256) ∷ le_bytes n (x / 256)

unfoldable pub le_value : Bytes → ℕ
le_value [] = 0
le_value (b ∷ bs) = b + 256 * le_value bs

abbrev pub p2p_transfer_magic : ℕ
p2p_transfer_magic = 0xbeefdead1234

-- struct p2p_msg_head_t
pub record MsgHead : Type 0 where
  pub magic : ℕ
  pub msgid : ℕ
  pub src_device_sn : ℕ
  pub dst_device_sn : ℕ
  pub cmd_len : ℕ
  pub cmd : ℕ

-- struct p2p_msg_ping_t
pub record MsgPing : Type 0 where
  pub device_sn : ℕ
  pub network_type : ℕ

-- struct p2p_msg_device_info_t
pub record MsgDeviceInfo : Type 0 where
  pub device_sn : ℕ
  pub ip_addr : ℕ
  pub port : ℕ
  pub network_type : ℕ

abbrev pub zero_device_info : MsgDeviceInfo
zero_device_info = record { device_sn = 0; ip_addr = 0; port = 0; network_type = 0 }

unfoldable pub head_bytes : MsgHead → Bytes
head_bytes m =
    le_bytes 8 m.magic
    ++ (le_bytes 8 m.msgid
        ++ (le_bytes 8 m.src_device_sn
            ++ (le_bytes 8 m.dst_device_sn ++ (le_bytes 4 m.cmd_len ++ le_bytes 4 m.cmd))))

-- Four bytes of padding end the struct.
unfoldable pub ping_bytes : MsgPing → Bytes
ping_bytes p = le_bytes 8 p.device_sn ++ (le_bytes 4 p.network_type ++ replicate 4 0)

-- Two bytes of padding follow the port, and four end the struct.
unfoldable pub device_info_bytes : MsgDeviceInfo → Bytes
device_info_bytes d =
    le_bytes 8 d.device_sn
    ++ (le_bytes 4 d.ip_addr
        ++ (le_bytes 2 d.port ++ (replicate 2 0 ++ (le_bytes 4 d.network_type ++ replicate 4 0))))

-- The field of `n` bytes at offset `o`.
unfoldable pub field : ℕ → ℕ → Bytes → ℕ
field o n b = le_value (take n (drop o b))

unfoldable pub read_head : Bytes → MsgHead
read_head b = record {
  magic = field 0 8 b;
  msgid = field 8 8 b;
  src_device_sn = field 16 8 b;
  dst_device_sn = field 24 8 b;
  cmd_len = field 32 4 b;
  cmd = field 36 4 b;
}

-- `cmd_data` starts at offset 40.
unfoldable pub read_ping : Bytes → MsgPing
read_ping b = record { device_sn = field 40 8 b; network_type = field 48 4 b }

unfoldable pub read_device_info : Bytes → MsgDeviceInfo
read_device_info b = record {
  device_sn = field 40 8 b;
  ip_addr = field 48 4 b;
  port = field 52 2 b;
  network_type = field 56 4 b;
}

-- Every field fits its width.
pub record IsHead (m : MsgHead) : Type 0 where
  pub magic : m.magic < 2 ^ 64
  pub msgid : m.msgid < 2 ^ 64
  pub src : m.src_device_sn < 2 ^ 64
  pub dst : m.dst_device_sn < 2 ^ 64
  pub len : m.cmd_len < 2 ^ 32
  pub cmd : m.cmd < 2 ^ 32

pub record IsDeviceInfo (d : MsgDeviceInfo) : Type 0 where
  pub sn : d.device_sn < 2 ^ 64
  pub ip : d.ip_addr < 2 ^ 32
  pub port : d.port < 2 ^ 16
  pub type : d.network_type < 2 ^ 32

pub record IsPing (p : MsgPing) : Type 0 where
  pub sn : p.device_sn < 2 ^ 64
  pub type : p.network_type < 2 ^ 32

pub le_value-le_bytes : (n x : ℕ) → x < 256 ^ n → le_value (le_bytes n x) ≡ x
unfolding le_value le_bytes
le_value-le_bytes zero x h = omega arith
le_value-le_bytes (suc n) x h =
    omega (arith, pow-suc 256 n, le_value-le_bytes n (x / 256) (omega (arith, pow-suc 256 n)))

module _ (m : MsgHead) (rest : Bytes) where
  -- What `read_head` reads from a header whose fields fit their widths is that header, whatever follows.
  pub read_head-head_bytes : IsHead m → read_head (head_bytes m ++ rest) ≡ m
  unfolding read_head head_bytes field le_bytes le_value
  read_head-head_bytes fits = λ i. record {
    magic = le_value-le_bytes 8 m.magic fits.magic i;
    msgid = le_value-le_bytes 8 m.msgid fits.msgid i;
    src_device_sn = le_value-le_bytes 8 m.src_device_sn fits.src i;
    dst_device_sn = le_value-le_bytes 8 m.dst_device_sn fits.dst i;
    cmd_len = le_value-le_bytes 4 m.cmd_len fits.len i;
    cmd = le_value-le_bytes 4 m.cmd fits.cmd i;
  }

  -- What `read_device_info` reads behind a header from device information whose fields fit their
  -- widths is that information, whatever follows.
  pub read_device_info-device_info_bytes :
      (d : MsgDeviceInfo)
      → IsDeviceInfo d
      → read_device_info (head_bytes m ++ (device_info_bytes d ++ rest)) ≡ d
  unfolding read_device_info head_bytes device_info_bytes field le_bytes le_value
  read_device_info-device_info_bytes d fits = λ i. record {
    device_sn = le_value-le_bytes 8 d.device_sn fits.sn i;
    ip_addr = le_value-le_bytes 4 d.ip_addr fits.ip i;
    port = le_value-le_bytes 2 d.port fits.port i;
    network_type = le_value-le_bytes 4 d.network_type fits.type i;
  }

  -- What `read_ping` reads behind a header from a ping whose fields fit their widths is that ping,
  -- whatever follows.
  pub read_ping-ping_bytes :
      (p : MsgPing) → IsPing p → read_ping (head_bytes m ++ (ping_bytes p ++ rest)) ≡ p
  unfolding read_ping head_bytes ping_bytes field le_bytes le_value
  read_ping-ping_bytes p fits = λ i. record {
    device_sn = le_value-le_bytes 8 p.device_sn fits.sn i;
    network_type = le_value-le_bytes 4 p.network_type fits.type i;
  }
