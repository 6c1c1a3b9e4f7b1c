-- ===== src/Sys.antt =====
-- The operating system as the programs see it: a run carries the history of its calls, newest
-- first, and an `Env` answers each call from the history so far.
pub mod Returns
use Prim.Native.String.{String}
use edge_compute.Base.{
  true, false, ◌==◌, get_elem?, set, ltb, length, ℕ, zero, suc, ◌+◌, ◌%◌, ◌^◌, ◌≡◌, Bool, true,
  false, Option, none, some, List, [], ◌∷◌, ℤ, pos, minus_one, is_neg, is_pos, if◌then◌else◌,
}

abbrev pub Bytes : Type 0
Bytes = List ℕ

-- struct sockaddr_in of family AF_INET; both fields hold network byte order.
pub record Addr : Type 0 where
  pub sin_addr : ℕ
  pub sin_port : ℕ

abbrev pub addr : ℕ → ℕ → Addr
addr ip port = record { sin_addr = ip; sin_port = port }

pub data Errno : Type 0 where
  eintr etimedout other_errno : Errno

-- What `sendto` returns: a count, or -1 with `errno`.
pub data Sent : Type 0 where
  sent : ℕ → Sent
  not_sent : Errno → Sent

-- What `recvfrom` returns: the datagram, cut to the buffer, and its sender, or -1 with `errno`.
pub data Received : Type 0 where
  received : Bytes → Addr → Received
  not_received : Errno → Received

pub data Kind : Type 0 where
  dgram stream : Kind

pub data Event : Type 0 where
  opens : Kind → ℤ → Event
  sets_option : ℤ → ℕ → Bool → Event
  binds : ℤ → Addr → Bool → Event
  connects : ℤ → Addr → Option Errno → Event
  sends : ℤ → Addr → Bytes → Sent → Event
  receives : ℤ → Received → Event
  closes : ℤ → Event
  sleeps : ℕ → Event
  allocates : ℕ → Bool → Event
  resolves : Option (List ℕ) → Event
  -- a call of another library or system function, by name, and whether it succeeded
  calls : String → Bool → Event
  -- libevent's buffered connections, by number: a write, the bytes that a read took, and the end
  writes : ℕ → Bytes → Bool → Event
  drains : ℕ → Bytes → Event
  frees : ℕ → Event
  -- `send` and `recv` on a connected socket; `none` is -1
  streams : ℤ → Bytes → Bool → Event
  takes : ℤ → Option Bytes → Event
  -- a new listener at an address, by its descriptor
  listens : Addr → Option ℤ → Event

abbrev pub History : Type 0
History = List Event

pub record Env : Type 0 where
  pub socket : History → Kind → ℤ
  pub setsockopt : History → ℤ → ℕ → Bool
  pub bind : History → ℤ → Addr → Bool
  pub connect : History → ℤ → Addr → Option Errno
  pub sendto : History → ℤ → Bytes → Addr → Sent
  pub recvfrom : History → ℤ → ℕ → Received
  -- whether `malloc` or `calloc` of that many bytes succeeds, and what `malloc` leaves in them
  pub alloc : History → ℕ → Bool
  pub garbage : History → Bytes
  -- the addresses of `getaddrinfo` in their order; `none` is a failure
  pub getaddrinfo : History → String → Option (List ℕ)
  pub extern : History → String → Bool
  pub bufferevent_write : History → ℕ → Bytes → Bool
  pub bufferevent_read : History → ℕ → ℕ → Bytes
  pub bufferevent_new : History → ℤ → Option ℕ
  pub getfd : ℕ → ℤ
  pub listener_new : History → Addr → Option ℤ
  pub send : History → ℤ → Bytes → Bool
  pub recv : History → ℤ → ℕ → Option Bytes
  pub getpid : ℕ
  pub htons : ℕ → ℕ
  pub inet_addr : String → ℕ
  pub atoi : String → ℤ
  -- the interface ioctls: the names (SIOCGIFCONF), whether one is a loopback (SIOCGIFFLAGS), and
  -- its address (SIOCGIFADDR); `none` is a failure
  pub ifconf : History → Option (List String)
  pub ifflags : History → String → Option Bool
  pub ifaddr : History → String → Option ℕ

-- A run ends with a value, by a failed `assert`, by an access out of bounds, or out of fuel.
pub data Run {ℓ} (A : Type ℓ) : Type ℓ where
  ok : A → History → Run A
  aborted : History → Run A
  out_of_bounds : History → Run A
  out_of_fuel : Run A

abbrev pub M {ℓ} : Type ℓ → Type ℓ
M A = History → Run A

abbrev pub pure {ℓ} : {A : Type ℓ} → A → M A
pure a h = ok a h

abbrev pub and_then {ℓ κ} : {A : Type ℓ} {B : Type κ} → Run A → (A → M B) → Run B
and_then (ok a h) k = k a h
and_then (aborted h) k = aborted h
and_then (out_of_bounds h) k = out_of_bounds h
and_then out_of_fuel k = out_of_fuel

infixl 5 ◌>>=◌ ◌>>◌
abbrev pub ◌>>=◌ {ℓ κ} : {A : Type ℓ} {B : Type κ} → M A → (A → M B) → M B
◌>>=◌ m k h = and_then (m h) k

abbrev pub ◌>>◌ {ℓ κ} : {A : Type ℓ} {B : Type κ} → M A → M B → M B
m >> n = m >>= λ _. n

abbrev pub assert : Bool → M (Unit {0})
assert b h = if b then ok tt h else aborted h

abbrev pub emit : Event → M (Unit {0})
emit e h = ok tt (e ∷ h)

abbrev pub sleep : ℕ → M (Unit {0})
sleep n = emit (sleeps n)

abbrev pub close : ℤ → M (Unit {0})
close fd = emit (closes fd)

abbrev pub in_bounds {ℓ} : {A : Type ℓ} → Option A → M A
in_bounds none h = out_of_bounds h
in_bounds (some x) h = ok x h

-- An array access of the source, which faults out of bounds.
abbrev pub fetch {ℓ} : {A : Type ℓ} → List A → ℕ → M A
fetch xs i = in_bounds (get_elem? xs i)

abbrev pub store {ℓ} : {A : Type ℓ} → List A → ℕ → A → M (List A)
store xs i v h = if ltb i (length xs) then ok (set xs i v) h else out_of_bounds h

-- Whether a buffered connection was freed.
abbrev pub is_freed : ℕ → History → Bool
is_freed bev [] = false
is_freed bev (frees b ∷ h) = if b == bev then true else is_freed bev h
is_freed bev (_ ∷ h) = is_freed bev h

abbrev pub bufferevent_free : ℕ → M (Unit {0})
bufferevent_free bev = emit (frees bev)

module _ (env : Env) where
  -- The use of a freed connection is a fault.
  abbrev pub bufferevent_write : ℕ → Bytes → M Bool
  bufferevent_write bev b h =
      if is_freed bev h
      then out_of_bounds h
      else ok (env.bufferevent_write h bev b) (writes bev b (env.bufferevent_write h bev b) ∷ h)

  abbrev pub bufferevent_read : ℕ → ℕ → M Bytes
  bufferevent_read bev n h =
      ok (env.bufferevent_read h bev n) (drains bev (env.bufferevent_read h bev n) ∷ h)

  abbrev pub bufferevent_new : ℤ → M (Option ℕ)
  bufferevent_new fd h = ok (env.bufferevent_new h fd) h

  abbrev pub listener_new : Addr → M (Option ℤ)
  listener_new a h = ok (env.listener_new h a) (listens a (env.listener_new h a) ∷ h)

  abbrev pub send : ℤ → Bytes → M Bool
  send fd b h = ok (env.send h fd b) (streams fd b (env.send h fd b) ∷ h)

  abbrev pub recv : ℤ → ℕ → M (Option Bytes)
  recv fd n h = ok (env.recv h fd n) (takes fd (env.recv h fd n) ∷ h)

  abbrev pub alloc : ℕ → M Bool
  alloc n h = ok (env.alloc h n) (allocates n (env.alloc h n) ∷ h)

  abbrev pub getaddrinfo : String → M (Option (List ℕ))
  getaddrinfo d h = ok (env.getaddrinfo h d) (resolves (env.getaddrinfo h d) ∷ h)

  abbrev pub socket : Kind → M ℤ
  socket k h = ok (env.socket h k) (opens k (env.socket h k) ∷ h)

  -- `true` is success in the next two.
  abbrev pub setsockopt : ℤ → ℕ → M Bool
  setsockopt fd o h = ok (env.setsockopt h fd o) (sets_option fd o (env.setsockopt h fd o) ∷ h)

  abbrev pub bind : ℤ → Addr → M Bool
  bind fd a h = ok (env.bind h fd a) (binds fd a (env.bind h fd a) ∷ h)

  -- `none` is success.
  abbrev pub connect : ℤ → Addr → M (Option Errno)
  connect fd a h = ok (env.connect h fd a) (connects fd a (env.connect h fd a) ∷ h)

  abbrev pub sendto : ℤ → Bytes → Addr → M Sent
  sendto fd b a h = ok (env.sendto h fd b a) (sends fd a b (env.sendto h fd b a) ∷ h)

  abbrev pub recvfrom : ℤ → ℕ → M Received
  recvfrom fd n h = ok (env.recvfrom h fd n) (receives fd (env.recvfrom h fd n) ∷ h)

  abbrev pub extern : String → M Bool
  extern f h = ok (env.extern h f) (calls f (env.extern h f) ∷ h)
