-- ===== src/Net.antt =====
-- The state that the network helpers of netclient.cc and netserver.cc change, and the system calls
-- that they make. How the system answers a call is a parameter: it may differ from call to call.
pub mod Client
pub mod Server
pub mod Outcome
pub mod Sockets
pub mod Inet6
pub mod Listen6
pub mod Reports
pub mod Ports
pub mod Paths
use libcody.Prelude.{
  ℕ, suc, ◌+◌, ◌-◌, ◌%◌, Bool, true, false, ◌&&◌, List, [], ◌∷◌, ◌++◌, Option, none, some, Bytes,
  ◌==◌, if◌then◌else◌, c_string,
}

-- `int`; `negsuc n` is -(n + 1).
pub data ℤ : Type 0 where
  pos : ℕ → ℤ
  negsuc : ℕ → ℤ

-- A value of `errno`: 0, the two that the code sets, and those of the system.
pub data ErrorNumber : Type 0 where
  no_error invalid name_too_long : ErrorNumber
  system : ℕ → ErrorNumber

pub data Family : Type 0 where
  af_unix af_inet6 : Family
  other_family : ℕ → Family

-- A socket address. The port is in network order, and for `af_inet6` only.
pub record Address : Type 0 where
  pub family : Family
  pub body : Bytes
  pub port : ℕ

-- A node of the list of `getaddrinfo`.
pub record AddressInfo : Type 0 where
  pub family : Family
  pub is_stream : Bool
  pub addr : Address
  pub addrlen : ℕ

-- The descriptors that are open, and the lists of addresses that are not freed, by their pointers;
-- `time` counts the calls.
pub record Net : Type 0 where
  pub errno : ErrorNumber
  pub opened : List ℕ
  pub live : List ℕ
  pub time : ℕ

-- What a call gives, with the value that it leaves in `errno`.
pub record Reply (A : Type 0) : Type 0 where
  pub value : A
  pub errno : ErrorNumber

-- The answer of `getaddrinfo`: a list and the pointer to it, or a code.
pub data Lookup : Type 0 where
  found : ℕ → List AddressInfo → Lookup
  unknown : ℕ → Lookup

-- The system. The socket type, the flags and the service of the calls are constants of the code.
pub record System : Type 0 where
  pub socket : Net → Family → Reply (Option ℕ)
  pub connect : Net → ℕ → Address → ℕ → Reply Bool
  pub bind : Net → ℕ → Address → ℕ → Reply Bool
  pub listen : Net → ℕ → ℕ → Reply Bool
  pub close : Net → ℕ → ErrorNumber
  pub getaddrinfo : Net → Option Bytes → Reply Lookup
  pub freeaddrinfo : Net → ℕ → ErrorNumber
  pub gai_strerror : ℕ → Bytes
  pub htons : ℕ → ℕ
  pub ntohs : ℕ → ℕ
  pub path_size : ℕ

-- `none` is a fault: a descriptor that is not open, or a list that is not live.
abbrev pub M : Type 0 → Type 0
M A = Net → Option (A × Net)

abbrev pub pure : {A : Type 0} → A → M A
pure a net = some (a, net)

infixl 5 ◌>>=◌ ◌>>◌
abbrev pub ◌>>=◌ : {A B : Type 0} → M A → (A → M B) → M B
◌>>=◌ m f net = elim (m net) [ none ↦ none | some (a, net') ↦ f a net' ]

abbrev pub ◌>>◌ : {B : Type 0} → M (Unit {0}) → M B → M B
m >> k = m >>= λ _. k

abbrev pub get_errno : M ErrorNumber
get_errno net = some (net.errno, net)

abbrev pub set_errno : ErrorNumber → M (Unit {0})
set_errno e net = some (tt, record net { errno = e })

-- A call that leaves the descriptors as they are.
abbrev pub call : {A : Type 0} → (Net → Reply A) → M A
call f net = let r = f net in some (r.value, record net { errno = r.errno; time = suc net.time })

abbrev pub remove : ℕ → List ℕ → Option (List ℕ)
remove x [] = none
remove x (y ∷ ys) =
    if x == y then some ys else elim (remove x ys) [ none ↦ none | some zs ↦ some (y ∷ zs) ]

-- A call on a descriptor, which has to be open.
abbrev pub call_on : {A : Type 0} → ℕ → (Net → Reply A) → M A
call_on fd f net = elim (remove fd net.opened) [ none ↦ none | some rest ↦ call f net ]

abbrev pub opens : Option ℕ → List ℕ → List ℕ
opens none opened = opened
opens (some fd) opened = fd ∷ opened

abbrev pub lives : Lookup → List ℕ → List ℕ
lives (found list infos) live = list ∷ live
lives (unknown code) live = live

module _ (os : System) where
  abbrev pub socket : Family → M (Option ℕ)
  socket family net =
      let r = os.socket net family in
      some (
        r.value,
        record net { errno = r.errno; opened = opens r.value net.opened; time = suc net.time },
      )

  abbrev pub close : ℕ → M (Unit {0})
  close fd net = elim (remove fd net.opened) [
    | none ↦ none
    | some rest ↦
        some (tt, record net { errno = os.close net fd; opened = rest; time = suc net.time })
  ]

  abbrev pub getaddrinfo : Option Bytes → M Lookup
  getaddrinfo name net =
      let r = os.getaddrinfo net name in
      some (
        r.value,
        record net { errno = r.errno; live = lives r.value net.live; time = suc net.time },
      )

  abbrev pub freeaddrinfo : ℕ → M (Unit {0})
  freeaddrinfo list net = elim (remove list net.live) [
    | none ↦ none
    | some rest ↦
        some (tt, record net { errno = os.freeaddrinfo net list; live = rest; time = suc net.time })
  ]

-- What a helper gives: the descriptor, or none for -1, and what it stores in `*e`, if it does.
pub record Opening : Type 0 where
  pub descriptor : Option ℕ
  pub message : Option Bytes

-- A caller that passes a null pointer for `e` wants no message.
abbrev pub message_for : Bool → Bytes → Option Bytes
message_for wants errstr = if wants then some errstr else none

abbrev pub close_descriptor : System → Option ℕ → M (Unit {0})
close_descriptor os none = pure tt
close_descriptor os (some fd) = close os fd

abbrev pub free_addresses : System → Option ℕ → M (Unit {0})
free_addresses os none = pure tt
free_addresses os (some list) = freeaddrinfo os list

-- The label `fail`, with the descriptor and the list of addresses at hand; `errno` is kept over
-- the cleaning up.
unfoldable pub fail : System → Bool → Option ℕ → Option ℕ → Bytes → M Opening
fail os wants fd addrs errstr = do
  err ← get_errno
  close_descriptor os fd
  free_addresses os addrs
  set_errno err
  pure (record { descriptor = none; message = message_for wants errstr })

-- The `uint16_t` that an `int` is converted to.
abbrev pub u16 : ℤ → ℕ
u16 (pos n) = n % 65536
u16 (negsuc n) = 65535 - n % 65536

abbrev equals_int : ℕ → ℤ → Bool
equals_int m (pos n) = m == n
equals_int m (negsuc n) = false

abbrev pub is_inet6 : Family → Bool
is_inet6 af_inet6 = true
is_inet6 family = false

-- `ntohs (in6->sin6_port) != port`, where the port was stored by `htons`, does not hold.
abbrev pub port_fits : System → ℤ → Bool
port_fits os port = equals_int (os.ntohs (os.htons (u16 port))) port

-- An address with its port stored.
abbrev pub with_port : System → ℤ → Address → Address
with_port os port addr = record addr { port = os.htons (u16 port) }

-- One round of the loop over the addresses; a node of another kind is passed over.
abbrev pub try_address : System → ℤ → (AddressInfo → M Bool) → AddressInfo → M Bool
try_address os port attempt next =
    if is_inet6 next.family && next.is_stream
    then (if port_fits os port then attempt next else set_errno invalid >> pure false)
    else pure false

abbrev pub or_else : Bool → M Bool → M Bool
or_else true rest = pure true
or_else false rest = rest

-- The loop over the addresses, up to the first attempt that succeeds.
unfoldable pub first_of : System → ℤ → (AddressInfo → M Bool) → List AddressInfo → M Bool
first_of os port attempt [] = pure false
first_of os port attempt (next ∷ infos) = do
  ok ← try_address os port attempt next
  or_else ok (first_of os port attempt infos)

-- The return of a descriptor.
abbrev pub opened : ℕ → M Opening
opened fd = pure (record { descriptor = some fd; message = none })

-- The address of a local socket: `name` and its NUL are copied into `sun_path`.
unfoldable pub local_address : Bytes → Address
unfolding c_string
local_address name = record { family = af_unix; body = c_string name ++ 0 ∷ []; port = 0 }
