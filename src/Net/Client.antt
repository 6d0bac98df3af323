-- ===== src/Net/Client.antt =====
-- The helpers of netclient.cc, with which a client connects to a server.
use libcody.Prelude.{
  ℕ, Bool, true, false, List, [], ◌∷◌, Option, none, some, Bytes, codes, length, ltb, if◌then◌else◌,
  c_string, ◌==◌,
}
use libcody.Net.{
  ℤ, no_error, invalid, name_too_long, af_inet6, Address, AddressInfo, Lookup, found, unknown,
  System, M, pure, ◌>>=◌, ◌>>◌, set_errno, call_on, socket, getaddrinfo, freeaddrinfo, Opening,
  fail, first_of, with_port, opened, local_address,
}

abbrev pub connect : System → ℕ → Address → ℕ → M Bool
connect os fd addr len = call_on fd (λ net. os.connect net fd addr len)

module _ (os : System) (wants : Bool) where
  unfoldable pub socket_connected : ℕ → Bool → M Opening
  unfolding fail
  socket_connected fd true = opened fd
  socket_connected fd false = fail os wants (some fd) none (codes "connecting socket")

  unfoldable pub socket_opened : Address → ℕ → Option ℕ → M Opening
  unfolding fail socket_connected
  socket_opened addr len none = fail os wants none none (codes "creating socket")
  socket_opened addr len (some fd) = do ok ← connect os fd addr len; socket_connected fd ok

  unfoldable pub open_socket : Address → ℕ → M Opening
  unfolding socket_opened
  open_socket addr len = do fd ← socket os addr.family; socket_opened addr len fd

  -- `size` is `sizeof (addr)`.
  unfoldable pub open_local : ℕ → Bytes → M Opening
  unfolding open_socket local_address c_string
  open_local size name =
      if ltb (length (c_string name)) os.path_size
      then open_socket (local_address name) size
      else set_errno name_too_long >> pure (record { descriptor = none; message = none })

  abbrev pub try_connect : ℕ → ℤ → AddressInfo → M Bool
  try_connect fd port next = connect os fd (with_port os port next.addr) next.addrlen

  -- The loop over the addresses: whether one of them was connected to.
  unfoldable pub connect_addresses : ℕ → ℤ → List AddressInfo → M Bool
  unfolding first_of
  connect_addresses fd port infos = first_of os port (try_connect fd port) infos

  unfoldable pub inet6_connected : ℕ → ℕ → Bool → M Opening
  unfolding fail
  inet6_connected fd list true = freeaddrinfo os list >> opened fd
  inet6_connected fd list false = fail os wants (some fd) (some list) (codes "connecting")

  unfoldable pub inet6_looked_up : ℤ → ℕ → Lookup → M Opening
  unfolding fail connect_addresses inet6_connected
  inet6_looked_up port fd (unknown code) =
      set_errno no_error >> fail os wants (some fd) none (os.gai_strerror code)
  inet6_looked_up port fd (found list infos) = do
    ok ← connect_addresses fd port infos
    inet6_connected fd list ok

  unfoldable pub inet6_opened : Bytes → ℤ → Option ℕ → M Opening
  unfolding fail inet6_looked_up
  inet6_opened name port none = fail os wants none none (codes "socket")
  inet6_opened name port (some fd) = do
    answer ← getaddrinfo os (some name)
    inet6_looked_up port fd answer

  -- A null pointer and an empty name are refused.
  unfoldable pub open_inet6 : Option Bytes → ℤ → M Opening
  unfolding fail inet6_opened
  open_inet6 none port = set_errno invalid >> fail os wants none none (codes "missing server name")
  open_inet6 (some []) port =
      set_errno invalid >> fail os wants none none (codes "missing server name")
  open_inet6 (some (c ∷ name)) port =
      if c == 0
      then set_errno invalid >> fail os wants none none (codes "missing server name")
      else socket os af_inet6 >>= λ fd. inet6_opened (c ∷ name) port fd
