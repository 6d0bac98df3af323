-- ===== src/Net/Server.antt =====
-- The helpers of netserver.cc, with which a server waits for clients.
use libcody.Prelude.{
  ℕ, Bool, true, false, List, Option, none, some, Bytes, codes, length, ltb, ◌==◌, if◌then◌else◌,
  c_string,
}
use libcody.Net.{
  ℤ, no_error, name_too_long, af_inet6, Address, AddressInfo, Lookup, found, unknown, System, M,
  pure, ◌>>=◌, ◌>>◌, set_errno, call_on, socket, getaddrinfo, freeaddrinfo, Opening, fail, first_of,
  with_port, opened, local_address,
}

abbrev pub bind : System → ℕ → Address → ℕ → M Bool
bind os fd addr len = call_on fd (λ net. os.bind net fd addr len)

-- `backlog ? backlog : 17`
abbrev pub queue_size : ℕ → ℕ
queue_size backlog = if backlog == 0 then 17 else backlog

abbrev pub listen : System → ℕ → ℕ → M Bool
listen os fd backlog = call_on fd (λ net. os.listen net fd (queue_size backlog))

module _ (os : System) (wants : Bool) where
  -- What both kinds of sockets end with; `addrs` is the list that the label `fail` frees.
  unfoldable pub listened : Option ℕ → ℕ → Bool → M Opening
  unfolding fail
  listened addrs fd true = opened fd
  listened addrs fd false = fail os wants (some fd) addrs (codes "listening socket")

  unfoldable pub socket_bound : ℕ → ℕ → Bool → M Opening
  unfolding fail listened
  socket_bound backlog fd true = listen os fd backlog >>= listened none fd
  socket_bound backlog fd false = fail os wants (some fd) none (codes "binding socket")

  unfoldable pub listen_opened : Address → ℕ → ℕ → Option ℕ → M Opening
  unfolding fail socket_bound
  listen_opened addr len backlog none = fail os wants none none (codes "creating socket")
  listen_opened addr len backlog (some fd) = bind os fd addr len >>= socket_bound backlog fd

  unfoldable pub listen_socket : Address → ℕ → ℕ → M Opening
  unfolding listen_opened
  listen_socket addr len backlog = do fd ← socket os addr.family; listen_opened addr len backlog fd

  unfoldable pub listen_local : ℕ → Bytes → ℕ → M Opening
  unfolding listen_socket local_address c_string
  listen_local size name backlog =
      if ltb (length (c_string name)) os.path_size
      then listen_socket (local_address name) size backlog
      else set_errno name_too_long >> pure (record { descriptor = none; message = none })

  abbrev pub try_bind : ℕ → ℤ → AddressInfo → M Bool
  try_bind fd port next = bind os fd (with_port os port next.addr) next.addrlen

  unfoldable pub bind_addresses : ℕ → ℤ → List AddressInfo → M Bool
  unfolding first_of
  bind_addresses fd port infos = first_of os port (try_bind fd port) infos

  -- The label `listen` frees the list, and leaves the pointer to it in `addrs`.
  unfoldable pub inet6_bound : ℕ → ℕ → ℕ → Bool → M Opening
  unfolding fail listened
  inet6_bound backlog fd list true = do
    freeaddrinfo os list
    ok ← listen os fd backlog
    listened (some list) fd ok
  inet6_bound backlog fd list false = fail os wants (some fd) (some list) (codes "binding socket")

  unfoldable pub inet6_looked_up : ℤ → ℕ → ℕ → Lookup → M Opening
  unfolding fail bind_addresses inet6_bound
  inet6_looked_up port backlog fd (unknown code) =
      set_errno no_error >> fail os wants (some fd) none (os.gai_strerror code)
  inet6_looked_up port backlog fd (found list infos) = do
    ok ← bind_addresses fd port infos
    inet6_bound backlog fd list ok

  unfoldable pub inet6_opened : Option Bytes → ℤ → ℕ → Option ℕ → M Opening
  unfolding fail inet6_looked_up
  inet6_opened name port backlog none = fail os wants none none (codes "creating socket")
  inet6_opened name port backlog (some fd) = do
    answer ← getaddrinfo os name
    inet6_looked_up port backlog fd answer

  -- `name` may be a null pointer.
  unfoldable pub listen_inet6 : Option Bytes → ℤ → ℕ → M Opening
  unfolding inet6_opened
  listen_inet6 name port backlog = do fd ← socket os af_inet6; inet6_opened name port backlog fd
