-- ===== src/Net/Inet6.antt =====
-- The helpers that look a name up: `OpenInet6` leaves just the descriptor that it gives, and
-- `ListenInet6` does so unless `listen` fails, where it frees the addresses a second time.
use libcody.Prelude.{
  ℕ, Bool, true, false, List, [], ◌∷◌, Option, none, some, Bytes, codes, Bool-cases, inl, inr, ◌==◌,
}
use libcody.Net.{
  ℤ, af_inet6, AddressInfo, Net, Lookup, found, unknown, System, freeaddrinfo, fail, with_port,
  lives, invalid, no_error,
}
use libcody.Net.Client.{try_connect, connect_addresses, inet6_connected, open_inet6}
use libcody.Net.Client.{inet6_looked_up as open_looked_up, inet6_opened as open_opened}
use libcody.Net.Outcome.{
  Returns, Returns_bind, Has, Outcome, cons_option, socket-Has, getaddrinfo-Has, free_addresses-Has,
  fail-Outcome, opened-Outcome, first_of-Has,
}
use libcody.Net.Sockets.{connect-Has}

module _ (os : System) (wants : Bool) (descriptors lists : List ℕ) where
  connect_addresses-Has :
      (fd : ℕ) (list : ℕ) (port : ℤ) (infos : List AddressInfo) (net : Net)
      → Has (fd ∷ descriptors) (list ∷ lists) net
      → Returns
          (connect_addresses os wants fd port infos net)
          (λ ok. Has (fd ∷ descriptors) (list ∷ lists))
  unfolding connect_addresses
  connect_addresses-Has fd list port infos net h =
      first_of-Has os port (try_connect os wants fd port) (fd ∷ descriptors) (list ∷ lists)
        (λ info n k.
          connect-Has os descriptors (list ∷ lists) fd (with_port os port info.addr) info.addrlen n
            k)
        infos net h

  inet6_connected-Outcome :
      (fd list : ℕ) (ok : Bool) (net : Net)
      → Has (fd ∷ descriptors) (list ∷ lists) net
      → Returns (inet6_connected os wants fd list ok net) (Outcome descriptors lists)
  unfolding inet6_connected
  inet6_connected-Outcome fd list true net h =
      Returns_bind (freeaddrinfo os list) _ net _ _
        (free_addresses-Has os (fd ∷ descriptors) lists (some list) net h)
        (λ a n k. opened-Outcome descriptors lists fd n k)
  inet6_connected-Outcome fd list false net h =
      fail-Outcome os descriptors lists wants (some fd) (some list) _ net h

  open_looked_up-Outcome :
      (port : ℤ) (fd : ℕ) (answer : Lookup) (net : Net)
      → Has (fd ∷ descriptors) (lives answer lists) net
      → Returns (open_looked_up os wants port fd answer net) (Outcome descriptors lists)
  unfolding open_looked_up
  open_looked_up-Outcome port fd (unknown code) net h =
      fail-Outcome os descriptors lists wants (some fd) none _ (record net { errno = no_error })
        (record { opened_as = h.opened_as; live_as = h.live_as })
  open_looked_up-Outcome port fd (found list infos) net h =
      Returns_bind (connect_addresses os wants fd port infos) _ net _ _
        (connect_addresses-Has fd list port infos net h)
        (λ ok n k. inet6_connected-Outcome fd list ok n k)

  open_opened-Outcome :
      (name : Bytes) (port : ℤ) (fd : Option ℕ) (net : Net)
      → Has (cons_option fd descriptors) lists net
      → Returns (open_opened os wants name port fd net) (Outcome descriptors lists)
  unfolding open_opened
  open_opened-Outcome name port none net h =
      fail-Outcome os descriptors lists wants none none _ net h
  open_opened-Outcome name port (some fd) net h =
      open_looked_up-Outcome port fd (os.getaddrinfo net (some name)).value _
        (getaddrinfo-Has os (fd ∷ descriptors) lists (some name) net h)

  missing-Outcome :
      (net : Net)
      → Has descriptors lists net
      → Returns
          (fail os wants none none (codes "missing server name") (record net { errno = invalid }))
          (Outcome descriptors lists)
  missing-Outcome net h =
      fail-Outcome os descriptors lists wants none none _ (record net { errno = invalid })
        (record { opened_as = h.opened_as; live_as = h.live_as })

  -- `OpenInet6` returns, whatever the system answers to each call, with no call on a descriptor
  -- that is not open and no list of addresses freed twice. The descriptors that are open behind
  -- it are those before it and the one that it gives, if it gives one; the lists of addresses
  -- that are live are those before it.
  pub open_inet6-Outcome :
      (name : Option Bytes) (port : ℤ) (net : Net)
      → Has descriptors lists net
      → Returns (open_inet6 os wants name port net) (Outcome descriptors lists)
  unfolding open_inet6
  open_inet6-Outcome none port net h = missing-Outcome net h
  open_inet6-Outcome (some []) port net h = missing-Outcome net h
  open_inet6-Outcome (some (c ∷ name)) port net h = elim (Bool-cases (c == 0)) [
    | inl e ↦ rw e (missing-Outcome net h)
    | inr e ↦ rw e (
        open_opened-Outcome (c ∷ name) port (os.socket net af_inet6).value _
          (socket-Has os descriptors lists af_inet6 net h))
  ]
