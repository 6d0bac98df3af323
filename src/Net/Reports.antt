-- ===== src/Net/Reports.antt =====
-- What `OpenSocket` of netclient.cc and `ListenSocket` of netserver.cc tell their callers: the step
-- that failed and its `errno`, which the cleaning up after it does not change.
use libcody.Prelude.{
  ℕ, suc, Bool, true, false, List, ◌∷◌, Option, none, some, ◌≡◌, refl, Bytes, codes,
}
use libcody.Net.{
  ErrorNumber, Address, Net, System, ◌>>=◌, fail, Opening, message_for, opens, close_descriptor,
  call_on,
}
use libcody.Net.Client.{socket_connected, socket_opened, open_socket, connect}
use libcody.Net.Server.{
  socket_bound, listen_opened, listen_socket, bind, listen, listened, queue_size,
}
use libcody.Net.Outcome.{Returns, Returns_bind, Has, cons_option, remove_held, close_descriptor-Has}

-- The step that failed, by its message, and its `errno`; with no step, the descriptor is given.
pub data Report : Type 0 where
  failed : ErrorNumber → Bytes → Report
  succeeded : ℕ → Report

-- The result of a helper is that of the report.
abbrev pub Reports : Bool → Report → Opening → Net → Type 0
Reports wants (failed errno errstr) r net =
    (r.descriptor ≡ none) × (r.message ≡ message_for wants errstr) × (net.errno ≡ errno)
Reports wants (succeeded fd) r net = (r.descriptor ≡ some fd) × (r.message ≡ none)

-- What a system tells the caller of `OpenSocket`, by the first call that fails.
abbrev pub connect_report : ErrorNumber → ℕ → Bool → Report
connect_report e fd true = succeeded fd
connect_report e fd false = failed e (codes "connecting socket")

abbrev after_socket : System → Address → Net → Net
after_socket os addr net = record net {
  errno = (os.socket net addr.family).errno;
  opened = opens (os.socket net addr.family).value net.opened;
  time = suc net.time;
}

abbrev opened_report : System → Address → ℕ → Option ℕ → Net → Report
opened_report os addr len none net = failed net.errno (codes "creating socket")
opened_report os addr len (some fd) net =
    connect_report (os.connect net fd addr len).errno fd (os.connect net fd addr len).value

abbrev pub open_report : System → Address → ℕ → Net → Report
open_report os addr len net =
    opened_report os addr len (os.socket net addr.family).value (after_socket os addr net)

-- The same for `ListenSocket`, which makes a call more.
abbrev listen_report : ErrorNumber → ℕ → Bool → Report
listen_report e fd true = succeeded fd
listen_report e fd false = failed e (codes "listening socket")

abbrev bound_report : System → ℕ → ℕ → Bool → Net → Report
bound_report os backlog fd true net =
    let r = os.listen net fd (queue_size backlog) in listen_report r.errno fd r.value
bound_report os backlog fd false net = failed net.errno (codes "binding socket")

abbrev after_bind : System → Address → ℕ → ℕ → Net → Net
after_bind os addr len fd net = record net {
  errno = (os.bind net fd addr len).errno;
  time = suc net.time;
}

abbrev socket_report : System → Address → ℕ → ℕ → Option ℕ → Net → Report
socket_report os addr len backlog none net = failed net.errno (codes "creating socket")
socket_report os addr len backlog (some fd) net =
    bound_report os backlog fd (os.bind net fd addr len).value (after_bind os addr len fd net)

abbrev pub listening_report : System → Address → ℕ → ℕ → Net → Report
listening_report os addr len backlog net =
    socket_report os addr len backlog (os.socket net addr.family).value (after_socket os addr net)

opens_lem : (fd : Option ℕ) (xs : List ℕ) → opens fd xs ≡ cons_option fd xs
opens_lem none xs = refl
opens_lem (some fd) xs = refl

module _ (os : System) (wants : Bool) (descriptors : List ℕ) where
  fail-Reports :
      (fd : Option ℕ) (errstr : Bytes) (net : Net)
      → Has (cons_option fd descriptors) net.live net
      → Returns (fail os wants fd none errstr net) (Reports wants (failed net.errno errstr))
  unfolding fail
  fail-Reports fd errstr net h =
      Returns_bind (close_descriptor os fd) _ net _ _
        (close_descriptor-Has os descriptors net.live fd net h) (λ a n k. (refl, refl, refl))

  connected-Reports :
      (fd : ℕ) (ok : Bool) (net : Net)
      → Has (fd ∷ descriptors) net.live net
      → Returns
          (socket_connected os wants fd ok net)
          (Reports wants (connect_report net.errno fd ok))
  unfolding socket_connected
  connected-Reports fd true net h = (refl, refl)
  connected-Reports fd false net h = fail-Reports (some fd) (codes "connecting socket") net h

  opened-Reports :
      (addr : Address) (len : ℕ) (fd : Option ℕ) (net : Net)
      → net.opened ≡ cons_option fd descriptors
      → Returns
          (socket_opened os wants addr len fd net)
          (Reports wants (opened_report os addr len fd net))
  unfolding socket_opened
  opened-Reports addr len none net h =
      fail-Reports none (codes "creating socket") net (record { opened_as = h; live_as = refl })
  opened-Reports addr len (some fd) net h =
      rw (remove_held fd descriptors net.opened h, connect, call_on, ◌>>=◌)
        (connected-Reports fd (os.connect net fd addr len).value _
          (record { opened_as = h; live_as = refl }))

  listened-Reports :
      (fd : ℕ) (ok : Bool) (net : Net)
      → Has (fd ∷ descriptors) net.live net
      → Returns (listened os wants none fd ok net) (Reports wants (listen_report net.errno fd ok))
  unfolding listened
  listened-Reports fd true net h = (refl, refl)
  listened-Reports fd false net h = fail-Reports (some fd) (codes "listening socket") net h

  bound-Reports :
      (backlog fd : ℕ) (ok : Bool) (net : Net)
      → net.opened ≡ fd ∷ descriptors
      → Returns
          (socket_bound os wants backlog fd ok net)
          (Reports wants (bound_report os backlog fd ok net))
  unfolding socket_bound
  bound-Reports backlog fd true net h =
      rw (remove_held fd descriptors net.opened h, listen, call_on, ◌>>=◌)
        (listened-Reports fd (os.listen net fd (queue_size backlog)).value _
          (record { opened_as = h; live_as = refl }))
  bound-Reports backlog fd false net h =
      fail-Reports (some fd) (codes "binding socket") net (record { opened_as = h; live_as = refl })

  listen_opened-Reports :
      (addr : Address) (len backlog : ℕ) (fd : Option ℕ) (net : Net)
      → net.opened ≡ cons_option fd descriptors
      → Returns
          (listen_opened os wants addr len backlog fd net)
          (Reports wants (socket_report os addr len backlog fd net))
  unfolding listen_opened
  listen_opened-Reports addr len backlog none net h =
      fail-Reports none (codes "creating socket") net (record { opened_as = h; live_as = refl })
  listen_opened-Reports addr len backlog (some fd) net h =
      rw (remove_held fd descriptors net.opened h, bind, call_on, ◌>>=◌)
        (bound-Reports backlog fd (os.bind net fd addr len).value _ h)

-- `OpenSocket` gives the descriptor of `socket` if `socket` and `connect` succeed. Else it gives
-- none, the message names the first call that failed, for a caller that wants it, and `errno` is
-- the one that this call left, whatever `close` does to it.
pub open_socket-Reports :
    (os : System) (wants : Bool) (addr : Address) (len : ℕ) (net : Net)
    → Returns (open_socket os wants addr len net) (Reports wants (open_report os addr len net))
unfolding open_socket
open_socket-Reports os wants addr len net =
    opened-Reports os wants net.opened addr len (os.socket net addr.family).value _
      (opens_lem (os.socket net addr.family).value net.opened)

-- `ListenSocket` gives the descriptor of `socket` if `socket`, `bind` and `listen` succeed. Else
-- it gives none, the message names the first call that failed, for a caller that wants it, and
-- `errno` is the one that this call left, whatever `close` does to it.
pub listen_socket-Reports :
    (os : System) (wants : Bool) (addr : Address) (len backlog : ℕ) (net : Net)
    → Returns
        (listen_socket os wants addr len backlog net)
        (Reports wants (listening_report os addr len backlog net))
unfolding listen_socket
listen_socket-Reports os wants addr len backlog net =
    listen_opened-Reports os wants net.opened addr len backlog (os.socket net addr.family).value _
      (opens_lem (os.socket net addr.family).value net.opened)
