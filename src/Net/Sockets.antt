-- ===== src/Net/Sockets.antt =====
-- The helpers for a given address and for a local name leave no descriptor open but the one that
-- they give.
use libcody.Prelude.{
  ℕ, Bool, true, false, List, ◌∷◌, Option, none, some, refl, Bytes, length, ltb, Bool-cases, inl,
  inr, c_string,
}
use libcody.Net.{Net, ErrorNumber, name_too_long, Address, System, local_address}
use libcody.Net.Client.{connect, socket_connected, socket_opened, open_socket, open_local}
use libcody.Net.Server.{
  bind, listen, listened, socket_bound, listen_opened, listen_socket, listen_local, queue_size,
}
use libcody.Net.Outcome.{
  Returns, Returns_bind, Has, Outcome, fails, cons_option, socket-Has, call_on-Has, fail-Outcome,
  opened-Outcome,
}

module _ (os : System) (descriptors lists : List ℕ) where
  pub connect-Has :
      (fd : ℕ) (addr : Address) (len : ℕ) (net : Net)
      → Has (fd ∷ descriptors) lists net
      → Returns (connect os fd addr len net) (λ ok. Has (fd ∷ descriptors) lists)
  connect-Has fd addr len net h =
      call_on-Has os descriptors lists fd (λ n. os.connect n fd addr len) net h

  pub bind-Has :
      (fd : ℕ) (addr : Address) (len : ℕ) (net : Net)
      → Has (fd ∷ descriptors) lists net
      → Returns (bind os fd addr len net) (λ ok. Has (fd ∷ descriptors) lists)
  bind-Has fd addr len net h =
      call_on-Has os descriptors lists fd (λ n. os.bind n fd addr len) net h

  pub listen-Has :
      (fd backlog : ℕ) (net : Net)
      → Has (fd ∷ descriptors) lists net
      → Returns (listen os fd backlog net) (λ ok. Has (fd ∷ descriptors) lists)
  listen-Has fd backlog net h =
      call_on-Has os descriptors lists fd (λ n. os.listen n fd (queue_size backlog)) net h

module _ (os : System) (wants : Bool) (descriptors lists : List ℕ) where
  socket_connected-Outcome :
      (fd : ℕ) (ok : Bool) (net : Net)
      → Has (fd ∷ descriptors) lists net
      → Returns (socket_connected os wants fd ok net) (Outcome descriptors lists)
  unfolding socket_connected
  socket_connected-Outcome fd true net h = opened-Outcome descriptors lists fd net h
  socket_connected-Outcome fd false net h =
      fail-Outcome os descriptors lists wants (some fd) none _ net h

  socket_opened-Outcome :
      (addr : Address) (len : ℕ) (fd : Option ℕ) (net : Net)
      → Has (cons_option fd descriptors) lists net
      → Returns (socket_opened os wants addr len fd net) (Outcome descriptors lists)
  unfolding socket_opened
  socket_opened-Outcome addr len none net h =
      fail-Outcome os descriptors lists wants none none _ net h
  socket_opened-Outcome addr len (some fd) net h =
      Returns_bind (connect os fd addr len) _ net _ _
        (connect-Has os descriptors lists fd addr len net h)
        (λ ok n k. socket_connected-Outcome fd ok n k)

  pub open_socket-Outcome :
      (addr : Address) (len : ℕ) (net : Net)
      → Has descriptors lists net
      → Returns (open_socket os wants addr len net) (Outcome descriptors lists)
  unfolding open_socket
  open_socket-Outcome addr len net h =
      socket_opened-Outcome addr len (os.socket net addr.family).value _
        (socket-Has os descriptors lists addr.family net h)

  set_errno-Outcome :
      (net : Net) (e : ErrorNumber)
      → Has descriptors lists net
      → Outcome descriptors lists
          (record { descriptor = none; message = none })
          (record net { errno = e })
  set_errno-Outcome net e h = fails refl (record { opened_as = h.opened_as; live_as = h.live_as })

  -- `OpenLocal` returns, with no call on a descriptor that is not open. The descriptors that are
  -- open behind it are those before it and the one that it gives, if it gives one; the lists of
  -- addresses that are live are those before it.
  open_local-Outcome :
      (size : ℕ) (name : Bytes) (net : Net)
      → Has descriptors lists net
      → Returns (open_local os wants size name net) (Outcome descriptors lists)
  unfolding open_local
  open_local-Outcome size name net h =
      elim (Bool-cases (ltb (length (c_string name)) os.path_size)) [
        | inl e ↦ rw e (open_socket-Outcome (local_address name) size net h)
        | inr e ↦ rw e (set_errno-Outcome net name_too_long h)
      ]

  pub listened-Outcome :
      (fd : ℕ) (ok : Bool) (net : Net)
      → Has (fd ∷ descriptors) lists net
      → Returns (listened os wants none fd ok net) (Outcome descriptors lists)
  unfolding listened
  listened-Outcome fd true net h = opened-Outcome descriptors lists fd net h
  listened-Outcome fd false net h = fail-Outcome os descriptors lists wants (some fd) none _ net h

  socket_bound-Outcome :
      (backlog fd : ℕ) (ok : Bool) (net : Net)
      → Has (fd ∷ descriptors) lists net
      → Returns (socket_bound os wants backlog fd ok net) (Outcome descriptors lists)
  unfolding socket_bound
  socket_bound-Outcome backlog fd true net h =
      Returns_bind (listen os fd backlog) _ net _ _
        (listen-Has os descriptors lists fd backlog net h) (λ ok n k. listened-Outcome fd ok n k)
  socket_bound-Outcome backlog fd false net h =
      fail-Outcome os descriptors lists wants (some fd) none _ net h

  listen_opened-Outcome :
      (addr : Address) (len backlog : ℕ) (fd : Option ℕ) (net : Net)
      → Has (cons_option fd descriptors) lists net
      → Returns (listen_opened os wants addr len backlog fd net) (Outcome descriptors lists)
  unfolding listen_opened
  listen_opened-Outcome addr len backlog none net h =
      fail-Outcome os descriptors lists wants none none _ net h
  listen_opened-Outcome addr len backlog (some fd) net h =
      Returns_bind (bind os fd addr len) _ net _ _ (bind-Has os descriptors lists fd addr len net h)
        (λ ok n k. socket_bound-Outcome backlog fd ok n k)

  pub listen_socket-Outcome :
      (addr : Address) (len backlog : ℕ) (net : Net)
      → Has descriptors lists net
      → Returns (listen_socket os wants addr len backlog net) (Outcome descriptors lists)
  unfolding listen_socket
  listen_socket-Outcome addr len backlog net h =
      listen_opened-Outcome addr len backlog (os.socket net addr.family).value _
        (socket-Has os descriptors lists addr.family net h)

  -- `ListenLocal` returns, with no call on a descriptor that is not open. The descriptors that
  -- are open behind it are those before it and the one that it gives, if it gives one; the lists
  -- of addresses that are live are those before it.
  listen_local-Outcome :
      (size : ℕ) (name : Bytes) (backlog : ℕ) (net : Net)
      → Has descriptors lists net
      → Returns (listen_local os wants size name backlog net) (Outcome descriptors lists)
  unfolding listen_local
  listen_local-Outcome size name backlog net h =
      elim (Bool-cases (ltb (length (c_string name)) os.path_size)) [
        | inl e ↦ rw e (listen_socket-Outcome (local_address name) size backlog net h)
        | inr e ↦ rw e (set_errno-Outcome net name_too_long h)
      ]
