-- ===== src/Net/Listen6.antt =====
-- `ListenInet6`: it leaves just the descriptor that it gives as long as `listen` does not fail. If it
-- does, the addresses are freed a second time.
use libcody.Prelude.{
  ℕ, Bool, true, false, ◌&&◌, List, [], ◌∷◌, Option, none, some, ◌≡◌, refl, ap, ◌∙◌, Bytes,
}
use libcody.Net.{
  ℤ, af_inet6, AddressInfo, Net, Lookup, found, unknown, System, M, ◌>>=◌, freeaddrinfo, fail,
  close, is_inet6, port_fits, remove, with_port, lives, no_error, free_addresses, first_of,
  try_address,
}
use libcody.Net.Server.{
  try_bind, bind_addresses, listen, listened, inet6_bound, inet6_looked_up, inet6_opened,
  listen_inet6, queue_size,
}
use libcody.Net.Outcome.{
  Returns, Returns_bind, Has, Outcome, cons_option, fault_bind, call_on-value, socket-Has,
  getaddrinfo-Has, free_addresses-Has, close_descriptor-Has, fail-Outcome, opened-Outcome,
  first_of-Has,
}
use libcody.Net.Sockets.{bind-Has}

-- No call of `listen` fails.
abbrev pub Listens : System → Type 0
Listens os = (net : Net) (fd backlog : ℕ) → (os.listen net fd backlog).value ≡ true

module _ (os : System) (wants : Bool) (descriptors lists : List ℕ) where
  bind_addresses-Has :
      (fd : ℕ) (list : ℕ) (port : ℤ) (infos : List AddressInfo) (net : Net)
      → Has (fd ∷ descriptors) (list ∷ lists) net
      → Returns
          (bind_addresses os wants fd port infos net)
          (λ ok. Has (fd ∷ descriptors) (list ∷ lists))
  unfolding bind_addresses
  bind_addresses-Has fd list port infos net h =
      first_of-Has os port (try_bind os wants fd port) (fd ∷ descriptors) (list ∷ lists)
        (λ info n k.
          bind-Has os descriptors (list ∷ lists) fd (with_port os port info.addr) info.addrlen n k)
        infos net h

  listen_value :
      (fd backlog : ℕ) (value : Bool) (net : Net)
      → (os.listen net fd (queue_size backlog)).value ≡ value
      → Has (fd ∷ descriptors) lists net
      → Returns (listen os fd backlog net) (λ ok n. (ok ≡ value) × Has (fd ∷ descriptors) lists n)
  listen_value fd backlog value net e h =
      rw e at
        (call_on-value os descriptors lists fd (λ n. os.listen n fd (queue_size backlog)) net h)

  inet6_bound-Outcome :
      (backlog fd list : ℕ) (ok : Bool) (net : Net)
      → Listens os
      → Has (fd ∷ descriptors) (list ∷ lists) net
      → Returns (inet6_bound os wants backlog fd list ok net) (Outcome descriptors lists)
  unfolding inet6_bound listened
  inet6_bound-Outcome backlog fd list true net l h =
      Returns_bind (freeaddrinfo os list) _ net _ _
        (free_addresses-Has os (fd ∷ descriptors) lists (some list) net h)
        (λ a n k.
          Returns_bind (listen os fd backlog) _ n _ _
            (listen_value fd backlog true n (l n fd (queue_size backlog)) k)
            (λ ok n' (e, k'). rw e (opened-Outcome descriptors lists fd n' k')))
  inet6_bound-Outcome backlog fd list false net l h =
      fail-Outcome os descriptors lists wants (some fd) (some list) _ net h

  inet6_looked_up-Outcome :
      (port : ℤ) (backlog fd : ℕ) (answer : Lookup) (net : Net)
      → Listens os
      → Has (fd ∷ descriptors) (lives answer lists) net
      → Returns (inet6_looked_up os wants port backlog fd answer net) (Outcome descriptors lists)
  unfolding inet6_looked_up
  inet6_looked_up-Outcome port backlog fd (unknown code) net l h =
      fail-Outcome os descriptors lists wants (some fd) none _ (record net { errno = no_error })
        (record { opened_as = h.opened_as; live_as = h.live_as })
  inet6_looked_up-Outcome port backlog fd (found list infos) net l h =
      Returns_bind (bind_addresses os wants fd port infos) _ net _ _
        (bind_addresses-Has fd list port infos net h)
        (λ ok n k. inet6_bound-Outcome backlog fd list ok n l k)

  inet6_opened-Outcome :
      (name : Option Bytes) (port : ℤ) (backlog : ℕ) (fd : Option ℕ) (net : Net)
      → Listens os
      → Has (cons_option fd descriptors) lists net
      → Returns (inet6_opened os wants name port backlog fd net) (Outcome descriptors lists)
  unfolding inet6_opened
  inet6_opened-Outcome name port backlog none net l h =
      fail-Outcome os descriptors lists wants none none _ net h
  inet6_opened-Outcome name port backlog (some fd) net l h =
      inet6_looked_up-Outcome port backlog fd (os.getaddrinfo net name).value _ l
        (getaddrinfo-Has os (fd ∷ descriptors) lists name net h)

  -- If no call of `listen` fails, `ListenInet6` returns, with no call on a descriptor that is not
  -- open and no list of addresses freed twice. The descriptors that are open behind it are those
  -- before it and the one that it gives, if it gives one; the lists of addresses that are live
  -- are those before it.
  pub listen_inet6-Outcome :
      (name : Option Bytes) (port : ℤ) (backlog : ℕ) (net : Net)
      → Listens os
      → Has descriptors lists net
      → Returns (listen_inet6 os wants name port backlog net) (Outcome descriptors lists)
  unfolding listen_inet6
  listen_inet6-Outcome name port backlog net l h =
      inet6_opened-Outcome name port backlog (os.socket net af_inet6).value _ l
        (socket-Has os descriptors lists af_inet6 net h)

-- Every call up to `listen` succeeds, for the address `info` that is looked up, and `listen` fails.
pub record OnlyListenFails (os : System) (port : ℤ) (fd list : ℕ) (info : AddressInfo)
    : Type 0 where
  pub opens_fd : (net : Net) → (os.socket net af_inet6).value ≡ some fd
  pub finds :
      (net : Net) (name : Option Bytes) → (os.getaddrinfo net name).value ≡ found list (info ∷ [])
  pub matches : (is_inet6 info.family && info.is_stream) ≡ true
  pub fits : port_fits os port ≡ true
  pub binds : (net : Net) → (os.bind net fd (with_port os port info.addr) info.addrlen).value ≡ true
  pub refuses : (net : Net) (backlog : ℕ) → (os.listen net fd backlog).value ≡ false

fault_first :
    {A B : Type 0} (m : M A) (f : A → M B) (net : Net) → m net ≡ none → (m >>= f) net ≡ none
fault_first m f net h = rw (h, ◌>>=◌) refl

-- A list that is not live cannot be freed.
free-missing :
    (os : System) (list : ℕ) (lists : List ℕ) (net : Net)
    → net.live ≡ lists
    → remove list lists ≡ none
    → freeaddrinfo os list net ≡ none
free-missing os list lists net h once =
    let e : remove list net.live ≡ none = ap (remove list) h ∙ once in rw (e, freeaddrinfo) refl

module _ (os : System) (wants : Bool) (descriptors lists : List ℕ) (port : ℤ) (fd list : ℕ)
    (info : AddressInfo) (only : OnlyListenFails os port fd list info)
    (once : remove list lists ≡ none) (backlog : ℕ) where
  freed_twice :
      (net : Net)
      → Has (fd ∷ descriptors) lists net
      → listened os wants (some list) fd false net ≡ none
  unfolding listened fail
  freed_twice net h =
      fault_bind (close os fd) _ net _ (close_descriptor-Has os descriptors lists (some fd) net h)
        (λ a n k.
          fault_first (free_addresses os (some list)) _ n
            (free-missing os list lists n k.live_as once))

  bound_fault :
      (net : Net)
      → Has (fd ∷ descriptors) (list ∷ lists) net
      → inet6_bound os wants backlog fd list true net ≡ none
  unfolding inet6_bound
  bound_fault net h =
      fault_bind (freeaddrinfo os list) _ net _
        (free_addresses-Has os (fd ∷ descriptors) lists (some list) net h)
        (λ a n k.
          fault_bind (listen os fd backlog) _ n _
            (listen_value os wants descriptors lists fd backlog false n
              (only.refuses n (queue_size backlog)) k)
            (λ ok n' (e, k'). rw e (freed_twice n' k')))

  bind_value :
      (net : Net)
      → Has (fd ∷ descriptors) (list ∷ lists) net
      → Returns
          (bind_addresses os wants fd port (info ∷ []) net)
          (λ ok n. (ok ≡ true) × Has (fd ∷ descriptors) (list ∷ lists) n)
  unfolding bind_addresses first_of
  bind_value net h =
      Returns_bind (try_address os port (try_bind os wants fd port) info) _ net
        (λ ok n. (ok ≡ true) × Has (fd ∷ descriptors) (list ∷ lists) n) _
        (rw (only.matches, only.fits)
          (rw (only.binds net) at (
            call_on-value os descriptors (list ∷ lists) fd
              (λ n. os.bind n fd (with_port os port info.addr) info.addrlen) net h)))
        (λ ok n (e, k). rw e (refl, k))

  looked_up_fault :
      (net : Net)
      → Has (fd ∷ descriptors) (list ∷ lists) net
      → inet6_looked_up os wants port backlog fd (found list (info ∷ [])) net ≡ none
  unfolding inet6_looked_up
  looked_up_fault net h =
      fault_bind (bind_addresses os wants fd port (info ∷ [])) _ net _ (bind_value net h)
        (λ ok n (e, k). rw e (bound_fault n k))

  opened_fault :
      (name : Option Bytes) (net : Net)
      → Has (fd ∷ descriptors) lists net
      → inet6_opened os wants name port backlog (some fd) net ≡ none
  unfolding inet6_opened
  opened_fault name net h =
      rw (only.finds net name)
        (looked_up_fault _ (record { opened_as = h.opened_as; live_as = ap (◌∷◌ list) h.live_as }))

  -- If the calls of `ListenInet6` up to `listen` succeed, with one address that is looked up and
  -- a pointer to its list that was not live before, and `listen` fails, then the list is freed
  -- twice: the run ends in a fault.
  pub listen_inet6_frees_twice :
      (name : Option Bytes) (net : Net)
      → Has descriptors lists net
      → listen_inet6 os wants name port backlog net ≡ none
  unfolding listen_inet6
  listen_inet6_frees_twice name net h =
      rw (only.opens_fd net)
        (opened_fault name _ (record { opened_as = ap (◌∷◌ fd) h.opened_as; live_as = h.live_as }))
