-- ===== src/Net/Outcome.antt =====
-- What a helper leaves behind: just the descriptor that it gives, and no list of addresses. The
-- rules follow the calls and the label `fail`.
use libcody.Prelude.{
  ℕ, suc, Bool, true, false, ◌&&◌, List, [], ◌∷◌, Option, none, some, ◌≡◌, refl, ap, arith, Bytes,
  ◌==◌, Bool-cases, inl, inr,
}
use libcody.Net.{
  ℤ, Family, AddressInfo, Net, Reply, System, M, ◌>>=◌, call_on, remove, socket, close, getaddrinfo,
  freeaddrinfo, Opening, fail, first_of, try_address, port_fits, is_inet6, opens, lives,
  close_descriptor, free_addresses, or_else, opened,
}

-- The call returns, with no fault, and what it gives is in the relation.
abbrev pub Returns : {A : Type 0} → Option (A × Net) → (A → Net → Type 0) → Type 0
Returns none P = ⊥
Returns (some (a, net)) P = P a net

Returns_continue :
    {A B : Type 0} (o : Option (A × Net)) (f : A → M B) (P : A → Net → Type 0)
    (Q : B → Net → Type 0)
    → Returns o P
    → ((a : A) (net : Net) → P a net → Returns (f a net) Q)
    → Returns (elim o [ none ↦ none | some (a, net) ↦ f a net ]) Q
Returns_continue none f P Q h k = h
Returns_continue (some (a, net)) f P Q h k = k a net h

-- The rule for a chain of two calls.
pub Returns_bind :
    {A B : Type 0} (m : M A) (f : A → M B) (net : Net) (P : A → Net → Type 0) (Q : B → Net → Type 0)
    → Returns (m net) P
    → ((a : A) (net' : Net) → P a net' → Returns (f a net') Q)
    → Returns ((m >>= f) net) Q
Returns_bind m f net P Q h k = Returns_continue (m net) f P Q h k

-- A chain whose second call is a fault.
fault_continue :
    {A B : Type 0} (o : Option (A × Net)) (f : A → M B) (P : A → Net → Type 0)
    → Returns o P
    → ((a : A) (net : Net) → P a net → f a net ≡ none)
    → ◌≡◌ {A = Option (B × Net)} (elim o [ none ↦ none | some (a, net) ↦ f a net ]) none
fault_continue none f P h k = refl
fault_continue (some (a, net)) f P h k = k a net h

pub fault_bind :
    {A B : Type 0} (m : M A) (f : A → M B) (net : Net) (P : A → Net → Type 0)
    → Returns (m net) P
    → ((a : A) (net' : Net) → P a net' → f a net' ≡ none)
    → (m >>= f) net ≡ none
fault_bind m f net P h k = fault_continue (m net) f P h k

-- The descriptors that are open, and the lists that are live.
pub record Has (descriptors lists : List ℕ) (net : Net) : Type 0 where
  pub opened_as : net.opened ≡ descriptors
  pub live_as : net.live ≡ lists

pub data Outcome (descriptors lists : List ℕ) (r : Opening) (net : Net) : Type 0 where
  succeeds :
      (fd : ℕ)
      → r.descriptor ≡ some fd
      → Has (fd ∷ descriptors) lists net
      → Outcome descriptors lists r net
  fails : r.descriptor ≡ none → Has descriptors lists net → Outcome descriptors lists r net

abbrev pub cons_option : Option ℕ → List ℕ → List ℕ
cons_option none xs = xs
cons_option (some x) xs = x ∷ xs

pub remove_held : (x : ℕ) (ys xs : List ℕ) → xs ≡ x ∷ ys → remove x xs ≡ some ys
remove_held x ys xs h = let e : (x == x) ≡ true = ground arith in rw (h, e)

module _ (os : System) (descriptors lists : List ℕ) where
  pub socket-Has :
      (family : Family) (net : Net)
      → Has descriptors lists net
      → Returns (socket os family net) (λ fd. Has (cons_option fd descriptors) lists)
  socket-Has family net h =
      elim ((os.socket net family).value)
        as (λ v. Has (cons_option v descriptors) lists (record net {
          errno = (os.socket net family).errno;
          opened = opens v net.opened;
          time = suc net.time;
        })) [
          | none ↦ record { opened_as = h.opened_as; live_as = h.live_as }
          | some fd ↦ record { opened_as = ap (◌∷◌ fd) h.opened_as; live_as = h.live_as }
        ]

  pub call_on-Has :
      {A : Type 0} (fd : ℕ) (f : Net → Reply A) (net : Net)
      → Has (fd ∷ descriptors) lists net
      → Returns (call_on fd f net) (λ a. Has (fd ∷ descriptors) lists)
  call_on-Has fd f net h =
      rw (remove_held fd descriptors net.opened h.opened_as, call_on)
        (record { opened_as = h.opened_as; live_as = h.live_as })

  -- With the value that the system gives.
  pub call_on-value :
      {A : Type 0} (fd : ℕ) (f : Net → Reply A) (net : Net)
      → Has (fd ∷ descriptors) lists net
      → Returns (call_on fd f net) (λ a n. (a ≡ (f net).value) × Has (fd ∷ descriptors) lists n)
  call_on-value fd f net h =
      rw (remove_held fd descriptors net.opened h.opened_as, call_on)
        (refl, record { opened_as = h.opened_as; live_as = h.live_as })

  pub close_descriptor-Has :
      (fd : Option ℕ) (net : Net)
      → Has (cons_option fd descriptors) lists net
      → Returns (close_descriptor os fd net) (λ a. Has descriptors lists)
  close_descriptor-Has none net h = h
  close_descriptor-Has (some fd) net h =
      rw (remove_held fd descriptors net.opened h.opened_as, close)
        (record { opened_as = refl; live_as = h.live_as })

  pub free_addresses-Has :
      (list : Option ℕ) (net : Net)
      → Has descriptors (cons_option list lists) net
      → Returns (free_addresses os list net) (λ a. Has descriptors lists)
  free_addresses-Has none net h = h
  free_addresses-Has (some list) net h =
      rw (remove_held list lists net.live h.live_as, freeaddrinfo)
        (record { opened_as = h.opened_as; live_as = refl })

  pub getaddrinfo-Has :
      (name : Option Bytes) (net : Net)
      → Has descriptors lists net
      → Returns (getaddrinfo os name net) (λ answer. Has descriptors (lives answer lists))
  getaddrinfo-Has name net h = record {
    opened_as = h.opened_as;
    live_as = ap (lives (os.getaddrinfo net name).value) h.live_as;
  }

-- The label `fail` closes the descriptor and frees the list, if they are there.
pub fail-Outcome :
    (os : System) (descriptors lists : List ℕ) (wants : Bool) (fd list : Option ℕ) (errstr : Bytes)
    (net : Net)
    → Has (cons_option fd descriptors) (cons_option list lists) net
    → Returns (fail os wants fd list errstr net) (Outcome descriptors lists)
unfolding fail
fail-Outcome os descriptors lists wants fd list errstr net h =
    Returns_bind (close_descriptor os fd) _ net _ _
      (close_descriptor-Has os descriptors (cons_option list lists) fd net h)
      (λ a n k.
        Returns_bind (free_addresses os list) _ n _ _
          (free_addresses-Has os descriptors lists list n k)
          (λ b n' k'. fails refl (record { opened_as = k'.opened_as; live_as = k'.live_as })))

-- The return of the descriptor that is open.
pub opened-Outcome :
    (descriptors lists : List ℕ) (fd : ℕ) (net : Net)
    → Has (fd ∷ descriptors) lists net
    → Returns (opened fd net) (Outcome descriptors lists)
opened-Outcome descriptors lists fd net h = succeeds fd refl h

or_else-Has :
    (descriptors lists : List ℕ) (ok : Bool) (rest : M Bool) (net : Net)
    → Has descriptors lists net
    → Returns (rest net) (λ ok. Has descriptors lists)
    → Returns (or_else ok rest net) (λ ok. Has descriptors lists)
or_else-Has descriptors lists true rest net h k = h
or_else-Has descriptors lists false rest net h k = k

-- The loop over the addresses calls nothing that opens, closes or frees.
module _ (os : System) (port : ℤ) (attempt : AddressInfo → M Bool) (descriptors lists : List ℕ)
    (keeps : (info : AddressInfo) (net : Net)
      → Has descriptors lists net
      → Returns (attempt info net) (λ ok. Has descriptors lists)) where
  try_address-Has :
      (next : AddressInfo) (net : Net)
      → Has descriptors lists net
      → Returns (try_address os port attempt next net) (λ ok. Has descriptors lists)
  try_address-Has next net h = elim (Bool-cases (is_inet6 next.family && next.is_stream)) [
    | inl e ↦ elim (Bool-cases (port_fits os port)) [
      | inl f ↦ rw (e, f) (keeps next net h)
      | inr f ↦ rw (e, f) (record { opened_as = h.opened_as; live_as = h.live_as })
    ]
    | inr e ↦ rw e h
  ]

  pub first_of-Has :
      (infos : List AddressInfo) (net : Net)
      → Has descriptors lists net
      → Returns (first_of os port attempt infos net) (λ ok. Has descriptors lists)
  unfolding first_of
  first_of-Has [] net h = h
  first_of-Has (next ∷ infos) net h =
      Returns_bind (try_address os port attempt next) _ net _ _ (try_address-Has next net h)
        (λ ok n k.
          or_else-Has descriptors lists ok (first_of os port attempt infos) n k
            (first_of-Has infos n k))
