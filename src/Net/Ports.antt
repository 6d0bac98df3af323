-- ===== src/Net/Ports.antt =====
-- The test of the port in the helpers that look a name up: `htons` takes 16 bits of an `int`.
use libcody.Prelude.{
  List, [], ◌∷◌, ◌&&◌, Bool-cases, inl, inr, ℕ, ◌<◌, ◌%◌, Bool, false, ◌≡◌, refl, sym, ap, ◌∙◌,
  arith, ltb, ◌==◌,
}
use libcody.Net.Outcome.{Returns, Returns_bind}
use libcody.Net.{
  AddressInfo, Net, M, first_of, try_address, is_inet6, ℤ, pos, negsuc, System, port_fits,
}

-- The ports of a socket.
abbrev pub is_port : ℤ → Bool
is_port (pos n) = ltb n 65536
is_port (negsuc n) = false

equals_u16 : (n : ℕ) → ((n % 65536) == n) ≡ ltb n 65536
equals_u16 n = ground arith

pub port_fits-is_port :
    (os : System) (port : ℤ)
    → ((n : ℕ) → n < 65536 → os.ntohs (os.htons n) ≡ n)
    → port_fits os port ≡ is_port port
port_fits-is_port os (pos n) h = ap (λ m. m == n) (h (n % 65536) (omega arith)) ∙ equals_u16 n
port_fits-is_port os (negsuc n) h = refl

-- What differs is `errno` at most: no call was made.
abbrev pub Untouched : Net → Bool → Net → Type 0
Untouched net ok n =
    (ok ≡ false) × (n.time ≡ net.time) × (n.opened ≡ net.opened) × (n.live ≡ net.live)

module _ (os : System) (port : ℤ) (attempt : AddressInfo → M Bool)
    (refused : port_fits os port ≡ false) where
  try_address-Untouched :
      (next : AddressInfo) (net : Net)
      → Returns (try_address os port attempt next net) (Untouched net)
  try_address-Untouched next net = elim (Bool-cases (is_inet6 next.family && next.is_stream)) [
    | inl e ↦ rw (e, refused) (refl, refl, refl, refl)
    | inr e ↦ rw e (refl, refl, refl, refl)
  ]

  first_of-Untouched :
      (infos : List AddressInfo) (net : Net)
      → Returns (first_of os port attempt infos net) (Untouched net)
  unfolding first_of
  first_of-Untouched [] net = (refl, refl, refl, refl)
  first_of-Untouched (next ∷ infos) net =
      Returns_bind (try_address os port attempt next) _ net (Untouched net) (Untouched net)
        (try_address-Untouched next net)
        (λ ok n (e, t, o, l). rw (e, sym t, sym o, sym l) (first_of-Untouched infos n))

-- If `ntohs` undoes `htons` on 16 bits, the loop over the addresses fails for an `int` that is no
-- port, from 0 to 65535, whatever the addresses are: it makes no call and leaves the descriptors
-- and the lists as they are.
pub refused_port :
    (os : System) (port : ℤ) (attempt : AddressInfo → M Bool) (infos : List AddressInfo) (net : Net)
    → ((n : ℕ) → n < 65536 → os.ntohs (os.htons n) ≡ n)
    → is_port port ≡ false
    → Returns (first_of os port attempt infos net) (Untouched net)
refused_port os port attempt infos net h e =
    first_of-Untouched os port attempt (port_fits-is_port os port h ∙ e) infos net
