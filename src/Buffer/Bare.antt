-- ===== src/Buffer/Bare.antt =====
-- The words that the protocol writes with no quotes: its own words and numbers.
use libcody.Prelude.{
  ℕ, Bool, true, false, not, ◌&&◌, [], ◌∷◌, ◌≡◌, ◌≢◌, arith, Bytes, All, ltb, ◌==◌,
}
use libcody.Number.{to_string}
use libcody.Number.RoundTrip.{IsDigit, to_string-IsDigit, to_string_ne}
use libcody.Buffer.Words.{IsBare, IsWord}
use libcody.Buffer.Message.{Word}

-- A word of the protocol, and a word from outside.
abbrev pub bare : Bytes → Word
bare s = record { text = s; quote = false }

abbrev pub quotable : Bytes → Word
quotable s = record { text = s; quote = true }

abbrev pub is_bare : ℕ → Bool
is_bare c = ltb b' ' c && ltb c 0x7f && not (c == b';') && not (c == b'\'')

abbrev pub are_bare : Bytes → Bool
are_bare [] = true
are_bare (c ∷ s) = is_bare c && are_bare s

are_bare-IsBare : (s : Bytes) → are_bare s ≡ true → All IsBare s
are_bare-IsBare [] h = tt
are_bare-IsBare (c ∷ s) h = (ground arith, are_bare-IsBare s (ground arith))

pub are_bare-IsWord : (s : Bytes) → s ≢ [] → are_bare s ≡ true → IsWord false s
are_bare-IsWord s ne h = (ne, are_bare-IsBare s h)

digits-IsBare : (s : Bytes) → All IsDigit s → All IsBare s
digits-IsBare [] h = tt
digits-IsBare (c ∷ s) (h, hs) = (ground arith, digits-IsBare s hs)

pub to_string-IsWord : (u : ℕ) → IsWord false (to_string u)
to_string-IsWord u = (to_string_ne u, digits-IsBare (to_string u) (to_string-IsDigit u))
