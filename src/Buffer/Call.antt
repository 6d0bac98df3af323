-- ===== src/Buffer/Call.antt =====
-- A call of `Lex` on a buffer that is read up to `pre` and ends in a newline.
use libcody.Prelude.{
  ℕ, ◌-◌, false, List, [], ◌∷◌, ◌++◌, Option, none, some, ◌≡◌, ◌≢◌, refl, ◌∙◌, arith, Bytes, ◌==◌,
  length, drop-append, length-append,
}
use libcody.Status.{Status}
use libcody.Buffer.Lex.{Lexed, line, scan, ended, lex, lex_scanned, lex_status, last?}

-- A result of `Lex` with the bytes of the buffer and the position in it.
abbrev pub lexed_at : Status → List Bytes → Bytes → ℕ → Option Lexed
lexed_at status words bytes n =
    some (record { status = status; words = words; rest = record { buffer = bytes; last_bol = n } })

pub last?-append : (s t : Bytes) → t ≢ [] → last? (s ++ t) ≡ last? t
last?-append [] t ne = refl
last?-append (c ∷ []) [] ne = absurd (ne refl)
last?-append (c ∷ []) (d ∷ t) ne = refl
last?-append (c ∷ d ∷ s) t ne = last?-append (d ∷ s) t ne

pub not_at_end : (pre input : Bytes) → input ≢ [] → (length pre == length (pre ++ input)) ≡ false
not_at_end pre [] ne = absurd (ne refl)
not_at_end pre (c ∷ s) ne = ground (arith, length-append pre (c ∷ s))

-- The scan begins behind `pre`.
pub lex-scan :
    (pre input : Bytes)
    → input ≢ []
    → last? input ≡ some b'\n'
    → lex (record { buffer = pre ++ input; last_bol = length pre })
      ≡ lex_scanned
          (record { buffer = pre ++ input; last_bol = length pre })
          (scan (line [] none) input)
unfolding lex
lex-scan pre input ne l =
    rw (not_at_end pre input ne, last?-append pre input ne, l, drop-append pre input)

pub lex-ended :
    (pre input iter : Bytes) (result : List Bytes)
    → input ≢ []
    → last? input ≡ some b'\n'
    → scan (line [] none) input ≡ ended result iter
    → lex (record { buffer = pre ++ input; last_bol = length pre })
      ≡ lexed_at (lex_status result) result (pre ++ input) (length (pre ++ input) - length iter)
unfolding lex_scanned
lex-ended pre input iter result ne l e = lex-scan pre input ne l ∙ rw (e, lex_scanned)
