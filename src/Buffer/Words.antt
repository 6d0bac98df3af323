-- ===== src/Buffer/Words.antt =====
-- One word of a line: what `Append` writes for it, and how the scan of `Lex` reads that back.
use libcody.Prelude.{
  ℕ, ◌+◌, ◌*◌, ◌/◌, ◌%◌, ◌≤◌, ◌<◌, Bool, true, false, ◌||◌, List, [], ◌∷◌, ◌++◌, Option, none, some,
  ◌≡◌, ◌≢◌, refl, sym, ◌∙◌, ◌⊎◌, inl, inr, arith, Bytes, append-nil, append_assoc, All, length,
  ◌==◌, if◌then◌else◌, Bool-cases,
}
use libcody.Buffer.{MessageBuffer, push}
use libcody.Buffer.Append.{needs_quotes, needs_escape, hex_digit, escape_code, copy, append_bytes}
use libcody.Buffer.Lex.{State, next, line, quoted, escape, second, open_word, nibble, step, scan}

-- A byte of ASCII.
abbrev pub IsAscii : ℕ → Type 0
IsAscii c = c < 0x80

-- A byte that stands for itself outside quotes.
abbrev pub IsBare : ℕ → Type 0
IsBare c = (b' ' < c) × (c < 0x7f) × (c ≢ b';') × (c ≢ b'\'')

-- A byte as it stands inside quotes.
unfoldable pub shown : ℕ → Bytes
unfolding escape_code
shown c = if needs_escape c then b'\\' ∷ escape_code c else c ∷ []

abbrev pub escaped : Bytes → Bytes
escaped [] = []
escaped (c ∷ s) = shown c ++ escaped s

-- The text of a word, quoted on demand.
unfoldable pub word_text : Bool → Bytes → Bytes
unfolding needs_quotes escape_code
word_text false s = s
word_text true [] = b'\'' ∷ b'\'' ∷ []
word_text true (c ∷ s) =
    if needs_quotes (c ∷ s) then b'\'' ∷ (escaped (c ∷ s) ++ b'\'' ∷ []) else c ∷ s

copy-escaped : (out s : Bytes) → copy true out s ≡ out ++ escaped s
unfolding copy shown
copy-escaped out [] = sym (append-nil out)
copy-escaped out (c ∷ s) = copy-escaped (out ++ shown c) s ∙ append_assoc out (shown c) (escaped s)

copy_plain : (out s : Bytes) → copy false out s ≡ out ++ s
unfolding copy
copy_plain out [] = sym (append-nil out)
copy_plain out (c ∷ s) = copy_plain (out ++ c ∷ []) s ∙ append_assoc out (c ∷ []) s

pub append_bytes_lem :
    (b : MessageBuffer) (s : Bytes) (quote : Bool)
    → append_bytes b s quote ≡ push b (word_text quote s)
unfolding append_bytes word_text
append_bytes_lem b [] true = refl
append_bytes_lem b [] false = rw append-nil
append_bytes_lem b (c ∷ s) false = rw copy_plain
append_bytes_lem b (c ∷ s) true = elim (Bool-cases (needs_quotes (c ∷ s))) [
  | inl e ↦ rw (e, copy-escaped)
  | inr e ↦ rw (e, copy_plain)
]

nibble-hex_digit : (n : ℕ) → n < 16 → nibble (hex_digit n) ≡ some n
unfolding nibble hex_digit
nibble-hex_digit n h = ground arith

pub hex_digit_bounds : (n : ℕ) → n < 16 → (b'0' ≤ hex_digit n) × (hex_digit n ≤ b'f')
unfolding hex_digit
hex_digit_bounds n h = ground arith

pub scan-next :
    (st st' : State) (c : ℕ) (iter : Bytes)
    → step st c ≡ next st'
    → scan st (c ∷ iter) ≡ scan st' iter
unfolding scan
scan-next st st' c iter e = rw (e, scan)

step-bare :
    (result : List Bytes) (word : Option Bytes) (c : ℕ)
    → IsBare c
    → step (line result word) c ≡ next (line result (some (open_word word ++ c ∷ [])))
unfolding step
step-bare result word c h = ground arith

scan-bare :
    (s rest : Bytes) (result : List Bytes) (w : Bytes)
    → All IsBare s
    → scan (line result (some w)) (s ++ rest) ≡ scan (line result (some (w ++ s))) rest
scan-bare [] rest result w h = rw append-nil
scan-bare (c ∷ s) rest result w (h, hs) =
    scan-next _ _ c _ (step-bare result (some w) c h)
    ∙ scan-bare s rest result (w ++ c ∷ []) hs
    ∙ rw append_assoc

-- A byte that needs no escape is taken as it is.
step-quoted :
    (result : List Bytes) (w : Bytes) (c : ℕ)
    → IsAscii c
    → needs_escape c ≡ false
    → step (quoted result w) c ≡ next (quoted result (w ++ c ∷ []))
unfolding step
step-quoted result w c h e = ground arith

step_backslash :
    (result : List Bytes) (w : Bytes) → step (quoted result w) b'\\' ≡ next (escape result w)
unfolding step
step_backslash result w = refl

-- The escapes of one byte.
step-escape :
    (result : List Bytes) (w : Bytes) (c d : ℕ)
    → escape_code c ≡ d ∷ []
    → step (escape result w) d ≡ next (quoted result (w ++ c ∷ []))
unfolding step escape_code
step-escape result w c d e = ground arith

-- The two hex digits.
step_first :
    (result : List Bytes) (w : Bytes) (n : ℕ)
    → n < 16
    → step (escape result w) (hex_digit n) ≡ next (second result w n)
unfolding step hex_digit
step_first result w n h = ground arith

step_second :
    (result : List Bytes) (w : Bytes) (v n : ℕ)
    → n < 16
    → step (second result w v) (hex_digit n) ≡ next (quoted result (w ++ (v * 16 + n) ∷ []))
unfolding step
step_second result w v n h = rw (nibble-hex_digit n h)

-- What stands behind the backslash: one byte, or two hex digits.
escape_code-cases :
    (c : ℕ)
    → IsAscii c
    → ((d : ℕ) × (escape_code c ≡ d ∷ []))
      ⊎ (escape_code c ≡ hex_digit (c / 16) ∷ hex_digit (c % 16) ∷ [])
unfolding escape_code
escape_code-cases c h = elim (Bool-cases (c == b'\t')) [
  | inl e ↦ inl (b't', rw e)
  | inr e ↦ elim (Bool-cases (c == b'\n')) [
    | inl f ↦ inl (b'n', rw (e, f))
    | inr f ↦ elim (Bool-cases (c == b'\'' || c == b'\\')) [
      | inl g ↦ inl (c, rw (e, f, g))
      | inr g ↦ let m : c / 16 % 16 ≡ c / 16 = omega arith in inr (rw (e, f, g, m))
    ]
  ]
]

scan-escape_code :
    (c : ℕ) (rest : Bytes) (result : List Bytes) (w : Bytes)
    → IsAscii c
    → scan (escape result w) (escape_code c ++ rest) ≡ scan (quoted result (w ++ c ∷ [])) rest
scan-escape_code c rest result w h = elim (escape_code-cases c h) [
  | inl (d, e) ↦ rw e (scan-next _ _ d rest (step-escape result w c d e))
  | inr e ↦
      let back : c / 16 * 16 + c % 16 ≡ c = omega arith in
      rw e (
        scan-next _ _ _ _ (step_first result w (c / 16) (omega arith))
        ∙ scan-next _ _ _ rest (step_second result w (c / 16) (c % 16) (omega arith))
        ∙ rw back)
]

scan-shown :
    (c : ℕ) (rest : Bytes) (result : List Bytes) (w : Bytes)
    → IsAscii c
    → scan (quoted result w) (shown c ++ rest) ≡ scan (quoted result (w ++ c ∷ [])) rest
unfolding shown
scan-shown c rest result w h = elim (Bool-cases (needs_escape c)) [
  | inl e ↦
      rw e (scan-next _ _ b'\\' _ (step_backslash result w) ∙ scan-escape_code c rest result w h)
  | inr e ↦ rw e (scan-next _ _ c rest (step-quoted result w c h e))
]

pub scan-escaped :
    (s rest : Bytes) (result : List Bytes) (w : Bytes)
    → All IsAscii s
    → scan (quoted result w) (escaped s ++ rest) ≡ scan (quoted result (w ++ s)) rest
scan-escaped [] rest result w h = rw append-nil
scan-escaped (c ∷ s) rest result w (h, hs) =
    rw (append_assoc)
      (scan-shown c _ result w h ∙ scan-escaped s rest result (w ++ c ∷ []) hs ∙ rw append_assoc)

needs_quotes-IsBare : (s : Bytes) → needs_quotes s ≡ false → All IsBare s
unfolding needs_quotes
needs_quotes-IsBare [] h = tt
needs_quotes-IsBare (c ∷ s) h = ground (arith, needs_quotes-IsBare s)

-- A word that `Lex` gives back: any ASCII text where quotes are allowed, else bare bytes.
abbrev pub IsWord : Bool → Bytes → Type 0
IsWord true s = All IsAscii s
IsWord false s = (s ≢ []) × All IsBare s

scan_plain :
    (s rest : Bytes) (result : List Bytes)
    → s ≢ []
    → All IsBare s
    → scan (line result none) (s ++ rest) ≡ scan (line result (some s)) rest
scan_plain [] rest result ne h = absurd (ne refl)
scan_plain (c ∷ s) rest result ne (h, hs) =
    scan-next _ _ c _ (step-bare result none c h) ∙ scan-bare s rest result (c ∷ []) hs

pub step_open : (result : List Bytes) → step (line result none) b'\'' ≡ next (quoted result [])
unfolding step
step_open result = refl

step_close :
    (result : List Bytes) (w : Bytes) → step (quoted result w) b'\'' ≡ next (line result (some w))
unfolding step
step_close result w = refl

scan_quoted :
    (s rest : Bytes) (result : List Bytes)
    → All IsAscii s
    → scan (line result none) (b'\'' ∷ (escaped s ++ b'\'' ∷ rest))
      ≡ scan (line result (some s)) rest
scan_quoted s rest result h =
    scan-next _ _ b'\'' _ (step_open result)
    ∙ scan-escaped s (b'\'' ∷ rest) result [] h
    ∙ scan-next _ _ b'\'' rest (step_close result s)

-- The scan reads the text of a word as that word.
pub scan-word_text :
    (quote : Bool) (s rest : Bytes) (result : List Bytes)
    → IsWord quote s
    → scan (line result none) (word_text quote s ++ rest) ≡ scan (line result (some s)) rest
unfolding word_text
scan-word_text false s rest result (ne, h) = scan_plain s rest result ne h
scan-word_text true [] rest result h = scan_quoted [] rest result h
scan-word_text true (c ∷ s) rest result h = elim (Bool-cases (needs_quotes (c ∷ s))) [
  | inl e ↦ rw (e, append_assoc) (scan_quoted (c ∷ s) rest result h)
  | inr e ↦ rw e (scan_plain (c ∷ s) rest result (λ p. cc) (needs_quotes-IsBare (c ∷ s) e))
]

pub word_text_pos : (quote : Bool) (s : Bytes) → IsWord quote s → 0 < length (word_text quote s)
unfolding word_text
word_text_pos false [] (ne, h) = absurd (ne refl)
word_text_pos false (c ∷ s) h = omega arith
word_text_pos true [] h = omega arith
word_text_pos true (c ∷ s) h = elim (Bool-cases (needs_quotes (c ∷ s))) [
  | inl e ↦ rw e (omega arith)
  | inr e ↦ rw e (omega arith)
]
