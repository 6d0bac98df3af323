-- ===== src/Buffer/Newlines.antt =====
-- The words and lines that `AppendWord` writes hold no newline.
use libcody.Prelude.{
  ℕ, ◌<◌, ◌/◌, ◌%◌, Bool, true, false, ◌||◌, List, [], ◌∷◌, ◌++◌, ◌≡◌, ◌≢◌, arith, Bytes, All, ◌==◌,
  if◌then◌else◌, Bool-cases, inl, inr,
}
use libcody.Buffer.Append.{needs_quotes, needs_escape, hex_digit, escape_code}
use libcody.Buffer.Consume.{IsNoNewline}
use libcody.Buffer.Words.{IsBare, IsWord, word_text, escaped, shown, hex_digit_bounds}
use libcody.Buffer.Message.{Word, IsLine, spaced, line_text}

-- No byte is a newline.
abbrev pub NoNewline : Bytes → Type 0
NoNewline = All IsNoNewline

pub append-NoNewline : (s t : Bytes) → NoNewline s → NoNewline t → NoNewline (s ++ t)
append-NoNewline [] t h k = k
append-NoNewline (c ∷ s) t (h, hs) k = (h, append-NoNewline s t hs k)

bare-NoNewline : (s : Bytes) → All IsBare s → NoNewline s
bare-NoNewline [] h = tt
bare-NoNewline (c ∷ s) ((a, b, d, e), hs) = (λ p. omega (arith, p), bare-NoNewline s hs)

-- A text that needs no quotes.
plain-NoNewline : (s : Bytes) → needs_quotes s ≡ false → NoNewline s
unfolding needs_quotes
plain-NoNewline [] h = tt
plain-NoNewline (c ∷ s) h = (λ p. ground (arith, p), plain-NoNewline s (ground arith))

if-NoNewline : (b : Bool) (s t : Bytes) → NoNewline s → NoNewline t → NoNewline (if b then s else t)
if-NoNewline true s t h k = h
if-NoNewline false s t h k = k

digit-IsNoNewline : (n : ℕ) → n < 16 → IsNoNewline (hex_digit n)
digit-IsNoNewline n h p = omega (arith, p, (hex_digit_bounds n h).0)

code-NoNewline : (c : ℕ) → NoNewline (escape_code c)
unfolding escape_code
code-NoNewline c =
    if-NoNewline (c == b'\t') _ _ (λ p. omega (arith, p), tt)
      (if-NoNewline (c == b'\n') _ _ (λ p. omega (arith, p), tt)
        (elim (Bool-cases (c == b'\'' || c == b'\\')) [
          | inl e ↦ rw e (λ p. ground (arith, p), tt)
          | inr e ↦ rw e (
            digit-IsNoNewline (c / 16 % 16) (omega arith),
            (digit-IsNoNewline (c % 16) (omega arith), tt),
          )
        ]))

shown-NoNewline : (c : ℕ) → NoNewline (shown c)
unfolding shown
shown-NoNewline c = elim (Bool-cases (needs_escape c)) [
  | inl e ↦ rw e (λ p. omega (arith, p), code-NoNewline c)
  | inr e ↦ rw e (λ p. ground (arith, p), tt)
]

pub escaped-NoNewline : (s : Bytes) → NoNewline (escaped s)
escaped-NoNewline [] = tt
escaped-NoNewline (c ∷ s) =
    append-NoNewline (shown c) (escaped s) (shown-NoNewline c) (escaped-NoNewline s)

-- A word of any bytes that is written as just one: it may be quoted, or has only bytes that stand
-- for themselves.
abbrev pub IsOneWord : Word → Type 0
IsOneWord w = elim w.quote [ true ↦ Unit | false ↦ (w.text ≢ []) × All IsBare w.text ]

quoted-NoNewline : (s : Bytes) → NoNewline (word_text true s)
unfolding word_text
quoted-NoNewline [] = (λ p. omega (arith, p), (λ p. omega (arith, p), tt))
quoted-NoNewline (c ∷ s) = elim (Bool-cases (needs_quotes (c ∷ s))) [
  | inl e ↦ rw e (
    λ p. omega (arith, p),
    append-NoNewline (escaped (c ∷ s)) (b'\'' ∷ []) (escaped-NoNewline (c ∷ s))
        (λ p. omega (arith, p), tt),
  )
  | inr e ↦ rw e (plain-NoNewline (c ∷ s) e)
]

word_text-NoNewline :
    (quote : Bool) (s : Bytes)
    → IsOneWord (record { text = s; quote = quote })
    → NoNewline (word_text quote s)
unfolding word_text
word_text-NoNewline false s (ne, h) = bare-NoNewline s h
word_text-NoNewline true s h = quoted-NoNewline s

spaced-NoNewline : (ws : List Word) → All IsOneWord ws → NoNewline (spaced ws)
spaced-NoNewline [] h = tt
spaced-NoNewline (w ∷ ws) (h, hs) = (
  λ p. omega (arith, p),
  append-NoNewline (word_text w.quote w.text) (spaced ws) (word_text-NoNewline w.quote w.text h)
      (spaced-NoNewline ws hs),
)

-- Words that are each written as one make a line with no newline in it.
pub words_text-NoNewline : (l : List Word) → All IsOneWord l → NoNewline (line_text l)
words_text-NoNewline [] h = tt
words_text-NoNewline (w ∷ ws) (h, hs) =
    append-NoNewline (word_text w.quote w.text) (spaced ws) (word_text-NoNewline w.quote w.text h)
      (spaced-NoNewline ws hs)

IsWord-one :
    (quote : Bool) (s : Bytes) → IsWord quote s → IsOneWord (record { text = s; quote = quote })
IsWord-one true s h = tt
IsWord-one false s h = h

AreWords-one : (l : List Word) → All (λ w. IsWord w.quote w.text) l → All IsOneWord l
AreWords-one [] h = tt
AreWords-one (w ∷ ws) (h, hs) = (IsWord-one w.quote w.text h, AreWords-one ws hs)

pub line_text-NoNewline : (l : List Word) → IsLine l → NoNewline (line_text l)
line_text-NoNewline l (ne, h) = words_text-NoNewline l (AreWords-one l h)
