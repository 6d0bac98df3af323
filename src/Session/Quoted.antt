-- ===== src/Session/Quoted.antt =====
-- The line of a message that was read last, as an error quotes it.
use libcody.Prelude.{
  ℕ, ◌+◌, ◌/◌, ◌%◌, Bool, true, false, List, [], ◌∷◌, ◌++◌, none, some, ◌≡◌, ◌≢◌, refl, ap, ◌∙◌,
  arith, Bytes, length, All, inl, inr, append_assoc, length-append,
}
use libcody.Buffer.Append.{needs_quotes, needs_escape, escape_code}
use libcody.Buffer.Line.{lexed_line}
use libcody.Buffer.Marks.{
  strip_mark, blank, other, lone, unmarked, marked, ending, strip_mark-other, strip_mark-marked,
}
use libcody.Buffer.LastLine.{BeginsLine, is_blank, lexed_line_behind, lexed_line-some}
use libcody.Buffer.Words.{IsAscii, IsBare, IsWord, word_text, escaped, shown, hex_digit_bounds}
use libcody.Buffer.Message.{Word, IsLine, spaced, line_text, line_text_ne}
use libcody.Buffer.Transfer.{last_byte}
use libcody.Client.Receiving.{last_byte-append}
use libcody.Session.Ascii.{IsText, append-IsText, if-IsText}
use libcody.Session.Joined.{joined, front, at}
use libcody.Buffer.Newlines.{NoNewline, append-NoNewline, line_text-NoNewline}
use libcody.Session.Pieces.{NoMark, line_text-NoMark}

-- The line without its newline, by whether others follow.
abbrev body : List Word → List (List Word) → Bytes
body l [] = line_text l
body l (m ∷ ms) = line_text l ++ b' ' ∷ b';' ∷ []

front-body : (l : List Word) (ls : List (List Word)) → front l ls ≡ body l ls ++ b'\n' ∷ []
front-body l [] = refl
front-body l (m ∷ ms) = simp append_assoc

pub front-BeginsLine :
    (pre : Bytes) (l : List Word) (ls : List (List Word)) → BeginsLine (pre ++ front l ls)
front-BeginsLine pre l ls = inr (pre ++ body l ls, rw (front-body l ls) (simp append_assoc))

ends_in_mark : (t s : Bytes) → NoMark (t ++ (s ++ b';' ∷ [])) → ⊥
ends_in_mark t s h =
    let k = h none in
    let e : last_byte none (t ++ (s ++ b';' ∷ [])) ≡ some b';' =
      last_byte-append none t (s ++ b';' ∷ [])
      ∙ last_byte-append (last_byte none t) s (b';' ∷ []) in
    let same : true ≡ false = rw e at k in cc

strip_mark-NoMark : (s : Bytes) → NoMark s → strip_mark s ≡ s
strip_mark-NoMark s h = elim (ending s) [
  | blank e ↦ rw e refl
  | other t c e ne ↦ rw e (strip_mark-other t c ne)
  | lone e ↦ absurd (ends_in_mark [] [] (rw e at h))
  | unmarked t d e ne ↦ absurd (ends_in_mark t (d ∷ []) (rw e at h))
  | marked t e ↦ absurd (ends_in_mark t (b' ' ∷ []) (rw e at h))
]

body-strip_mark :
    (l : List Word) (ls : List (List Word)) → IsLine l → strip_mark (body l ls) ≡ line_text l
body-strip_mark l [] h = strip_mark-NoMark (line_text l) (line_text-NoMark l h)
body-strip_mark l (m ∷ ms) h = strip_mark-marked (line_text l)

is_blank-NoMark : (s : Bytes) → s ≢ [] → NoMark s → is_blank s ≡ false
is_blank-NoMark [] ne h = absurd (ne refl)
is_blank-NoMark (c ∷ []) ne h = h none
is_blank-NoMark (c ∷ d ∷ s) ne h = refl

is_blank-two : (s : Bytes) (c d : ℕ) → is_blank (s ++ c ∷ d ∷ []) ≡ false
is_blank-two [] c d = refl
is_blank-two (a ∷ []) c d = refl
is_blank-two (a ∷ b ∷ s) c d = refl

lexed_line-at :
    (pre body tail str : Bytes)
    → BeginsLine pre
    → NoNewline body
    → is_blank body ≡ false
    → lexed_line
        (record {
          buffer = (pre ++ (body ++ b'\n' ∷ [])) ++ tail;
          last_bol = length (pre ++ (body ++ b'\n' ∷ []));
        })
        str
      ≡ some (str ++ strip_mark body)
lexed_line-at pre body tail str (inl e) h b =
    let size : length (body ++ b'\n' ∷ []) ≡ length body + 1 =
      omega (arith, length-append body (b'\n' ∷ [])) in
    let bytes : (body ++ b'\n' ∷ []) ++ tail ≡ body ++ b'\n' ∷ tail =
      append_assoc body (b'\n' ∷ []) tail in
    rw e (rw (size, bytes) (lexed_line-some body tail str h b))
lexed_line-at pre body tail str (inr (p, e)) h b =
    let q = p ++ b'\n' ∷ [] in
    let size : length (q ++ (body ++ b'\n' ∷ [])) ≡ length q + length body + 1 =
      omega (arith, length-append q (body ++ b'\n' ∷ []), length-append body (b'\n' ∷ [])) in
    let bytes : (q ++ (body ++ b'\n' ∷ [])) ++ tail ≡ q ++ (body ++ b'\n' ∷ tail) =
      append_assoc q (body ++ b'\n' ∷ []) tail
      ∙ ap (λ s. q ++ s) (append_assoc body (b'\n' ∷ []) tail) in
    rw e (rw (size, bytes) (lexed_line_behind p body tail str h))

body-NoNewline : (l : List Word) (ls : List (List Word)) → IsLine l → NoNewline (body l ls)
body-NoNewline l [] h = line_text-NoNewline l h
body-NoNewline l (m ∷ ms) h =
    append-NoNewline (line_text l) (b' ' ∷ b';' ∷ []) (line_text-NoNewline l h)
      (λ p. omega (arith, p), (λ p. omega (arith, p), tt))

is_blank-body : (l : List Word) (ls : List (List Word)) → IsLine l → is_blank (body l ls) ≡ false
is_blank-body l [] h = is_blank-NoMark (line_text l) (line_text_ne l h) (line_text-NoMark l h)
is_blank-body l (m ∷ ms) h = is_blank-two (line_text l) b' ' b';'

-- Behind a line of a message, the text of that line is appended.
pub lexed_line-joined :
    (pre : Bytes) (l : List Word) (ls : List (List Word)) (str : Bytes)
    → BeginsLine pre
    → IsLine l
    → lexed_line (at (pre ++ front l ls) ls) str ≡ some (str ++ line_text l)
lexed_line-joined pre l ls str b h = rw (front-body l ls) (
    lexed_line-at pre (body l ls) (joined ls) str b (body-NoNewline l ls h) (is_blank-body l ls h)
    ∙ rw (body-strip_mark l ls h) refl)

-- The text of a line is ASCII.
code-IsText : (c : ℕ) → IsText (escape_code c)
unfolding escape_code
code-IsText c =
    ground
      (arith, hex_digit_bounds (c / 16 % 16) (omega arith), hex_digit_bounds (c % 16) (omega arith))

shown-IsText : (c : ℕ) → IsAscii c → IsText (shown c)
unfolding shown
shown-IsText c h = if-IsText (needs_escape c) _ _ (omega arith, code-IsText c) (h, tt)

escaped-IsText : (s : Bytes) → IsText s → IsText (escaped s)
escaped-IsText [] h = tt
escaped-IsText (c ∷ s) (h, hs) =
    append-IsText (shown c) (escaped s) (shown-IsText c h) (escaped-IsText s hs)

bare-IsText : (s : Bytes) → All IsBare s → IsText s
bare-IsText [] h = tt
bare-IsText (c ∷ s) ((a, b, d, e), hs) = (omega arith, bare-IsText s hs)

word_text-IsText : (quote : Bool) (s : Bytes) → IsWord quote s → IsText (word_text quote s)
unfolding word_text
word_text-IsText false s (ne, h) = bare-IsText s h
word_text-IsText true [] h = (omega arith, (omega arith, tt))
word_text-IsText true (c ∷ s) h =
    if-IsText (needs_quotes (c ∷ s)) _ _
      (
        omega arith,
        append-IsText (escaped (c ∷ s)) (b'\'' ∷ []) (escaped-IsText (c ∷ s) h) (omega arith, tt),
      )
      h

spaced-IsText : (ws : List Word) → All (λ w. IsWord w.quote w.text) ws → IsText (spaced ws)
spaced-IsText [] h = tt
spaced-IsText (w ∷ ws) (h, hs) = (
  omega arith,
  append-IsText (word_text w.quote w.text) (spaced ws) (word_text-IsText w.quote w.text h)
      (spaced-IsText ws hs),
)

pub line_text-IsText : (l : List Word) → IsLine l → IsText (line_text l)
line_text-IsText [] (ne, h) = absurd (ne refl)
line_text-IsText (w ∷ ws) (ne, (h, hs)) =
    append-IsText (word_text w.quote w.text) (spaced ws) (word_text-IsText w.quote w.text h)
      (spaced-IsText ws hs)
