-- ===== src/Session/Pieces.antt =====
-- A message of lines is one that `Read` takes for whole, so that it arrives in any pieces.
use libcody.Prelude.{
  suc, map, length, ℕ, Bool, true, false, List, [], ◌∷◌, ◌++◌, Option, none, some, ◌≡◌, ◌≢◌, refl,
  ap, ◌∙◌, arith, Bytes, All, ◌==◌, Bool-cases, inl, inr, append-nil,
}
use libcody.Buffer.Append.{needs_quotes}
use libcody.Buffer.Newlines.{NoNewline, line_text-NoNewline}
use libcody.Buffer.Words.{IsBare, IsWord, word_text, escaped}
use libcody.Buffer.Message.{Word, IsLine, spaced, line_text, line_end, more_text}
use libcody.Buffer.Transfer.{is_mark, last_byte}
use libcody.Buffer.Reading.{is_whole, is_partial, is_whole-append}
use libcody.Client.Receiving.{last_byte-append}
use libcody.Session.Joined.{joined, prepare-joined}
use libcody.Buffer.{empty_buffer, prepare_to_write}
use libcody.Buffer.Message.{write_lines, texts}
use libcody.Buffer.RoundTrip.{decode, decode-write_lines}
use libcody.Buffer.Transfer.{ReadResult}
use libcody.Client.{read_loop}
use libcody.Client.Receiving.{Arrival, arrived, answer, read_loop-arrived}
use libcody.Status.{success}

-- No mark at the end, whatever stands before.
abbrev pub NoMark : Bytes → Type 0
NoMark s = (before : Option ℕ) → is_mark (last_byte before s) ≡ false

append-NoMark : (s t : Bytes) → NoMark t → NoMark (s ++ t)
append-NoMark s t h before = rw (last_byte-append before s t) (h (last_byte before s))

bare-NoMark : (s : Bytes) → s ≢ [] → All IsBare s → NoMark s
bare-NoMark [] ne h before = absurd (ne refl)
bare-NoMark (c ∷ []) ne ((a, b, d, e), hs) before = ground arith
bare-NoMark (c ∷ x ∷ s) ne (h, hs) before = bare-NoMark (x ∷ s) (λ p. cc) hs (some c)

plain-NoMark : (s : Bytes) → s ≢ [] → needs_quotes s ≡ false → NoMark s
unfolding needs_quotes
plain-NoMark [] ne h before = absurd (ne refl)
plain-NoMark (c ∷ []) ne h before = ground arith
plain-NoMark (c ∷ x ∷ s) ne h before = plain-NoMark (x ∷ s) (λ p. cc) (ground arith) (some c)

quote_mark : NoMark (b'\'' ∷ [])
quote_mark before = refl

word_text-NoMark : (quote : Bool) (s : Bytes) → IsWord quote s → NoMark (word_text quote s)
unfolding word_text
word_text-NoMark false s (ne, h) = bare-NoMark s ne h
word_text-NoMark true [] h = λ before. refl
word_text-NoMark true (c ∷ s) h = elim (Bool-cases (needs_quotes (c ∷ s))) [
  | inl e ↦ rw e (append-NoMark (b'\'' ∷ escaped (c ∷ s)) (b'\'' ∷ []) quote_mark)
  | inr e ↦ rw e (plain-NoMark (c ∷ s) (λ p. cc) e)
]

-- A word with the words behind it.
words-NoMark :
    (w : Word) (ws : List Word)
    → IsWord w.quote w.text
    → All (λ w. IsWord w.quote w.text) ws
    → NoMark (word_text w.quote w.text ++ spaced ws)
words-NoMark w [] h hs = rw append-nil (word_text-NoMark w.quote w.text h)
words-NoMark w (v ∷ ws) h (k, hs) =
    append-NoMark (word_text w.quote w.text) (spaced (v ∷ ws))
      (append-NoMark (b' ' ∷ []) (word_text v.quote v.text ++ spaced ws) (words-NoMark v ws k hs))

pub line_text-NoMark : (l : List Word) → IsLine l → NoMark (line_text l)
line_text-NoMark [] (ne, h) = absurd (ne refl)
line_text-NoMark (w ∷ ws) (ne, (h, hs)) = words-NoMark w ws h hs

is_partial-NoNewline : (before : Option ℕ) (s : Bytes) → NoNewline s → is_partial before s ≡ true
is_partial-NoNewline before [] h = refl
is_partial-NoNewline before (c ∷ s) (h, hs) =
    let e : (c == b'\n') ≡ false = ground (arith, h) in rw e (is_partial-NoNewline (some c) s hs)

end_whole : (before : Option ℕ) → is_mark before ≡ false → is_whole before (b'\n' ∷ []) ≡ true
end_whole before h = rw h refl

end_partial : (before : Option ℕ) → is_partial before (line_end false) ≡ true
end_partial before = refl

more_text-is_whole :
    (ls : List (List Word)) (before : Option ℕ)
    → All IsLine ls
    → is_mark before ≡ false
    → is_whole before (more_text ls) ≡ true
more_text-is_whole [] before h m = end_whole before m
more_text-is_whole (l ∷ ls) before (h, hs) m =
    is_whole-append before (line_end false) (line_text l ++ more_text ls) (end_partial before)
    ∙ is_whole-append (some b'\n') (line_text l) (more_text ls)
        (is_partial-NoNewline (some b'\n') (line_text l) (line_text-NoNewline l h))
    ∙ more_text-is_whole ls _ hs (line_text-NoMark l h (some b'\n'))

pub joined-is_whole :
    (l : List Word) (ls : List (List Word))
    → All IsLine (l ∷ ls)
    → is_whole none (joined (l ∷ ls)) ≡ true
joined-is_whole l ls (h, hs) =
    is_whole-append none (line_text l) (more_text ls)
      (is_partial-NoNewline none (line_text l) (line_text-NoNewline l h))
    ∙ more_text-is_whole ls _ hs (line_text-NoMark l h none)

-- A message of lines that one side writes arrives as it is on the other side, and is read there as its
-- words, line by line, whatever the pieces that it comes in and however often a call of `Read` is
-- interrupted. It has one line or more, each with a word at least; each word that may be quoted is
-- ASCII, and each other word has bytes above the space that are no `;`, no quote and no DEL.
pub message_arrives :
    (l : List Word) (ls : List (List Word)) (pieces : List Arrival)
    → All IsLine (l ∷ ls)
    → arrived pieces ≡ (prepare_to_write (write_lines empty_buffer (l ∷ ls))).buffer
    → (later : List (ℕ × (ℕ → ReadResult))) × (read_loop empty_buffer (map answer pieces)
        ≡ some (record {
          status = success;
          buffer = prepare_to_write (write_lines empty_buffer (l ∷ ls));
          later = later;
        }))
      × (decode (suc (suc (length ls))) (prepare_to_write (write_lines empty_buffer (l ∷ ls)))
          ≡ some (map texts (l ∷ ls)))
message_arrives l ls pieces h e =
    let m = prepare-joined l ls h in
    let bytes : arrived pieces ≡ joined (l ∷ ls) = e ∙ ap (λ b. b.buffer) m in
    let (later, r) = read_loop-arrived empty_buffer pieces (rw bytes (joined-is_whole l ls h)) in
    (later, r ∙ rw (bytes, m) refl, decode-write_lines l ls h)
