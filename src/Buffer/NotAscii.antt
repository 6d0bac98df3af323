-- ===== src/Buffer/NotAscii.antt =====
-- What `Lex` makes of a word with a byte that is not ASCII.
use libcody.Prelude.{
  ℕ, ◌≤◌, true, false, List, [], ◌∷◌, ◌++◌, ◌≡◌, ◌≢◌, refl, ap, sym, ◌+◌, ◌∙◌, arith, Bytes, All,
  append_assoc, append-ne-nil, none, some, length, length-append,
}
use libcody.Buffer.{MessageBuffer, empty_buffer, begin_line, prepare_to_write}
use libcody.Buffer.Append.{needs_quotes, needs_escape, append_word_string}
use libcody.Buffer.Lex.{line, quoted, step, bad_at, scan, malformed, lex}
use libcody.Buffer.Marks.{strip_mark, strip_mark-other}
use libcody.Buffer.Consume.{reading, lex_refused}
use libcody.Buffer.Newlines.{NoNewline, append-NoNewline, escaped-NoNewline}
use libcody.Status.{errno, einval}
use libcody.Buffer.Words.{IsAscii, escaped, shown, word_text, scan-next, scan-escaped, step_open}
use libcody.Buffer.Message.{append_word_first}

needs_quotes-append : (p t : Bytes) (c : ℕ) → 0x80 ≤ c → needs_quotes (p ++ c ∷ t) ≡ true
unfolding needs_quotes
needs_quotes-append [] t c h = ground arith
needs_quotes-append (d ∷ p) t c h = rw (needs_quotes-append p t c h)

word_text_quoted :
    (s : Bytes)
    → s ≢ []
    → needs_quotes s ≡ true
    → word_text true s ≡ b'\'' ∷ (escaped s ++ b'\'' ∷ [])
unfolding word_text
word_text_quoted [] ne h = absurd (ne refl)
word_text_quoted (c ∷ s) ne h = rw h

escaped-append : (s t : Bytes) → escaped (s ++ t) ≡ escaped s ++ escaped t
escaped-append [] t = refl
escaped-append (c ∷ s) t = rw (escaped-append s t, append_assoc)

step-not_ascii :
    (result : List Bytes) (w : Bytes) (c : ℕ) → 0x80 ≤ c → step (quoted result w) c ≡ bad_at
unfolding step
step-not_ascii result w c h = ground arith

scan-bad_at :
    (result : List Bytes) (w : Bytes) (c : ℕ) (iter : Bytes)
    → 0x80 ≤ c
    → scan (quoted result w) (c ∷ iter) ≡ malformed (c ∷ iter)
unfolding scan
scan-bad_at result w c iter h = rw (step-not_ascii result w c h, scan)

escaped-not_ascii : (c : ℕ) (t : Bytes) → 0x80 ≤ c → escaped (c ∷ t) ≡ c ∷ escaped t
unfolding shown
escaped-not_ascii c t h = let other : needs_escape c ≡ false = ground arith in rw other

module _ (p t : Bytes) (c : ℕ) where
  abbrev pub word : Bytes
  word = p ++ c ∷ t

  -- The word as `AppendWord` writes it, as a message.
  abbrev pub sent : MessageBuffer
  sent = prepare_to_write (append_word_string (begin_line empty_buffer) word true)

  scan-word :
      (rest : Bytes)
      → All IsAscii p
      → 0x80 ≤ c
      → scan (line [] none) (word_text true word ++ rest)
        ≡ malformed (c ∷ (escaped t ++ b'\'' ∷ rest))
  scan-word rest h k =
      rw
        (
          word_text_quoted word (append-ne-nil p (c ∷ t) (λ q. cc)) (needs_quotes-append p t c k),
          escaped-append p (c ∷ t),
          escaped-not_ascii c t k,
        )
        (scan-next _ _ b'\'' _ (step_open [])
          ∙ rw (append_assoc, append_assoc)
              (scan-escaped p (c ∷ (escaped t ++ b'\'' ∷ rest)) [] [] h)
          ∙ scan-bad_at [] p c _ k)

  abbrev message : MessageBuffer
  unfolding word_text
  message = record { buffer = word_text true word ++ b'\n' ∷ []; last_bol = 0 }

  sent_lem : sent ≡ message
  unfolding message prepare_to_write begin_line
  sent_lem = ap prepare_to_write (append_word_first [] word true)

  -- The line that is refused.
  abbrev quoted_word : Bytes
  quoted_word = b'\'' ∷ (escaped word ++ b'\'' ∷ [])

  quoted_word-NoNewline : NoNewline quoted_word
  quoted_word-NoNewline = (
    λ p. omega (arith, p),
    append-NoNewline (escaped word) (b'\'' ∷ []) (escaped-NoNewline word)
        (λ p. omega (arith, p), tt),
  )

  message_lem : 0x80 ≤ c → message ≡ reading [] quoted_word []
  unfolding message
  message_lem k =
      rw (word_text_quoted word (append-ne-nil p (c ∷ t) (λ q. cc)) (needs_quotes-append p t c k))
        refl

  scan_quoted :
      All IsAscii p
      → 0x80 ≤ c
      → scan (line [] none) (quoted_word ++ b'\n' ∷ [])
        ≡ malformed (c ∷ (escaped t ++ b'\'' ∷ b'\n' ∷ []))
  scan_quoted h k =
      ap (λ b. scan (line [] none) (b ++ b'\n' ∷ []))
        (sym
          (word_text_quoted word (append-ne-nil p (c ∷ t) (λ q. cc)) (needs_quotes-append p t c k)))
      ∙ scan-word (b'\n' ∷ []) h k

  -- A quote at the end is no mark.
  strip_mark_quoted : strip_mark quoted_word ≡ quoted_word
  strip_mark_quoted = strip_mark-other (b'\'' ∷ escaped word) b'\'' (λ q. omega (arith, q))

  length-sent : length (quoted_word ++ b'\n' ∷ []) ≡ 0 + length quoted_word + 1
  length-sent = omega (arith, length-append quoted_word (b'\n' ∷ []))

  -- A message of one word that `AppendWord` writes with quotes on demand is refused by `Lex` if the
  -- word has a byte that is not ASCII: the status is `EINVAL`, the result is just the line as it was
  -- written, the word in quotes with its escapes, and the position is at the end of the message.
  pub lex-not_ascii :
      All IsAscii p
      → 0x80 ≤ c
      → lex sent
        ≡ some (record {
          status = errno einval;
          words = (b'\'' ∷ (escaped word ++ b'\'' ∷ [])) ∷ [];
          rest = record sent { last_bol = length sent.buffer };
        })
  lex-not_ascii h k = rw (sent_lem ∙ message_lem k) (
      lex_refused [] quoted_word [] _ quoted_word-NoNewline refl (scan_quoted h k)
      ∙ rw (strip_mark_quoted, length-sent) refl)
