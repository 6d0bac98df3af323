-- ===== src/Buffer/Consume.antt =====
-- A call of `Lex` stays inside the buffer and takes just one line, however the line ends.
use libcody.Prelude.{
  ℕ, ◌+◌, ◌-◌, false, List, [], ◌∷◌, ◌++◌, Option, none, some, ◌≡◌, ◌≢◌, refl, ap, ◌∙◌, arith,
  Bytes, All, ◌==◌, length, append-ne-nil, drop-append, length-append, ltb,
}
use libcody.Status.{Status, success, unspecific, errno, einval, enoent}
use libcody.Buffer.{MessageBuffer}
use libcody.Buffer.Marks.{strip_mark, Found, find_mark}
use libcody.Buffer.Call.{lexed_at, last?-append, lex-scan}
use libcody.Buffer.Lex.{
  State, line, after_mark, quoted, escape, second, Step, next, finish, bad_behind, bad_at, step,
  nibble, Lexed, Scan, scan, ended, malformed, overrun, lex, lex_scanned, lex_malformed, lex_status,
  last?, find_newline,
}

abbrev pub IsNoNewline : ℕ → Type 0
IsNoNewline c = c ≢ b'\n'

-- Which bytes lead where: a newline is the end of the line, or refused in its place.
abbrev OnByte : Step → ℕ → Type 0
OnByte (next st) c = c ≢ b'\n'
OnByte (finish result) c = c ≡ b'\n'
OnByte bad_behind c = c ≢ b'\n'
OnByte bad_at c = Unit

nibble_newline : (c v : ℕ) → nibble c ≡ some v → c ≢ b'\n'
unfolding nibble
nibble_newline c v h = ground arith

step-OnByte : (st : State) (c : ℕ) → OnByte (step st c) c
unfolding step
step-OnByte (line result none) c = ground arith
step-OnByte (line result (some w)) c = ground arith
step-OnByte (after_mark result) c = ground arith
step-OnByte (quoted result w) c = ground arith
step-OnByte (escape result w) c = ground arith
step-OnByte (second result w v) c = ground arith

-- The first newline is where the scan ends, or lies behind the place of the error.
abbrev Consumes : Scan → Bytes → Type 0
Consumes (ended result iter) s = s ≡ b'\n' ∷ iter
Consumes (malformed iter) s = find_newline iter ≡ s
Consumes overrun s = s ≡ []

abbrev continue_with : Step → ℕ → Bytes → Scan
continue_with (next st') c iter = scan st' iter
continue_with (finish result) c iter = ended result iter
continue_with bad_behind c iter = malformed iter
continue_with bad_at c iter = malformed (c ∷ iter)

Consumes-step :
    (t : Step) (c : ℕ) (iter : Bytes)
    → OnByte t c
    → ((st : State) → Consumes (scan st iter) (find_newline iter))
    → Consumes (continue_with t c iter) (find_newline (c ∷ iter))
unfolding find_newline
Consumes-step (next st) c iter on ih =
    let other : (c == b'\n') ≡ false = ground arith in rw (other, find_newline) (ih st)
Consumes-step (finish result) c iter on ih = ground arith
Consumes-step bad_behind c iter on ih = ground arith
Consumes-step bad_at c iter on ih = refl

scan-step :
    (st : State) (c : ℕ) (iter : Bytes) (t : Step)
    → step st c ≡ t
    → scan st (c ∷ iter) ≡ continue_with t c iter
unfolding scan
scan-step st c iter (next st') e = rw (e, scan)
scan-step st c iter (finish result) e = rw (e, scan)
scan-step st c iter bad_behind e = rw (e, scan)
scan-step st c iter bad_at e = rw (e, scan)

scan_overrun : (st : State) → scan st [] ≡ overrun
unfolding scan
scan_overrun st = refl

scan-Consumes : (st : State) (s : Bytes) → Consumes (scan st s) (find_newline s)
scan-Consumes st [] = rw (scan_overrun st) (unfold find_newline in refl)
scan-Consumes st (c ∷ iter) =
    rw (scan-step st c iter (step st c) refl)
      (Consumes-step (step st c) c iter (step-OnByte st c) (λ st'. scan-Consumes st' iter))

-- The newline behind a line.
find_newline-append :
    (body tail : Bytes) → All IsNoNewline body → find_newline (body ++ b'\n' ∷ tail) ≡ b'\n' ∷ tail
unfolding find_newline
find_newline-append [] tail h = refl
find_newline-append (c ∷ body) tail (h, hs) =
    let other : (c == b'\n') ≡ false = ground arith in
    rw (other, find_newline) (find_newline-append body tail hs)

-- A line of one `;` is no error.
pub scan_mark : (tail : Bytes) → scan (line [] none) (b';' ∷ b'\n' ∷ tail) ≡ ended [] tail
unfolding scan
scan_mark tail = refl

pub scan_empty : (tail : Bytes) → scan (line [] none) (b'\n' ∷ tail) ≡ ended [] tail
unfolding scan
scan_empty tail = refl

-- What stands in the result: words, the refused line less its mark, or nothing.
abbrev pub Outcome : Bytes → Status → List Bytes → Type 0
Outcome body success words = words ≢ []
Outcome body (errno einval) words = words ≡ strip_mark body ∷ []
Outcome body (errno enoent) words = words ≡ []
Outcome body status words = ⊥

lex_status-Outcome : (body : Bytes) (result : List Bytes) → Outcome body (lex_status result) result
lex_status-Outcome body [] = refl
lex_status-Outcome body (w ∷ ws) = λ p. cc

pub success-Outcome :
    (body : Bytes) (status : Status) (words : List Bytes)
    → Outcome body status words
    → status ≡ success
    → words ≢ []
success-Outcome body success words o e = o
success-Outcome body unspecific words o e = absurd o
success-Outcome body (errno e) words o p = λ q. cc

-- What `Lex` gives for the line `body`: the next line is behind its newline.
module _ (pre body tail : Bytes) where
  abbrev pub bytes : Bytes
  bytes = pre ++ (body ++ b'\n' ∷ tail)

  abbrev pub reading : MessageBuffer
  reading = record { buffer = bytes; last_bol = length pre }

  abbrev pub TakesLine : Option Lexed → Type 0
  TakesLine none = ⊥
  TakesLine (some r) =
      (r.rest ≡ record { buffer = bytes; last_bol = length pre + length body + 1 })
      × Outcome body r.status r.words

  length-bytes : length bytes ≡ length pre + length body + 1 + length tail
  length-bytes =
      omega (arith, length-append pre (body ++ b'\n' ∷ tail), length-append body (b'\n' ∷ tail))

  body_ne : (iter : Bytes) → scan (line [] none) (body ++ b'\n' ∷ tail) ≡ malformed iter → body ≢ []
  body_ne iter e h = cc (rw h at e, scan_empty tail)

  body_not_mark :
      (iter : Bytes)
      → scan (line [] none) (body ++ b'\n' ∷ tail) ≡ malformed iter
      → body ≢ b';' ∷ []
  body_not_mark iter e h = cc (rw h at e, scan_mark tail)

  -- The error result holds the line with no mark.
  lex_malformed_lem :
      (iter : Bytes)
      → Found pre body (b'\n' ∷ tail)
      → find_newline iter ≡ b'\n' ∷ tail
      → lex_malformed reading iter
        ≡ lexed_at (errno einval) (strip_mark body ∷ []) bytes (length pre + length body + 1)
  unfolding lex_malformed
  lex_malformed_lem iter g f =
      let newline : length bytes - length (b'\n' ∷ tail) ≡ length pre + length body =
        omega (arith, length-bytes) in
      let above : ltb (length pre + length (strip_mark body)) (length pre) ≡ false = ground arith in
      let size : length pre + length (strip_mark body) - length pre ≡ length (strip_mark body) =
        omega arith in
      rw (f, newline, g.looked)
        (rw (g.stops, above, size, drop-append pre (body ++ b'\n' ∷ tail), g.prefix))

  scanned-TakesLine :
      (sc : Scan)
      → scan (line [] none) (body ++ b'\n' ∷ tail) ≡ sc
      → Consumes sc (b'\n' ∷ tail)
      → TakesLine (lex_scanned reading sc)
  unfolding lex_scanned
  scanned-TakesLine (ended result iter) e c =
      let n : length bytes - length iter ≡ length pre + length body + 1 =
        omega (arith, length-bytes, ap length c) in
      (rw n, lex_status-Outcome body result)
  scanned-TakesLine (malformed iter) e c =
      rw
        (lex_malformed_lem iter
          (find_mark pre (b'\n' ∷ tail) body (body_ne iter e) (body_not_mark iter e)) c)
        (refl, refl)
  scanned-TakesLine overrun e c = cc

  -- A line with an error is refused whole.
  pub lex_refused :
      (iter : Bytes)
      → All IsNoNewline body
      → last? (b'\n' ∷ tail) ≡ some b'\n'
      → scan (line [] none) (body ++ b'\n' ∷ tail) ≡ malformed iter
      → lex reading
        ≡ lexed_at (errno einval) (strip_mark body ∷ []) bytes (length pre + length body + 1)
  unfolding lex_scanned
  lex_refused iter h l e =
      lex-scan pre (body ++ b'\n' ∷ tail) (append-ne-nil body (b'\n' ∷ tail) (λ p. cc))
        (last?-append body (b'\n' ∷ tail) (λ p. cc) ∙ l)
      ∙ ap (lex_scanned reading) e
      ∙ lex_malformed_lem iter
          (find_mark pre (b'\n' ∷ tail) body (body_ne iter e) (body_not_mark iter e))
          (rw (find_newline-append body tail h, e) at
            (scan-Consumes (line [] none) (body ++ b'\n' ∷ tail)))

  -- Where the buffer ends in a newline, `Lex` at the beginning of a line returns with no read outside
  -- the buffer, and the position is behind the first newline, whatever the line holds. The result is
  -- 0 with a word at least, `ENOENT` with no word, or `EINVAL` with just the line, less a ` ;` at its
  -- end.
  pub lex-TakesLine :
      All IsNoNewline body → last? (b'\n' ∷ tail) ≡ some b'\n' → TakesLine (lex reading)
  lex-TakesLine h l =
      rw
        (lex-scan pre (body ++ b'\n' ∷ tail) (append-ne-nil body (b'\n' ∷ tail) (λ p. cc))
          (last?-append body (b'\n' ∷ tail) (λ p. cc) ∙ l))
        (scanned-TakesLine (scan (line [] none) (body ++ b'\n' ∷ tail)) refl (
          rw (find_newline-append body tail h) at
            (scan-Consumes (line [] none) (body ++ b'\n' ∷ tail))))
