-- ===== src/Buffer/Lex.antt =====
-- `Lex` of buffer.cc. The scan is a machine that takes a byte at a time; its states are the places
-- of the C++ loops. `char` is compared as an unsigned octet: where it is signed, an octet from 0x80
-- on is below the space and is refused by the same tests.
use libcody.Prelude.{
  ℕ, ◌+◌, ◌-◌, ◌*◌, Bool, true, false, ◌||◌, List, [], ◌∷◌, ◌++◌, Option, none, some, Bytes, length,
  take, drop, get_elem?, ltb, leb, ◌==◌, if◌then◌else◌, ◌>>=◌,
}
use libcody.Status.{Status, success, errno, einval, enoent}
use libcody.Buffer.{MessageBuffer, continue_mark, is_at_end}

-- The words so far stand first. `word`, which points to the last element in the source, is kept
-- apart until it ends.
pub data State : Type 0 where
  -- the top of the outer loop
  line : List Bytes → Option Bytes → State
  -- behind a `;` that begins a word, at the test `*iter != '\n'`
  after_mark : List Bytes → State
  -- the top of the loop inside quotes
  quoted : List Bytes → Bytes → State
  -- behind a backslash, at the `switch`
  escape : List Bytes → Bytes → State
  -- in the hex loop with one nibble read
  second : List Bytes → Bytes → ℕ → State

-- What a byte leads to: another state, the end of the line, or `goto malformed` with `iter` behind
-- the byte or at it.
pub data Step : Type 0 where
  next : State → Step
  finish : List Bytes → Step
  bad_behind bad_at : Step

-- `word = nullptr`
abbrev pub close : List Bytes → Option Bytes → List Bytes
close result none = result
close result (some w) = result ++ w ∷ []

-- the word to push to, a new one if there is none
abbrev pub open_word : Option Bytes → Bytes
open_word none = []
open_word (some w) = w

abbrev is_open : Option Bytes → Bool
is_open none = false
is_open (some w) = true

-- The value of a hex digit, lower case only.
unfoldable pub nibble : ℕ → Option ℕ
nibble c =
    if ltb c b'0'
    then none
    else if leb c b'9'
    then some (c - b'0')
    else if ltb c b'a'
    then none
    else if leb c b'f'
    then some (c - (b'a' - 10))
    else none

unfoldable pub step_line : List Bytes → Option Bytes → ℕ → Step
step_line result word c =
    if c == b' ' || c == b'\t'
    then next (line (close result word) none)
    else if c == b'\n'
    then finish (close result word)
    else if c == continue_mark
    then if is_open word then bad_behind else next (after_mark result)
    else if leb c b' ' || leb 0x7f c
    then bad_behind
    else if c == b'\''
    then next (quoted result (open_word word))
    else next (line result (some (open_word word ++ c ∷ [])))

unfoldable pub step_quoted : List Bytes → Bytes → ℕ → Step
step_quoted result w c =
    if c == b'\n'
    then bad_at
    else if ltb c b' ' || leb 0x7f c
    then bad_at
    else if c == b'\''
    then next (line result (some w))
    else if c == b'\\'
    then next (escape result w)
    else next (quoted result (w ++ c ∷ []))

-- The first nibble; with none there is no escape.
abbrev first_nibble : List Bytes → Bytes → Option ℕ → Step
first_nibble result w none = bad_at
first_nibble result w (some v) = next (second result w v)

unfoldable pub step_escape : List Bytes → Bytes → ℕ → Step
unfolding nibble
step_escape result w c =
    if c == b'\\' || c == b'\''
    then next (quoted result (w ++ c ∷ []))
    else if c == b'n'
    then next (quoted result (w ++ b'\n' ∷ []))
    else if c == b'_'
    then next (quoted result (w ++ b' ' ∷ []))
    else if c == b't'
    then next (quoted result (w ++ b'\t' ∷ []))
    else first_nibble result w (nibble c)

-- The second nibble. With none the byte is not consumed, and is read inside the quotes.
-- `(v << 4) | c` is `v * 16 + c` here, as `c` is below 16.
abbrev second_nibble : List Bytes → Bytes → ℕ → ℕ → Option ℕ → Step
unfolding step_quoted
second_nibble result w v c none = step_quoted result (w ++ v ∷ []) c
second_nibble result w v c (some d) = next (quoted result (w ++ (v * 16 + d) ∷ []))

unfoldable pub step : State → ℕ → Step
unfolding step_line step_quoted step_escape second_nibble nibble
step (line result word) c = step_line result word c
step (after_mark result) c = if c == b'\n' then finish result else bad_at
step (quoted result w) c = step_quoted result w c
step (escape result w) c = step_escape result w c
step (second result w v) c = second_nibble result w v c (nibble c)

-- How the scan ends, each time with the bytes at `iter`; `overrun` reads past the end.
pub data Scan : Type 0 where
  ended : List Bytes → Bytes → Scan
  malformed : Bytes → Scan
  overrun : Scan

unfoldable pub scan : State → Bytes → Scan
unfolding step
scan st [] = overrun
scan st (c ∷ iter) = elim (step st c) [
  | next st' ↦ scan st' iter
  | finish result ↦ ended result iter
  | bad_behind ↦ malformed iter
  | bad_at ↦ malformed (c ∷ iter)
]

-- `std::find (iter, buffer.end (), '\n')`
unfoldable pub find_newline : Bytes → Bytes
find_newline [] = []
find_newline (c ∷ s) = let rest = find_newline s in if c == b'\n' then c ∷ s else rest

-- `p[-k]` for the position `p` of a buffer; `none` is out of bounds.
abbrev pub byte_before : Bytes → ℕ → ℕ → Option ℕ
byte_before buffer p k = if ltb p k then none else get_elem? buffer (p - k)

-- `p[-1] == CONTINUE && p[-2] == ' '`
unfoldable pub is_continued : Bytes → ℕ → Option Bool
is_continued buffer p = do
  c ← byte_before buffer p 1
  let mark = byte_before buffer p 2 >>= λ d. some (d == b' ')
  if c == continue_mark then mark else some false

pub record Lexed : Type 0 where
  pub status : Status
  pub words : List Bytes
  pub rest : MessageBuffer

abbrev pub last? : Bytes → Option ℕ
last? [] = none
last? (c ∷ []) = some c
last? (c ∷ d ∷ s) = last? (d ∷ s)

-- The position of what is left of the buffer.
abbrev pub position : MessageBuffer → Bytes → ℕ
position b iter = length b.buffer - length iter

abbrev malformed_line : List Bytes → MessageBuffer → Lexed
malformed_line ws b = record { status = errno einval; words = ws; rest = b }

-- The code behind the label `malformed`.
unfoldable pub lex_malformed : MessageBuffer → Bytes → Option Lexed
unfolding find_newline is_continued
lex_malformed b iter = do
  let newline = position b (find_newline iter)
  mark ← is_continued b.buffer newline
  let back = if mark then newline - 2 else newline
  let refused = take (back - b.last_bol) (drop b.last_bol b.buffer)
  let result = malformed_line (refused ∷ []) (record b { last_bol = newline + 1 })
  if ltb back b.last_bol then none else some result

abbrev pub lex_status : List Bytes → Status
lex_status [] = errno enoent
lex_status (w ∷ ws) = success

unfoldable pub lex_scanned : MessageBuffer → Scan → Option Lexed
unfolding lex_malformed
lex_scanned b (ended result iter) = some (record {
  status = lex_status result;
  words = result;
  rest = record b { last_bol = position b iter };
})
lex_scanned b (malformed iter) = lex_malformed b iter
lex_scanned b overrun = none

abbrev pub ends_in_newline : Option ℕ → Bool
ends_in_newline none = false
ends_in_newline (some c) = c == b'\n'

-- `Lex`; `none` is a failed assertion or a read out of bounds.
unfoldable pub lex : MessageBuffer → Option Lexed
unfolding is_at_end scan lex_scanned
lex b =
    if is_at_end b
    then some (record { status = errno enoent; words = []; rest = b })
    else if ends_in_newline (last? b.buffer)
    then lex_scanned b (scan (line [] none) (drop b.last_bol b.buffer))
    else none
