-- ===== src/Buffer/Append.antt =====
-- `Append`, `AppendWord` and `AppendInteger` of buffer.cc and cody.hh.
use libcody.Prelude.{
  ℕ, ◌+◌, ◌-◌, ◌/◌, ◌%◌, Bool, true, false, not, ◌&&◌, ◌||◌, [], ◌∷◌, ◌++◌, Option, none, some,
  Bytes, length, take, ltb, leb, ◌==◌, if◌then◌else◌, c_string,
}
use libcody.Number.{to_string}
use libcody.Buffer.{MessageBuffer, push, space}

-- The bytes of `[-+_A-Za-z0-9/%.]`, which need no quotes.
abbrev pub is_plain : ℕ → Bool
is_plain c =
    (leb b'a' c && leb c b'z')
    || (leb b'A' c && leb c b'Z')
    || (leb b'0' c && leb c b'9')
    || c == b'-'
    || c == b'+'
    || c == b'_'
    || c == b'/'
    || c == b'%'
    || c == b'.'

-- The scan from the last byte to the first.
unfoldable pub needs_quotes : Bytes → Bool
needs_quotes [] = false
needs_quotes (c ∷ s) = needs_quotes s || not (is_plain c)

abbrev pub needs_escape : ℕ → Bool
needs_escape c = ltb c b' ' || c == 0x7f || c == b'\\' || c == b'\''

-- One round of the hex loop: `(c >> shift) & 0xf` as a lower-case digit.
unfoldable pub hex_digit : ℕ → ℕ
hex_digit nibble = let c = nibble + b'0' in if ltb b'9' c then c + (b'a' - (b'9' + 1)) else c

-- What the `switch` pushes behind the backslash.
unfoldable pub escape_code : ℕ → Bytes
unfolding hex_digit
escape_code c =
    if c == b'\t'
    then b't' ∷ []
    else if c == b'\n'
    then b'n' ∷ []
    else if c == b'\'' || c == b'\\'
    then c ∷ []
    else hex_digit (c / 16 % 16) ∷ hex_digit (c % 16) ∷ []

-- The copying loop, a byte at a time: a byte in quotes that needs it is escaped.
unfoldable pub copy : Bool → Bytes → Bytes → Bytes
unfolding escape_code
copy quote out [] = out
copy quote out (c ∷ s) =
    copy quote (out ++ (if quote && needs_escape c then b'\\' ∷ escape_code c else c ∷ [])) s

-- `Append` once `len` is known: `str` has just the bytes to append.
unfoldable pub append_bytes : MessageBuffer → Bytes → Bool → MessageBuffer
unfolding needs_quotes copy
append_bytes b [] quote = if quote then push b (b'\'' ∷ b'\'' ∷ []) else b
append_bytes b (c ∷ s) quote =
    if quote && needs_quotes (c ∷ s)
    then push b (copy true (b'\'' ∷ []) (c ∷ s) ++ b'\'' ∷ [])
    else push b (copy false [] (c ∷ s))

-- `str` is the memory at the pointer; the length `none` is `~size_t (0)`, which asks for `strlen`.
unfoldable pub argument : Bytes → Option ℕ → Bytes
unfolding c_string
argument str none = c_string str
argument str (some len) = take len str

unfoldable pub append : MessageBuffer → Bytes → Bool → Option ℕ → MessageBuffer
unfolding append_bytes argument
append b str quote len = append_bytes b (argument str len) quote

unfoldable pub append_word : MessageBuffer → Bytes → Bool → Option ℕ → MessageBuffer
unfolding append space
append_word b str maybe_quote len =
    let start = if length b.buffer == b.last_bol then b else space b in
    append start str maybe_quote len

-- The overload for a `std::string`.
unfoldable pub append_word_string : MessageBuffer → Bytes → Bool → MessageBuffer
unfolding append_word
append_word_string b str maybe_quote = append_word b str maybe_quote (some (length str))

unfoldable pub append_integer : MessageBuffer → ℕ → MessageBuffer
unfolding append_word_string to_string
append_integer b u = append_word_string b (to_string u) false
