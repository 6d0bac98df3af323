-- ===== src/Number.antt =====
-- `std::to_string` and `strtoul` of the standard libraries, and `ParseUnsigned` of server.cc.
-- `unsigned` has 32 bits and `unsigned long` has 64.
pub mod RoundTrip
use Prim.Native.Nat.{◌-◌}
use libcody.Prelude.{
  ℕ, zero, suc, ◌+◌, ◌*◌, ◌/◌, ◌%◌, ◌^◌, Bool, true, false, ◌&&◌, ◌||◌, List, [], ◌∷◌, Bytes, ltb,
  leb, ◌==◌, if◌then◌else◌, c_string,
}

abbrev pub unsigned_mod : ℕ
unsigned_mod = 2 ^ 32

abbrev pub ulong_mod : ℕ
ulong_mod = 2 ^ 64

-- The digits of `n` before those of `out`; ten rounds are enough below 2 ^ 32.
unfoldable pub digits : ℕ → ℕ → Bytes → Bytes
digits zero n out = out
digits (suc rounds) n out =
    let shown = (b'0' + n % 10) ∷ out in
    let more = digits rounds (n / 10) shown in if ltb n 10 then shown else more

-- `std::to_string` of an `unsigned`
unfoldable pub to_string : ℕ → Bytes
unfolding digits
to_string u = digits 10 u []

abbrev pub is_digit : ℕ → Bool
is_digit c = leb b'0' c && leb c b'9'

-- `isspace` in the C locale
abbrev pub is_space : ℕ → Bool
is_space c = c == b' ' || (leb 9 c && leb c 13)

-- What `strtoul` returns, and the text at `*eptr`.
pub record Parsed : Type 0 where
  pub val : ℕ
  pub eptr : Bytes

-- The digits of a number in base 10, not yet cut to the range of `unsigned long`.
unfoldable pub read_digits : ℕ → Bytes → Parsed
read_digits n [] = record { val = n; eptr = [] }
read_digits n (c ∷ s) =
    let rest = read_digits (n * 10 + (c - b'0')) s in
    if is_digit c then rest else record { val = n; eptr = c ∷ s }

-- Out of range, `strtoul` returns ULONG_MAX; a minus sign negates in `unsigned long`.
abbrev pub clamp : Bool → Parsed → Parsed
clamp negative p =
    if ltb p.val ulong_mod
    then record p { val = if negative then (ulong_mod - p.val) % ulong_mod else p.val }
    else record p { val = ulong_mod - 1 }

abbrev starts_digit : Bytes → Bool
starts_digit [] = false
starts_digit (c ∷ s) = is_digit c

-- With no digit nothing is converted: the value is 0 and `*eptr` is the whole text.
abbrev pub convert : Bytes → Bool → Bytes → Parsed
unfolding read_digits
convert str negative s =
    if starts_digit s then clamp negative (read_digits 0 s) else record { val = 0; eptr = str }

abbrev pub signed : Bytes → Bytes → Parsed
signed str [] = record { val = 0; eptr = str }
signed str (c ∷ s) =
    if c == b'-'
    then convert str true s
    else if c == b'+'
    then convert str false s
    else convert str false (c ∷ s)

abbrev pub skip_space : Bytes → Bytes
skip_space [] = []
skip_space (c ∷ s) = let rest = skip_space s in if is_space c then rest else c ∷ s

-- `strtoul (str, &eptr, 10)` on a text with no NUL.
unfoldable pub strtoul : Bytes → Parsed
unfolding convert
strtoul str = signed str (skip_space str)

abbrev pub is_empty : Bytes → Bool
is_empty [] = true
is_empty (c ∷ s) = false

-- `ParseUnsigned`: the value, or `~0u` on an error.
unfoldable pub parse_unsigned : Bytes → ℕ
unfolding strtoul c_string
parse_unsigned str =
    let p = strtoul (c_string str) in
    if is_empty p.eptr && p.val % unsigned_mod == p.val
    then p.val % unsigned_mod
    else unsigned_mod - 1
