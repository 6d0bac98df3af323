-- ===== src/Number/RoundTrip.antt =====
-- Numbers are read back from their decimal print.
use Prim.Native.Nat.{◌-◌}
use libcody.Prelude.{
  ℕ, zero, suc, ◌+◌, ◌*◌, ◌/◌, ◌%◌, ◌≤◌, ◌<◌, true, false, Bytes, [], ◌∷◌, ◌≡◌, ◌≢◌, refl, ◌∙◌,
  arith, All, ltb, ◌==◌, c_string, Bool-cases, inl, inr, ap,
}
use libcody.Number.{
  unsigned_mod, is_digit, digits, to_string, read_digits, clamp, strtoul, parse_unsigned,
}

abbrev pub IsDigit : ℕ → Type 0
IsDigit c = (b'0' ≤ c) × (c ≤ b'9')

-- 10 ^ r
abbrev pow_ten : ℕ → ℕ
pow_ten zero = 1
pow_ten (suc r) = 10 * pow_ten r

digits-IsDigit : (r n : ℕ) (out : Bytes) → All IsDigit out → All IsDigit (digits r n out)
unfolding digits
digits-IsDigit zero n out h = h
digits-IsDigit (suc r) n out h =
    let last : IsDigit (b'0' + n % 10) = omega arith in
    ground (arith, digits-IsDigit r (n / 10) ((b'0' + n % 10) ∷ out))

digits_ne : (r n : ℕ) (out : Bytes) → out ≢ [] → digits r n out ≢ []
unfolding digits
digits_ne zero n out h = h
digits_ne (suc r) n out h = ground (arith, digits_ne r (n / 10) ((b'0' + n % 10) ∷ out) (λ p. cc))

digits-suc_ne : (r n : ℕ) (out : Bytes) → digits (suc r) n out ≢ []
unfolding digits
digits-suc_ne r n out = ground (arith, digits_ne r (n / 10) ((b'0' + n % 10) ∷ out) (λ p. cc))

read_digits-cons :
    (n d : ℕ) (s : Bytes) → d < 10 → read_digits n ((b'0' + d) ∷ s) ≡ read_digits (n * 10 + d) s
unfolding read_digits
read_digits-cons n d s h =
    let digit : is_digit (b'0' + d) ≡ true = ground arith in
    let value : n * 10 + (b'0' + d - b'0') ≡ n * 10 + d = omega arith in rw (digit, value)

read_digits-digits :
    (r n : ℕ) (out : Bytes)
    → n < pow_ten (suc r)
    → read_digits 0 (digits (suc r) n out) ≡ read_digits n out
unfolding digits
read_digits-digits zero n out h =
    let few : ltb n 10 ≡ true = ground arith in
    let same : 0 * 10 + n % 10 ≡ n = omega arith in
    rw few (read_digits-cons 0 (n % 10) out (omega arith) ∙ rw same)
read_digits-digits (suc r) n out h = elim (Bool-cases (ltb n 10)) [
  | inl few ↦
      let same : 0 * 10 + n % 10 ≡ n = ground arith in
      rw (few, digits) (read_digits-cons 0 (n % 10) out (omega arith) ∙ rw same)
  | inr many ↦
      let back : n / 10 * 10 + n % 10 ≡ n = omega arith in
      rw (many, digits)
        (read_digits-digits r (n / 10) ((b'0' + n % 10) ∷ out) (omega arith)
          ∙ read_digits-cons (n / 10) (n % 10) out (omega arith)
          ∙ rw back)
]

c_string-digits : (s : Bytes) → All IsDigit s → c_string s ≡ s
unfolding c_string
c_string-digits [] h = refl
c_string-digits (c ∷ s) h = ground (arith, c_string-digits s)

strtoul-digits : (s : Bytes) → s ≢ [] → All IsDigit s → strtoul s ≡ clamp false (read_digits 0 s)
unfolding strtoul
strtoul-digits [] ne h = absurd (ne refl)
strtoul-digits (c ∷ s) ne (h, hs) = ground arith

parse_unsigned_lem :
    (s : Bytes) (u : ℕ)
    → u < unsigned_mod
    → c_string s ≡ s
    → strtoul s ≡ record { val = u; eptr = [] }
    → parse_unsigned s ≡ u
unfolding parse_unsigned
parse_unsigned_lem s u h e f =
    let same : (u % unsigned_mod == u) ≡ true = ground arith in rw e (rw f (rw same (omega arith)))

pub to_string-IsDigit : (u : ℕ) → All IsDigit (to_string u)
unfolding to_string
to_string-IsDigit u = digits-IsDigit 10 u [] tt

pub to_string_ne : (u : ℕ) → to_string u ≢ []
unfolding to_string
to_string_ne u = digits-suc_ne 9 u []

read_digits-to_string :
    (u : ℕ) → u < unsigned_mod → read_digits 0 (to_string u) ≡ record { val = u; eptr = [] }
unfolding to_string
read_digits-to_string u h = read_digits-digits 9 u [] (omega arith) ∙ unfold read_digits in refl

pub strtoul-to_string :
    (u : ℕ) → u < unsigned_mod → strtoul (to_string u) ≡ record { val = u; eptr = [] }
strtoul-to_string u h =
    strtoul-digits (to_string u) (to_string_ne u) (to_string-IsDigit u)
    ∙ ap (clamp false) (read_digits-to_string u h)
    ∙ ground arith

-- Every `unsigned` value is read back from its decimal print, `~0u` as the error value that it is.
pub parse_unsigned-to_string : (u : ℕ) → u < unsigned_mod → parse_unsigned (to_string u) ≡ u
parse_unsigned-to_string u h =
    parse_unsigned_lem (to_string u) u h (c_string-digits (to_string u) (to_string-IsDigit u))
      (strtoul-to_string u h)
