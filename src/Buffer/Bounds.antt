-- ===== src/Buffer/Bounds.antt =====
-- How much `Append` writes, for which it reserves memory.
use libcody.Prelude.{
  ℕ, ◌+◌, ◌*◌, ◌≤◌, Bool, true, false, ◌&&◌, ◌||◌, [], ◌∷◌, ◌++◌, ◌≡◌, arith, Bytes, length,
  length-append, ◌==◌, if◌then◌else◌, Bool-cases, inl, inr,
}
use libcody.Buffer.{MessageBuffer}
use libcody.Buffer.Append.{needs_quotes, needs_escape, escape_code, copy, append_bytes}

if-≤ :
    (b : Bool) (s t : Bytes) (n : ℕ) → length s ≤ n → length t ≤ n → length (if b then s else t) ≤ n
if-≤ true s t n h k = h
if-≤ false s t n h k = k

length-escape_code : (c : ℕ) → length (escape_code c) ≤ 2
unfolding escape_code
length-escape_code c = if-≤ (c == b'\t') _ _ 2 (omega arith) (
    if-≤ (c == b'\n') _ _ 2 (omega arith)
      (if-≤ (c == b'\'' || c == b'\\') _ _ 2 (omega arith) (omega arith)))

length-copy_quoted : (out s : Bytes) → length (copy true out s) ≤ length out + length s * 3
unfolding copy
length-copy_quoted out [] = omega arith
length-copy_quoted out (c ∷ s) =
    let piece : Bytes = if needs_escape c then b'\\' ∷ escape_code c else c ∷ [] in
    omega (
      arith,
      if-≤ (needs_escape c) (b'\\' ∷ escape_code c) (c ∷ []) 3 (omega (arith, length-escape_code c))
          (omega arith),
      length-copy_quoted (out ++ piece) s,
      length-append out piece,
    )

length-copy_plain : (out s : Bytes) → length (copy false out s) ≡ length out + length s
unfolding copy
length-copy_plain out [] = omega arith
length-copy_plain out (c ∷ s) =
    omega (arith, length-copy_plain (out ++ c ∷ []) s, length-append out (c ∷ []))

-- `len * (quote ? 3 : 1) + 2`, where `quote` was narrowed by the scan for a byte that needs quotes,
-- which there is none of in an empty text.
abbrev pub is_quoted : Bool → Bytes → Bool
is_quoted quote [] = quote
is_quoted quote (c ∷ s) = quote && needs_quotes (c ∷ s)

abbrev pub reserved : Bool → Bytes → ℕ
reserved quote s = length s * (if is_quoted quote s then 3 else 1) + 2

-- `Append` writes no more bytes than it reserves memory for, whatever the bytes are: three for each
-- byte if it quotes the text, else one, and two more.
pub append_bytes_fits :
    (b : MessageBuffer) (s : Bytes) (quote : Bool)
    → length (append_bytes b s quote).buffer ≤ length b.buffer + reserved quote s
unfolding append_bytes
append_bytes_fits b [] true = omega (arith, length-append b.buffer (b'\'' ∷ b'\'' ∷ []))
append_bytes_fits b [] false = omega arith
append_bytes_fits b (c ∷ s) quote = elim (Bool-cases (quote && needs_quotes (c ∷ s))) [
  | inl e ↦ rw e (
      omega (
        arith,
        length-append b.buffer (copy true (b'\'' ∷ []) (c ∷ s) ++ b'\'' ∷ []),
        length-append (copy true (b'\'' ∷ []) (c ∷ s)) (b'\'' ∷ []),
        length-copy_quoted (b'\'' ∷ []) (c ∷ s),
      ))
  | inr e ↦
      rw e (
        omega (arith, length-append b.buffer (copy false [] (c ∷ s)), length-copy_plain [] (c ∷ s)))
]
