-- ===== src/Buffer/LastLine.antt =====
-- What `LexedLine` appends: the line before the position. The only lines at which it looks outside
-- the buffer are the empty line and the lone `;` at the very beginning.
use libcody.Prelude.{
  ℕ, zero, suc, ◌+◌, ◌-◌, ◌≤◌, Bool, true, false, [], ◌∷◌, ◌++◌, none, some, ◌≡◌, ◌≢◌, refl, ◌∙◌,
  arith, Bytes, length, drop-append, length-append, ◌==◌, ltb, if◌then◌else◌, append_assoc, All,
  get_elem?, get_elem?-append, get_elem?-append_right, get_elem?-append_left, All-get_elem?,
  Bool-cases, ◌⊎◌, inl, inr, ◌>>=◌,
}
use libcody.Buffer.Line.{line_start, line_before, lexed_line}
use libcody.Buffer.Marks.{strip_mark, Found, find_mark, is_continued-other, is_continued_mark}
use libcody.Buffer.Consume.{IsNoNewline}

-- A line begins at the end of `pre`.
abbrev pub BeginsLine : Bytes → Type 0
BeginsLine pre = (pre ≡ []) ⊎ ((p : Bytes) × (pre ≡ p ++ b'\n' ∷ []))

line_start-back :
    (buffer : Bytes) (p c : ℕ)
    → get_elem? buffer p ≡ some c
    → c ≢ b'\n'
    → line_start buffer (suc p) ≡ line_start buffer p
unfolding line_start
line_start-back buffer p c e ne = let other : (c == b'\n') ≡ false = ground arith in rw e (rw other)

line_start_stop :
    (buffer : Bytes) (p : ℕ)
    → get_elem? buffer p ≡ some b'\n'
    → line_start buffer (suc p) ≡ some (suc p)
unfolding line_start
line_start_stop buffer p e = rw e

line_start_zero : (buffer : Bytes) → line_start buffer 0 ≡ some 0
unfolding line_start
line_start_zero buffer = refl

line_start_at :
    (pre rest : Bytes) → BeginsLine pre → line_start (pre ++ rest) (length pre) ≡ some (length pre)
line_start_at pre rest (inl e) = rw e (line_start_zero rest)
line_start_at pre rest (inr (p, e)) =
    let n : length (p ++ b'\n' ∷ []) ≡ suc (length p) =
      omega (arith, length-append p (b'\n' ∷ [])) in
    rw (e, n, append_assoc) (line_start_stop _ (length p) (get_elem?-append p b'\n' rest))

-- From any place of the line the loop goes back to its beginning.
line_start_line :
    (pre body rest : Bytes) (k : ℕ)
    → BeginsLine pre
    → All IsNoNewline body
    → k ≤ length body
    → line_start (pre ++ (body ++ rest)) (length pre + k) ≡ some (length pre)
line_start_line pre body rest zero b h le =
    let e : length pre + 0 ≡ length pre = omega arith in rw e (line_start_at pre (body ++ rest) b)
line_start_line pre body rest (suc k) b h le =
    let e : length pre + suc k ≡ suc (length pre + k) = omega arith in
    let (c, at, ne) = All-get_elem? IsNoNewline body k h (omega arith) in
    rw e (
      line_start-back _ (length pre + k) c
        (get_elem?-append_right pre (body ++ rest) k
          ∙ get_elem?-append_left body rest k (omega arith)
          ∙ at)
        ne
      ∙ line_start_line pre body rest k b h (omega arith))

line_before_lem :
    (pre body rest : Bytes)
    → BeginsLine pre
    → All IsNoNewline body
    → Found pre body rest
    → line_before (pre ++ (body ++ rest)) (length pre + length body) ≡ some (strip_mark body)
unfolding line_before
line_before_lem pre body rest b h g =
    let above : ltb (length pre + length (strip_mark body)) (length pre) ≡ false = ground arith in
    let size : length pre + length (strip_mark body) - length pre ≡ length (strip_mark body) =
      omega arith in
    rw (line_start_line pre body rest (length body) b h (omega arith), g.looked)
      (rw (g.stops, above, size, drop-append pre (body ++ rest), g.prefix))

-- The look back stops at the newline of the line before.
Found-blank : (p rest : Bytes) → Found (p ++ b'\n' ∷ []) [] rest
Found-blank p rest = record {
  mark = false;
  looked =
      (let n : length (p ++ b'\n' ∷ []) + 0 ≡ suc (length p) =
          omega (arith, length-append p (b'\n' ∷ [])) in
        rw (n, append_assoc) (is_continued-other p rest b'\n' (omega arith)));
  stops = refl;
  prefix = refl;
}

Found-lone : (p rest : Bytes) → Found (p ++ b'\n' ∷ []) (b';' ∷ []) rest
Found-lone p rest = record {
  mark = false;
  looked =
      (let n : length (p ++ b'\n' ∷ []) + 1 ≡ suc (suc (length p)) =
          omega (arith, length-append p (b'\n' ∷ [])) in
        rw (n, append_assoc) (is_continued_mark p rest b'\n'));
  stops = refl;
  prefix = refl;
}

-- The empty line, and the line that is a lone `;`.
abbrev pub is_blank : Bytes → Bool
is_blank [] = true
is_blank (c ∷ []) = c == b';'
is_blank (c ∷ d ∷ s) = false

find_behind : (p body rest : Bytes) → Found (p ++ b'\n' ∷ []) body rest
find_behind p [] rest = Found-blank p rest
find_behind p (c ∷ []) rest = elim (Bool-cases (c == b';')) [
  | inl e ↦ let e' : c ≡ b';' = ground arith in rw e' (Found-lone p rest)
  | inr e ↦ find_mark (p ++ b'\n' ∷ []) rest (c ∷ []) (λ q. cc) (λ q. ground arith)
]
find_behind p (c ∷ d ∷ s) rest = find_mark (p ++ b'\n' ∷ []) rest (c ∷ d ∷ s) (λ q. cc) (λ q. cc)

find_first : (body rest : Bytes) → is_blank body ≡ false → Found [] body rest
find_first [] rest h = cc
find_first (c ∷ []) rest h = find_mark [] rest (c ∷ []) (λ q. cc) (λ q. ground arith)
find_first (c ∷ d ∷ s) rest h = find_mark [] rest (c ∷ d ∷ s) (λ q. cc) (λ q. cc)

lexed_line_before :
    (buffer str : Bytes) (n : ℕ)
    → lexed_line (record { buffer = buffer; last_bol = n + 1 }) str
      ≡ (line_before buffer n >>= λ l. some (str ++ l))
unfolding lexed_line
lexed_line_before buffer str n =
    let pos : (n + 1 == 0) ≡ false = ground arith in
    let end : n + 1 - 1 ≡ n = omega arith in rw (pos, end)

-- Behind another line, `LexedLine` appends the line that ends at the position as it stands, less a
-- ` ;` at its end, where no byte of the line is a newline.
pub lexed_line_behind :
    (p body tail str : Bytes)
    → All IsNoNewline body
    → lexed_line
        (record {
          buffer = (p ++ b'\n' ∷ []) ++ (body ++ b'\n' ∷ tail);
          last_bol = length (p ++ b'\n' ∷ []) + length body + 1;
        })
        str
      ≡ some (str ++ strip_mark body)
lexed_line_behind p body tail str h =
    lexed_line_before _ str _
    ∙ rw (
        line_before_lem (p ++ b'\n' ∷ []) body (b'\n' ∷ tail) (inr (p, refl)) h
          (find_behind p body (b'\n' ∷ tail)))

lexed_line-none :
    (body tail str : Bytes)
    → is_blank body ≡ true
    → lexed_line (record { buffer = body ++ b'\n' ∷ tail; last_bol = length body + 1 }) str ≡ none
unfolding lexed_line
lexed_line-none [] tail str h = refl
lexed_line-none (c ∷ []) tail str h = let e : c ≡ b';' = ground arith in rw e
lexed_line-none (c ∷ d ∷ s) tail str h = cc

pub lexed_line-some :
    (body tail str : Bytes)
    → All IsNoNewline body
    → is_blank body ≡ false
    → lexed_line (record { buffer = body ++ b'\n' ∷ tail; last_bol = length body + 1 }) str
      ≡ some (str ++ strip_mark body)
lexed_line-some body tail str h e =
    let zero_add : 0 + length body ≡ length body = omega arith in
    lexed_line_before _ str (length body)
    ∙ rw (
        rw zero_add at
          (line_before_lem [] body (b'\n' ∷ tail) (inl refl) h (find_first body (b'\n' ∷ tail) e)))

-- On the first line of the buffer `LexedLine` reads before the buffer if the line is empty or a
-- lone `;`, and else appends the line as it stands, less a ` ;` at its end, where no byte of the line
-- is a newline.
pub lexed_line_first :
    (body tail str : Bytes)
    → All IsNoNewline body
    → lexed_line (record { buffer = body ++ b'\n' ∷ tail; last_bol = length body + 1 }) str
      ≡ (if is_blank body then none else some (str ++ strip_mark body))
lexed_line_first body tail str h = elim (Bool-cases (is_blank body)) [
  | inl e ↦ rw e (lexed_line-none body tail str e)
  | inr e ↦ rw e (lexed_line-some body tail str h e)
]
