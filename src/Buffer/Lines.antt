-- ===== src/Buffer/Lines.antt =====
-- Messages as any bytes in lines, the position behind a line, and where `LexedLine` stays inside.
use libcody.Prelude.{
  ◌+◌, ◌≤◌, true, false, List, [], ◌∷◌, ◌++◌, some, ◌≡◌, refl, ◌∙◌, arith, Bytes, ◌⊎◌, inl, inr,
  All, length, length-append, append_assoc, append-nil, append-ne-nil,
}
use libcody.Buffer.{MessageBuffer, is_at_end}
use libcody.Buffer.Call.{last?-append, not_at_end}
use libcody.Buffer.Lex.{last?}
use libcody.Buffer.Consume.{IsNoNewline}
use libcody.Buffer.Marks.{strip_mark}
use libcody.Buffer.LastLine.{is_blank, lexed_line_behind, lexed_line_first}
use libcody.Buffer.Line.{lexed_line}

-- `LexedLine` stays inside the buffer.
abbrev pub CanQuote : MessageBuffer → Type 0
CanQuote b = (str : Bytes) → (l : Bytes) × (lexed_line b str ≡ some l)

-- Lines with the newline behind each.
abbrev pub lines_text : List Bytes → Bytes
lines_text [] = []
lines_text (body ∷ bodies) = body ++ b'\n' ∷ lines_text bodies

-- A line behind another line, or a first line that is neither empty nor a lone `;`.
abbrev pub IsQuotable : Bytes → Bytes → Type 0
IsQuotable pre body =
    ((p : Bytes) × (pre ≡ p ++ b'\n' ∷ [])) ⊎ ((pre ≡ []) × (is_blank body ≡ false))

abbrev pub read_at : Bytes → Bytes → MessageBuffer
read_at pre rest = record { buffer = pre ++ rest; last_bol = length pre }

abbrev pub AreQuotable : Bytes → List Bytes → Type 0
AreQuotable pre [] = Unit
AreQuotable pre (body ∷ bodies) = IsQuotable pre body

pub last?-lines_text : (bodies : List Bytes) → last? (b'\n' ∷ lines_text bodies) ≡ some b'\n'
last?-lines_text [] = refl
last?-lines_text (body ∷ bodies) =
    last?-append (b'\n' ∷ body) (b'\n' ∷ lines_text bodies) (λ p. cc) ∙ last?-lines_text bodies

-- Behind a line the rest of the message begins.
pub next_read :
    (pre body tail : Bytes)
    → record { buffer = pre ++ (body ++ b'\n' ∷ tail); last_bol = length pre + length body + 1 }
      ≡ read_at ((pre ++ body) ++ b'\n' ∷ []) tail
next_read pre body tail =
    let n : length ((pre ++ body) ++ b'\n' ∷ []) ≡ length pre + length body + 1 =
      omega (arith, length-append (pre ++ body) (b'\n' ∷ []), length-append pre body) in
    rw (n, append_assoc) (rw append_assoc)

pub AreQuotable-behind : (p : Bytes) (bodies : List Bytes) → AreQuotable (p ++ b'\n' ∷ []) bodies
AreQuotable-behind p [] = tt
AreQuotable-behind p (body ∷ bodies) = inl (p, refl)

pub at_end : (pre : Bytes) → is_at_end (read_at pre []) ≡ true
unfolding is_at_end
at_end pre = rw append-nil (ground arith)

pub not_at_end_line :
    (pre body tail : Bytes) → is_at_end (read_at pre (body ++ b'\n' ∷ tail)) ≡ false
unfolding is_at_end
not_at_end_line pre body tail =
    not_at_end pre (body ++ b'\n' ∷ tail) (append-ne-nil body (b'\n' ∷ tail) (λ p. cc))

pub length-lines_text : (bodies : List Bytes) → length bodies ≤ length (lines_text bodies)
length-lines_text [] = omega arith
length-lines_text (body ∷ bodies) =
    omega (arith, length-lines_text bodies, length-append body (b'\n' ∷ lines_text bodies))

pub after-CanQuote :
    (pre body tail : Bytes)
    → IsQuotable pre body
    → All IsNoNewline body
    → CanQuote
        (record { buffer = pre ++ (body ++ b'\n' ∷ tail); last_bol = length pre + length body + 1 })
after-CanQuote pre body tail (inl (p, e)) h str =
    (str ++ strip_mark body, rw e (lexed_line_behind p body tail str h))
after-CanQuote pre body tail (inr (e, f)) h str =
    let zero_add : 0 + length body ≡ length body = omega arith in
    (str ++ strip_mark body, rw (e, zero_add) (lexed_line_first body tail str h ∙ rw f))
