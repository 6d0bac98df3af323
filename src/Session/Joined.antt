-- ===== src/Session/Joined.antt =====
-- A message of lines, as it is sent, and what `Lex` makes of the line at the position.
use libcody.Prelude.{
  suc, ◌≤◌, true, false, List, [], ◌∷◌, ◌++◌, some, ◌≡◌, refl, ◌∙◌, arith, Bytes, length,
  append-nil, append-ne-nil, length-append, All,
}
use libcody.Status.{success}
use libcody.Buffer.{MessageBuffer, empty_buffer, prepare_to_write, is_at_end}
use libcody.Buffer.Lex.{lex}
use libcody.Buffer.Call.{not_at_end, last?-append}
use libcody.Buffer.Message.{
  Word, texts, IsLine, line_text, line_end, more_text, write_lines, prepare-write_lines,
}
use libcody.Buffer.RoundTrip.{lex-line, last?-more_text, more_text_ne}

abbrev pub joined : List (List Word) → Bytes
joined [] = []
joined (l ∷ ls) = line_text l ++ more_text ls

-- The bytes of the first line.
abbrev pub front : List Word → List (List Word) → Bytes
front l [] = line_text l ++ line_end true
front l (m ∷ ms) = line_text l ++ line_end false

-- A buffer that is read up to `pre`.
abbrev pub at : Bytes → List (List Word) → MessageBuffer
at pre ls = record { buffer = pre ++ joined ls; last_bol = length pre }

pub prepare-joined :
    (l : List Word) (ls : List (List Word))
    → All IsLine (l ∷ ls)
    → prepare_to_write (write_lines empty_buffer (l ∷ ls)) ≡ at [] (l ∷ ls)
prepare-joined l ls h = prepare-write_lines l ls h

pub lex-joined :
    (pre : Bytes) (l : List Word) (ls : List (List Word))
    → IsLine l
    → lex (at pre (l ∷ ls))
      ≡ some (record { status = success; words = texts l; rest = at (pre ++ front l ls) ls })
lex-joined pre l [] h = lex-line pre l true [] h refl
lex-joined pre l (m ∷ ms) h = lex-line pre l false (line_text m ++ more_text ms) h (
    last?-append (line_end false ++ line_text m) (more_text ms) (more_text_ne ms)
    ∙ last?-more_text ms)

pub joined_more :
    (pre : Bytes) (l : List Word) (ls : List (List Word)) → is_at_end (at pre (l ∷ ls)) ≡ false
unfolding is_at_end
joined_more pre l ls =
    not_at_end pre (joined (l ∷ ls)) (append-ne-nil (line_text l) (more_text ls) (more_text_ne ls))

pub joined_end : (pre : Bytes) → is_at_end (at pre []) ≡ true
unfolding is_at_end
joined_end pre = rw append-nil (ground arith)

length-more_text : (ls : List (List Word)) → suc (length ls) ≤ length (more_text ls)
length-more_text [] = omega arith
length-more_text (l ∷ ls) = omega (
  arith,
  length-more_text ls,
  length-append (line_end false) (line_text l ++ more_text ls),
  length-append (line_text l) (more_text ls),
)

pub length-joined : (ls : List (List Word)) → length ls ≤ length (joined ls)
length-joined [] = omega arith
length-joined (l ∷ ls) =
    omega (arith, length-more_text ls, length-append (line_text l) (more_text ls))
