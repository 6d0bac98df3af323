-- ===== src/Buffer/RoundTrip.antt =====
-- A message is read back line by line.
use libcody.Prelude.{
  ℕ, zero, suc, ◌-◌, Bool, true, false, List, [], ◌∷◌, ◌++◌, Option, none, some, ◌≡◌, ◌≢◌, refl,
  ◌∙◌, arith, Bytes, map, append-nil, append_assoc, All, length, append-ne-nil, length-append,
  ◌>>=◌,
}
use libcody.Status.{success}
use libcody.Buffer.{MessageBuffer, empty_buffer, prepare_to_write, is_at_end}
use libcody.Buffer.Lex.{lex, lex_status, last?}
use libcody.Buffer.Call.{lexed_at, last?-append, not_at_end, lex-ended}
use libcody.Buffer.Message.{
  Word, texts, IsLine, line_text, line_end, more_text, write_line, write_lines, scan-line_text,
  prepare-write_lines,
}

-- All the lines of a message, each with no error; `none` if there is one, or no fuel.
pub decode : ℕ → MessageBuffer → Option (List (List Bytes))
decode zero b = none
decode (suc fuel) b = elim (is_at_end b) [
  | true ↦ some []
  | false ↦ lex b >>= λ l. elim l.status [
    | success ↦ decode fuel l.rest >>= λ ls. some (l.words ∷ ls)
    | _ ↦ none
  ]
]

pub more_text_ne : (ls : List (List Word)) → more_text ls ≢ []
more_text_ne [] = λ p. cc
more_text_ne (l ∷ ls) = λ p. cc

pub last?-more_text : (ls : List (List Word)) → last? (more_text ls) ≡ some b'\n'
last?-more_text [] = refl
last?-more_text (l ∷ ls) =
    last?-append (line_end false ++ line_text l) (more_text ls) (more_text_ne ls)
    ∙ last?-more_text ls

-- The line at the end of `pre` is read, and the position is behind it.
regroup :
    (pre : Bytes) (l : List Word) (last : Bool) (tail : Bytes)
    → IsLine l
    → lexed_at
        (lex_status (texts l))
        (texts l)
        (pre ++ (line_text l ++ (line_end last ++ tail)))
        (length (pre ++ (line_text l ++ (line_end last ++ tail))) - length tail)
      ≡ lexed_at success
          (texts l)
          ((pre ++ (line_text l ++ line_end last)) ++ tail)
          (length (pre ++ (line_text l ++ line_end last)))
regroup pre [] last tail (ne, h) = absurd (ne refl)
regroup pre (w ∷ ws) last tail h =
    let front = pre ++ (line_text (w ∷ ws) ++ line_end last) in
    let bytes : pre ++ (line_text (w ∷ ws) ++ (line_end last ++ tail)) ≡ front ++ tail =
      simp append_assoc in
    let n : length (front ++ tail) - length tail ≡ length front =
      omega (arith, length-append front tail) in
    rw bytes (rw n)

line_end_ne : (last : Bool) (tail : Bytes) → line_end last ++ tail ≢ []
line_end_ne true tail e = cc
line_end_ne false tail e = cc

pub lex-line :
    (pre : Bytes) (l : List Word) (last : Bool) (tail : Bytes)
    → IsLine l
    → last? (line_end last ++ tail) ≡ some b'\n'
    → lex
        (record { buffer = pre ++ (line_text l ++ (line_end last ++ tail)); last_bol = length pre })
      ≡ lexed_at success
          (texts l)
          ((pre ++ (line_text l ++ line_end last)) ++ tail)
          (length (pre ++ (line_text l ++ line_end last)))
lex-line pre l last tail h e =
    lex-ended pre (line_text l ++ (line_end last ++ tail)) tail (texts l)
      (append-ne-nil (line_text l) (line_end last ++ tail) (line_end_ne last tail))
      (last?-append (line_text l) (line_end last ++ tail) (line_end_ne last tail) ∙ e)
      (scan-line_text l last tail h)
    ∙ regroup pre l last tail h

decode-suc :
    (fuel : ℕ) (b b' : MessageBuffer) (ws : List Bytes)
    → is_at_end b ≡ false
    → lex b ≡ some (record { status = success; words = ws; rest = b' })
    → decode (suc fuel) b ≡ (decode fuel b' >>= λ ls. some (ws ∷ ls))
unfolding decode
decode-suc fuel b b' ws more e = rw (more, decode) (rw (e, ◌>>=◌))

decode_end :
    (fuel : ℕ) (s : Bytes)
    → decode (suc fuel) (record { buffer = s ++ []; last_bol = length s }) ≡ some []
unfolding decode is_at_end
decode_end fuel s =
    let e : is_at_end (record { buffer = s ++ []; last_bol = length s }) ≡ true =
      rw append-nil (ground arith) in
    rw (e, decode)

decode-line_text :
    (pre : Bytes) (l : List Word) (ls : List (List Word))
    → All IsLine (l ∷ ls)
    → decode
        (suc (suc (length ls)))
        (record { buffer = pre ++ (line_text l ++ more_text ls); last_bol = length pre })
      ≡ some (map texts (l ∷ ls))
unfolding is_at_end
decode-line_text pre l [] (h, hs) =
    decode-suc _ _ _ (texts l)
      (not_at_end pre (line_text l ++ more_text [])
        (append-ne-nil (line_text l) (more_text []) (more_text_ne [])))
      (lex-line pre l true [] h refl)
    ∙ rw (decode_end 0 (pre ++ (line_text l ++ line_end true)))
decode-line_text pre l (m ∷ ms) (h, hs) =
    let tail = line_text m ++ more_text ms in
    decode-suc _ _ _ (texts l)
      (not_at_end pre (line_text l ++ (line_end false ++ tail))
        (append-ne-nil (line_text l) (line_end false ++ tail) (line_end_ne false tail)))
      (lex-line pre l false tail h (
        last?-append (line_end false ++ line_text m) (more_text ms) (more_text_ne ms)
        ∙ last?-more_text ms))
    ∙ rw (decode-line_text (pre ++ (line_text l ++ line_end false)) m ms hs)

-- A message of one line or more, each with a word at least, is read back as those words, line by
-- line, if each word that may be quoted is ASCII and each other word is a word of bytes above the
-- space that are no `;`, no quote and no DEL.
pub decode-write_lines :
    (l : List Word) (ls : List (List Word))
    → All IsLine (l ∷ ls)
    → decode (suc (suc (length ls))) (prepare_to_write (write_lines empty_buffer (l ∷ ls)))
      ≡ some (map texts (l ∷ ls))
decode-write_lines l ls h = rw (prepare-write_lines l ls h) (decode-line_text [] l ls h)

-- A message of one line.
pub decode-write_line :
    (l : List Word)
    → IsLine l
    → decode 2 (prepare_to_write (write_line empty_buffer l)) ≡ some (texts l ∷ [])
decode-write_line l h = unfold write_lines in decode-write_lines l [] (h, tt)
