-- ===== src/Buffer/Message.antt =====
-- Whole messages: lines of words written the way that the requests and the responses write them,
-- and read by one call of `Lex` for each line.
use libcody.Prelude.{
  ℕ, ◌<◌, Bool, true, false, List, [], ◌∷◌, ◌++◌, Option, none, some, ◌≡◌, ◌≢◌, refl, ap, ◌∙◌,
  arith, Bytes, map, append-nil, append_assoc, All, ◌==◌, length, take_all, append-ne-nil,
  length-append,
}
use libcody.Buffer.{
  MessageBuffer, empty_buffer, push, continued, begin_line, end_line, prepare_to_write,
}
use libcody.Buffer.Append.{argument, append_word, append_word_string}
use libcody.Buffer.Lex.{line, scan, ended}
use libcody.Buffer.Words.{word_text, append_bytes_lem, IsWord, word_text_pos, scan-word_text}

-- A word and whether it may be quoted; a line of them.
pub record Word : Type 0 where
  pub text : Bytes
  pub quote : Bool

unfoldable pub write_words : MessageBuffer → List Word → MessageBuffer
write_words b [] = b
write_words b (w ∷ ws) = write_words (append_word_string b w.text w.quote) ws

unfoldable pub write_line : MessageBuffer → List Word → MessageBuffer
unfolding write_words begin_line end_line
write_line b ws = end_line (write_words (begin_line b) ws)

unfoldable pub write_lines : MessageBuffer → List (List Word) → MessageBuffer
write_lines b [] = b
write_lines b (l ∷ ls) = write_lines (write_line b l) ls

-- Every word but the first stands behind a space.
abbrev pub spaced : List Word → Bytes
spaced [] = []
spaced (w ∷ ws) = b' ' ∷ (word_text w.quote w.text ++ spaced ws)

abbrev pub line_text : List Word → Bytes
line_text [] = []
line_text (w ∷ ws) = word_text w.quote w.text ++ spaced ws

abbrev pub line_end : Bool → Bytes
line_end true = b'\n' ∷ []
line_end false = b' ' ∷ b';' ∷ b'\n' ∷ []

abbrev pub more_text : List (List Word) → Bytes
more_text [] = line_end true
more_text (l ∷ ls) = line_end false ++ (line_text l ++ more_text ls)

abbrev pub texts : List Word → List Bytes
texts = map (λ w. w.text)

abbrev pub IsLine : List Word → Type 0
IsLine ws = (ws ≢ []) × All (λ w. IsWord w.quote w.text) ws

pub argument_all : (s : Bytes) → argument s (some (length s)) ≡ s
unfolding argument
argument_all s = take_all s

pub append_word_lem :
    (b : MessageBuffer) (str : Bytes) (quote : Bool) (len : Option ℕ)
    → append_word b str quote len ≡ append_word_string b (argument str len) quote
unfolding append_word_string
append_word_lem b str quote len = rw argument_all

-- The words of a line behind `base`.
pub append_word_first :
    (base : Bytes) (s : Bytes) (quote : Bool)
    → append_word_string (record { buffer = base; last_bol = length base }) s quote
      ≡ record { buffer = base ++ word_text quote s; last_bol = length base }
unfolding append_word_string
append_word_first base s quote = rw (argument_all, append_bytes_lem) (ground arith)

pub append_word_next :
    (b : MessageBuffer) (s : Bytes) (quote : Bool)
    → b.last_bol < length b.buffer
    → append_word_string b s quote ≡ push b (b' ' ∷ word_text quote s)
unfolding append_word_string
append_word_next b s quote h =
    let ne : (length b.buffer == b.last_bol) ≡ false = ground arith in
    rw (argument_all, append_bytes_lem, ne) (rw append_assoc)

scan_space :
    (result : List Bytes) (word tail : Bytes)
    → scan (line result (some word)) (b' ' ∷ tail) ≡ scan (line (result ++ word ∷ []) none) tail
unfolding scan
scan_space result word tail = refl

scan-finish :
    (result : List Bytes) (word : Bytes) (tail : Bytes)
    → scan (line result (some word)) (b'\n' ∷ tail) ≡ ended (result ++ word ∷ []) tail
unfolding scan
scan-finish result word tail = refl

scan-line_end :
    (last : Bool) (result : List Bytes) (word tail : Bytes)
    → scan (line result (some word)) (line_end last ++ tail) ≡ ended (result ++ word ∷ []) tail
unfolding scan
scan-line_end true result word tail = refl
scan-line_end false result word tail = refl

scan-spaced :
    (ws : List Word) (last : Bool) (result : List Bytes) (word tail : Bytes)
    → All (λ w. IsWord w.quote w.text) ws
    → scan (line result (some word)) (spaced ws ++ (line_end last ++ tail))
      ≡ ended (result ++ word ∷ texts ws) tail
scan-spaced [] last result word tail h = scan-line_end last result word tail
scan-spaced (w ∷ ws) last result word tail (h, hs) = rw append_assoc (
    scan_space result word _
    ∙ scan-word_text w.quote w.text _ _ h
    ∙ scan-spaced ws last (result ++ word ∷ []) w.text tail hs
    ∙ rw append_assoc)

pub scan-line_text :
    (ws : List Word) (last : Bool) (tail : Bytes)
    → IsLine ws
    → scan (line [] none) (line_text ws ++ (line_end last ++ tail)) ≡ ended (texts ws) tail
scan-line_text [] last tail (ne, h) = absurd (ne refl)
scan-line_text (w ∷ ws) last tail (ne, (h, hs)) =
    rw append_assoc (scan-word_text w.quote w.text _ [] h ∙ scan-spaced ws last [] w.text tail hs)

write_words-spaced :
    (ws : List Word) (b : MessageBuffer)
    → b.last_bol < length b.buffer
    → write_words b ws ≡ push b (spaced ws)
unfolding write_words
write_words-spaced [] b h = rw append-nil
write_words-spaced (w ∷ ws) b h =
    let text = b' ' ∷ word_text w.quote w.text in
    rw (append_word_next b w.text w.quote h) (
      write_words-spaced ws (push b text) (rw (length-append b.buffer text) (omega arith))
      ∙ rw append_assoc)

pub write_line-line_text :
    (ws : List Word) (b : MessageBuffer)
    → IsLine ws
    → write_line b ws ≡ record {
      buffer = continued b.buffer ++ line_text ws;
      last_bol = length (continued b.buffer);
    }
unfolding write_line write_words
write_line-line_text [] b (ne, h) = absurd (ne refl)
write_line-line_text (w ∷ ws) b (ne, (h, hs)) =
    let base = continued b.buffer in
    let start : MessageBuffer = record {
      buffer = base ++ word_text w.quote w.text;
      last_bol = length base;
    } in
    rw (append_word_first base w.text w.quote) (
      write_words-spaced ws start (
        rw (length-append base (word_text w.quote w.text))
          (omega (arith, word_text_pos w.quote w.text h)))
      ∙ rw append_assoc)

continued_ne : (s : Bytes) → s ≢ [] → continued s ≡ s ++ line_end false
continued_ne [] ne = absurd (ne refl)
continued_ne (c ∷ s) ne = refl

pub line_text_ne : (ws : List Word) → IsLine ws → line_text ws ≢ []
line_text_ne [] (ne, h) e = absurd (ne refl)
line_text_ne (w ∷ ws) (ne, (h, hs)) e = absurd (
    omega (
      arith,
      word_text_pos w.quote w.text h,
      length-append (word_text w.quote w.text) (spaced ws),
      ap length e,
    ))

write_lines-more_text :
    (ls : List (List Word)) (b : MessageBuffer)
    → b.buffer ≢ []
    → All IsLine ls
    → (write_lines b ls).buffer ++ b'\n' ∷ [] ≡ b.buffer ++ more_text ls
unfolding write_lines
write_lines-more_text [] b ne h = refl
write_lines-more_text (l ∷ ls) b ne (h, hs) =
    let e : (write_line b l).buffer ≡ b.buffer ++ line_end false ++ line_text l =
      rw (write_line-line_text l b h) (rw (continued_ne b.buffer ne)) in
    write_lines-more_text ls (write_line b l)
      (rw e (append-ne-nil (b.buffer ++ line_end false) _ (line_text_ne l h))) hs
    ∙ rw e (rw (append_assoc, append_assoc))

-- The bytes that a message of lines is sent as.
pub prepare-write_lines :
    (l : List Word) (ls : List (List Word))
    → All IsLine (l ∷ ls)
    → prepare_to_write (write_lines empty_buffer (l ∷ ls))
      ≡ record { buffer = line_text l ++ more_text ls; last_bol = 0 }
unfolding write_lines prepare_to_write
prepare-write_lines l ls (h, hs) =
    let e : (write_line empty_buffer l).buffer ≡ line_text l =
      rw (write_line-line_text l empty_buffer h) in
    let more =
      write_lines-more_text ls (write_line empty_buffer l) (rw e (line_text_ne l h)) hs ∙ rw e in
    λ i. record { buffer = more i; last_bol = 0 }
