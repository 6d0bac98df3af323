-- ===== src/Client/Invoke.antt =====
-- The line of `InvokeSubProcess`, which writes its arguments with no quotes.
use libcody.Prelude.{
  ◌<◌, false, [], ◌∷◌, ◌++◌, none, ◌≡◌, ◌≢◌, refl, ap, ◌∙◌, sym, arith, Bytes, codes, All, length,
  c_string, length-append, append_assoc, ◌==◌,
}
use libcody.Buffer.{MessageBuffer, push, continued, begin_line}
use libcody.Buffer.Append.{argument, append_word}
use libcody.Buffer.Words.{word_text}
use libcody.Buffer.Message.{append_word_lem, append_word_first, append_word_next}
use libcody.Client.Requests.{write_arguments, write_invoke}

argument-append : (x y : Bytes) → All (λ c. c ≢ 0) x → argument (x ++ y) none ≡ x ++ argument y none
unfolding argument c_string
argument-append [] y h = refl
argument-append (c ∷ x) y (h, hs) =
    let other : (c == 0) ≡ false = ground arith in rw other (ap (◌∷◌ c) (argument-append x y hs))

argument_self : (x : Bytes) → All (λ c. c ≢ 0) x → argument x none ≡ x
unfolding argument c_string
argument_self [] h = refl
argument_self (c ∷ x) (h, hs) =
    let other : (c == 0) ≡ false = ground arith in rw other (ap (◌∷◌ c) (argument_self x hs))

argument_space : (y : Bytes) → argument (b' ' ∷ y) none ≡ b' ' ∷ argument y none
unfolding argument c_string
argument_space y = refl

-- A word with no quotes behind another word.
append_plain :
    (b : MessageBuffer) (s : Bytes)
    → b.last_bol < length b.buffer
    → append_word b s false none ≡ push b (b' ' ∷ argument s none)
unfolding word_text
append_plain b s h = append_word_lem b s false none ∙ append_word_next b (argument s none) false h

abbrev invoked : MessageBuffer → MessageBuffer
invoked b = append_word (begin_line b) (codes "INVOKE") false none

invoked_lem :
    (b : MessageBuffer)
    → invoked b ≡ record {
      buffer = continued b.buffer ++ codes "INVOKE";
      last_bol = length (continued b.buffer);
    }
unfolding begin_line argument word_text
invoked_lem b =
    append_word_lem (begin_line b) (codes "INVOKE") false none
    ∙ append_word_first (continued b.buffer) (codes "INVOKE") false

arguments_split :
    (b : MessageBuffer) (x y : Bytes)
    → All (λ c. c ≢ 0) x
    → b.last_bol < length b.buffer
    → write_arguments b ((x ++ b' ' ∷ y) ∷ []) ≡ write_arguments b (x ∷ y ∷ [])
unfolding write_arguments
arguments_split b x y h more =
    append_plain b (x ++ b' ' ∷ y) more
    ∙ rw (argument-append x (b' ' ∷ y) h, argument_space y)
        (sym (
          ap (λ t. append_word t y false none) (append_plain b x more)
          ∙ append_plain (push b (b' ' ∷ argument x none)) y
              (omega (arith, more, length-append b.buffer (b' ' ∷ argument x none)))
          ∙ rw (argument_self x h) (rw append_assoc)))

-- The line does not tell an argument with a space in it from two arguments, where no byte before the
-- space is a NUL.
pub write_invoke_splits :
    (b : MessageBuffer) (x y : Bytes)
    → All (λ c. c ≢ 0) x
    → write_invoke b ((x ++ b' ' ∷ y) ∷ []) ≡ write_invoke b (x ∷ y ∷ [])
unfolding write_invoke
write_invoke_splits b x y h =
    let e = invoked_lem b in
    arguments_split (invoked b) x y h (
      omega (
        arith,
        ap (λ m. m.last_bol) e,
        ap (λ m. length m.buffer) e,
        length-append (continued b.buffer) (codes "INVOKE"),
      ))
