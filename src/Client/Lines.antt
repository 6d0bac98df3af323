-- ===== src/Client/Lines.antt =====
-- The line that each request call writes, as a line of words.
use libcody.Prelude.{
  ℕ, List, [], ◌∷◌, Option, none, ◌≡◌, Bytes, codes, ◌==◌, if◌then◌else◌, take_all, Bool-cases, inl,
  inr, refl, ap, map, false,
}
use libcody.Number.{to_string}
use libcody.Buffer.{MessageBuffer, begin_line, end_line}
use libcody.Buffer.Append.{argument, append_word_string, append_integer}
use libcody.Buffer.Bare.{bare, quotable}
use libcody.Buffer.Message.{Word, write_words, write_line, append_word_lem}
use libcody.Server.{version}
use libcody.Client.Requests.{write_connect, write_flagged, write_arguments, write_invoke}

-- The flags of a request are a word unless they are 0.
abbrev pub flag_words : ℕ → List Word
flag_words flags = if flags == 0 then [] else bare (to_string flags) ∷ []

pub write_connect-write :
    (b : MessageBuffer) (agent ident : Bytes) (alen ilen : Option ℕ)
    → write_connect b agent ident alen ilen
      ≡ write_line b (
          bare (codes "HELLO")
          ∷ bare (to_string version)
          ∷ quotable (argument agent alen)
          ∷ quotable (argument ident ilen)
          ∷ [])
unfolding write_connect write_line write_words append_integer append_word_string
write_connect-write b agent ident alen ilen =
    rw (take_all (argument agent alen), take_all (argument ident ilen))

pub write_flagged-write :
    (word : Bytes) (b : MessageBuffer) (name : Bytes) (flags : ℕ) (len : Option ℕ)
    → write_flagged word b name flags len
      ≡ write_line b (bare (argument word none) ∷ quotable (argument name len) ∷ flag_words flags)
unfolding write_flagged write_line write_words append_integer append_word_string
write_flagged-write word b name flags len = elim (Bool-cases (flags == 0)) [
  | inl e ↦ rw (e, take_all (argument word none), take_all (argument name len))
  | inr e ↦ rw (e, take_all (argument word none), take_all (argument name len))
]

-- The arguments of `InvokeSubProcess`, each up to its NUL.
abbrev pub argument_words : List Bytes → List Word
argument_words = map (λ arg. bare (argument arg none))

write_arguments-write :
    (args : List Bytes) (b : MessageBuffer)
    → write_arguments b args ≡ write_words b (argument_words args)
unfolding write_arguments write_words
write_arguments-write [] b = refl
write_arguments-write (arg ∷ args) b =
    rw (append_word_lem b arg false none)
      (write_arguments-write args (append_word_string b (argument arg none) false))

invoke_word : argument (codes "INVOKE") none ≡ codes "INVOKE"
unfolding argument
invoke_word = refl

pub write_invoke-write :
    (args : List Bytes) (b : MessageBuffer)
    → write_invoke b args ≡ write_line b (bare (codes "INVOKE") ∷ argument_words args)
unfolding write_invoke write_line write_words
write_invoke-write args b =
    rw (append_word_lem (begin_line b) (codes "INVOKE") false none, invoke_word)
      (ap end_line
        (write_arguments-write args (append_word_string (begin_line b) (codes "INVOKE") false)))
