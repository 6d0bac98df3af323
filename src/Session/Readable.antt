-- ===== src/Session/Readable.antt =====
-- The lines of the requests and of the answers of a session can be read back.
use libcody.Prelude.{
  List, ltb, ◌&&◌, arith, Bool, ℕ, true, false, [], ◌∷◌, ◌≡◌, refl, Bytes, codes, All,
}
use libcody.Buffer.Words.{IsAscii, IsWord}
use libcody.Buffer.Bare.{are_bare-IsWord, to_string-IsWord}
use libcody.Buffer.Message.{IsLine}
use libcody.Server.{version}
use libcody.Resolver.{repo_dir}
use libcody.Client.Lines.{argument_words}
use libcody.Client.RequestTrip.{flag_words-IsWord}
use libcody.Session.Ascii.{get_cmi_name-IsAscii}
use libcody.Session.Steps.{cmi, named_line, path_line, repo_line, translation, unimplemented_line}
use libcody.Session.Greeting.{hello_line, welcome_line}
use libcody.Session.{
  Call, greets, asks_repo, exports, imports, compiles, translates, invokes, IsCall, IsArgument,
}
use libcody.Session.Written.{call_line, answer_line}

path_line-IsLine : (path : Bytes) → All IsAscii path → IsLine (path_line path)
path_line-IsLine path h = (λ p. cc, (are_bare-IsWord (codes "PATHNAME") (λ p. cc) refl, (h, tt)))

repo_line-IsLine : IsLine repo_line
repo_line-IsLine = (λ p. cc, (are_bare-IsWord (codes "MODULE-REPO") (λ p. cc) refl, tt))

abbrev are_below : Bytes → Bool
are_below [] = true
are_below (c ∷ s) = ltb c 0x80 && are_below s

pub are_below-IsAscii : (s : Bytes) → are_below s ≡ true → All IsAscii s
are_below-IsAscii [] h = tt
are_below-IsAscii (c ∷ s) h = (ground arith, are_below-IsAscii s (ground arith))

repo_dir-IsLine : IsLine (path_line repo_dir)
repo_dir-IsLine = path_line-IsLine repo_dir (are_below-IsAscii repo_dir refl)

hello_line-IsLine :
    (agent ident : Bytes) → All IsAscii agent → All IsAscii ident → IsLine (hello_line agent ident)
hello_line-IsLine agent ident h k = (
  λ p. cc,
  (are_bare-IsWord (codes "HELLO") (λ p. cc) refl, (to_string-IsWord version, (h, (k, tt)))),
)

welcome_line-IsLine : IsLine welcome_line
welcome_line-IsLine = (
  λ p. cc,
  (
    are_bare-IsWord (codes "HELLO") (λ p. cc) refl,
    (to_string-IsWord version, (are_below-IsAscii (codes "default") refl, tt)),
  ),
)

translation-IsLine : (name : Bytes) (b : Bool) → All IsAscii name → IsLine (translation name b)
translation-IsLine name true h = path_line-IsLine (cmi name) (get_cmi_name-IsAscii name h)
translation-IsLine name false h = (
  λ p. cc,
  (
    are_bare-IsWord (codes "BOOL") (λ p. cc) refl,
    (are_bare-IsWord (codes "FALSE") (λ p. cc) refl, tt),
  ),
)

-- The word of a request is bare, and its name may be quoted.
named_line-IsLine :
    (word name : Bytes) (flags : ℕ)
    → IsWord false word
    → All IsAscii name
    → IsLine (named_line word name flags)
named_line-IsLine word name flags k h = (λ p. cc, (k, (h, flag_words-IsWord flags)))

arguments-IsWord :
    (args : List Bytes)
    → All IsArgument args
    → All (λ w. IsWord w.quote w.text) (argument_words args)
arguments-IsWord [] h = tt
arguments-IsWord (arg ∷ args) (h, hs) = (h, arguments-IsWord args hs)

unimplemented_line-IsLine : IsLine unimplemented_line
unimplemented_line-IsLine = (
  λ p. cc,
  (
    are_bare-IsWord (codes "ERROR") (λ p. cc) refl,
    (are_below-IsAscii (codes "unimplemented") refl, tt),
  ),
)

-- Both lines of a call can be read back.
pub call-IsLine : (call : Call) → IsCall call → IsLine (call_line call)
call-IsLine (greets agent ident) (h, k) = hello_line-IsLine agent ident h k
call-IsLine asks_repo h = repo_line-IsLine
call-IsLine (exports name flags) (h, ne, few) =
    named_line-IsLine (codes "MODULE-EXPORT") name flags
      (are_bare-IsWord (codes "MODULE-EXPORT") (λ p. cc) refl) h
call-IsLine (imports name flags) (h, ne, few) =
    named_line-IsLine (codes "MODULE-IMPORT") name flags
      (are_bare-IsWord (codes "MODULE-IMPORT") (λ p. cc) refl) h
call-IsLine (compiles name flags) (h, ne, few) =
    named_line-IsLine (codes "MODULE-COMPILED") name flags
      (are_bare-IsWord (codes "MODULE-COMPILED") (λ p. cc) refl) h
call-IsLine (translates name flags) (h, ne, few) =
    named_line-IsLine (codes "INCLUDE-TRANSLATE") name flags
      (are_bare-IsWord (codes "INCLUDE-TRANSLATE") (λ p. cc) refl) h
call-IsLine (invokes arg args) (h, hs) =
    (λ p. cc, (are_bare-IsWord (codes "INVOKE") (λ p. cc) refl, (h, arguments-IsWord args hs)))

pub answer-IsLine :
    (is_regular : Bytes → Bool) (call : Call) → IsCall call → IsLine (answer_line is_regular call)
answer-IsLine is_regular (greets agent ident) h = welcome_line-IsLine
answer-IsLine is_regular asks_repo h = repo_dir-IsLine
answer-IsLine is_regular (exports name flags) (h, ne, few) =
    path_line-IsLine (cmi name) (get_cmi_name-IsAscii name h)
answer-IsLine is_regular (imports name flags) (h, ne, few) =
    path_line-IsLine (cmi name) (get_cmi_name-IsAscii name h)
answer-IsLine is_regular (compiles name flags) h =
    (λ p. cc, (are_bare-IsWord (codes "OK") (λ p. cc) refl, tt))
answer-IsLine is_regular (translates name flags) (h, ne, few) =
    translation-IsLine name (is_regular (cmi name)) h
answer-IsLine is_regular (invokes arg args) h = unimplemented_line-IsLine
