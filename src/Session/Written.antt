-- ===== src/Session/Written.antt =====
-- The lines of the requests and of the answers of a session, and what a call writes.
use libcody.Prelude.{List, ap, Bool, ℕ, [], ◌∷◌, none, some, ◌≡◌, refl, ◌∙◌, Bytes, codes, length}
use libcody.Buffer.{MessageBuffer}
use libcody.Buffer.Bare.{bare, quotable}
use libcody.Buffer.Message.{Word, write_line}
use libcody.Packet.{RequestCode}
use libcody.Server.{version}
use libcody.Buffer.Append.{argument}
use libcody.Buffer.Message.{argument_all}
use libcody.Resolver.{repo_dir}
use libcody.Number.{to_string}
use libcody.Client.Lines.{
  argument_words, write_invoke-write, flag_words, write_connect-write, write_flagged-write,
}
use libcody.Client.Requests.{write_module_repo, write_flagged}
use libcody.Session.Steps.{cmi, named_line, path_line, repo_line, translation, unimplemented_line}
use libcody.Session.Greeting.{welcome_line}
use libcody.Buffer.Append.{append_word_string}
use libcody.Buffer.Message.{write_words}
use libcody.Packet.{
  RequestCode, connect, module_repo, module_export, module_import, module_compiled,
  include_translate, invoke,
}
use libcody.Session.{
  Call, greets, asks_repo, exports, imports, compiles, translates, invokes, run_call,
}
use libcody.Client.{Client, World, maybe_request}
use libcody.Server.{Resolvers}
use libcody.Status.{Status}
use libcody.Server.Process.{find_request}

abbrev pub call_code : Call → RequestCode
call_code (greets agent ident) = connect
call_code asks_repo = module_repo
call_code (exports name flags) = module_export
call_code (imports name flags) = module_import
call_code (compiles name flags) = module_compiled
call_code (translates name flags) = include_translate
call_code (invokes arg args) = invoke

abbrev pub call_word : Call → Bytes
call_word (greets agent ident) = codes "HELLO"
call_word asks_repo = codes "MODULE-REPO"
call_word (exports name flags) = codes "MODULE-EXPORT"
call_word (imports name flags) = codes "MODULE-IMPORT"
call_word (compiles name flags) = codes "MODULE-COMPILED"
call_word (translates name flags) = codes "INCLUDE-TRANSLATE"
call_word (invokes arg args) = codes "INVOKE"

abbrev pub call_words : Call → List Word
call_words (greets agent ident) = bare (to_string version) ∷ quotable agent ∷ quotable ident ∷ []
call_words asks_repo = []
call_words (exports name flags) = quotable name ∷ flag_words flags
call_words (imports name flags) = quotable name ∷ flag_words flags
call_words (compiles name flags) = quotable name ∷ flag_words flags
call_words (translates name flags) = quotable name ∷ flag_words flags
call_words (invokes arg args) = argument_words (arg ∷ args)

abbrev pub call_line : Call → List Word
call_line call = bare (call_word call) ∷ call_words call

abbrev pub answer_line : (Bytes → Bool) → Call → List Word
answer_line is_regular (greets agent ident) = welcome_line
answer_line is_regular asks_repo = path_line repo_dir
answer_line is_regular (exports name flags) = path_line (cmi name)
answer_line is_regular (imports name flags) = path_line (cmi name)
answer_line is_regular (compiles name flags) = bare (codes "OK") ∷ []
answer_line is_regular (translates name flags) = translation name (is_regular (cmi name))
answer_line is_regular (invokes arg args) = unimplemented_line

named_write :
    (word : Bytes) (b : MessageBuffer) (name : Bytes) (flags : ℕ)
    → argument word none ≡ word
    → write_flagged word b name flags (some (length name))
      ≡ write_line b (named_line word name flags)
named_write word b name flags e =
    write_flagged-write word b name flags (some (length name)) ∙ rw (e, argument_all name) refl

repo_write : (b : MessageBuffer) → write_module_repo b ≡ write_line b repo_line
unfolding write_module_repo write_line write_words append_word_string
repo_write b = refl

-- A call asks for the response of its code, with its line written.
pub run_call-line :
    {R : Type 0} (cls : Resolvers R) (strerror : Status → Bytes) (call : Call) (c : Client)
    (w : World R)
    → run_call cls strerror call c w
      ≡ maybe_request cls strerror
          (call_code call)
          (record c { write = write_line c.write (call_line call) })
          w
unfolding run_call
run_call-line cls strerror (greets agent ident) c w =
    ap (λ b. maybe_request cls strerror connect (record c { write = b }) w)
      (write_connect-write c.write agent ident (some (length agent)) (some (length ident))
        ∙ rw (argument_all agent, argument_all ident) refl)
run_call-line cls strerror asks_repo c w =
    ap (λ b. maybe_request cls strerror module_repo (record c { write = b }) w) (repo_write c.write)
run_call-line cls strerror (exports name flags) c w =
    ap (λ b. maybe_request cls strerror module_export (record c { write = b }) w)
      (named_write (codes "MODULE-EXPORT") c.write name flags (unfold argument in refl))
run_call-line cls strerror (imports name flags) c w =
    ap (λ b. maybe_request cls strerror module_import (record c { write = b }) w)
      (named_write (codes "MODULE-IMPORT") c.write name flags (unfold argument in refl))
run_call-line cls strerror (compiles name flags) c w =
    ap (λ b. maybe_request cls strerror module_compiled (record c { write = b }) w)
      (named_write (codes "MODULE-COMPILED") c.write name flags (unfold argument in refl))
run_call-line cls strerror (translates name flags) c w =
    ap (λ b. maybe_request cls strerror include_translate (record c { write = b }) w)
      (named_write (codes "INCLUDE-TRANSLATE") c.write name flags (unfold argument in refl))
run_call-line cls strerror (invokes arg args) c w =
    ap (λ b. maybe_request cls strerror invoke (record c { write = b }) w)
      (write_invoke-write (arg ∷ args) c.write)

pub find_request-call : (call : Call) → find_request (call_word call) ≡ some (call_code call)
unfolding find_request
find_request-call (greets agent ident) = refl
find_request-call asks_repo = refl
find_request-call (exports name flags) = refl
find_request-call (imports name flags) = refl
find_request-call (compiles name flags) = refl
find_request-call (translates name flags) = refl
find_request-call (invokes arg args) = refl
