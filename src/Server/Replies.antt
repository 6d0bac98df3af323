-- ===== src/Server/Replies.antt =====
-- The responses that README.md allows for each request, as lines of words.
use libcody.Prelude.{
  ℕ, Bool, true, false, List, [], ◌∷◌, Option, none, some, ◌≡◌, refl, Bytes, codes, if◌then◌else◌,
  All,
}
use libcody.Status.{Status, success}
use libcody.Number.{to_string}
use libcody.Buffer.Bare.{bare, quotable, to_string-IsWord, are_bare-IsWord}
use libcody.Buffer.Message.{Word, line_text}
use libcody.Buffer.Newlines.{NoNewline, IsOneWord, words_text-NoNewline}
use libcody.Packet.{
  RequestCode, connect, module_repo, module_export, module_import, module_compiled,
  include_translate, invoke,
}
use libcody.Server.Process.{find_request}

pub data Kind : Type 0 where
  says_error says_hello says_pathname says_bool says_ok : Kind

-- The words of a response, by its kind.
pub data IsReply : Kind → List Word → Type 0 where
  error_reply :
      (message : Bytes) → IsReply says_error (bare (codes "ERROR") ∷ quotable message ∷ [])
  hello_reply :
      (version : ℕ) (agent : Bytes)
      → IsReply says_hello (bare (codes "HELLO") ∷ bare (to_string version) ∷ quotable agent ∷ [])
  pathname_reply :
      (path : Bytes) → IsReply says_pathname (bare (codes "PATHNAME") ∷ quotable path ∷ [])
  bool_reply :
      (value : Bool)
      → IsReply says_bool
          (bare (codes "BOOL") ∷ bare (if value then codes "TRUE" else codes "FALSE") ∷ [])
  ok_reply : IsReply says_ok (bare (codes "OK") ∷ [])

-- The section "Responses" and the sections of the requests; an error answers anything.
abbrev pub answers_to : Option RequestCode → Kind → Bool
answers_to request says_error = true
answers_to (some connect) says_hello = true
answers_to (some module_repo) says_pathname = true
answers_to (some module_export) says_pathname = true
answers_to (some module_import) says_pathname = true
answers_to (some module_compiled) says_ok = true
answers_to (some include_translate) says_pathname = true
answers_to (some include_translate) says_bool = true
answers_to (some invoke) says_ok = true
answers_to request kind = false

-- The request that may be served: `HELLO` only before the handshake, the others only behind it.
abbrev pub permitted : Bool → Option RequestCode → Option RequestCode
permitted connected none = none
permitted connected (some connect) = if connected then none else some connect
permitted connected (some code) = if connected then some code else none

-- The request that a line of words makes of a server, if it makes one that may be served.
abbrev pub asked : Bool → Status → List Bytes → Option RequestCode
asked connected success (word ∷ words) = permitted connected (find_request word)
asked connected status words = none

-- What may be said to no request may be said to any.
pub answers_none :
    (request : Option RequestCode) (kind : Kind)
    → answers_to none kind ≡ true
    → answers_to request kind ≡ true
answers_none request says_error h = refl
answers_none request says_hello h = absurd (cc)
answers_none request says_pathname h = absurd (cc)
answers_none request says_bool h = absurd (cc)
answers_none request says_ok h = absurd (cc)

IsReply-one : {kind : Kind} {words : List Word} → IsReply kind words → All IsOneWord words
IsReply-one (error_reply message) = (are_bare-IsWord (codes "ERROR") (λ p. cc) refl, (tt, tt))
IsReply-one (hello_reply version agent) =
    (are_bare-IsWord (codes "HELLO") (λ p. cc) refl, (to_string-IsWord version, (tt, tt)))
IsReply-one (pathname_reply path) = (are_bare-IsWord (codes "PATHNAME") (λ p. cc) refl, (tt, tt))
IsReply-one (bool_reply true) = (
  are_bare-IsWord (codes "BOOL") (λ p. cc) refl,
  (are_bare-IsWord (codes "TRUE") (λ p. cc) refl, tt),
)
IsReply-one (bool_reply false) = (
  are_bare-IsWord (codes "BOOL") (λ p. cc) refl,
  (are_bare-IsWord (codes "FALSE") (λ p. cc) refl, tt),
)
IsReply-one ok_reply = (are_bare-IsWord (codes "OK") (λ p. cc) refl, tt)

-- A response is one line of text.
pub IsReply-NoNewline :
    {kind : Kind} {words : List Word} → IsReply kind words → NoNewline (line_text words)
IsReply-NoNewline {words = words} r = words_text-NoNewline words (IsReply-one r)
