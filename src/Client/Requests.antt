-- ===== src/Client/Requests.antt =====
-- The request calls of client.cc: each writes one line, and then asks for the response.
use libcody.Prelude.{
  ℕ, true, false, List, [], ◌∷◌, Option, none, some, Bytes, codes, length, ◌==◌, if◌then◌else◌,
}
use libcody.Status.{Status}
use libcody.Buffer.{MessageBuffer, begin_line, end_line}
use libcody.Buffer.Append.{append_word, append_integer}
use libcody.Packet.{
  RequestCode, connect, module_repo, module_export, module_import, module_compiled,
  include_translate, invoke, Packet,
}
use libcody.Server.{Resolvers, version}
use libcody.Client.{Client, World, Called, maybe_request}

-- `HELLO`, the version, the agent and the identification.
unfoldable pub write_connect : MessageBuffer → Bytes → Bytes → Option ℕ → Option ℕ → MessageBuffer
unfolding begin_line append_word append_integer end_line
write_connect b agent ident alen ilen =
    let hello = append_word (begin_line b) (codes "HELLO") false none in
    let numbered = append_integer hello version in
    end_line (append_word (append_word numbered agent true alen) ident true ilen)

unfoldable pub write_module_repo : MessageBuffer → MessageBuffer
unfolding begin_line append_word end_line
write_module_repo b = end_line (append_word (begin_line b) (codes "MODULE-REPO") false none)

-- The line that four requests share: the word of the request, a name, and flags unless they are 0.
unfoldable pub write_flagged : Bytes → MessageBuffer → Bytes → ℕ → Option ℕ → MessageBuffer
unfolding begin_line append_word append_integer end_line
write_flagged word b name flags len =
    let named = append_word (append_word (begin_line b) word false none) name true len in
    end_line (if flags == 0 then named else append_integer named flags)

-- The loop over the arguments, each with no quotes.
unfoldable pub write_arguments : MessageBuffer → List Bytes → MessageBuffer
unfolding append_word
write_arguments b [] = b
write_arguments b (arg ∷ args) = write_arguments (append_word b arg false none) args

unfoldable pub write_invoke : MessageBuffer → List Bytes → MessageBuffer
unfolding begin_line append_word write_arguments end_line
write_invoke b args =
    end_line (write_arguments (append_word (begin_line b) (codes "INVOKE") false none) args)

module _ {R : Type 0} (cls : Resolvers R) (strerror : Status → Bytes) where
  abbrev request :
      RequestCode → (MessageBuffer → MessageBuffer) → Client → World R → Option (Called R Packet)
  unfolding maybe_request
  request code line c w = maybe_request cls strerror code (record c { write = line c.write }) w

  unfoldable pub connect_call :
      Client → Bytes → Bytes → Option ℕ → Option ℕ → World R → Option (Called R Packet)
  unfolding write_connect request
  connect_call c agent ident alen ilen w =
      request connect (λ b. write_connect b agent ident alen ilen) c w

  unfoldable pub module_repo_call : Client → World R → Option (Called R Packet)
  unfolding write_module_repo request
  module_repo_call c w = request module_repo write_module_repo c w

  unfoldable pub invoke_call : Client → List Bytes → World R → Option (Called R Packet)
  unfolding write_invoke request
  invoke_call c args w = request invoke (λ b. write_invoke b args) c w

  unfoldable pub module_export_call :
      Client → Bytes → ℕ → Option ℕ → World R → Option (Called R Packet)
  unfolding write_flagged request
  module_export_call c name flags len w =
      request module_export (λ b. write_flagged (codes "MODULE-EXPORT") b name flags len) c w

  unfoldable pub module_import_call :
      Client → Bytes → ℕ → Option ℕ → World R → Option (Called R Packet)
  unfolding write_flagged request
  module_import_call c name flags len w =
      request module_import (λ b. write_flagged (codes "MODULE-IMPORT") b name flags len) c w

  unfoldable pub module_compiled_call :
      Client → Bytes → ℕ → Option ℕ → World R → Option (Called R Packet)
  unfolding write_flagged request
  module_compiled_call c name flags len w =
      request module_compiled (λ b. write_flagged (codes "MODULE-COMPILED") b name flags len) c w

  unfoldable pub include_translate_call :
      Client → Bytes → ℕ → Option ℕ → World R → Option (Called R Packet)
  unfolding write_flagged request
  include_translate_call c name flags len w =
      request include_translate (λ b. write_flagged (codes "INCLUDE-TRANSLATE") b name flags len) c
        w

  -- The overloads for a `std::string`, which pass its size.
  unfoldable pub connect_string : Client → Bytes → Bytes → World R → Option (Called R Packet)
  unfolding connect_call
  connect_string c agent ident w =
      connect_call c agent ident (some (length agent)) (some (length ident)) w

  unfoldable pub module_export_string : Client → Bytes → ℕ → World R → Option (Called R Packet)
  unfolding module_export_call
  module_export_string c s flags w = module_export_call c s flags (some (length s)) w

  unfoldable pub module_import_string : Client → Bytes → ℕ → World R → Option (Called R Packet)
  unfolding module_import_call
  module_import_string c s flags w = module_import_call c s flags (some (length s)) w

  unfoldable pub module_compiled_string : Client → Bytes → ℕ → World R → Option (Called R Packet)
  unfolding module_compiled_call
  module_compiled_string c s flags w = module_compiled_call c s flags (some (length s)) w

  unfoldable pub include_translate_string : Client → Bytes → ℕ → World R → Option (Called R Packet)
  unfolding include_translate_call
  include_translate_string c s flags w = include_translate_call c s flags (some (length s)) w

  -- The overloads for a `char const *` alone, with `Flags::None` and no length.
  unfoldable module_export_chars : Client → Bytes → World R → Option (Called R Packet)
  unfolding module_export_call
  module_export_chars c str w = module_export_call c str 0 none w

  unfoldable module_import_chars : Client → Bytes → World R → Option (Called R Packet)
  unfolding module_import_call
  module_import_chars c str w = module_import_call c str 0 none w

  unfoldable module_compiled_chars : Client → Bytes → World R → Option (Called R Packet)
  unfolding module_compiled_call
  module_compiled_chars c str w = module_compiled_call c str 0 none w

  unfoldable include_translate_chars : Client → Bytes → World R → Option (Called R Packet)
  unfolding include_translate_call
  include_translate_chars c str w = include_translate_call c str 0 none w

  -- The overload for a `std::vector`, which passes its data and its size.
  unfoldable invoke_vector : Client → List Bytes → World R → Option (Called R Packet)
  unfolding invoke_call
  invoke_vector c args w = invoke_call c args w
