-- ===== src/Server/Responses.antt =====
-- The line that each response call writes.
use libcody.Prelude.{
  ℕ, Bool, true, false, [], ◌∷◌, Option, ◌≡◌, refl, Bytes, codes, take_all, if◌then◌else◌,
}
use libcody.Number.{to_string}
use libcody.Buffer.Append.{argument, append_word_string}
use libcody.Buffer.Bare.{bare, quotable}
use libcody.Buffer.Message.{write_words, write_line}
use libcody.Server.{
  Server, version, error_response, ok_response, connect_response, pathname_response, bool_response,
}

module _ {R : Type 0} (s : Server R) where
  pub error_response-write :
      (error : Bytes) (elen : Option ℕ)
      → error_response s error elen ≡ record s {
        write = write_line s.write (bare (codes "ERROR") ∷ quotable (argument error elen) ∷ []);
      }
  unfolding error_response write_line write_words append_word_string
  error_response-write error elen = rw take_all

  pub ok_response-write :
      ok_response s ≡ record s { write = write_line s.write (bare (codes "OK") ∷ []) }
  unfolding ok_response write_line write_words append_word_string
  ok_response-write = refl

  pub connect_response-write :
      (agent : Bytes) (alen : Option ℕ)
      → connect_response s agent alen ≡ record s {
        is_connected = true;
        write =
            write_line s.write (
              bare (codes "HELLO")
              ∷ bare (to_string version)
              ∷ quotable (argument agent alen)
              ∷ []);
      }
  unfolding connect_response write_line write_words append_word_string
  connect_response-write agent alen = rw take_all

  pub pathname_response-write :
      (cmi : Bytes) (clen : Option ℕ)
      → pathname_response s cmi clen ≡ record s {
        write = write_line s.write (bare (codes "PATHNAME") ∷ quotable (argument cmi clen) ∷ []);
      }
  unfolding pathname_response write_line write_words append_word_string
  pathname_response-write cmi clen = rw take_all

  pub bool_response-write :
      (b : Bool)
      → bool_response s b ≡ record s {
        write =
            write_line s.write
              (bare (codes "BOOL") ∷ bare (if b then codes "TRUE" else codes "FALSE") ∷ []);
      }
  unfolding bool_response write_line write_words append_word_string
  bool_response-write true = refl
  bool_response-write false = refl
