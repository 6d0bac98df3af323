-- ===== src/Client/ErrorTrip.antt =====
-- What the client makes of an error response of the server.
use libcody.Prelude.{ℕ, Bool, List, [], ◌∷◌, Option, some, ◌≡◌, refl, Bytes, codes, All}
use libcody.Status.{success}
use libcody.Buffer.{empty_buffer}
use libcody.Buffer.Append.{argument}
use libcody.Buffer.Words.{IsAscii}
use libcody.Buffer.Bare.{bare, quotable, are_bare-IsWord}
use libcody.Buffer.Message.{texts}
use libcody.Packet.{RequestCode}
use libcody.Server.{Server, error_response}
use libcody.Server.Responses.{error_response-write}
use libcody.Response.{error_packet}
use libcody.Response.Trip.{Says, Says-line}
use libcody.Client.{Client, process_words}

-- An error that the server answers on a fresh message, in ASCII, is the error packet of the client,
-- with the same text, whatever request it answers.
pub error_response-process_words :
    {R : Type 0} (s : Server R) (error : Bytes) (len : Option ℕ) (c : Client)
    (code : Option RequestCode) (is_last : Bool)
    → s.write ≡ empty_buffer
    → All IsAscii (argument error len)
    → (words : List Bytes) × Says (error_response s error len).write words
      × (process_words c success words code is_last ≡ some (error_packet (argument error len), c))
unfolding process_words
error_response-process_words s error len c code is_last new h =
    let line = bare (codes "ERROR") ∷ quotable (argument error len) ∷ [] in
    (
      texts line,
      rw (error_response-write s error len) (
          Says-line s new line
            (λ p. cc, (are_bare-IsWord (codes "ERROR") (λ p. cc) refl, (h, tt)))),
      refl,
    )
