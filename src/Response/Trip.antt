-- ===== src/Response/Trip.antt =====
-- What the client makes of the responses of the server: the line that a response function writes is
-- read as the words of which the response table makes the packet.
use libcody.Prelude.{
  ℕ, Bool, true, false, List, [], ◌∷◌, Option, some, ◌≡◌, refl, Bytes, codes, All, if◌then◌else◌,
}
use libcody.Number.{to_string}
use libcody.Buffer.{MessageBuffer, empty_buffer, prepare_to_write}
use libcody.Buffer.Append.{argument}
use libcody.Buffer.Words.{IsAscii}
use libcody.Buffer.Bare.{bare, quotable, are_bare-IsWord, to_string-IsWord}
use libcody.Buffer.Message.{Word, texts, IsLine, write_line}
use libcody.Buffer.RoundTrip.{decode, decode-write_line}
use libcody.Packet.{
  packet, pc_connect, pc_bool, pc_pathname, integer, string, connect, module_repo, module_export,
  module_import, include_translate,
}
use libcody.Server.{Server, version, connect_response, pathname_response, bool_response}
use libcody.Server.Responses.{connect_response-write, pathname_response-write, bool_response-write}
use libcody.Response.{response}

-- The words of a message of one line.
abbrev pub Says : MessageBuffer → List Bytes → Type 0
Says b words = decode 2 (prepare_to_write b) ≡ some (words ∷ [])

module _ {R : Type 0} (s : Server R) (new : s.write ≡ empty_buffer) where
  pub Says-line : (l : List Word) → IsLine l → Says (write_line s.write l) (texts l)
  Says-line l h = rw new (decode-write_line l h)

  -- A path that the server answers to a request, in ASCII and on a fresh message, is the path of the
  -- packet of the client, for each request that is answered by a path.
  pub pathname_response-response :
      (cmi : Bytes) (len : Option ℕ)
      → All IsAscii (argument cmi len)
      → (words : List Bytes) × Says (pathname_response s cmi len).write words
        × (response module_repo words ≡ packet pc_pathname (string (argument cmi len)))
        × (response module_export words ≡ packet pc_pathname (string (argument cmi len)))
        × (response module_import words ≡ packet pc_pathname (string (argument cmi len)))
        × (response include_translate words ≡ packet pc_pathname (string (argument cmi len)))
  unfolding response
  pathname_response-response cmi len h =
      let line = bare (codes "PATHNAME") ∷ quotable (argument cmi len) ∷ [] in
      (
        texts line,
        rw (pathname_response-write s cmi len) (
            Says-line line (λ p. cc, (are_bare-IsWord (codes "PATHNAME") (λ p. cc) refl, (h, tt)))),
        refl,
        refl,
        refl,
        refl,
      )

  -- The truth value of the server, on a fresh message, is that of the packet of the client.
  bool_response-response :
      (b : Bool)
      → (words : List Bytes) × Says (bool_response s b).write words
        × (response include_translate words ≡ packet pc_bool (integer (if b then 1 else 0)))
  unfolding response
  bool_response-response true =
      let line = bare (codes "BOOL") ∷ bare (codes "TRUE") ∷ [] in
      (
        texts line,
        rw (bool_response-write s true) (
            Says-line line (
              λ p. cc,
              (
                are_bare-IsWord (codes "BOOL") (λ p. cc) refl,
                (are_bare-IsWord (codes "TRUE") (λ p. cc) refl, tt),
              ),
            )),
        refl,
      )
  bool_response-response false =
      let line = bare (codes "BOOL") ∷ bare (codes "FALSE") ∷ [] in
      (
        texts line,
        rw (bool_response-write s false) (
            Says-line line (
              λ p. cc,
              (
                are_bare-IsWord (codes "BOOL") (λ p. cc) refl,
                (are_bare-IsWord (codes "FALSE") (λ p. cc) refl, tt),
              ),
            )),
        refl,
      )

  -- The handshake of the server, with an agent in ASCII and on a fresh message, is taken by the client
  -- as a connection with no flags.
  connect_response-response :
      (agent : Bytes) (len : Option ℕ)
      → All IsAscii (argument agent len)
      → (words : List Bytes) × Says (connect_response s agent len).write words
        × (response connect words ≡ packet pc_connect (integer 0))
  unfolding response to_string
  connect_response-response agent len h =
      let line =
        bare (codes "HELLO") ∷ bare (to_string version) ∷ quotable (argument agent len) ∷ [] in
      (
        texts line,
        rw (connect_response-write s agent len) (
            Says-line line (
              λ p. cc,
              (are_bare-IsWord (codes "HELLO") (λ p. cc) refl, (to_string-IsWord version, (h, tt))),
            )),
        refl,
      )
