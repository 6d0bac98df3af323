-- ===== src/Tests/Pieces.antt =====
-- A message of two lines that arrives in pieces.
use libcody.Prelude.{ℕ, List, [], ◌∷◌, some, ◌≡◌, refl, codes, map}
use libcody.Status.{success, eintr}
use libcody.Buffer.{empty_buffer, prepare_to_write}
use libcody.Buffer.Bare.{bare, quotable, are_bare-IsWord}
use libcody.Buffer.Message.{Word, texts, write_line, write_lines}
use libcody.Buffer.Append.{append_word_string}
use libcody.Buffer.RoundTrip.{decode}
use libcody.Buffer.Transfer.{ReadResult}
use libcody.Client.{read_loop}
use libcody.Client.Receiving.{Arrival, arrives, interrupted, answer, arrived}
use libcody.Session.Pieces.{message_arrives}
use libcody.Tests.{ascii}

abbrev line : List Word
line = bare (codes "OK") ∷ quotable (codes "a'b") ∷ []

abbrev last : List Word
last = bare (codes "OK") ∷ []

abbrev parts : List Arrival
parts =
    arrives 0 b'O' (codes "K 'a\\'")
    ∷ interrupted 300 eintr refl
    ∷ arrives 0 b'b' (codes "' ;\nO")
    ∷ arrives 0 b'K' (codes "\n")
    ∷ []

parts_lem : arrived parts ≡ (prepare_to_write (write_lines empty_buffer (line ∷ last ∷ []))).buffer
unfolding write_lines prepare_to_write write_line append_word_string
parts_lem = refl

message_arrives_example :
    (later : List (ℕ × (ℕ → ReadResult))) × (read_loop empty_buffer (map answer parts)
      ≡ some (record {
        status = success;
        buffer = prepare_to_write (write_lines empty_buffer (line ∷ last ∷ []));
        later = later;
      }))
    × (decode 3 (prepare_to_write (write_lines empty_buffer (line ∷ last ∷ [])))
        ≡ some (map texts (line ∷ last ∷ [])))
message_arrives_example =
    message_arrives line (last ∷ []) parts
      (
        (λ p. cc, (are_bare-IsWord (codes "OK") (λ p. cc) refl, (ascii (codes "a'b") refl, tt))),
        ((λ p. cc, (are_bare-IsWord (codes "OK") (λ p. cc) refl, tt)), tt),
      )
      parts_lem
