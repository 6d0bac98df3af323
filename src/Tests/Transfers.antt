-- ===== src/Tests/Transfers.antt =====
-- The loops over `Read` and `Write` at concrete inputs.
use libcody.Prelude.{
  ℕ, ◌≢◌, true, List, [], ◌∷◌, none, some, ◌≡◌, refl, ◌<◌, ◌≤◌, arith, Bytes, codes, map, length,
}
use libcody.Status.{success, eintr}
use libcody.Buffer.{MessageBuffer, empty_buffer}
use libcody.Buffer.Transfer.{WriteResult, wrote, ReadResult, unsent}
use libcody.Buffer.Reading.{is_whole}
use libcody.Client.{Sent, read_loop, write_loop}
use libcody.Client.Receiving.{
  Arrival, arrives, interrupted, answer, arrived, Receives, read_loop-arrived, read_loop-is_whole,
}
use libcody.Client.Sending.{IsWrite, Takes, delivered, write_loop-delivered}
use libcody.Client.Message.{write_loop-success}

abbrev pieces : List Arrival
pieces =
    arrives 0 b'O' (codes "K ;") ∷ interrupted 300 eintr refl ∷ arrives 0 b'\n' (codes "OK\n") ∷ []

read_loop-arrived_example : Receives empty_buffer (arrived pieces) (map answer pieces)
read_loop-arrived_example = read_loop-arrived empty_buffer pieces refl

abbrev received_pieces : Sent (ℕ × (ℕ → ReadResult))
received_pieces = record {
  status = success;
  buffer = record { buffer = codes "OK ;\nOK\n"; last_bol = 0 };
  later = [];
}

pieces_run : read_loop empty_buffer (map answer pieces) ≡ some received_pieces
unfolding read_loop
pieces_run = refl

read_loop-is_whole_example : is_whole none (codes "OK ;\nOK\n") ≡ true
read_loop-is_whole_example =
    read_loop-is_whole (map answer pieces) empty_buffer received_pieces refl pieces_run refl

-- A system that takes two bytes at most.
abbrev two_at_most : Bytes → WriteResult
two_at_most [] = wrote 0
two_at_most (c ∷ []) = wrote 1
two_at_most (c ∷ d ∷ s) = wrote 2

abbrev message : MessageBuffer
message = record { buffer = codes "OK\n"; last_bol = 0 }

abbrev done : Sent (Bytes → WriteResult)
done = record { status = success; buffer = empty_buffer; later = [] }

two_within : (d : Bytes) (n : ℕ) → two_at_most d ≡ wrote n → n ≤ length d
two_within [] n e = ground arith
two_within (c ∷ []) n e = ground arith
two_within (c ∷ d ∷ s) n e = ground arith

two_some_byte :
    (d : Bytes) → d ≢ [] → (n : ℕ) × (two_at_most d ≡ wrote n) × (0 < n) × (n ≤ length d)
two_some_byte [] ne = absurd (ne refl)
two_some_byte (c ∷ []) ne = (1, refl, omega arith, omega arith)
two_some_byte (c ∷ d ∷ s) ne = (2, refl, omega arith, omega arith)

two_at_most-IsWrite : IsWrite two_at_most
two_at_most-IsWrite = record { within = two_within }

two_at_most-Takes : Takes two_at_most
two_at_most-Takes = record { some_byte = two_some_byte }

message_run : write_loop message (two_at_most ∷ two_at_most ∷ []) ≡ some done
unfolding write_loop
message_run = refl

write_loop-delivered_example :
    (empty_buffer ≡ empty_buffer)
    × (delivered message (two_at_most ∷ two_at_most ∷ []) ≡ unsent message)
write_loop-delivered_example =
    write_loop-delivered (two_at_most ∷ two_at_most ∷ []) message done
      (two_at_most-IsWrite, (two_at_most-IsWrite, tt)) (omega arith) message_run refl

write_loop-success_example :
    (r : Sent (Bytes → WriteResult)) × (write_loop message
        (two_at_most ∷ two_at_most ∷ two_at_most ∷ [])
      ≡ some r)
    × (r.status ≡ success)
write_loop-success_example =
    write_loop-success (two_at_most ∷ two_at_most ∷ two_at_most ∷ []) message
      (two_at_most-Takes, (two_at_most-Takes, (two_at_most-Takes, tt))) (omega arith) (omega arith)
