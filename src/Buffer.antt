-- ===== src/Buffer.antt =====
-- `MessageBuffer` of buffer.cc and cody.hh: the buffer and the small operations on it. The children
-- hold the operations with loops (Append, Lex, Line, Transfer) and the proofs about them.
pub mod Append
pub mod Lex
pub mod Line
pub mod Transfer
pub mod Call
pub mod Words
pub mod Message
pub mod Bare
pub mod Bounds
pub mod NotAscii
pub mod RoundTrip
pub mod Marks
pub mod Consume
pub mod Newlines
pub mod Reading
pub mod LastLine
pub mod Lines
use libcody.Prelude.{ℕ, Bool, [], ◌∷◌, ◌++◌, Bytes, length, ◌==◌}

pub record MessageBuffer : Type 0 where
  pub buffer : Bytes
  pub last_bol : ℕ

abbrev pub empty_buffer : MessageBuffer
empty_buffer = record { buffer = []; last_bol = 0 }

-- `vector::push_back` and `vector::insert` at the end
abbrev pub push : MessageBuffer → Bytes → MessageBuffer
push b s = record b { buffer = b.buffer ++ s }

abbrev pub continue_mark : ℕ
continue_mark = b';'

unfoldable pub prepare_to_write : MessageBuffer → MessageBuffer
prepare_to_write b = record { buffer = b.buffer ++ b'\n' ∷ []; last_bol = 0 }

unfoldable pub prepare_to_read : MessageBuffer → MessageBuffer
prepare_to_read b = empty_buffer

-- What `BeginLine` leaves in the buffer before it sets `lastBol`.
abbrev pub continued : Bytes → Bytes
continued [] = []
continued (c ∷ s) = (c ∷ s) ++ b' ' ∷ continue_mark ∷ b'\n' ∷ []

unfoldable pub begin_line : MessageBuffer → MessageBuffer
begin_line b = let bytes = continued b.buffer in record { buffer = bytes; last_bol = length bytes }

unfoldable pub end_line : MessageBuffer → MessageBuffer
end_line b = b

unfoldable pub append_char : MessageBuffer → ℕ → MessageBuffer
append_char b c = push b (c ∷ [])

unfoldable pub space : MessageBuffer → MessageBuffer
unfolding append_char
space b = append_char b b' '

unfoldable pub is_at_end : MessageBuffer → Bool
is_at_end b = b.last_bol == length b.buffer
