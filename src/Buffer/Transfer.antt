-- ===== src/Buffer/Transfer.antt =====
-- `Read` and `Write` of buffer.cc. The system calls are arguments: what `read (2)` gives when it is
-- asked for a number of bytes, and how `write (2)` answers some bytes.
use libcody.Prelude.{
  ℕ, ◌+◌, ◌-◌, ◌/◌, Bool, true, false, not, ◌&&◌, [], ◌∷◌, ◌++◌, Option, none, some, Bytes, length,
  take, drop, ltb, ◌==◌, if◌then◌else◌,
}
use libcody.Status.{Errno, eagain, einval, Status, success, unspecific, errno, is_retry}
use libcody.Buffer.{MessageBuffer, continue_mark, empty_buffer}

pub data WriteResult : Type 0 where
  wrote : ℕ → WriteResult
  write_failed : Errno → WriteResult

pub data ReadResult : Type 0 where
  got : Bytes → ReadResult
  read_failed : Errno → ReadResult

pub record Transfer : Type 0 where
  pub status : Status
  pub rest : MessageBuffer

-- What `Write` has still to send.
abbrev pub unsent : MessageBuffer → Bytes
unsent b = drop b.last_bol b.buffer

-- Unless the error asks for another try, the buffer is reset for the next message.
abbrev pub settle : MessageBuffer → Status → Transfer
settle b (errno e) = record { status = errno e; rest = if is_retry e then b else empty_buffer }
settle b status = record { status = status; rest = empty_buffer }

abbrev pub written : MessageBuffer → WriteResult → Transfer
written b (write_failed e) = settle b (errno e)
written b (wrote count) =
    settle (record b { last_bol = b.last_bol + count })
      (if count == length b.buffer - b.last_bol then success else errno eagain)

unfoldable pub write : (Bytes → WriteResult) → MessageBuffer → Transfer
write os b = written b (os (unsent b))

abbrev pub block_size : ℕ
block_size = 200

-- The bytes asked for, from the size and the capacity of the vector.
unfoldable pub room : ℕ → ℕ → ℕ
room capacity lwm =
    let hwm = if ltb (capacity - lwm) (block_size / 2) then capacity + block_size else capacity in
    hwm - lwm

-- How the loop over the new lines ends: with `more`, or where it cuts the bytes behind a last line.
pub data Checked : Type 0 where
  complete : Bool → Checked
  cut : Bytes → Checked

-- `newline != buffer.begin () && newline[-1] == CONTINUE`
abbrev pub is_mark : Option ℕ → Bool
is_mark none = false
is_mark (some c) = c == continue_mark

abbrev pub stop : Bytes → Checked
stop [] = complete false
stop (c ∷ s) = cut (c ∷ s)

-- The loop, a byte at a time, with the byte before; there is none at the beginning of the buffer.
unfoldable pub check_lines : Option ℕ → Bool → Bytes → Checked
check_lines before more [] = complete more
check_lines before more (c ∷ iter) =
    let more' = if c == b'\n' then is_mark before else more in
    let rest = check_lines (some c) more' iter in
    if c == b'\n' && not more' then stop iter else rest

abbrev pub last_byte : Option ℕ → Bytes → Option ℕ
last_byte before [] = before
last_byte before (c ∷ s) = last_byte (some c) s

abbrev pub checked : MessageBuffer → Checked → Transfer
checked b (complete more) = record { status = if more then errno eagain else success; rest = b }
checked b (cut behind) = record {
  status = errno einval;
  rest = record b { buffer = take (length b.buffer - length behind) b.buffer };
}

unfoldable pub received : MessageBuffer → ReadResult → Transfer
unfolding check_lines
received b (read_failed e) = record { status = errno e; rest = b }
received b (got []) = record { status = unspecific; rest = b }
received b (got (c ∷ s)) =
    checked (record b { buffer = b.buffer ++ c ∷ s })
      (check_lines (last_byte none b.buffer) true (c ∷ s))

unfoldable pub read : ℕ → (ℕ → ReadResult) → MessageBuffer → Transfer
unfolding received room
read capacity os b = received b (os (room capacity (length b.buffer)))
