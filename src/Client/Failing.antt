-- ===== src/Client/Failing.antt =====
-- A connection over descriptors that breaks before the answer is whole.
use libcody.Prelude.{
  ℕ, ◌<◌, ◌≤◌, true, false, List, [], ◌∷◌, ◌++◌, none, some, codes, ◌≡◌, refl, ◌∙◌, arith, Bytes,
  length, map, All, append_assoc, append-nil, length-append,
}
use libcody.Status.{Errno, Status, unspecific, errno, is_retry}
use libcody.Buffer.{MessageBuffer, empty_buffer, push, prepare_to_read, prepare_to_write}
use libcody.Buffer.Transfer.{WriteResult, ReadResult, got, read_failed, last_byte, received}
use libcody.Buffer.Reading.{is_partial, is_partial_parts, received-partial}
use libcody.Packet.{RequestCode, Packet, string, pc_error}
use libcody.Server.{Fd, Resolvers}
use libcody.Client.{
  Client, World, remote, read_loop, is_corked, communicate_with, communicate_with_server,
  communication_error, maybe_request, single_response, is_done,
}
use libcody.Client.Receiving.{
  Arrival, arrives, interrupted, answer, arrived, interrupt, read-answer, read_loop_done,
  read_loop_again, last_byte-append,
}
use libcody.Client.Sending.{Takes}
use libcody.Client.Message.{write_loop-SendsAll}

-- An answer of `read (2)` that breaks the connection: an error for good, or the end of the file.
pub data Breaks : ReadResult → Status → Type 0 where
  fails : (e : Errno) → is_retry e ≡ false → Breaks (read_failed e) (errno e)
  ends : Breaks (got []) unspecific

received-Breaks :
    (b : MessageBuffer) (r : ReadResult) (status : Status)
    → Breaks r status
    → (received b r ≡ record { status = status; rest = b }) × (is_done status ≡ true)
unfolding received
received-Breaks b _ _ (fails e h) = (refl, rw h refl)
received-Breaks b _ _ ends = (refl, refl)

pub read_loop-Breaks :
    (b : MessageBuffer) (first : List Arrival) (capacity : ℕ) (r : ReadResult) (status : Status)
    (later : List (ℕ × (ℕ → ReadResult)))
    → Breaks r status
    → is_partial (last_byte none b.buffer) (arrived first) ≡ true
    → read_loop b (map answer first ++ (capacity, λ n. r) ∷ later)
      ≡ some (record { status = status; buffer = push b (arrived first); later = later })
read_loop-Breaks b [] capacity r status later k h =
    let (e, d) = received-Breaks b r status k in
    read_loop_done b capacity (λ n. r) later _ (read-answer capacity r b ∙ e) d ∙ rw append-nil refl
read_loop-Breaks b (interrupted size e i ∷ first) capacity r status later k h =
    read_loop_again b size (λ n. read_failed e) _ _ (interrupt size e b) (rw i refl)
    ∙ read_loop-Breaks b first capacity r status later k h
read_loop-Breaks b (arrives size c s ∷ first) capacity r status later k h =
    let (part, rest) = is_partial_parts (last_byte none b.buffer) (c ∷ s) (arrived first) h in
    read_loop_again b size (λ n. got (c ∷ s)) _ _
      (read-answer size (got (c ∷ s)) b ∙ received-partial b c s part) refl
    ∙ read_loop-Breaks (push b (c ∷ s)) first capacity r status later k
        (rw (last_byte-append none b.buffer (c ∷ s)) rest)
    ∙ simp append_assoc

-- The packet of a broken connection.
abbrev broken : (Status → Bytes) → Status → Packet
broken strerror status = record {
  payload = string (codes "communication error: " ++ strerror status);
  code = pc_error;
  request = 0;
}

module _ {R : Type 0} (cls : Resolvers R) (strerror : Status → Bytes) where
  single_response_failed :
      (code : RequestCode) (r : ReadResult) (status : Status) (c : Client) (w : World R)
      → Breaks r status
      → single_response cls strerror code status c w
        ≡ some (record { result = broken strerror status; client = c; world = w })
  unfolding single_response communication_error
  single_response_failed code _ _ c w (fails e h) = refl
  single_response_failed code _ _ c w ends = refl

  -- A call over descriptors that is not corked, whose connection breaks before the answer is whole,
  -- returns an error packet, whose request number is 0 and whose text is `communication error: ` and
  -- the text of the status, wherever it breaks and in whatever pieces the bytes
  -- before came. The connection breaks by an error of `read (2)` other than `EAGAIN` and `EINTR`, or
  -- at the end of the file; the bytes before hold no newline without a `;` before it. Each
  -- `write (2)` takes a byte or more, with as many of them as bytes to send. The client is ready to
  -- write the next message then, and is connected if and only if it was.
  pub broken_answer :
      (code : RequestCode) (c : Client) (w : World R) (fd : Fd) (first : List Arrival)
      (capacity : ℕ) (r : ReadResult) (status : Status) (later : List (ℕ × (ℕ → ReadResult)))
      → c.peer ≡ remote fd
      → is_corked c ≡ false
      → All Takes w.writes
      → length (prepare_to_write c.write).buffer ≤ length w.writes
      → w.reads ≡ map answer first ++ (capacity, λ n. r) ∷ later
      → is_partial none (arrived first) ≡ true
      → Breaks r status
      → (writes : List (Bytes → WriteResult)) × (maybe_request cls strerror code c w
          ≡ some (record {
            result = record {
              payload = string (codes "communication error: " ++ strerror status);
              code = pc_error;
              request = 0;
            };
            client = record c { write = empty_buffer; read = push empty_buffer (arrived first) };
            world = record w { writes = writes; reads = later };
          }))
  unfolding maybe_request communicate_with_server communicate_with prepare_to_read prepare_to_write
  broken_answer code c w fd first capacity r status later peer h takes fuel reads part k =
      let b = prepare_to_write c.write in
      let size : 0 < length b.buffer = omega (arith, length-append c.write.buffer (b'\n' ∷ [])) in
      let a = write_loop-SendsAll w.writes b takes size (omega arith) in
      let got = read_loop-Breaks empty_buffer first capacity r status later k part in
      (
        a.later,
        rw h
            (rw peer (rw a.sends (rw reads (rw got (single_response_failed code r status _ _ k))))),
      )
