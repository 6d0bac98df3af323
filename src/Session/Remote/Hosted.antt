-- ===== src/Session/Remote/Hosted.antt =====
-- The server of a session over descriptors: what it makes of one message of calls.
use libcody.Prelude.{
  ◌≤◌, ◌<◌, Bool, none, List, [], ◌∷◌, Option, some, ◌≡◌, refl, ap, sym, ◌∙◌, arith, Bytes, length,
  All, ◌>>=◌,
}
use libcody.Status.{Errno, success}
use libcody.Buffer.{MessageBuffer, push, empty_buffer, prepare_to_read}
use libcody.Buffer.Message.{Word, IsLine}
use libcody.Buffer.Transfer.{WriteResult}
use libcody.Buffer.Reading.{is_whole}
use libcody.Server.{Server, reading, writing, server_prepare_to_read, server_prepare_to_write}
use libcody.Resolver.{default_resolver}
use libcody.Client.{Sent, read_loop, write_loop}
use libcody.Client.Sending.{Takes, delivered}
use libcody.Client.Message.{read_loop-message, write_loop-SendsAll, write_loop-Takes}
use libcody.Session.{Call, AreCalls, connected_by}
use libcody.Session.Joined.{joined, at, length-joined}
use libcody.Session.Written.{call_line}
use libcody.Session.Serving.{lines, lines-IsLine, process_requests-Processed, Processed-prepared}
use libcody.Session.Told.{answers}
use libcody.Session.Pieces.{joined-is_whole}
use libcody.Session.Host.{Turn, serve_message, read_message-read_loop, write_message-write_loop}
use libcody.Session.Remote.{Reads, Writes, Brings}

-- A message of lines that the answers to come bring is received.
pub read_loop-Brings :
    (reads later : Reads) (l : List Word) (ls : List (List Word))
    → All IsLine (l ∷ ls)
    → Brings reads (joined (l ∷ ls)) later
    → read_loop empty_buffer reads
      ≡ some (record { status = success; buffer = at [] (l ∷ ls); later = later })
read_loop-Brings reads later l ls h b =
    ap (read_loop empty_buffer) b.reads_are
    ∙ read_loop-message empty_buffer b.first b.capacity b.head b.tail later
        (ap (is_whole none) b.is_message ∙ joined-is_whole l ls h)
    ∙ ap (λ m. some (record { status = success; buffer = push empty_buffer m; later = later }))
        b.is_message

-- The turn of a server with the answers in its buffer, by how its loop over `Write` ends.
abbrev turn_of : {R : Type 0} → Server R → Reads → Bytes → Sent (Bytes → WriteResult) → Turn R
turn_of s reads sent r = record {
  server = record s { write = r.buffer };
  reads = reads;
  writes = r.later;
  sent = sent;
}

bind_bind :
    {A B C : Type 0} (f : A → B) (g : B → C) (o : Option A)
    → ((o >>= λ r. some (f r)) >>= λ y. some (g y)) ≡ (o >>= λ r. some (g (f r)))
bind_bind f g none = refl
bind_bind f g (some r) = refl

bind_some :
    {A B : Type 0} (f : A → B) (y : B) (o : Option A)
    → (o >>= λ r. some (f r)) ≡ some y
    → (r : A) × (o ≡ some r) × (f r ≡ y)
bind_some f y none h = absurd (cc)
bind_some f y (some r) h = (r, refl, cc)

-- What the server has made of a message when it starts to write.
record Prepared {R : Type 0} (connected : Bool) (write : MessageBuffer) (writes : Writes)
    (later : Reads) (o : Option (Turn R)) : Type 0 where
  server : Server R
  up : server.is_connected ≡ connected
  writes_it :
      o ≡ (write_loop write writes >>= λ r. some (turn_of server later (delivered write writes) r))

-- What it has done then.
pub record Answered {R : Type 0} (connected : Bool) (message : Bytes) (o : Option (Turn R))
    (turn : Turn R) : Type 0 where
  pub answers : o ≡ some turn
  pub is_sent : turn.sent ≡ message
  pub up : turn.server.is_connected ≡ connected
  pub nothing_written : turn.server.write ≡ empty_buffer

module _ {R : Type 0} (is_regular : Bytes → Bool) (strerror : Errno → Bytes) where
  module _ (call : Call) (calls : List Call) (connected : Bool) (s : Server R) (reads later : Reads)
      (writes : Writes) (h : AreCalls (call ∷ calls)) (c : s.is_connected ≡ connected)
      (new : s.write ≡ empty_buffer) (b : Brings reads (joined (lines (call ∷ calls))) later) where
    abbrev back : MessageBuffer
    back = at [] (answers is_regular connected (call ∷ calls))

    serve_message-Prepared :
        Prepared
          (connected_by connected (call ∷ calls))
          back
          writes
          later
          (serve_message (default_resolver is_regular) strerror s reads writes)
    unfolding serve_message server_prepare_to_read server_prepare_to_write prepare_to_read
    serve_message-Prepared =
        let received =
          read_loop-Brings reads later (call_line call) (lines calls)
            (lines-IsLine (call ∷ calls) h) b in
        let s' : Server R = record s { read = at [] (lines (call ∷ calls)); direction = reading } in
        let p =
          process_requests-Processed is_regular strerror (call ∷ calls) connected s' h c refl in
        let ready = Processed-prepared is_regular strerror s' call calls connected _ p h new in
        record {
          server = record p.server { write = back; direction = writing };
          up = p.up;
          writes_it = rw (read_message-read_loop reads (server_prepare_to_read s)) (
              rw received (
                rw p.ends (
                  rw (write_message-write_loop writes (server_prepare_to_write p.server))
                    (rw ready (bind_bind _ _ (write_loop back writes))))));
        }

    size : 0 < length back.buffer
    size = omega (arith, length-joined (answers is_regular connected (call ∷ calls)))

    -- A server of the default resolver that is run as by `main` of tests/02-comms/server-1.cc,
    -- from `PrepareToRead` on, takes a message of one call or more, in whatever pieces and with
    -- whatever interruptions it comes, and ends: the system has taken the message of the answers,
    -- whole, with an error for each call that is out of order, nothing is left to be written, and
    -- the server is connected if it was or `Connect` is among the calls. Each `write (2)` takes a
    -- byte or more, with as many of them as bytes to send. The calls are those with a
    -- `std::string`, `ModuleRepo` and `InvokeSubProcess`; the names are in ASCII and not empty,
    -- the texts of `Connect` are in ASCII, the flags are not `~0u`, `InvokeSubProcess` has an
    -- argument at least, each of its arguments is up to its NUL a word that needs no quotes, of
    -- bytes between the space and DEL that are no `;` and no quote, and nothing is left to be
    -- written at first.
    pub serve_message-Answered :
        All Takes writes
        → length (joined (answers is_regular connected (call ∷ calls))) ≤ length writes
        → (turn : Turn R) × Answered
            (connected_by connected (call ∷ calls))
            (joined (answers is_regular connected (call ∷ calls)))
            (serve_message (default_resolver is_regular) strerror s reads writes)
            turn
    serve_message-Answered takes fuel =
        let p = serve_message-Prepared in
        let a = write_loop-SendsAll writes back takes size (omega arith) in
        (
          turn_of p.server later (delivered back writes)
              (record { status = success; buffer = empty_buffer; later = a.later }),
          record {
            answers = p.writes_it ∙ rw a.sends refl;
            is_sent = a.all_delivered;
            up = p.up;
            nothing_written = refl;
          },
        )

    pub serve_message-sent :
        (turn : Turn R)
        → All Takes writes
        → serve_message (default_resolver is_regular) strerror s reads writes ≡ some turn
        → Answered
            (connected_by connected (call ∷ calls))
            (joined (answers is_regular connected (call ∷ calls)))
            (serve_message (default_resolver is_regular) strerror s reads writes)
            turn
    serve_message-sent turn takes e =
        let p = serve_message-Prepared in
        let (r, q, same) = bind_some _ _ (write_loop back writes) (sym p.writes_it ∙ e) in
        let (ends, reset, all) = write_loop-Takes writes back r takes size q in
        record {
          answers = e;
          is_sent = ap (λ t. t.sent) (sym same) ∙ all;
          up = ap (λ t. t.server.is_connected) (sym same) ∙ p.up;
          nothing_written = ap (λ t. t.server.write) (sym same) ∙ reset;
        }
