-- ===== src/Session/Remote.antt =====
-- A session over descriptors, as in tests/02-comms: what the client's loops give the system comes to
-- the server in pieces, and what the server's loops give the system comes to the client in pieces.
pub mod Hosted
pub mod Exchange
pub mod Whole
pub mod Batch
pub mod Relayed
use libcody.Prelude.{
  ℕ, Bool, List, [], ◌∷◌, ◌++◌, Option, none, some, ◌≡◌, Bytes, length, map, All, ◌≤◌,
}
use libcody.Status.{Errno}
use libcody.Buffer.{MessageBuffer, empty_buffer, prepare_to_write}
use libcody.Buffer.Message.{write_lines}
use libcody.Buffer.Transfer.{WriteResult, ReadResult, got}
use libcody.Server.{Fd, Server}
use libcody.Resolver.{default_resolver}
use libcody.Client.{Client, World, remote, write_loop}
use libcody.Client.Receiving.{Arrival, answer, arrived}
use libcody.Client.Sending.{Takes, delivered}
use libcody.Session.{Call}
use libcody.Session.Packets.{client_over}
use libcody.Session.Serving.{lines}
use libcody.Session.Host.{Turn, serve_message}

abbrev pub Reads : Type 0
Reads = List (ℕ × (ℕ → ReadResult))

abbrev pub Writes : Type 0
Writes = List (Bytes → WriteResult)

-- The answers to come bring a message, in pieces and with interruptions; `later` are behind it.
pub record Brings (reads : Reads) (message : Bytes) (later : Reads) : Type 0 where
  pub first : List Arrival
  pub capacity : ℕ
  pub head : ℕ
  pub tail : Bytes
  pub reads_are : reads ≡ map answer first ++ (capacity, λ n. got (head ∷ tail)) ∷ later
  pub is_message : arrived first ++ head ∷ tail ≡ message

-- The requests of calls, ready to be sent.
abbrev pub request : List Call → MessageBuffer
request calls = prepare_to_write (write_lines empty_buffer (lines calls))

-- The answers to come that the client's loop leaves.
abbrev pub left : MessageBuffer → Writes → Writes
left b writes = elim (write_loop b writes) [ none ↦ [] | some r ↦ r.later ]

module _ {R : Type 0} (is_regular : Bytes → Bool) (strerror : Errno → Bytes) where
  -- A message that the client sends goes to the server, and the server's message comes back.
  pub record Relay (s : Server R) (b : MessageBuffer) (writes : Writes) (reads : Reads)
      : Type 0 where
    pub server_reads : Reads
    pub server_rest : Reads
    pub server_writes : Writes
    pub turn : Turn R
    pub later : Reads
    pub goes : Brings server_reads (delivered b writes) server_rest
    pub server_Takes : All Takes server_writes
    pub serves :
        serve_message (default_resolver is_regular) strerror s server_reads server_writes
        ≡ some turn
    pub comes_back : Brings reads turn.sent later

  -- One message after the other, each with one call.
  abbrev pub Relays : Server R → List Call → Writes → Reads → Type 0
  Relays s [] writes reads = Unit
  Relays s (call ∷ calls) writes reads =
      (r : Relay s (request (call ∷ [])) writes reads) × Relays r.turn.server calls
        (left (request (call ∷ [])) writes) r.later

-- The client of the descriptors between two calls; `write (2)` takes bytes.
pub record IsOpen {R : Type 0} (fd : Fd) (connected : Bool) (c : Client) (w : World R)
    : Type 0 where
  pub read : MessageBuffer
  pub client_is : c ≡ client_over (remote fd) [] read connected
  pub takes : All Takes w.writes
