-- ===== src/Session/Remote/Batch.antt =====
-- Calls of a client over descriptors that are corked: one message there, and one back.
use libcody.Prelude.{◌≤◌, Bool, List, [], ◌∷◌, none, some, ◌≡◌, refl, Bytes, length, map}
use libcody.Status.{Errno, Status}
use libcody.Buffer.{empty_buffer}
use libcody.Buffer.Message.{write_lines}
use libcody.Packet.{Packet}
use libcody.Server.{Fd, Server, Resolvers}
use libcody.Client.{Client, World, Called, remote, uncork}
use libcody.Session.{Call, run_batch, corked_packet, AreCalls, connected_by}
use libcody.Session.Told.{all_told}
use libcody.Session.Packets.{client_over}
use libcody.Session.Received.{codes_of, responses_read}
use libcody.Session.Remote.{request, Relay, IsOpen}
use libcody.Session.Batch.{queued}
use libcody.Session.Remote.Exchange.{request_size, communicate-Exchanges}

module _ {Q R : Type 0} (cls : Resolvers Q) (text : Status → Bytes) (is_regular : Bytes → Bool)
    (strerror : Errno → Bytes) (fd : Fd) where
  -- Between `Cork` and `Uncork`, a sequence of calls of a client over descriptors, one or more and
  -- in any order, returns: each call gives a packet that says it is corked, and `Uncork` gives the
  -- packets that they are to be told, in the order of the calls: the packet that is promised, if
  -- the call is `Connect` and they are not connected, or another call and they are; else an error
  -- that says `already connected` or `not connected` and quotes the line of the request. The other
  -- end is a server of the default resolver that is run as by `main` of
  -- tests/02-comms/server-1.cc: what the client's loop has given the system comes to the server in
  -- pieces, the server's turn ends, and what its loop has given the system comes to the client in
  -- pieces, with any interruptions. Each `write (2)` takes a byte or more, and the client has as
  -- many of them as bytes to send. The calls are those with a `std::string`, `ModuleRepo` and
  -- `InvokeSubProcess`; the names are in ASCII and not empty, the texts of `Connect` are in ASCII,
  -- the flags are not `~0u`, `InvokeSubProcess` has an argument at least, each of its arguments is
  -- up to its NUL a word that needs no quotes, of bytes between the space and DEL that are no `;`
  -- and no quote, nothing is corked at first, nothing is left to be sent on either side, and both
  -- sides agree on whether they are connected.
  pub remote_batch-told :
      (connected : Bool) (call : Call) (calls : List Call) (c : Client) (w : World Q) (s : Server R)
      → IsOpen fd connected c w
      → s.is_connected ≡ connected
      → s.write ≡ empty_buffer
      → AreCalls (call ∷ calls)
      → request_size (call ∷ calls) ≤ length w.writes
      → Relay is_regular strerror s (request (call ∷ calls)) w.writes w.reads
      → (o : Called Q (List Packet × List Packet)) × (run_batch cls text (call ∷ calls) c w
          ≡ some o)
        × (o.result ≡ (
          map (λ call. corked_packet) (call ∷ calls),
          all_told is_regular connected (call ∷ calls),
        ))
        × IsOpen fd (connected_by connected (call ∷ calls)) o.client o.world
  unfolding run_batch uncork write_lines
  remote_batch-told connected call calls c w s i e new h fuel r =
      let queue = none ∷ codes_of (call ∷ calls) in
      let q = queued cls text (remote fd) (call ∷ calls) empty_buffer [] i.read connected w in
      let x =
        communicate-Exchanges cls text is_regular strerror fd queue i.read connected call calls w s
          r h e new i.takes fuel in
      let (b, a) =
        responses_read Q is_regular text (call ∷ calls) (remote fd) queue connected [] h in
      (
        record {
          result = (
            map (λ call. corked_packet) (call ∷ calls),
            all_told is_regular connected (call ∷ calls),
          );
          client = client_over (remote fd) [] b (connected_by connected (call ∷ calls));
          world = record w { writes = x.writes; reads = r.later };
        },
        rw i.client_is (rw q (rw x.exchange (rw a refl))),
        refl,
        record { read = b; client_is = refl; takes = x.still_Takes },
      )
