-- ===== src/Session/Remote/Exchange.antt =====
-- One exchange of a client over descriptors with the server at the other end.
use mathlib.Core.Path.{subst}
use libcody.Prelude.{
  ℕ, ◌+◌, ◌≤◌, ◌<◌, Bool, List, [], ◌∷◌, none, Option, some, ◌≡◌, refl, ap, ◌∙◌, arith, Bytes,
  length, All,
}
use libcody.Status.{Errno, Status, success}
use libcody.Buffer.{MessageBuffer, empty_buffer, prepare_to_read}
use libcody.Buffer.Message.{write_lines}
use libcody.Packet.{RequestCode}
use libcody.Server.{Fd, Server, Resolvers}
use libcody.Client.{Client, World, Called, remote, communicate_with, communicate_with_server, Sent}
use libcody.Buffer.Transfer.{WriteResult}
use libcody.Client.Sending.{Takes, delivered}
use libcody.Client.Message.{write_loop-SendsAll}
use libcody.Session.{Call, AreCalls, connected_after, connected_by}
use libcody.Session.Packets.{client_over}
use libcody.Session.Written.{call_line}
use libcody.Session.Joined.{joined, at, prepare-joined, length-joined}
use libcody.Session.Serving.{lines, lines-IsLine}
use libcody.Session.Told.{reply_line, answers, answers-IsLine}
use libcody.Session.Remote.{Reads, Writes, Brings, request, left, Relay}
use libcody.Session.Remote.Hosted.{read_loop-Brings, serve_message-sent}

-- The bytes of the requests.
abbrev pub request_size : List Call → ℕ
request_size calls = length (joined (lines calls))

-- The answers to come behind a loop.
abbrev pub after_loop : Option (Sent (Bytes → WriteResult)) → Writes
after_loop o = elim o [ none ↦ [] | some r ↦ r.later ]

-- What one exchange of a client leaves: the answers are read, and the server is where it was.
pub record Exchanges {Q R : Type 0} (is_regular : Bytes → Bool) (connected : Bool) (call : Call)
    (calls : List Call) (w : World Q) (b : MessageBuffer) (o : Option (Called Q Status))
    (client : MessageBuffer → Client) (server : Server R) (later : Reads) : Type 0 where
  pub writes : Writes
  pub exchange :
      o
      ≡ some (record {
        result = success;
        client = client (at [] (answers is_regular connected (call ∷ calls)));
        world = record w { writes = writes; reads = later };
      })
  pub left_is : left b w.writes ≡ writes
  pub still_Takes : All Takes writes
  pub enough_left : length w.writes ≤ request_size (call ∷ calls) + length writes
  pub up : server.is_connected ≡ connected_by connected (call ∷ calls)
  pub nothing_written : server.write ≡ empty_buffer

module _ {Q R : Type 0} (cls : Resolvers Q) (text : Status → Bytes) (is_regular : Bytes → Bool)
    (strerror : Errno → Bytes) (fd : Fd) where
  pub communicate-Exchanges :
      (queue : List (Option RequestCode)) (read : MessageBuffer) (connected : Bool) (call : Call)
      (calls : List Call) (w : World Q) (s : Server R)
      (r : Relay is_regular strerror s (request (call ∷ calls)) w.writes w.reads)
      → AreCalls (call ∷ calls)
      → s.is_connected ≡ connected
      → s.write ≡ empty_buffer
      → All Takes w.writes
      → request_size (call ∷ calls) ≤ length w.writes
      → Exchanges is_regular connected call calls w
          (request (call ∷ calls))
          (communicate_with_server cls text
            (record (client_over (remote fd) queue read connected) {
              write = write_lines empty_buffer (lines (call ∷ calls));
            })
            w)
          (λ b. client_over (remote fd) queue b connected)
          r.turn.server
          r.later
  unfolding communicate_with_server communicate_with prepare_to_read
  communicate-Exchanges queue read connected call calls w s r h c new takes fuel =
      let ready = prepare-joined (call_line call) (lines calls) (lines-IsLine (call ∷ calls) h) in
      let size : 0 < request_size (call ∷ calls) =
        omega (arith, length-joined (lines (call ∷ calls))) in
      let a =
        write_loop-SendsAll w.writes (at [] (lines (call ∷ calls))) takes size (omega arith) in
      let goes =
        subst (λ m. Brings r.server_reads m r.server_rest)
          (ap (λ b. delivered b w.writes) ready ∙ a.all_delivered) r.goes in
      let t =
        serve_message-sent is_regular strerror call calls connected s r.server_reads r.server_rest
          r.server_writes h c new goes r.turn r.server_Takes r.serves in
      let comes = subst (λ m. Brings w.reads m r.later) t.is_sent r.comes_back in
      let reads =
        read_loop-Brings w.reads r.later (reply_line is_regular connected call)
          (answers is_regular (connected_after connected call) calls)
          (answers-IsLine is_regular connected (call ∷ calls) h) comes in
      record {
        writes = a.later;
        exchange = rw ready (rw a.sends (rw reads refl));
        left_is = ap (λ b. left b w.writes) ready ∙ ap after_loop a.sends;
        still_Takes = a.still_Takes;
        enough_left = omega (arith, a.enough_left);
        up = t.up;
        nothing_written = t.nothing_written;
      }
