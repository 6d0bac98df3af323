-- ===== src/Session/Remote/Whole.antt =====
-- Calls of a client over descriptors, one by one, with the default resolver at the other end.
use mathlib.Core.Path.{subst}
use libcody.Prelude.{
  ℕ, ◌+◌, ◌≤◌, Bool, true, List, [], ◌∷◌, Option, some, ◌≡◌, refl, ap, ◌∙◌, arith, Bytes, length,
  All, ◌>>=◌,
}
use libcody.Status.{Errno, Status}
use libcody.Buffer.{MessageBuffer, empty_buffer}
use libcody.Buffer.Message.{write_lines}
use libcody.Packet.{Packet}
use libcody.Server.{Fd, Server, Resolvers}
use libcody.Client.{Client, World, Called, remote, maybe_request, single_response}
use libcody.Client.Sending.{Takes}
use libcody.Session.{Call, run_call, run_calls, IsCall, AreCalls, connected_after, connected_by}
use libcody.Session.Packets.{client_over}
use libcody.Session.Written.{call_code, run_call-line}
use libcody.Session.Joined.{front, at}
use libcody.Session.Told.{told, all_told, reply_line, told-Returns, reply_line-IsLine}
use libcody.Session.Received.{response_read, no_more}
use libcody.Session.Remote.{Reads, Writes, request, left, Relay, Relays, IsOpen}
use libcody.Session.Remote.Exchange.{request_size, communicate-Exchanges}

-- The bytes of the requests of calls with a message each.
abbrev pub total_size : List Call → ℕ
total_size [] = 0
total_size (call ∷ calls) = request_size (call ∷ []) + total_size calls

abbrev world_of : {Q : Type 0} → World Q → Writes → Reads → World Q
world_of w writes reads = record w { writes = writes; reads = reads }

module _ {Q R : Type 0} (cls : Resolvers Q) (text : Status → Bytes) (is_regular : Bytes → Bool)
    (strerror : Errno → Bytes) (fd : Fd) where
  -- What one call leaves.
  record CallGives {s : Server R} (connected : Bool) (call : Call) (w : World Q)
      (r : Relay is_regular strerror s (request (call ∷ [])) w.writes w.reads)
      (o : Option (Called Q Packet)) : Type 0 where
    read : MessageBuffer
    writes : Writes
    is_called :
        o
        ≡ some (record {
          result = told is_regular connected call;
          client = client_over (remote fd) [] read (connected_after connected call);
          world = record w { writes = writes; reads = r.later };
        })
    left_is : left (request (call ∷ [])) w.writes ≡ writes
    still_Takes : All Takes writes
    enough_left : length w.writes ≤ request_size (call ∷ []) + length writes
    up : r.turn.server.is_connected ≡ connected_after connected call
    nothing_written : r.turn.server.write ≡ empty_buffer

  remote_call :
      (read : MessageBuffer) (connected : Bool) (call : Call) (w : World Q) (s : Server R)
      (r : Relay is_regular strerror s (request (call ∷ [])) w.writes w.reads)
      → IsCall call
      → s.is_connected ≡ connected
      → s.write ≡ empty_buffer
      → All Takes w.writes
      → request_size (call ∷ []) ≤ length w.writes
      → CallGives connected call w r
          (run_call cls text call (client_over (remote fd) [] read connected) w)
  unfolding maybe_request write_lines
  remote_call read connected call w s r h c new takes fuel =
      let x =
        communicate-Exchanges cls text is_regular strerror fd [] read connected call [] w s r
          (h, tt) c new takes fuel in
      let l = reply_line is_regular connected call in
      let after = connected_after connected call in
      let b = at (front l []) [] in
      let finish : Called Q Status → Option (Called Q Packet) =
        λ e. single_response cls text (call_code call) e.result e.client e.world in
      record {
        read = b;
        writes = x.writes;
        is_called =
            run_call-line cls text call (client_over (remote fd) [] read connected) w
            ∙ ap (λ o. o >>= finish) x.exchange
            ∙ rw
                (response_read (remote fd) [] connected [] (call_code call) l []
                  (told is_regular connected call) after true
                  (reply_line-IsLine is_regular connected call h)
                  (told-Returns is_regular connected call h)
                  (no_more is_regular after [] (front l [])))
                refl;
        left_is = x.left_is;
        still_Takes = x.still_Takes;
        enough_left = x.enough_left;
        up = x.up;
        nothing_written = x.nothing_written;
      }

  -- Any sequence of calls of a client over descriptors, in any order, returns, and each call gives
  -- the packet that it is to be told: the packet that is promised, if it is `Connect` and they are
  -- not connected, or another call and they are; else an error that says `already connected` or
  -- `not connected` and quotes the line of the request. The other end is a server of the default
  -- resolver that is run as by `main` of tests/02-comms/server-1.cc: for each call, what the
  -- client's loop has given the system comes to the server in pieces, the server's turn ends, and
  -- what its loop has given the system comes to the client in pieces, with any interruptions. Each
  -- `write (2)` takes a byte or more, and the client has as many of them as bytes to send. The
  -- calls are those with a `std::string`, `ModuleRepo` and `InvokeSubProcess`; the names are in
  -- ASCII and not empty, the texts of `Connect` are in ASCII, the flags are not `~0u`,
  -- `InvokeSubProcess` has an argument at least, each of its arguments is up to its NUL a word
  -- that needs no quotes, of bytes between the space and DEL that are no `;` and no quote, nothing
  -- is corked, nothing is left to be sent on either side, and both sides agree on whether they are
  -- connected.
  pub remote_calls-told :
      (connected : Bool) (calls : List Call) (c : Client) (w : World Q) (s : Server R)
      → IsOpen fd connected c w
      → s.is_connected ≡ connected
      → s.write ≡ empty_buffer
      → AreCalls calls
      → total_size calls ≤ length w.writes
      → Relays is_regular strerror s calls w.writes w.reads
      → (o : Called Q (List Packet)) × (run_calls cls text calls c w ≡ some o)
        × (o.result ≡ all_told is_regular connected calls)
        × IsOpen fd (connected_by connected calls) o.client o.world
  unfolding run_calls
  remote_calls-told connected [] c w s i e new h fuel r =
      (record { result = []; client = c; world = w }, refl, refl, i)
  remote_calls-told connected (call ∷ calls) c w s i e new (h, hs) fuel (r, rs) =
      let after = connected_after connected call in
      let g = remote_call i.read connected call w s r h e new i.takes (omega arith) in
      let rs' =
        subst (λ ws. Relays is_regular strerror r.turn.server calls ws r.later) g.left_is rs in
      let c' = client_over (remote fd) [] g.read after in
      let i' : IsOpen fd after c' (world_of w g.writes r.later) = record {
        read = g.read;
        client_is = refl;
        takes = g.still_Takes;
      } in
      let (o, q, same, i'') =
        remote_calls-told after calls c' (world_of w g.writes r.later) r.turn.server i' g.up
          g.nothing_written hs (omega (arith, g.enough_left)) rs' in
      (
        record o { result = told is_regular connected call ∷ o.result },
        rw i.client_is (rw g.is_called (rw q refl)),
        rw same refl,
        i'',
      )
