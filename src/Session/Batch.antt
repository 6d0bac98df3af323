-- ===== src/Session/Batch.antt =====
-- Calls that are corked, and answered together by `Uncork`.
use libcody.Prelude.{
  Bool, List, [], ◌∷◌, ◌++◌, Option, none, some, ◌≡◌, refl, Bytes, map, append_assoc, append-nil,
}
use libcody.Status.{Status}
use libcody.Buffer.{MessageBuffer, empty_buffer}
use libcody.Buffer.Message.{write_line, write_lines}
use libcody.Packet.{RequestCode}
use libcody.Server.{Resolvers}
use libcody.Resolver.{default_resolver}
use libcody.Client.{Client, Peer, direct, World, maybe_request, uncork}
use libcody.Session.{Call, run_calls, AreCalls, connected_by}
use libcody.Session.Packets.{client_over, client_at}
use libcody.Session.Written.{call_code, call_line, run_call-line}
use libcody.Session.Serving.{lines}
use libcody.Session.Told.{all_told}
use libcody.Session.Received.{codes_of, communicate-answers, responses_read}
use libcody.Session.{run_batch, corked_packet}
use libcody.Session.Whole.{IsIdle, Gives}

module _ {R : Type 0} (cls : Resolvers R) (strerror : Status → Bytes) (peer : Peer) where
  -- What the calls leave that are corked.
  pub queued :
      (calls : List Call) (b : MessageBuffer) (queue : List (Option RequestCode))
      (read : MessageBuffer) (connected : Bool) (w : World R)
      → run_calls cls strerror calls
          (record (client_over peer (none ∷ queue) read connected) { write = b })
          w
        ≡ some (record {
          result = map (λ call. corked_packet) calls;
          client = record (client_over peer (none ∷ (queue ++ codes_of calls)) read connected) {
            write = write_lines b (lines calls);
          };
          world = w;
        })
  unfolding run_calls write_lines maybe_request
  queued [] b queue read connected w = rw append-nil refl
  queued (call ∷ calls) b queue read connected w =
      let c = record (client_over peer (none ∷ queue) read connected) { write = b } in
      rw (run_call-line cls strerror call c w) (
        rw
          (queued calls (write_line b (call_line call)) (queue ++ some (call_code call) ∷ []) read
            connected w)
          (rw append_assoc refl))

module _ (R : Type 0) (is_regular : Bytes → Bool) (strerror : Status → Bytes) where
  uncorked :
      (calls : List Call) (read : MessageBuffer) (connected : Bool) (w : World R)
      → AreCalls calls
      → w.server.is_connected ≡ connected
      → w.server.write ≡ empty_buffer
      → Gives
          (uncork
            (default_resolver is_regular)
            strerror
            (record (client_at (none ∷ codes_of calls) read connected) {
              write = write_lines empty_buffer (lines calls);
            })
            w)
          (all_told is_regular connected calls)
          (connected_by connected calls)
  unfolding uncork write_lines
  uncorked [] read connected w h c new = record {
    called = record { result = []; client = client_at [] read connected; world = w };
    is_called = refl;
    is_result = refl;
    is_idle = record { read = read; client_is = refl; nothing_written = new; server_is = c };
  }
  uncorked (call ∷ calls) read connected w h c new =
      let queue = none ∷ codes_of (call ∷ calls) in
      let (w', e, up, new') =
        communicate-answers is_regular strerror queue read connected call calls w h c new in
      let (b, r) =
        responses_read R is_regular strerror (call ∷ calls) direct queue connected [] h in
      record {
        called = record {
          result = all_told is_regular connected (call ∷ calls);
          client = client_at [] b (connected_by connected (call ∷ calls));
          world = w';
        };
        is_called = rw e (rw r refl);
        is_result = refl;
        is_idle = record { read = b; client_is = refl; nothing_written = new'; server_is = up };
      }

  -- Between `Cork` and `Uncork`, any sequence of calls of a client over a direct connection to the
  -- default resolver, in any order, returns: each call gives a packet that says it is corked, and
  -- `Uncork` gives the packets that they are to be told, in the order of the calls: the packet
  -- that is promised, if the call is `Connect` and they are not connected, or another call and
  -- they are; else an error that says `already connected` or `not connected` and quotes the line
  -- of the request. They are connected from the first `Connect` on. The calls are those with a
  -- `std::string`, `ModuleRepo` and `InvokeSubProcess`; the names are in ASCII and not empty, the
  -- texts of `Connect` are in ASCII, the flags are not `~0u`, `InvokeSubProcess` has an argument
  -- at least, each of its arguments is up to its NUL a word that needs no quotes, of bytes between
  -- the space and DEL that are no `;` and no quote, nothing is corked at first, nothing is left to
  -- be sent on either side, and both sides agree on whether they are connected. The last three
  -- hold again then.
  pub run_batch-told :
      (connected : Bool) (calls : List Call) (c : Client) (w : World R)
      → IsIdle connected c w
      → AreCalls calls
      → Gives
          (run_batch (default_resolver is_regular) strerror calls c w)
          (map (λ call. corked_packet) calls, all_told is_regular connected calls)
          (connected_by connected calls)
  unfolding run_batch write_lines
  run_batch-told connected calls c w i h =
      let q =
        queued (default_resolver is_regular) strerror direct calls empty_buffer [] i.read connected
          w in
      let u = uncorked calls i.read connected w h i.server_is i.nothing_written in
      record {
        called = record {
          result = (map (λ call. corked_packet) calls, u.called.result);
          client = u.called.client;
          world = u.called.world;
        };
        is_called = rw i.client_is (rw q (rw u.is_called refl));
        is_result = rw u.is_result refl;
        is_idle = u.is_idle;
      }
