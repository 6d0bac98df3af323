-- ===== src/Session/Whole.antt =====
-- Calls of a client of a direct connection to the default resolver, one by one.
use libcody.Prelude.{Bool, true, List, [], ◌∷◌, Option, some, ◌≡◌, refl, ap, ◌∙◌, Bytes, ◌>>=◌}
use libcody.Status.{Status}
use libcody.Buffer.{MessageBuffer, empty_buffer}
use libcody.Buffer.Message.{write_lines}
use libcody.Packet.{Packet}
use libcody.Server.{Resolvers}
use libcody.Resolver.{default_resolver}
use libcody.Client.{Client, direct, World, Called, maybe_request, single_response}
use libcody.Session.{Call, run_call, run_calls, IsCall, AreCalls, connected_after, connected_by}
use libcody.Session.Packets.{client_at}
use libcody.Session.Written.{call_code, run_call-line}
use libcody.Session.Joined.{front, at}
use libcody.Session.Told.{told, all_told, reply_line, told-Returns, reply_line-IsLine}
use libcody.Session.Received.{response_read, no_more, communicate-answers}

-- The client and the server between two calls.
pub record IsIdle {R : Type 0} (connected : Bool) (c : Client) (w : World R) : Type 0 where
  pub read : MessageBuffer
  pub client_is : c ≡ client_at [] read connected
  pub nothing_written : w.server.write ≡ empty_buffer
  pub server_is : w.server.is_connected ≡ connected

-- The result of calls: the packets, and the client and the server idle again.
pub record Gives {R A : Type 0} (o : Option (Called R A)) (result : A) (connected : Bool)
    : Type 0 where
  pub called : Called R A
  pub is_called : o ≡ some called
  pub is_result : called.result ≡ result
  pub is_idle : IsIdle connected called.client called.world

module _ {R : Type 0} (is_regular : Bytes → Bool) (strerror : Status → Bytes) where
  abbrev resolver : Resolvers R
  resolver = default_resolver is_regular

  call_at :
      (read : MessageBuffer) (connected : Bool) (call : Call) (w : World R)
      → IsCall call
      → w.server.is_connected ≡ connected
      → w.server.write ≡ empty_buffer
      → Gives
          (run_call resolver strerror call (client_at [] read connected) w)
          (told is_regular connected call)
          (connected_after connected call)
  unfolding maybe_request write_lines
  call_at read connected call w h c new =
      let (w', e, up, new') =
        communicate-answers is_regular strerror [] read connected call [] w (h, tt) c new in
      let l = reply_line is_regular connected call in
      let after = connected_after connected call in
      let b = at (front l []) [] in
      let finish : Called R Status → Option (Called R Packet) =
        λ e. single_response resolver strerror (call_code call) e.result e.client e.world in
      record {
        called = record {
          result = told is_regular connected call;
          client = client_at [] b after;
          world = w';
        };
        is_called =
            run_call-line resolver strerror call (client_at [] read connected) w
            ∙ ap (λ o. o >>= finish) e
            ∙ rw
                (response_read direct [] connected [] (call_code call) l []
                  (told is_regular connected call) after true
                  (reply_line-IsLine is_regular connected call h)
                  (told-Returns is_regular connected call h)
                  (no_more is_regular after [] (front l [])))
                refl;
        is_result = refl;
        is_idle = record { read = b; client_is = refl; nothing_written = new'; server_is = up };
      }

  call-Gives :
      (connected : Bool) (call : Call) (c : Client) (w : World R)
      → IsIdle connected c w
      → IsCall call
      → Gives
          (run_call resolver strerror call c w)
          (told is_regular connected call)
          (connected_after connected call)
  call-Gives connected call c w i h =
      rw i.client_is (call_at i.read connected call w h i.server_is i.nothing_written)

  -- Any sequence of calls of a client over a direct connection to the default resolver, in any
  -- order, returns, and each call gives the packet that it is to be told, whatever the repository
  -- holds: the packet that is promised for it, if it is `Connect` and they are not connected, or
  -- another call and they are; else an error that says `already connected` or `not connected` and
  -- quotes the line of the request. They are connected from the first `Connect` on. The calls are
  -- those with a `std::string`, `ModuleRepo` and `InvokeSubProcess`; the names are in ASCII and
  -- not empty, the texts of `Connect` are in ASCII, the flags are not `~0u`, `InvokeSubProcess`
  -- has an argument at least, each of its arguments is up to its NUL a word that needs no quotes,
  -- of bytes between the space and DEL that are no `;` and no quote, nothing is corked, nothing is
  -- left to be sent on either side, and both sides agree on whether they are connected. The last
  -- three hold again then.
  pub run_calls-told :
      (connected : Bool) (calls : List Call) (c : Client) (w : World R)
      → IsIdle connected c w
      → AreCalls calls
      → Gives
          (run_calls resolver strerror calls c w)
          (all_told is_regular connected calls)
          (connected_by connected calls)
  unfolding run_calls
  run_calls-told connected [] c w i h = record {
    called = record { result = []; client = c; world = w };
    is_called = refl;
    is_result = refl;
    is_idle = i;
  }
  run_calls-told connected (call ∷ calls) c w i (h, hs) =
      let g = call-Gives connected call c w i h in
      let k =
        run_calls-told (connected_after connected call) calls g.called.client g.called.world
          g.is_idle hs in
      record {
        called = record {
          result = g.called.result ∷ k.called.result;
          client = k.called.client;
          world = k.called.world;
        };
        is_called = rw g.is_called (rw k.is_called refl);
        is_result = rw (g.is_result, k.is_result) refl;
        is_idle = k.is_idle;
      }
