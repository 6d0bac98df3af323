-- ===== src/Session/Received.antt =====
-- A client of a direct connection to the default resolver: the message that it sends, and the
-- responses that it reads.
use libcody.Prelude.{
  not, ◌&&◌, Bool, true, false, List, [], ◌∷◌, ◌++◌, Option, some, ◌≡◌, refl, ap, ◌∙◌, Bytes, map,
  ◌>>=◌,
}
use libcody.Status.{Status, Errno, success, errno}
use libcody.Buffer.{MessageBuffer, empty_buffer, prepare_to_read, is_at_end}
use libcody.Buffer.Message.{Word, IsLine, write_lines}
use libcody.Packet.{RequestCode, Packet}
use libcody.Server.{Resolvers}
use libcody.Server.Process.{Exchange, direct_process}
use libcody.Resolver.{default_resolver}
use libcody.Client.{
  Peer, World, Called, communicate_with, communicate_with_server, process_response,
  process_responses,
}
use libcody.Session.{Call, AreCalls, connected_after, connected_by}
use libcody.Session.Packets.{client_over, client_at, Returns}
use libcody.Session.Written.{call_code, call_line}
use libcody.Session.Joined.{front, at, prepare-joined, lex-joined, joined_end}
use libcody.Session.Told.{told, all_told, reply_line, answers, told-Returns, reply_line-IsLine}
use libcody.Session.Serving.{lines, lines-IsLine, direct_process-Exchanged}

-- A response that is read, with the others behind it.
pub response_read :
    (peer : Peer) (queue : List (Option RequestCode)) (connected : Bool) (pre : Bytes)
    (code : RequestCode) (l : List Word) (ls : List (List Word)) (p : Packet) (after is_last : Bool)
    → IsLine l
    → Returns code connected after l p
    → (is_last && not (is_at_end (at (pre ++ front l ls) ls))) ≡ false
    → process_response (client_over peer queue (at pre (l ∷ ls)) connected) (some code) is_last
      ≡ some (p, client_over peer queue (at (pre ++ front l ls) ls) after)
unfolding process_response
response_read peer queue connected pre code l ls p after is_last h r e =
    rw (lex-joined pre l ls h) (r peer queue (at (pre ++ front l ls) ls) is_last e)

abbrev pub codes_of : List Call → List (Option RequestCode)
codes_of = map (λ call. some (call_code call))

abbrev last_of : List (Option RequestCode) → Bool
last_of queue = elim queue [ [] ↦ true | _ ∷ _ ↦ false ]

pub no_more :
    (is_regular : Bytes → Bool) (connected : Bool) (calls : List Call) (pre : Bytes)
    → (last_of (codes_of calls) && not (is_at_end (at pre (answers is_regular connected calls))))
      ≡ false
no_more is_regular connected [] pre = rw (joined_end pre) refl
no_more is_regular connected (call ∷ calls) pre = refl

module _ {R : Type 0} (is_regular : Bytes → Bool) (strerror : Status → Bytes) where
  abbrev cls : Resolvers R
  cls = default_resolver is_regular

  pub communicate-answers :
      (queue : List (Option RequestCode)) (read : MessageBuffer) (connected : Bool) (call : Call)
      (calls : List Call) (w : World R)
      → AreCalls (call ∷ calls)
      → w.server.is_connected ≡ connected
      → w.server.write ≡ empty_buffer
      → (w' : World R) × (communicate_with_server cls strerror
            (record (client_at queue read connected) {
              write = write_lines empty_buffer (lines (call ∷ calls));
            })
            w
          ≡ some (record {
            result = success;
            client =
                client_at queue (at [] (answers is_regular connected (call ∷ calls))) connected;
            world = w';
          }))
        × (w'.server.is_connected ≡ connected_by connected (call ∷ calls))
        × (w'.server.write ≡ empty_buffer)
  unfolding communicate_with_server communicate_with prepare_to_read
  communicate-answers queue read connected call calls w h c new =
      let text : Errno → Bytes = λ e. strerror (errno e) in
      let x = direct_process-Exchanged is_regular text w.server call calls connected h c new in
      let finish : Exchange cls text → Option (Called R Status) = λ e. some (record {
        result = success;
        client = record (client_at queue read connected) { write = e.from; read = e.to };
        world = record w { server = e.server };
      }) in
      (
        record w { server = x.server },
        ap (λ b. direct_process cls text w.server b empty_buffer >>= finish)
              (prepare-joined (call_line call) (lines calls) (lines-IsLine (call ∷ calls) h))
            ∙ ap (λ o. o >>= finish) x.exchange,
        x.up,
        x.nothing_written,
      )

-- The responses to the calls, one after the other.
module _ (R : Type 0) (is_regular : Bytes → Bool) (strerror : Status → Bytes) where
  pub responses_read :
      (calls : List Call) (peer : Peer) (queue : List (Option RequestCode)) (connected : Bool)
      (pre : Bytes)
      → AreCalls calls
      → (b : MessageBuffer) × (process_responses {R = R}
            (default_resolver is_regular)
            strerror
            (codes_of calls)
            (client_over peer queue (at pre (answers is_regular connected calls)) connected)
          ≡ some (
            all_told is_regular connected calls,
            client_over peer queue b (connected_by connected calls),
          ))
  unfolding process_responses
  responses_read [] peer queue connected pre h = (at pre [], refl)
  responses_read (call ∷ calls) peer queue connected pre (h, hs) =
      let after = connected_after connected call in
      let l = reply_line is_regular connected call in
      let ls = answers is_regular after calls in
      let (b, e) = responses_read calls peer queue after (pre ++ front l ls) hs in
      (
        b,
        rw
            (response_read peer queue connected pre (call_code call) l ls
              (told is_regular connected call) after (last_of (codes_of calls))
              (reply_line-IsLine is_regular connected call h)
              (told-Returns is_regular connected call h)
              (no_more is_regular after calls (pre ++ front l ls)))
            (rw e refl),
      )
