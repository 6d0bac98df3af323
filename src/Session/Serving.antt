-- ===== src/Session/Serving.antt =====
-- The server of a direct connection on a message of calls: `ProcessRequests` and `DirectProcess`.
use libcody.Prelude.{
  ℕ, zero, suc, ◌≤◌, Bool, List, [], ◌∷◌, ◌++◌, Option, some, ◌≡◌, refl, ap, ◌∙◌, arith, Bytes,
  length, map, All, inl,
}
use libcody.Status.{Errno}
use libcody.Buffer.{empty_buffer, prepare_to_write, prepare_to_read}
use libcody.Buffer.Message.{Word, IsLine, write_lines}
use libcody.Server.{Server, processing}
use libcody.Server.Process.{process_loop, process_requests, direct_process}
use libcody.Server.Loop.{process_loop_end, process_loop_next}
use libcody.Resolver.{default_resolver}
use libcody.Resolver.Contract.{default_resolver-Answers}
use libcody.Buffer.LastLine.{BeginsLine}
use libcody.Session.{Call, AreCalls, connected_after, connected_by}
use libcody.Session.Readable.{call-IsLine}
use libcody.Session.Written.{call_line}
use libcody.Session.Joined.{
  joined, front, at, prepare-joined, joined_more, joined_end, length-joined,
}
use libcody.Session.Quoted.{front-BeginsLine}
use libcody.Session.Told.{reply_line, answers, answers-IsLine}
use libcody.Session.Line.{call_done}

abbrev pub lines : List Call → List (List Word)
lines = map call_line

pub lines-IsLine : (calls : List Call) → AreCalls calls → All IsLine (lines calls)
lines-IsLine [] h = tt
lines-IsLine (call ∷ calls) (h, hs) = (call-IsLine call h, lines-IsLine calls hs)

module _ {R : Type 0} (is_regular : Bytes → Bool) (strerror : Errno → Bytes) where
  -- The loop over the lines of the calls.
  pub record Processed (s : Server R) (calls : List Call) (connected : Bool) (o : Option (Server R))
      : Type 0 where
    pub server : Server R
    pub ends : o ≡ some server
    pub written : server.write ≡ write_lines s.write (answers is_regular connected calls)
    pub up : server.is_connected ≡ connected_by connected calls

  pub loop-Processed :
      (calls : List Call) (connected : Bool) (fuel : ℕ) (pre : Bytes) (s : Server R)
      → length (lines calls) ≤ fuel
      → BeginsLine pre
      → AreCalls calls
      → s.is_connected ≡ connected
      → s.read ≡ at pre (lines calls)
      → Processed s calls connected (process_loop (default_resolver is_regular) strerror fuel s)
  unfolding write_lines
  loop-Processed [] connected fuel pre s le begins h c r = record {
    server = s;
    ends =
        process_loop_end (default_resolver is_regular) (default_resolver-Answers is_regular)
          strerror fuel s (rw r (joined_end pre));
    written = refl;
    up = c;
  }
  loop-Processed (call ∷ calls) connected zero pre s le begins h c r = absurd (omega arith)
  loop-Processed (call ∷ calls) connected (suc fuel) pre s le begins (h, hs) c r =
      let pre' = pre ++ front (call_line call) (lines calls) in
      let v = call_done is_regular strerror pre call (lines calls) connected s begins h c r in
      let rest =
        loop-Processed calls (connected_after connected call) fuel pre' v.server (omega arith)
          (front-BeginsLine pre (call_line call) (lines calls)) hs v.up v.same_read in
      record {
        server = rest.server;
        ends =
            process_loop_next (default_resolver is_regular) (default_resolver-Answers is_regular)
              strerror fuel s v.server (rw r (joined_more pre (call_line call) (lines calls)))
              v.done
            ∙ rest.ends;
        written =
            rest.written
            ∙ ap (λ b. write_lines b (answers is_regular (connected_after connected call) calls))
                v.written;
        up = rest.up;
      }

  pub process_requests-Processed :
      (calls : List Call) (connected : Bool) (s : Server R)
      → AreCalls calls
      → s.is_connected ≡ connected
      → s.read ≡ at [] (lines calls)
      → Processed s calls connected (process_requests (default_resolver is_regular) strerror s)
  unfolding process_requests
  process_requests-Processed calls connected s h c r =
      let size : length s.read.buffer ≡ length (joined (lines calls)) =
        ap (λ b. length b.buffer) r in
      let p =
        loop-Processed calls connected (length s.read.buffer) []
          (record s { direction = processing }) (rw size (length-joined (lines calls))) (inl refl) h
          c r in
      record { server = p.server; ends = p.ends; written = p.written; up = p.up }

  -- The answers, ready to be sent.
  pub Processed-prepared :
      (s : Server R) (call : Call) (calls : List Call) (connected : Bool) (o : Option (Server R))
      (p : Processed s (call ∷ calls) connected o)
      → AreCalls (call ∷ calls)
      → s.write ≡ empty_buffer
      → prepare_to_write p.server.write ≡ at [] (answers is_regular connected (call ∷ calls))
  Processed-prepared s call calls connected o p h new =
      ap prepare_to_write p.written
      ∙ ap (λ b. prepare_to_write (write_lines b (answers is_regular connected (call ∷ calls)))) new
      ∙ prepare-joined (reply_line is_regular connected call)
          (answers is_regular (connected_after connected call) calls)
          (answers-IsLine is_regular connected (call ∷ calls) h)

  -- The message of calls that the server is given, and the message of answers that it gives back.
  pub record Exchanged (s : Server R) (connected : Bool) (call : Call) (calls : List Call)
      : Type 0 where
    pub server : Server R
    pub exchange :
        direct_process
          (default_resolver is_regular)
          strerror
          s
          (at [] (lines (call ∷ calls)))
          empty_buffer
        ≡ some (record {
          server = server;
          from = empty_buffer;
          to = at [] (answers is_regular connected (call ∷ calls));
        })
    pub nothing_written : server.write ≡ empty_buffer
    pub up : server.is_connected ≡ connected_by connected (call ∷ calls)

  pub direct_process-Exchanged :
      (s : Server R) (call : Call) (calls : List Call) (connected : Bool)
      → AreCalls (call ∷ calls)
      → s.is_connected ≡ connected
      → s.write ≡ empty_buffer
      → Exchanged s connected call calls
  unfolding direct_process prepare_to_read default_resolver
  direct_process-Exchanged s call calls connected h c new =
      let b = at [] (lines (call ∷ calls)) in
      let p =
        process_requests-Processed (call ∷ calls) connected (record s { read = b }) h c refl in
      record {
        server = record p.server { write = empty_buffer };
        exchange =
            rw p.ends
              (rw (Processed-prepared (record s { read = b }) call calls connected _ p h new) refl);
        nothing_written = refl;
        up = p.up;
      }
