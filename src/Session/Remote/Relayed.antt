-- ===== src/Session/Remote/Relayed.antt =====
-- A system that relays every session: each call of `write (2)` takes all bytes, and each message
-- comes in one piece.
use mathlib.Core.Path.{subst}
use libcody.Prelude.{
  ℕ, ◌+◌, ◌≤◌, ◌<◌, Bool, List, [], ◌∷◌, ◌++◌, ◌≡◌, ◌≢◌, refl, sym, ap, ◌∙◌, arith, Bytes, length,
  map, All, length-append,
}
use libcody.Status.{Errno}
use libcody.Buffer.{empty_buffer}
use libcody.Buffer.Transfer.{WriteResult, ReadResult, wrote, got}
use libcody.Server.{Server}
use libcody.Client.Sending.{Takes, delivered}
use libcody.Client.Message.{write_loop-SendsAll}
use libcody.Session.{Call, AreCalls, connected_after, connected_by}
use libcody.Session.Written.{call_line}
use libcody.Session.Joined.{joined, at, prepare-joined, length-joined}
use libcody.Session.Serving.{lines, lines-IsLine}
use libcody.Session.Told.{reply_line, answers}
use libcody.Session.Remote.{Reads, Writes, Brings, request, left, Relay, Relays}
use libcody.Session.Remote.Exchange.{request_size, after_loop}
use libcody.Session.Remote.Whole.{total_size}
use libcody.Session.Remote.Hosted.{serve_message-Answered}

abbrev takes_all : Bytes → WriteResult
takes_all d = wrote (length d)

abbrev pub supply : Bytes → Writes
supply = map (λ c. takes_all)

length-positive : (d : Bytes) → d ≢ [] → 0 < length d
length-positive [] h = absurd (h refl)
length-positive (c ∷ d) h = omega arith

takes_all-Takes : Takes takes_all
takes_all-Takes = record { some_byte = λ d h. (length d, refl, length-positive d h, omega arith) }

pub supply-Takes : (s : Bytes) → All Takes (supply s)
supply-Takes [] = tt
supply-Takes (c ∷ s) = (takes_all-Takes, supply-Takes s)

pub length-supply : (s : Bytes) → length (supply s) ≡ length s
length-supply [] = refl
length-supply (c ∷ s) = omega (arith, length-supply s)

abbrev pub at_once : Bytes → ℕ × (ℕ → ReadResult)
at_once m = (200, λ n. got m)

Brings-at_once : (m : Bytes) (later : Reads) → 0 < length m → Brings (at_once m ∷ later) m later
Brings-at_once [] later h = absurd (omega arith)
Brings-at_once (c ∷ m) later h = record {
  first = [];
  capacity = 200;
  head = c;
  tail = m;
  reads_are = refl;
  is_message = refl;
}

-- The answers of the calls, each in one piece.
abbrev pub pieces : (Bytes → Bool) → Bool → List Call → Reads
pieces is_regular connected [] = []
pieces is_regular connected (call ∷ calls) =
    at_once (joined (reply_line is_regular connected call ∷ []))
    ∷ pieces is_regular (connected_after connected call) calls

-- The bytes of the requests, each a message.
abbrev pub all_requests : List Call → Bytes
all_requests [] = []
all_requests (call ∷ calls) = joined (lines (call ∷ [])) ++ all_requests calls

pub length-all_requests : (calls : List Call) → length (all_requests calls) ≡ total_size calls
length-all_requests [] = refl
length-all_requests (call ∷ calls) = omega (
  arith,
  length-all_requests calls,
  length-append (joined (lines (call ∷ []))) (all_requests calls),
)

module _ {R : Type 0} (is_regular : Bytes → Bool) (strerror : Errno → Bytes) where
  -- The exchange of one message, and where it leaves the server and the system.
  pub record Relayed (connected : Bool) (s : Server R) (calls : List Call) (writes : Writes)
      (later : Reads) : Type 0 where
    pub relay :
        Relay is_regular strerror s
          (request calls)
          writes
          (at_once (joined (answers is_regular connected calls)) ∷ later)
    pub later_is : relay.later ≡ later
    pub up : relay.turn.server.is_connected ≡ connected_by connected calls
    pub nothing_written : relay.turn.server.write ≡ empty_buffer
    pub still_Takes : All Takes (left (request calls) writes)
    pub enough_left : length writes ≤ request_size calls + length (left (request calls) writes)

  pub relayed :
      (connected : Bool) (s : Server R) (call : Call) (calls : List Call) (writes : Writes)
      (later : Reads)
      → AreCalls (call ∷ calls)
      → s.is_connected ≡ connected
      → s.write ≡ empty_buffer
      → All Takes writes
      → request_size (call ∷ calls) ≤ length writes
      → Relayed connected s (call ∷ calls) writes later
  relayed connected s call calls writes later h c new takes fuel =
      let message = joined (lines (call ∷ calls)) in
      let back = joined (answers is_regular connected (call ∷ calls)) in
      let ready = prepare-joined (call_line call) (lines calls) (lines-IsLine (call ∷ calls) h) in
      let size : 0 < length message = omega (arith, length-joined (lines (call ∷ calls))) in
      let a = write_loop-SendsAll writes (at [] (lines (call ∷ calls))) takes size (omega arith) in
      let sent = ap (λ b. delivered b writes) ready ∙ a.all_delivered in
      let left_is = ap (λ b. left b writes) ready ∙ ap after_loop a.sends in
      let (turn, t) =
        serve_message-Answered is_regular strerror call calls connected s (at_once message ∷ []) []
          (supply back) h c new (Brings-at_once message [] size) (supply-Takes back)
          (omega (arith, length-supply back)) in
      record {
        relay = record {
          server_reads = at_once message ∷ [];
          server_rest = [];
          server_writes = supply back;
          turn = turn;
          later = later;
          goes =
              subst (λ m. Brings (at_once message ∷ []) m []) (sym sent)
                (Brings-at_once message [] size);
          server_Takes = supply-Takes back;
          serves = t.answers;
          comes_back =
              subst (λ m. Brings (at_once back ∷ later) m later) (sym t.is_sent)
                (Brings-at_once back later
                  (omega (arith, length-joined (answers is_regular connected (call ∷ calls)))));
        };
        later_is = refl;
        up = t.up;
        nothing_written = t.nothing_written;
        still_Takes = subst (λ ws. All Takes ws) (sym left_is) a.still_Takes;
        enough_left = rw left_is (omega (arith, a.enough_left));
      }

  -- Every session is relayed.
  pub relays :
      (calls : List Call) (connected : Bool) (s : Server R) (writes : Writes)
      → AreCalls calls
      → s.is_connected ≡ connected
      → s.write ≡ empty_buffer
      → All Takes writes
      → total_size calls ≤ length writes
      → Relays is_regular strerror s calls writes (pieces is_regular connected calls)
  relays [] connected s writes h c new takes fuel = tt
  relays (call ∷ calls) connected s writes (h, hs) c new takes fuel =
      let after = connected_after connected call in
      let later = pieces is_regular after calls in
      let r = relayed connected s call [] writes later (h, tt) c new takes (omega arith) in
      (
        r.relay,
        rw r.later_is (
            relays calls after r.relay.turn.server (left (request (call ∷ [])) writes) hs r.up
              r.nothing_written r.still_Takes (omega (arith, r.enough_left))),
      )
