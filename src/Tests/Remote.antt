-- ===== src/Tests/Remote.antt =====
-- A session of a new client with a new server over descriptors.
use libcody.Prelude.{
  ◌≤◌, true, false, List, [], ◌∷◌, ◌++◌, some, ◌≡◌, refl, arith, Bytes, map, length, codes,
}
use libcody.Packet.{Packet}
use libcody.Buffer.{empty_buffer}
use libcody.Server.{Fd, Server, new_server}
use libcody.Resolver.{default_resolver}
use libcody.Client.{Client, World, Called, remote}
use libcody.Session.{Call, greets, asks_repo, run_calls, run_batch, corked_packet, connected_by}
use libcody.Session.Told.{all_told, answers}
use libcody.Session.Joined.{joined}
use libcody.Session.Remote.{IsOpen}
use libcody.Session.Remote.Whole.{total_size, remote_calls-told}
use libcody.Session.Remote.Batch.{remote_batch-told}
use libcody.Session.Remote.Relayed.{
  supply, supply-Takes, length-supply, at_once, pieces, all_requests, length-all_requests, relayed,
  relays,
}
use libcody.Session.Serving.{lines}
use libcody.Session.Remote.Hosted.{Answered, serve_message-Answered}
use libcody.Session.Host.{Turn, serve_message}
use libcody.Session.Remote.{Reads, Brings}
use libcody.Client.Receiving.{answer, arrives, interrupted}
use libcody.Status.{eagain}
use libcody.Buffer.Transfer.{got}
use libcody.Buffer.Words.{word_text}
use libcody.Number.{to_string}
use libcody.Tests.{fresh, ascii}
use libcody.Tests.Session.{has_header, build, later_calls, build-AreCalls}

abbrev pub pipe : Fd
pipe = record { from = some 3; to = some 4 }

abbrev client : Client
client = record fresh { peer = remote pipe }

abbrev server : Server (Unit {0})
unfolding new_server
server = new_server tt (some 0) (some 1)

-- What the client's system is to do, one message after the other.
abbrev outside : World (Unit {0})
outside = record {
  server = server;
  writes = supply (all_requests build);
  reads = pieces has_header false build;
}

-- The same for the message of all calls.
abbrev message : List Call → Bytes
message calls = joined (lines calls)

abbrev corked_outside : List Call → World (Unit {0})
corked_outside calls = record {
  server = server;
  writes = supply (message calls);
  reads = at_once (joined (answers has_header false calls)) ∷ [];
}

outside-IsOpen : IsOpen pipe false client outside
outside-IsOpen = record {
  read = empty_buffer;
  client_is = refl;
  takes = supply-Takes (all_requests build);
}

enough : total_size build ≤ length (supply (all_requests build))
enough = omega (arith, length-supply (all_requests build), length-all_requests build)

remote_calls-told_example :
    (o : Called (Unit {0}) (List Packet)) × (run_calls
        (default_resolver has_header)
        (λ e. [])
        build
        client
        outside
      ≡ some o)
    × (o.result ≡ all_told has_header false build)
    × IsOpen pipe true o.client o.world
unfolding server
remote_calls-told_example =
    remote_calls-told (default_resolver has_header) (λ e. []) has_header (λ e. []) pipe false build
      client outside server outside-IsOpen refl refl build-AreCalls enough
      (relays has_header (λ e. []) build false server (supply (all_requests build)) build-AreCalls
        refl refl (supply-Takes (all_requests build)) enough)

remote_batch-told_example :
    (o : Called (Unit {0}) (List Packet × List Packet)) × (run_batch
        (default_resolver has_header)
        (λ e. [])
        build
        client
        (corked_outside build)
      ≡ some o)
    × (o.result ≡ (map (λ call. corked_packet) build, all_told has_header false build))
    × IsOpen pipe true o.client o.world
unfolding server
remote_batch-told_example =
    remote_batch-told (default_resolver has_header) (λ e. []) has_header (λ e. []) pipe false
      asks_repo later_calls client (corked_outside build) server
      (record { read = empty_buffer; client_is = refl; takes = supply-Takes (message build) }) refl
      refl build-AreCalls (omega (arith, length-supply (message build)))
      (relayed has_header (λ e. []) false server asks_repo later_calls (supply (message build)) []
        build-AreCalls refl refl (supply-Takes (message build))
        (omega (arith, length-supply (message build)))).relay

-- A message that comes to the server in pieces.
abbrev hello : List Call
hello = greets (codes "gcc") (codes "") ∷ []

abbrev hello_pieces : Reads
hello_pieces =
    map answer (arrives 300 b'H' (codes "ELLO 1") ∷ interrupted 300 eagain refl ∷ [])
    ++ (300, λ n. got (codes " gcc ''\n")) ∷ []

hello_pieces-Brings : Brings hello_pieces (joined (lines hello)) []
unfolding word_text to_string
hello_pieces-Brings = record {
  first = arrives 300 b'H' (codes "ELLO 1") ∷ interrupted 300 eagain refl ∷ [];
  capacity = 300;
  head = b' ';
  tail = codes "gcc ''\n";
  reads_are = refl;
  is_message = refl;
}

abbrev hello_back : Bytes
hello_back = joined (answers has_header false hello)

serve_message-Answered_example :
    (turn : Turn (Unit {0})) × Answered
      (connected_by false hello)
      hello_back
      (serve_message
        (default_resolver has_header)
        (λ e. [])
        server
        hello_pieces
        (supply hello_back))
      turn
unfolding server
serve_message-Answered_example =
    serve_message-Answered has_header (λ e. []) (greets (codes "gcc") (codes "")) [] false server
      hello_pieces [] (supply hello_back) ((ascii (codes "gcc") refl, tt), tt) refl refl
      hello_pieces-Brings (supply-Takes hello_back) (omega (arith, length-supply hello_back))
