-- ===== src/Client.antt =====
-- `Client` of client.cc and cody.hh: its state, the communication with the server, and what it
-- makes of the answers. The server of a direct connection, and how the system calls answer, stand
-- beside the client in a record of their own.
pub mod Requests
pub mod Lines
pub mod RequestTrip
pub mod Invoke
pub mod Corked
pub mod ErrorTrip
pub mod Receiving
pub mod Sending
pub mod Objects
pub mod Message
pub mod Communicate
pub mod Kinds
pub mod Queue
pub mod Failing
pub mod Robust
use libcody.Prelude.{
  ℕ, ◌+◌, ◌-◌, ◌%◌, Bool, true, false, not, ◌&&◌, ◌||◌, List, [], ◌∷◌, ◌++◌, Option, none, some,
  Bytes, codes, length, ltb, ◌==◌, if◌then◌else◌, ◌>>=◌, equal, c_string,
}
use libcody.Status.{Errno, einval, Status, success, unspecific, errno, is_retry}
use libcody.Number.{unsigned_mod, is_empty, Parsed, strtoul}
use libcody.Buffer.{MessageBuffer, is_at_end, prepare_to_write, prepare_to_read}
use libcody.Buffer.Lex.{Lexed, lex}
use libcody.Buffer.Line.{lexed_line}
use libcody.Buffer.Transfer.{WriteResult, ReadResult, Transfer, write, read}
use libcody.Packet.{
  RequestCode, connect, module_repo, module_export, module_import, module_compiled,
  include_translate, invoke, request_number, PacketCode, pc_corked, pc_connect, pc_error, pc_ok,
  pc_bool, pc_pathname, Payload, integer, string, Packet, packet, set_request,
}
use libcody.Response.{error_packet, response}
use libcody.Server.{Fd, Server, Resolvers, version}
use libcody.Server.Process.{Exchange, direct_process}

-- The union of the descriptors and the server, with its discriminator.
pub data Peer : Type 0 where
  direct : Peer
  remote : Fd → Peer

-- `corked` holds the queued codes behind a first tag, -1, which is `none` here.
pub record Client : Type 0 where
  pub write : MessageBuffer
  pub read : MessageBuffer
  pub corked : List (Option RequestCode)
  pub peer : Peer
  pub is_connected : Bool

-- The server of a direct connection; the answers to come of `write (2)`, and those of `read (2)`,
-- each with the capacity of the buffer.
pub record World (R : Type 0) : Type 0 where
  pub server : Server R
  pub writes : List (Bytes → WriteResult)
  pub reads : List (ℕ × (ℕ → ReadResult))

abbrev pub is_corked : Client → Bool
is_corked c = elim c.corked [ [] ↦ false | _ ∷ _ ↦ true ]

pub record Sent (A : Type 0) : Type 0 where
  pub status : Status
  pub buffer : MessageBuffer
  pub later : List A

-- The loops make another call after `EAGAIN` and `EINTR`. With no answer left they wait, `none`.
abbrev pub is_done : Status → Bool
is_done (errno e) = not (is_retry e)
is_done status = true

unfoldable pub write_loop :
    MessageBuffer → List (Bytes → WriteResult) → Option (Sent (Bytes → WriteResult))
unfolding write
write_loop b [] = none
write_loop b (os ∷ later) =
    let t = write os b in
    let rest = write_loop t.rest later in
    if is_done t.status
    then some (record { status = t.status; buffer = t.rest; later = later })
    else rest

unfoldable pub read_loop :
    MessageBuffer → List (ℕ × (ℕ → ReadResult)) → Option (Sent (ℕ × (ℕ → ReadResult)))
unfolding read
read_loop b [] = none
read_loop b ((capacity, os) ∷ later) =
    let t = read capacity os b in
    let rest = read_loop t.rest later in
    if is_done t.status
    then some (record { status = t.status; buffer = t.rest; later = later })
    else rest

-- What a call gives beside its packets.
pub record Called (R A : Type 0) : Type 0 where
  pub result : A
  pub client : Client
  pub world : World R

-- The text of a response in error, `malformed error response` unless it has one word.
abbrev error_text : List Bytes → Bytes
error_text (msg ∷ []) = msg
error_text words = codes "malformed error response"

-- The last part of `ProcessResponse`: an error with no text gets one, and a connection is noted.
unfoldable pub finish_response : PacketCode → Payload → Client → Packet → Option (Packet × Client)
unfolding lexed_line
finish_response pc_error (string []) c p = do
  line ← lexed_line c.read (codes "malformed response '")
  some (record p { payload = string (line ++ b'\'' ∷ []) }, c)
finish_response pc_connect payload c p = some (p, record c { is_connected = true })
finish_response code payload c p = some (p, c)

-- The packet of the table, with the request set.
abbrev answered : Client → List Bytes → Option RequestCode → Option (Packet × Client)
unfolding response finish_response
answered c words none = none
answered c words (some code) =
    let p = set_request (response code words) (request_number code) in
    finish_response p.code p.payload c p

unfoldable pub process_words :
    Client → Status → List Bytes → Option RequestCode → Bool → Option (Packet × Client)
unfolding equal is_at_end answered
process_words c (errno einval) [] code is_last = none
process_words c (errno einval) (w ∷ ws) code is_last =
    some (error_packet (codes "malformed string '" ++ w ++ b'\'' ∷ []), c)
process_words c success [] code is_last = none
process_words c success (w ∷ ws) code is_last =
    if equal w (codes "ERROR")
    then some (error_packet (error_text ws), c)
    else if is_last && not (is_at_end c.read)
    then some (error_packet (codes "unexpected extra response"), c)
    else answered c (w ∷ ws) code
process_words c failed words code is_last = some (error_packet (codes "missing response"), c)

-- `ProcessResponse`; the code `none` is the tag -1. `none` is a fault.
unfoldable pub process_response : Client → Option RequestCode → Bool → Option (Packet × Client)
unfolding lex process_words
process_response c code is_last = do
  lexed ← lex c.read
  process_words (record c { read = lexed.rest }) lexed.status lexed.words code is_last

module _ {R : Type 0} (cls : Resolvers R) (strerror : Status → Bytes) where
  abbrev errno_text : Errno → Bytes
  errno_text e = strerror (errno e)

  unfoldable pub communication_error : Status → Packet
  communication_error err = error_packet (codes "communication error: " ++ strerror err)

  abbrev communicate_direct : Client → World R → Option (Called R Status)
  unfolding direct_process
  communicate_direct c w = do
    e ← direct_process cls errno_text w.server c.write c.read
    some (record {
      result = success;
      client = record c { write = e.from; read = e.to };
      world = record w { server = e.server };
    })

  -- The answer to a write that failed for good, or the answer to the reads.
  abbrev pub read_answer : Client → World R → Status → Option (Called R Status)
  unfolding read_loop
  read_answer c w success = do
    r ← read_loop c.read w.reads
    some (record {
      result = r.status;
      client = record c { read = r.buffer };
      world = record w { reads = r.later };
    })
  read_answer c w err = some (record { result = err; client = c; world = w })

  abbrev communicate_remote : Client → World R → Option (Called R Status)
  unfolding write_loop read_answer
  communicate_remote c w = do
    s ← write_loop c.write w.writes
    read_answer (record c { write = s.buffer }) (record w { writes = s.later }) s.status

  unfoldable pub communicate_with : Peer → Client → World R → Option (Called R Status)
  unfolding communicate_direct communicate_remote
  communicate_with direct c w = communicate_direct c w
  communicate_with (remote fd) c w = communicate_remote c w

  -- `CommunicateWithServer`; `none` is a fault, or a wait for ever.
  unfoldable pub communicate_with_server : Client → World R → Option (Called R Status)
  unfolding communicate_with prepare_to_write prepare_to_read
  communicate_with_server c w =
      communicate_with c.peer
        (record c { write = prepare_to_write c.write; read = prepare_to_read c.read }) w

  -- The one response to a request that is not corked.
  abbrev pub single_response : RequestCode → Status → Client → World R → Option (Called R Packet)
  unfolding process_response
  single_response code success c w = do
    answer ← process_response c (some code) true
    some (record { result = answer.0; client = answer.1; world = w })
  single_response code err c w =
      some (record { result = communication_error err; client = c; world = w })

  unfoldable pub maybe_request : RequestCode → Client → World R → Option (Called R Packet)
  unfolding communicate_with_server single_response
  maybe_request code c w =
      let queued = record c { corked = c.corked ++ some code ∷ [] } in
      let sent =
        communicate_with_server c w >>= λ e. single_response code e.result e.client e.world in
      if is_corked c
      then some (record { result = packet pc_corked (integer 0); client = queued; world = w })
      else sent

  unfoldable pub cork : Client → Client
  cork c = if is_corked c then c else record c { corked = none ∷ [] }

  -- The loop over the tags behind the first.
  unfoldable pub process_responses :
      List (Option RequestCode) → Client → Option (List Packet × Client)
  unfolding process_response
  process_responses [] c = some ([], c)
  process_responses (code ∷ codes) c = do
    answer ← process_response c code (elim codes [ [] ↦ true | _ ∷ _ ↦ false ])
    rest ← process_responses codes answer.1
    some (answer.0 ∷ rest.0, rest.1)

  abbrev all_responses :
      List (Option RequestCode) → Status → Client → World R → Option (Called R (List Packet))
  unfolding process_responses communication_error
  all_responses queue success c w = do
    answers ← process_responses queue c
    some (record { result = answers.0; client = record answers.1 { corked = [] }; world = w })
  all_responses queue err c w = some (record {
    result = communication_error err ∷ [];
    client = record c { corked = [] };
    world = w;
  })

  -- `Uncork`, by what `corked` holds.
  abbrev uncork_queue :
      List (Option RequestCode) → Client → World R → Option (Called R (List Packet))
  unfolding communicate_with_server all_responses
  uncork_queue (tag ∷ code ∷ codes) c w =
      communicate_with_server c w >>= λ e. all_responses (code ∷ codes) e.result e.client e.world
  uncork_queue short c w =
      some (record { result = []; client = record c { corked = [] }; world = w })

  unfoldable pub uncork : Client → World R → Option (Called R (List Packet))
  unfolding uncork_queue
  uncork c w = uncork_queue c.corked c w
