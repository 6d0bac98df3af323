-- ===== src/Session.antt =====
-- A session of a client with a server, in the same process or over descriptors: the calls of
-- client.cc down to the default resolver and back.
pub mod Ascii
pub mod Steps
pub mod Plain
pub mod Greeting
pub mod Packets
pub mod Written
pub mod Readable
pub mod Joined
pub mod Calls
pub mod Serving
pub mod Received
pub mod Whole
pub mod Batch
pub mod Pieces
pub mod Host
pub mod Quoted
pub mod Told
pub mod Line
pub mod InOrder
pub mod Remote
use libcody.Prelude.{
  ℕ, ◌<◌, ◌≡◌, ◌≢◌, Bool, true, false, not, refl, arith, List, [], ◌∷◌, Option, some, none, Bytes,
  codes, All, if◌then◌else◌, ◌>>=◌,
}
use libcody.Status.{Status}
use libcody.Buffer.Words.{IsAscii, IsWord}
use libcody.Buffer.Append.{argument}
use libcody.Response.{error_packet}
use libcody.Packet.{
  RequestCode, connect, module_repo, module_export, module_import, module_compiled,
  include_translate, request_number, Packet, packet, PacketCode, pc_corked, pc_connect, pc_ok,
  pc_bool, pc_pathname, Payload, integer, string,
}
use libcody.Server.{Resolvers}
use libcody.Server.Process.{no_value}
use libcody.Resolver.{get_cmi_name, get_cmi_suffix, repo_dir}
use libcody.Client.{Client, World, Called, cork, uncork}
use libcody.Client.Requests.{
  invoke_call, connect_string, module_repo_call, module_export_string, module_import_string,
  module_compiled_string, include_translate_string,
}

-- A call of the client, by the function and its arguments.
pub data Call : Type 0 where
  greets : Bytes → Bytes → Call
  asks_repo : Call
  exports imports compiles translates : Bytes → ℕ → Call
  invokes : Bytes → List Bytes → Call

module _ {R : Type 0} (cls : Resolvers R) (strerror : Status → Bytes) where
  unfoldable pub run_call : Call → Client → World R → Option (Called R Packet)
  unfolding connect_string module_repo_call module_export_string module_import_string
      module_compiled_string include_translate_string invoke_call
  run_call (greets agent ident) c w = connect_string cls strerror c agent ident w
  run_call asks_repo c w = module_repo_call cls strerror c w
  run_call (exports name flags) c w = module_export_string cls strerror c name flags w
  run_call (imports name flags) c w = module_import_string cls strerror c name flags w
  run_call (compiles name flags) c w = module_compiled_string cls strerror c name flags w
  run_call (translates name flags) c w = include_translate_string cls strerror c name flags w
  run_call (invokes arg args) c w = invoke_call cls strerror c (arg ∷ args) w

  -- One call after the other, and the packets that they return.
  unfoldable pub run_calls : List Call → Client → World R → Option (Called R (List Packet))
  unfolding run_call
  run_calls [] c w = some (record { result = []; client = c; world = w })
  run_calls (call ∷ calls) c w = do
    first ← run_call call c w
    rest ← run_calls calls first.client first.world
    some (record { result = first.result ∷ rest.result; client = rest.client; world = rest.world })

  -- The calls between `Cork` and `Uncork`: the packets of the calls, and those of `Uncork`.
  unfoldable pub run_batch :
      List Call → Client → World R → Option (Called R (List Packet × List Packet))
  unfolding run_calls cork uncork
  run_batch calls c w = do
    queued ← run_calls calls (cork cls strerror c) w
    answers ← uncork cls strerror queued.client queued.world
    some (record {
      result = (queued.result, answers.result);
      client = answers.client;
      world = answers.world;
    })

-- The packet of a call that is corked.
abbrev pub corked_packet : Packet
corked_packet = packet pc_corked (integer 0)

-- A packet that answers a request.
abbrev pub reply : RequestCode → PacketCode → Payload → Packet
reply request code payload = record {
  payload = payload;
  code = code;
  request = request_number request;
}

abbrev pub named : RequestCode → Bytes → Packet
named request path = reply request pc_pathname (string path)

-- What the client is promised: no message, no line and no server in it.
abbrev pub promised : (Bytes → Bool) → Call → Packet
promised is_regular (greets agent ident) = reply connect pc_connect (integer 0)
promised is_regular asks_repo = named module_repo repo_dir
promised is_regular (exports name flags) = named module_export (get_cmi_name get_cmi_suffix name)
promised is_regular (imports name flags) = named module_import (get_cmi_name get_cmi_suffix name)
promised is_regular (compiles name flags) = reply module_compiled pc_ok (integer 0)
promised is_regular (translates name flags) =
    if is_regular (get_cmi_name get_cmi_suffix name)
    then named include_translate (get_cmi_name get_cmi_suffix name)
    else reply include_translate pc_bool (integer 0)
promised is_regular (invokes arg args) = error_packet (codes "unimplemented")

-- A name in ASCII that is not empty, and flags that are not `~0u`.
abbrev pub IsNamed : Bytes → ℕ → Type 0
IsNamed name flags = All IsAscii name × (name ≢ []) × (flags < no_value)

-- An argument that is read back: the bytes up to its NUL are a word with no quotes.
abbrev pub IsArgument : Bytes → Type 0
IsArgument arg = IsWord false (argument arg none)

-- A call that is in order when the client is connected, or not.
abbrev pub IsInOrder : Bool → Call → Type 0
IsInOrder false (greets agent ident) = All IsAscii agent × All IsAscii ident
IsInOrder false call = ⊥
IsInOrder true (greets agent ident) = ⊥
IsInOrder true asks_repo = Unit
IsInOrder true (exports name flags) = IsNamed name flags
IsInOrder true (imports name flags) = IsNamed name flags
IsInOrder true (compiles name flags) = IsNamed name flags
IsInOrder true (translates name flags) = IsNamed name flags
IsInOrder true (invokes arg args) = IsArgument arg × All IsArgument args

-- A call that is well formed, whatever the client is.
abbrev pub IsCall : Call → Type 0
IsCall (greets agent ident) = All IsAscii agent × All IsAscii ident
IsCall asks_repo = Unit
IsCall (exports name flags) = IsNamed name flags
IsCall (imports name flags) = IsNamed name flags
IsCall (compiles name flags) = IsNamed name flags
IsCall (translates name flags) = IsNamed name flags
IsCall (invokes arg args) = IsArgument arg × All IsArgument args

abbrev pub AreCalls : List Call → Type 0
AreCalls = All IsCall

-- `Connect` is in order when the client is not connected, and the other calls when it is.
abbrev pub in_order : Bool → Call → Bool
in_order connected (greets agent ident) = not connected
in_order connected call = connected

-- Whether the client is connected behind a call.
abbrev pub connected_after : Bool → Call → Bool
connected_after connected (greets agent ident) = true
connected_after connected call = connected

abbrev pub connected_by : Bool → List Call → Bool
connected_by connected [] = connected
connected_by connected (call ∷ calls) = connected_by (connected_after connected call) calls

pub in_order-IsInOrder :
    (connected : Bool) (call : Call)
    → in_order connected call ≡ true
    → IsCall call
    → IsInOrder connected call
in_order-IsInOrder false (greets agent ident) e h = h
in_order-IsInOrder true (greets agent ident) e h = absurd (cc)
in_order-IsInOrder true asks_repo e h = h
in_order-IsInOrder false asks_repo e h = absurd (cc)
in_order-IsInOrder true (exports name flags) e h = h
in_order-IsInOrder false (exports name flags) e h = absurd (cc)
in_order-IsInOrder true (imports name flags) e h = h
in_order-IsInOrder false (imports name flags) e h = absurd (cc)
in_order-IsInOrder true (compiles name flags) e h = h
in_order-IsInOrder false (compiles name flags) e h = absurd (cc)
in_order-IsInOrder true (translates name flags) e h = h
in_order-IsInOrder false (translates name flags) e h = absurd (cc)
in_order-IsInOrder true (invokes arg args) e h = h
in_order-IsInOrder false (invokes arg args) e h = absurd (cc)

pub connected_after_order :
    (connected : Bool) (call : Call)
    → in_order connected call ≡ true
    → connected_after connected call ≡ true
connected_after_order connected call e = ground arith

pub connected_after_refusal :
    (connected : Bool) (call : Call)
    → in_order connected call ≡ false
    → connected_after connected call ≡ connected
connected_after_refusal connected call e = ground arith
