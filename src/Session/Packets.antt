-- ===== src/Session/Packets.antt =====
-- The packets that the client makes of the answers of the default resolver.
use libcody.Prelude.{
  not, ◌&&◌, Option, if◌then◌else◌, Bool, true, false, List, [], ◌∷◌, some, ◌≡◌, refl, Bytes, codes,
}
use libcody.Status.{success}
use libcody.Number.{to_string}
use libcody.Buffer.Bare.{bare, quotable}
use libcody.Response.{error_packet}
use libcody.Buffer.Message.{Word, texts}
use libcody.Packet.{
  RequestCode, connect, module_repo, module_export, module_import, module_compiled,
  include_translate, invoke, Packet, pc_connect, pc_ok, pc_bool, integer,
}
use libcody.Client.{process_words}
use libcody.Session.{reply, named}
use libcody.Buffer.{MessageBuffer, empty_buffer, is_at_end}
use libcody.Client.{Client, Peer, direct}
use libcody.Session.Steps.{path_line, translation, cmi}
use libcody.Session.Greeting.{welcome_line}

-- A client with nothing to send; `queue` holds the corked requests.
abbrev pub client_over : Peer → List (Option RequestCode) → MessageBuffer → Bool → Client
client_over peer queue read connected = record {
  write = empty_buffer;
  read = read;
  corked = queue;
  peer = peer;
  is_connected = connected;
}

-- One of a direct connection.
abbrev pub client_at : List (Option RequestCode) → MessageBuffer → Bool → Client
client_at = client_over direct

-- What the client returns for an answer that is read, with no more answers if it is the last.
abbrev pub Returns : RequestCode → Bool → Bool → List Word → Packet → Type 0
Returns code connected after answer p =
    (peer : Peer) (queue : List (Option RequestCode)) (read : MessageBuffer) (is_last : Bool)
    → (is_last && not (is_at_end read)) ≡ false
    → process_words (client_over peer queue read connected) success (texts answer) (some code)
        is_last
      ≡ some (p, client_over peer queue read after)

pub path-Returns-repo :
    (path : Bytes) → Returns module_repo true true (path_line path) (named module_repo path)
unfolding process_words
path-Returns-repo path peer queue read is_last e = rw e refl

pub path-Returns-export :
    (path : Bytes) → Returns module_export true true (path_line path) (named module_export path)
unfolding process_words
path-Returns-export path peer queue read is_last e = rw e refl

pub path-Returns-import :
    (path : Bytes) → Returns module_import true true (path_line path) (named module_import path)
unfolding process_words
path-Returns-import path peer queue read is_last e = rw e refl

pub path-Returns-translate :
    (path : Bytes)
    → Returns include_translate true true (path_line path) (named include_translate path)
unfolding process_words
path-Returns-translate path peer queue read is_last e = rw e refl

false-Returns :
    Returns include_translate true true
      (bare (codes "BOOL") ∷ bare (codes "FALSE") ∷ [])
      (reply include_translate pc_bool (integer 0))
unfolding process_words
false-Returns peer queue read is_last e = rw e refl

pub ok-Returns :
    Returns module_compiled true true
      (bare (codes "OK") ∷ [])
      (reply module_compiled pc_ok (integer 0))
unfolding process_words
ok-Returns peer queue read is_last e = rw e refl

pub welcome-Returns :
    Returns connect false true (welcome_line) (reply connect pc_connect (integer 0))
unfolding process_words to_string
welcome-Returns peer queue read is_last e = rw e refl

pub translation-Returns :
    (name : Bytes) (b : Bool)
    → Returns include_translate true true (translation name b) (
        if b
        then named include_translate (cmi name)
        else reply include_translate pc_bool (integer 0))
translation-Returns name true = path-Returns-translate (cmi name)
translation-Returns name false = false-Returns

pub refusal-Returns :
    (code : RequestCode) (connected : Bool) (msg : Bytes)
    → Returns code connected connected (bare (codes "ERROR") ∷ quotable msg ∷ []) (error_packet msg)
unfolding process_words
refusal-Returns code connected msg peer queue read is_last e = refl

pub unimplemented-Returns :
    Returns invoke true true
      (bare (codes "ERROR") ∷ quotable (codes "unimplemented") ∷ [])
      (error_packet (codes "unimplemented"))
unimplemented-Returns = refusal-Returns invoke true (codes "unimplemented")
