-- ===== src/Response.antt =====
-- The response table of client.cc: what packet the words of a response give.
pub mod Trip
pub mod Kinds
use libcody.Prelude.{
  ℕ, ◌%◌, not, ◌||◌, List, [], ◌∷◌, Bytes, codes, ltb, ◌==◌, if◌then◌else◌, equal, c_string,
}
use libcody.Number.{unsigned_mod, is_empty, Parsed, strtoul}
use libcody.Packet.{
  RequestCode, connect, module_repo, module_export, module_import, module_compiled,
  include_translate, invoke, pc_connect, pc_error, pc_ok, pc_bool, pc_pathname, integer, string,
  Packet, packet,
}
use libcody.Server.{version}

-- The static response functions. An error with an empty string is filled in by the caller.
abbrev pub error_packet : Bytes → Packet
error_packet s = packet pc_error (string s)

abbrev pub connect_flags : List Bytes → ℕ
unfolding strtoul c_string
connect_flags [] = 0
connect_flags (w ∷ ws) = (strtoul (c_string w)).val % unsigned_mod

abbrev pub connect_version : Parsed → List Bytes → Packet
connect_version p flags =
    let v = p.val % unsigned_mod in
    if not (is_empty p.eptr) || not (v == p.val) || ltb v version
    then error_packet (codes "incompatible version")
    else packet pc_connect (integer (connect_flags flags))

unfoldable pub connect_response : List Bytes → Packet
unfolding strtoul c_string equal
connect_response (w ∷ v ∷ agent ∷ []) =
    if equal w (codes "HELLO") then connect_version (strtoul (c_string v)) [] else error_packet []
connect_response (w ∷ v ∷ agent ∷ flags ∷ []) =
    if equal w (codes "HELLO")
    then connect_version (strtoul (c_string v)) (flags ∷ [])
    else error_packet []
connect_response words = error_packet []

unfoldable pub pathname_response : List Bytes → Packet
unfolding equal
pathname_response (w ∷ path ∷ []) =
    if equal w (codes "PATHNAME") then packet pc_pathname (string path) else error_packet []
pathname_response words = error_packet []

abbrev not_ok : List Bytes → Packet
not_ok (w ∷ msg ∷ []) = error_packet msg
not_ok words = error_packet []

unfoldable pub ok_response : List Bytes → Packet
unfolding equal
ok_response [] = error_packet []
ok_response (w ∷ ws) = if equal w (codes "OK") then packet pc_ok (integer 0) else not_ok (w ∷ ws)

abbrev bool_packet : Bytes → Packet
unfolding equal
bool_packet w =
    if equal w (codes "FALSE")
    then packet pc_bool (integer 0)
    else if equal w (codes "TRUE")
    then packet pc_bool (integer 1)
    else error_packet []

unfoldable pub include_translate_response : List Bytes → Packet
unfolding pathname_response bool_packet equal
include_translate_response (w ∷ value ∷ []) =
    if equal w (codes "BOOL") then bool_packet value else pathname_response (w ∷ value ∷ [])
include_translate_response words = pathname_response words

-- `responseTable`
unfoldable pub response : RequestCode → List Bytes → Packet
unfolding connect_response pathname_response ok_response include_translate_response
response connect words = connect_response words
response module_repo words = pathname_response words
response module_export words = pathname_response words
response module_import words = pathname_response words
response module_compiled words = ok_response words
response include_translate words = include_translate_response words
response invoke words = ok_response words
