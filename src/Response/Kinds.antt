-- ===== src/Response/Kinds.antt =====
-- What kinds of packets the response table of client.cc gives to each request.
use libcody.Prelude.{◌<◌, List, arith, Bytes}
use libcody.Number.{Parsed}
use libcody.Packet.{
  RequestCode, connect, module_repo, module_export, module_import, module_compiled,
  include_translate, invoke, PacketCode, pc_corked, pc_connect, pc_error, pc_ok, pc_bool,
  pc_pathname, Payload, integer, string, Packet,
}
use libcody.Response.{
  error_packet, connect_version, connect_response, pathname_response, ok_response,
  include_translate_response, response,
}

-- The codes that may answer a request. An error always may.
abbrev pub MayAnswer : RequestCode → PacketCode → Type 0
MayAnswer code pc_error = Unit
MayAnswer connect pc_connect = Unit
MayAnswer module_repo pc_pathname = Unit
MayAnswer module_export pc_pathname = Unit
MayAnswer module_import pc_pathname = Unit
MayAnswer module_compiled pc_ok = Unit
MayAnswer include_translate pc_pathname = Unit
MayAnswer include_translate pc_bool = Unit
MayAnswer invoke pc_ok = Unit
MayAnswer code other = ⊥

-- The payload that a code comes with.
abbrev pub IsPayload : PacketCode → Payload → Type 0
IsPayload pc_error (string s) = Unit
IsPayload pc_pathname (string s) = Unit
IsPayload pc_bool (integer n) = n < 2
IsPayload pc_corked (integer n) = Unit
IsPayload pc_connect (integer n) = Unit
IsPayload pc_ok (integer n) = Unit
IsPayload code payload = ⊥

abbrev pub HasKind : RequestCode → Packet → Type 0
HasKind code p = MayAnswer code p.code × IsPayload p.code p.payload

connect_version-HasKind :
    (p : Parsed) (flags : List Bytes) → HasKind connect (connect_version p flags)
connect_version-HasKind p flags = ground arith

pub error-HasKind : (code : RequestCode) (s : Bytes) → HasKind code (error_packet s)
error-HasKind code s = ground arith

pub response-HasKind :
    (code : RequestCode) (words : List Bytes) → HasKind code (response code words)
unfolding response connect_response pathname_response ok_response include_translate_response
response-HasKind code words = ground arith
