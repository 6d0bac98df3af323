-- ===== src/Packet.antt =====
-- `Packet` of cody.hh and packet.cc, and the request codes.
pub mod Storage
pub mod Moves
use libcody.Prelude.{ℕ, List, Bytes, Option, none, some}

pub data RequestCode : Type 0 where
  connect module_repo module_export module_import module_compiled include_translate : RequestCode
  invoke : RequestCode

-- The value in the enum.
abbrev pub request_number : RequestCode → ℕ
request_number connect = 0
request_number module_repo = 1
request_number module_export = 2
request_number module_import = 3
request_number module_compiled = 4
request_number include_translate = 5
request_number invoke = 6

pub data PacketCode : Type 0 where
  pc_corked pc_connect pc_error pc_ok pc_bool pc_pathname : PacketCode

-- The union and its discriminator.
pub data Payload : Type 0 where
  integer : ℕ → Payload
  string : Bytes → Payload
  vector : List Bytes → Payload

pub record Packet : Type 0 where
  pub payload : Payload
  pub code : PacketCode
  pub request : ℕ

-- The constructors: the request is 0 until it is set.
abbrev pub packet : PacketCode → Payload → Packet
packet c p = record { payload = p; code = c; request = 0 }

abbrev pub set_request : Packet → ℕ → Packet
set_request p r = record p { request = r }

-- The getters of the payload; `none` is a member of the union that is not there.
abbrev get_integer : Packet → Option ℕ
get_integer p = elim p.payload [ integer n ↦ some n | _ ↦ none ]

abbrev get_string : Packet → Option Bytes
get_string p = elim p.payload [ string s ↦ some s | _ ↦ none ]

abbrev get_vector : Packet → Option (List Bytes)
get_vector p = elim p.payload [ vector v ↦ some v | _ ↦ none ]

-- The getters of the codes.
abbrev get_code : Packet → PacketCode
get_code p = p.code

abbrev get_request : Packet → ℕ
get_request p = p.request
