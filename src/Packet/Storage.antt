-- ===== src/Packet/Storage.antt =====
-- The storage of a `Packet`: the union, which holds an object or raw memory, the discriminator, and
-- the moves, which destroy and create that object. `none` is undefined behaviour: an object that is
-- used or destroyed where there is none, or a string or vector that is overwritten and never destroyed.
use libcody.Prelude.{ℕ, Bool, true, false, List, Option, none, some, Bytes, if◌then◌else◌, ◌>>=◌}
use libcody.Packet.{Payload, integer, string, vector, PacketCode, pc_corked}

pub data Category : Type 0 where
  is_integer is_string is_vector : Category

-- A packet in memory; the cell is what the union holds.
pub record Slot : Type 0 where
  pub cell : Option Payload
  pub cat : Category
  pub code : PacketCode
  pub request : ℕ

-- What a move leaves in the string or vector that it takes from.
pub record Leftovers : Type 0 where
  pub of_string : Bytes → Bytes
  pub of_vector : List Bytes → List Bytes

-- The destructor calls.
abbrev drop_string : Option Payload → Option (Option Payload)
drop_string (some (string s)) = some none
drop_string cell = none

abbrev drop_vector : Option Payload → Option (Option Payload)
drop_vector (some (vector v)) = some none
drop_vector cell = none

abbrev destroy_cell : Category → Option Payload → Option (Option Payload)
destroy_cell is_string cell = drop_string cell
destroy_cell is_vector cell = drop_vector cell
destroy_cell is_integer cell = some cell

-- `Destroy`
unfoldable pub destroy : Slot → Option Slot
destroy s = destroy_cell s.cat s.cell >>= λ cell. some (record s { cell = cell })

-- `~Packet`
abbrev destruct : Slot → Option Slot
unfolding destroy
destruct s = destroy s

abbrev get_category : Slot → Category
get_category s = s.cat

-- A new object may stand in raw memory or in place of an integer.
abbrev pub is_free : Option Payload → Bool
is_free none = true
is_free (some (integer n)) = true
is_free cell = false

-- The object that is created from that of `t`, and what is left in `t`.
abbrev take_cell : Leftovers → Category → Option Payload → Option (Payload × Payload)
take_cell left is_string (some (string s)) = some (string s, string (left.of_string s))
take_cell left is_vector (some (vector v)) = some (vector v, vector (left.of_vector v))
take_cell left is_integer (some (integer n)) = some (integer n, integer n)
take_cell left cat cell = none

module _ (left : Leftovers) where
  -- `Create` from another packet: the packet, and the other one.
  unfoldable pub create : Slot → Slot → Option (Slot × Slot)
  create s t =
      if is_free s.cell
      then (take_cell left t.cat t.cell >>= λ taken. some (
        record { cell = some (taken.0); cat = t.cat; code = t.code; request = t.request },
        record t { cell = some (taken.1) },
      ))
      else none

  -- `Packet (Packet &&)`, in raw memory.
  unfoldable pub move_construct : Slot → Option (Slot × Slot)
  unfolding create
  move_construct t =
      create (record { cell = none; cat = is_integer; code = pc_corked; request = 0 }) t

  -- `operator=` from another packet, and from the packet itself, where `t` is the object destroyed.
  unfoldable pub move_assign : Slot → Slot → Option (Slot × Slot)
  unfolding destroy create
  move_assign s t = destroy s >>= λ s. create s t

  unfoldable pub self_assign : Slot → Option Slot
  unfolding destroy create
  self_assign s = destroy s >>= λ s. create s s >>= λ both. some (both.0)
