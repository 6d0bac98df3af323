-- ===== src/Tests/Packets.antt =====
-- The moves of packets at concrete ones.
use libcody.Prelude.{ℕ, true, List, [], none, some, ◌≡◌, Bytes, codes}
use libcody.Packet.{Packet, packet, pc_bool, pc_pathname, integer, string, vector}
use libcody.Packet.Storage.{Leftovers, move_construct, move_assign, self_assign}
use libcody.Packet.Moves.{slot, moved_from, destroy_both, moves, self_assignment}

-- A string that is moved from is empty, and so is a vector.
abbrev emptied : Leftovers
emptied = record { of_string = λ s. []; of_vector = λ v. [] }

abbrev truth : Packet
truth = packet pc_bool (integer 1)

abbrev file : Packet
file = packet pc_pathname (string (codes "a.cmi"))

moves_example :
    (move_construct emptied (slot file) ≡ some (slot file, slot (moved_from emptied file)))
    × (move_assign emptied (slot truth) (slot file)
        ≡ some (slot file, slot (moved_from emptied file)))
    × (destroy_both (slot file, slot (moved_from emptied file)) ≡ some true)
moves_example = moves emptied truth file

self_assignment_example :
    ((n : ℕ) → file.payload ≡ integer n → self_assign emptied (slot file) ≡ some (slot file))
    × ((s : Bytes) → file.payload ≡ string s → self_assign emptied (slot file) ≡ none)
    × ((v : List Bytes) → file.payload ≡ vector v → self_assign emptied (slot file) ≡ none)
self_assignment_example = self_assignment emptied file
