-- ===== src/Tests/Objects.antt =====
-- A client in memory that is moved.
use libcody.Prelude.{ℕ, true, false, [], some, none, ◌≡◌, refl}
use libcody.Buffer.{empty_buffer}
use libcody.Client.{Client, remote}
use libcody.Client.Objects.{
  Remains, new_direct, new_remote, construct_moved, assign_moved, remains, object_of, Shows,
  object_of-moves,
}

-- The handles of two servers.
abbrev ours : ℕ
ours = 9

abbrev other : ℕ
other = 8

abbrev emptied : Remains
emptied = record { of_buffer = λ b. empty_buffer; of_corked = λ q. [] }

-- A client with one descriptor for both ways.
abbrev piped : Client
piped = record {
  write = empty_buffer;
  read = empty_buffer;
  corked = [];
  peer = remote (record { from = some 4; to = some 4 });
  is_connected = true;
}

new_run : object_of ours (record piped { is_connected = false }) ≡ new_remote (some 4) none
new_run = refl

object_of-moves_example :
    (construct_moved emptied (object_of ours piped)
      ≡ some (object_of ours piped, remains emptied (object_of ours piped)))
    × (assign_moved emptied (new_direct other) (object_of ours piped)
        ≡ some (object_of ours piped, remains emptied (object_of ours piped)))
    × Shows ours piped.peer (object_of ours piped)
object_of-moves_example = object_of-moves emptied ours piped (new_direct other)
