-- ===== src/Client/Objects.antt =====
-- A `Client` in memory: the union of the descriptors and the pointer to the server, with its
-- discriminator; the constructors, the moves to another object and the getters. The pointer is a handle
-- of type `S`. `none` is the use of the member of the union that is not there.
use libcody.Prelude.{ℕ, Bool, true, false, List, [], Option, none, some, ◌≡◌, refl, ◌>>=◌}
use libcody.Buffer.{MessageBuffer, empty_buffer}
use libcody.Packet.{RequestCode}
use libcody.Server.{Fd}
use libcody.Client.{Client, Peer, direct, remote}

pub data Member (S : Type 0) : Type 0 where
  fds : Fd → Member S
  pointer : S → Member S

pub record Object (S : Type 0) : Type 0 where
  pub write : MessageBuffer
  pub read : MessageBuffer
  pub corked : List (Option RequestCode)
  pub member : Member S
  pub is_direct : Bool
  pub is_connected : Bool

-- What a move leaves of a buffer and of the queue.
pub record Remains : Type 0 where
  pub of_buffer : MessageBuffer → MessageBuffer
  pub of_corked : List (Option RequestCode) → List (Option RequestCode)

abbrev pub is_direct_peer : Peer → Bool
is_direct_peer direct = true
is_direct_peer (remote fd) = false

abbrev pub fd_read : Peer → Option ℕ
fd_read direct = none
fd_read (remote fd) = fd.from

abbrev pub fd_write : Peer → Option ℕ
fd_write direct = none
fd_write (remote fd) = fd.to

module _ {S : Type 0} where
  -- `Client ()`
  abbrev pub new_object : Object S
  new_object = record {
    write = empty_buffer;
    read = empty_buffer;
    corked = [];
    member = fds (record { from = none; to = none });
    is_direct = false;
    is_connected = false;
  }

  abbrev pub new_direct : S → Object S
  new_direct s = record new_object { is_direct = true; member = pointer s }

  -- A descriptor below 0 is `none`.
  abbrev pub new_remote : Option ℕ → Option ℕ → Object S
  new_remote from to = record new_object {
    member = fds (record { from = from; to = elim to [ some t ↦ some t | none ↦ from ] });
  }

  -- The copy of the member that the discriminator says.
  abbrev pub copy_member : Bool → Member S → Option (Member S)
  copy_member true (pointer s) = some (pointer s)
  copy_member false (fds fd) = some (fds fd)
  copy_member is_direct member = none

  module _ (left : Remains) where
    -- The object that is moved from.
    abbrev pub remains : Object S → Object S
    remains src = record src {
      write = left.of_buffer src.write;
      read = left.of_buffer src.read;
      corked = left.of_corked src.corked;
    }

    unfoldable pub construct_moved : Object S → Option (Object S × Object S)
    construct_moved src = copy_member src.is_direct src.member >>= λ member. some (
      record {
        write = src.write;
        read = src.read;
        corked = src.corked;
        member = member;
        is_direct = src.is_direct;
        is_connected = src.is_connected;
      },
      remains src,
    )

    unfoldable pub assign_moved : Object S → Object S → Option (Object S × Object S)
    assign_moved dst src = copy_member src.is_direct src.member >>= λ member. some (
      record dst {
        write = src.write;
        read = src.read;
        corked = src.corked;
        member = member;
        is_direct = src.is_direct;
        is_connected = src.is_connected;
      },
      remains src,
    )

  abbrev from_of : Member S → Option (Option ℕ)
  from_of (fds fd) = some fd.from
  from_of (pointer s) = none

  abbrev to_of : Member S → Option (Option ℕ)
  to_of (fds fd) = some fd.to
  to_of (pointer s) = none

  abbrev pointer_of : Member S → Option (Option S)
  pointer_of (fds fd) = none
  pointer_of (pointer s) = some (some s)

  abbrev object_is_direct : Object S → Bool
  object_is_direct o = o.is_direct

  abbrev object_is_connected : Object S → Bool
  object_is_connected o = o.is_connected

  unfoldable pub get_fd_read : Object S → Option (Option ℕ)
  get_fd_read o = elim o.is_direct [ true ↦ some none | false ↦ from_of o.member ]

  unfoldable pub get_fd_write : Object S → Option (Option ℕ)
  get_fd_write o = elim o.is_direct [ true ↦ some none | false ↦ to_of o.member ]

  -- The inner `none` is a null pointer.
  unfoldable pub get_server : Object S → Option (Option S)
  get_server o = elim o.is_direct [ true ↦ pointer_of o.member | false ↦ some none ]

  -- The object of a client whose server, if it has one, is `s`.
  abbrev pub member_of : S → Peer → Member S
  member_of s direct = pointer s
  member_of s (remote fd) = fds fd

  abbrev pub object_of : S → Client → Object S
  object_of s c = record {
    write = c.write;
    read = c.read;
    corked = c.corked;
    member = member_of s c.peer;
    is_direct = is_direct_peer c.peer;
    is_connected = c.is_connected;
  }

  abbrev pub server_of : S → Peer → Option S
  server_of s direct = some s
  server_of s (remote fd) = none

  -- What the getters give for a client.
  abbrev pub Shows : S → Peer → Object S → Type 0
  Shows s peer o =
      (get_fd_read o ≡ some (fd_read peer))
      × (get_fd_write o ≡ some (fd_write peer))
      × (get_server o ≡ some (server_of s peer))

  object_of-Shows :
      (s : S) (c : Client) (peer : Peer) → Shows s peer (object_of s (record c { peer = peer }))
  unfolding get_fd_read get_fd_write get_server
  object_of-Shows s c direct = (refl, refl, refl)
  object_of-Shows s c (remote fd) = (refl, refl, refl)

  moved :
      (left : Remains) (s : S) (c : Client) (dst : Object S) (peer : Peer)
      → let o = object_of s (record c { peer = peer }) in
        (construct_moved left o ≡ some (o, remains left o))
        × (assign_moved left dst o ≡ some (o, remains left o))
  unfolding construct_moved assign_moved
  moved left s c dst direct = (refl, refl)
  moved left s c dst (remote fd) = (refl, refl)

  -- The move constructor and the assignment to another object make that object the one of the same
  -- client, direct or not, whatever it was before, and use just the member of the union that is there.
  -- The getters then give the descriptors of a client that is not direct, and the server of one that
  -- is, and else -1 and a null pointer.
  pub object_of-moves :
      (left : Remains) (s : S) (c : Client) (dst : Object S)
      → (construct_moved left (object_of s c) ≡ some (object_of s c, remains left (object_of s c)))
        × (assign_moved left dst (object_of s c)
            ≡ some (object_of s c, remains left (object_of s c)))
        × Shows s c.peer (object_of s c)
  object_of-moves left s c dst =
      let (m, a) = moved left s c dst c.peer in (m, a, object_of-Shows s c c.peer)
