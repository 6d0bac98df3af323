-- ===== src/Server/Objects.antt =====
-- A `Server` as an object: the moves to another object, the transfers over its descriptors, and the
-- responses with a `std::string`.
use libcody.Prelude.{Bool, Option, ℕ, some, ◌≡◌, refl, Bytes, length}
use libcody.Status.{Status}
use libcody.Buffer.{MessageBuffer}
use libcody.Buffer.Transfer.{WriteResult, ReadResult, write, read}
use libcody.Server.{Direction, Server, error_response, pathname_response, connect_response}

module _ {R : Type 0} where
  -- What a move leaves: `left` says what becomes of a buffer.
  abbrev moved_server : (MessageBuffer → MessageBuffer) → Server R → Server R
  moved_server left src = record src { write = left src.write; read = left src.read }

  unfoldable server_construct_moved :
      (MessageBuffer → MessageBuffer) → Server R → Server R × Server R
  server_construct_moved left src = (
    record {
      write = src.write;
      read = src.read;
      resolver = src.resolver;
      fd = src.fd;
      is_connected = src.is_connected;
      direction = src.direction;
    },
    moved_server left src,
  )

  -- To another object.
  unfoldable server_assign_moved :
      (MessageBuffer → MessageBuffer) → Server R → Server R → Server R × Server R
  server_assign_moved left dst src = (
    record dst {
      write = src.write;
      read = src.read;
      resolver = src.resolver;
      is_connected = src.is_connected;
      direction = src.direction;
      fd = src.fd;
    },
    moved_server left src,
  )

  unfoldable set_direction : Server R → Direction → Server R
  set_direction s d = record s { direction = d }

  -- The getters.
  abbrev server_is_connected : Server R → Bool
  server_is_connected s = s.is_connected

  abbrev get_direction : Server R → Direction
  get_direction s = s.direction

  abbrev server_fd_read : Server R → Option ℕ
  server_fd_read s = s.fd.from

  abbrev server_fd_write : Server R → Option ℕ
  server_fd_write s = s.fd.to

  abbrev get_resolver : Server R → R
  get_resolver s = s.resolver

  -- `Write` and `Read`, with how the system answers on the descriptors `fd.to` and `fd.from`.
  unfoldable pub server_write : (Bytes → WriteResult) → Server R → Server R × Status
  unfolding write
  server_write os s = let t = write os s.write in (record s { write = t.rest }, t.status)

  unfoldable pub server_read : ℕ → (ℕ → ReadResult) → Server R → Server R × Status
  unfolding read
  server_read capacity os s =
      let t = read capacity os s.read in (record s { read = t.rest }, t.status)

  -- The overloads for a `std::string`, which pass its size.
  unfoldable error_response_string : Server R → Bytes → Server R
  unfolding error_response
  error_response_string s error = error_response s error (some (length error))

  unfoldable pathname_response_string : Server R → Bytes → Server R
  unfolding pathname_response
  pathname_response_string s path = pathname_response s path (some (length path))

  unfoldable connect_response_string : Server R → Bytes → Server R
  unfolding connect_response
  connect_response_string s agent = connect_response s agent (some (length agent))

  server_assign_moved_lem :
      (left : MessageBuffer → MessageBuffer) (dst src : Server R)
      → server_assign_moved left dst src ≡ server_construct_moved left src
  unfolding server_assign_moved server_construct_moved
  server_assign_moved_lem left dst src = refl
