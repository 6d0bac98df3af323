-- ===== src/Server.antt =====
-- `Server` of server.cc and cody.hh: its state, its responses, and the interface of the resolvers.
-- A resolver is known by a handle of type `R`, which stands for the pointer.
pub mod Process
pub mod Replies
pub mod Answers
pub mod Round
pub mod Loop
pub mod Responses
pub mod Table
pub mod Objects
use libcody.Prelude.{ℕ, Bool, true, false, List, Option, none, some, Bytes, codes, if◌then◌else◌}
use libcody.Status.{Status}
use libcody.Buffer.{
  MessageBuffer, empty_buffer, begin_line, end_line, prepare_to_write, prepare_to_read,
}
use libcody.Buffer.Append.{append_word, append_integer}

pub data Direction : Type 0 where
  reading writing processing : Direction

-- A descriptor below 0 is `none`.
pub record Fd : Type 0 where
  pub from : Option ℕ
  pub to : Option ℕ

pub record Server (R : Type 0) : Type 0 where
  pub write : MessageBuffer
  pub read : MessageBuffer
  pub resolver : R
  pub fd : Fd
  pub is_connected : Bool
  pub direction : Direction

-- The virtual functions of `Resolver`, each with the handle of the object that it is called on. A
-- connect request gives the new resolver, or `none` for a null pointer.
pub record Resolvers (R : Type 0) : Type 0 where
  pub wait_until_ready : R → Server R → Server R
  pub error_response : R → Server R → Bytes → Server R
  pub connect_request : R → Server R → ℕ → Bytes → Bytes → Server R × Option R
  pub module_repo_request : R → Server R → Server R × Status
  pub module_export_request : R → Server R → ℕ → Bytes → Server R × Status
  pub module_import_request : R → Server R → ℕ → Bytes → Server R × Status
  pub module_compiled_request : R → Server R → ℕ → Bytes → Server R × Status
  pub include_translate_request : R → Server R → ℕ → Bytes → Server R × Status
  pub invoke_sub_process_request : R → Server R → List Bytes → Server R × Status

abbrev pub version : ℕ
version = 1

module _ {R : Type 0} where
  unfoldable pub server_prepare_to_read : Server R → Server R
  unfolding prepare_to_read
  server_prepare_to_read s = record s { read = prepare_to_read s.read; direction = reading }

  unfoldable pub server_prepare_to_write : Server R → Server R
  unfolding prepare_to_write
  server_prepare_to_write s = record s { write = prepare_to_write s.write; direction = writing }

  -- `Server (Resolver *)`, which sets no descriptors.
  abbrev server_of : R → Server R
  unfolding server_prepare_to_read
  server_of r = server_prepare_to_read (record {
    write = empty_buffer;
    read = empty_buffer;
    resolver = r;
    fd = record { from = none; to = none };
    is_connected = false;
    direction = reading;
  })

  -- `Server (Resolver *, int, int)`; `none` is a negative number.
  unfoldable pub new_server : R → Option ℕ → Option ℕ → Server R
  unfolding server_of
  new_server r from to = record (server_of r) {
    fd = record { from = from; to = elim to [ some t ↦ some t | none ↦ from ] };
  }

  unfoldable pub error_response : Server R → Bytes → Option ℕ → Server R
  unfolding begin_line append_word end_line
  error_response s error elen =
      let word = append_word (begin_line s.write) (codes "ERROR") false none in
      record s { write = end_line (append_word word error true elen) }

  unfoldable pub ok_response : Server R → Server R
  unfolding begin_line append_word end_line
  ok_response s = record s {
    write = end_line (append_word (begin_line s.write) (codes "OK") false none);
  }

  unfoldable pub connect_response : Server R → Bytes → Option ℕ → Server R
  unfolding begin_line append_word append_integer end_line
  connect_response s agent alen =
      let word = append_word (begin_line s.write) (codes "HELLO") false none in
      let numbered = append_integer word version in
      record s { is_connected = true; write = end_line (append_word numbered agent true alen) }

  unfoldable pub pathname_response : Server R → Bytes → Option ℕ → Server R
  unfolding begin_line append_word end_line
  pathname_response s cmi clen =
      let word = append_word (begin_line s.write) (codes "PATHNAME") false none in
      record s { write = end_line (append_word word cmi true clen) }

  unfoldable pub bool_response : Server R → Bool → Server R
  unfolding begin_line append_word end_line
  bool_response s truthiness =
      let word = append_word (begin_line s.write) (codes "BOOL") false none in
      let value = if truthiness then codes "TRUE" else codes "FALSE" in
      record s { write = end_line (append_word word value false none) }
