-- ===== src/Server/Process.antt =====
-- The request handlers, `ProcessRequests` and `DirectProcess` of server.cc. `strerror` and the
-- resolvers are parameters.
use libcody.Prelude.{
  ℕ, zero, suc, ◌-◌, Bool, true, false, ◌||◌, List, [], ◌∷◌, ◌++◌, Option, none, some, Bytes, codes,
  length, ◌==◌, if◌then◌else◌, ◌>>=◌, equal,
}
use libcody.Status.{Errno, Status, success, unspecific, errno}
use libcody.Number.{unsigned_mod, is_empty, parse_unsigned}
use libcody.Buffer.{MessageBuffer, is_at_end, prepare_to_write, prepare_to_read}
use libcody.Buffer.Lex.{lex}
use libcody.Buffer.Line.{lexed_line}
use libcody.Packet.{
  RequestCode, connect, module_repo, module_export, module_import, module_compiled,
  include_translate, invoke,
}
use libcody.Server.{Server, Resolvers, processing}

-- The search of `requestTable` from its end; `none` is RC_HWM.
unfoldable pub find_request : Bytes → Option RequestCode
unfolding equal
find_request word =
    if equal word (codes "INVOKE")
    then some invoke
    else if equal word (codes "INCLUDE-TRANSLATE")
    then some include_translate
    else if equal word (codes "MODULE-COMPILED")
    then some module_compiled
    else if equal word (codes "MODULE-IMPORT")
    then some module_import
    else if equal word (codes "MODULE-EXPORT")
    then some module_export
    else if equal word (codes "MODULE-REPO")
    then some module_repo
    else if equal word (codes "HELLO")
    then some connect
    else none

-- `~0u`
abbrev pub no_value : ℕ
no_value = unsigned_mod - 1

module _ {R : Type 0} (cls : Resolvers R) where
  -- The server after the call, and the resolver or null pointer.
  abbrev pub connect_version : Server R → ℕ → Bytes → Bytes → Server R × Option R
  connect_version s v agent ident =
      if v == no_value then (s, none) else cls.connect_request s.resolver s v agent ident

  unfoldable pub connect_request : Server R → List Bytes → Server R × Option R
  unfolding parse_unsigned
  connect_request s (hello ∷ v ∷ agent ∷ []) = connect_version s (parse_unsigned v) agent []
  connect_request s (hello ∷ v ∷ agent ∷ ident ∷ []) =
      connect_version s (parse_unsigned v) agent ident
  connect_request s words = (s, none)

  unfoldable pub module_repo_request : Server R → List Bytes → Server R × Status
  module_repo_request s (w ∷ []) = cls.module_repo_request s.resolver s
  module_repo_request s words = (s, unspecific)

  -- The code that four handlers share: a name that is not empty, and flags if there is a third word.
  unfoldable pub flagged :
      (R → Server R → ℕ → Bytes → Server R × Status) → Server R → List Bytes → Server R × Status
  unfolding parse_unsigned
  flagged request s (w ∷ name ∷ []) =
      if is_empty name then (s, unspecific) else request s.resolver s 0 name
  flagged request s (w ∷ name ∷ flags ∷ []) =
      let val = parse_unsigned flags in
      if is_empty name || val == no_value then (s, unspecific) else request s.resolver s val name
  flagged request s words = (s, unspecific)

  unfoldable pub module_export_request : Server R → List Bytes → Server R × Status
  unfolding flagged
  module_export_request s words = flagged cls.module_export_request s words

  unfoldable pub module_import_request : Server R → List Bytes → Server R × Status
  unfolding flagged
  module_import_request s words = flagged cls.module_import_request s words

  unfoldable pub module_compiled_request : Server R → List Bytes → Server R × Status
  unfolding flagged
  module_compiled_request s words = flagged cls.module_compiled_request s words

  unfoldable pub include_translate_request : Server R → List Bytes → Server R × Status
  unfolding flagged
  include_translate_request s words = flagged cls.include_translate_request s words

  unfoldable pub invoke_sub_process_request : Server R → List Bytes → Server R × Status
  invoke_sub_process_request s (w ∷ arg ∷ args) =
      if is_empty arg
      then (s, unspecific)
      else cls.invoke_sub_process_request s.resolver s (w ∷ arg ∷ args)
  invoke_sub_process_request s words = (s, unspecific)

  -- The handler in `requestTable`.
  unfoldable pub handler : RequestCode → Server R → List Bytes → Server R × Status
  unfolding module_repo_request module_export_request module_import_request module_compiled_request
      include_translate_request invoke_sub_process_request
  handler connect s words = (s, unspecific)
  handler module_repo s words = module_repo_request s words
  handler module_export s words = module_export_request s words
  handler module_import s words = module_import_request s words
  handler module_compiled s words = module_compiled_request s words
  handler include_translate s words = include_translate_request s words
  handler invoke s words = invoke_sub_process_request s words

  -- `resolver = r`, or the error.
  abbrev pub handed_over : Server R × Option R → Server R × Status
  handed_over (s, some r) = (record s { resolver = r }, success)
  handed_over (s, none) = (s, unspecific)

  -- A request that the table holds, with the test of the handshake.
  unfoldable pub serve : RequestCode → Server R → List Bytes → Server R × Status
  unfolding handler connect_request
  serve connect s words =
      if s.is_connected then (s, unspecific) else handed_over (connect_request s words)
  serve code s words = if s.is_connected then handler code s words else (s, unspecific)

  pub record Served : Type 0 where
    pub server : Server R
    pub err : Status
    pub ix : Option RequestCode

  abbrev pub serve_found : Server R → List Bytes → Option RequestCode → Served
  serve_found s words none = record { server = s; err = success; ix = none }
  serve_found s words (some code) =
      let (s', err) = serve code s words in record { server = s'; err = err; ix = some code }

  -- The code up to the error handling; `none` is the failed assertion.
  unfoldable pub serve_words : Server R → Status → List Bytes → Option Served
  serve_words s success [] = none
  serve_words s success (w ∷ ws) = some (serve_found s (w ∷ ws) (find_request w))
  serve_words s failed words = some (record { server = s; err = success; ix = none })

  -- The first part of the error message.
  unfoldable pub complaint : Bool → Status → Option RequestCode → Bytes
  complaint connected (errno e) ix = codes "error processing '"
  complaint connected err none = codes "unrecognized '"
  complaint connected err (some connect) =
      if connected then codes "already connected '" else codes "malformed '"
  complaint connected err (some code) =
      if connected then codes "malformed '" else codes "not connected '"

  module _ (strerror : Errno → Bytes) where
    abbrev pub reason : Status → Bytes
    reason (errno e) = b' ' ∷ strerror e
    reason err = []

    -- The error response.
    unfoldable pub complain : Served → Option (Server R)
    complain served = do
      let s = served.server
      line ← lexed_line s.read (complaint s.is_connected served.err served.ix)
      some (cls.error_response s.resolver s (line ++ b'\'' ∷ reason served.err))

    abbrev pub respond : Served → Status → Option RequestCode → Option (Server R)
    respond served success (some code) = some served.server
    respond served err ix = complain served

    -- One round of the loop.
    unfoldable pub process_line : Server R → Option (Server R)
    process_line s = do
      lexed ← lex s.read
      served ← serve_words (record s { read = lexed.rest }) lexed.status lexed.words
      respond served served.err served.ix

    -- The loop on fuel; `none` is a fault in a round, or no fuel.
    unfoldable pub process_loop : ℕ → Server R → Option (Server R)
    process_loop zero s = if is_at_end s.read then some s else none
    process_loop (suc fuel) s = elim (is_at_end s.read) [
      | true ↦ some s
      | false ↦ process_line s >>= process_loop fuel
    ]

    -- Each round reads a byte at least.
    unfoldable pub process_requests : Server R → Option (Server R)
    unfolding is_at_end lex lexed_line find_request serve serve_words complaint complain
        process_line process_loop
    process_requests s = process_loop (length s.read.buffer) (record s { direction = processing })

    pub record Exchange : Type 0 where
      pub server : Server R
      pub from : MessageBuffer
      pub to : MessageBuffer

    unfoldable pub direct_process : Server R → MessageBuffer → MessageBuffer → Option Exchange
    unfolding process_requests prepare_to_read prepare_to_write
    direct_process s from to = do
      s' ← process_requests (record s { read = from })
      let s'' = cls.wait_until_ready s'.resolver s'
      some (record {
        server = record s'' { write = to };
        from = prepare_to_read s.read;
        to = prepare_to_write s''.write;
      })
