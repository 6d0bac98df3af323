-- ===== src/Tests/Requests.antt =====
-- The requests of a client at concrete inputs.
use libcody.Prelude.{
  Bool, true, false, List, [], ◌∷◌, ◌++◌, Option, none, some, ◌≡◌, refl, arith, Bytes, codes,
}
use libcody.Status.{Status, errno, einval}
use libcody.Buffer.{empty_buffer, begin_line, prepare_to_write}
use libcody.Buffer.Append.{argument, append_word_string}
use libcody.Buffer.Bare.{are_bare-IsWord}
use libcody.Buffer.Words.{shown, word_text}
use libcody.Buffer.Lex.{lex}
use libcody.Buffer.NotAscii.{sent, lex-not_ascii}
use libcody.Buffer.RoundTrip.{decode}
use libcody.Packet.{module_repo, Packet}
use libcody.Server.{Server, Resolvers, new_server, version}
use libcody.Server.Process.{flagged, connect_request}
use libcody.Resolver.{default_resolver}
use libcody.Client.{Client, Called, uncork, maybe_request}
use libcody.Client.Requests.{write_connect, write_flagged, write_invoke, write_module_repo}
use libcody.Client.RequestTrip.{write_flagged-flagged, write_connect-connect_request}
use libcody.Client.Invoke.{write_invoke_splits}
use libcody.Client.Queue.{FitsQueue, uncork-FitsQueue}
use libcody.Client.Kinds.{Replied, maybe_request-Replied}
use libcody.Tests.{no_file, fresh, world, ascii}

abbrev resolvers : Resolvers (Unit {0})
resolvers = default_resolver no_file

abbrev server : Server (Unit {0})
server = new_server tt none none

abbrev export : Bytes
export = codes "MODULE-EXPORT"

abbrev name : Bytes
name = codes "foo bar"

write_flagged-flagged_example :
    (words : List Bytes) × (decode 2
        (prepare_to_write (write_flagged export empty_buffer name 1 (some 7)))
      ≡ some (words ∷ []))
    × (flagged resolvers resolvers.module_export_request server words
        ≡ resolvers.module_export_request tt server 1 (argument name (some 7)))
unfolding argument new_server
write_flagged-flagged_example =
    write_flagged-flagged resolvers resolvers.module_export_request server export name 1 (some 7)
      (are_bare-IsWord export (λ p. cc) refl) (ascii name refl) (λ p. cc) (omega arith)

write_connect-connect_request_example :
    (words : List Bytes) × (decode 2
        (prepare_to_write (write_connect empty_buffer (codes "a b") [] (some 3) (some 0)))
      ≡ some (words ∷ []))
    × (connect_request resolvers server words
        ≡ resolvers.connect_request tt server version
            (argument (codes "a b") (some 3))
            (argument [] (some 0)))
unfolding argument new_server
write_connect-connect_request_example =
    write_connect-connect_request resolvers server (codes "a b") [] (some 3) (some 0)
      (ascii (codes "a b") refl) tt

write_invoke_splits_example :
    write_invoke empty_buffer (codes "a b" ∷ [])
    ≡ write_invoke empty_buffer (codes "a" ∷ codes "b" ∷ [])
write_invoke_splits_example =
    write_invoke_splits empty_buffer (codes "a") (codes "b") (λ p. omega (arith, p), tt)

lex-not_ascii_example :
    lex (sent (codes "caf") (0xa9 ∷ []) 0xc3)
    ≡ some (record {
      status = errno einval;
      words = (codes "'caf" ++ 0xc3 ∷ 0xa9 ∷ codes "'") ∷ [];
      rest = record { buffer = codes "'caf" ++ 0xc3 ∷ 0xa9 ∷ codes "'\n"; last_bol = 8 };
    })
unfolding shown word_text prepare_to_write append_word_string begin_line
lex-not_ascii_example =
    lex-not_ascii (codes "caf") (0xa9 ∷ []) 0xc3 (ascii (codes "caf") refl) (omega arith)

-- Two requests are queued.
abbrev queued : Client
unfolding write_module_repo
queued = record fresh {
  write = write_module_repo (write_module_repo empty_buffer);
  corked = none ∷ some module_repo ∷ some module_repo ∷ [];
}

abbrev no_text : Status → Bytes
no_text err = []

abbrev is_some {ℓ} : {A : Type ℓ} → Option A → Bool
is_some none = false
is_some (some a) = true

value_of {ℓ} : {A : Type ℓ} (o : Option A) → is_some o ≡ true → (a : A) × (o ≡ some a)
value_of none h = cc
value_of (some a) h = (a, refl)

uncork_returns : is_some (uncork resolvers no_text queued world) ≡ true
unfolding uncork default_resolver queued world new_server
uncork_returns = refl

uncork_run :
    (r : Called (Unit {0}) (List Packet)) × (uncork resolvers no_text queued world ≡ some r)
uncork_run = value_of (uncork resolvers no_text queued world) uncork_returns

uncork-FitsQueue_example :
    (uncork_run.0.client.corked ≡ [])
    × FitsQueue resolvers no_text (module_repo ∷ module_repo ∷ []) uncork_run.0.result
unfolding queued
uncork-FitsQueue_example =
    uncork-FitsQueue resolvers no_text queued world uncork_run.0 (module_repo ∷ module_repo ∷ [])
      refl uncork_run.1

-- One request that is not corked.
abbrev asking : Client
unfolding write_module_repo
asking = record fresh { write = write_module_repo empty_buffer }

ask_returns : is_some (maybe_request resolvers no_text module_repo asking world) ≡ true
unfolding maybe_request default_resolver asking world new_server
ask_returns = refl

ask_run :
    (r : Called (Unit {0}) Packet) × (maybe_request resolvers no_text module_repo asking world
      ≡ some r)
ask_run = value_of (maybe_request resolvers no_text module_repo asking world) ask_returns

maybe_request-Replied_example : Replied module_repo asking ask_run.0
unfolding asking
maybe_request-Replied_example =
    maybe_request-Replied resolvers no_text module_repo asking world ask_run.0 refl ask_run.1
