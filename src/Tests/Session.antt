-- ===== src/Tests/Session.antt =====
-- A session of a new client with a new server.
use libcody.Prelude.{
  true, none, Bool, false, List, [], ◌∷◌, refl, ◌≡◌, arith, Bytes, codes, map, equal,
}
use libcody.Buffer.{empty_buffer}
use libcody.Resolver.{default_resolver}
use libcody.Session.{
  Call, greets, asks_repo, exports, compiles, translates, run_calls, run_batch, corked_packet,
  AreCalls, imports, invokes, IsArgument,
}
use libcody.Session.Told.{told, all_told}
use libcody.Number.{is_empty}
use libcody.Buffer.Append.{argument}
use libcody.Buffer.Bare.{are_bare, are_bare-IsWord}
use libcody.Response.{error_packet}
use libcody.Buffer.Words.{word_text}
use libcody.Session.Whole.{IsIdle, Gives, run_calls-told}
use libcody.Session.Batch.{run_batch-told}
use libcody.Tests.{fresh, world, ascii}

-- The repository has one header unit.
abbrev pub has_header : Bytes → Bool
has_header name = equal name (codes ",/a.h.cmi")

-- The first two calls of `build` are out of order, and its last one.
abbrev pub later_calls : List Call
later_calls =
    imports (codes "a b") 0
    ∷ greets (codes "gcc") (codes "x'y")
    ∷ asks_repo
    ∷ exports (codes "foo:bar") 0
    ∷ compiles (codes "foo:bar") 1
    ∷ translates (codes "./a.h") 0
    ∷ translates (codes "./b.h") 0
    ∷ invokes (codes "as") (codes "-o" ∷ [])
    ∷ greets (codes "") (codes "")
    ∷ []

abbrev pub build : List Call
build = asks_repo ∷ later_calls

fresh-IsIdle : IsIdle false fresh world
unfolding world
fresh-IsIdle = record {
  read = empty_buffer;
  client_is = refl;
  nothing_written = refl;
  server_is = refl;
}

are_bare-IsArgument :
    (arg : Bytes)
    → are_bare (argument arg none) ≡ true
    → is_empty (argument arg none) ≡ false
    → IsArgument arg
are_bare-IsArgument arg h e = are_bare-IsWord (argument arg none) (λ p. absurd (cc)) h

pub build-AreCalls : AreCalls build
unfolding argument
build-AreCalls = (
  tt,
  (
    (ascii (codes "a b") refl, (λ p. cc), omega arith),
    (
      (ascii (codes "gcc") refl, ascii (codes "x'y") refl),
      (
        tt,
        (
          (ascii (codes "foo:bar") refl, (λ p. cc), omega arith),
          (
            (ascii (codes "foo:bar") refl, (λ p. cc), omega arith),
            (
              (ascii (codes "./a.h") refl, (λ p. cc), omega arith),
              (
                (ascii (codes "./b.h") refl, (λ p. cc), omega arith),
                (
                  (
                    are_bare-IsArgument (codes "as") refl refl,
                    (are_bare-IsArgument (codes "-o") refl refl, tt),
                  ),
                  ((tt, tt), tt),
                ),
              ),
            ),
          ),
        ),
      ),
    ),
  ),
)

too_early : told has_header false asks_repo ≡ error_packet (codes "not connected 'MODULE-REPO'")
unfolding word_text
too_early = refl

run_calls-told_example :
    Gives
      (run_calls (default_resolver has_header) (λ e. []) build fresh world)
      (all_told has_header false build)
      true
run_calls-told_example =
    run_calls-told has_header (λ e. []) false build fresh world fresh-IsIdle build-AreCalls

run_batch-told_example :
    Gives
      (run_batch (default_resolver has_header) (λ e. []) build fresh world)
      (map (λ call. corked_packet) build, all_told has_header false build)
      true
run_batch-told_example =
    run_batch-told (Unit {0}) has_header (λ e. []) false build fresh world fresh-IsIdle
      build-AreCalls
