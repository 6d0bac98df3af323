-- ===== src/Tests/Robust.antt =====
-- Three requests, and a message of an empty line, a malformed line and a line that answers another
-- request.
use libcody.Prelude.{List, [], ◌∷◌, some, ◌≡◌, refl, Bytes, codes, map}
use libcody.Packet.{Packet, RequestCode, module_repo, module_export, invoke}
use libcody.Buffer.Lines.{lines_text, read_at}
use libcody.Resolver.{default_resolver}
use libcody.Client.{Client, process_responses}
use libcody.Client.Queue.{AllFit}
use libcody.Client.Robust.{process_responses_fit}
use libcody.Tests.{fresh, no_file, no_newline}

abbrev bad_lines : List Bytes
bad_lines = [] ∷ codes "PATHNAME 'a ;" ∷ codes "BOOL TRUE" ∷ []

abbrev reader : Client
reader = record fresh { read = read_at [] (lines_text bad_lines) }

abbrev requests : List RequestCode
requests = module_repo ∷ module_export ∷ invoke ∷ []

process_responses_fit_example :
    (r : List Packet × Client) × (process_responses {R = Unit {0}}
        (default_resolver no_file)
        (λ e. [])
        (map some requests)
        reader
      ≡ some r)
    × AllFit requests r.0
process_responses_fit_example =
    process_responses_fit {R = Unit {0}} (default_resolver no_file) (λ e. []) requests bad_lines
      reader
      (tt, (no_newline (codes "PATHNAME 'a ;") refl, (no_newline (codes "BOOL TRUE") refl, tt)))
      refl
