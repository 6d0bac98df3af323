-- ===== src/Tests/Failing.antt =====
-- A connection that ends in the middle of the answer to `ModuleRepo`.
use libcody.Prelude.{List, [], ◌∷◌, ◌++◌, ◌≡◌, refl, some, map, codes, Bytes, arith, none, true}
use libcody.Status.{unspecific, eintr}
use libcody.Buffer.{empty_buffer, push, prepare_to_write}
use libcody.Buffer.Transfer.{WriteResult, got}
use libcody.Packet.{module_repo, string, pc_error}
use libcody.Client.{Client, World, maybe_request, remote}
use libcody.Client.Receiving.{Arrival, arrives, interrupted, answer}
use libcody.Client.Failing.{ends, broken_answer}
use libcody.Client.Requests.{write_module_repo}
use libcody.Resolver.{default_resolver}
use libcody.Server.{new_server}
use libcody.Session.Remote.Relayed.{supply, supply-Takes, length-supply}
use libcody.Tests.{fresh, no_file}
use libcody.Tests.Remote.{pipe}

abbrev asking : Client
asking = record fresh {
  write = write_module_repo empty_buffer;
  peer = remote pipe;
  is_connected = true;
}

abbrev half : List Arrival
half = arrives 200 b'P' (codes "ATH") ∷ interrupted 200 eintr refl ∷ []

abbrev unplugged : World (Unit {0})
unplugged = record {
  server = new_server tt none none;
  writes = supply (prepare_to_write asking.write).buffer;
  reads = map answer half ++ (200, λ n. got []) ∷ [];
}

broken_answer_example :
    (writes : List (Bytes → WriteResult)) × (maybe_request
        (default_resolver no_file)
        (λ e. codes "end")
        module_repo
        asking
        unplugged
      ≡ some (record {
        result = record {
          payload = string (codes "communication error: end");
          code = pc_error;
          request = 0;
        };
        client = record asking { write = empty_buffer; read = push empty_buffer (codes "PATH") };
        world = record unplugged { writes = writes; reads = [] };
      }))
broken_answer_example =
    broken_answer (default_resolver no_file) (λ e. codes "end") module_repo asking unplugged pipe
      half 200 (got []) unspecific [] refl refl
      (supply-Takes (prepare_to_write asking.write).buffer)
      (omega (arith, length-supply (prepare_to_write asking.write).buffer)) refl refl ends
