-- ===== src/Tests/Responses.antt =====
-- The responses of a fresh server at concrete inputs.
use libcody.Prelude.{true, List, none, some, ◌≡◌, refl, Bytes, codes}
use libcody.Buffer.Append.{argument}
use libcody.Packet.{
  packet, pc_pathname, string, module_repo, module_export, module_import, include_translate,
}
use libcody.Server.{Server, new_server, pathname_response, error_response}
use libcody.Response.Trip.{Says, pathname_response-response}
use libcody.Client.{process_words}
use libcody.Client.ErrorTrip.{error_response-process_words}
use libcody.Response.{error_packet, response}
use libcody.Status.{success}
use libcody.Tests.{ascii, fresh}

abbrev server : Server (Unit {0})
server = new_server tt none none

abbrev path : Bytes
path = codes "my dir/foo.cmi"

pathname_response-response_example :
    (words : List Bytes) × Says (pathname_response server path (some 14)).write words
    × (response module_repo words ≡ packet pc_pathname (string path))
    × (response module_export words ≡ packet pc_pathname (string path))
    × (response module_import words ≡ packet pc_pathname (string path))
    × (response include_translate words ≡ packet pc_pathname (string path))
unfolding argument new_server
pathname_response-response_example =
    pathname_response-response server refl path (some 14) (ascii path refl)

error_response-process_words_example :
    (words : List Bytes) × Says (error_response server (codes "no such module") none).write words
    × (process_words fresh success words (some module_export) true
        ≡ some (error_packet (codes "no such module"), fresh))
unfolding argument new_server
error_response-process_words_example =
    error_response-process_words server (codes "no such module") none fresh (some module_export)
      true refl (ascii (codes "no such module") refl)
