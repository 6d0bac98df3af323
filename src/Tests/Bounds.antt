-- ===== src/Tests/Bounds.antt =====
-- The request table, the memory of `Append` and the file of `HCF` at concrete inputs.
use libcody.Prelude.{◌+◌, ◌≤◌, true, [], ◌∷◌, some, ◌≡◌, ◌↔◌, refl, Bytes, codes, length}
use libcody.Number.{to_string}
use libcody.Buffer.{empty_buffer}
use libcody.Buffer.Append.{append_bytes}
use libcody.Buffer.Bounds.{reserved, append_bytes_fits}
use libcody.Packet.{invoke}
use libcody.Server.Process.{find_request}
use libcody.Server.Table.{request_word, find_request_iff}
use libcody.Fatal.{Build, prints, aborts, exits, assert_failed, build_note}

find_request_iff_example :
    (find_request (codes "INVOKE") ≡ some invoke) ↔ (codes "INVOKE" ≡ request_word invoke)
find_request_iff_example = find_request_iff (codes "INVOKE") invoke

append_bytes_fits_example :
    length (append_bytes empty_buffer (codes "a'\n") true).buffer ≤ 0 + reserved true (codes "a'\n")
append_bytes_fits_example = append_bytes_fits empty_buffer (codes "a'\n") true

abbrev sources : Bytes
sources = codes "/src/cody"

abbrev build : Build
build = record {
  src_dir = sources;
  package_name = codes "codylib";
  package_version = codes "0.0";
  bug_url = [];
  package_url = [];
  revision = codes "1a2b";
  is_checked = true;
  is_optimized = true;
}

assertion_run :
    assert_failed build (record { file = some (codes "/src/cody/buffer.cc"); line = 240 })
    ≡ prints (codes "CODYlib: assertion failed at buffer.cc:240\n") ∷ aborts ∷ exits 2 ∷ []
unfolding assert_failed to_string
assertion_run = refl

note_run :
    build_note build
    ≡ codes
        "Version codylib 0.0.\nReport bugs to you.\nSource 1a2b.\nBuild is checked & optimized.\n"
unfolding build_note
note_run = refl
