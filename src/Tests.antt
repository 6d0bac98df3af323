-- ===== src/Tests.antt =====
-- A run of the handshake, and the theorems on messages at concrete inputs.
pub mod Transfers
pub mod Requests
pub mod Responses
pub mod Net
pub mod Session
pub mod Packets
pub mod Bounds
pub mod Objects
pub mod Pieces
pub mod Remote
pub mod Failing
pub mod Robust
use libcody.Prelude.{
  ℕ, ◌≢◌, Bool, true, false, not, ◌&&◌, List, [], ◌∷◌, ◌++◌, Option, none, some, ◌≡◌, refl, ◌<◌,
  ◌≤◌, arith, Bytes, codes, map, All, length, ltb, ◌==◌, inr,
}
use libcody.Status.{Errno, success, eintr}
use libcody.Number.{to_string, parse_unsigned}
use libcody.Number.RoundTrip.{parse_unsigned-to_string}
use libcody.Buffer.{MessageBuffer, empty_buffer, prepare_to_write}
use libcody.Buffer.Lex.{lex}
use libcody.Buffer.Line.{lexed_line}
use libcody.Buffer.Transfer.{WriteResult, wrote, ReadResult, unsent}
use libcody.Buffer.Words.{IsAscii, IsWord}
use libcody.Buffer.Message.{Word, texts, write_lines}
use libcody.Buffer.RoundTrip.{decode, decode-write_lines}
use libcody.Buffer.Consume.{IsNoNewline, reading, TakesLine, lex-TakesLine}
use libcody.Buffer.LastLine.{lexed_line_behind, lexed_line_first}
use libcody.Buffer.Reading.{is_whole}
use libcody.Server.{Server, processing, new_server}
use libcody.Server.Answers.{Answers}
use libcody.Buffer.Bare.{bare, quotable}
use libcody.Server.Process.{process_requests}
use libcody.Buffer.Lines.{lines_text}
use libcody.Server.Loop.{AllAnswered, process_requests-AllAnswered}
use libcody.Resolver.{default_resolver, get_cmi_suffix, get_cmi_name}
use libcody.Resolver.Names.{IsParent}
use libcody.Resolver.NoParent.{get_cmi_name-NoParent}
use libcody.Resolver.Contract.{default_resolver-Answers}
use libcody.Packet.{Packet, pc_connect, integer}
use libcody.Client.{Client, World, Called, Sent, direct, read_loop, write_loop}
use libcody.Client.Requests.{connect_call}
use libcody.Client.Receiving.{
  Arrival, arrives, interrupted, answer, arrived, Receives, read_loop-arrived, read_loop-is_whole,
}
use libcody.Client.Sending.{IsWrite, Takes, delivered, write_loop-delivered}

abbrev pub no_file : Bytes → Bool
no_file name = false

abbrev no_text : Errno → Bytes
no_text e = []

abbrev pub fresh : Client
fresh = record {
  write = empty_buffer;
  read = empty_buffer;
  corked = [];
  peer = direct;
  is_connected = false;
}

unfoldable pub world : World (Unit {0})
unfolding new_server
world = record { server = new_server tt none none; writes = []; reads = [] }

-- The handshake with a direct server.
abbrev packet_of : Option (Called (Unit {0}) Packet) → Option Packet
packet_of none = none
packet_of (some called) = some called.result

connect_run :
    packet_of (
      connect_call
        (default_resolver no_file)
        (λ e. [])
        fresh
        (codes "a b")
        (codes "")
        none
        none
        world)
    ≡ some (record { payload = integer 0; code = pc_connect; request = 0 })
unfolding connect_call default_resolver world
connect_run = refl

-- Numbers.
parse_unsigned-to_string_example : parse_unsigned (to_string 4009) ≡ 4009
parse_unsigned-to_string_example = parse_unsigned-to_string 4009 (omega arith)

-- Lines and messages.
abbrev pub lacks_newline : Bytes → Bool
lacks_newline [] = true
lacks_newline (c ∷ s) = not (c == b'\n') && lacks_newline s

pub no_newline : (s : Bytes) → lacks_newline s ≡ true → All IsNoNewline s
no_newline [] h = tt
no_newline (c ∷ s) h = (ground arith, no_newline s (ground arith))

abbrev pub all_below : ℕ → Bytes → Bool
all_below m [] = true
all_below m (c ∷ s) = ltb c m && all_below m s

pub ascii : (s : Bytes) → all_below 0x80 s ≡ true → All IsAscii s
ascii [] h = tt
ascii (c ∷ s) h = (ground arith, ascii s (ground arith))

abbrev hello : Bytes
hello = codes "HELLO 1 gcc x"

hello-IsNoNewline : All IsNoNewline hello
hello-IsNoNewline = no_newline hello refl

abbrev refused : Bytes
refused = codes "A 'b ;"

refused-IsNoNewline : All IsNoNewline refused
refused-IsNoNewline = no_newline refused refl

process_requests-AllAnswered_example :
    (s' : Server (Unit {0})) × (process_requests
        (default_resolver no_file)
        no_text
        (record (new_server tt none none) {
          read = record { buffer = lines_text (hello ∷ refused ∷ [] ∷ []); last_bol = 0 };
        })
      ≡ some s')
    × AllAnswered
        (default_resolver no_file)
        (default_resolver-Answers no_file)
        no_text
        []
        (record (new_server tt none none) {
          read = record { buffer = lines_text (hello ∷ refused ∷ [] ∷ []); last_bol = 0 };
          direction = processing;
        })
        (hello ∷ refused ∷ [] ∷ [])
        s'
process_requests-AllAnswered_example =
    process_requests-AllAnswered (default_resolver no_file) (default_resolver-Answers no_file)
      no_text
      (record (new_server tt none none) {
        read = record { buffer = lines_text (hello ∷ refused ∷ [] ∷ []); last_bol = 0 };
      })
      (hello ∷ refused ∷ [] ∷ []) (hello-IsNoNewline, (refused-IsNoNewline, (tt, tt)))
      (inr (refl, refl)) refl

abbrev greeting : List Word
greeting = bare (codes "OK") ∷ quotable (codes "a' b") ∷ []

abbrev farewell : List Word
farewell = quotable [] ∷ []

ok_IsWord : IsWord false (codes "OK")
ok_IsWord = (
  λ p. cc,
  (
    (omega arith, omega arith, λ p. omega (arith, p), λ p. omega (arith, p)),
    ((omega arith, omega arith, λ p. omega (arith, p), λ p. omega (arith, p)), tt),
  ),
)

decode-write_lines_example :
    decode 3 (prepare_to_write (write_lines empty_buffer (greeting ∷ farewell ∷ [])))
    ≡ some (map texts (greeting ∷ farewell ∷ []))
decode-write_lines_example =
    decode-write_lines greeting (farewell ∷ [])
      ((λ p. cc, (ok_IsWord, (ascii (codes "a' b") refl, tt))), ((λ p. cc, (tt, tt)), tt))

lex-TakesLine_example :
    TakesLine (codes "HI\n") refused [] (lex (reading (codes "HI\n") refused []))
lex-TakesLine_example = lex-TakesLine (codes "HI\n") refused [] refused-IsNoNewline refl

lexed_line_behind_example :
    lexed_line
      (record { buffer = (codes "HI" ++ b'\n' ∷ []) ++ (refused ++ b'\n' ∷ []); last_bol = 10 })
      (codes "bad ")
    ≡ some (codes "bad A 'b")
lexed_line_behind_example =
    lexed_line_behind (codes "HI") refused [] (codes "bad ") refused-IsNoNewline

lexed_line_first_example :
    lexed_line (record { buffer = b';' ∷ b'\n' ∷ []; last_bol = 2 }) (codes "bad ") ≡ none
lexed_line_first_example =
    lexed_line_first (b';' ∷ []) [] (codes "bad ") (no_newline (b';' ∷ []) refl)

default_resolver-Answers_example : Answers (default_resolver {R = Unit {0}} no_file)
default_resolver-Answers_example = default_resolver-Answers no_file

header_names :
    (get_cmi_name get_cmi_suffix (codes "/../../a/../b..") ≡ codes "./,,/,,/a/,,/b...cmi")
    × (get_cmi_name get_cmi_suffix (codes "./../b/..") ≡ codes ",/,,/b/...cmi")
    × (get_cmi_name get_cmi_suffix (codes "foo:bar") ≡ codes "foo-bar.cmi")
unfolding get_cmi_name
header_names = (refl, refl, refl)

get_cmi_name-NoParent_example : ¬ IsParent (get_cmi_name get_cmi_suffix (codes "./../b")) 1
get_cmi_name-NoParent_example = get_cmi_name-NoParent (codes "./../b") 1 refl
