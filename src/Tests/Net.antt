-- ===== src/Tests/Net.antt =====
-- The helpers of netclient.cc and netserver.cc at concrete systems.
use libcody.Prelude.{
  ℕ, ◌+◌, ◌*◌, ◌/◌, ◌%◌, ◌<◌, ◌≤◌, Bool, true, false, [], ◌∷◌, none, some, ◌≡◌, refl, ◌⊎◌, arith,
  Bytes, codes, length, c_string,
}
use libcody.Net.{
  pos, no_error, name_too_long, system, af_inet6, AddressInfo, Net, found, System, pure, ◌>>◌,
  set_errno, first_of, local_address,
}
use libcody.Net.Client.{open_socket, open_local, open_inet6, try_connect}
use libcody.Net.Server.{listen_socket, listen_inet6}
use libcody.Net.Outcome.{Returns, Has, Outcome}
use libcody.Net.Inet6.{open_inet6-Outcome}
use libcody.Net.Listen6.{Listens, OnlyListenFails, listen_inet6-Outcome, listen_inet6_frees_twice}
use libcody.Net.Reports.{
  Reports, open_report, listening_report, open_socket-Reports, listen_socket-Reports,
}
use libcody.Net.Ports.{Untouched, refused_port}
use libcody.Net.Paths.{Fits, open_local_cases}

-- The two bytes of a number swapped.
abbrev swap : ℕ → ℕ
swap n = n % 256 * 256 + n / 256

abbrev loopback : AddressInfo
loopback = record {
  family = af_inet6;
  is_stream = true;
  addr = record { family = af_inet6; body = codes "::1"; port = 0 };
  addrlen = 28;
}

abbrev with_replies : Bool → Bool → System
with_replies connects listens = record {
  socket = λ net family. record { value = some 3; errno = net.errno };
  connect = λ net fd addr len. record { value = connects; errno = system 111 };
  bind = λ net fd addr len. record { value = true; errno = net.errno };
  listen = λ net fd backlog. record { value = listens; errno = system 95 };
  close = λ net fd. system 4;
  getaddrinfo = λ net name. record { value = found 7 (loopback ∷ []); errno = net.errno };
  freeaddrinfo = λ net list. net.errno;
  gai_strerror = λ code. codes "unknown";
  htons = swap;
  ntohs = swap;
  path_size = 108;
}

-- A system that refuses connections, and one that refuses to listen.
abbrev deaf : System
deaf = with_replies false true

abbrev unable : System
unable = with_replies true false

abbrev idle : Net
idle = record { errno = no_error; opened = 0 ∷ 1 ∷ []; live = []; time = 0 }

idle-Has : Has (0 ∷ 1 ∷ []) [] idle
idle-Has = record { opened_as = refl; live_as = refl }

abbrev path : Bytes
path = codes "/tmp/cody"

refused_run :
    open_socket deaf true (local_address path) 110 idle
    ≡ some (
      record { descriptor = none; message = some (codes "connecting socket") },
      record { errno = system 111; opened = 0 ∷ 1 ∷ []; live = []; time = 3 },
    )
unfolding open_socket local_address
refused_run = refl

open_inet6-Outcome_example :
    Returns (open_inet6 deaf true (some (codes "host")) (pos 4242) idle) (Outcome (0 ∷ 1 ∷ []) [])
open_inet6-Outcome_example =
    open_inet6-Outcome deaf true (0 ∷ 1 ∷ []) [] (some (codes "host")) (pos 4242) idle idle-Has

deaf-Listens : Listens deaf
deaf-Listens net fd backlog = refl

listen_inet6-Outcome_example :
    Returns (listen_inet6 deaf true none (pos 4242) 0 idle) (Outcome (0 ∷ 1 ∷ []) [])
listen_inet6-Outcome_example =
    listen_inet6-Outcome deaf true (0 ∷ 1 ∷ []) [] none (pos 4242) 0 idle deaf-Listens idle-Has

unable-OnlyListenFails : OnlyListenFails unable (pos 4242) 3 7 loopback
unable-OnlyListenFails = record {
  opens_fd = λ net. refl;
  finds = λ net name. refl;
  matches = refl;
  fits = refl;
  binds = λ net. refl;
  refuses = λ net backlog. refl;
}

listen_inet6_frees_twice_example : listen_inet6 unable true none (pos 4242) 0 idle ≡ none
listen_inet6_frees_twice_example =
    listen_inet6_frees_twice unable true (0 ∷ 1 ∷ []) [] (pos 4242) 3 7 loopback
      unable-OnlyListenFails refl 0 none idle idle-Has

open_socket-Reports_example :
    Returns
      (open_socket deaf true (local_address path) 110 idle)
      (Reports true (open_report deaf (local_address path) 110 idle))
open_socket-Reports_example = open_socket-Reports deaf true (local_address path) 110 idle

listen_socket-Reports_example :
    Returns
      (listen_socket unable true (local_address path) 110 0 idle)
      (Reports true (listening_report unable (local_address path) 110 0 idle))
listen_socket-Reports_example = listen_socket-Reports unable true (local_address path) 110 0 idle

swap_twice : (n : ℕ) → n < 65536 → swap (swap n) ≡ n
swap_twice n h = omega arith

refused_port_example :
    Returns
      (first_of deaf (pos 70000) (try_connect deaf true 3 (pos 70000)) (loopback ∷ []) idle)
      (Untouched idle)
refused_port_example =
    refused_port deaf (pos 70000) (try_connect deaf true 3 (pos 70000)) (loopback ∷ []) idle
      swap_twice refl

open_local_cases_example :
    ((open_local deaf true 110 path ≡ open_socket deaf true (local_address path) 110)
      × Fits deaf path (codes "left"))
    ⊎ ((open_local deaf true 110 path
          ≡ (set_errno name_too_long >> pure (record { descriptor = none; message = none })))
        × (108 ≤ length (c_string path)))
open_local_cases_example = open_local_cases deaf true 110 path (codes "left")
