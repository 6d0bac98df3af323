-- ===== src/Client/Communicate.antt =====
-- What `CommunicateWithServer` leaves of a client as it was.
use mathlib.Core.Path.{subst}
use libcody.Prelude.{some, ◌≡◌, refl, Bytes}
use libcody.Status.{Status, success, unspecific, errno}
use libcody.Server.{Resolvers}
use libcody.Client.{
  Client, World, Called, communicate_with_server, communicate_with, write_loop, read_loop,
  read_answer, Peer, direct, remote,
}
use libcody.Server.Process.{direct_process}
use libcody.Client.Corked.{chain_parts}

-- What a communication with the server leaves as it was.
pub record Same (c c' : Client) : Type 0 where
  pub same_peer : c'.peer ≡ c.peer
  pub same_corked : c'.corked ≡ c.corked
  pub same_connected : c'.is_connected ≡ c.is_connected

module _ {R : Type 0} (cls : Resolvers R) (strerror : Status → Bytes) where
  some-Same :
      (c : Client) (x r : Called R Status) → Same c x.client → some x ≡ some r → Same c r.client
  some-Same c x r h e = let same : x ≡ r = cc in subst (λ x. Same c x.client) same h

  read_answer-Same :
      (c : Client) (w : World R) (status : Status) (r : Called R Status)
      → read_answer cls strerror c w status ≡ some r
      → Same c r.client
  unfolding read_answer
  read_answer-Same c w success r e =
      let (x, p, q) = chain_parts (read_loop c.read w.reads) _ r e in
      some-Same c _ r (record { same_peer = refl; same_corked = refl; same_connected = refl }) q
  read_answer-Same c w unspecific r e =
      some-Same c _ r (record { same_peer = refl; same_corked = refl; same_connected = refl }) e
  read_answer-Same c w (errno x) r e =
      some-Same c _ r (record { same_peer = refl; same_corked = refl; same_connected = refl }) e

  communicate_with-Same :
      (peer : Peer) (c : Client) (w : World R) (r : Called R Status)
      → communicate_with cls strerror peer c w ≡ some r
      → Same c r.client
  unfolding communicate_with
  communicate_with-Same direct c w r e =
      let (x, p, q) =
        chain_parts (direct_process cls (λ e. strerror (errno e)) w.server c.write c.read) _ r e in
      some-Same c _ r (record { same_peer = refl; same_corked = refl; same_connected = refl }) q
  communicate_with-Same (remote fd) c w r e =
      let (x, p, q) = chain_parts (write_loop c.write w.writes) _ r e in
      let s =
        read_answer-Same (record c { write = x.buffer }) (record w { writes = x.later }) x.status r
          q in
      record {
        same_peer = s.same_peer;
        same_corked = s.same_corked;
        same_connected = s.same_connected;
      }

  pub communicate-Same :
      (c : Client) (w : World R) (r : Called R Status)
      → communicate_with_server cls strerror c w ≡ some r
      → Same c r.client
  unfolding communicate_with_server
  communicate-Same c w r e =
      let s = communicate_with-Same c.peer _ w r e in
      record {
        same_peer = s.same_peer;
        same_corked = s.same_corked;
        same_connected = s.same_connected;
      }
