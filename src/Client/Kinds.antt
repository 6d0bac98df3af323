-- ===== src/Client/Kinds.antt =====
-- What a call of the client may return, whatever the server and the system do.
use mathlib.Core.Path.{subst}
use libcody.Prelude.{
  Bool, true, false, not, ◌&&◌, List, [], ◌∷◌, some, ◌≡◌, ◌≢◌, refl, Bytes, codes, equal, ◌⊎◌, inl,
  inr, Bool-cases,
}
use libcody.Status.{Status, success, unspecific, errno, eagain, eintr, einval, enoent, other}
use libcody.Buffer.{is_at_end}
use libcody.Buffer.Lex.{lex}
use libcody.Buffer.Line.{lexed_line}
use libcody.Packet.{
  RequestCode, request_number, PacketCode, pc_corked, pc_connect, pc_error, pc_ok, pc_bool,
  pc_pathname, Payload, integer, string, vector, Packet,
}
use libcody.Response.{error_packet, response}
use libcody.Response.Kinds.{MayAnswer, IsPayload, HasKind, response-HasKind, error-HasKind}
use libcody.Server.{Resolvers}
use libcody.Client.{
  Client, World, Called, finish_response, process_words, process_response, communicate_with_server,
  communication_error, single_response, maybe_request, is_corked,
}
use libcody.Client.Communicate.{communicate-Same}
use libcody.Client.Corked.{chain_parts}

-- A packet for a request: a code that may answer it, with its payload, and unless it is an error the
-- number of the request.
pub record Fits (code : RequestCode) (p : Packet) : Type 0 where
  pub kind : HasKind code p
  pub request : p.code ≢ pc_error → p.request ≡ request_number code

-- The packet with the client behind it, which gets connected by the answer to `Connect` alone.
pub record Fitting (code : RequestCode) (connected : Bool) (r : Packet × Client) : Type 0 where
  pub fits : Fits code r.0
  pub connects : (r.0.code ≡ pc_connect) ⊎ (r.1.is_connected ≡ connected)

error-Fits : (code : RequestCode) (s : Bytes) → Fits code (error_packet s)
error-Fits code s = record { kind = error-HasKind code s; request = λ ne. absurd (ne refl) }

module _ (code : RequestCode) (c : Client) where
  some-Fitting :
      (x r : Packet × Client)
      → Fitting code c.is_connected x
      → some x ≡ some r
      → Fitting code c.is_connected r
  some-Fitting x r h e = let same : x ≡ r = cc in subst (λ x. Fitting code c.is_connected x) same h

  -- The client is as it was.
  unchanged :
      (p : Packet) (r : Packet × Client)
      → HasKind code p
      → (p.code ≢ pc_error → p.request ≡ request_number code)
      → some (p, c) ≡ some r
      → Fitting code c.is_connected r
  unchanged p r h k e =
      some-Fitting (p, c) r
        (record { fits = record { kind = h; request = k }; connects = inr refl }) e

  error-Fitting :
      (s : Bytes) (r : Packet × Client)
      → some (error_packet s, c) ≡ some r
      → Fitting code c.is_connected r
  error-Fitting s r e =
      unchanged (error_packet s) r (error-HasKind code s) (λ ne. absurd (ne refl)) e

  finish_response-Fitting :
      (kind : PacketCode) (payload : Payload) (r : Packet × Client)
      → MayAnswer code kind
      → IsPayload kind payload
      → finish_response kind payload c
          (record { payload = payload; code = kind; request = request_number code })
        ≡ some r
      → Fitting code c.is_connected r
  unfolding finish_response
  finish_response-Fitting pc_error (string []) r m h e =
      let (line, p, q) = chain_parts (lexed_line c.read (codes "malformed response '")) _ r e in
      unchanged _ r (m, tt) (λ ne. refl) q
  finish_response-Fitting pc_error (string (x ∷ s)) r m h e = unchanged _ r (m, h) (λ ne. refl) e
  finish_response-Fitting pc_error (integer n) r m h e = absurd h
  finish_response-Fitting pc_error (vector v) r m h e = absurd h
  finish_response-Fitting pc_connect payload r m h e =
      some-Fitting _ r
        (record { fits = record { kind = (m, h); request = λ ne. refl }; connects = inl refl }) e
  finish_response-Fitting pc_corked payload r m h e = unchanged _ r (m, h) (λ ne. refl) e
  finish_response-Fitting pc_ok payload r m h e = unchanged _ r (m, h) (λ ne. refl) e
  finish_response-Fitting pc_bool payload r m h e = unchanged _ r (m, h) (λ ne. refl) e
  finish_response-Fitting pc_pathname payload r m h e = unchanged _ r (m, h) (λ ne. refl) e

  process_words-Fitting :
      (status : Status) (words : List Bytes) (is_last : Bool) (r : Packet × Client)
      → process_words c status words (some code) is_last ≡ some r
      → Fitting code c.is_connected r
  unfolding process_words
  process_words-Fitting (errno einval) [] is_last r e = absurd (cc)
  process_words-Fitting (errno einval) (w ∷ ws) is_last r e = error-Fitting _ r e
  process_words-Fitting success [] is_last r e = absurd (cc)
  process_words-Fitting success (w ∷ ws) is_last r e = elim (Bool-cases (equal w (codes "ERROR"))) [
    | inl f ↦ error-Fitting _ r (rw f at e)
    | inr f ↦
        let e' = rw f at e in
        elim (Bool-cases (is_last && not (is_at_end c.read))) [
          | inl g ↦ error-Fitting _ r (rw g at e')
          | inr g ↦
              let p = response code (w ∷ ws) in
              let (m, h) = response-HasKind code (w ∷ ws) in
              finish_response-Fitting p.code p.payload r m h (rw g at e')
        ]
  ]
  process_words-Fitting unspecific words is_last r e = error-Fitting _ r e
  process_words-Fitting (errno eagain) words is_last r e = error-Fitting _ r e
  process_words-Fitting (errno eintr) words is_last r e = error-Fitting _ r e
  process_words-Fitting (errno enoent) words is_last r e = error-Fitting _ r e
  process_words-Fitting (errno (other n)) words is_last r e = error-Fitting _ r e

pub process_response-Fitting :
    (code : RequestCode) (c : Client) (is_last : Bool) (r : Packet × Client)
    → process_response c (some code) is_last ≡ some r
    → Fitting code c.is_connected r
unfolding process_response
process_response-Fitting code c is_last r e =
    let (l, p, q) =
      chain_parts (lex c.read)
        (λ l. process_words (record c { read = l.rest }) l.status l.words (some code) is_last) r
        e in
    process_words-Fitting code (record c { read = l.rest }) l.status l.words is_last r q

-- What a call gives that is not corked.
pub record Replied {R : Type 0} (code : RequestCode) (c : Client) (r : Called R Packet)
    : Type 0 where
  pub fits : Fits code r.result
  pub connects : (r.result.code ≡ pc_connect) ⊎ (r.client.is_connected ≡ c.is_connected)

module _ {R : Type 0} (cls : Resolvers R) (strerror : Status → Bytes) where
  some-Replied :
      (code : RequestCode) (c : Client) (x r : Called R Packet)
      → Replied code c x
      → some x ≡ some r
      → Replied code c r
  some-Replied code c x r h e = let same : x ≡ r = cc in subst (λ x. Replied code c x) same h

  single_response-Replied :
      (code : RequestCode) (status : Status) (c : Client) (w : World R) (r : Called R Packet)
      → single_response cls strerror code status c w ≡ some r
      → Replied code c r
  unfolding single_response communication_error
  single_response-Replied code success c w r e =
      let (x, p, q) = chain_parts (process_response c (some code) true) _ r e in
      let f = process_response-Fitting code c true x p in
      some-Replied code c _ r (record { fits = f.fits; connects = f.connects }) q
  single_response-Replied code unspecific c w r e =
      some-Replied code c _ r (record { fits = error-Fits code _; connects = inr refl }) e
  single_response-Replied code (errno x) c w r e =
      some-Replied code c _ r (record { fits = error-Fits code _; connects = inr refl }) e

  -- Whatever the server answers and the system does, a call that is not corked and returns gives a
  -- packet that fits its request: its code is an error or one that may answer the request, its
  -- payload is of the kind of its code (for a Boolean, zero or one), and unless it is an error it has
  -- the number of the request. If it is not the answer to `Connect`, the client is connected if and
  -- only if it was.
  pub maybe_request-Replied :
      (code : RequestCode) (c : Client) (w : World R) (r : Called R Packet)
      → is_corked c ≡ false
      → maybe_request cls strerror code c w ≡ some r
      → Replied code c r
  unfolding maybe_request
  maybe_request-Replied code c w r h e =
      let (x, p, q) = chain_parts (communicate_with_server cls strerror c w) _ r (rw h at e) in
      let v = single_response-Replied code x.result x.client x.world r q in
      record {
        fits = v.fits;
        connects = rw (communicate-Same cls strerror c w x p).same_connected at v.connects;
      }
