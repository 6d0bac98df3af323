-- ===== src/Client/Robust.antt =====
-- The responses that a client reads, for any message of the server.
use mathlib.Core.Path.{subst}
use libcody.Prelude.{
  ◌+◌, Bool, true, false, not, ◌&&◌, List, [], ◌∷◌, ◌++◌, Option, none, some, ◌≡◌, refl, sym, ap,
  ◌∙◌, arith, Bytes, codes, map, length, All, equal, Bool-cases, inl, inr,
}
use libcody.Status.{Status, success, unspecific, errno, eagain, eintr, einval, enoent, other}
use libcody.Buffer.{MessageBuffer, is_at_end}
use libcody.Buffer.Call.{lex-ended}
use libcody.Buffer.Lex.{Lexed, lex, last?}
use libcody.Buffer.Consume.{IsNoNewline, TakesLine, Outcome, lex-TakesLine, scan_mark, scan_empty}
use libcody.Buffer.LastLine.{BeginsLine, is_blank}
use libcody.Buffer.Lines.{
  CanQuote, lines_text, read_at, last?-lines_text, next_read, at_end, after-CanQuote,
}
use libcody.Packet.{
  RequestCode, request_number, PacketCode, pc_corked, pc_connect, pc_error, pc_ok, pc_bool,
  pc_pathname, Payload, integer, string, vector, Packet, set_request,
}
use libcody.Response.{response}
use libcody.Server.{Resolvers}
use libcody.Client.{Client, finish_response, process_words, process_response, process_responses}
use libcody.Client.Queue.{AllFit, process_responses-AllFit}

-- A result, with the read buffer as it was.
abbrev Returns : MessageBuffer → Option (Packet × Client) → Type 0
Returns b o = (r : Packet × Client) × (o ≡ some r) × (r.1.read ≡ b)

finish_response-Returns :
    (code : PacketCode) (payload : Payload) (c : Client) (p : Packet)
    → CanQuote c.read
    → Returns c.read (finish_response code payload c p)
unfolding finish_response
finish_response-Returns pc_error (string []) c p q =
    let (line, e) = q (codes "malformed response '") in
    ((record p { payload = string (line ++ b'\'' ∷ []) }, c), rw e refl, refl)
finish_response-Returns pc_error (string (x ∷ s)) c p q = (_, refl, refl)
finish_response-Returns pc_error (integer n) c p q = (_, refl, refl)
finish_response-Returns pc_error (vector v) c p q = (_, refl, refl)
finish_response-Returns pc_connect payload c p q = (_, refl, refl)
finish_response-Returns pc_corked payload c p q = (_, refl, refl)
finish_response-Returns pc_ok payload c p q = (_, refl, refl)
finish_response-Returns pc_bool payload c p q = (_, refl, refl)
finish_response-Returns pc_pathname payload c p q = (_, refl, refl)

process_words-Returns :
    (body : Bytes) (c : Client) (status : Status) (words : List Bytes) (code : RequestCode)
    (is_last : Bool)
    → Outcome body status words
    → (status ≡ success → CanQuote c.read)
    → Returns c.read (process_words c status words (some code) is_last)
unfolding process_words
process_words-Returns body c success [] code is_last o q = absurd (o refl)
process_words-Returns body c success (w ∷ ws) code is_last o q =
    elim (Bool-cases (equal w (codes "ERROR"))) [
      | inl e ↦ rw e (_, refl, refl)
      | inr e ↦ elim (Bool-cases (is_last && not (is_at_end c.read))) [
        | inl f ↦ rw (e, f) (_, refl, refl)
        | inr f ↦
            let p = set_request (response code (w ∷ ws)) (request_number code) in
            rw (e, f) (finish_response-Returns p.code p.payload c p (q refl))
      ]
    ]
process_words-Returns body c (errno einval) [] code is_last o q = absurd (cc)
process_words-Returns body c (errno einval) (w ∷ ws) code is_last o q = (_, refl, refl)
process_words-Returns body c (errno enoent) words code is_last o q = (_, refl, refl)
process_words-Returns body c unspecific words code is_last o q = (_, refl, refl)
process_words-Returns body c (errno eagain) words code is_last o q = (_, refl, refl)
process_words-Returns body c (errno eintr) words code is_last o q = (_, refl, refl)
process_words-Returns body c (errno (other n)) words code is_last o q = (_, refl, refl)

success-ne : (success ≡ errno enoent) → ⊥
success-ne e = cc

-- A first line that is blank has no words.
blank-status :
    (pre body tail : Bytes) (r : Lexed)
    → is_blank body ≡ true
    → last? (b'\n' ∷ tail) ≡ some b'\n'
    → lex (read_at pre (body ++ b'\n' ∷ tail)) ≡ some r
    → r.status ≡ errno enoent
blank-status pre [] tail r h l e =
    let k = lex-ended pre (b'\n' ∷ tail) tail [] (λ p. cc) l (scan_empty tail) in cc
blank-status pre (c ∷ []) tail r h l e =
    let same : c ≡ b';' = ground arith in
    let k = lex-ended pre (b';' ∷ b'\n' ∷ tail) tail [] (λ p. cc) l (scan_mark tail) in
    let e' = rw same at e in cc
blank-status pre (c ∷ d ∷ s) tail r h l e = absurd (cc)

quotes :
    (pre body tail : Bytes) (r : Lexed)
    → BeginsLine pre
    → All IsNoNewline body
    → last? (b'\n' ∷ tail) ≡ some b'\n'
    → lex (read_at pre (body ++ b'\n' ∷ tail)) ≡ some r
    → r.status ≡ success
    → CanQuote
        (record { buffer = pre ++ (body ++ b'\n' ∷ tail); last_bol = length pre + length body + 1 })
quotes pre body tail r (inr q) h l e ok = after-CanQuote pre body tail (inl q) h
quotes pre body tail r (inl none_before) h l e ok = elim (Bool-cases (is_blank body)) [
  | inl f ↦
      let k = blank-status pre body tail r f l e in
      let same : success ≡ errno enoent = sym ok ∙ k in absurd (success-ne same)
  | inr f ↦ after-CanQuote pre body tail (inr (none_before, f)) h
]

lex_end :
    (pre : Bytes)
    → lex (read_at pre [])
      ≡ some (record { status = errno enoent; words = []; rest = read_at pre [] })
unfolding lex
lex_end pre = rw (at_end pre) refl

module _ (c : Client) (code : RequestCode) (is_last : Bool) where
  line_response :
      (pre body tail : Bytes) (o : Option Lexed)
      → BeginsLine pre
      → All IsNoNewline body
      → last? (b'\n' ∷ tail) ≡ some b'\n'
      → c.read ≡ read_at pre (body ++ b'\n' ∷ tail)
      → lex c.read ≡ o
      → TakesLine pre body tail o
      → Returns
          (read_at ((pre ++ body) ++ b'\n' ∷ []) tail)
          (process_response c (some code) is_last)
  unfolding process_response
  line_response pre body tail none begins h l e k t = absurd t
  line_response pre body tail (some r) begins h l e k (rest, outcome) =
      let behind = rest ∙ next_read pre body tail in
      let (x, p, q) =
        process_words-Returns body (record c { read = r.rest }) r.status r.words code is_last
          outcome
          (λ ok.
            subst CanQuote (sym rest)
              (quotes pre body tail r begins h l (sym (ap lex e) ∙ k) ok)) in
      (x, rw k p, q ∙ behind)

  no_response :
      (pre : Bytes)
      → c.read ≡ read_at pre []
      → Returns (read_at pre []) (process_response c (some code) is_last)
  unfolding process_response
  no_response pre e =
      let (x, p, q) =
        process_words-Returns [] (record c { read = read_at pre [] }) (errno enoent) [] code is_last
          refl (λ ok. absurd (success-ne (sym ok))) in
      (x, rw (e, lex_end pre) p, q)

module _ {R : Type 0} (cls : Resolvers R) (strerror : Status → Bytes) where
  process_responses-Returns :
      (queue : List RequestCode) (bodies : List Bytes) (pre : Bytes) (c : Client)
      → BeginsLine pre
      → All (All IsNoNewline) bodies
      → c.read ≡ read_at pre (lines_text bodies)
      → (r : List Packet × Client) × (process_responses cls strerror (map some queue) c ≡ some r)
  unfolding process_responses
  process_responses-Returns [] bodies pre c begins h e = (_, refl)
  process_responses-Returns (code ∷ queue) [] pre c begins h e =
      let last : Bool = elim (map some queue) [ [] ↦ true | _ ∷ _ ↦ false ] in
      let (x, p, q) = no_response c code last pre e in
      let (r, k) = process_responses-Returns queue [] pre x.1 begins h q in
      ((x.0 ∷ r.0, r.1), rw p (rw k refl))
  process_responses-Returns (code ∷ queue) (body ∷ bodies) pre c begins (h, hs) e =
      let last : Bool = elim (map some queue) [ [] ↦ true | _ ∷ _ ↦ false ] in
      let tail = lines_text bodies in
      let l = last?-lines_text bodies in
      let (x, p, q) =
        line_response c code last pre body tail (lex c.read) begins h l e refl
          (rw e (lex-TakesLine pre body tail h l)) in
      let (r, k) =
        process_responses-Returns queue bodies ((pre ++ body) ++ b'\n' ∷ []) x.1
          (inr (pre ++ body, refl)) hs q in
      ((x.0 ∷ r.0, r.1), rw p (rw k refl))

  -- Whatever message the server sends, the loop over the queued requests returns, with no failed
  -- assertion and no read outside the buffer, and gives one packet for each request, in their order,
  -- which fits its request: its code is an error or one that may answer the request, its payload is
  -- of the kind of its code, and unless it is an error it has the number of the request. The message
  -- is any bytes in lines with a newline behind each, or nothing, and may have fewer lines than there
  -- are requests, or more.
  pub process_responses_fit :
      (queue : List RequestCode) (bodies : List Bytes) (c : Client)
      → All (All IsNoNewline) bodies
      → c.read ≡ read_at [] (lines_text bodies)
      → (r : List Packet × Client) × (process_responses cls strerror (map some queue) c ≡ some r)
        × AllFit queue r.0
  process_responses_fit queue bodies c h e =
      let (r, p) = process_responses-Returns queue bodies [] c (inl refl) h e in
      (r, p, process_responses-AllFit cls strerror queue c r p)
