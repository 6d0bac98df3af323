-- ===== src/Server/Round.antt =====
-- What one round of `ProcessRequests` does with a resolver that keeps the contract of
-- Server/Answers: each request line gets one response line.
use libcody.Prelude.{
  ℕ, Bool, true, false, List, [], ◌∷◌, ◌++◌, Option, none, some, ◌≡◌, ◌≢◌, refl, sym, ◌∙◌, Bytes,
  if◌then◌else◌, ◌>>=◌,
}
use libcody.Status.{Errno, Status, success, unspecific, errno}
use libcody.Packet.{
  RequestCode, connect, module_repo, module_export, module_import, module_compiled,
  include_translate, invoke,
}
use libcody.Buffer.Lines.{CanQuote}
use libcody.Server.{Server, Resolvers}
use libcody.Server.Replies.{permitted, asked, answers_none}
use libcody.Server.Process.{
  connect_request, flagged, handler, handed_over, serve, Served, serve_words, complain, complaint,
  serve_found, respond, reason, find_request,
}
use libcody.Server.Answers.{Answered, Untouched, Settled, Connects, Answers}

module _ {R : Type 0} where
  untouched : (s : Server R) → Untouched s s
  untouched s = record { same_read = refl; same_write = refl }

  -- An early `return -1`.
  refuses : (request : Option RequestCode) (s : Server R) → Settled request s (s, unspecific)
  refuses request s = record { behaves = untouched s }

  refuses_null : (s : Server R) → Connects s (s, none)
  refuses_null s = record { hands = untouched s }

  if-Settled :
      (request : Option RequestCode) (b : Bool) (s : Server R) (x y : Server R × Status)
      → Settled request s x
      → Settled request s y
      → Settled request s (if b then x else y)
  if-Settled request true s x y h k = h
  if-Settled request false s x y h k = k

  -- A test that also decides about the request.
  if-Permitted :
      (yes_request no_request : Option RequestCode) (b : Bool) (s : Server R)
      (x y : Server R × Status)
      → Settled yes_request s x
      → Settled no_request s y
      → Settled (if b then yes_request else no_request) s (if b then x else y)
  if-Permitted yes_request no_request true s x y h k = h
  if-Permitted yes_request no_request false s x y h k = k

  module _ (cls : Resolvers R) (laws : Answers cls) where
    flagged-Settled :
        (code : RequestCode) (request : R → Server R → ℕ → Bytes → Server R × Status)
        → ((r : R) (s : Server R) (flags : ℕ) (name : Bytes)
            → Settled (some code) s (request r s flags name))
        → (s : Server R) (words : List Bytes) → Settled (some code) s (flagged cls request s words)
    unfolding flagged
    flagged-Settled code request law s [] = refuses _ s
    flagged-Settled code request law s (w ∷ []) = refuses _ s
    flagged-Settled code request law s (w ∷ name ∷ []) =
        if-Settled _ _ s _ _ (refuses _ s) (law s.resolver s 0 name)
    flagged-Settled code request law s (w ∷ name ∷ flags ∷ []) =
        if-Settled _ _ s _ _ (refuses _ s) (law s.resolver s _ name)
    flagged-Settled code request law s (w ∷ name ∷ flags ∷ x ∷ xs) = refuses _ s

    handler-Settled :
        (code : RequestCode) (s : Server R) (words : List Bytes)
        → Settled (some code) s (handler cls code s words)
    unfolding handler
    handler-Settled connect s words = refuses _ s
    handler-Settled module_repo s [] = refuses _ s
    handler-Settled module_repo s (w ∷ []) = laws.repo s.resolver s
    handler-Settled module_repo s (w ∷ x ∷ xs) = refuses _ s
    handler-Settled module_export s words = flagged-Settled _ _ laws.exports s words
    handler-Settled module_import s words = flagged-Settled _ _ laws.imports s words
    handler-Settled module_compiled s words = flagged-Settled _ _ laws.compiles s words
    handler-Settled include_translate s words = flagged-Settled _ _ laws.translates s words
    handler-Settled invoke s [] = refuses _ s
    handler-Settled invoke s (w ∷ []) = refuses _ s
    handler-Settled invoke s (w ∷ arg ∷ args) =
        if-Settled _ _ s _ _ (refuses _ s) (laws.invokes s.resolver s _)

    if-Connects :
        (b : Bool) (s : Server R) (x y : Server R × Option R)
        → Connects s x
        → Connects s y
        → Connects s (if b then x else y)
    if-Connects true s x y h k = h
    if-Connects false s x y h k = k

    connect-Connects :
        (s : Server R) (words : List Bytes) → Connects s (connect_request cls s words)
    unfolding connect_request
    connect-Connects s [] = refuses_null s
    connect-Connects s (a ∷ []) = refuses_null s
    connect-Connects s (a ∷ b ∷ []) = refuses_null s
    connect-Connects s (a ∷ b ∷ c ∷ []) =
        if-Connects _ s _ _ (refuses_null s) (laws.connects s.resolver s _ c [])
    connect-Connects s (a ∷ b ∷ c ∷ d ∷ []) =
        if-Connects _ s _ _ (refuses_null s) (laws.connects s.resolver s _ c d)
    connect-Connects s (a ∷ b ∷ c ∷ d ∷ e ∷ xs) = refuses_null s

    handed_over-Settled :
        (s : Server R) (x : Server R × Option R)
        → Connects s x
        → Settled (some connect) s (handed_over cls x)
    handed_over-Settled s (s', some r) h =
        let a : Answered (some connect) s s' = h.hands in
        record {
          behaves = record {
            same_read = a.same_read;
            kind = a.kind;
            words = a.words;
            fits = a.fits;
            reply = a.reply;
            one_line = a.one_line;
          };
        }
    handed_over-Settled s (s', none) h = record { behaves = h.hands }

    behind_handshake :
        (code : RequestCode) (s : Server R) (words : List Bytes)
        → Settled
            (if s.is_connected then some code else none)
            s
            (if s.is_connected then handler cls code s words else (s, unspecific))
    behind_handshake code s words =
        if-Permitted _ _ s.is_connected s _ _ (handler-Settled code s words) (refuses _ s)

    serve-Settled :
        (code : RequestCode) (s : Server R) (words : List Bytes)
        → Settled (permitted s.is_connected (some code)) s (serve cls code s words)
    unfolding serve
    serve-Settled connect s words =
        if-Permitted _ _ s.is_connected s _ _ (refuses _ s)
          (handed_over-Settled s _ (connect-Connects s words))
    serve-Settled module_repo s words = behind_handshake module_repo s words
    serve-Settled module_export s words = behind_handshake module_export s words
    serve-Settled module_import s words = behind_handshake module_import s words
    serve-Settled module_compiled s words = behind_handshake module_compiled s words
    serve-Settled include_translate s words = behind_handshake include_translate s words
    serve-Settled invoke s words = behind_handshake invoke s words

    module _ (strerror : Errno → Bytes) where
      complain-Answered :
          (request : Option RequestCode) (s : Server R) (served : Served cls)
          → CanQuote s.read
          → Untouched s served.server
          → (s' : Server R) × (complain cls strerror served ≡ some s') × Answered request s s'
      unfolding complain
      complain-Answered request s served q u =
          let (l, e) = q (complaint cls served.server.is_connected served.err served.ix) in
          let msg = l ++ b'\'' ∷ reason cls strerror served.err in
          let a = laws.errors served.server.resolver served.server msg in
          (
            cls.error_response served.server.resolver served.server msg,
            rw (u.same_read, e),
            record {
              same_read = a.same_read ∙ u.same_read;
              kind = a.kind;
              words = a.words;
              fits = answers_none request a.kind a.fits;
              reply = a.reply;
              one_line = rw (sym u.same_write) a.one_line;
            },
          )

      respond-Answered :
          (request : Option RequestCode) (s : Server R) (served : Served cls) (err : Status)
          (ix : Option RequestCode)
          → CanQuote s.read
          → Settled request s (served.server, err)
          → (ix ≡ none → Untouched s served.server)
          → (s' : Server R) × (respond cls strerror served err ix ≡ some s') × Answered request s s'
      respond-Answered request s served success (some code) q h k = (served.server, refl, h.behaves)
      respond-Answered request s served success none q h k =
          complain-Answered request s served q (k refl)
      respond-Answered request s served unspecific ix q h k =
          complain-Answered request s served q h.behaves
      respond-Answered request s served (errno e) ix q h k =
          complain-Answered request s served q h.behaves

      serve_found-Answered :
          (s : Server R) (words : List Bytes) (ix : Option RequestCode)
          → CanQuote s.read
          → (s' : Server R) × (respond cls strerror
                (serve_found cls s words ix)
                (serve_found cls s words ix).err
                (serve_found cls s words ix).ix
              ≡ some s')
            × Answered (permitted s.is_connected ix) s s'
      serve_found-Answered s words none q = complain-Answered _ s _ q (untouched s)
      serve_found-Answered s words (some code) q =
          respond-Answered _ s (serve_found cls s words (some code)) (serve cls code s words).1
            (some code) q (serve-Settled code s words) (λ e. absurd (cc))

      -- A line of words that is read, empty or malformed is answered by just one line.
      pub serve_words-Answered :
          (s : Server R) (status : Status) (words : List Bytes)
          → CanQuote s.read
          → (status ≡ success → words ≢ [])
          → (s' : Server R) × ((serve_words cls s status words >>= λ v.
                respond cls strerror v v.err v.ix)
              ≡ some s')
            × Answered (asked s.is_connected status words) s s'
      unfolding serve_words
      serve_words-Answered s success [] q ne = absurd (ne refl refl)
      serve_words-Answered s success (w ∷ ws) q ne =
          serve_found-Answered s (w ∷ ws) (find_request w) q
      serve_words-Answered s unspecific words q ne = complain-Answered _ s _ q (untouched s)
      serve_words-Answered s (errno e) words q ne = complain-Answered _ s _ q (untouched s)
