-- ===== src/Session/Line.antt =====
-- One line of a message of calls at the server: a round of the loop of `ProcessRequests`.
use libcody.Prelude.{
  Bool, false, List, [], ◌∷◌, ◌++◌, Option, some, ◌≡◌, refl, sym, ap, ◌∙◌, arith, Bytes, length,
  Bool-cases, inl, inr, codes, if◌then◌else◌,
}
use libcody.Status.{Errno, success, unspecific}
use libcody.Buffer.{MessageBuffer}
use libcody.Buffer.Lex.{lex}
use libcody.Buffer.Line.{lexed_line}
use libcody.Buffer.LastLine.{BeginsLine}
use libcody.Buffer.Bare.{bare}
use libcody.Buffer.Message.{Word, texts, write_line, line_text, argument_all}
use libcody.Packet.{RequestCode}
use libcody.Server.{Server, error_response}
use libcody.Server.Responses.{error_response-write}
use libcody.Server.Process.{serve, serve_words, find_request, process_line, complain, complaint}
use libcody.Resolver.{default_resolver, resolver_error_response}
use libcody.Session.{
  Call, IsCall, in_order, connected_after, in_order-IsInOrder, connected_after_order,
  connected_after_refusal,
}
use libcody.Session.Readable.{call-IsLine}
use libcody.Session.Written.{call_code, call_line, call_word, call_words, find_request-call}
use libcody.Session.Joined.{front, at, lex-joined}
use libcody.Session.Calls.{call-Serves}
use libcody.Session.Quoted.{lexed_line-joined}
use libcody.Session.Told.{refusal, reply_line}

-- The line of a call is answered, and the server is behind it.
pub record LineDone {R : Type 0} (is_regular : Bytes → Bool) (s : Server R) (b : MessageBuffer)
    (connected : Bool) (call : Call) (o : Option (Server R)) : Type 0 where
  pub server : Server R
  pub done : o ≡ some server
  pub same_read : server.read ≡ b
  pub written : server.write ≡ write_line s.write (reply_line is_regular connected call)
  pub up : server.is_connected ≡ connected_after connected call

complaint_refusal :
    (R : Type 0) (is_regular : Bytes → Bool) (connected : Bool) (call : Call)
    → in_order connected call ≡ false
    → complaint (default_resolver {R = R} is_regular) connected unspecific (some (call_code call))
      ≡ (if connected then codes "already connected '" else codes "not connected '")
unfolding complaint
complaint_refusal R is_regular connected call e = ground arith

module _ {R : Type 0} (is_regular : Bytes → Bool) (strerror : Errno → Bytes) where
  line_served :
      (s s' : Server R) (code : RequestCode) (w : Word) (ws : List Word) (b : MessageBuffer)
      → lex s.read ≡ some (record { status = success; words = texts (w ∷ ws); rest = b })
      → find_request w.text ≡ some code
      → serve (default_resolver is_regular) code (record s { read = b }) (texts (w ∷ ws))
        ≡ (s', success)
      → process_line (default_resolver is_regular) strerror s ≡ some s'
  unfolding process_line serve_words
  line_served s s' code w ws b l f e = rw (l, process_line) (rw (f, serve_words) (rw e))

  line_refused :
      (s : Server R) (code : RequestCode) (w : Word) (ws : List Word) (b : MessageBuffer)
      (msg : Bytes)
      → lex s.read ≡ some (record { status = success; words = texts (w ∷ ws); rest = b })
      → find_request w.text ≡ some code
      → serve (default_resolver is_regular) code (record s { read = b }) (texts (w ∷ ws))
        ≡ (record s { read = b }, unspecific)
      → lexed_line b
          (complaint (default_resolver {R = R} is_regular) s.is_connected unspecific (some code))
        ≡ some msg
      → process_line (default_resolver is_regular) strerror s
        ≡ some (resolver_error_response s.resolver (record s { read = b }) (msg ++ b'\'' ∷ []))
  unfolding process_line serve_words complain default_resolver
  line_refused s code w ws b msg l f e q =
      rw (l, process_line) (rw (f, serve_words) (rw e (rw (q, complain) refl)))

  serve_refuses :
      (s : Server R) (connected : Bool) (call : Call) (words : List Bytes)
      → s.is_connected ≡ connected
      → in_order connected call ≡ false
      → serve (default_resolver is_regular) (call_code call) s words ≡ (s, unspecific)
  unfolding serve
  serve_refuses s connected call words c e = ground arith

  pub call_done :
      (pre : Bytes) (call : Call) (ls : List (List Word)) (connected : Bool) (s : Server R)
      → BeginsLine pre
      → IsCall call
      → s.is_connected ≡ connected
      → s.read ≡ at pre (call_line call ∷ ls)
      → LineDone is_regular s
          (at (pre ++ front (call_line call) ls) ls)
          connected
          call
          (process_line (default_resolver is_regular) strerror s)
  unfolding resolver_error_response
  call_done pre call ls connected s begins h c r =
      let b = at (pre ++ front (call_line call) ls) ls in
      let l : lex s.read
          ≡ some (record { status = success; words = texts (call_line call); rest = b }) =
        ap lex r ∙ lex-joined pre (call_line call) ls (call-IsLine call h) in
      elim (Bool-cases (in_order connected call)) [
        | inl e ↦
            let v =
              call-Serves is_regular (record s { read = b }) connected call c
                (in_order-IsInOrder connected call e h) in
            record {
              server = v.server;
              done =
                  line_served s v.server (call_code call) (bare (call_word call)) (call_words call)
                    b l (find_request-call call) v.replies.served;
              same_read = v.replies.same_read;
              written = rw e v.replies.written;
              up = v.up ∙ sym (connected_after_order connected call e);
            }
        | inr e ↦
            let msg =
              (if connected then codes "already connected '" else codes "not connected '")
              ++ line_text (call_line call) in
            let q : lexed_line b (
                  complaint (default_resolver {R = R} is_regular) s.is_connected unspecific
                    (some (call_code call)))
                ≡ some msg =
              ap
                (λ k. lexed_line b (
                  complaint (default_resolver {R = R} is_regular) k unspecific
                    (some (call_code call))))
                c
              ∙ ap (lexed_line b) (complaint_refusal R is_regular connected call e)
              ∙ lexed_line-joined pre (call_line call) ls _ begins (call-IsLine call h) in
            record {
              server =
                  resolver_error_response s.resolver (record s { read = b })
                    (refusal connected call);
              done =
                  line_refused s (call_code call) (bare (call_word call)) (call_words call) b msg l
                    (find_request-call call)
                    (serve_refuses (record s { read = b }) connected call _ c e) q;
              same_read = unfold error_response in refl;
              written = rw e (
                  ap (λ t. t.write)
                    (error_response-write (record s { read = b }) (refusal connected call)
                      (some (length (refusal connected call))))
                  ∙ rw (argument_all (refusal connected call)) refl);
              up = unfold error_response in (c ∙ sym (connected_after_refusal connected call e));
            }
      ]
