-- ===== src/Server/Loop.antt =====
-- `ProcessRequests` on the bytes of any message: the loop ends, stays inside the buffer, and each
-- line gets one response line.
use libcody.Prelude.{
  ℕ, zero, suc, ◌+◌, ◌≤◌, true, false, List, [], ◌∷◌, ◌++◌, Option, none, some, ◌≡◌, refl, ◌∙◌,
  arith, Bytes, All, length,
}
use libcody.Status.{Errno}
use libcody.Buffer.{is_at_end}
use libcody.Buffer.Message.{line_text}
use libcody.Buffer.Lex.{Lexed, lex}
use libcody.Buffer.Consume.{IsNoNewline, TakesLine, success-Outcome, lex-TakesLine}
use libcody.Server.{Server, Resolvers, processing}
use libcody.Server.Process.{process_line, process_loop, process_requests}
use libcody.Server.Answers.{Answers, Answered}
use libcody.Server.Round.{serve_words-Answered}
use libcody.Server.Replies.{asked, IsReply-NoNewline}
use libcody.Buffer.Lines.{
  CanQuote, lines_text, read_at, AreQuotable, last?-lines_text, next_read, AreQuotable-behind,
  at_end, not_at_end_line, length-lines_text, after-CanQuote,
}

module _ {R : Type 0} (cls : Resolvers R) (laws : Answers cls) (strerror : Errno → Bytes) where
  -- One round of the loop: the line that `Lex` takes, and the response to it, which is one line of
  -- text.
  pub record Round (s t : Server R) : Type 0 where
    pub lexed : Lexed
    pub reads : lex s.read ≡ some lexed
    pub runs : process_line cls strerror s ≡ some t
    pub answer :
        Answered (asked s.is_connected lexed.status lexed.words) (record s { read = lexed.rest }) t
    pub no_newline : All IsNoNewline (line_text answer.words)

  Round-of :
      (s t : Server R) (r : Lexed)
      → lex s.read ≡ some r
      → process_line cls strerror s ≡ some t
      → Answered (asked s.is_connected r.status r.words) (record s { read = r.rest }) t
      → Round s t
  Round-of s t r e p a = record {
    lexed = r;
    reads = e;
    runs = p;
    answer = a;
    no_newline = IsReply-NoNewline a.reply;
  }

  line-Round :
      (s : Server R) (o : Option Lexed) (pre body tail : Bytes)
      → lex s.read ≡ o
      → TakesLine pre body tail o
      → CanQuote (record {
        buffer = pre ++ (body ++ b'\n' ∷ tail);
        last_bol = length pre + length body + 1;
      })
      → (t : Server R) × Round s t
        × (t.read ≡ record {
          buffer = pre ++ (body ++ b'\n' ∷ tail);
          last_bol = length pre + length body + 1;
        })
  unfolding process_line
  line-Round s none pre body tail e t q = absurd t
  line-Round s (some r) pre body tail e (rest, outcome) q =
      let (t, p, a) =
        serve_words-Answered cls laws strerror (record s { read = r.rest }) r.status r.words
          (rw rest q) (success-Outcome body r.status r.words outcome) in
      (t, Round-of s t r e (rw e p) a, a.same_read ∙ rest)

  -- The lines of a message behind `pre`, each in its turn: the round begins at the line, and the next
  -- round in the state that it leaves.
  abbrev pub AllAnswered : Bytes → Server R → List Bytes → Server R → Type 0
  AllAnswered pre s [] s' = (s.read ≡ read_at pre []) × (s' ≡ s)
  AllAnswered pre s (body ∷ bodies) s' =
      (s.read ≡ read_at pre (lines_text (body ∷ bodies)))
      × ((t : Server R) × Round s t × AllAnswered ((pre ++ body) ++ b'\n' ∷ []) t bodies s')

  pub process_loop_end :
      (fuel : ℕ) (s : Server R)
      → is_at_end s.read ≡ true
      → process_loop cls strerror fuel s ≡ some s
  unfolding process_loop
  process_loop_end zero s e = rw e
  process_loop_end (suc fuel) s e = rw (e, process_loop)

  pub process_loop_next :
      (fuel : ℕ) (s t : Server R)
      → is_at_end s.read ≡ false
      → process_line cls strerror s ≡ some t
      → process_loop cls strerror (suc fuel) s ≡ process_loop cls strerror fuel t
  unfolding process_loop
  process_loop_next fuel s t e f = rw (e, process_loop) (rw f)

  loop-AllAnswered :
      (bodies : List Bytes) (fuel : ℕ) (pre : Bytes) (s : Server R)
      → length bodies ≤ fuel
      → All (All IsNoNewline) bodies
      → AreQuotable pre bodies
      → s.read ≡ read_at pre (lines_text bodies)
      → (s' : Server R) × (process_loop cls strerror fuel s ≡ some s') × AllAnswered pre s bodies s'
  loop-AllAnswered [] fuel pre s le h q e =
      (s, process_loop_end fuel s (rw e (at_end pre)), (e, refl))
  loop-AllAnswered (body ∷ bodies) zero pre s le h q e = absurd (omega arith)
  loop-AllAnswered (body ∷ bodies) (suc fuel) pre s le (h, hs) q e =
      let tail = lines_text bodies in
      let (t, round, read) =
        line-Round s (lex s.read) pre body tail refl
          (rw e (lex-TakesLine pre body tail h (last?-lines_text bodies)))
          (after-CanQuote pre body tail q h) in
      let (s', p', rest) =
        loop-AllAnswered bodies fuel ((pre ++ body) ++ b'\n' ∷ []) t (omega arith) hs
          (AreQuotable-behind (pre ++ body) bodies) (read ∙ next_read pre body tail) in
      (
        s',
        process_loop_next fuel s t (rw e (not_at_end_line pre body tail)) round.runs ∙ p',
        (e, (t, round, rest)),
      )

  -- `ProcessRequests` ends, and reads nothing outside the buffer, for a message of any bytes that ends
  -- in a newline, with a first line that is neither empty nor a lone `;`, and a resolver that keeps
  -- its contract. It takes the lines in order, and each line, blank and malformed ones too, gets just
  -- one response, a line of text with no newline in it, behind the responses before: an error, or a
  -- response of a kind that README.md has for the request that `Lex` reads in that line, where the
  -- request is a `HELLO` to a server that is not connected or another request to one that is.
  pub process_requests-AllAnswered :
      (s : Server R) (bodies : List Bytes)
      → All (All IsNoNewline) bodies
      → AreQuotable [] bodies
      → s.read ≡ record { buffer = lines_text bodies; last_bol = 0 }
      → (s' : Server R) × (process_requests cls strerror s ≡ some s')
        × AllAnswered [] (record s { direction = processing }) bodies s'
  unfolding process_requests
  process_requests-AllAnswered s bodies h q e =
      loop-AllAnswered bodies (length s.read.buffer) [] (record s { direction = processing })
        (rw e (length-lines_text bodies)) h q e
