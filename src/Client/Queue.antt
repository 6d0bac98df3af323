-- ===== src/Client/Queue.antt =====
-- The packets of `Uncork`, whatever the server and the system do.
use mathlib.Core.Path.{subst}
use libcody.Prelude.{
  Bool, true, false, List, [], ◌∷◌, none, some, ◌≡◌, ◌>>=◌, ◌⊎◌, inl, inr, Bytes, map,
}
use libcody.Status.{Status, success, unspecific, errno}
use libcody.Packet.{RequestCode, Packet}
use libcody.Server.{Resolvers}
use libcody.Client.{
  Client, World, Called, process_response, process_responses, all_responses,
  communicate_with_server, communication_error, uncork,
}
use libcody.Client.Corked.{chain_parts}
use libcody.Client.Kinds.{Fits, process_response-Fitting}

-- One packet for each request, which fits it, in the order of the requests.
abbrev pub AllFit : List RequestCode → List Packet → Type 0
AllFit [] [] = Unit
AllFit (code ∷ queue) (p ∷ packets) = Fits code p × AllFit queue packets
AllFit queue packets = ⊥

module _ {R : Type 0} (cls : Resolvers R) (strerror : Status → Bytes) where
  pub process_responses-AllFit :
      (queue : List RequestCode) (c : Client) (r : List Packet × Client)
      → process_responses cls strerror (map some queue) c ≡ some r
      → AllFit queue r.0
  unfolding process_responses
  process_responses-AllFit [] c r e = let same : [] ≡ r.0 = cc in subst (λ ps. AllFit [] ps) same tt
  process_responses-AllFit (code ∷ queue) c r e =
      let last : Bool = elim (map some queue) [ [] ↦ true | _ ∷ _ ↦ false ] in
      let (answer, p, rest) =
        chain_parts (process_response c (some code) last)
          (λ answer. process_responses cls strerror (map some queue) answer.1 >>= λ rest.
            some (answer.0 ∷ rest.0, rest.1))
          r e in
      let (later, q, done) =
        chain_parts (process_responses cls strerror (map some queue) answer.1)
          (λ rest. some (answer.0 ∷ rest.0, rest.1)) r rest in
      let packets : answer.0 ∷ later.0 ≡ r.0 = cc in
      subst (λ ps. AllFit (code ∷ queue) ps) packets
        (
          (process_response-Fitting code c last answer p).fits,
          process_responses-AllFit queue answer.1 later q,
        )

  -- The packets that fit, or the one of an error of the communication.
  abbrev pub FitsQueue : List RequestCode → List Packet → Type 0
  unfolding communication_error
  FitsQueue queue packets =
      AllFit queue packets
      ⊎ ((err : Status) × (packets ≡ communication_error cls strerror err ∷ []))

  all_responses-FitsQueue :
      (queue : List RequestCode) (err : Status) (c : Client) (w : World R)
      (r : Called R (List Packet))
      → all_responses cls strerror (map some queue) err c w ≡ some r
      → (r.client.corked ≡ []) × FitsQueue queue r.result
  unfolding all_responses FitsQueue
  all_responses-FitsQueue queue success c w r e =
      let (answers, p, done) =
        chain_parts (process_responses cls strerror (map some queue) c)
          (λ answers.
            some
              (record { result = answers.0; client = record answers.1 { corked = [] }; world = w }))
          r e in
      let same : answers.0 ≡ r.result = cc in
      (cc, inl (subst (λ ps. AllFit queue ps) same (process_responses-AllFit queue c answers p)))
  all_responses-FitsQueue queue unspecific c w r e = (cc, inr (unspecific, cc))
  all_responses-FitsQueue queue (errno x) c w r e = (cc, inr (errno x, cc))

  -- Whatever the server answers and the system does, if `Uncork` returns, the client is no longer
  -- corked, and there is one packet for each request that was queued, in their order, or just the
  -- packet of an error of the communication. Each of the packets fits its request: its code is an
  -- error or one that may answer the request, its payload is of the kind of its code (for a Boolean,
  -- zero or one), and unless it is an error it has the number of the request. The queue is the tag
  -- that `Cork` sets with the requests of the calls behind it.
  pub uncork-FitsQueue :
      (c : Client) (w : World R) (r : Called R (List Packet)) (queue : List RequestCode)
      → c.corked ≡ none ∷ map some queue
      → uncork cls strerror c w ≡ some r
      → (r.client.corked ≡ []) × FitsQueue queue r.result
  unfolding uncork
  uncork-FitsQueue c w r [] h e =
      let e' = rw h at e in
      let same : [] ≡ r.result = cc in (cc, inl (subst (λ ps. AllFit [] ps) same tt))
  uncork-FitsQueue c w r (code ∷ queue) h e =
      let (x, p, done) =
        chain_parts
          (communicate_with_server cls strerror
            (record c { corked = none ∷ map some (code ∷ queue) }) w)
          (λ x. all_responses cls strerror (map some (code ∷ queue)) x.result x.client x.world) r
          (rw h at e) in
      all_responses-FitsQueue (code ∷ queue) x.result x.client x.world r done
