-- ===== src/Client/Corked.antt =====
-- `Uncork`: the packets of the requests that were queued.
use libcody.Prelude.{
  suc, Bool, true, false, List, [], ◌∷◌, Option, none, some, ◌≡◌, refl, ap, ◌∙◌, Bytes, ◌>>=◌,
  length, ◌⊎◌, inl, inr,
}
use libcody.Status.{Status, success, unspecific, errno}
use libcody.Packet.{RequestCode, Packet}
use libcody.Server.{Resolvers}
use libcody.Client.{
  Client, World, Called, process_response, process_responses, all_responses, communication_error,
  communicate_with_server, uncork,
}

-- The two parts of a chain that gives a result.
pub chain_parts {ℓ κ} :
    {A : Type ℓ} {B : Type κ} (o : Option A) (f : A → Option B) (b : B)
    → (o >>= f) ≡ some b
    → (a : A) × (o ≡ some a) × (f a ≡ some b)
chain_parts none f b e = cc
chain_parts (some a) f b e = (a, refl, e)

module _ {R : Type 0} (cls : Resolvers R) (strerror : Status → Bytes) where
  process_responses-length :
      (queue : List (Option RequestCode)) (c : Client) (r : List Packet × Client)
      → process_responses cls strerror queue c ≡ some r
      → length r.0 ≡ length queue
  unfolding process_responses
  process_responses-length [] c r e = cc
  process_responses-length (code ∷ queue) c r e =
      let last : Bool = elim queue [ [] ↦ true | _ ∷ _ ↦ false ] in
      let (answer, p, rest) =
        chain_parts (process_response c code last)
          (λ answer. process_responses cls strerror queue answer.1 >>= λ rest.
            some (answer.0 ∷ rest.0, rest.1))
          r e in
      let (later, q, done) =
        chain_parts (process_responses cls strerror queue answer.1)
          (λ rest. some (answer.0 ∷ rest.0, rest.1)) r rest in
      let n = process_responses-length queue answer.1 later q in
      let packets : r.0 ≡ answer.0 ∷ later.0 = cc in ap length packets ∙ ap suc n

  -- One packet for each request of the queue, or the one of an error.
  abbrev IsAnswer : List (Option RequestCode) → List Packet → Type 0
  unfolding communication_error
  IsAnswer queue packets =
      (length packets ≡ length queue)
      ⊎ ((err : Status) × (packets ≡ communication_error cls strerror err ∷ []))

  all_responses-IsAnswer :
      (queue : List (Option RequestCode)) (err : Status) (c : Client) (w : World R)
      (r : Called R (List Packet))
      → all_responses cls strerror queue err c w ≡ some r
      → (r.client.corked ≡ []) × IsAnswer queue r.result
  unfolding all_responses IsAnswer
  all_responses-IsAnswer queue success c w r e =
      let (answers, p, done) =
        chain_parts (process_responses cls strerror queue c)
          (λ answers.
            some
              (record { result = answers.0; client = record answers.1 { corked = [] }; world = w }))
          r e in
      let n = process_responses-length queue c answers p in
      let same : r.result ≡ answers.0 = cc in (cc, inl (ap length same ∙ n))
  all_responses-IsAnswer queue unspecific c w r e = (cc, inr (unspecific, cc))
  all_responses-IsAnswer queue (errno x) c w r e = (cc, inr (errno x, cc))

  -- `Uncork` after requests were queued: if it returns, the client is no longer corked, and there is
  -- one packet for each queued request, or just the packet of a communication error.
  uncork-IsAnswer :
      (c : Client) (w : World R) (r : Called R (List Packet)) (tag code : Option RequestCode)
      (queue : List (Option RequestCode))
      → c.corked ≡ tag ∷ code ∷ queue
      → uncork cls strerror c w ≡ some r
      → (r.client.corked ≡ []) × IsAnswer (code ∷ queue) r.result
  unfolding uncork
  uncork-IsAnswer c w r tag code queue h e =
      let (x, p, done) =
        chain_parts
          (communicate_with_server cls strerror (record c { corked = tag ∷ code ∷ queue }) w)
          (λ x. all_responses cls strerror (code ∷ queue) x.result x.client x.world) r
          (rw h at e) in
      all_responses-IsAnswer (code ∷ queue) x.result x.client x.world r done
