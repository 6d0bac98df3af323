-- ===== src/Client/Message.antt =====
-- One message over the descriptors: what the loops of `CommunicateWithServer` leave of the answers
-- that the system has still to give.
use libcody.Prelude.{
  ℕ, ◌+◌, ◌-◌, ◌≤◌, ◌<◌, true, false, List, [], ◌∷◌, ◌++◌, none, some, ◌≡◌, ◌≢◌, refl, sym, ap, ◌∙◌,
  arith, Bytes, length, ◌==◌, length-drop, append_assoc, append-ne-nil, Bool-cases, All, inl, inr,
  map, take_all, take-append-drop,
}
use libcody.Status.{success}
use libcody.Buffer.{MessageBuffer, empty_buffer, push}
use libcody.Buffer.Transfer.{WriteResult, ReadResult, wrote, got, read_failed, last_byte, unsent}
use libcody.Buffer.Reading.{
  is_whole, is_whole-append, is_partial_of_whole, received-partial, received-whole,
}
use libcody.Client.{Sent, read_loop, write_loop}
use libcody.Client.Receiving.{
  Arrival, arrives, interrupted, answer, arrived, interrupt, read-answer, read_loop_done,
  read_loop_again, last_byte-append,
}
use libcody.Client.Sending.{
  Takes, delivered, drop-drop, write_loop_nil, write_loop_done, write_loop_again, write_all,
  write_part, delivered_done, delivered_again,
}

-- The loop takes a whole message up to its last piece, and no answer behind it.
pub read_loop-message :
    (b : MessageBuffer) (first : List Arrival) (capacity c : ℕ) (s : Bytes)
    (later : List (ℕ × (ℕ → ReadResult)))
    → is_whole (last_byte none b.buffer) (arrived first ++ c ∷ s) ≡ true
    → read_loop b (map answer first ++ (capacity, λ n. got (c ∷ s)) ∷ later)
      ≡ some (record { status = success; buffer = push b (arrived first ++ c ∷ s); later = later })
read_loop-message b [] capacity c s later h =
    read_loop_done b capacity (λ n. got (c ∷ s)) later _
      (read-answer capacity (got (c ∷ s)) b ∙ received-whole b c s h) refl
read_loop-message b (interrupted size e k ∷ first) capacity c s later h =
    read_loop_again b size (λ n. read_failed e) _ _ (interrupt size e b) (rw k refl)
    ∙ read_loop-message b first capacity c s later h
read_loop-message b (arrives size d t ∷ first) capacity c s later h =
    let behind = arrived first ++ c ∷ s in
    let whole : is_whole (last_byte none b.buffer) ((d ∷ t) ++ behind) ≡ true =
      rw append_assoc at h in
    let part =
      is_partial_of_whole (last_byte none b.buffer) (d ∷ t) behind
        (append-ne-nil (arrived first) (c ∷ s) (λ p. cc)) whole in
    read_loop_again b size (λ n. got (d ∷ t)) _ _
      (read-answer size (got (d ∷ t)) b ∙ received-partial b d t part) refl
    ∙ read_loop-message (push b (d ∷ t)) first capacity c s later (
        rw (last_byte-append none b.buffer (d ∷ t))
          (sym (is_whole-append (last_byte none b.buffer) (d ∷ t) behind part) ∙ whole))
    ∙ simp append_assoc

-- All bytes are sent, and the answers to come are as good as before.
pub record SendsAll (b : MessageBuffer) (oss : List (Bytes → WriteResult)) : Type 0 where
  pub later : List (Bytes → WriteResult)
  pub sends :
      write_loop b oss ≡ some (record { status = success; buffer = empty_buffer; later = later })
  pub all_delivered : delivered b oss ≡ unsent b
  pub still_Takes : All Takes later
  pub enough_left : b.last_bol + length oss ≤ length b.buffer + length later

unsent_ne : (b : MessageBuffer) → b.last_bol < length b.buffer → unsent b ≢ []
unsent_ne b v p = omega (arith, ap length p, length-drop b.last_bol b.buffer)

-- A call that takes `n` bytes: the last one, or one with more behind it.
module _ (b : MessageBuffer) (os : Bytes → WriteResult) (later : List (Bytes → WriteResult)) (n : ℕ)
    (e : os (unsent b) ≡ wrote n) where
  record LastCall : Type 0 where
    sends :
        write_loop b (os ∷ later)
        ≡ some (record { status = success; buffer = empty_buffer; later = later })
    all_delivered : delivered b (os ∷ later) ≡ unsent b

  last_call : (n == length b.buffer - b.last_bol) ≡ true → LastCall
  last_call f =
      let t = write_all b os n e f in
      let all : n ≡ length (unsent b) = ground (arith, length-drop b.last_bol b.buffer) in
      record {
        sends = write_loop_done b os later (rw t refl) ∙ rw t refl;
        all_delivered = delivered_done b os later (rw t refl) ∙ rw e (rw all (take_all (unsent b)));
      }

  abbrev after : MessageBuffer
  after = record b { last_bol = b.last_bol + n }

  record NextCall : Type 0 where
    position : b.last_bol + n < length b.buffer
    again : write_loop b (os ∷ later) ≡ write_loop after later
    behind : delivered after later ≡ unsent after → delivered b (os ∷ later) ≡ unsent b

  next_call : n ≤ length (unsent b) → (n == length b.buffer - b.last_bol) ≡ false → NextCall
  next_call within f =
      let t = write_part b os n e f in
      record {
        position = ground (arith, length-drop b.last_bol b.buffer);
        again = write_loop_again b os later (rw t refl) ∙ rw t refl;
        behind = λ all.
            delivered_again b os later (rw t refl)
            ∙ rw (t, e)
                (rw all
                  (rw (sym (drop-drop b.last_bol n b.buffer)) (take-append-drop n (unsent b))));
      }

pub write_loop-SendsAll :
    (oss : List (Bytes → WriteResult)) (b : MessageBuffer)
    → All Takes oss
    → b.last_bol < length b.buffer
    → length b.buffer ≤ b.last_bol + length oss
    → SendsAll b oss
write_loop-SendsAll [] b h v fuel = absurd (omega arith)
write_loop-SendsAll (os ∷ later) b (h, hs) v fuel =
    let (n, e, pos, within) = h.some_byte (unsent b) (unsent_ne b v) in
    elim (Bool-cases (n == length b.buffer - b.last_bol)) [
      | inl f ↦
          let last = last_call b os later n e f in
          record {
            later = later;
            sends = last.sends;
            all_delivered = last.all_delivered;
            still_Takes = hs;
            enough_left = omega arith;
          }
      | inr f ↦
          let more = next_call b os later n e within f in
          let r =
            write_loop-SendsAll later (record b { last_bol = b.last_bol + n }) hs more.position
              (omega arith) in
          record {
            later = r.later;
            sends = more.again ∙ r.sends;
            all_delivered = more.behind r.all_delivered;
            still_Takes = r.still_Takes;
            enough_left = omega (arith, r.enough_left);
          }
    ]

-- A loop that ends has sent all bytes, since no call fails.
pub write_loop-Takes :
    (oss : List (Bytes → WriteResult)) (b : MessageBuffer) (r : Sent (Bytes → WriteResult))
    → All Takes oss
    → b.last_bol < length b.buffer
    → write_loop b oss ≡ some r
    → (r.status ≡ success) × (r.buffer ≡ empty_buffer) × (delivered b oss ≡ unsent b)
write_loop-Takes [] b r h v q = absurd (cc (write_loop_nil b))
write_loop-Takes (os ∷ later) b r (h, hs) v q =
    let (n, e, pos, within) = h.some_byte (unsent b) (unsent_ne b v) in
    elim (Bool-cases (n == length b.buffer - b.last_bol)) [
      | inl f ↦
          let last = last_call b os later n e f in
          let same = sym last.sends ∙ q in (cc same, cc same, last.all_delivered)
      | inr f ↦
          let more = next_call b os later n e within f in
          let (ends, reset, all) =
            write_loop-Takes later (record b { last_bol = b.last_bol + n }) r hs more.position
              (sym more.again ∙ q) in
          (ends, reset, more.behind all)
    ]

-- Where there is a byte to send, the loop ends with success after as many calls as there are bytes
-- to send, at most, if each call takes one byte or more.
pub write_loop-success :
    (oss : List (Bytes → WriteResult)) (b : MessageBuffer)
    → All Takes oss
    → b.last_bol < length b.buffer
    → length b.buffer ≤ b.last_bol + length oss
    → (r : Sent (Bytes → WriteResult)) × (write_loop b oss ≡ some r) × (r.status ≡ success)
write_loop-success oss b h v fuel =
    let a = write_loop-SendsAll oss b h v fuel in
    (record { status = success; buffer = empty_buffer; later = a.later }, a.sends, refl)
