-- ===== src/Client/Sending.antt =====
-- The loop of `CommunicateWithServer` over `Write`: the bytes that the system takes.
use libcody.Prelude.{
  ℕ, zero, suc, ◌+◌, ◌-◌, ◌≤◌, ◌<◌, true, false, List, [], ◌∷◌, ◌++◌, some, none, ◌≡◌, ◌≢◌, refl,
  sym, ◌∙◌, arith, Bytes, length, take, drop, take-append-drop, take_all, length-drop, ◌==◌,
  if◌then◌else◌, append-nil, Bool-cases, All, inl, inr,
}
use libcody.Status.{success, errno, eagain, is_retry}
use libcody.Buffer.{MessageBuffer, empty_buffer}
use libcody.Buffer.Transfer.{Transfer, WriteResult, wrote, write_failed, write, written, unsent}
use libcody.Client.{Sent, is_done, write_loop}

-- `write (2)` takes no more bytes than it is given.
pub record IsWrite (os : Bytes → WriteResult) : Type 0 where
  pub within : (d : Bytes) (n : ℕ) → os d ≡ wrote n → n ≤ length d

-- The bytes that the system takes in one call, and in all calls of the loop.
abbrev pub taken : Bytes → WriteResult → Bytes
taken d (wrote n) = take n d
taken d (write_failed e) = []

pub delivered : MessageBuffer → List (Bytes → WriteResult) → Bytes
delivered b [] = []
delivered b (os ∷ later) =
    let rest = delivered (write os b).rest later in
    taken (unsent b) (os (unsent b)) ++ (if is_done (write os b).status then [] else rest)

-- One call of `Write`: it is done and the buffer is reset, with all bytes sent if it succeeds, or
-- another call is to send what is left.
data OneWrite (b : MessageBuffer) (a : WriteResult) (t : Transfer) : Type 0 where
  finished :
      is_done t.status ≡ true
      → t.rest ≡ empty_buffer
      → (t.status ≡ success → taken (unsent b) a ≡ unsent b)
      → OneWrite b a t
  partly :
      is_done t.status ≡ false
      → t.rest.last_bol ≤ length t.rest.buffer
      → taken (unsent b) a ++ unsent t.rest ≡ unsent b
      → OneWrite b a t

drop_nil : (n : ℕ) → drop {A = ℕ} n [] ≡ []
drop_nil zero = refl
drop_nil (suc n) = refl

pub drop-drop : (m n : ℕ) (s : Bytes) → drop n (drop m s) ≡ drop (m + n) s
drop-drop zero n s = let e : 0 + n ≡ n = omega arith in rw e
drop-drop (suc m) n [] = drop_nil n ∙ sym (drop_nil (suc m + n))
drop-drop (suc m) n (c ∷ s) =
    let e : suc m + n ≡ suc (m + n) = omega arith in rw e (drop-drop m n s)

one_write :
    (b : MessageBuffer) (a : WriteResult)
    → b.last_bol ≤ length b.buffer
    → ((n : ℕ) → a ≡ wrote n → n ≤ length (unsent b))
    → OneWrite b a (written b a)
one_write b (write_failed e) h k = elim (Bool-cases (is_retry e)) [
  | inl r ↦ partly (rw r) (rw r h) (rw r)
  | inr r ↦ finished (rw r) (rw r) (λ p. cc)
]
one_write b (wrote n) h k = elim (Bool-cases (n == length b.buffer - b.last_bol)) [
  | inl e ↦
      let all : n ≡ length (unsent b) = ground (arith, length-drop b.last_bol b.buffer) in
      finished (rw e) (rw e) (λ _. rw all (take_all (unsent b)))
  | inr e ↦
      partly (rw e) (rw e (ground (arith, k n refl, length-drop b.last_bol b.buffer)))
        (rw e (rw (sym (drop-drop b.last_bol n b.buffer)) (take-append-drop n (unsent b))))
]

pub write_loop_nil : (b : MessageBuffer) → write_loop b [] ≡ none
unfolding write_loop
write_loop_nil b = refl

module _ (b : MessageBuffer) (os : Bytes → WriteResult) (later : List (Bytes → WriteResult)) where
  abbrev one : Transfer
  one = write os b

  pub write_loop_done :
      is_done one.status ≡ true
      → write_loop b (os ∷ later)
        ≡ some (record { status = one.status; buffer = one.rest; later = later })
  unfolding write_loop
  write_loop_done h = rw h

  pub write_loop_again :
      is_done one.status ≡ false → write_loop b (os ∷ later) ≡ write_loop one.rest later
  unfolding write_loop
  write_loop_again h = rw h

  pub delivered_done :
      is_done one.status ≡ true → delivered b (os ∷ later) ≡ taken (unsent b) (os (unsent b))
  unfolding delivered
  delivered_done h = rw (h, append-nil)

  pub delivered_again :
      is_done one.status ≡ false
      → delivered b (os ∷ later) ≡ taken (unsent b) (os (unsent b)) ++ delivered one.rest later
  unfolding delivered
  delivered_again h = rw h

  write-OneWrite : IsWrite os → b.last_bol ≤ length b.buffer → OneWrite b (os (unsent b)) one
  unfolding write
  write-OneWrite h v = one_write b (os (unsent b)) v (λ n p. h.within (unsent b) n p)

abbrev Sends : MessageBuffer → List (Bytes → WriteResult) → Sent (Bytes → WriteResult) → Type 0
Sends b oss r = (r.buffer ≡ empty_buffer) × (r.status ≡ success → delivered b oss ≡ unsent b)

Sends-cons :
    (b : MessageBuffer) (os : Bytes → WriteResult) (later : List (Bytes → WriteResult))
    (r : Sent (Bytes → WriteResult))
    → OneWrite b (os (unsent b)) (write os b)
    → ((write os b).rest.last_bol ≤ length (write os b).rest.buffer
        → write_loop (write os b).rest later ≡ some r
        → Sends (write os b).rest later r)
    → write_loop b (os ∷ later) ≡ some r
    → Sends b (os ∷ later) r
Sends-cons b os later r (finished d z all) ih q =
    let same = sym (write_loop_done b os later d) ∙ q in
    let status : (write os b).status ≡ r.status = cc same in
    let rest : (write os b).rest ≡ r.buffer = cc same in
    (sym rest ∙ z, λ k. delivered_done b os later d ∙ all (status ∙ k))
Sends-cons b os later r (partly d v split) ih q =
    let (reset, all) = ih v (sym (write_loop_again b os later d) ∙ q) in
    (reset, λ k. delivered_again b os later d ∙ rw (all k) split)

write_loop-Sends :
    (oss : List (Bytes → WriteResult)) (b : MessageBuffer) (r : Sent (Bytes → WriteResult))
    → All IsWrite oss
    → b.last_bol ≤ length b.buffer
    → write_loop b oss ≡ some r
    → Sends b oss r
write_loop-Sends [] b r h v e = absurd (cc (write_loop_nil b))
write_loop-Sends (os ∷ later) b r (h, hs) v e =
    Sends-cons b os later r (write-OneWrite b os later h v)
      (λ v'. write_loop-Sends later (write os b).rest r hs v') e

-- If the loop ends with success, the calls of `Write` have given the system all bytes from the
-- position on, in their order and each once, and the buffer is reset, where the position is in the
-- buffer and the system takes no more bytes than it is given.
pub write_loop-delivered :
    (oss : List (Bytes → WriteResult)) (b : MessageBuffer) (r : Sent (Bytes → WriteResult))
    → All IsWrite oss
    → b.last_bol ≤ length b.buffer
    → write_loop b oss ≡ some r
    → r.status ≡ success
    → (r.buffer ≡ empty_buffer) × (delivered b oss ≡ unsent b)
write_loop-delivered oss b r h v e k =
    let (reset, all) = write_loop-Sends oss b r h v e in (reset, all k)

-- However the loop ends, the buffer is empty for the next message, where the position is in the
-- buffer and the system takes no more bytes than it is given.
write_loop_resets :
    (oss : List (Bytes → WriteResult)) (b : MessageBuffer) (r : Sent (Bytes → WriteResult))
    → All IsWrite oss
    → b.last_bol ≤ length b.buffer
    → write_loop b oss ≡ some r
    → r.buffer ≡ empty_buffer
write_loop_resets oss b r h v e = (write_loop-Sends oss b r h v e).0

-- A system that takes a byte at least whenever it is given one.
pub record Takes (os : Bytes → WriteResult) : Type 0 where
  pub some_byte : (d : Bytes) → d ≢ [] → (n : ℕ) × (os d ≡ wrote n) × (0 < n) × (n ≤ length d)

module _ (b : MessageBuffer) (os : Bytes → WriteResult) (n : ℕ) (e : os (unsent b) ≡ wrote n) where
  pub write_all :
      (n == length b.buffer - b.last_bol) ≡ true
      → write os b ≡ record { status = success; rest = empty_buffer }
  unfolding write
  write_all f = rw (e, f)

  pub write_part :
      (n == length b.buffer - b.last_bol) ≡ false
      → write os b ≡ record { status = errno eagain; rest = record b { last_bol = b.last_bol + n } }
  unfolding write
  write_part f = rw (e, f)
