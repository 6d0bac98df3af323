-- ===== src/Client/Receiving.antt =====
-- The loop of `CommunicateWithServer` over `Read`: what it takes for a message.
use mathlib.Core.Path.{subst₂}
use libcody.Prelude.{
  ℕ, true, false, List, [], ◌∷◌, ◌++◌, Option, none, some, ◌≡◌, ◌≢◌, refl, sym, ◌∙◌, Bytes, length,
  append-nil, append_assoc, Bool-cases, ◌⊎◌, inl, inr, map,
}
use libcody.Status.{
  Errno, Status, success, unspecific, errno, eagain, eintr, einval, enoent, other, is_retry,
}
use libcody.Buffer.{MessageBuffer, push}
use libcody.Buffer.Transfer.{
  Transfer, ReadResult, got, read_failed, last_byte, received, read, room,
}
use libcody.Buffer.Reading.{
  is_whole, is_partial, is_whole-append, is_partial_of_whole, received-partial, received-whole,
  received-Holds, Holds,
}
use libcody.Client.{Sent, is_done, read_loop}

-- What `read (2)` may answer while a message comes in: some bytes, or an error that asks for
-- another try. The number is the capacity of the buffer.
pub data Arrival : Type 0 where
  arrives : ℕ → ℕ → Bytes → Arrival
  interrupted : ℕ → (e : Errno) → is_retry e ≡ true → Arrival

abbrev pub answer : Arrival → ℕ × (ℕ → ReadResult)
answer (arrives capacity c s) = (capacity, λ n. got (c ∷ s))
answer (interrupted capacity e h) = (capacity, λ n. read_failed e)

abbrev pub arrived : List Arrival → Bytes
arrived [] = []
arrived (arrives capacity c s ∷ later) = (c ∷ s) ++ arrived later
arrived (interrupted capacity e h ∷ later) = arrived later

read_loop_nil : (b : MessageBuffer) → read_loop b [] ≡ none
unfolding read_loop
read_loop_nil b = refl

pub read_loop_done :
    (b : MessageBuffer) (capacity : ℕ) (os : ℕ → ReadResult) (later : List (ℕ × (ℕ → ReadResult)))
    (t : Transfer)
    → read capacity os b ≡ t
    → is_done t.status ≡ true
    → read_loop b ((capacity, os) ∷ later)
      ≡ some (record { status = t.status; buffer = t.rest; later = later })
unfolding read_loop
read_loop_done b capacity os later t e h = rw (e, h)

pub read_loop_again :
    (b : MessageBuffer) (capacity : ℕ) (os : ℕ → ReadResult) (later : List (ℕ × (ℕ → ReadResult)))
    (t : Transfer)
    → read capacity os b ≡ t
    → is_done t.status ≡ false
    → read_loop b ((capacity, os) ∷ later) ≡ read_loop t.rest later
unfolding read_loop
read_loop_again b capacity os later t e h = rw (e, h)

-- The loop ends with success, and the buffer has the bytes `s` behind those it had.
abbrev pub Receives : MessageBuffer → Bytes → List (ℕ × (ℕ → ReadResult)) → Type 0
Receives b s oss =
    (later : List (ℕ × (ℕ → ReadResult))) × (read_loop b oss
      ≡ some (record { status = success; buffer = push b s; later = later }))

Receives-again :
    (b b' : MessageBuffer) (capacity : ℕ) (os : ℕ → ReadResult)
    (later : List (ℕ × (ℕ → ReadResult))) (e : Errno) (s s' : Bytes)
    → read capacity os b ≡ record { status = errno e; rest = b' }
    → is_retry e ≡ true
    → push b' s' ≡ push b s
    → Receives b' s' later
    → Receives b s ((capacity, os) ∷ later)
Receives-again b b' capacity os later e s s' r h p (rest, q) =
    (rest, read_loop_again b capacity os later _ r (rw h) ∙ q ∙ rw p)

pub read-answer :
    (capacity : ℕ) (r : ReadResult) (b : MessageBuffer) → read capacity (λ n. r) b ≡ received b r
unfolding read
read-answer capacity r b = refl

read-received :
    (capacity : ℕ) (os : ℕ → ReadResult) (b : MessageBuffer)
    → read capacity os b ≡ received b (os (room capacity (length b.buffer)))
unfolding read
read-received capacity os b = refl

pub interrupt :
    (capacity : ℕ) (e : Errno) (b : MessageBuffer)
    → read capacity (λ n. read_failed e) b ≡ record { status = errno e; rest = b }
unfolding read
interrupt capacity e b = refl

Bytes-cases : (s : Bytes) → (s ≡ []) ⊎ (s ≢ [])
Bytes-cases [] = inl refl
Bytes-cases (c ∷ s) = inr (λ p. cc)

pub last_byte-append :
    (before : Option ℕ) (s t : Bytes) → last_byte before (s ++ t) ≡ last_byte (last_byte before s) t
last_byte-append before [] t = refl
last_byte-append before (c ∷ s) t = last_byte-append (some c) s t

-- A whole message is received with success, byte for byte, whatever the pieces that it comes in and
-- however often a call is interrupted: bytes that end in a newline with no `;` before it, and hold no
-- other such newline. The buffer may hold bytes before it.
pub read_loop-arrived :
    (b : MessageBuffer) (as' : List Arrival)
    → is_whole (last_byte none b.buffer) (arrived as') ≡ true
    → Receives b (arrived as') (map answer as')
read_loop-arrived b [] h = absurd (cc)
read_loop-arrived b (interrupted capacity e k ∷ later) h =
    Receives-again b b capacity (λ n. read_failed e) (map answer later) e (arrived later)
      (arrived later) (interrupt capacity e b) k refl (read_loop-arrived b later h)
read_loop-arrived b (arrives capacity c s ∷ later) h = elim (Bytes-cases (arrived later)) [
  | inl e ↦
      let last : is_whole (last_byte none b.buffer) (c ∷ s) ≡ true = rw (e, append-nil) at h in
      (
        map answer later,
        read_loop_done b capacity (λ n. got (c ∷ s)) (map answer later) _
              (read-answer capacity (got (c ∷ s)) b ∙ received-whole b c s last) refl
            ∙ rw (e, append-nil),
      )
  | inr ne ↦
      let part = is_partial_of_whole (last_byte none b.buffer) (c ∷ s) (arrived later) ne h in
      Receives-again b (push b (c ∷ s)) capacity (λ n. got (c ∷ s)) (map answer later) eagain
        ((c ∷ s) ++ arrived later) (arrived later)
        (read-answer capacity (got (c ∷ s)) b ∙ received-partial b c s part) refl (rw append_assoc)
        (read_loop-arrived (push b (c ∷ s)) later (
          rw (last_byte-append none b.buffer (c ∷ s))
            (sym (is_whole-append (last_byte none b.buffer) (c ∷ s) (arrived later) part) ∙ h)))
]

-- What every call of `Read` leaves in the buffer, whatever the system answers.
read-Holds :
    (b : MessageBuffer) (capacity : ℕ) (os : ℕ → ReadResult)
    → is_partial none b.buffer ≡ true
    → Holds (read capacity os b).status (read capacity os b).rest.buffer
read-Holds b capacity os h =
    rw (read-received capacity os b) (received-Holds b (os (room capacity (length b.buffer))) h)

retry-Holds :
    (status : Status) (s : Bytes)
    → is_done status ≡ false
    → Holds status s
    → is_partial none s ≡ true
retry-Holds success s h k = cc
retry-Holds unspecific s h k = cc
retry-Holds (errno eagain) s h k = k
retry-Holds (errno eintr) s h k = k
retry-Holds (errno einval) s h k = cc
retry-Holds (errno enoent) s h k = cc
retry-Holds (errno (other n)) s h k = cc

-- When the loop ends with success the buffer holds just one whole message, whatever the system
-- answered: it ends in a newline with no `;` before it, and no newline before that is such. The
-- bytes in the buffer at first, if there are any, end no message.
pub read_loop-is_whole :
    (oss : List (ℕ × (ℕ → ReadResult))) (b : MessageBuffer) (r : Sent (ℕ × (ℕ → ReadResult)))
    → is_partial none b.buffer ≡ true
    → read_loop b oss ≡ some r
    → r.status ≡ success
    → is_whole none r.buffer.buffer ≡ true
read_loop-is_whole [] b r h e k = cc (read_loop_nil b)
read_loop-is_whole ((capacity, os) ∷ oss) b r h e k =
    let t = read capacity os b in
    elim (Bool-cases (is_done t.status)) [
      | inl d ↦
          let same = sym (read_loop_done b capacity os oss t refl d) ∙ e in
          let status : t.status ≡ r.status = cc same in
          let bytes : t.rest.buffer ≡ r.buffer.buffer = cc same in
          subst₂ (λ st s. Holds st s) (status ∙ k) bytes (read-Holds b capacity os h)
      | inr d ↦
          read_loop-is_whole oss t.rest r
            (retry-Holds t.status t.rest.buffer d (read-Holds b capacity os h))
            (sym (read_loop_again b capacity os oss t refl d) ∙ e) k
    ]
