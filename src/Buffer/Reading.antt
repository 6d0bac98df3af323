-- ===== src/Buffer/Reading.antt =====
-- What `Read` takes for a whole message, and that it does not matter how the bytes arrive.
use libcody.Prelude.{
  ℕ, Bool, true, false, not, ◌&&◌, [], ◌∷◌, ◌++◌, Option, none, some, ◌≡◌, ◌≢◌, refl, ◌∙◌, arith,
  Bytes, ◌==◌, if◌then◌else◌, Bool-cases, inl, inr,
}
use libcody.Status.{Status, success, errno, eagain, eintr, einval, enoent, other}
use libcody.Buffer.{MessageBuffer, push}
use libcody.Buffer.Transfer.{
  ReadResult, read_failed, got, Checked, complete, cut, is_mark, stop, check_lines, last_byte,
  checked, received,
}

-- A newline with no `;` before it ends a message.
abbrev pub ends_message : Option ℕ → ℕ → Bool
ends_message before c = c == b'\n' && not (is_mark before)

-- No byte ends a message.
abbrev pub is_partial : Option ℕ → Bytes → Bool
is_partial before [] = true
is_partial before (c ∷ s) = not (ends_message before c) && is_partial (some c) s

abbrev is_nil : Bytes → Bool
is_nil [] = true
is_nil (c ∷ s) = false

-- The last byte ends a message, and no byte before it.
abbrev pub is_whole : Option ℕ → Bytes → Bool
is_whole before [] = false
is_whole before (c ∷ s) = if ends_message before c then is_nil s else is_whole (some c) s

pub is_whole-append :
    (before : Option ℕ) (s t : Bytes)
    → is_partial before s ≡ true
    → is_whole before (s ++ t) ≡ is_whole (last_byte before s) t
is_whole-append before [] t h = refl
is_whole-append before (c ∷ s) t h = ground (arith, is_whole-append (some c) s t)

pub is_partial-append :
    (before : Option ℕ) (s t : Bytes)
    → is_partial before s ≡ true
    → is_partial (last_byte before s) t ≡ true
    → is_partial before (s ++ t) ≡ true
is_partial-append before [] t h k = k
is_partial-append before (c ∷ s) t h k = ground (arith, is_partial-append (some c) s t)

pub is_partial_parts :
    (before : Option ℕ) (s t : Bytes)
    → is_partial before (s ++ t) ≡ true
    → (is_partial before s ≡ true) × (is_partial (last_byte before s) t ≡ true)
is_partial_parts before [] t h = (refl, h)
is_partial_parts before (c ∷ s) t h = ground (arith, is_partial_parts (some c) s t)

pub is_partial_of_whole :
    (before : Option ℕ) (s t : Bytes)
    → t ≢ []
    → is_whole before (s ++ t) ≡ true
    → is_partial before s ≡ true
is_partial_of_whole before [] t ne h = refl
is_partial_of_whole before (c ∷ s) [] ne h = absurd (ne refl)
is_partial_of_whole before (c ∷ []) (d ∷ t) ne h = ground (arith)
is_partial_of_whole before (c ∷ b ∷ s) (d ∷ t) ne h =
    ground (arith, is_partial_of_whole (some c) (b ∷ s) (d ∷ t))

check_lines-partial :
    (before : Option ℕ) (s : Bytes)
    → is_partial before s ≡ true
    → check_lines before true s ≡ complete true
unfolding check_lines
check_lines-partial before [] h = refl
check_lines-partial before (c ∷ s) h = ground (arith, check_lines-partial (some c) s)

check_lines-whole :
    (before : Option ℕ) (more : Bool) (s : Bytes)
    → is_whole before s ≡ true
    → check_lines before more s ≡ complete false
unfolding check_lines
check_lines-whole before more [] h = cc
check_lines-whole before more (c ∷ []) h = ground arith
check_lines-whole before more (c ∷ d ∷ s) h =
    ground (arith, check_lines-whole (some c) (if c == b'\n' then is_mark before else more) (d ∷ s))

-- The other way round.
abbrev Verdict : Checked → Option ℕ → Bytes → Type 0
Verdict (complete true) before s = is_partial before s ≡ true
Verdict (complete false) before s = is_whole before s ≡ true
Verdict (cut rest) before s = Unit

check_lines_end :
    (before : Option ℕ) (c : ℕ) (s : Bytes)
    → ends_message before c ≡ true
    → check_lines before true (c ∷ s) ≡ stop s
unfolding check_lines
check_lines_end before c s h = ground arith

check_lines_more :
    (before : Option ℕ) (c : ℕ) (s : Bytes)
    → ends_message before c ≡ false
    → check_lines before true (c ∷ s) ≡ check_lines (some c) true s
unfolding check_lines
check_lines_more before c s h = ground arith

Verdict-end :
    (before : Option ℕ) (c : ℕ) (s : Bytes)
    → ends_message before c ≡ true
    → Verdict (stop s) before (c ∷ s)
Verdict-end before c [] h = rw h
Verdict-end before c (d ∷ s) h = tt

Verdict-more :
    (v : Checked) (before : Option ℕ) (c : ℕ) (s : Bytes)
    → ends_message before c ≡ false
    → Verdict v (some c) s
    → Verdict v before (c ∷ s)
Verdict-more (complete true) before c s h k = rw h k
Verdict-more (complete false) before c s h k = rw h k
Verdict-more (cut rest) before c s h k = tt

check_lines-Verdict : (before : Option ℕ) (s : Bytes) → Verdict (check_lines before true s) before s
check_lines-Verdict before [] = unfold check_lines in refl
check_lines-Verdict before (c ∷ s) = elim (Bool-cases (ends_message before c)) [
  | inl e ↦ rw (check_lines_end before c s e) (Verdict-end before c s e)
  | inr e ↦
      rw (check_lines_more before c s e)
        (Verdict-more _ before c s e (check_lines-Verdict (some c) s))
]

-- A chunk in the middle of a message, and the last one.
module _ (b : MessageBuffer) (c : ℕ) (s : Bytes) where
  abbrev before : Option ℕ
  before = last_byte none b.buffer

  received_lem :
      received b (got (c ∷ s)) ≡ checked (push b (c ∷ s)) (check_lines before true (c ∷ s))
  unfolding received
  received_lem = refl

  pub received-partial :
      is_partial before (c ∷ s) ≡ true
      → received b (got (c ∷ s)) ≡ record { status = errno eagain; rest = push b (c ∷ s) }
  received-partial h = received_lem ∙ rw (check_lines-partial before (c ∷ s) h)

  pub received-whole :
      is_whole before (c ∷ s) ≡ true
      → received b (got (c ∷ s)) ≡ record { status = success; rest = push b (c ∷ s) }
  received-whole h = received_lem ∙ rw (check_lines-whole before true (c ∷ s) h)

-- What a buffer holds after a call that gives a status.
abbrev pub Holds : Status → Bytes → Type 0
Holds success s = is_whole none s ≡ true
Holds (errno eagain) s = is_partial none s ≡ true
Holds (errno eintr) s = is_partial none s ≡ true
Holds status s = Unit

checked-Holds :
    (v : Checked) (b : MessageBuffer) (t : Bytes)
    → is_partial none b.buffer ≡ true
    → Verdict v (last_byte none b.buffer) t
    → Holds (checked (push b t) v).status (checked (push b t) v).rest.buffer
checked-Holds (complete true) b t h k = is_partial-append none b.buffer t h k
checked-Holds (complete false) b t h k = is_whole-append none b.buffer t h ∙ k
checked-Holds (cut rest) b t h k = tt

pub received-Holds :
    (b : MessageBuffer) (r : ReadResult)
    → is_partial none b.buffer ≡ true
    → Holds (received b r).status (received b r).rest.buffer
unfolding received
received-Holds b (read_failed eagain) h = h
received-Holds b (read_failed eintr) h = h
received-Holds b (read_failed einval) h = tt
received-Holds b (read_failed enoent) h = tt
received-Holds b (read_failed (other n)) h = tt
received-Holds b (got []) h = tt
received-Holds b (got (c ∷ s)) h =
    checked-Holds (check_lines (last_byte none b.buffer) true (c ∷ s)) b (c ∷ s) h
      (check_lines-Verdict (last_byte none b.buffer) (c ∷ s))
