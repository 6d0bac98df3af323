-- ===== src/Buffer/Marks.antt =====
-- The mark of a continuation at the end of a line, ` ;`, which `Lex` and `LexedLine` look for behind
-- the line's last byte.
use libcody.Prelude.{
  ℕ, suc, ◌+◌, ◌-◌, Bool, true, false, ◌&&◌, [], ◌∷◌, ◌++◌, some, ◌≡◌, ◌≢◌, refl, ap, ◌∙◌, arith,
  Bytes, append_assoc, ◌==◌, length, take, take-append, length-append, if◌then◌else◌, get_elem?,
  get_elem?-append, ltb, inl, inr, Bool-cases,
}
use libcody.Buffer.Lex.{is_continued}

abbrev is_marked : Bytes → Bool
is_marked (c ∷ d ∷ []) = c == b' ' && d == b';'
is_marked _ = false

-- A line with no ` ;` at its end.
abbrev pub strip_mark : Bytes → Bytes
strip_mark [] = []
strip_mark (c ∷ s) = if is_marked (c ∷ s) then [] else c ∷ strip_mark s

-- The ends of a line that the code tells apart.
pub data Ending (s : Bytes) : Type 0 where
  blank : s ≡ [] → Ending s
  other : (t : Bytes) (c : ℕ) → s ≡ t ++ c ∷ [] → c ≢ b';' → Ending s
  lone : s ≡ b';' ∷ [] → Ending s
  unmarked : (t : Bytes) (d : ℕ) → s ≡ t ++ d ∷ b';' ∷ [] → d ≢ b' ' → Ending s
  marked : (t : Bytes) → s ≡ t ++ b' ' ∷ b';' ∷ [] → Ending s

Ending-one : (c : ℕ) → Ending (c ∷ [])
Ending-one c = elim (Bool-cases (c == b';')) [
  | inl e ↦ lone (ground arith)
  | inr e ↦ other [] c refl (ground arith)
]

Ending-two : (c : ℕ) → Ending (c ∷ b';' ∷ [])
Ending-two c = elim (Bool-cases (c == b' ')) [
  | inl e ↦ marked [] (ground arith)
  | inr e ↦ unmarked [] c refl (ground arith)
]

Ending-cons : (c : ℕ) (s : Bytes) → Ending s → Ending (c ∷ s)
Ending-cons c s (blank e) = rw e (Ending-one c)
Ending-cons c s (other t d e ne) = other (c ∷ t) d (ap (◌∷◌ c) e) ne
Ending-cons c s (lone e) = rw e (Ending-two c)
Ending-cons c s (unmarked t d e ne) = unmarked (c ∷ t) d (ap (◌∷◌ c) e) ne
Ending-cons c s (marked t e) = marked (c ∷ t) (ap (◌∷◌ c) e)

pub ending : (s : Bytes) → Ending s
ending [] = blank refl
ending (c ∷ s) = Ending-cons c s (ending s)

pub strip_mark-other : (t : Bytes) (c : ℕ) → c ≢ b';' → strip_mark (t ++ c ∷ []) ≡ t ++ c ∷ []
strip_mark-other [] c ne = refl
strip_mark-other (b ∷ []) c ne = ground arith
strip_mark-other (b ∷ a ∷ []) c ne = ground (arith, strip_mark-other (a ∷ []) c)
strip_mark-other (b ∷ a ∷ d ∷ t) c ne = ap (◌∷◌ b) (strip_mark-other (a ∷ d ∷ t) c ne)

pub strip_mark-unmarked :
    (t : Bytes) (d : ℕ) → d ≢ b' ' → strip_mark (t ++ d ∷ b';' ∷ []) ≡ t ++ d ∷ b';' ∷ []
strip_mark-unmarked [] d ne = ground arith
strip_mark-unmarked (b ∷ []) d ne = ap (◌∷◌ b) (strip_mark-unmarked [] d ne)
strip_mark-unmarked (b ∷ a ∷ []) d ne = ap (◌∷◌ b) (strip_mark-unmarked (a ∷ []) d ne)
strip_mark-unmarked (b ∷ a ∷ e ∷ t) d ne = ap (◌∷◌ b) (strip_mark-unmarked (a ∷ e ∷ t) d ne)

pub strip_mark-marked : (t : Bytes) → strip_mark (t ++ b' ' ∷ b';' ∷ []) ≡ t
strip_mark-marked [] = refl
strip_mark-marked (b ∷ []) = refl
strip_mark-marked (b ∷ a ∷ []) = ap (◌∷◌ b) (strip_mark-marked (a ∷ []))
strip_mark-marked (b ∷ a ∷ e ∷ t) = ap (◌∷◌ b) (strip_mark-marked (a ∷ e ∷ t))

pub is_continued-other :
    (f rest : Bytes) (c : ℕ) → c ≢ b';' → is_continued (f ++ c ∷ rest) (suc (length f)) ≡ some false
unfolding is_continued
is_continued-other f rest c ne =
    let one : suc (length f) - 1 ≡ length f = omega arith in
    let no_mark : (c == b';') ≡ false = ground arith in
    let pos : ltb (suc (length f)) 1 ≡ false = ground arith in
    rw (pos, one, get_elem?-append f c rest) (rw no_mark)

get_elem?_second :
    (f rest : Bytes) (d c : ℕ) → get_elem? (f ++ d ∷ c ∷ rest) (suc (length f)) ≡ some c
get_elem?_second [] rest d c = refl
get_elem?_second (b ∷ f) rest d c = get_elem?_second f rest d c

pub is_continued_mark :
    (f rest : Bytes) (d : ℕ)
    → is_continued (f ++ d ∷ b';' ∷ rest) (suc (suc (length f))) ≡ some (d == b' ')
unfolding is_continued
is_continued_mark f rest d =
    let one : suc (suc (length f)) - 1 ≡ suc (length f) = omega arith in
    let two : suc (suc (length f)) - 2 ≡ length f = omega arith in
    let pos : ltb (suc (suc (length f))) 1 ≡ false = ground arith in
    let more : ltb (suc (suc (length f))) 2 ≡ false = ground arith in
    rw (pos, one, get_elem?_second f rest d b';')
      (rw (more, two, get_elem?-append f d (b';' ∷ rest)))

-- What the look back finds behind the line `body`, and where the line then stops.
pub record Found (pre body rest : Bytes) : Type 0 where
  pub mark : Bool
  pub looked : is_continued (pre ++ (body ++ rest)) (length pre + length body) ≡ some mark
  pub stops :
      (if mark then length pre + length body - 2 else length pre + length body)
      ≡ length pre + length (strip_mark body)
  pub prefix : take (length (strip_mark body)) (body ++ rest) ≡ strip_mark body

module _ (pre rest : Bytes) where
  Found-other : (t : Bytes) (c : ℕ) → c ≢ b';' → Found pre (t ++ c ∷ []) rest
  Found-other t c ne = record {
    mark = false;
    looked =
        (let n : length pre + length (t ++ c ∷ []) ≡ suc (length (pre ++ t)) =
            omega (arith, length-append t (c ∷ []), length-append pre t) in
          let e : pre ++ ((t ++ c ∷ []) ++ rest) ≡ (pre ++ t) ++ c ∷ rest = simp append_assoc in
          rw (n, e) (is_continued-other (pre ++ t) rest c ne));
    stops = rw (strip_mark-other t c ne);
    prefix = rw (strip_mark-other t c ne) (take-append (t ++ c ∷ []) rest);
  }

  looked_mark :
      (t : Bytes) (d : ℕ)
      → is_continued
          (pre ++ ((t ++ d ∷ b';' ∷ []) ++ rest))
          (length pre + length (t ++ d ∷ b';' ∷ []))
        ≡ some (d == b' ')
  looked_mark t d =
      let n : length pre + length (t ++ d ∷ b';' ∷ []) ≡ suc (suc (length (pre ++ t))) =
        omega (arith, length-append t (d ∷ b';' ∷ []), length-append pre t) in
      let e : pre ++ ((t ++ d ∷ b';' ∷ []) ++ rest) ≡ (pre ++ t) ++ d ∷ b';' ∷ rest =
        simp append_assoc in
      rw (n, e) (is_continued_mark (pre ++ t) rest d)

  Found-unmarked : (t : Bytes) (d : ℕ) → d ≢ b' ' → Found pre (t ++ d ∷ b';' ∷ []) rest
  Found-unmarked t d ne = record {
    mark = false;
    looked = looked_mark t d ∙ ground arith;
    stops = rw (strip_mark-unmarked t d ne);
    prefix = rw (strip_mark-unmarked t d ne) (take-append (t ++ d ∷ b';' ∷ []) rest);
  }

  Found-marked : (t : Bytes) → Found pre (t ++ b' ' ∷ b';' ∷ []) rest
  Found-marked t = record {
    mark = true;
    looked = looked_mark t b' ';
    stops = rw (strip_mark-marked t) (omega (arith, length-append t (b' ' ∷ b';' ∷ [])));
    prefix = rw (strip_mark-marked t) (rw append_assoc (take-append t (b' ' ∷ b';' ∷ rest)));
  }

  -- All lines but the empty one and a lone `;`.
  pub find_mark : (body : Bytes) → body ≢ [] → body ≢ b';' ∷ [] → Found pre body rest
  find_mark body ne nl = of_ending (ending body)
    where
      of_ending : Ending body → Found pre body rest
      of_ending (blank e) = absurd (ne e)
      of_ending (other t c e h) = rw e (Found-other t c h)
      of_ending (lone e) = absurd (nl e)
      of_ending (unmarked t d e h) = rw e (Found-unmarked t d h)
      of_ending (marked t e) = rw e (Found-marked t)
