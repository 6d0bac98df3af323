-- ===== src/Resolver/Names.antt =====
-- The names that `GetCMIName` makes of header names: no directory of them is `..`.
use libcody.Prelude.{
  ℕ, zero, suc, ◌+◌, ◌-◌, ◌≤◌, ◌<◌, true, false, [], ◌∷◌, Option, none, some, ◌≡◌, ◌≢◌, refl, ap,
  ◌∙◌, sym, arith, Bytes, length, length-drop, drop, set, ltb, ◌==◌, if◌then◌else◌, Bool-cases, inl,
  inr,
}
use libcody.Resolver.{char_at, find_from, is_dot_dot, replace_dots, map_dots}

-- A directory `..` behind the separator at `k`.
abbrev pub IsParent : Bytes → ℕ → Type 0
IsParent s k =
    (char_at s k ≡ b'/')
    × (char_at s (k + 1) ≡ b'.')
    × (char_at s (k + 2) ≡ b'.')
    × (char_at s (k + 3) ≡ b'/')

-- There is none whose first dot is before `ix`.
abbrev pub NoParent : ℕ → Bytes → Type 0
NoParent ix s = (k : ℕ) → k + 1 < ix → IsParent s k → ⊥

pub char_at_behind : (s : Bytes) (j : ℕ) → length s ≤ j → char_at s j ≡ 0
char_at_behind [] j h = refl
char_at_behind (c ∷ s) zero h = absurd (omega arith)
char_at_behind (c ∷ s) (suc j) h = char_at_behind s j (omega arith)

char_at-drop : (n : ℕ) (s : Bytes) (j : ℕ) → char_at (drop n s) j ≡ char_at s (n + j)
char_at-drop zero s j = let e : 0 + j ≡ j = omega arith in rw e
char_at-drop (suc n) [] j = refl
char_at-drop (suc n) (c ∷ s) j =
    let e : suc n + j ≡ suc (n + j) = omega arith in rw e (char_at-drop n s j)

set_keeps : (s : Bytes) (i j c v : ℕ) → char_at (set s i c) j ≡ v → v ≢ c → char_at s j ≡ v
set_keeps [] i j c v h ne = h
set_keeps (d ∷ s) zero zero c v h ne = absurd (ne (sym h))
set_keeps (d ∷ s) zero (suc j) c v h ne = h
set_keeps (d ∷ s) (suc i) zero c v h ne = h
set_keeps (d ∷ s) (suc i) (suc j) c v h ne = set_keeps s i j c v h ne

set_here : (s : Bytes) (i c : ℕ) → i < length s → char_at (set s i c) i ≡ c
set_here [] i c h = absurd (omega arith)
set_here (d ∷ s) zero c h = refl
set_here (d ∷ s) (suc i) c h = set_here s i c (omega arith)

length-set : (s : Bytes) (i c : ℕ) → length (set s i c) ≡ length s
length-set [] i c = refl
length-set (d ∷ s) zero c = refl
length-set (d ∷ s) (suc i) c = ap suc (length-set s i c)

-- What `find` gives: nothing, or the first place.
abbrev pub FoundAt : ℕ → ℕ → Bytes → Option ℕ → Type 0
FoundAt c ix t none = (j : ℕ) → char_at t j ≡ c → ⊥
FoundAt c ix t (some at) =
    (d : ℕ) × (at ≡ ix + d) × (d < length t) × ((j : ℕ) → j < d → char_at t j ≡ c → ⊥)

FoundAt-cons :
    (c ix e : ℕ) (t : Bytes) (o : Option ℕ)
    → e ≢ c
    → FoundAt c (ix + 1) t o
    → FoundAt c ix (e ∷ t) o
FoundAt-cons c ix e t none ne h = go
  where
    go : (j : ℕ) → char_at (e ∷ t) j ≡ c → ⊥
    go zero p = ne p
    go (suc j) p = h j p
FoundAt-cons c ix e t (some at) ne (d, p, q, r) = (suc d, omega (arith, p), omega (arith, q), go)
  where
    go : (j : ℕ) → j < suc d → char_at (e ∷ t) j ≡ c → ⊥
    go zero lt p' = ne p'
    go (suc j) lt p' = r j (omega (arith, lt)) p'

pub find_from-FoundAt : (c ix : ℕ) (t : Bytes) → c ≢ 0 → FoundAt c ix t (find_from c ix t)
find_from-FoundAt c ix [] ne = λ j p. ne (sym p)
find_from-FoundAt c ix (e ∷ t) ne = elim (Bool-cases (e == c)) [
  | inl h ↦ rw h (0, omega arith, omega arith, λ j lt p. omega (arith, lt))
  | inr h ↦ rw h (FoundAt-cons c ix e t _ (ground arith) (find_from-FoundAt c (ix + 1) t ne))
]

module _ (ix : ℕ) (s : Bytes) (inv : NoParent ix s) where
  -- No dot is left.
  pub rest_none : FoundAt b'.' ix (drop ix s) none → (k : ℕ) → IsParent s k → ⊥
  rest_none f k (a, b, c, d) = elim (Bool-cases (ltb (k + 1) ix)) [
    | inl h ↦ inv k (ground arith) (a, b, c, d)
    | inr h ↦
        let e : ix + (k + 1 - ix) ≡ k + 1 = ground arith in
        f (k + 1 - ix) (char_at-drop ix s (k + 1 - ix) ∙ ap (char_at s) e ∙ b)
  ]

  -- Up to the dot that is found.
  pub until : (at : ℕ) → FoundAt b'.' ix (drop ix s) (some at) → NoParent at s
  until at (x, p, q, r) k lt (a, b, c, d) = elim (Bool-cases (ltb (k + 1) ix)) [
    | inl h ↦ inv k (ground arith) (a, b, c, d)
    | inr h ↦
        let e : ix + (k + 1 - ix) ≡ k + 1 = ground arith in
        r (k + 1 - ix) (ground (arith, p)) (char_at-drop ix s (k + 1 - ix) ∙ ap (char_at s) e ∙ b)
  ]

-- Close to the end there is no room for a directory.
pub at_end : (at : ℕ) (s : Bytes) → NoParent at s → length s ≤ at + 2 → (k : ℕ) → IsParent s k → ⊥
at_end at s h le k (a, b, c, d) = elim (Bool-cases (ltb (k + 1) at)) [
  | inl lt ↦ h k (ground arith) (a, b, c, d)
  | inr lt ↦ let z = char_at_behind s (k + 3) (ground arith) in cc
]

char_at-replace_dots :
    (s : Bytes) (at j v : ℕ) → char_at (replace_dots s at) j ≡ v → v ≢ b',' → char_at s j ≡ v
char_at-replace_dots s at j v p ne =
    set_keeps s at j b',' v (set_keeps (set s at b',') (at + 1) j b',' v p ne) ne

replace_dots-IsParent : (s : Bytes) (at k : ℕ) → IsParent (replace_dots s at) k → IsParent s k
replace_dots-IsParent s at k (a, b, c, d) = (
  char_at-replace_dots s at k b'/' a (λ p. omega (arith, p)),
  char_at-replace_dots s at (k + 1) b'.' b (λ p. omega (arith, p)),
  char_at-replace_dots s at (k + 2) b'.' c (λ p. omega (arith, p)),
  char_at-replace_dots s at (k + 3) b'/' d (λ p. omega (arith, p)),
)

-- The dots that were replaced are none.
replaced_here :
    (s : Bytes) (at k : ℕ) → at < length s → k + 1 ≡ at → IsParent (replace_dots s at) k → ⊥
replaced_here s at k lt e (a, b, c, d) =
    let dot : char_at (set s at b',') at ≡ b'.' =
      set_keeps (set s at b',') (at + 1) at b',' b'.' (ap (char_at (replace_dots s at)) (sym e) ∙ b)
        (λ p. omega (arith, p)) in
    omega (arith, dot, set_here s at b',' lt)

IsParent-is_dot_dot : (s : Bytes) (k : ℕ) → IsParent s k → is_dot_dot s (k + 1) ≡ true
IsParent-is_dot_dot s k (a, b, c, d) =
    let two : k + 1 + 1 ≡ k + 2 = omega arith in
    let three : k + 1 + 2 ≡ k + 3 = omega arith in
    let back : k + 1 - 1 ≡ k = omega arith in rw (two, three, back, a, c, d)

pub replaced-NoParent :
    (s : Bytes) (at : ℕ)
    → at < length s
    → NoParent at s
    → NoParent (at + 1) (if is_dot_dot s at then replace_dots s at else s)
replaced-NoParent s at lt h = elim (Bool-cases (is_dot_dot s at)) [
  | inl e ↦ rw e (λ k b q. elim (Bool-cases (k + 1 == at)) [
    | inl here ↦ replaced_here s at k lt (ground arith) q
    | inr before ↦ h k (ground arith) (replace_dots-IsParent s at k q)
  ])
  | inr e ↦ rw e (λ k b q. elim (Bool-cases (k + 1 == at)) [
    | inl here ↦
        let same : k + 1 ≡ at = ground arith in
        let found : is_dot_dot s at ≡ true = rw same at (IsParent-is_dot_dot s k q) in cc
    | inr before ↦ h k (ground arith) q
  ])
]

pub length-replaced :
    (s : Bytes) (at : ℕ) → length (if is_dot_dot s at then replace_dots s at else s) ≡ length s
length-replaced s at = elim (Bool-cases (is_dot_dot s at)) [
  | inl e ↦ rw e (length-set (set s at b',') (at + 1) b',' ∙ length-set s at b',')
  | inr e ↦ rw e
]

pub found_inside :
    (ix : ℕ) (s : Bytes) (at : ℕ)
    → FoundAt b'.' ix (drop ix s) (some at)
    → (ix ≤ at) × (at < length s)
found_inside ix s at (x, p, q, r) = (omega (arith, p), omega (arith, p, q, length-drop ix s))

module _ (fuel ix : ℕ) (s : Bytes) where
  pub map_dots-none : find_from b'.' ix (drop ix s) ≡ none → map_dots (suc fuel) ix s ≡ s
  unfolding map_dots
  map_dots-none e = rw (map_dots, e)

  pub map_dots_end :
      (at : ℕ)
      → find_from b'.' ix (drop ix s) ≡ some at
      → ltb (length s) (at + 2) ≡ true
      → map_dots (suc fuel) ix s ≡ s
  unfolding map_dots
  map_dots_end at e h = rw (map_dots, e, h)

  pub map_dots_next :
      (at : ℕ)
      → find_from b'.' ix (drop ix s) ≡ some at
      → ltb (length s) (at + 2) ≡ false
      → map_dots (suc fuel) ix s
        ≡ map_dots fuel (at + 1) (if is_dot_dot s at then replace_dots s at else s)
  unfolding map_dots
  map_dots_next at e h = rw (map_dots, e, h)
