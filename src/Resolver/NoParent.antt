-- ===== src/Resolver/NoParent.antt =====
-- No header name stays below `..`: the loop of `GetCMIName` and the name as a whole.
use libcody.Prelude.{
  ℕ, zero, suc, ◌+◌, ◌-◌, ◌≤◌, ◌<◌, Bool, true, ◌&&◌, ◌||◌, [], ◌∷◌, ◌++◌, Option, none, some, ◌≡◌,
  refl, ap, ◌∙◌, sym, arith, Bytes, codes, length, drop, set, ltb, ◌==◌, if◌then◌else◌, Bool-cases,
  ◌⊎◌, inl, inr,
}
use libcody.Resolver.{
  char_at, is_dir_sep, is_abs_path, dot_replace, find_from, is_dot_dot, replace_dots, map_dots,
  map_header, get_cmi_suffix, get_cmi_name,
}
use libcody.Resolver.Names.{
  IsParent, NoParent, FoundAt, find_from-FoundAt, char_at_behind, rest_none, until, at_end,
  replaced-NoParent, length-replaced, map_dots-none, map_dots_end, map_dots_next, found_inside,
}

Option-cases : (o : Option ℕ) → (o ≡ none) ⊎ ((at : ℕ) × (o ≡ some at))
Option-cases none = inl refl
Option-cases (some at) = inr (at, refl)

inside_none : (ix : ℕ) (s : Bytes) → length s ≤ ix → NoParent ix s → (k : ℕ) → IsParent s k → ⊥
inside_none ix s le inv k (a, b, c, d) = elim (Bool-cases (ltb (k + 1) ix)) [
  | inl h ↦ inv k (ground arith) (a, b, c, d)
  | inr h ↦ let z = char_at_behind s (k + 1) (ground arith) in omega (arith, z, b)
]

map_dots_zero : (ix : ℕ) (s : Bytes) → map_dots 0 ix s ≡ s
unfolding map_dots
map_dots_zero ix s = refl

map_dots-NoParent :
    (fuel ix : ℕ) (s : Bytes)
    → length s ≤ ix + fuel
    → NoParent ix s
    → (k : ℕ) → IsParent (map_dots fuel ix s) k
    → ⊥
map_dots-NoParent zero ix s le inv k q =
    inside_none ix s (omega arith) inv k (rw (map_dots_zero ix s) at q)
map_dots-NoParent (suc fuel) ix s le inv k q =
    let f = find_from-FoundAt b'.' ix (drop ix s) (λ p. omega (arith, p)) in
    elim (Option-cases (find_from b'.' ix (drop ix s))) [
      | inl e ↦ rest_none ix s inv (rw e at f) k (rw (map_dots-none fuel ix s e) at q)
      | inr (at, e) ↦
          let g : FoundAt b'.' ix (drop ix s) (some at) = rw e at f in
          let before = until ix s inv at g in
          let (low, high) = found_inside ix s at g in
          elim (Bool-cases (ltb (length s) (at + 2))) [
            | inl h ↦ at_end at s before (ground arith) k (rw (map_dots_end fuel ix s at e h) at q)
            | inr h ↦
                map_dots-NoParent fuel (at + 1) (if is_dot_dot s at then replace_dots s at else s)
                  (omega (arith, length-replaced s at)) (replaced-NoParent s at high before) k
                  (rw (map_dots_next fuel ix s at e h) at q)
          ]
    ]

map_header-NoParent : (s : Bytes) (k : ℕ) → IsParent (map_header s) k → ⊥
unfolding map_header
map_header-NoParent s k q =
    map_dots-NoParent (length s) 1 s (omega arith) (λ k lt p. omega (arith, lt)) k q

-- The suffix has no separator.
char_at-append : (s t : Bytes) (j : ℕ) → j < length s → char_at (s ++ t) j ≡ char_at s j
char_at-append [] t j h = absurd (omega arith)
char_at-append (c ∷ s) t zero h = refl
char_at-append (c ∷ s) t (suc j) h = char_at-append s t j (omega arith)

char_at-append_right : (s t : Bytes) (i : ℕ) → char_at (s ++ t) (length s + i) ≡ char_at t i
char_at-append_right [] t i = let e : 0 + i ≡ i = omega arith in rw e
char_at-append_right (c ∷ s) t i =
    let e : suc (length s) + i ≡ suc (length s + i) = omega arith in
    rw e (char_at-append_right s t i)

abbrev suffix : Bytes
suffix = codes ".cmi"

no_separator : (i : ℕ) → char_at suffix i ≡ b'/' → ⊥
no_separator zero p = omega (arith, p)
no_separator (suc zero) p = omega (arith, p)
no_separator (suc (suc zero)) p = omega (arith, p)
no_separator (suc (suc (suc zero))) p = omega (arith, p)
no_separator (suc (suc (suc (suc i)))) p = omega (arith, p)

suffixed-IsParent : (s : Bytes) (k : ℕ) → IsParent (s ++ suffix) k → IsParent s k
suffixed-IsParent s k (a, b, c, d) = elim (Bool-cases (ltb (k + 3) (length s))) [
  | inl h ↦ (
    sym (char_at-append s suffix k (ground arith)) ∙ a,
    sym (char_at-append s suffix (k + 1) (ground arith)) ∙ b,
    sym (char_at-append s suffix (k + 2) (ground arith)) ∙ c,
    sym (char_at-append s suffix (k + 3) (ground arith)) ∙ d,
  )
  | inr h ↦
      let e : length s + (k + 3 - length s) ≡ k + 3 = ground arith in
      absurd (
        no_separator (k + 3 - length s) (
          sym (char_at-append_right s suffix (k + 3 - length s))
          ∙ ap (char_at (s ++ suffix)) e
          ∙ d))
]

-- A header name begins with a separator, or with a dot and a separator.
abbrev pub is_header : Bytes → Bool
is_header name = is_abs_path name || (char_at name 0 == b'.' && is_dir_sep (char_at name 1))

-- The file name that the default `GetCMIName` makes of a header name has no directory `..` between two
-- separators: a name that begins with a separator, or with a dot and a separator.
pub get_cmi_name-NoParent :
    (name : Bytes) (k : ℕ) → is_header name ≡ true → ¬ IsParent (get_cmi_name get_cmi_suffix name) k
unfolding get_cmi_name
get_cmi_name-NoParent name k h q = elim (Bool-cases (is_abs_path name)) [
  | inl e ↦
      map_header-NoParent (b'.' ∷ name) k
        (suffixed-IsParent (map_header (b'.' ∷ name)) k (rw e at q))
  | inr e ↦
      let rel : (char_at name 0 == b'.' && is_dir_sep (char_at name 1)) ≡ true = rw e at h in
      map_header-NoParent (set name 0 dot_replace) k
        (suffixed-IsParent (map_header (set name 0 dot_replace)) k (rw (e, rel) at q))
]
