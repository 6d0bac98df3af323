-- ===== src/Fatal/Source.antt =====
-- The file that `HCF` shows.
use libcody.Prelude.{
  suc, ◌+◌, Bool, true, false, ◌&&◌, [], ◌∷◌, ◌++◌, ◌≡◌, ◌≢◌, refl, ap, arith, Bytes, length, drop,
  ◌==◌, Bool-cases, inl, inr,
}
use libcody.Fatal.{is_within, shown_file}

is_within-inside : (src rest : Bytes) → is_within src (src ++ b'/' ∷ rest) ≡ true
unfolding is_within
is_within-inside [] rest = refl
is_within-inside (c ∷ src) rest =
    let e : (c == c) ≡ true = ground arith in rw (e, is_within-inside src rest) refl

drop-inside : (src rest : Bytes) → drop (length src + 1) (src ++ b'/' ∷ rest) ≡ rest
drop-inside [] rest = refl
drop-inside (c ∷ src) rest =
    let e : suc (length src) + 1 ≡ suc (length src + 1) = omega arith in rw e (drop-inside src rest)

and_parts : (a b : Bool) → (a && b) ≡ true → (a ≡ true) × (b ≡ true)
and_parts true b h = (refl, h)
and_parts false b h = cc

inside :
    (src file : Bytes) → is_within src file ≡ true → (rest : Bytes) × (file ≡ src ++ b'/' ∷ rest)
unfolding is_within
inside [] [] h = cc
inside [] (d ∷ file) h = let e : d ≡ b'/' = ground arith in (file, ap (λ d. d ∷ file) e)
inside (c ∷ src) [] h = cc
inside (c ∷ src) (d ∷ file) h =
    let (e, f) = and_parts (c == d) (is_within src file) h in
    let (rest, g) = inside src file f in
    let same : d ≡ c = ground arith in (rest, λ i. same i ∷ g i)

-- The file that `HCF` shows, with a directory of the sources that is not empty: a file below that
-- directory without it and without the slash behind it, and any other file as it is.
shown_file_cases :
    (src file : Bytes)
    → src ≢ []
    → ((rest : Bytes) → file ≡ src ++ b'/' ∷ rest → shown_file src file ≡ rest)
      × (((rest : Bytes) → file ≢ src ++ b'/' ∷ rest) → shown_file src file ≡ file)
unfolding shown_file
shown_file_cases [] file ne = absurd (ne refl)
shown_file_cases (c ∷ src) file ne = (
  λ rest e. rw (e, is_within-inside (c ∷ src) rest) (drop-inside (c ∷ src) rest),
  λ other. elim (Bool-cases (is_within (c ∷ src) file)) [
    | inl e ↦ let (rest, f) = inside (c ∷ src) file e in absurd (other rest f)
    | inr e ↦ rw e refl
  ],
)
