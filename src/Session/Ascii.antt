-- ===== src/Session/Ascii.antt =====
-- The file names that `GetCMIName` makes of names in ASCII are in ASCII.
use libcody.Prelude.{
  ℕ, zero, suc, ◌+◌, Bool, true, false, ◌&&◌, [], ◌∷◌, ◌++◌, none, some, arith, Bytes, codes,
  length, drop, set, ltb, ◌==◌, if◌then◌else◌, All,
}
use libcody.Buffer.Words.{IsAscii}
use libcody.Resolver.{
  char_at, is_dir_sep, is_abs_path, dot_replace, colon_replace, find_from, is_dot_dot, replace_dots,
  map_dots, map_colon, map_header, get_cmi_name, get_cmi_suffix,
}

abbrev pub IsText : Bytes → Type 0
IsText = All IsAscii

set-IsText : (s : Bytes) (k c : ℕ) → IsText s → IsAscii c → IsText (set s k c)
set-IsText [] k c h a = tt
set-IsText (d ∷ s) zero c (h, hs) a = (a, hs)
set-IsText (d ∷ s) (suc k) c (h, hs) a = (h, set-IsText s k c hs a)

pub append-IsText : (s t : Bytes) → IsText s → IsText t → IsText (s ++ t)
append-IsText [] t h k = k
append-IsText (c ∷ s) t (h, hs) k = (h, append-IsText s t hs k)

pub if-IsText : (b : Bool) (s t : Bytes) → IsText s → IsText t → IsText (if b then s else t)
if-IsText true s t h k = h
if-IsText false s t h k = k

replaced-IsText :
    (s : Bytes) (at : ℕ) → IsText s → IsText (if is_dot_dot s at then replace_dots s at else s)
replaced-IsText s at h =
    if-IsText (is_dot_dot s at) (replace_dots s at) s
      (set-IsText (set s at dot_replace) (at + 1) dot_replace
        (set-IsText s at dot_replace h (omega arith)) (omega arith))
      h

map_dots-IsText : (fuel ix : ℕ) (s : Bytes) → IsText s → IsText (map_dots fuel ix s)
unfolding map_dots
map_dots-IsText zero ix s h = h
map_dots-IsText (suc fuel) ix s h =
    elim (find_from b'.' ix (drop ix s))
      as (λ o. IsText (elim o [
        | none ↦ s
        | some at ↦ elim (ltb (length s) (at + 2)) [
          | true ↦ s
          | false ↦ map_dots fuel (at + 1) (if is_dot_dot s at then replace_dots s at else s)
        ]
      ])) [
        | none ↦ h
        | some at ↦
            elim (ltb (length s) (at + 2))
              as (λ b. IsText (elim b [
                | true ↦ s
                | false ↦ map_dots fuel (at + 1) (if is_dot_dot s at then replace_dots s at else s)
              ])) [ true ↦ h | false ↦ map_dots-IsText fuel (at + 1) _ (replaced-IsText s at h) ]
      ]

map_header-IsText : (s : Bytes) → IsText s → IsText (map_header s)
unfolding map_dots
map_header-IsText s h = map_dots-IsText (length s) 1 s h

map_colon-IsText : (s : Bytes) → IsText s → IsText (map_colon s)
map_colon-IsText s h =
    elim (find_from b':' 0 s)
      as (λ o. IsText (elim o [ none ↦ s | some at ↦ set s at colon_replace ])) [
        | none ↦ h
        | some at ↦ set-IsText s at colon_replace h (omega arith)
      ]

pub get_cmi_name-IsAscii :
    (name : Bytes) → All IsAscii name → All IsAscii (get_cmi_name get_cmi_suffix name)
unfolding get_cmi_name
get_cmi_name-IsAscii name h =
    append-IsText _ (b'.' ∷ codes "cmi")
      (if-IsText (is_abs_path name) _ _ (map_header-IsText (b'.' ∷ name) (omega arith, h)) (
        if-IsText (char_at name 0 == b'.' && is_dir_sep (char_at name 1)) _ _
          (map_header-IsText (set name 0 dot_replace)
            (set-IsText name 0 dot_replace h (omega arith)))
          (map_colon-IsText name h)))
      (omega arith, (omega arith, (omega arith, (omega arith, tt))))
