-- ===== src/Resolver.antt =====
-- The default `Resolver` of resolver.cc, on a system where `IsDirSep` accepts `/` only.
pub mod Contract
pub mod Names
pub mod NoParent
use libcody.Prelude.{
  ℕ, zero, suc, ◌+◌, ◌-◌, Bool, true, false, not, ◌&&◌, ◌||◌, List, [], ◌∷◌, ◌++◌, Option, none,
  some, Bytes, codes, length, drop, get_elem?, set, ltb, ◌==◌, if◌then◌else◌,
}
use libcody.Status.{Status, success}
use libcody.Server.{
  Server, Resolvers, version, error_response, ok_response, connect_response, pathname_response,
  bool_response,
}

abbrev pub is_dir_sep : ℕ → Bool
is_dir_sep c = c == b'/'

-- `s[k]` of a `std::string`: the NUL behind the last byte.
abbrev pub char_at : Bytes → ℕ → ℕ
char_at [] k = 0
char_at (c ∷ s) zero = c
char_at (c ∷ s) (suc k) = char_at s k

abbrev pub is_abs_path : Bytes → Bool
is_abs_path str = is_dir_sep (char_at str 0)

abbrev pub dot_replace : ℕ
dot_replace = b','

abbrev pub colon_replace : ℕ
colon_replace = b'-'

abbrev pub repo_dir : Bytes
repo_dir = codes "cmi.cache"

abbrev pub get_cmi_suffix : Option Bytes
get_cmi_suffix = some (codes "cmi")

-- `result.find (c, ix)` from the text at `ix`; `none` is `npos`.
abbrev pub find_from : ℕ → ℕ → Bytes → Option ℕ
find_from c ix [] = none
find_from c ix (d ∷ s) = let rest = find_from c (ix + 1) s in if d == c then some ix else rest

-- `result[ix - 1]`, `result[ix + 1]` and `result[ix + 2]` ask for a `..` between separators.
abbrev pub is_dot_dot : Bytes → ℕ → Bool
is_dot_dot result ix =
    char_at result (ix + 1) == b'.'
    && is_dir_sep (char_at result (ix - 1))
    && is_dir_sep (char_at result (ix + 2))

abbrev pub replace_dots : Bytes → ℕ → Bytes
replace_dots result ix = set (set result ix dot_replace) (ix + 1) dot_replace

-- The loop that maps `..` to `,,`; a round for each byte is enough.
unfoldable pub map_dots : ℕ → ℕ → Bytes → Bytes
map_dots zero ix result = result
map_dots (suc fuel) ix result = elim (find_from b'.' ix (drop ix result)) [
  | none ↦ result
  | some at ↦ elim (ltb (length result) (at + 2)) [
    | true ↦ result
    | false ↦
        map_dots fuel (at + 1) (if is_dot_dot result at then replace_dots result at else result)
  ]
]

-- The first colon of a module name.
abbrev pub map_colon : Bytes → Bytes
map_colon result = elim (find_from b':' 0 result) [
  | none ↦ result
  | some at ↦ set result at colon_replace
]

abbrev add_suffix : Option Bytes → Bytes → Bytes
add_suffix none result = result
add_suffix (some suffix) result = result ++ b'.' ∷ suffix

abbrev pub map_header : Bytes → Bytes
unfolding map_dots
map_header result = map_dots (length result) 1 result

-- `GetCMIName`, with what `GetCMISuffix` returns. The module name is not empty.
unfoldable pub get_cmi_name : Option Bytes → Bytes → Bytes
unfolding map_header
get_cmi_name suffix module_name =
    let is_abs = is_abs_path module_name in
    let is_rel = char_at module_name 0 == b'.' && is_dir_sep (char_at module_name 1) in
    add_suffix suffix (
      if is_abs
      then map_header (b'.' ∷ module_name)
      else if is_rel
      then map_header (set module_name 0 dot_replace)
      else map_colon module_name)

module _ {R : Type 0} where
  unfoldable pub connect_request : R → Server R → ℕ → Bytes → Bytes → Server R × Option R
  unfolding error_response connect_response
  connect_request r s v agent ident =
      let s' =
        if ltb version v
        then error_response s (codes "version mismatch") none
        else connect_response s (codes "default") none in
      (s', some r)

  unfoldable pub module_repo_request : R → Server R → Server R × Status
  unfolding pathname_response
  module_repo_request r s = (pathname_response s repo_dir none, success)

  -- The export and the import of a module.
  unfoldable pub module_name_request : R → Server R → ℕ → Bytes → Server R × Status
  unfolding pathname_response get_cmi_name
  module_name_request r s flags name =
      let cmi = get_cmi_name get_cmi_suffix name in
      (pathname_response s cmi (some (length cmi)), success)

  unfoldable pub module_compiled_request : R → Server R → ℕ → Bytes → Server R × Status
  unfolding ok_response
  module_compiled_request r s flags name = (ok_response s, success)

  -- `is_regular` is the answer of `open` and `fstatat`: the repository has such a regular file.
  unfoldable pub include_translate_request :
      (Bytes → Bool) → R → Server R → ℕ → Bytes → Server R × Status
  unfolding pathname_response bool_response get_cmi_name
  include_translate_request is_regular r s flags include =
      let cmi = get_cmi_name get_cmi_suffix include in
      (
        if is_regular cmi
            then pathname_response s cmi (some (length cmi))
            else bool_response s false,
        success,
      )

  unfoldable pub invoke_sub_process_request : R → Server R → List Bytes → Server R × Status
  unfolding error_response
  invoke_sub_process_request r s args = (error_response s (codes "unimplemented") none, success)

  unfoldable pub resolver_error_response : R → Server R → Bytes → Server R
  unfolding error_response
  resolver_error_response r s msg = error_response s msg (some (length msg))

  unfoldable pub default_resolver : (Bytes → Bool) → Resolvers R
  unfolding connect_request module_repo_request module_name_request module_compiled_request
      include_translate_request invoke_sub_process_request resolver_error_response
  default_resolver is_regular = record {
    wait_until_ready = λ r s. s;
    error_response = resolver_error_response;
    connect_request = connect_request;
    module_repo_request = module_repo_request;
    module_export_request = module_name_request;
    module_import_request = module_name_request;
    module_compiled_request = module_compiled_request;
    include_translate_request = include_translate_request is_regular;
    invoke_sub_process_request = invoke_sub_process_request;
  }
