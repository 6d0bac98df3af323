-- ===== src/Fatal.antt =====
-- The end of the program on an error of its own, and the note on the build, of fatal.cc and
-- internal.hh. What the build defines is a record; texts are C strings, with no NUL in them.
pub mod Source
use libcody.Prelude.{
  ℕ, ◌+◌, Bool, true, false, ◌&&◌, List, [], ◌∷◌, ◌++◌, Option, none, some, Bytes, codes, length,
  drop, ◌==◌, if◌then◌else◌,
}
use libcody.Number.{to_string}

-- `SRCDIR`, `PACKAGE_NAME`, `PACKAGE_VERSION`, `BUGURL`, `PACKAGE_URL`, `REVISION`, `NMS_CHECKING`
-- and `__OPTIMIZE__`.
pub record Build : Type 0 where
  pub src_dir : Bytes
  pub package_name : Bytes
  pub package_version : Bytes
  pub bug_url : Bytes
  pub package_url : Bytes
  pub revision : Bytes
  pub is_checked : Bool
  pub is_optimized : Bool

-- A null pointer for the file is `none`.
pub record Location : Type 0 where
  pub file : Option Bytes
  pub line : ℕ

-- What the process does.
pub data Event : Type 0 where
  prints : Bytes → Event
  aborts : Event
  exits : ℕ → Event

-- `strncmp (src, file, strlen (src))` is 0 and `file[strlen (src)]` is a slash.
unfoldable pub is_within : Bytes → Bytes → Bool
is_within [] [] = false
is_within [] (d ∷ file) = d == b'/'
is_within (c ∷ src) [] = false
is_within (c ∷ src) (d ∷ file) = c == d && is_within src file

-- The file in a message: without the directory of the sources.
unfoldable pub shown_file : Bytes → Bytes → Bytes
unfolding is_within
shown_file [] file = file
shown_file (c ∷ src) file =
    if is_within (c ∷ src) file then drop (length (c ∷ src) + 1) file else file

abbrev at_location : Build → Location → Bytes
unfolding shown_file
at_location build loc = elim loc.file [
  | none ↦ []
  | some file ↦ codes " at " ++ (shown_file build.src_dir file ++ b':' ∷ to_string loc.line)
]

abbrev message : Option Bytes → Bytes
message none = codes "internal error"
message (some msg) = msg

-- A build that does not check has no location.
abbrev location_of : Build → Location → Location
location_of build loc = if build.is_checked then loc else record { file = none; line = 0 }

-- `HCF`; the last event is there if `raise` returns.
unfoldable pub hcf : Build → Option Bytes → Location → List Event
unfolding at_location
hcf build msg loc =
    prints (
      codes "CODYlib: "
      ++ (message msg ++ (at_location build (location_of build loc) ++ b'\n' ∷ [])))
    ∷ aborts
    ∷ exits 2
    ∷ []

unfoldable pub assert_failed : Build → Location → List Event
unfolding hcf
assert_failed build loc = hcf build (some (codes "assertion failed")) loc

unfoldable unreachable : Build → Location → List Event
unfolding hcf
unreachable build loc = hcf build (some (codes "unreachable reached")) loc

abbrev or_you : Bytes → Bytes
or_you [] = codes "you"
or_you (c ∷ url) = c ∷ url

-- A line that stands there if the text is not empty.
abbrev line_if : Bytes → Bytes → Bytes → Bytes
line_if before [] behind = []
line_if before (c ∷ text) behind = before ++ (c ∷ text ++ behind)

abbrev un : Bool → Bytes → Bytes
un true word = word
un false word = codes "un" ++ word

-- `BuildNote`
unfoldable pub build_note : Build → Bytes
build_note build =
    (codes "Version " ++ (build.package_name ++ b' ' ∷ (build.package_version ++ codes ".\n")))
    ++ ((codes "Report bugs to " ++ (or_you build.bug_url ++ codes ".\n"))
        ++ (line_if (codes "See ") build.package_url (codes " for more information.\n")
            ++ (line_if (codes "Source ") build.revision (codes ".\n")
                ++ (codes "Build is "
                    ++ (un build.is_checked (codes "checked")
                        ++ (codes " & "
                            ++ (un build.is_optimized (codes "optimized") ++ codes ".\n")))))))
