-- ===== src/Server/Table.antt =====
-- The words of the requests: which one the search of `requestTable` finds.
use libcody.Prelude.{
  Bool, true, false, ◌&&◌, [], ◌∷◌, Option, none, some, ◌≡◌, ◌↔◌, refl, ap, sym, ◌∙◌, arith, Bytes,
  codes, ◌==◌, equal, if◌then◌else◌, Bool-cases, inl, inr,
}
use libcody.Packet.{
  RequestCode, connect, module_repo, module_export, module_import, module_compiled,
  include_translate, invoke,
}
use libcody.Server.Process.{find_request}

-- The word of each request, as README.md gives it.
abbrev pub request_word : RequestCode → Bytes
request_word connect = codes "HELLO"
request_word module_repo = codes "MODULE-REPO"
request_word module_export = codes "MODULE-EXPORT"
request_word module_import = codes "MODULE-IMPORT"
request_word module_compiled = codes "MODULE-COMPILED"
request_word include_translate = codes "INCLUDE-TRANSLATE"
request_word invoke = codes "INVOKE"

and_parts : (a b : Bool) → (a && b) ≡ true → (a ≡ true) × (b ≡ true)
and_parts true b h = (refl, h)
and_parts false b h = cc

equal_same : (s t : Bytes) → equal s t ≡ true → s ≡ t
unfolding equal
equal_same [] [] h = refl
equal_same [] (d ∷ t) h = cc
equal_same (c ∷ s) [] h = cc
equal_same (c ∷ s) (d ∷ t) h =
    let (e, f) = and_parts (c == d) (equal s t) h in
    let first : c ≡ d = ground arith in λ i. first i ∷ equal_same s t f i

-- The first word that is tried and fits.
found :
    (word w : Bytes) (here code : RequestCode) (rest : Option RequestCode)
    → request_word here ≡ w
    → (rest ≡ some code → word ≡ request_word code)
    → (if equal word w then some here else rest) ≡ some code
    → word ≡ request_word code
found word w here code rest same k h = elim (Bool-cases (equal word w)) [
  | inl e ↦
      let at_here : some here ≡ some code = rw e at h in
      let which : here ≡ code = cc in equal_same word w e ∙ sym same ∙ ap request_word which
  | inr e ↦ k (rw e at h)
]

found_word :
    (word : Bytes) (code : RequestCode) → find_request word ≡ some code → word ≡ request_word code
unfolding find_request
found_word word code = found word (codes "INVOKE") invoke code _ refl (
    found word (codes "INCLUDE-TRANSLATE") include_translate code _ refl (
      found word (codes "MODULE-COMPILED") module_compiled code _ refl (
        found word (codes "MODULE-IMPORT") module_import code _ refl (
          found word (codes "MODULE-EXPORT") module_export code _ refl (
            found word (codes "MODULE-REPO") module_repo code _ refl
              (found word (codes "HELLO") connect code none refl (λ e. cc)))))))

finds : (code : RequestCode) → find_request (request_word code) ≡ some code
unfolding find_request
finds connect = refl
finds module_repo = refl
finds module_export = refl
finds module_import = refl
finds module_compiled = refl
finds include_translate = refl
finds invoke = refl

-- The search of the request table finds a code just for the word of that request.
pub find_request_iff :
    (word : Bytes) (code : RequestCode)
    → (find_request word ≡ some code) ↔ (word ≡ request_word code)
find_request_iff word code = (found_word word code, λ e. ap find_request e ∙ finds code)
