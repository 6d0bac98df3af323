-- ===== src/Session/Steps.antt =====
-- What the default resolver makes of the request lines with a name and flags.
use libcody.Prelude.{
  Bool, ℕ, ◌<◌, true, false, List, [], ◌∷◌, Option, some, ◌≡◌, ◌≢◌, refl, ap, ◌∙◌, Bytes, codes,
  length, if◌then◌else◌,
}
use libcody.Status.{Status, success}
use libcody.Buffer.Append.{argument}
use libcody.Buffer.Bare.{bare, quotable}
use libcody.Buffer.Message.{Word, texts, write_line, argument_all}
use libcody.Packet.{RequestCode, module_export, module_import, module_compiled, include_translate}
use libcody.Server.{Resolvers, Server, pathname_response, ok_response, bool_response}
use libcody.Server.Process.{
  module_export_request, module_import_request, serve, handler, flagged, no_value,
}
use libcody.Server.Responses.{pathname_response-write, ok_response-write, bool_response-write}
use libcody.Resolver.{
  default_resolver, module_name_request, module_compiled_request, include_translate_request,
  get_cmi_name, get_cmi_suffix,
}
use libcody.Client.Lines.{flag_words}
use libcody.Client.RequestTrip.{flagged-flag_words}

abbrev pub cmi : Bytes → Bytes
cmi = get_cmi_name get_cmi_suffix

abbrev pub named_line : Bytes → Bytes → ℕ → List Word
named_line word name flags = bare word ∷ quotable name ∷ flag_words flags

abbrev pub path_line : Bytes → List Word
path_line path = bare (codes "PATHNAME") ∷ quotable path ∷ []

abbrev pub repo_line : List Word
repo_line = bare (codes "MODULE-REPO") ∷ []

abbrev pub unimplemented_line : List Word
unimplemented_line = bare (codes "ERROR") ∷ quotable (codes "unimplemented") ∷ []

-- The answer to a translation, by whether the repository has the file.
abbrev pub translation : Bytes → Bool → List Word
translation name true = path_line (cmi name)
translation name false = bare (codes "BOOL") ∷ bare (codes "FALSE") ∷ []

abbrev pub translated : {R : Type 0} → Bytes → Server R → Bool → Server R
translated name t b =
    if b then pathname_response t (cmi name) (some (length (cmi name))) else bool_response t false

-- The server has answered the words of a line by a line.
pub record Replies {R : Type 0} (cls : Resolvers R) (s s' : Server R) (code : RequestCode)
    (l answer : List Word) : Type 0 where
  pub served : serve cls code s (texts l) ≡ (s', success)
  pub same_read : s'.read ≡ s.read
  pub written : s'.write ≡ write_line s.write answer

module _ {R : Type 0} (is_regular : Bytes → Bool) (s : Server R) (up : s.is_connected ≡ true) where
  pub path-Replies :
      (code : RequestCode) (l : List Word) (path : Bytes) (len : Option ℕ) (shown : Bytes)
      → argument path len ≡ shown
      → serve (default_resolver is_regular) code s (texts l)
        ≡ (pathname_response s path len, success)
      → Replies
          (default_resolver is_regular)
          s
          (pathname_response s path len)
          code
          l
          (path_line shown)
  path-Replies code l path len shown same e = record {
    served = e;
    same_read = unfold pathname_response in refl;
    written =
        ap (λ t. t.write) (pathname_response-write s path len)
        ∙ ap (λ p. write_line s.write (path_line p)) same;
  }

  -- A request with a name and flags, by the function that the resolver has for it.
  abbrev pub Serves : RequestCode → (R → Server R → ℕ → Bytes → Server R × Status) → Type 0
  Serves code request =
      (t : Server R) (words : List Bytes)
      → t.is_connected ≡ true
      → serve (default_resolver is_regular) code t words
        ≡ flagged (default_resolver is_regular) request t words

  named_served :
      (code : RequestCode) (request : R → Server R → ℕ → Bytes → Server R × Status)
      (word name : Bytes) (flags : ℕ)
      → name ≢ []
      → flags < no_value
      → Serves code request
      → serve (default_resolver is_regular) code s (texts (named_line word name flags))
        ≡ request s.resolver s flags name
  named_served code request word name flags ne few e =
      e s (texts (named_line word name flags)) up
      ∙ flagged-flag_words (default_resolver is_regular) request s word name flags ne few

  -- A request that is answered by the file name of the module.
  pub name-Replies :
      (code : RequestCode) (word name : Bytes) (flags : ℕ)
      → name ≢ []
      → flags < no_value
      → Serves code module_name_request
      → Replies
          (default_resolver is_regular)
          s
          (pathname_response s (cmi name) (some (length (cmi name))))
          code
          (named_line word name flags)
          (path_line (cmi name))
  unfolding module_name_request
  name-Replies code word name flags ne few e =
      let l = named_line word name flags in
      path-Replies code l (cmi name) (some (length (cmi name))) (cmi name) (argument_all (cmi name))
        (named_served code module_name_request word name flags ne few e)

  pub export-Serves : Serves module_export module_name_request
  unfolding serve handler module_export_request default_resolver
  export-Serves t words h = rw h refl

  pub import-Serves : Serves module_import module_name_request
  unfolding serve handler module_import_request default_resolver
  import-Serves t words h = rw h refl

  compiled-Serves : Serves module_compiled module_compiled_request
  unfolding serve handler default_resolver
  compiled-Serves t words h = rw h refl

  pub compiled-Replies :
      (name : Bytes) (flags : ℕ)
      → name ≢ []
      → flags < no_value
      → Replies
          (default_resolver is_regular)
          s
          (ok_response s)
          module_compiled
          (named_line (codes "MODULE-COMPILED") name flags)
          (bare (codes "OK") ∷ [])
  unfolding module_compiled_request
  compiled-Replies name flags ne few =
      let l = named_line (codes "MODULE-COMPILED") name flags in
      record {
        served =
            named_served module_compiled module_compiled_request (codes "MODULE-COMPILED") name
              flags ne few compiled-Serves;
        same_read = unfold ok_response in refl;
        written = ap (λ t. t.write) (ok_response-write s);
      }

  translation-Replies :
      (name : Bytes) (l : List Word) (b : Bool)
      → serve (default_resolver is_regular) include_translate s (texts l)
        ≡ (translated name s b, success)
      → Replies
          (default_resolver is_regular)
          s
          (translated name s b)
          include_translate
          l
          (translation name b)
  translation-Replies name l true e =
      path-Replies include_translate l (cmi name) (some (length (cmi name))) (cmi name)
        (argument_all (cmi name)) e
  translation-Replies name l false e = record {
    served = e;
    same_read = unfold bool_response in refl;
    written = ap (λ t. t.write) (bool_response-write s false);
  }

  translate-Serves : Serves include_translate (include_translate_request is_regular)
  unfolding serve handler default_resolver
  translate-Serves t words h = rw h refl

  pub translate-Replies :
      (name : Bytes) (flags : ℕ)
      → name ≢ []
      → flags < no_value
      → Replies
          (default_resolver is_regular)
          s
          (translated name s (is_regular (cmi name)))
          include_translate
          (named_line (codes "INCLUDE-TRANSLATE") name flags)
          (translation name (is_regular (cmi name)))
  unfolding include_translate_request
  translate-Replies name flags ne few =
      translation-Replies name (named_line (codes "INCLUDE-TRANSLATE") name flags)
        (is_regular (cmi name))
        (named_served include_translate (include_translate_request is_regular)
          (codes "INCLUDE-TRANSLATE") name flags ne few translate-Serves)

pub translated-connected :
    {R : Type 0} (s : Server R) (name : Bytes) (b : Bool)
    → s.is_connected ≡ true
    → (translated name s b).is_connected ≡ true
unfolding pathname_response bool_response
translated-connected s name true up = up
translated-connected s name false up = up
