-- ===== src/Resolver/Contract.antt =====
-- The default resolver keeps the contract of Server/Answers.
use libcody.Prelude.{
  ℕ, Bool, true, false, [], ◌∷◌, Option, none, some, ◌≡◌, refl, Bytes, codes, length, if◌then◌else◌,
  ltb,
}
use libcody.Server.{
  Server, version, error_response, ok_response, connect_response, pathname_response, bool_response,
}
use libcody.Packet.{RequestCode, connect, module_compiled, include_translate}
use libcody.Server.Replies.{
  says_error, says_hello, says_pathname, says_bool, says_ok, error_reply, hello_reply,
  pathname_reply, bool_reply, ok_reply, answers_to, answers_none,
}
use libcody.Number.{to_string}
use libcody.Buffer.Append.{argument}
use libcody.Buffer.Bare.{bare, quotable}
use libcody.Server.Answers.{Answered, Answers}
use libcody.Server.Responses.{
  error_response-write, ok_response-write, connect_response-write, pathname_response-write,
  bool_response-write,
}
use libcody.Resolver.{
  connect_request, module_repo_request, module_name_request, module_compiled_request,
  include_translate_request, invoke_sub_process_request, resolver_error_response, default_resolver,
  repo_dir, get_cmi_name, get_cmi_suffix,
}

abbrev cmi : Bytes → Bytes
cmi = get_cmi_name get_cmi_suffix

module _ {R : Type 0} where
  error-Answered :
      (s : Server R) (msg : Bytes) (len : Option ℕ) → Answered none s (error_response s msg len)
  error-Answered s msg len = rw (error_response-write s msg len) (record {
    same_read = refl;
    kind = says_error;
    words = bare (codes "ERROR") ∷ quotable (argument msg len) ∷ [];
    fits = refl;
    reply = error_reply (argument msg len);
    one_line = refl;
  })

  refused-Answered :
      (request : Option RequestCode) (s : Server R) (msg : Bytes)
      → Answered request s (error_response s msg none)
  refused-Answered request s msg =
      let a = error-Answered s msg none in
      record {
        same_read = a.same_read;
        kind = a.kind;
        words = a.words;
        fits = answers_none request a.kind a.fits;
        reply = a.reply;
        one_line = a.one_line;
      }

  ok-Answered : (s : Server R) → Answered (some module_compiled) s (ok_response s)
  ok-Answered s = rw (ok_response-write s) (record {
    same_read = refl;
    kind = says_ok;
    words = bare (codes "OK") ∷ [];
    fits = refl;
    reply = ok_reply;
    one_line = refl;
  })

  connect-Answered :
      (s : Server R) (agent : Bytes) (len : Option ℕ)
      → Answered (some connect) s (connect_response s agent len)
  connect-Answered s agent len = rw (connect_response-write s agent len) (record {
    same_read = refl;
    kind = says_hello;
    words = bare (codes "HELLO") ∷ bare (to_string version) ∷ quotable (argument agent len) ∷ [];
    fits = refl;
    reply = hello_reply version (argument agent len);
    one_line = refl;
  })

  pathname-Answered :
      (request : Option RequestCode) (s : Server R) (cmi : Bytes) (len : Option ℕ)
      → answers_to request says_pathname ≡ true
      → Answered request s (pathname_response s cmi len)
  pathname-Answered request s cmi len f = rw (pathname_response-write s cmi len) (record {
    same_read = refl;
    kind = says_pathname;
    words = bare (codes "PATHNAME") ∷ quotable (argument cmi len) ∷ [];
    fits = f;
    reply = pathname_reply (argument cmi len);
    one_line = refl;
  })

  bool-Answered :
      (s : Server R) (b : Bool) → Answered (some include_translate) s (bool_response s b)
  bool-Answered s b = rw (bool_response-write s b) (record {
    same_read = refl;
    kind = says_bool;
    words = bare (codes "BOOL") ∷ bare (if b then codes "TRUE" else codes "FALSE") ∷ [];
    fits = refl;
    reply = bool_reply b;
    one_line = refl;
  })

  if-Answered :
      (request : Option RequestCode) (b : Bool) (s x y : Server R)
      → Answered request s x
      → Answered request s y
      → Answered request s (if b then x else y)
  if-Answered request true s x y h k = h
  if-Answered request false s x y h k = k

  -- The default resolver answers every request that it is given with just one response line, of a
  -- kind that README.md has for the request or an error: one word that names the kind, and arguments
  -- that are quoted on demand or made of plain bytes. It never touches the requests, and does nothing
  -- while the server waits, whatever files there are.
  pub default_resolver-Answers :
      (is_regular : Bytes → Bool) → Answers (default_resolver {R = R} is_regular)
  unfolding connect_request module_repo_request module_name_request module_compiled_request
      include_translate_request invoke_sub_process_request resolver_error_response default_resolver
  default_resolver-Answers is_regular = record {
    waits = λ r s. record { same_read = refl; same_write = refl };
    errors = λ r s msg. error-Answered s msg (some (length msg));
    connects = λ r s v agent ident. record {
      hands =
          if-Answered _ (ltb version v) s _ _ (refused-Answered _ s (codes "version mismatch"))
            (connect-Answered s (codes "default") none);
    };
    repo = λ r s. record { behaves = pathname-Answered _ s repo_dir none refl };
    exports = λ r s flags name. record {
      behaves = pathname-Answered _ s (cmi name) (some (length (cmi name))) refl;
    };
    imports = λ r s flags name. record {
      behaves = pathname-Answered _ s (cmi name) (some (length (cmi name))) refl;
    };
    compiles = λ r s flags name. record { behaves = ok-Answered s };
    translates = λ r s flags name. record {
      behaves =
          if-Answered _ (is_regular (cmi name)) s _ _
            (pathname-Answered _ s (cmi name) (some (length (cmi name))) refl)
            (bool-Answered s false);
    };
    invokes = λ r s args. record { behaves = refused-Answered _ s (codes "unimplemented") };
  }
