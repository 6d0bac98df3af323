-- ===== src/Session/Calls.antt =====
-- What the default resolver makes of each call of a session, and the client of each answer.
use libcody.Prelude.{Bool, true, false, none, some, [], ◌∷◌, ◌≡◌, refl, Bytes, codes, length}
use libcody.Packet.{module_export, module_import}
use libcody.Server.{error_response, Server, pathname_response, ok_response, connect_response}
use libcody.Resolver.{default_resolver, repo_dir}
use libcody.Session.{
  Call, greets, asks_repo, exports, imports, compiles, translates, invokes, promised, IsInOrder,
}
use libcody.Number.{is_empty}
use libcody.Buffer.Words.{IsWord}
use libcody.Buffer.Append.{argument}
use libcody.Session.Plain.{repo-Replies, invoke-Replies}
use libcody.Session.Steps.{
  Replies, cmi, name-Replies, export-Serves, import-Serves, compiled-Replies, translate-Replies,
  translated, translated-connected,
}
use libcody.Session.Greeting.{connect-Replies}
use libcody.Session.Packets.{
  Returns, path-Returns-repo, path-Returns-export, path-Returns-import, ok-Returns, welcome-Returns,
  translation-Returns, unimplemented-Returns,
}
use libcody.Session.Written.{call_code, call_line, answer_line}

word_not_empty : (s : Bytes) → IsWord false s → is_empty s ≡ false
word_not_empty [] (ne, h) = absurd (ne refl)
word_not_empty (c ∷ s) h = refl

-- The server answers the call by its line, and is connected.
pub record Serves {R : Type 0} (is_regular : Bytes → Bool) (s : Server R) (call : Call)
    : Type 0 where
  pub server : Server R
  pub replies :
      Replies
        (default_resolver is_regular)
        s
        server
        (call_code call)
        (call_line call)
        (answer_line is_regular call)
  pub up : server.is_connected ≡ true

module _ {R : Type 0} (is_regular : Bytes → Bool) (s : Server R) where
  connected-Serves :
      (call : Call) → s.is_connected ≡ true → IsInOrder true call → Serves is_regular s call
  connected-Serves (greets agent ident) up h = absurd h
  connected-Serves asks_repo up h = record {
    server = pathname_response s repo_dir none;
    replies = repo-Replies is_regular s up;
    up = unfold pathname_response in up;
  }
  connected-Serves (exports name flags) up (h, ne, few) = record {
    server = pathname_response s (cmi name) (some (length (cmi name)));
    replies =
        name-Replies is_regular s up module_export (codes "MODULE-EXPORT") name flags ne few
          (export-Serves is_regular s up);
    up = unfold pathname_response in up;
  }
  connected-Serves (imports name flags) up (h, ne, few) = record {
    server = pathname_response s (cmi name) (some (length (cmi name)));
    replies =
        name-Replies is_regular s up module_import (codes "MODULE-IMPORT") name flags ne few
          (import-Serves is_regular s up);
    up = unfold pathname_response in up;
  }
  connected-Serves (compiles name flags) up (h, ne, few) = record {
    server = ok_response s;
    replies = compiled-Replies is_regular s up name flags ne few;
    up = unfold ok_response in up;
  }
  connected-Serves (translates name flags) up (h, ne, few) = record {
    server = translated name s (is_regular (cmi name));
    replies = translate-Replies is_regular s up name flags ne few;
    up = translated-connected s name (is_regular (cmi name)) up;
  }
  connected-Serves (invokes arg args) up (h, hs) = record {
    server = error_response s (codes "unimplemented") none;
    replies = invoke-Replies is_regular s up arg args (word_not_empty (argument arg none) h);
    up = unfold error_response in up;
  }

  new-Serves :
      (call : Call) → s.is_connected ≡ false → IsInOrder false call → Serves is_regular s call
  new-Serves (greets agent ident) down h = record {
    server = connect_response s (codes "default") none;
    replies = connect-Replies is_regular s agent ident down;
    up = unfold connect_response in refl;
  }
  new-Serves asks_repo down h = absurd h
  new-Serves (exports name flags) down h = absurd h
  new-Serves (imports name flags) down h = absurd h
  new-Serves (compiles name flags) down h = absurd h
  new-Serves (translates name flags) down h = absurd h
  new-Serves (invokes arg args) down h = absurd h

  pub call-Serves :
      (connected : Bool) (call : Call)
      → s.is_connected ≡ connected
      → IsInOrder connected call
      → Serves is_regular s call
  call-Serves true call e h = connected-Serves call e h
  call-Serves false call e h = new-Serves call e h

pub call-Returns :
    (is_regular : Bytes → Bool) (connected : Bool) (call : Call)
    → IsInOrder connected call
    → Returns
        (call_code call)
        connected
        true
        (answer_line is_regular call)
        (promised is_regular call)
call-Returns is_regular false (greets agent ident) h = welcome-Returns
call-Returns is_regular true (greets agent ident) h = absurd h
call-Returns is_regular true asks_repo h = path-Returns-repo repo_dir
call-Returns is_regular false asks_repo h = absurd h
call-Returns is_regular true (exports name flags) h = path-Returns-export (cmi name)
call-Returns is_regular false (exports name flags) h = absurd h
call-Returns is_regular true (imports name flags) h = path-Returns-import (cmi name)
call-Returns is_regular false (imports name flags) h = absurd h
call-Returns is_regular true (compiles name flags) h = ok-Returns
call-Returns is_regular false (compiles name flags) h = absurd h
call-Returns is_regular true (translates name flags) h =
    translation-Returns name (is_regular (cmi name))
call-Returns is_regular false (translates name flags) h = absurd h
call-Returns is_regular true (invokes arg args) h = unimplemented-Returns
call-Returns is_regular false (invokes arg args) h = absurd h
