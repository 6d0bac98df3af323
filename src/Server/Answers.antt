-- ===== src/Server/Answers.antt =====
-- What the server relies on in a resolver.
use libcody.Prelude.{ℕ, true, List, Option, none, some, ◌≡◌, Bytes}
use libcody.Status.{Status, success}
use libcody.Buffer.Message.{Word, write_line}
use libcody.Packet.{
  RequestCode, connect, module_repo, module_export, module_import, module_compiled,
  include_translate, invoke,
}
use libcody.Server.{Server, Resolvers}
use libcody.Server.Replies.{Kind, IsReply, answers_to}

module _ {R : Type 0} where
  -- One response line is begun and written, of a kind that answers the request, or that complains
  -- where no request may be served; the requests are left alone.
  pub record Answered (request : Option RequestCode) (s s' : Server R) : Type 0 where
    pub same_read : s'.read ≡ s.read
    pub kind : Kind
    pub words : List Word
    pub fits : answers_to request kind ≡ true
    pub reply : IsReply kind words
    pub one_line : s'.write ≡ write_line s.write words

  pub record Untouched (s s' : Server R) : Type 0 where
    pub same_read : s'.read ≡ s.read
    pub same_write : s'.write ≡ s.write

  -- A handler answers when it returns 0, and leaves the answer to the server when it fails.
  abbrev pub Behaves : Option RequestCode → Server R → Server R → Status → Type 0
  Behaves request s s' success = Answered request s s'
  Behaves request s s' err = Untouched s s'

  pub record Settled (request : Option RequestCode) (s : Server R) (x : Server R × Status)
      : Type 0 where
    pub behaves : Behaves request s x.0 x.1

  abbrev pub Hands : Server R → Server R → Option R → Type 0
  Hands s s' (some r) = Answered (some connect) s s'
  Hands s s' none = Untouched s s'

  pub record Connects (s : Server R) (x : Server R × Option R) : Type 0 where
    pub hands : Hands s x.0 x.1

  -- The contract of a resolver: a request that it takes gets one response of a kind that README.md
  -- has for it.
  pub record Answers (cls : Resolvers R) : Type 0 where
    pub waits : (r : R) (s : Server R) → Untouched s (cls.wait_until_ready r s)
    pub errors : (r : R) (s : Server R) (msg : Bytes) → Answered none s (cls.error_response r s msg)
    pub connects :
        (r : R) (s : Server R) (v : ℕ) (agent ident : Bytes)
        → Connects s (cls.connect_request r s v agent ident)
    pub repo : (r : R) (s : Server R) → Settled (some module_repo) s (cls.module_repo_request r s)
    pub exports :
        (r : R) (s : Server R) (flags : ℕ) (name : Bytes)
        → Settled (some module_export) s (cls.module_export_request r s flags name)
    pub imports :
        (r : R) (s : Server R) (flags : ℕ) (name : Bytes)
        → Settled (some module_import) s (cls.module_import_request r s flags name)
    pub compiles :
        (r : R) (s : Server R) (flags : ℕ) (name : Bytes)
        → Settled (some module_compiled) s (cls.module_compiled_request r s flags name)
    pub translates :
        (r : R) (s : Server R) (flags : ℕ) (name : Bytes)
        → Settled (some include_translate) s (cls.include_translate_request r s flags name)
    pub invokes :
        (r : R) (s : Server R) (args : List Bytes)
        → Settled (some invoke) s (cls.invoke_sub_process_request r s args)
