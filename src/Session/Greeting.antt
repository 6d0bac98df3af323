-- ===== src/Session/Greeting.antt =====
-- What the default resolver makes of the handshake.
use libcody.Prelude.{
  Bool, false, List, [], ◌∷◌, none, ◌≡◌, refl, ap, ◌∙◌, arith, Bytes, codes, if◌then◌else◌,
}
use libcody.Status.{unspecific}
use libcody.Number.{to_string, parse_unsigned}
use libcody.Number.RoundTrip.{parse_unsigned-to_string}
use libcody.Buffer.Append.{argument}
use libcody.Buffer.Bare.{bare, quotable}
use libcody.Buffer.Message.{Word, texts, write_line}
use libcody.Packet.{connect}
use libcody.Server.{Server, Resolvers, version, connect_response}
use libcody.Server.Process.{serve, connect_request, connect_version, handed_over}
use libcody.Server.Responses.{connect_response-write}
use libcody.Resolver.{connect_request as greeted, default_resolver}
use libcody.Session.Steps.{Replies}

-- The handshake.
abbrev pub hello_line : Bytes → Bytes → List Word
hello_line agent ident =
    bare (codes "HELLO") ∷ bare (to_string version) ∷ quotable agent ∷ quotable ident ∷ []

abbrev pub welcome_line : List Word
welcome_line = bare (codes "HELLO") ∷ bare (to_string version) ∷ quotable (codes "default") ∷ []

default_lem : argument (codes "default") none ≡ codes "default"
unfolding argument
default_lem = refl

module _ {R : Type 0} (cls : Resolvers R) (s : Server R) (agent ident : Bytes) where
  hello_served :
      s.is_connected ≡ false
      → serve cls connect s (texts (hello_line agent ident))
        ≡ handed_over cls (cls.connect_request s.resolver s version agent ident)
  unfolding serve connect_request
  hello_served down =
      let v : parse_unsigned (to_string version) ≡ version =
        parse_unsigned-to_string version (omega arith) in
      ap
        (λ b.
          if b
          then (s, unspecific)
          else handed_over cls (connect_request cls s (texts (hello_line agent ident))))
        down
      ∙ ap (λ v. handed_over cls (connect_version cls s v agent ident)) v

pub connect-Replies :
    {R : Type 0} (is_regular : Bytes → Bool) (s : Server R) (agent ident : Bytes)
    → s.is_connected ≡ false
    → Replies
        (default_resolver is_regular)
        s
        (connect_response s (codes "default") none)
        connect
        (hello_line agent ident)
        welcome_line
unfolding greeted default_resolver
connect-Replies is_regular s agent ident down = record {
  served = hello_served (default_resolver is_regular) s agent ident down;
  same_read = unfold connect_response in refl;
  written =
      ap (λ t. t.write) (connect_response-write s (codes "default") none)
      ∙ ap
          (λ a.
            write_line s.write (bare (codes "HELLO") ∷ bare (to_string version) ∷ quotable a ∷ []))
          default_lem;
}
