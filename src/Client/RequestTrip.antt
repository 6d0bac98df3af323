-- ===== src/Client/RequestTrip.antt =====
-- What the server makes of the requests of a client: the line that a request call writes is read as
-- the words that the handler takes apart, down to the call of the resolver.
use libcody.Prelude.{
  ℕ, ◌<◌, false, List, [], ◌∷◌, Option, none, some, ◌≡◌, ◌≢◌, refl, arith, Bytes, codes, ◌==◌, All,
  Bool-cases, inl, inr,
}
use libcody.Status.{Status}
use libcody.Number.{to_string}
use libcody.Number.RoundTrip.{parse_unsigned-to_string}
use libcody.Buffer.{empty_buffer, prepare_to_write}
use libcody.Buffer.Append.{argument}
use libcody.Buffer.Words.{IsAscii, IsWord}
use libcody.Buffer.Bare.{bare, quotable, are_bare-IsWord, to_string-IsWord}
use libcody.Buffer.Message.{texts}
use libcody.Buffer.RoundTrip.{decode, decode-write_line}
use libcody.Server.{Server, Resolvers, version}
use libcody.Server.Process.{no_value, connect_request, flagged}
use libcody.Client.Requests.{write_connect, write_flagged}
use libcody.Client.Lines.{flag_words, write_connect-write, write_flagged-write}

pub flag_words-IsWord : (flags : ℕ) → All (λ w. IsWord w.quote w.text) (flag_words flags)
flag_words-IsWord flags = elim (Bool-cases (flags == 0)) [
  | inl e ↦ rw e tt
  | inr e ↦ rw e (to_string-IsWord flags, tt)
]

module _ {R : Type 0} (cls : Resolvers R) where
  pub flagged-flag_words :
      (request : R → Server R → ℕ → Bytes → Server R × Status) (s : Server R) (word name : Bytes)
      (flags : ℕ)
      → name ≢ []
      → flags < no_value
      → flagged cls request s (word ∷ name ∷ texts (flag_words flags))
        ≡ request s.resolver s flags name
  unfolding flagged
  flagged-flag_words request s word [] flags ne h = absurd (ne refl)
  flagged-flag_words request s word (c ∷ name) flags ne h = elim (Bool-cases (flags == 0)) [
    | inl e ↦ let zero_flags : flags ≡ 0 = ground arith in rw zero_flags
    | inr e ↦
        let other : (flags == no_value) ≡ false = ground arith in
        rw (e, parse_unsigned-to_string flags (omega arith), other)
  ]

  -- The request calls with a name and flags: the server reads the line as words, with which the
  -- handler calls the resolver on just that name and those flags. The word of the request is bare,
  -- the name is ASCII and not empty, and the flags are not `~0u`, which the server takes for an error.
  pub write_flagged-flagged :
      (request : R → Server R → ℕ → Bytes → Server R × Status) (s : Server R) (word name : Bytes)
      (flags : ℕ) (len : Option ℕ)
      → IsWord false (argument word none)
      → All IsAscii (argument name len)
      → argument name len ≢ []
      → flags < no_value
      → (words : List Bytes) × (decode 2
            (prepare_to_write (write_flagged word empty_buffer name flags len))
          ≡ some (words ∷ []))
        × (flagged cls request s words ≡ request s.resolver s flags (argument name len))
  write_flagged-flagged request s word name flags len h k ne few =
      let line = bare (argument word none) ∷ quotable (argument name len) ∷ flag_words flags in
      (
        texts line,
        rw (write_flagged-write word empty_buffer name flags len)
            (decode-write_line line (λ p. cc, (h, (k, flag_words-IsWord flags)))),
        flagged-flag_words request s (argument word none) (argument name len) flags ne few,
      )

  -- The handshake: the server reads the line of `Connect` as words, with which it calls the resolver
  -- on the version of the client, the agent and the identification, which are ASCII.
  pub write_connect-connect_request :
      (s : Server R) (agent ident : Bytes) (alen ilen : Option ℕ)
      → All IsAscii (argument agent alen)
      → All IsAscii (argument ident ilen)
      → (words : List Bytes) × (decode 2
            (prepare_to_write (write_connect empty_buffer agent ident alen ilen))
          ≡ some (words ∷ []))
        × (connect_request cls s words
            ≡ cls.connect_request s.resolver s version (argument agent alen) (argument ident ilen))
  unfolding connect_request
  write_connect-connect_request s agent ident alen ilen h k =
      let line =
        bare (codes "HELLO")
        ∷ bare (to_string version)
        ∷ quotable (argument agent alen)
        ∷ quotable (argument ident ilen)
        ∷ [] in
      (
        texts line,
        rw (write_connect-write empty_buffer agent ident alen ilen) (
            decode-write_line line (
              λ p. cc,
              (
                are_bare-IsWord (codes "HELLO") (λ p. cc) refl,
                (to_string-IsWord version, (h, (k, tt))),
              ),
            )),
        rw (parse_unsigned-to_string version (omega arith)),
      )
