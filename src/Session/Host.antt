-- ===== src/Session/Host.antt =====
-- A server over descriptors, the way `main` of tests/02-comms/server-1.cc runs it: a message is
-- read, its requests are processed, and the responses are written.
use libcody.Prelude.{
  ℕ, List, [], ◌∷◌, Option, none, some, Bytes, if◌then◌else◌, ◌>>=◌, ◌≡◌, refl, Bool-cases, inl,
  inr,
}
use libcody.Status.{Errno}
use libcody.Buffer.Transfer.{WriteResult, ReadResult, read, write}
use libcody.Server.{Server, Resolvers, server_prepare_to_read, server_prepare_to_write}
use libcody.Server.Process.{process_requests}
use libcody.Server.Objects.{server_read, server_write}
use libcody.Client.{is_done, read_loop, write_loop}
use libcody.Client.Sending.{delivered}

-- What serving one message leaves, and the bytes that the system took.
pub record Turn (R : Type 0) : Type 0 where
  pub server : Server R
  pub reads : List (ℕ × (ℕ → ReadResult))
  pub writes : List (Bytes → WriteResult)
  pub sent : Bytes

module _ {R : Type 0} where
  -- The loops go on after `EAGAIN` and `EINTR`, and end with any other result. With no answer left
  -- they wait, `none`.
  unfoldable pub read_message :
      Server R → List (ℕ × (ℕ → ReadResult)) → Option (Server R × List (ℕ × (ℕ → ReadResult)))
  unfolding server_read
  read_message s [] = none
  read_message s ((capacity, os) ∷ later) =
      let t = server_read capacity os s in
      let rest = read_message t.0 later in if is_done t.1 then some (t.0, later) else rest

  unfoldable pub write_message :
      Server R → List (Bytes → WriteResult) → Option (Server R × List (Bytes → WriteResult))
  unfolding server_write
  write_message s [] = none
  write_message s (os ∷ later) =
      let t = server_write os s in
      let rest = write_message t.0 later in if is_done t.1 then some (t.0, later) else rest

  -- The body of `main`, from `PrepareToRead` on, which the constructor calls for the first message.
  unfoldable pub serve_message :
      Resolvers R
      → (Errno → Bytes)
      → Server R
      → List (ℕ × (ℕ → ReadResult))
      → List (Bytes → WriteResult)
      → Option (Turn R)
  unfolding server_prepare_to_read server_prepare_to_write read_message write_message
      process_requests
  serve_message cls strerror s reads writes = do
    got ← read_message (server_prepare_to_read s) reads
    processed ← process_requests cls strerror got.0
    let s' = server_prepare_to_write processed
    put ← write_message s' writes
    some
        (record { server = put.0; reads = got.1; writes = put.1; sent = delivered s'.write writes })

  -- The server's loops are those of the client.
  pub read_message-read_loop :
      (oss : List (ℕ × (ℕ → ReadResult))) (s : Server R)
      → read_message s oss
        ≡ (read_loop s.read oss >>= λ r. some (record s { read = r.buffer }, r.later))
  unfolding read_message read_loop server_read
  read_message-read_loop [] s = refl
  read_message-read_loop ((capacity, os) ∷ later) s =
      elim (Bool-cases (is_done (read capacity os s.read).status)) [
        | inl e ↦ rw e refl
        | inr e ↦
            rw e (read_message-read_loop later (record s { read = (read capacity os s.read).rest }))
      ]

  pub write_message-write_loop :
      (oss : List (Bytes → WriteResult)) (s : Server R)
      → write_message s oss
        ≡ (write_loop s.write oss >>= λ r. some (record s { write = r.buffer }, r.later))
  unfolding write_message write_loop server_write
  write_message-write_loop [] s = refl
  write_message-write_loop (os ∷ later) s = elim (Bool-cases (is_done (write os s.write).status)) [
    | inl e ↦ rw e refl
    | inr e ↦ rw e (write_message-write_loop later (record s { write = (write os s.write).rest }))
  ]
