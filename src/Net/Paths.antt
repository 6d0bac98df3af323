-- ===== src/Net/Paths.antt =====
-- The path in the address of a local socket, in `OpenLocal` and `ListenLocal`.
use libcody.Prelude.{
  ℕ, suc, ◌≤◌, Bool, true, [], ◌∷◌, ◌++◌, none, ◌≡◌, refl, ap, append_assoc, ◌⊎◌, inl, inr, arith,
  Bytes, length, ltb, ◌==◌, Bool-cases, c_string,
}
use libcody.Net.{System, local_address, set_errno, pure, ◌>>◌, name_too_long}
use libcody.Net.Client.{open_socket, open_local}
use libcody.Net.Server.{listen_socket, listen_local}

-- The path and its NUL fit in the field of the address, and whatever bytes the rest of the field
-- holds, the path reads back as the name that was given.
abbrev pub Fits : System → Bytes → Bytes → Type 0
Fits os name rest =
    (length (local_address name).body ≤ os.path_size)
    × (c_string ((local_address name).body ++ rest) ≡ c_string name)

c_string_reads : (s t : Bytes) → c_string (c_string s ++ 0 ∷ t) ≡ c_string s
unfolding c_string
c_string_reads [] t = refl
c_string_reads (c ∷ s) t = elim (Bool-cases (c == 0)) [
  | inl e ↦ rw e refl
  | inr e ↦ rw (e, e) (ap (◌∷◌ c) (c_string_reads s t))
]

length-snoc : (s : Bytes) (c : ℕ) → length (s ++ c ∷ []) ≡ suc (length s)
length-snoc [] c = refl
length-snoc (d ∷ s) c = ap suc (length-snoc s c)

fits :
    (os : System) (name rest : Bytes)
    → ltb (length (c_string name)) os.path_size ≡ true
    → Fits os name rest
unfolding local_address
fits os name rest h =
    (rw (length-snoc (c_string name) 0) (ground arith), rw append_assoc (c_string_reads name rest))

-- `OpenLocal` is `OpenSocket` on an address whose path, with its NUL, is in the field and reads
-- back as the name, whatever bytes the field holds behind it; or the name is as long as the field
-- or longer, and it gives no descriptor and no message and sets `errno`, with no other change.
pub open_local_cases :
    (os : System) (wants : Bool) (size : ℕ) (name rest : Bytes)
    → ((open_local os wants size name ≡ open_socket os wants (local_address name) size)
        × Fits os name rest)
      ⊎ ((open_local os wants size name
            ≡ (set_errno name_too_long >> pure (record { descriptor = none; message = none })))
          × (os.path_size ≤ length (c_string name)))
unfolding open_local
open_local_cases os wants size name rest =
    elim (Bool-cases (ltb (length (c_string name)) os.path_size)) [
      | inl e ↦ inl (rw e refl, fits os name rest e)
      | inr e ↦ inr (rw e refl, ground arith)
    ]

-- `ListenLocal` is `ListenSocket` on an address whose path, with its NUL, is in the field and
-- reads back as the name, whatever bytes the field holds behind it; or the name is as long as the
-- field or longer, and it gives no descriptor and no message and sets `errno`, with no other change.
listen_local_cases :
    (os : System) (wants : Bool) (size : ℕ) (name rest : Bytes) (backlog : ℕ)
    → ((listen_local os wants size name backlog
          ≡ listen_socket os wants (local_address name) size backlog)
        × Fits os name rest)
      ⊎ ((listen_local os wants size name backlog
            ≡ (set_errno name_too_long >> pure (record { descriptor = none; message = none })))
          × (os.path_size ≤ length (c_string name)))
unfolding listen_local
listen_local_cases os wants size name rest backlog =
    elim (Bool-cases (ltb (length (c_string name)) os.path_size)) [
      | inl e ↦ inl (rw e refl, fits os name rest e)
      | inr e ↦ inr (rw e refl, ground arith)
    ]
