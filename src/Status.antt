-- ===== src/Status.antt =====
-- The `int` results of the operations: 0, -1 and the errno values. Only the errno values that the
-- code names are told apart.
use libcody.Prelude.{ℕ, Bool, true, false}

pub data Errno : Type 0 where
  eagain eintr einval enoent : Errno
  other : ℕ → Errno

-- `success` is 0; `unspecific` is -1, the end of a file or an error with no errno value.
pub data Status : Type 0 where
  success unspecific : Status
  errno : Errno → Status

-- `e == EAGAIN || e == EINTR`
abbrev pub is_retry : Errno → Bool
is_retry eagain = true
is_retry eintr = true
is_retry _ = false
