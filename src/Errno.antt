-- ===== src/Errno.antt =====
-- The error numbers that the library code returns, by name: errno.h is not part of the repository.
use Prim.Native.Nat.{ℕ}
use mathlib.Core.Bool.{Bool, true, false}

-- `success` is the return value 0, `other` any further error number.
pub data Errno : Type 0 where
  success eagain eintr enoent enomem efault einval esrch : Errno
  other : ℕ → Errno

abbrev pub is_success : Errno → Bool
is_success success = true
is_success eagain = false
is_success eintr = false
is_success enoent = false
is_success enomem = false
is_success efault = false
is_success einval = false
is_success esrch = false
is_success (other n) = false
