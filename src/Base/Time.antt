-- ===== src/Base/Time.antt =====
-- `struct timeval`. The clock gives the time since 1970, so both fields are numbers.
use Prim.Native.Nat.{ℕ}

pub record Timeval : Type 0 where
  pub tv_sec : ℕ
  pub tv_usec : ℕ
