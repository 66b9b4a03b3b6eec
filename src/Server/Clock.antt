-- ===== src/Server/Clock.antt =====
-- The wall clock that fails closed: server/src/clock.rs. A time is a `u64` of unix seconds.
use sec_s_magik.Base.{ℕ, Bool, Option, none, some, eqb}

-- `u64::MAX`.
abbrev pub clock_read_failure_sentinel : ℕ
clock_read_failure_sentinel = 18446744073709551615

-- The reading of the system clock, `none` when it cannot be read, is given.
unfoldable pub failclosed_unix_seconds : Option ℕ → ℕ
failclosed_unix_seconds none = clock_read_failure_sentinel
failclosed_unix_seconds (some seconds) = seconds

abbrev pub is_clock_read_failure : ℕ → Bool
is_clock_read_failure now = eqb now clock_read_failure_sentinel
