-- ===== src/Ipc/Deadline.antt =====
-- lipclib.c, `expire_time`: the absolute time at which a wait ends. The timeout, a double in the code,
-- is given by what `modf` splits it into: whole seconds, and the rest in nanoseconds.
mod Tests
use lua_xlib.Socket.Deadline.{TimeVal}
use lua_xlib.Base.{
  ℕ, if◌then◌else◌, ltb, ◌+◌, ◌*◌, ◌%◌, ◌<◌, ◌≤◌, ◌≡◌, ◌↔◌, arith, Option, none, some,
}

pub record Timeout : Type 0 where
  pub whole : ℕ
  pub nanos : ℕ

pub record TimeSpec : Type 0 where
  pub sec : ℕ
  pub nsec : ℕ

-- `if (ts->tv_nsec > 1000000000) { ++ts->tv_sec; ts->tv_nsec %= 1000000000; }`
abbrev carry_nsec : TimeSpec → TimeSpec
carry_nsec t =
    if ltb 1_000_000_000 t.nsec
    then record { sec = t.sec + 1; nsec = t.nsec % 1_000_000_000 }
    else t

unfoldable pub expire_time : TimeVal → Timeout → TimeSpec
expire_time now timeout =
    carry_nsec (record { sec = now.sec + timeout.whole; nsec = now.usec * 1000 + timeout.nanos })

-- At a time with less than a million microseconds, for a timeout with less than 10 ^ 9 nanoseconds
-- beyond its whole seconds: the deadline is the time plus the timeout, to the nanosecond. Its
-- nanoseconds are fewer than 10 ^ 9, as the system asks for, but for one case: where the two parts
-- below a second make up a whole one, there are 10 ^ 9 of them.
pub expire_time_lem :
    (now : TimeVal) (timeout : Timeout)
    → now.usec < 1_000_000
    → timeout.nanos < 1_000_000_000
    → let t = expire_time now timeout in
      (t.sec * 1_000_000_000 + t.nsec
        ≡ now.sec * 1_000_000_000
          + now.usec * 1000
          + (timeout.whole * 1_000_000_000 + timeout.nanos))
      × (t.nsec ≤ 1_000_000_000)
      × ((t.nsec ≡ 1_000_000_000) ↔ (now.usec * 1000 + timeout.nanos ≡ 1_000_000_000))
unfolding expire_time
expire_time_lem now timeout h k = ground arith
