-- ===== src/Socket/Deadline.antt =====
-- lsocklib.c, `time_add` and `time_left`: the deadline of `sockobj:readline`, and the milliseconds that
-- are left until it. The timeout is the `int` of milliseconds that the code computes from a double.
mod Tests
use lua_xlib.Base.Int.{pos, ℤ, negsuc}
use lua_xlib.Base.Words.{signed32}
use lua_xlib.Base.{ℕ, if◌then◌else◌, ◌*◌, ltb, ◌+◌, ◌-◌, ◌≡◌, ◌%◌, ◌/◌, ◌^◌, ◌<◌, arith, ◌≤◌}

pub record TimeVal : Type 0 where
  pub sec : ℕ
  pub usec : ℕ

-- `if (endtime->tv_usec > 1000000) { ++endtime->tv_sec; endtime->tv_usec %= 1000000; }`
abbrev carry_usec : TimeVal → TimeVal
carry_usec t =
    if ltb 1_000_000 t.usec then record { sec = t.sec + 1; usec = t.usec % 1_000_000 } else t

-- What `time_add` makes of the current time; the `-1` that stands for no timeout adds nothing.
unfoldable pub time_add : TimeVal → ℤ → TimeVal
time_add now (pos timeout) =
    if ltb 0 timeout
    then carry_usec
        (record { sec = now.sec + timeout / 1000; usec = now.usec + timeout % 1000 * 1_000_000 })
    else now
time_add now (negsuc n) = now

abbrev pub micros : TimeVal → ℕ
micros t = t.sec * 1_000_000 + t.usec

-- The difference is cut off at 0 here; the code cuts it off after its conversion to `int`.
unfoldable pub time_left : TimeVal → TimeVal → ℕ
time_left endtime now = elim (signed32 ((micros endtime - micros now) / 1000 % 2 ^ 32)) [
  | pos n ↦ n
  | negsuc n ↦ 0
]

-- From a time with fewer than a million microseconds, the deadline of a timeout lies whole seconds
-- ahead: what the timeout asks for beyond whole seconds is rounded up to one second more.
pub time_add-rounds :
    (now : TimeVal) (timeout : ℕ)
    → now.usec < 1_000_000
    → micros (time_add now (pos timeout)) ≡ micros now + (timeout + 999) / 1000 * 1_000_000
unfolding time_add
time_add-rounds now timeout h = ground arith

-- From such a time, for a timeout of less than 2 ^ 31 milliseconds, `time_left` at a later time gives
-- the milliseconds from that time to the rounded deadline, and 0 behind it.
pub time_left-time_add :
    (now later : TimeVal) (timeout : ℕ)
    → now.usec < 1_000_000
    → timeout + 1000 < 2 ^ 31
    → micros now ≤ micros later
    → time_left (time_add now (pos timeout)) later
      ≡ (micros now + (timeout + 999) / 1000 * 1_000_000 - micros later) / 1000
unfolding time_left
time_left-time_add now later timeout h small le = ground (arith, time_add-rounds now timeout h)
