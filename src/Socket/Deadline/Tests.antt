-- ===== src/Socket/Deadline/Tests.antt =====
-- Runs and instances of the deadlines of lsocklib.c.
use lua_xlib.Base.Int.{pos}
use lua_xlib.Socket.Deadline.{TimeVal, micros, time_add, pos, time_add-rounds}
use lua_xlib.Base.{◌≡◌, refl, ◌+◌, arith, ◌*◌}

abbrev noon : TimeVal
noon = record { sec = 43200; usec = 250_000 }

-- A timeout of 1.5 seconds ends after 2.
half_second_rounded : time_add noon (pos 1500) ≡ record { sec = 43202; usec = 250_000 }
unfolding time_add
half_second_rounded = refl

time_add-rounds_example : micros (time_add noon (pos 1500)) ≡ micros noon + 2 * 1_000_000
time_add-rounds_example = time_add-rounds noon 1500 (omega arith)
