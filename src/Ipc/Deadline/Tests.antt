-- ===== src/Ipc/Deadline/Tests.antt =====
-- Deadlines of lipclib.c.
use lua_xlib.Ipc.Deadline.{expire_time, expire_time_lem, Timeout}
use lua_xlib.Socket.Deadline.{TimeVal}
use lua_xlib.Base.{◌≡◌, refl, arith, ◌+◌, ◌*◌, ◌≤◌, ◌↔◌}

abbrev half_past : TimeVal
half_past = record { sec = 100; usec = 500_000 }

abbrev half : Timeout
half = record { whole = 2; nanos = 500_000_000 }

-- Half a second behind a half: the nanoseconds are not carried.
not_carried : expire_time half_past half ≡ record { sec = 102; nsec = 1_000_000_000 }
unfolding expire_time
not_carried = refl

expire_time_lem_example :
    let t = expire_time half_past half in
    (t.sec * 1_000_000_000 + t.nsec
      ≡ 100 * 1_000_000_000 + 500_000 * 1000 + (2 * 1_000_000_000 + 500_000_000))
    × (t.nsec ≤ 1_000_000_000)
    × ((t.nsec ≡ 1_000_000_000) ↔ (500_000 * 1000 + 500_000_000 ≡ 1_000_000_000))
expire_time_lem_example = expire_time_lem half_past half (omega arith) (omega arith)
