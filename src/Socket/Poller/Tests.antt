-- ===== src/Socket/Poller/Tests.antt =====
-- Runs and instances of the selector model of lsocklib.c.
use lua_xlib.Lua.{Bytes, done, values, boolean}
use lua_xlib.Socket.Poller.{
  PollCalls, PollObj, lpoll_register, lpoll_unregister, lpoll_nextevents, zero_entry,
  never_registered, index_of,
}
use lua_xlib.Socket.Poller.Registry.{
  ReallocGrows, Registered, IsValid, ByEntry, lpoll_register_lem, events_of, lpoll_unregister_lem,
}
use lua_xlib.Base.Int.{eq_ℤ, pos}
use lua_xlib.Socket.Poller.Iteration.{collect, ready, collect_all, collect-unregister}
use lua_xlib.Base.{
  ℕ, ◌∷◌, ◌≡◌, [], refl, replicate, drop, length, map, true, if◌then◌else◌, none, arith,
  length-replicate,
}

abbrev strerror : ℕ → Bytes
strerror e = e ∷ []

-- A system with memory to spare, in which each descriptor can be read from.
abbrev calls : PollCalls (Unit {0})
calls = record {
  realloc = λ n w. (done (replicate n zero_entry), w);
  poll = λ ps timeout w. (done (length ps, map (λ p. pos 1) ps), w);
}

calls-ReallocGrows : ReallocGrows calls
calls-ReallocGrows n w w' more h = ground (arith, length-replicate n zero_entry)

-- Three descriptors in an array for three, the first and the last of them ready.
abbrev three : PollObj
three = record {
  len = 3;
  size = 3;
  fds =
      record { fd = pos 7; events = pos 1; revents = pos 1 }
      ∷ record { fd = pos 8; events = pos 1; revents = pos 0 }
      ∷ record { fd = pos 9; events = pos 1; revents = pos 4 }
      ∷ [];
}

three-IsValid : IsValid three
unfolding eq_ℤ
three-IsValid = ground arith

loop_sees : collect 4 three 0 ≡ (pos 7, pos 1) ∷ (pos 9, pos 4) ∷ []
unfolding collect lpoll_nextevents eq_ℤ
loop_sees = refl

-- The loop that unregisters the first descriptor on the way misses the last.
loop_misses : collect 4 (lpoll_unregister strerror (pos 7) three tt).1 1 ≡ []
unfolding collect lpoll_nextevents lpoll_unregister eq_ℤ
loop_misses = refl

register_grows : (lpoll_register strerror calls (pos 5) (pos 4) three tt).1.size ≡ 6
unfolding lpoll_register eq_ℤ
register_grows = refl

lpoll_register_lem_example :
    Registered strerror calls three tt
      (pos 5)
      (pos 5)
      (pos 4)
      (lpoll_register strerror calls (pos 5) (pos 4) three tt)
lpoll_register_lem_example =
    lpoll_register_lem strerror calls three three-IsValid tt (pos 5) (pos 5) (pos 4)
      calls-ReallocGrows

lpoll_unregister_lem_example :
    let (r, p', w') = lpoll_unregister strerror (pos 7) three tt in
    IsValid p'
    × ByEntry
        (events_of three (pos 7))
        ((r ≡ values (boolean true ∷ []))
          × (events_of p' (pos 9)
              ≡ (if eq_ℤ (pos 7) (pos 9) then none else events_of three (pos 9))))
        ((r ≡ never_registered strerror) × (p' ≡ three))
lpoll_unregister_lem_example = lpoll_unregister_lem strerror three three-IsValid tt (pos 9) (pos 7)

collect_all_example : collect 4 three 0 ≡ ready 3 three.fds
collect_all_example = collect_all three

collect-unregister_example :
    collect 4 (lpoll_unregister strerror (pos 7) three tt).1 1 ≡ ready 1 (drop 1 three.fds)
unfolding eq_ℤ
collect-unregister_example =
    collect-unregister strerror three tt (pos 7) 0 4 three-IsValid at (omega arith) (omega arith)
  where
    at : index_of (pos 7) 3 three.fds ≡ 0
    at = ground arith
