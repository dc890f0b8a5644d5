-- ===== src/Svipc/Shm/Tests.antt =====
-- Runs and instances of the shared memory model of lsvipc.c.
use lua_xlib.Svipc.Shm.RoundTrip.{write_back_read, write_seek_read}
use lua_xlib.Base.Int.{negsuc, pos}
use lua_xlib.Memory.{read_at}
use lua_xlib.Lua.{Bytes, done, overrun, report_error, values, lret_negative, string}
use lua_xlib.Svipc.Shm.{
  Shm, ShmCalls, lipc_shmget, lshm_read, lshm_seek, lshm_write, pos, read_at, efault, read_length,
}
use lua_xlib.Svipc.Shm.Cursor.{IsValid}
use lua_xlib.Svipc.Shm.Safety.{
  NoOverrun, Call, run, reads, run-NoOverrun, detaches, attaches, lshm_read-overrun, writes,
}
use lua_xlib.Base.{
  ℕ, List, arith, false, ◌∷◌, [], none, some, ◌≡◌, refl, true, take, drop, ◌^◌, ◌-◌, length, ◌<◌,
  ◌+◌,
}

abbrev strerror : ℕ → Bytes
strerror e = e ∷ []

-- A system in which every call succeeds.
abbrev calls : ShmCalls (Unit {0})
calls = record {
  shmget = λ key size flags w. (done 5, w);
  shm_segsz = λ id w. (done 4, w);
  shmat = λ id readonly w. (done 4096, w);
  shmdt = λ a w. (done tt, w);
  shm_remove = λ id w. (done tt, w);
}

-- Four bytes, attached, with the cursor behind the first.
abbrev four : Shm (Unit {0})
four = record {
  obj = record { shmid = 5; readonly = false; size = 4; offset = 1; addr = some 4096 };
  segment = 10 ∷ 20 ∷ 30 ∷ 40 ∷ [];
  system = tt;
}

four-IsValid : IsValid four
four-IsValid = omega arith

read_two :
    lshm_read strerror (pos 2) four
    ≡ (values (string (20 ∷ 30 ∷ []) ∷ []), record four { obj = record four.obj { offset = 3 } })
unfolding lshm_read read_at
read_two = refl

write_too_long :
    lshm_write strerror (1 ∷ 2 ∷ 3 ∷ 4 ∷ []) four
    ≡ (report_error strerror lret_negative efault, four)
unfolding lshm_write
write_too_long = refl

seek_from_end : (lshm_seek strerror (negsuc 0) four).1.offset ≡ 3
unfolding lshm_seek
seek_from_end = refl

shmget_fresh :
    (lipc_shmget strerror calls 0 (pos 7) (pos 4) none none tt).1
    ≡ some (record { shmid = 5; readonly = false; size = 4; offset = 0; addr = none })
unfolding lipc_shmget
shmget_fresh = refl

write_seek_read_example :
    ((write_back_read strerror four (1 ∷ 2 ∷ [])).0 ≡ values (string (1 ∷ 2 ∷ []) ∷ []))
    × ((write_back_read strerror four (1 ∷ 2 ∷ [])).1.offset ≡ 3)
    × (take 1 (write_back_read strerror four (1 ∷ 2 ∷ [])).1.segment ≡ 10 ∷ [])
    × (drop 3 (write_back_read strerror four (1 ∷ 2 ∷ [])).1.segment ≡ 40 ∷ [])
write_seek_read_example =
    write_seek_read strerror four (1 ∷ 2 ∷ []) 4096 four-IsValid refl refl (omega arith)

abbrev script : List Call
script = reads (pos 2) ∷ detaches ∷ reads (pos 2) ∷ attaches true ∷ writes (1 ∷ []) ∷ []

run-NoOverrun_example : NoOverrun (run strerror calls script four)
run-NoOverrun_example = run-NoOverrun strerror calls script four (omega arith) four-IsValid

lshm_read-overrun_example :
    (read_length four.obj (negsuc 0) ≡ 2 ^ 64 - 1)
    × (length four.segment < 1 + (2 ^ 64 - 1))
    × ((lshm_read strerror (negsuc 0) four).0 ≡ overrun)
lshm_read-overrun_example = lshm_read-overrun strerror four 0 4096 four-IsValid refl (omega arith)
