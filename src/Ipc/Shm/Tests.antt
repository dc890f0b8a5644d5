-- ===== src/Ipc/Shm/Tests.antt =====
-- Runs of the mapping model of lipclib.c.
use lua_xlib.Ipc.Shm.{Shm, lshm_close, lshm_write, MapCalls}
use lua_xlib.Ipc.Shm.Equivalence.{
  Call, run, run-segment_of, as_svipc, segment_of, reads, writes, seeks, tells, sizes,
}
use lua_xlib.Svipc
use lua_xlib.Svipc.Shm.{ShmCalls}
use lua_xlib.Lua.{Bytes, done, report_error, lret_nil}
use lua_xlib.Constants.{ebadf}
use lua_xlib.Base.Int.{pos, negsuc}
use lua_xlib.Base.{ℕ, List, ◌∷◌, [], ◌≡◌, refl, some, map}

abbrev strerror : ℕ → Bytes
strerror e = e ∷ []

abbrev calls : ShmCalls ℕ
calls = record {
  shmget = λ key size flags w. (done 1, w);
  shm_segsz = λ id w. (done 4, w);
  shmat = λ id readonly w. (done 4096, w);
  shmdt = λ a w. (done tt, w);
  shm_remove = λ id w. (done tt, w);
}

abbrev map_calls : MapCalls ℕ
map_calls = record {
  shm_open = λ name flags mode w. (done (pos 3), w);
  shm_unlink = λ name w. (done tt, w);
  fstat_size = λ fd w. (done 4, w);
  mmap = λ length prot flags fd offset w. (done 4096, w);
  munmap = λ addr size w. (done tt, w);
}

abbrev mapping : Shm ℕ
mapping = record {
  obj = record { fd = pos 3; addr = some 4096; size = 4; offset = 0 };
  segment = 1 ∷ 2 ∷ 3 ∷ 4 ∷ [];
  system = 0;
}

abbrev program : List Call
program = writes (9 ∷ 8 ∷ []) ∷ tells ∷ seeks (negsuc 2) ∷ reads (pos 10) ∷ sizes ∷ []

run-segment_of_example :
    run strerror program mapping
    ≡ Svipc.Shm.Safety.run strerror calls (map as_svipc program) (segment_of mapping)
run-segment_of_example = run-segment_of strerror calls program mapping

closed_refuses :
    (lshm_write strerror (7 ∷ []) (lshm_close strerror map_calls mapping).1).0
    ≡ report_error strerror lret_nil ebadf
unfolding lshm_write lshm_close
closed_refuses = refl
