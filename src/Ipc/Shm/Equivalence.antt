-- ===== src/Ipc/Shm/Equivalence.antt =====
-- The cursor of lipclib.c against the one of lsvipc.c: the two files have the same methods, but for
-- the check of a read-only segment.
use lua_xlib.Ipc.Shm.{Shm, read_length, lshm_read, lshm_write, lshm_seek, lshm_tell, lshm_size}
use lua_xlib.Svipc
use lua_xlib.Svipc.Shm.{ShmCalls}
use lua_xlib.Lua.{Bytes, Reply}
use lua_xlib.Base.Int.{ℤ}
use lua_xlib.Base.{ℕ, List, map, ◌∷◌, [], ◌≡◌, refl, false, ap, Option-cases, inl, inr, arith}

-- A call of a method of the cursor, with its arguments.
pub data Call : Type 0 where
  reads : ℤ → Call
  writes : Bytes → Call
  seeks : ℤ → Call
  tells sizes : Call

abbrev pub as_svipc : Call → Svipc.Shm.Safety.Call
as_svipc (reads z) = Svipc.Shm.Safety.reads z
as_svipc (writes buffer) = Svipc.Shm.Safety.writes buffer
as_svipc (seeks z) = Svipc.Shm.Safety.seeks z
as_svipc tells = Svipc.Shm.Safety.tells
as_svipc sizes = Svipc.Shm.Safety.sizes

module _ {W : Type 0} where
  -- The mapping as a segment that is not read-only, attached or not; its identifier does not matter.
  abbrev pub segment_of : Shm W → Svipc.Shm.Shm W
  segment_of s = record {
    obj = record { shmid = 0; readonly = false; size = s.size; offset = s.offset; addr = s.addr };
    segment = s.segment;
    system = s.system;
  }

  module _ (strerror : ℕ → Bytes) where
    pub step : Call → Shm W → Reply × Shm W
    step (reads z) = lshm_read strerror z
    step (writes buffer) = lshm_write strerror buffer
    step (seeks z) = lshm_seek strerror z
    step tells = lshm_tell strerror
    step sizes = lshm_size strerror

    -- The replies of a program's calls, in order.
    pub run : List Call → Shm W → List Reply
    run [] s = []
    run (c ∷ cs) s = (step c s).0 ∷ run cs (step c s).1

    step-segment_of :
        (calls : ShmCalls W) (c : Call) (s : Shm W)
        → Svipc.Shm.Safety.step strerror calls (as_svipc c) (segment_of s)
          ≡ ((step c s).0, segment_of (step c s).1)
    unfolding step Svipc.Shm.Safety.step lshm_read lshm_write lshm_seek lshm_tell lshm_size
        read_length Svipc.Shm.lshm_read Svipc.Shm.lshm_write Svipc.Shm.lshm_seek Svipc.Shm.lshm_tell
        Svipc.Shm.lshm_size Svipc.Shm.read_length
    step-segment_of calls (reads z) s = elim (Option-cases s.addr) [
      | inl e ↦ rw e refl
      | inr (a, e) ↦ ground (arith, e)
    ]
    step-segment_of calls (writes buffer) s = ground arith
    step-segment_of calls (seeks z) s = ground arith
    step-segment_of calls tells s = refl
    step-segment_of calls sizes s = refl

    -- A program of reads, writes, seeks, tells and sizes gets the same replies from a mapping of
    -- posix.ipc as from a System V segment that is not read-only, with the same bytes, size, cursor and
    -- address (also where they have none, or do not fit together).
    pub run-segment_of :
        (calls : ShmCalls W) (cs : List Call) (s : Shm W)
        → run cs s ≡ Svipc.Shm.Safety.run strerror calls (map as_svipc cs) (segment_of s)
    unfolding run Svipc.Shm.Safety.run
    run-segment_of calls [] s = refl
    run-segment_of calls (c ∷ cs) s =
        rw (step-segment_of calls c s)
          (ap (◌∷◌ (step c s).0) (run-segment_of calls cs (step c s).1))
