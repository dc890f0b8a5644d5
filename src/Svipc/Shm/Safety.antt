-- ===== src/Svipc/Shm/Safety.antt =====
-- No sequence of calls of the methods in lsvipc.c reads or writes outside the shared segment, so long
-- as `shm:read` is given no negative length; what a negative length does.
use lua_xlib.Memory.{length-overwrite, read_at-outside, read_whole}
use lua_xlib.Svipc.Shm.Cursor.{IsValid, lshm_seek_lem, lshm_read_lem, lshm_write_lem}
use lua_xlib.Svipc.Shm.{
  Shm, ShmCalls, lshm_read, lshm_tell, lshm_seek, lshm_size, lshm_write, read_length, lshm_attach,
  lshm_detach, lshm_remove,
}
use lua_xlib.Base.Int.{ℤ, pos, negsuc}
use lua_xlib.Lua.{Bytes, Reply, overrun, values, string}
use lua_xlib.Base.{
  ℕ, List, Bool, ◌∷◌, ◌<◌, ◌≢◌, length, ◌^◌, Option-cases, arith, ◌≡◌, inl, some, inr, [], ◌-◌, ◌+◌,
}

-- A call of a method, with its arguments.
pub data Call : Type 0 where
  reads : ℤ → Call
  writes : Bytes → Call
  seeks : ℤ → Call
  tells sizes : Call
  attaches : Bool → Call
  detaches removes : Call

module _ {W : Type 0} (strerror : ℕ → Bytes) (calls : ShmCalls W) where
  unfoldable pub step : Call → Shm W → Reply × Shm W
  step (reads z) = lshm_read strerror z
  step (writes buffer) = lshm_write strerror buffer
  step (seeks z) = lshm_seek strerror z
  step tells = lshm_tell strerror
  step sizes = lshm_size strerror
  step (attaches readonly) = lshm_attach strerror calls readonly
  step detaches = lshm_detach strerror calls
  step removes = lshm_remove strerror calls

  -- The replies of a program's calls, in order.
  unfoldable pub run : List Call → Shm W → List Reply
  run [] s = []
  run (c ∷ cs) s = (step c s).0 ∷ run cs (step c s).1

-- A length is not negative, and a string is one that fits in memory.
abbrev pub IsPlain : Call → Type 0
IsPlain (reads (pos n)) = n < 2 ^ 63
IsPlain (reads (negsuc n)) = ⊥
IsPlain (writes buffer) = length buffer < 2 ^ 63
IsPlain _ = Unit {0}

abbrev pub AllPlain : List Call → Type 0
AllPlain [] = Unit {0}
AllPlain (c ∷ cs) = IsPlain c × AllPlain cs

abbrev pub NoOverrun : List Reply → Type 0
NoOverrun [] = Unit {0}
NoOverrun (r ∷ rs) = (r ≢ overrun) × NoOverrun rs

module _ {W : Type 0} where
  -- A call is safe that overruns nothing and leaves a valid object.
  abbrev IsSafe : Reply × Shm W → Type 0
  IsSafe (r, s) = (r ≢ overrun) × IsValid s

module _ {W : Type 0} (strerror : ℕ → Bytes) (s : Shm W) (v : IsValid s) where
  read-IsSafe : (n : ℕ) → n < 2 ^ 63 → IsSafe (lshm_read strerror (pos n) s)
  read-IsSafe n h = elim (Option-cases s.addr) [
    | inl e ↦ unfold lshm_read in ground arith
    | inr (a, e) ↦ ground (arith, lshm_read_lem strerror s n a v e)
  ]

  write-IsSafe : (buffer : Bytes) → length buffer < 2 ^ 63 → IsSafe (lshm_write strerror buffer s)
  write-IsSafe buffer h = elim (Option-cases s.addr) [
    | inl e ↦ unfold lshm_write in ground arith
    | inr (a, e) ↦
        ground (
          arith,
          lshm_write_lem strerror s buffer a v e,
          length-overwrite s.segment buffer s.offset,
        )
  ]

  seek-IsSafe : (z : ℤ) → IsSafe (lshm_seek strerror z s)
  seek-IsSafe (pos n) = ground (arith, lshm_seek_lem strerror s (pos n) v)
  seek-IsSafe (negsuc n) = ground (arith, lshm_seek_lem strerror s (negsuc n) v)

module _ {W : Type 0} (strerror : ℕ → Bytes) (calls : ShmCalls W) where
  step-IsSafe : (c : Call) (s : Shm W) → IsPlain c → IsValid s → IsSafe (step strerror calls c s)
  unfolding step lshm_tell lshm_size lshm_attach lshm_detach lshm_remove
  step-IsSafe (reads (pos n)) s p v = read-IsSafe strerror s v n p
  step-IsSafe (reads (negsuc n)) s p v = absurd p
  step-IsSafe (writes buffer) s p v = write-IsSafe strerror s v buffer p
  step-IsSafe (seeks z) s p v = seek-IsSafe strerror s v z
  step-IsSafe tells s p v = ground arith
  step-IsSafe sizes s p v = ground arith
  step-IsSafe (attaches readonly) s p v = ground arith
  step-IsSafe detaches s p v = ground arith
  step-IsSafe removes s p v = ground arith

  -- Whatever the system calls answer, a sequence of calls on a valid object, with no negative length
  -- and no string of 2 ^ 63 bytes among their arguments, never leaves the segment.
  pub run-NoOverrun :
      (cs : List Call) (s : Shm W) → AllPlain cs → IsValid s → NoOverrun (run strerror calls cs s)
  unfolding run
  run-NoOverrun [] s p v = tt
  run-NoOverrun (c ∷ cs) s p v =
      let safe : IsSafe (step strerror calls c s) = step-IsSafe c s p.0 v in
      (safe.0, run-NoOverrun cs (step strerror calls c s).1 p.1 safe.1)

module _ {W : Type 0} (strerror : ℕ → Bytes) (s : Shm W) where
  -- On a valid attached object whose cursor is not at the start, `shm:read(-k)` with `0 < k` up to the cursor asks for
  -- the 2 ^ 64 - k bytes (the theorem's `k` is one less) that `len + pos` wraps around to: the clamp passes it, and the read leaves the
  -- segment.
  pub lshm_read-overrun :
      (k a : ℕ)
      → IsValid s
      → s.addr ≡ some a
      → k < s.offset
      → (read_length s.obj (negsuc k) ≡ 2 ^ 64 - 1 - k)
        × (length s.segment < s.offset + (2 ^ 64 - 1 - k))
        × (lshm_read strerror (negsuc k) s).0 ≡ overrun
  unfolding lshm_read read_length
  lshm_read-overrun k a v e h = (
    ground arith,
    ground (arith),
    ground (arith, read_at-outside s.segment s.offset (2 ^ 64 - 1 - k)),
  )

  -- On a valid attached object with the cursor at the start, `shm:read` of a negative length, down to
  -- -2 ^ 63, returns the whole segment.
  pub lshm_read_negative :
      (k a : ℕ)
      → IsValid s
      → s.addr ≡ some a
      → s.offset ≡ 0
      → k < 2 ^ 63
      → (lshm_read strerror (negsuc k) s).0 ≡ values (string s.segment ∷ [])
  unfolding lshm_read read_length
  lshm_read_negative k a v e z h = ground (arith, read_whole s.segment s.offset (s.size - s.offset))
