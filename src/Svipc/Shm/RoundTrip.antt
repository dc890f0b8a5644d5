-- ===== src/Svipc/Shm/RoundTrip.antt =====
-- Writes to a shared memory segment of lsvipc.c, read back, and reads one after the other.
use lua_xlib.Base.Int.{pos}
use lua_xlib.Memory.{
  overwrite, length-overwrite, take-overwrite_before, drop-overwrite_behind, take-overwrite,
  read_twice,
}
use lua_xlib.Svipc.Shm.Cursor.{IsValid, lshm_seek_lem, lshm_write_lem, lshm_read_lem}
use lua_xlib.Svipc.Shm.{Shm, lshm_write, lshm_seek, pos, lshm_read}
use lua_xlib.Lua.{Bytes, Reply, values, integer, string}
use lua_xlib.Base.{
  ℕ, ◌+◌, ◌≡◌, length, some, false, ◌≤◌, arith, ◌∷◌, [], take, drop, ◌<◌, ◌^◌, ◌++◌, min, refl, ◌-◌,
}

module _ {W : Type 0} (strerror : ℕ → Bytes) (s : Shm W) where
  -- What a program sees that writes `buffer`, seeks back to where it was, and reads as many bytes.
  abbrev pub write_back_read : Bytes → Reply × Shm W
  write_back_read buffer =
      let (r1, s1) = lshm_write strerror buffer s in
      let (r2, s2) = lshm_seek strerror (pos s.offset) s1 in
      lshm_read strerror (pos (length buffer)) s2

  abbrev written : Bytes → ℕ → Shm W
  written buffer n = record s {
    obj = record s.obj { offset = n };
    segment = overwrite s.segment s.offset buffer;
  }

  written-IsValid :
      (buffer : Bytes) (n : ℕ)
      → IsValid s
      → s.offset + length buffer ≤ s.size
      → n ≤ s.size
      → IsValid (written buffer n)
  written-IsValid buffer n v fits h = ground (arith, length-overwrite s.segment buffer s.offset)

  write_accepted :
      (buffer : Bytes) (a : ℕ)
      → IsValid s
      → s.addr ≡ some a
      → s.readonly ≡ false
      → s.offset + length buffer ≤ s.size
      → lshm_write strerror buffer s ≡ (
        values (integer (pos (s.offset + length buffer)) ∷ []),
        written buffer (s.offset + length buffer),
      )
  write_accepted buffer a v e ro fits = ground (arith, lshm_write_lem strerror s buffer a v e)

  -- Where the seek back is refused, at the very end of the segment, the cursor is there already.
  seek_back :
      (buffer : Bytes)
      → IsValid s
      → s.offset + length buffer ≤ s.size
      → (lshm_seek strerror (pos s.offset) (written buffer (s.offset + length buffer))).1
        ≡ written buffer s.offset
  seek_back buffer v fits = ground (
    arith,
    lshm_seek_lem strerror (written buffer (s.offset + length buffer)) (pos s.offset)
        (written-IsValid buffer (s.offset + length buffer) v fits fits),
  )

  write_back_read_lem :
      (buffer : Bytes) (a : ℕ)
      → IsValid s
      → s.addr ≡ some a
      → s.readonly ≡ false
      → s.offset + length buffer ≤ s.size
      → write_back_read buffer
        ≡ (values (string buffer ∷ []), written buffer (s.offset + length buffer))
  write_back_read_lem buffer a v e ro fits =
      rw (write_accepted buffer a v e ro fits, seek_back buffer v fits)
        (ground (
          arith,
          lshm_read_lem strerror (written buffer s.offset) (length buffer) a
              (written-IsValid buffer s.offset v fits v.inside) e,
          take-overwrite s.segment buffer s.offset,
        ))

  -- Bytes that fit behind the cursor, written to an attached object that is not read-only, are what
  -- a read of their number from the same place returns; that leaves the cursor behind them, and the
  -- other bytes of the segment as they were.
  pub write_seek_read :
      (buffer : Bytes) (a : ℕ)
      → IsValid s
      → s.addr ≡ some a
      → s.readonly ≡ false
      → s.offset + length buffer ≤ s.size
      → ((write_back_read buffer).0 ≡ values (string buffer ∷ []))
        × ((write_back_read buffer).1.offset ≡ s.offset + length buffer)
        × (take s.offset (write_back_read buffer).1.segment ≡ take s.offset s.segment)
        × (drop (s.offset + length buffer) (write_back_read buffer).1.segment
            ≡ drop (s.offset + length buffer) s.segment)
  write_seek_read buffer a v e ro fits = rw (write_back_read_lem buffer a v e ro fits) (
    refl,
    refl,
    take-overwrite_before s.segment buffer s.offset (omega arith),
    drop-overwrite_behind s.segment buffer s.offset (omega arith),
  )

  -- Two reads in a row return, put together, what one read of both lengths returns, and leave the same
  -- state behind.
  pub lshm_read_twice :
      (m n a : ℕ)
      → IsValid s
      → s.addr ≡ some a
      → m + n < 2 ^ 63
      → (xs : Bytes) × (ys : Bytes) × ((lshm_read strerror (pos m) s).0 ≡ values (string xs ∷ []))
        × (lshm_read strerror (pos n) (lshm_read strerror (pos m) s).1
            ≡ (values (string ys ∷ []), (lshm_read strerror (pos (m + n)) s).1))
        × ((lshm_read strerror (pos (m + n)) s).0 ≡ values (string (xs ++ ys) ∷ []))
  lshm_read_twice m n a v e h =
      let s1 : Shm W = record s {
        obj = record s.obj { offset = s.offset + min m (s.size - s.offset) };
      } in
      let v1 : IsValid s1 = ground arith in
      (
        take m (drop s.offset s.segment),
        take n (drop s1.offset s.segment),
        ground (arith, lshm_read_lem strerror s m a v e),
        ground (
          arith,
          lshm_read_lem strerror s m a v e,
          lshm_read_lem strerror s1 n a v1 e,
          lshm_read_lem strerror s (m + n) a v e,
        ),
        ground (arith, lshm_read_lem strerror s (m + n) a v e, read_twice s.segment s.offset m n),
      )
