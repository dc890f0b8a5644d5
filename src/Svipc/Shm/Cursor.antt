-- ===== src/Svipc/Shm/Cursor.antt =====
-- What `shm:read`, `shm:write` and `shm:seek` of lsvipc.c do to the cursor and the bytes.
use lua_xlib.Svipc.Shm.{Shm, lshm_read, lshm_seek, lshm_write, read_length, eacces, efault}
use lua_xlib.Lua.{Bytes, values, integer, string, report_error, lret_negative}
use lua_xlib.Base.{
  ℕ, ◌≡◌, length, some, ◌<◌, ◌^◌, min, ◌≤◌, take, ◌-◌, arith, drop, if◌then◌else◌, ◌∷◌, [], ◌+◌,
  ltb, suc, take-min, length-drop,
}
use lua_xlib.Base.Int.{ℤ, pos, negsuc, neg_part, pos_part}
use lua_xlib.Memory.{overwrite, read_at-inside, write_at-inside}

-- The userdata describes its segment, and the cursor stands inside or at the end of it.
pub record IsValid {W : Type 0} (s : Shm W) : Type 0 where
  pub sized : s.size ≡ length s.segment
  pub small : s.size < 2 ^ 63
  pub inside : s.offset ≤ s.size

module _ {W : Type 0} (strerror : ℕ → Bytes) (s : Shm W) where
  pub read_length-lt :
      (n : ℕ) → IsValid s → n < 2 ^ 63 → read_length s.obj (pos n) ≡ min n (s.size - s.offset)
  unfolding read_length
  read_length-lt n v h = ground arith

  -- `shm:read` on a valid attached object, of a length from 0 to 2 ^ 63 - 1: it returns the bytes from
  -- the cursor on, as many as are left up to that length, moves the cursor behind them, and changes
  -- nothing else.
  pub lshm_read_lem :
      (n a : ℕ)
      → IsValid s
      → s.addr ≡ some a
      → n < 2 ^ 63
      → lshm_read strerror (pos n) s ≡ (
        values (string (take n (drop s.offset s.segment)) ∷ []),
        record s { obj = record s.obj { offset = s.offset + min n (s.size - s.offset) } },
      )
  unfolding lshm_read
  lshm_read_lem n a v e h = ground (
    arith,
    read_length-lt n v h,
    read_at-inside s.segment s.offset (min n (s.size - s.offset)),
    take-min n (drop s.offset s.segment),
    length-drop s.offset s.segment,
  )

  -- `shm:write` on a valid attached object, of less than 2 ^ 63 bytes: a read-only object refuses, and so does one with too few
  -- bytes left, and neither changes anything; otherwise the buffer replaces the bytes from the cursor
  -- on, the cursor moves behind it, and its new place is the result.
  pub lshm_write_lem :
      (buffer : Bytes) (a : ℕ)
      → IsValid s
      → s.addr ≡ some a
      → length buffer < 2 ^ 63
      → lshm_write strerror buffer s ≡ (
          if s.readonly
          then (report_error strerror lret_negative eacces, s)
          else if ltb s.size (s.offset + length buffer)
          then (report_error strerror lret_negative efault, s)
          else (
            values (integer (pos (s.offset + length buffer)) ∷ []),
            record s {
              obj = record s.obj { offset = s.offset + length buffer };
              segment = overwrite s.segment s.offset buffer;
            },
          ))
  unfolding lshm_write
  lshm_write_lem buffer a v e h = ground (arith, write_at-inside s.segment buffer s.offset)

  -- Where `shm:seek` puts the cursor: counted from the start, or back from the end.
  abbrev pub seek_target : ℤ → ℕ
  seek_target (pos n) = n
  seek_target (negsuc n) = s.size - suc n

  -- `shm:seek` on a valid object: a distance of less than the size is taken, from the start or back
  -- from the end; any other is refused and changes nothing.
  pub lshm_seek_lem :
      (z : ℤ)
      → IsValid s
      → lshm_seek strerror z s ≡ (
          if ltb (pos_part z + neg_part z) s.size
          then (
            values (integer (pos (seek_target z)) ∷ []),
            record s { obj = record s.obj { offset = seek_target z } },
          )
          else (report_error strerror lret_negative efault, s))
  unfolding lshm_seek
  lshm_seek_lem (pos n) v = ground arith
  lshm_seek_lem (negsuc n) v = ground arith
