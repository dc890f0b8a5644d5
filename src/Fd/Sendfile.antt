-- ===== src/Fd/Sendfile.antt =====
-- lfdlib.c, `fd.sendfile`: what it sends where it is given no size.
use lua_xlib.Fd.{FdCalls, lfd_sendfile, seek_cur, status}
use lua_xlib.Lua.{Bytes, done}
use lua_xlib.Base.Int.{ℤ, pos}
use lua_xlib.Base.Words.{to_int, sub_size}
use lua_xlib.Base.{ℕ, Option, none, some, ◌≡◌, ◌≤◌, ◌<◌, ◌^◌, ◌-◌, arith, refl}

-- Where a transfer begins: at a given place, or where the descriptor stands.
abbrev pub start_of : Option ℕ → ℕ → ℕ
start_of none place = place
start_of (some offset) place = offset

abbrev pub offset_of : Option ℕ → Option ℤ
offset_of none = none
offset_of (some offset) = some (pos offset)

module _ {W : Type 0} (strerror : ℕ → Bytes) (calls : FdCalls W) where
  -- The state in which `sendfile` is called: the descriptor is asked for its place only if no offset is
  -- given.
  abbrev pub asked_place : Option ℕ → ℤ → W → W
  asked_place none in_fd w = (calls.lseek in_fd (pos 0) seek_cur w).1
  asked_place (some offset) in_fd w = w

  sub_size_inside : (a b : ℕ) → b ≤ a → a < 2 ^ 64 → sub_size a b ≡ a - b
  sub_size_inside a b h k = ground arith

  -- Where the size of the file and the place of its descriptor can be had, and the transfer begins at
  -- the end of the file or before it: `fd.sendfile` without a size asks the system for exactly the rest
  -- of the file, from the offset that it is given, or else from the place of the descriptor.
  pub lfd_sendfile_lem :
      (out_fd in_fd : ℤ) (offset : Option ℕ) (st_size place : ℕ) (w : W)
      → calls.fstat_size (to_int in_fd) w ≡ (done st_size, w)
      → (calls.lseek (to_int in_fd) (pos 0) seek_cur w).0 ≡ done place
      → start_of offset place ≤ st_size
      → st_size < 2 ^ 63
      → lfd_sendfile strerror calls out_fd in_fd none (offset_of offset) w
        ≡ status strerror calls (
            calls.sendfile
              (to_int out_fd)
              (to_int in_fd)
              (offset_of offset)
              (st_size - start_of offset place)
              (asked_place offset (to_int in_fd) w))
  unfolding lfd_sendfile
  lfd_sendfile_lem out_fd in_fd none st_size place w a b le small =
      rw (a, b, sub_size_inside st_size place le (omega (arith, small))) refl
  lfd_sendfile_lem out_fd in_fd (some offset) st_size place w a b le small =
      rw (a, sub_size_inside st_size offset le (omega (arith, small))) refl
