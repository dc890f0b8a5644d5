-- ===== src/Memory.antt =====
-- The bytes of a mapped segment as C code reads and writes them. An access that leaves the segment
-- is `none`; the laws relate reads and writes that stay inside.
use lua_xlib.Base.{
  ℕ, ◌+◌, ◌≤◌, ◌≡◌, Option, none, some, ◌++◌, if◌then◌else◌, leb, take, drop, length, arith,
  drop-drop, drop-length, length-append, length-take, take-length, ◌<◌, length-drop, take-take-drop,
  min, ◌-◌, drop-min, ◌∙◌, append-nil, [], ap,
}
use lua_xlib.Lua.{Bytes}

-- `lua_pushlstring(L, addr + pos, len)` reads `len` bytes from `pos` on.
unfoldable pub read_at : Bytes → ℕ → ℕ → Option Bytes
read_at seg pos len = if leb (pos + len) (length seg) then some (take len (drop pos seg)) else none

-- `memcpy(addr + pos, buf, len)`
unfoldable pub write_at : Bytes → ℕ → Bytes → Option Bytes
write_at seg pos buf =
    if leb (pos + length buf) (length seg)
    then some (take pos seg ++ (buf ++ drop (pos + length buf) seg))
    else none

-- What stands in the segment after a write that fits.
pub overwrite : Bytes → ℕ → Bytes → Bytes
overwrite seg pos buf = take pos seg ++ (buf ++ drop (pos + length buf) seg)

pub read_at-inside :
    (seg : Bytes) (pos len : ℕ)
    → pos + len ≤ length seg
    → read_at seg pos len ≡ some (take len (drop pos seg))
unfolding read_at
read_at-inside seg pos len h = ground arith

pub read_at-outside :
    (seg : Bytes) (pos len : ℕ) → length seg < pos + len → read_at seg pos len ≡ none
unfolding read_at
read_at-outside seg pos len h = ground arith

pub write_at-inside :
    (seg buf : Bytes) (pos : ℕ)
    → pos + length buf ≤ length seg
    → write_at seg pos buf ≡ some (overwrite seg pos buf)
unfolding write_at overwrite
write_at-inside seg buf pos h = ground arith

module _ (seg buf : Bytes) (pos : ℕ) (h : pos + length buf ≤ length seg) where
  length-take_pos : length (take pos seg) ≡ pos
  length-take_pos = omega (arith, length-take pos seg)

  pub length-overwrite : length (overwrite seg pos buf) ≡ length seg
  unfolding overwrite
  length-overwrite = omega (
    arith,
    length-append (take pos seg) (buf ++ drop (pos + length buf) seg),
    length-append buf (drop (pos + length buf) seg),
    length-drop (pos + length buf) seg,
    length-take_pos,
  )

  -- Reading back what was written.
  pub take-overwrite : take (length buf) (drop pos (overwrite seg pos buf)) ≡ buf
  unfolding overwrite
  take-overwrite =
      let tail : Bytes = buf ++ drop (pos + length buf) seg in
      let skip : drop (length (take pos seg)) (take pos seg ++ tail) ≡ tail =
        drop-length (take pos seg) tail in
      let skip' : drop pos (take pos seg ++ tail) ≡ tail = rw length-take_pos at skip in
      rw skip' (take-length buf (drop (pos + length buf) seg))

  -- The bytes before and behind the write stay.
  pub take-overwrite_before : take pos (overwrite seg pos buf) ≡ take pos seg
  unfolding overwrite
  take-overwrite_before =
      let tail : Bytes = buf ++ drop (pos + length buf) seg in
      let head : take (length (take pos seg)) (take pos seg ++ tail) ≡ take pos seg =
        take-length (take pos seg) tail in
      rw length-take_pos at head

  pub drop-overwrite_behind :
      drop (pos + length buf) (overwrite seg pos buf) ≡ drop (pos + length buf) seg
  unfolding overwrite
  drop-overwrite_behind =
      let tail : Bytes = buf ++ drop (pos + length buf) seg in
      let skip : drop (length (take pos seg)) (take pos seg ++ tail) ≡ tail =
        drop-length (take pos seg) tail in
      let skip' : drop pos (take pos seg ++ tail) ≡ tail = rw length-take_pos at skip in
      rw (← drop-drop pos (length buf) (take pos seg ++ tail), skip')
        (drop-length buf (drop (pos + length buf) seg))

drop_clamped :
    (seg : Bytes) (pos n : ℕ) → drop (pos + min n (length seg - pos)) seg ≡ drop (pos + n) seg
drop_clamped seg pos n =
    rw (← length-drop pos seg, ← drop-drop pos (min n (length (drop pos seg))) seg)
      (drop-min n (drop pos seg) ∙ drop-drop pos n seg)

-- Two reads in a row see what one read of both lengths sees, also where the segment ends first.
pub read_twice :
    (seg : Bytes) (pos a b : ℕ)
    → take a (drop pos seg) ++ take b (drop (pos + min a (length seg - pos)) seg)
      ≡ take (a + b) (drop pos seg)
read_twice seg pos a b =
    rw (drop_clamped seg pos a, ← drop-drop pos a seg) (take-take-drop a b (drop pos seg))

pub read_whole :
    (seg : Bytes) (pos len : ℕ) → pos ≡ 0 → len ≡ length seg → read_at seg pos len ≡ some seg
unfolding read_at
read_whole seg pos len p l =
    let whole : take (length seg) seg ≡ seg = rw append-nil at (take-length seg []) in
    rw (p, l) (ground (arith, whole))

-- What is written to the start of a buffer that is large enough is read back from there.
pub through_buffer :
    (seg body : Bytes)
    → length body ≤ length seg
    → (write_at seg 0 body ≡ some (overwrite seg 0 body))
      × (read_at (overwrite seg 0 body) 0 (length body) ≡ some body)
through_buffer seg body h = (
  write_at-inside seg body 0 (omega arith),
  read_at-inside (overwrite seg 0 body) 0 (length body)
        (omega (arith, length-overwrite seg body 0 (omega arith)))
      ∙ ap some (take-overwrite seg body 0 (omega arith)),
)
