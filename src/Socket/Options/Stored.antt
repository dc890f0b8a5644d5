-- ===== src/Socket/Options/Stored.antt =====
-- Setting an option of a socket and asking for it again. It needs the kernel to give back the bytes that it
-- was handed for this option, which it documents for most of them.
use lua_xlib.Socket.Options.Words.{read_le-le_bytes, le_bytes, drop-le_bytes, read_le}
use lua_xlib.Socket.Object.{SockObj}
use lua_xlib.Base.{
  not, ◌<◌, ◌==◌, ◌≡◌, arith, ◌^◌, ℕ, ◌++◌, ◌∷◌, [], ap, some, ◌∙◌, Bool, true, append_assoc, ltb,
  subst, drop, sym, some-injective, none≢some, refl, false,
}
use lua_xlib.Socket.Options.{
  ValType, optval_byte, optval_bool, optval_int, optval_timeval, optval_linger, not, ◌==◌, OptCalls,
  lsock_getsockopt, shown, lsock_setsockopt, optval_of, SockObj, OptArg, get_sockopt, value_of,
  le_bytes, read_le, Doubles, flag, number,
}
use lua_xlib.Base.Int.{ℤ, pos, negsuc, eq_ℤ, pos_part}
use lua_xlib.Base.Words.{to_uint32, to_size, signed32, signed64, to_int}
use lua_xlib.Lua.{LuaValue, boolean, integer, Bytes, done, values}

-- The values of `int` and of the 64-bit `time_t` and `suseconds_t`.
abbrev pub IsInt : ℤ → Type 0
IsInt (pos n) = n < 2 ^ 31
IsInt (negsuc n) = n < 2 ^ 31

abbrev pub IsLong : ℤ → Type 0
IsLong (pos n) = n < 2 ^ 63
IsLong (negsuc n) = n < 2 ^ 63

pub signed32-to_uint32 : (z : ℤ) → IsInt z → signed32 (to_uint32 z) ≡ z
signed32-to_uint32 (pos n) h = ground arith
signed32-to_uint32 (negsuc n) h = ground arith

pub signed64-to_size : (z : ℤ) → IsLong z → signed64 (to_size z) ≡ z
signed64-to_size (pos n) h = ground arith
signed64-to_size (negsuc n) h = ground arith

pub to_uint32_bound : (z : ℤ) → to_uint32 z < 256 ^ 4
to_uint32_bound (pos n) = omega arith
to_uint32_bound (negsuc n) = omega arith

pub to_size_bound : (z : ℤ) → to_size z < 256 ^ 8
to_size_bound (pos n) = omega arith
to_size_bound (negsuc n) = omega arith

pub to_uint32_zero : (z : ℤ) → IsInt z → (to_uint32 z == 0) ≡ eq_ℤ z (pos 0)
unfolding eq_ℤ
to_uint32_zero (pos n) h = ground arith
to_uint32_zero (negsuc n) h = ground arith

-- The numbers that an option of the type can hold.
abbrev pub InRange : ValType → (z usec : ℤ) → Type 0
InRange optval_byte z usec = ⊥
InRange optval_bool z usec = IsInt z
InRange optval_int z usec = IsInt z
InRange optval_timeval z usec = IsLong z × IsLong usec
InRange optval_linger z usec = ⊥

-- What Lua is shown for such a number.
abbrev pub held : (ℤ → ℤ → LuaValue) → ValType → (z usec : ℤ) → LuaValue
held seconds optval_bool z usec = boolean (not (eq_ℤ z (pos 0)))
held seconds optval_timeval z usec = seconds z usec
held seconds t z usec = integer z

module _ {W : Type 0} (strerror : ℕ → Bytes) (seconds : ℤ → ℤ → LuaValue) (calls : OptCalls W) where
  shown_timeval :
      (bs : Bytes) (z usec : ℤ)
      → signed64 (read_le 8 bs) ≡ z
      → signed64 (read_le 8 (drop 8 bs)) ≡ usec
      → shown strerror seconds calls optval_timeval bs ≡ seconds z usec ∷ []
  shown_timeval bs z usec p q = cc

  pub shown-optval_of :
      (t : ValType) (z usec : ℤ) (rest : Bytes)
      → InRange t z usec
      → shown strerror seconds calls t (optval_of t z usec ++ rest) ≡ held seconds t z usec ∷ []
  shown-optval_of optval_byte z usec rest h = elim h [ ]
  shown-optval_of optval_linger z usec rest h = elim h [ ]
  shown-optval_of optval_bool z usec rest h =
      ap (λ (x : ℕ). boolean (not (x == 0)) ∷ [])
        (read_le-le_bytes 4 (to_uint32 z) rest (to_uint32_bound z))
      ∙ ap (λ (b : Bool). boolean (not b) ∷ []) (to_uint32_zero z h)
  shown-optval_of optval_int z usec rest h =
      ap (λ (x : ℕ). integer (signed32 x) ∷ [])
        (read_le-le_bytes 4 (to_uint32 z) rest (to_uint32_bound z))
      ∙ ap (λ (x : ℤ). integer x ∷ []) (signed32-to_uint32 z h)
  shown-optval_of optval_timeval z usec rest (h, k) =
      subst (λ (bs : Bytes). shown strerror seconds calls optval_timeval bs ≡ seconds z usec ∷ [])
        (sym (append_assoc (le_bytes 8 (to_size z)) (le_bytes 8 (to_size usec)) rest))
        (shown_timeval (le_bytes 8 (to_size z) ++ (le_bytes 8 (to_size usec) ++ rest)) z usec
          (ap signed64
              (read_le-le_bytes 8 (to_size z) (le_bytes 8 (to_size usec) ++ rest) (to_size_bound z))
            ∙ signed64-to_size z h)
          (ap (λ (bs : Bytes). signed64 (read_le 8 bs))
              (drop-le_bytes 8 (to_size z) (le_bytes 8 (to_size usec) ++ rest))
            ∙ ap signed64 (read_le-le_bytes 8 (to_size usec) rest (to_size_bound usec))
            ∙ signed64-to_size usec k))

  -- What Lua is shown for an argument that was set: a boolean as it was, a timeout as the seconds and the
  -- microseconds that the casts leave of it, and any other number as its cast to `int`.
  abbrev pub set_as : {D : Type 0} → Doubles D → ValType → OptArg D → LuaValue
  set_as conv t (flag b) = boolean b
  set_as conv optval_timeval (number x) =
      seconds (conv.int_of x) (conv.int_of (conv.million (conv.fmod_one x)))
  set_as conv t (number x) = integer (conv.int_of x)

  held-set_as :
      {D : Type 0} (conv : Doubles D) (t : ValType) (arg : OptArg D) (z usec : ℤ)
      → value_of conv t arg ≡ some (z, usec)
      → held seconds t z usec ≡ set_as conv t arg
  unfolding eq_ℤ
  held-set_as conv optval_bool (flag true) z usec e =
      subst (λ p. held seconds optval_bool p.0 p.1 ≡ boolean true) (some-injective e) refl
  held-set_as conv optval_bool (flag false) z usec e =
      subst (λ p. held seconds optval_bool p.0 p.1 ≡ boolean false) (some-injective e) refl
  held-set_as conv optval_bool (number x) z usec e = absurd (none≢some refl e)
  held-set_as conv optval_byte (flag b) z usec e = absurd (none≢some refl e)
  held-set_as conv optval_byte (number x) z usec e =
      subst (λ p. integer p.0 ≡ integer (conv.int_of x)) (some-injective e) refl
  held-set_as conv optval_int (flag b) z usec e = absurd (none≢some refl e)
  held-set_as conv optval_int (number x) z usec e =
      subst (λ p. integer p.0 ≡ integer (conv.int_of x)) (some-injective e) refl
  held-set_as conv optval_linger (flag b) z usec e = absurd (none≢some refl e)
  held-set_as conv optval_linger (number x) z usec e =
      subst (λ p. integer p.0 ≡ integer (conv.int_of x)) (some-injective e) refl
  held-set_as conv optval_timeval (flag b) z usec e = absurd (none≢some refl e)
  held-set_as conv optval_timeval (number x) z usec e =
      subst (λ p. seconds p.0 p.1 ≡ set_as conv optval_timeval (number x)) (some-injective e) refl

  -- On an open socket and for an option of the table that holds a number or a boolean, with what the casts
  -- leave of the argument in the range of its type: where the system accepts the bytes that `setsockopt`
  -- makes of it, and a later `getsockopt` gives the same bytes, whatever stands behind them,
  -- `sockobj:setsockopt` replies true and `sockobj:getsockopt` returns what the casts leave: the boolean, the
  -- `(int)` of a number, or the seconds `(int)value` and microseconds `(int)(fmod(value, 1)*1000000)` of a
  -- timeout.
  pub lsock_getsockopt-setsockopt :
      {D : Type 0} (conv : Doubles D) (o : SockObj) (level optname : ℤ) (t : ValType)
      (arg : OptArg D) (z usec : ℤ) (rest : Bytes) (w w' w'' : W)
      → 0 < pos_part o.sockfd
      → get_sockopt (to_int level) (to_int optname) ≡ some t
      → value_of conv t arg ≡ some (z, usec)
      → InRange t z usec
      → calls.setsockopt o.sockfd (to_int level) (to_int optname) (optval_of t z usec) w
        ≡ (done tt, w')
      → calls.getsockopt o.sockfd (to_int level) (to_int optname) w'
        ≡ (done (optval_of t z usec ++ rest), w'')
      → (lsock_setsockopt strerror seconds calls conv o level optname arg w
          ≡ (values (boolean true ∷ []), w'))
        × (lsock_getsockopt strerror seconds calls o level optname w'
            ≡ (values (set_as conv t arg ∷ []), w''))
  unfolding lsock_getsockopt lsock_setsockopt
  lsock_getsockopt-setsockopt conv o level optname t arg z usec rest w w' w'' p found given range
        set got =
      let alive : ltb 0 (pos_part o.sockfd) ≡ true = ground arith in
      (
        (simp (found, given, set, alive)),
        (simp (
          found,
          got,
          alive,
          shown-optval_of t z usec rest range,
          held-set_as conv t arg z usec given,
        )),
      )
