-- ===== src/Socket/Options/Words.antt =====
-- Numbers in memory, the lowest byte first, as on x86-64.
use lua_xlib.Lua.{Bytes}
use lua_xlib.Base.{
  ℕ, [], suc, ◌<◌, ◌%◌, ◌^◌, ◌∷◌, ◌++◌, ◌+◌, ◌/◌, zero, ◌*◌, ◌≡◌, arith, drop, refl,
}
use native.Mathlib.Nat.{pow-succ'}

abbrev pub le_bytes : ℕ → ℕ → Bytes
le_bytes zero x = []
le_bytes (suc k) x = x % 256 ∷ le_bytes k (x / 256)

-- The number in the first bytes; what is missing counts as 0.
abbrev pub read_le : ℕ → Bytes → ℕ
read_le zero bs = 0
read_le (suc k) [] = 0
read_le (suc k) (b ∷ bs) = b + 256 * read_le k bs

pub read_le-le_bytes : (k x : ℕ) (rest : Bytes) → x < 256 ^ k → read_le k (le_bytes k x ++ rest) ≡ x
read_le-le_bytes zero x rest h = omega (arith, h)
read_le-le_bytes (suc k) x rest h =
    let p : 256 ^ suc k ≡ 256 * 256 ^ k = pow-succ' 256 k in
    let ih = read_le-le_bytes k (x / 256) rest (omega (arith, h, p)) in omega (arith, ih)

pub drop-le_bytes : (k x : ℕ) (rest : Bytes) → drop k (le_bytes k x ++ rest) ≡ rest
drop-le_bytes zero x rest = refl
drop-le_bytes (suc k) x rest = drop-le_bytes k (x / 256) rest
