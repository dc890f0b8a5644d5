-- ===== src/Socket/Readline/Laws.antt =====
-- What `sockobj:readline` of lsocklib.c relies on of the socket calls, and how its size limit shrinks.
use lua_xlib.Socket.Readline.{request, reduce}
use lua_xlib.Lua.{Bytes, failed}
use lua_xlib.Socket.Object.{SockCalls, got, is_retryable, closed, failed}
use lua_xlib.Base.Int.{ℤ, pos, pos_part, negsuc}
use lua_xlib.Base.{
  ℕ, true, length, ◌<◌, ◌≡◌, ◌-◌, ◌^◌, ◌≤◌, ◌++◌, [], false, Bool, arith, suc, zero, length-append,
  refl,
}

-- What the code relies on: the socket delivers a finite stream of bytes in order, and looking at it
-- does not take from it. A call that delivers nothing, with an `errno` that says that it is worth another
-- try, uses up some of a finite patience.
pub record StreamLaws {W : Type 0} (calls : SockCalls W) (stream : W → Bytes) (patience : W → ℕ)
    : Type 0 where
  pub peeks :
      (n : ℕ) (w w' : W) (bs : Bytes)
      → calls.recv n true w ≡ (got bs, w')
      → (rest : Bytes) × (stream w ≡ bs ++ rest)
        × (stream w' ≡ stream w)
        × (length bs ≤ n)
        × (0 < length bs)
        × (patience w' ≤ patience w)
  pub takes :
      (n : ℕ) (w w' : W) (bs : Bytes)
      → calls.recv n false w ≡ (got bs, w')
      → (stream w ≡ bs ++ stream w')
        × (length bs ≤ n)
        × (0 < length bs)
        × (patience w' ≤ patience w)
  pub ends :
      (n : ℕ) (peek : Bool) (w w' : W)
      → calls.recv n peek w ≡ (closed, w')
      → (stream w' ≡ stream w) × (is_retryable (calls.errno w') ≡ true → patience w' < patience w)
  pub fails :
      (n : ℕ) (peek : Bool) (w w' : W)
      → calls.recv n peek w ≡ (failed, w')
      → (stream w' ≡ stream w) × (is_retryable (calls.errno w') ≡ true → patience w' < patience w)
  pub polls :
      (t : ℤ) (w : W)
      → (stream (calls.poll t w).1 ≡ stream w) × (patience (calls.poll t w).1 ≤ patience w)
  pub times :
      (w : W)
      → (stream (calls.gettimeofday w).1 ≡ stream w)
        × (patience (calls.gettimeofday w).1 ≤ patience w)

-- At most `size` bytes, if `size` is not negative.
abbrev pub WithinSize : ℤ → Bytes → Type 0
WithinSize (pos n) line = length line ≤ n
WithinSize (negsuc n) line = Unit {0}

-- What is left of `size` when the bytes of `line` are taken.
abbrev pub LeftOver : ℤ → Bytes → ℤ → Type 0
LeftOver (pos n) line left = (left ≡ pos (n - length line)) × (length line ≤ n)
LeftOver (negsuc n) line left = left ≡ negsuc n

pub LeftOver-within :
    (size : ℤ) (line : Bytes) (left : ℤ) → LeftOver size line left → WithinSize size line
LeftOver-within (pos n) line left h = h.1
LeftOver-within (negsuc n) line left h = tt

request-le : (m : ℕ) → m < 2 ^ 31 → request (pos m) ≤ m
request-le m h = ground arith

reduce-pos : (m k : ℕ) → k ≤ m → reduce (pos m) k ≡ pos (m - k)
reduce-pos zero k h = ground arith
reduce-pos (suc m) k h = ground arith

pub LeftOver-reduce :
    (size : ℤ) (line cs : Bytes) (left : ℤ)
    → pos_part size < 2 ^ 31
    → LeftOver size line left
    → length cs ≤ request left
    → LeftOver size (line ++ cs) (reduce left (length cs))
LeftOver-reduce (pos n) line cs left small h fits =
    let fits' : length cs ≤ request (pos (n - length line)) = rw h.0 at fits in
    let le : length cs ≤ n - length line =
      omega (arith, request-le (n - length line) (omega arith)) in
    rw h.0 (ground (arith, reduce-pos (n - length line) (length cs) le, length-append line cs))
LeftOver-reduce (negsuc n) line cs left small h fits = rw h refl

pub LeftOver-nil : (size : ℤ) → LeftOver size [] size
LeftOver-nil (pos n) = ground arith
LeftOver-nil (negsuc n) = refl
