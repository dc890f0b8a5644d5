-- ===== src/Socket/Readline/Lines.antt =====
-- Lists of bytes that are a line or the beginning of one, and what the scan of lsocklib.c for a newline
-- cuts off.
use lua_xlib.Lua.{Bytes}
use lua_xlib.Socket.Readline.{ends_line, line_length, newline}
use lua_xlib.Base.{
  ℕ, ◌++◌, ◌<◌, ◌∷◌, ◌≡◌, ◌≤◌, [], false, length, take, ◌≢◌, arith, suc, refl, zero, ap,
}

-- No newline stands in the bytes.
abbrev pub NoNewline : Bytes → Type 0
NoNewline [] = Unit {0}
NoNewline (c ∷ cs) = (c ≢ newline) × NoNewline cs

-- No newline stands in the bytes but at their end.
abbrev pub OneLine : Bytes → Type 0
OneLine [] = Unit {0}
OneLine (c ∷ []) = Unit {0}
OneLine (c ∷ d ∷ cs) = (c ≢ newline) × OneLine (d ∷ cs)

pub OneLine-append : (xs ys : Bytes) → NoNewline xs → OneLine ys → OneLine (xs ++ ys)
OneLine-append [] ys hx hy = hy
OneLine-append (x ∷ []) [] hx hy = tt
OneLine-append (x ∷ []) (y ∷ ys) hx hy = (hx.0, hy)
OneLine-append (x ∷ x' ∷ xs) ys hx hy = (hx.0, OneLine-append (x' ∷ xs) ys hx.1 hy)

pub NoNewline-append : (xs ys : Bytes) → NoNewline xs → NoNewline ys → NoNewline (xs ++ ys)
NoNewline-append [] ys hx hy = hy
NoNewline-append (x ∷ xs) ys hx hy = (hx.0, NoNewline-append xs ys hx.1 hy)

-- What does not end in a newline has none.
pub NoNewline-of_OneLine : (xs : Bytes) → OneLine xs → ends_line xs ≡ false → NoNewline xs
unfolding ends_line
NoNewline-of_OneLine [] h e = tt
NoNewline-of_OneLine (x ∷ []) h e = (ground arith, tt)
NoNewline-of_OneLine (x ∷ y ∷ xs) h e = (h.0, NoNewline-of_OneLine (y ∷ xs) h.1 e)

pub line_length-le : (xs : Bytes) → line_length xs ≤ length xs
unfolding line_length
line_length-le [] = omega arith
line_length-le (x ∷ xs) = ground (arith, line_length-le xs)

pub line_length-pos : (xs : Bytes) → 0 < length xs → 0 < line_length xs
unfolding line_length
line_length-pos [] h = elim h [ ]
line_length-pos (x ∷ xs) h = ground arith

-- Any run of bytes from the start that is no longer than the scan says is one line at most.
pub OneLine-take : (n : ℕ) (xs : Bytes) → n ≤ line_length xs → OneLine (take n xs)
unfolding line_length
OneLine-take zero xs h = tt
OneLine-take (suc n) [] h = tt
OneLine-take (suc zero) (x ∷ xs) h = tt
OneLine-take (suc (suc n)) (x ∷ []) h = tt
OneLine-take (suc (suc n)) (x ∷ y ∷ xs) h =
    (ground arith, OneLine-take (suc n) (y ∷ xs) (ground arith))

-- Two beginnings of one stream: the shorter is what the longer begins with.
pub take_common :
    (xs ys rest rest' : Bytes)
    → xs ++ rest ≡ ys ++ rest'
    → length xs ≤ length ys
    → xs ≡ take (length xs) ys
take_common [] ys rest rest' e h = refl
take_common (x ∷ xs) [] rest rest' e h = absurd (omega arith)
take_common (x ∷ xs) (y ∷ ys) rest rest' e h =
    let head : x ≡ y = cc in
    let tail : xs ++ rest ≡ ys ++ rest' = cc in
    rw head (ap (◌∷◌ y) (take_common xs ys rest rest' tail (omega arith)))
