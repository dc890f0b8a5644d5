-- ===== src/Amqp/Channel/Free.antt =====
-- lamqplib.c: the search of `connection:channel` for a channel that is free, against a plain one.
use lua_xlib.Amqp.Channel.{free_channel}
use lua_xlib.Base.{
  ℕ, Bool, List, Option, none, some, ◌∷◌, [], true, false, ◌≡◌, ◌*◌, ◌+◌, length, suc, zero, refl,
  arith, ap,
}

-- The first bit that is clear, counted from `first` on.
pub first_clear : ℕ → List Bool → Option ℕ
first_clear first [] = none
first_clear first (false ∷ bs) = some first
first_clear first (true ∷ bs) = first_clear (first + 1) bs

free_channel-first_clear_at :
    (m first : ℕ) (bs : List Bool)
    → length bs ≡ 8 * m
    → free_channel first bs ≡ first_clear first bs
unfolding free_channel first_clear
free_channel-first_clear_at zero first [] h = refl
free_channel-first_clear_at zero first (b ∷ bs) h = absurd (omega (arith, h))
free_channel-first_clear_at (suc m) first (false ∷ b1 ∷ b2 ∷ b3 ∷ b4 ∷ b5 ∷ b6 ∷ b7 ∷ rest) h =
    ap some (omega arith)
free_channel-first_clear_at (suc m) first (true ∷ false ∷ b2 ∷ b3 ∷ b4 ∷ b5 ∷ b6 ∷ b7 ∷ rest) h =
    ap some (omega arith)
free_channel-first_clear_at (suc m) first (true ∷ true ∷ false ∷ b3 ∷ b4 ∷ b5 ∷ b6 ∷ b7 ∷ rest) h =
    ap some (omega arith)
free_channel-first_clear_at (suc m) first (true ∷ true ∷ true ∷ false ∷ b4 ∷ b5 ∷ b6 ∷ b7 ∷ rest)
      h =
    ap some (omega arith)
free_channel-first_clear_at (suc m) first (true ∷ true ∷ true ∷ true ∷ false ∷ b5 ∷ b6 ∷ b7 ∷ rest)
      h =
    ap some (omega arith)
free_channel-first_clear_at (suc m) first
      (true ∷ true ∷ true ∷ true ∷ true ∷ false ∷ b6 ∷ b7 ∷ rest) h =
    ap some (omega arith)
free_channel-first_clear_at (suc m) first
      (true ∷ true ∷ true ∷ true ∷ true ∷ true ∷ false ∷ b7 ∷ rest) h =
    ap some (omega arith)
free_channel-first_clear_at (suc m) first
      (true ∷ true ∷ true ∷ true ∷ true ∷ true ∷ true ∷ false ∷ rest) h =
    ap some (omega arith)
free_channel-first_clear_at (suc m) first
      (true ∷ true ∷ true ∷ true ∷ true ∷ true ∷ true ∷ true ∷ rest) h =
    let e : first + 1 + 1 + 1 + 1 + 1 + 1 + 1 + 1 ≡ first + 8 = omega arith in
    rw e (free_channel-first_clear_at m (first + 8) rest (omega (arith, h)))
free_channel-first_clear_at (suc m) first [] h = absurd (omega (arith, h))
free_channel-first_clear_at (suc m) first (a ∷ []) h = absurd (omega (arith, h))
free_channel-first_clear_at (suc m) first (a ∷ b ∷ []) h = absurd (omega (arith, h))
free_channel-first_clear_at (suc m) first (a ∷ b ∷ c ∷ []) h = absurd (omega (arith, h))
free_channel-first_clear_at (suc m) first (a ∷ b ∷ c ∷ d ∷ []) h = absurd (omega (arith, h))
free_channel-first_clear_at (suc m) first (a ∷ b ∷ c ∷ d ∷ e ∷ []) h = absurd (omega (arith, h))
free_channel-first_clear_at (suc m) first (a ∷ b ∷ c ∷ d ∷ e ∷ f ∷ []) h = absurd (omega (arith, h))
free_channel-first_clear_at (suc m) first (a ∷ b ∷ c ∷ d ∷ e ∷ f ∷ g ∷ []) h =
    absurd (omega (arith, h))

-- On an array of whole bytes the search of `connection:channel`, byte by byte and then bit by bit, finds
-- what a plain search for the first clear bit finds, and runs out of the array where that finds
-- nothing.
pub free_channel-first_clear :
    (m : ℕ) (bs : List Bool) → length bs ≡ 8 * m → free_channel 0 bs ≡ first_clear 0 bs
free_channel-first_clear m bs h = free_channel-first_clear_at m 0 bs h
