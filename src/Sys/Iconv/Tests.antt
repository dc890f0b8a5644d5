-- ===== src/Sys/Iconv/Tests.antt =====
-- A converter for `sys.iconv` that takes a byte at a time, writes it twice and refuses the byte 255.
use lua_xlib.Lua.{Bytes, Reply, SysRet, done, failed, text, overrun, values, string}
use lua_xlib.Sys.Iconv.{Converted, IconvCalls, failure_of, lsys_iconv, convert}
use lua_xlib.Sys.Iconv.Conversion.{IconvLaws, prepend, lsys_iconv_lem, pieces}
use lua_xlib.Base.{
  ℕ, Bool, [], none, refl, ◌∷◌, ◌≡◌, replicate, some, ◌<◌, ◌==◌, ap, drop, length, none≢some, true,
  arith, false, some-injective, sym, ◌⊎◌, ◌≤◌,
}

abbrev strerror : ℕ → Bytes
strerror e = e ∷ []

abbrev doubled : Bool → ℕ → Converted
doubled true b = record { taken = 0; output = []; error = some 84 }
doubled false b = record { taken = 1; output = b ∷ b ∷ []; error = some 7 }

abbrev double : Bytes → Converted
double [] = record { taken = 0; output = []; error = none }
double (b ∷ bs) = doubled (b == 255) b

abbrev calls : IconvCalls (Unit {0})
calls = record {
  iconv_open = λ tocode fromcode w. (done 3, w);
  iconv = λ h s room w. (double s, w);
  iconv_close = λ h w. w;
}

abbrev meaning_by : Bool → ℕ → SysRet Bytes → SysRet Bytes
meaning_by true b m = failed 84
meaning_by false b m = prepend (b ∷ b ∷ []) m

abbrev meaning : Bytes → SysRet Bytes
meaning [] = done []
meaning (b ∷ bs) = meaning_by (b == 255) b (meaning bs)

takes-by : (x : Bool) (b : ℕ) → failure_of (doubled x b) ≡ none → 0 < (doubled x b).taken
takes-by true b e = elim (none≢some refl (sym e)) [ ]
takes-by false b e = omega arith

converts-by :
    (x : Bool) (b : ℕ) (bs : Bytes)
    → failure_of (doubled x b) ≡ none
    → meaning_by x b (meaning bs)
      ≡ prepend (doubled x b).output (meaning (drop (doubled x b).taken (b ∷ bs)))
converts-by true b bs e = elim (none≢some refl (sym e)) [ ]
converts-by false b bs e = refl

refuses-by :
    (x : Bool) (b e : ℕ) (m : SysRet Bytes)
    → failure_of (doubled x b) ≡ some e
    → meaning_by x b m ≡ failed e
refuses-by true b e m is = ap failed (some-injective is)
refuses-by false b e m is = elim (none≢some refl is) [ ]

takes : (s : Bytes) → failure_of (double s) ≡ none → 0 < length s → 0 < (double s).taken
takes [] e p = absurd (omega (arith, p))
takes (b ∷ bs) e p = takes-by (b == 255) b e

converts :
    (s : Bytes)
    → failure_of (double s) ≡ none
    → meaning s ≡ prepend (double s).output (meaning (drop (double s).taken s))
converts [] e = refl
converts (b ∷ bs) e = converts-by (b == 255) b bs e

refuses : (e : ℕ) (s : Bytes) → failure_of (double s) ≡ some e → meaning s ≡ failed e
refuses e [] is = elim (none≢some refl is) [ ]
refuses e (b ∷ bs) is = refuses-by (b == 255) b e (meaning bs) is

laws : IconvLaws calls (λ w s. meaning s)
laws = record {
  empty = λ w. refl;
  takes = λ h s w e p. takes s e p;
  converts = λ h s w e. converts s e;
  refuses = λ h e s w is. refuses e s is;
}

lsys_iconv_lem_example :
    (reply : Reply) × (w : Unit {0}) × (lsys_iconv strerror calls 2
        (97 ∷ 98 ∷ [])
        (text "A")
        (some (text "B"))
        tt
      ≡ some (reply, w))
    × (((20 < 2) × (reply ≡ overrun))
        ⊎ ((2 ≤ 20) × (reply ≡ values (string (97 ∷ 97 ∷ 98 ∷ 98 ∷ []) ∷ []))))
unfolding pieces
lsys_iconv_lem_example =
    lsys_iconv_lem strerror calls (λ w s. meaning s) laws 2 3 (97 ∷ 98 ∷ []) (text "A") (text "B")
      tt tt refl (omega arith)

-- One byte more than Lua has room for.
long-overrun :
    lsys_iconv strerror calls 30 (replicate 21 65) (text "A") none tt ≡ some (overrun, tt)
unfolding lsys_iconv convert
long-overrun = refl
