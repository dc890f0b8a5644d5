-- ===== src/Fs/Readlink.antt =====
-- lfslib.c, `fs.readlink`: what it returns depends on what stood in its buffer.
use lua_xlib.Base.{
  ℕ, ◌<◌, length, ◌∷◌, ◌≡◌, drop, ◌++◌, ◌==◌, [], ap, false, get_elem?, refl, some, arith, ◌↔◌, suc,
  zero, append-nil, ◌≢◌, Bool-cases, inl, inr, if◌then◌else◌, length-append, ==_iff, subst, sym,
  some-injective,
}
use lua_xlib.Lua.{Bytes, c_string, values, string, Reply, done, overrun}
use lua_xlib.Fs.{
  FsCalls, lfs_readlink, is_terminated, pushed_buffer, path_max, Bytes, ℕ, c_string, values, string,
  Reply, done, overrun,
}

-- The parts of a text that has no zero, behind which other bytes stand.
c_string-tail :
    (b : ℕ) (bs : Bytes) → c_string (b ∷ bs) ≡ b ∷ bs → ((b == 0) ≡ false) × (c_string bs ≡ bs)
c_string-tail b bs h = ground (arith, h)

c_string-append : (t rest : Bytes) → c_string t ≡ t → c_string (t ++ rest) ≡ t ++ c_string rest
c_string-append [] rest h = refl
c_string-append (b ∷ bs) rest h =
    let (n, p) = c_string-tail b bs h in rw n (ap (◌∷◌ b) (c_string-append bs rest p))

is_terminated-append :
    (t rest : Bytes) → c_string t ≡ t → is_terminated (t ++ rest) ≡ is_terminated rest
is_terminated-append [] rest h = refl
is_terminated-append (b ∷ bs) rest h =
    let (n, p) = c_string-tail b bs h in rw n (is_terminated-append bs rest p)

-- The rest of the buffer begins with the byte at the place.
drop-get_elem? :
    (n : ℕ) (bs : Bytes)
    → n < length bs
    → (b : ℕ) × (cs : Bytes) × (drop n bs ≡ b ∷ cs) × (get_elem? bs n ≡ some b)
drop-get_elem? n [] h = absurd (omega (arith, h))
drop-get_elem? zero (b ∷ bs) h = (b, bs, refl, refl)
drop-get_elem? (suc n) (b ∷ bs) h = drop-get_elem? n bs (omega (arith, h))

-- The length of a string that is returned, and one more.
abbrev measure : Reply → ℕ
measure (values (string bs ∷ [])) = suc (length bs)
measure _ = 0

pushed_buffer-zero :
    (t cs : Bytes) → c_string t ≡ t → pushed_buffer (t ++ (0 ∷ cs)) ≡ values (string t ∷ [])
pushed_buffer-zero t cs h =
    rw (pushed_buffer, is_terminated-append t (0 ∷ cs) h, c_string-append t (0 ∷ cs) h)
      (ap (λ (x : Bytes). values (string x ∷ [])) (append-nil t))

pushed_buffer-nonzero :
    (t cs : Bytes) (b : ℕ)
    → c_string t ≡ t
    → (b == 0) ≡ false
    → pushed_buffer (t ++ (b ∷ cs))
      ≡ (if is_terminated cs then values (string (t ++ (b ∷ c_string cs)) ∷ []) else overrun)
pushed_buffer-nonzero t cs b h n =
    rw (pushed_buffer, is_terminated-append t (b ∷ cs) h, c_string-append t (b ∷ cs) h, n) refl

measure-pushed_buffer :
    (t cs : Bytes) (b : ℕ)
    → c_string t ≡ t
    → (b == 0) ≡ false
    → measure (pushed_buffer (t ++ (b ∷ cs))) ≢ suc (length t)
measure-pushed_buffer t cs b h n e =
    let p = pushed_buffer-nonzero t cs b h n in
    elim (Bool-cases (is_terminated cs)) [
      | inl y ↦
          let m : measure (pushed_buffer (t ++ (b ∷ cs))) ≡ suc (length (t ++ (b ∷ c_string cs))) =
            rw (p, y) refl in
          omega (arith, e, m, length-append t (b ∷ c_string cs))
      | inr y ↦
          let m : measure (pushed_buffer (t ++ (b ∷ cs))) ≡ 0 = rw (p, y) refl in
          omega (arith, e, m)
    ]

pushed_buffer_iff :
    (t cs : Bytes) (b : ℕ)
    → c_string t ≡ t
    → (pushed_buffer (t ++ (b ∷ cs)) ≡ values (string t ∷ [])) ↔ (some b ≡ some 0)
pushed_buffer_iff t cs b h = (
  λ (e : pushed_buffer (t ++ (b ∷ cs)) ≡ values (string t ∷ [])). elim (Bool-cases (b == 0)) [
    | inl z ↦ ap some ((==_iff b 0).0 z)
    | inr n ↦ absurd (measure-pushed_buffer t cs b h n (ap measure e))
  ],
  λ (e : some b ≡ some 0).
      subst (λ (x : ℕ). pushed_buffer (t ++ (x ∷ cs)) ≡ values (string t ∷ []))
        (sym (some-injective e)) (pushed_buffer-zero t cs h),
)

module _ {W : Type 0} (strerror : ℕ → Bytes) (calls : FsCalls W) where
  -- For a link whose target is shorter than the buffer of PATH_MAX bytes and holds no zero, `fs.readlink` returns
  -- the target exactly where the byte of the buffer behind it happened to be zero before; `readlink` does
  -- not write one.
  pub lfs_readlink_lem :
      (path target : Bytes) (w w' : W)
      → c_string target ≡ target
      → length target < path_max
      → length (calls.stack w) ≡ path_max
      → calls.readlink (c_string path) path_max w ≡ (done target, w')
      → ((lfs_readlink strerror calls path w).0 ≡ values (string target ∷ []))
        ↔ (get_elem? (calls.stack w) (length target) ≡ some 0)
  unfolding lfs_readlink
  lfs_readlink_lem path target w w' h short size got =
      let (b, cs, d, g) =
        drop-get_elem? (length target) (calls.stack w) (omega (arith, short, size)) in
      rw (got, d, g) (pushed_buffer_iff target cs b h)
