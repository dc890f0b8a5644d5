-- ===== src/Socket/Io/Receiving.antt =====
-- lsocklib.c, `sockobj:recv`: what the results of the call stand for.
use lua_xlib.Socket.Io.{IoCalls, lsock_recv, received, max_bufsize, is_retryable}
use lua_xlib.Socket.Object.{SockObj, is_retryable}
use lua_xlib.Lua.{
  done≢failed, done-injective, Bytes, Reply, values, string, SysRet, done, failed, report_errmsg,
}
use lua_xlib.Base.Int.{ℤ, pos, pos_part}
use lua_xlib.Base.Words.{to_size}
use lua_xlib.Base.{
  ℕ, ◌≡◌, ◌≤◌, ◌⊎◌, length, ltb, ◌∷◌, [], arith, inl, inr, refl, leb, List, none, ◌++◌, ◌∙◌, ap,
  sym, append_assoc, Bool-cases, subst,
}

-- The bytes that a call returned; an error, or nothing yet, gives none.
abbrev pub string_of : Reply → Bytes
string_of (values (string bs ∷ [])) = bs
string_of _ = []

module _ {W : Type 0} (calls : IoCalls W) (stream : W → Bytes) where
  -- `recv` without flags writes a part of the stream's beginning that is no longer than it may be, and takes it out of
  -- the stream; if it fails, the stream stays.
  abbrev pub RecvLaws : Type 0
  RecvLaws =
      (fd : ℤ) (n : ℕ) (w : W)
      → let (ret, w') = calls.recv fd n (pos 0) w in
        ((bs : Bytes) × (ret ≡ done bs) × (length bs ≤ n) × (stream w ≡ bs ++ stream w'))
        ⊎ ((e : ℕ) × (ret ≡ failed e) × (stream w' ≡ stream w))

  module _ (strerror : ℕ → Bytes) where
    received-stream :
        (n : ℕ) (w : W) (a : SysRet Bytes × W)
        → ((bs : Bytes) × (a.0 ≡ done bs) × (length bs ≤ n) × (stream w ≡ bs ++ stream a.1))
          ⊎ ((e : ℕ) × (a.0 ≡ failed e) × (stream a.1 ≡ stream w))
        → let (r, w') = received strerror calls a in
          (stream w ≡ string_of r ++ stream w') × (length (string_of r) ≤ n)
    unfolding report_errmsg
    received-stream n w (failed e, w') (inl (bs, i, fit, d)) = elim (done≢failed (sym i)) [ ]
    received-stream n w (failed e, w') (inr (x, i, d)) = elim (Bool-cases (is_retryable e)) [
      | inl r ↦ rw r (sym d, omega arith)
      | inr r ↦ rw r (sym d, omega arith)
    ]
    received-stream n w (done [], w') (inl (bs, i, fit, d)) =
        (subst (λ x. stream w ≡ x ++ stream w') (sym (done-injective i)) d, omega arith)
    received-stream n w (done (c ∷ cs), w') (inl (bs, i, fit, d)) = (
      subst (λ x. stream w ≡ x ++ stream w') (sym (done-injective i)) d,
      subst (λ x. length x ≤ n) (sym (done-injective i)) fit,
    )
    received-stream n w (done bs, w') (inr (x, i, d)) = elim (done≢failed i) [ ]

    -- A program that calls `sockobj:recv` with each of the sizes in turn, and joins what it gets.
    pub collect : SockObj → List ℤ → W → Bytes × W
    collect o [] w = ([], w)
    collect o (z ∷ zs) w =
        let (r, w1) = lsock_recv strerror calls o z none w in
        let (rest, w2) = collect o zs w1 in (string_of r ++ rest, w2)

    recv-stream :
        RecvLaws
        → (o : SockObj) (z : ℤ) (w : W)
        → let (r, w') = lsock_recv strerror calls o z none w in
          (stream w ≡ string_of r ++ stream w') × (length (string_of r) ≤ max_bufsize)
    unfolding lsock_recv
    recv-stream laws o z w = elim (Bool-cases (ltb 0 (pos_part o.sockfd))) [
      | inr e ↦ rw e (refl, omega arith)
      | inl e ↦ elim (Bool-cases (leb (to_size z) max_bufsize)) [
        | inr f ↦ rw (e, f) (refl, omega arith)
        | inl f ↦
            let got =
              received-stream (to_size z) w (calls.recv o.sockfd (to_size z) (pos 0) w)
                (laws o.sockfd (to_size z) w) in
            rw (e, f) (got.0, ground (arith, got.1))
      ]
    ]

    -- A program of calls of `sockobj:recv` without flags, on a socket that is open or not and with whatever
    -- sizes: the strings that it gets, joined, and what is left in the stream make up the stream as it was. No
    -- byte is lost, doubled or moved, and errors in between do not change that.
    pub collect-stream :
        RecvLaws
        → (o : SockObj) (zs : List ℤ) (w : W)
        → let (bs, w') = collect o zs w in stream w ≡ bs ++ stream w'
    unfolding collect
    collect-stream laws o [] w = refl
    collect-stream laws o (z ∷ zs) w =
        let (r, w1) = lsock_recv strerror calls o z none w in
        let (rest, w2) = collect o zs w1 in
        (recv-stream laws o z w).0
        ∙ ap (λ x. string_of r ++ x) (collect-stream laws o zs w1)
        ∙ sym (append_assoc (string_of r) rest (stream w2))
