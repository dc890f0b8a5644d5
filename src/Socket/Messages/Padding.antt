-- ===== src/Socket/Messages/Padding.antt =====
-- lsocklib.c, `sockobj:recvmsg`: the string that it returns is as long as the buffer.
use lua_xlib.Socket.Names.Pushed.{push_address_lem}
use lua_xlib.Base.Words.{to_size, to_int, add_size}
use lua_xlib.Base.Int.{pos_part, pos}
use lua_xlib.Socket.Object.{SockObj}
use lua_xlib.Socket.Names.{NameCalls}
use lua_xlib.Lua.{Bytes, LuaValue, done, values, string, nil, integer, Reply}
use lua_xlib.Base.{
  ℕ, length, ◌≤◌, ◌≡◌, ◌+◌, ◌<◌, take, ◌++◌, ◌^◌, drop, ◌-◌, some, none, ◌∷◌, [], arith, ltb,
  length-take, true, length-append, ◌==◌, false, length-drop, suc, ap, refl, zero,
}
use lua_xlib.Socket.Messages.{
  Message, MessageCalls, lsock_recvmsg, ℕ, Bytes, NameCalls, SockObj, pos_part, to_size,
}
use lua_xlib.Socket.Address.{lsock_pushaddr}

take-take : (n : ℕ) (xs ys : Bytes) → length xs ≤ n → take (length xs) (take n (xs ++ ys)) ≡ xs
take-take n [] ys h = refl
take-take zero (x ∷ xs) ys h = absurd (omega (arith, h))
take-take (suc n) (x ∷ xs) ys h = ap (◌∷◌ x) (take-take n xs ys (omega (arith, h)))

block_lem :
    (n : ℕ) (bs heap : Bytes)
    → length bs ≤ n
    → length heap ≡ n + 1
    → (length (take n (bs ++ drop (length bs) heap)) ≡ n)
      × (take (length bs) (take n (bs ++ drop (length bs) heap)) ≡ bs)
block_lem n bs heap h k = (
  omega (
    arith,
    h,
    k,
    length-take n (bs ++ drop (length bs) heap),
    length-append bs (drop (length bs) heap),
    length-drop (length bs) heap,
  ),
  take-take n bs (drop (length bs) heap) h,
)

module _ {W : Type 0} (strerror : ℕ → Bytes) (names : NameCalls W) (calls : MessageCalls W) where
  -- Where `recvmsg` gives at least one byte, at most as many as the buffer of `n` bytes takes, and an address
  -- that can be pushed, `sockobj:recvmsg(n)` without room for control data returns a string of exactly
  -- `n` bytes, whose first bytes are those received and whose others are what stood in the memory.
  pub lsock_recvmsg_lem :
      (o : SockObj) (n : ℕ) (m : Message) (v : LuaValue) (w w' : W)
      → 0 < pos_part o.sockfd
      → n < 2 ^ 31 - 1
      → 0 < length m.bytes
      → length m.bytes ≤ n
      → ((k : ℕ) → length (calls.malloc k w) ≡ k)
      → lsock_pushaddr names.net m.msg_name ≡ some v
      → calls.recvmsg o.sockfd n (pos 0) (pos 0) w ≡ (done m, w')
      → let s = take n (m.bytes ++ drop (length m.bytes) (calls.malloc (n + 1) w)) in
        (lsock_recvmsg strerror names calls o (pos n) none none w
          ≡ (values (string s ∷ nil ∷ integer m.msg_flags ∷ v ∷ []), w'))
        × (length s ≡ n)
        × (take (length m.bytes) s ≡ m.bytes)
  unfolding lsock_recvmsg
  lsock_recvmsg_lem o n m v w w' p b h k sized named got =
      let alive : ltb 0 (pos_part o.sockfd) ≡ true = ground arith in
      let b0 : (length m.bytes == 0) ≡ false = ground arith in
      let z : to_size (to_int (pos n)) ≡ n = ground arith in
      let a : add_size n 1 ≡ n + 1 = omega (arith, h) in
      let l = block_lem n m.bytes (calls.malloc (n + 1) w) k (sized (n + 1)) in
      (
        (simp (alive, z, got, b0, a)
            (ap (λ (r : Reply). (r, w'))
              (push_address_lem strerror names
                (string (take n (m.bytes ++ drop (length m.bytes) (calls.malloc (n + 1) w)))
                  ∷ nil
                  ∷ integer m.msg_flags
                  ∷ [])
                m.msg_name v named))),
        l.0,
        l.1,
      )
