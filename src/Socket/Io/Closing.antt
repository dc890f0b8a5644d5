-- ===== src/Socket/Io/Closing.antt =====
-- lsocklib.c: what is left of a socket once it has been closed.
use lua_xlib.Socket.Io.{
  IoCalls, lsock_close, lsock_closed, lsock_listen, lsock_shutdown, lsock_isblocking,
  lsock_setblocking, lsock_recv, lsock_send, raise_closed,
}
use lua_xlib.Socket.Object.{SockObj}
use lua_xlib.Lua.{Bytes, Reply, values, boolean}
use lua_xlib.Base.Int.{ℤ, pos_part, negsuc, eq_ℤ_refl}
use lua_xlib.Base.{ℕ, Bool, Option, ◌≡◌, ◌<◌, true, refl, ◌∷◌, [], lt→ltb, ap}

-- A call of a method that needs an open socket, with its arguments.
pub data Call : Type 0 where
  listens : Option ℤ → Call
  shuts_down : ℤ → Call
  asks_blocking : Call
  sets_blocking : Bool → Call
  receives : ℤ → Option ℤ → Call
  sends : Bytes → Option ℤ → Call

module _ {W : Type 0} (strerror : ℕ → Bytes) (calls : IoCalls W) where
  pub call : Call → SockObj → W → Reply × W
  call (listens backlog) o = lsock_listen strerror calls o backlog
  call (shuts_down how) o = lsock_shutdown strerror calls o how
  call asks_blocking o = lsock_isblocking strerror calls o
  call (sets_blocking b) o = lsock_setblocking strerror calls o b
  call (receives bufsize flags) o = lsock_recv strerror calls o bufsize flags
  call (sends bytes flags) o = lsock_send strerror calls o bytes flags

  closed_call :
      (c : Call) (o : SockObj) (w : W)
      → pos_part o.sockfd ≡ 0
      → call c o w ≡ raise_closed strerror calls w
  unfolding call lsock_listen lsock_shutdown lsock_isblocking lsock_setblocking lsock_recv
      lsock_send
  closed_call (listens backlog) o w h = rw h refl
  closed_call (shuts_down how) o w h = rw h refl
  closed_call asks_blocking o w h = rw h refl
  closed_call (sets_blocking b) o w h = rw h refl
  closed_call (receives bufsize flags) o w h = rw h refl
  closed_call (sends bytes flags) o w h = rw h refl

  -- `sockobj:close` on an open socket closes its descriptor. From then on `sockobj:closed` is true,
  -- closing it again does nothing, and listen, shutdown, isblocking, setblocking, recv and send raise
  -- an error before they call the system.
  pub lsock_close_lem :
      (o : SockObj) (w : W)
      → 0 < pos_part o.sockfd
      → let (o1, w1) = lsock_close strerror calls o w in
        (w1 ≡ calls.close o.sockfd w)
        × (lsock_closed o1 ≡ values (boolean true ∷ []))
        × (lsock_close strerror calls o1 w1 ≡ (o1, w1))
        × ((c : Call) (w2 : W) → call c o1 w2 ≡ raise_closed strerror calls w2)
  unfolding lsock_close lsock_closed
  lsock_close_lem o w h = rw (lt→ltb 0 (pos_part o.sockfd) h) (
    refl,
    ap (λ b. values (boolean b ∷ [])) (eq_ℤ_refl (negsuc 0)),
    refl,
    λ c w2. closed_call c (record o { sockfd = negsuc 0 }) w2 refl,
  )
