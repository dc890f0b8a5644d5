-- ===== src/Socket/Io/Tests.antt =====
-- Runs of the socket methods of lsocklib.c: a system that holds the bytes of a stream.
use lua_xlib.Socket.Io.{IoCalls, lsock_close, lsock_closed, raise_closed}
use lua_xlib.Socket.Io.Closing.{lsock_close_lem, Call, call}
use lua_xlib.Socket.Io.Receiving.{RecvLaws, collect, collect-stream}
use lua_xlib.Socket.Object.{SockObj}
use lua_xlib.Lua.{Bytes, done, values, boolean}
use lua_xlib.Base.Int.{ℤ, pos, negsuc}
use lua_xlib.Base.{
  ℕ, List, ◌∷◌, [], ◌++◌, ◌≡◌, refl, inl, take, drop, arith, length, length-take, sym,
  take-append-drop, true,
}

abbrev strerror : ℕ → Bytes
strerror e = e ∷ []

abbrev calls : IoCalls Bytes
calls = record {
  close = λ fd w. [];
  listen = λ fd backlog w. (done tt, w);
  shutdown = λ fd how w. (done tt, w);
  get_flags = λ fd w. (done 0, w);
  set_flags = λ fd flags w. w;
  recv = λ fd n flags w. (done (take n w), drop n w);
  send = λ fd bytes flags w. (done (length bytes), w);
}

calls-RecvLaws : RecvLaws calls (λ w. w)
calls-RecvLaws fd n w =
    inl (take n w, refl, omega (arith, length-take n w), sym (take-append-drop n w))

abbrev sock : SockObj
sock = record { sockfd = pos 4; family = 2; type = pos 1; proto = pos 0 }

lsock_close_lem_example :
    let (o1, w1) = lsock_close strerror calls sock (1 ∷ []) in
    (w1 ≡ [])
    × (lsock_closed o1 ≡ values (boolean true ∷ []))
    × (lsock_close strerror calls o1 w1 ≡ (o1, w1))
    × ((c : Call) (w2 : Bytes) → call strerror calls c o1 w2 ≡ raise_closed strerror calls w2)
lsock_close_lem_example = lsock_close_lem strerror calls sock (1 ∷ []) (omega arith)

-- A size that is refused, two that are not, and the end of the stream.
abbrev sizes : List ℤ
sizes = negsuc 0 ∷ pos 2 ∷ pos 65536 ∷ pos 5 ∷ []

collect-stream_example :
    let (bs, w') = collect calls (λ w. w) strerror sock sizes (7 ∷ 8 ∷ 9 ∷ []) in
    7 ∷ 8 ∷ 9 ∷ [] ≡ bs ++ w'
collect-stream_example =
    collect-stream calls (λ w. w) strerror calls-RecvLaws sock sizes (7 ∷ 8 ∷ 9 ∷ [])
