-- ===== src/Socket/Readline/Tests.antt =====
-- Runs and instances of the model of `sockobj:readline` of lsocklib.c.
use lua_xlib.Socket.Readline.Stream.{lsock_readline_lem, Replies}
use lua_xlib.Socket.Deadline.{time_add, time_left}
use lua_xlib.Socket.Readline.Lines.{OneLine}
use lua_xlib.Socket.Readline.Spin.{lsock_readline-none}
use lua_xlib.Constants.{eagain}
use lua_xlib.Base.Int.{pos}
use lua_xlib.Lua.{Bytes, values, string, Reply}
use lua_xlib.Socket.Object.{SockCalls, SockObj, Received, closed, got, is_retryable}
use lua_xlib.Socket.Readline.Laws.{StreamLaws}
use lua_xlib.Socket.Readline.{
  lsock_readline, loop, pos, eagain, round, accept, retry, finish, ends_line, line_length, time_add,
}
use lua_xlib.Base.{
  ℕ, Bool, if◌then◌else◌, arith, false, none, true, ◌==◌, ◌∷◌, ◌≡◌, [], ◌-◌, refl, some, suc, ◌++◌,
  ◌<◌, length, zero, ◌≤◌,
}

abbrev strerror : ℕ → Bytes
strerror e = e ∷ []

-- A peer that sends the bytes of a list, one to a packet, and then closes; `errno` says EAGAIN for as
-- many calls as the number says.
abbrev Peer : Type 0
Peer = Bytes × ℕ

peer_recv : ℕ → Bool → Peer → Received × Peer
peer_recv zero peek (bs, t) = (closed, (bs, t - 1))
peer_recv (suc n) peek ([], t) = (closed, ([], t - 1))
peer_recv (suc n) true (c ∷ cs, t) = (got (c ∷ []), (c ∷ cs, t))
peer_recv (suc n) false (c ∷ cs, t) = (got (c ∷ []), (cs, t))

peer_errno : Peer → ℕ
peer_errno (bs, t) = if t == 0 then 0 else eagain

abbrev peer : SockCalls Peer
peer = record {
  recv = peer_recv;
  poll = λ t w. (pos 1, w);
  gettimeofday = λ w. (record { sec = 5; usec = 0 }, w);
  errno = peer_errno;
}

peer_peeks :
    (n : ℕ) (w w' : Peer) (bs : Bytes)
    → peer_recv n true w ≡ (got bs, w')
    → (rest : Bytes) × (w.0 ≡ bs ++ rest)
      × (w'.0 ≡ w.0)
      × (length bs ≤ n)
      × (0 < length bs)
      × (w'.1 ≤ w.1)
unfolding peer_recv
peer_peeks zero w w' bs e = cc
peer_peeks (suc n) ([], t) w' bs e = cc
peer_peeks (suc n) (c ∷ cs, t) w' bs e =
    (cs, ground arith, ground arith, ground arith, ground arith, ground arith)

peer_takes :
    (n : ℕ) (w w' : Peer) (bs : Bytes)
    → peer_recv n false w ≡ (got bs, w')
    → (w.0 ≡ bs ++ w'.0) × (length bs ≤ n) × (0 < length bs) × (w'.1 ≤ w.1)
unfolding peer_recv
peer_takes zero w w' bs e = cc
peer_takes (suc n) ([], t) w' bs e = cc
peer_takes (suc n) (c ∷ cs, t) w' bs e = ground arith

peer_ends :
    (n : ℕ) (peek : Bool) (w w' : Peer)
    → peer_recv n peek w ≡ (closed, w')
    → (w'.0 ≡ w.0) × (is_retryable (peer_errno w') ≡ true → w'.1 < w.1)
unfolding peer_recv peer_errno
peer_ends zero peek (bs, t) w' e = (ground arith, λ r. ground arith)
peer_ends (suc n) peek ([], t) w' e = (ground arith, λ r. ground arith)
peer_ends (suc n) true (c ∷ cs, t) w' e = cc
peer_ends (suc n) false (c ∷ cs, t) w' e = cc

peer_fails :
    (n : ℕ) (peek : Bool) (w w' : Peer)
    → peer_recv n peek w ≡ (Received.failed, w')
    → (w'.0 ≡ w.0) × (is_retryable (peer_errno w') ≡ true → w'.1 < w.1)
unfolding peer_recv
peer_fails zero peek w w' e = cc
peer_fails (suc n) peek ([], t) w' e = cc
peer_fails (suc n) true (c ∷ cs, t) w' e = cc
peer_fails (suc n) false (c ∷ cs, t) w' e = cc

peer-StreamLaws : StreamLaws peer (λ w. w.0) (λ w. w.1)
peer-StreamLaws = record {
  peeks = peer_peeks;
  takes = peer_takes;
  ends = peer_ends;
  fails = peer_fails;
  polls = λ t w. (refl, omega arith);
  times = λ w. (refl, omega arith);
}

abbrev socket : SockObj
socket = record { sockfd = pos 4; family = 2; type = pos 1; proto = pos 0 }

reads_a_line :
    lsock_readline peer strerror 5 socket none (pos 100) (72 ∷ 105 ∷ 10 ∷ 33 ∷ [], 0)
    ≡ some (values (string (72 ∷ 105 ∷ 10 ∷ []) ∷ []), (33 ∷ [], 0))
unfolding lsock_readline loop round accept retry finish ends_line line_length peer_recv peer_errno
    time_add time_left
reads_a_line = refl

lsock_readline_lem_example :
    (line : Bytes) × (r : Reply) × (w' : Peer) × (lsock_readline peer strerror 8 socket
        (some (pos 3))
        (pos 100)
        (72 ∷ 105 ∷ 33 ∷ 10 ∷ [], 2)
      ≡ some (r, w'))
    × (72 ∷ 105 ∷ 33 ∷ 10 ∷ [] ≡ line ++ w'.0)
    × OneLine line
    × (length line ≤ 3)
    × Replies r line
lsock_readline_lem_example =
    lsock_readline_lem peer (λ w. w.0) (λ w. w.1) peer-StreamLaws strerror 8 socket (some (pos 3))
      (pos 100) (72 ∷ 105 ∷ 33 ∷ 10 ∷ [], 2) (omega arith) (omega arith)

-- A peer that has closed, behind an `errno` of EAGAIN.
abbrev gone : SockCalls (Unit {0})
gone = record {
  recv = λ n peek w. (closed, w);
  poll = λ t w. (pos 1, w);
  gettimeofday = λ w. (record { sec = 5; usec = 0 }, w);
  errno = λ w. eagain;
}

lsock_readline-none_example : lsock_readline gone strerror 1000 socket none (pos 100) tt ≡ none
lsock_readline-none_example =
    lsock_readline-none gone (λ n peek w. refl) (λ w. refl) (λ t w. refl) strerror 1000 socket none
      (pos 100) tt (omega arith)
