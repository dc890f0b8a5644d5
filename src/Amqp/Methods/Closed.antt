-- ===== src/Amqp/Methods/Closed.antt =====
-- lamqplib.c, `channel:...`: what the methods do on a connection that is of no more use and on a channel
-- that is closed, and which failures of a request lead there.
use lua_xlib.Lua.{Bytes, c_string, text}
use lua_xlib.Amqp.Options.{flag, Options, ok}
use lua_xlib.Amqp.Channel.Checks.{
  checked-bad, with_channel-closed, good-state, with_channel-usable, is_good-broken,
}
use lua_xlib.Amqp.Frame.{Request, Answer, basic_get}
use mathlib.Core.Bool.{false≢true}
use lua_xlib.Amqp.Methods.Calls.{Call, call_method, call_method-P}
use lua_xlib.Amqp.Methods.{
  Method, Bytes, ch_basic_get, flag, get_settled, Options, c_string, text, ok,
}
use lua_xlib.Amqp.Channel.{is_usable, perform, perform_post, channel_closed, cn_channel, settle}
use lua_xlib.Base.Int.{ℤ, negsuc, pos_part}
use lua_xlib.Amqp.Connection.{
  Channel, RpcReply, AmqpCalls, library_exception, is_fatal, Session, server_exception,
  connection_close, is_good, disconnected, cn_good, check_rpc_reply, check_status, normal,
  channel_close, other_method, response_none,
}
use lua_xlib.Amqp.Lua.{Conversions, Reply, values, boolean}
use lua_xlib.Base.{ℕ, Bool, Option, ◌≡◌, some, false, true, ltb, refl, ◌∙◌, ◌∷◌, [], none, ap}

-- The answers after which `check_rpc_reply` gives the connection up.
abbrev pub is_lost : RpcReply → Bool
is_lost (library_exception e) = is_fatal e
is_lost (server_exception (connection_close code msg)) = true
is_lost _ = false

module _ {W : Type 0} (conv : Conversions) (calls : AmqpCalls W) where
  abbrev Refuses : Method conv calls → Type 0
  Refuses m =
      (ch : Channel) (s : Session W) → is_good s.conn ≡ false → m ch s ≡ (disconnected, ch, s)

  -- On a connection that was closed or given up every method of every channel returns nil with a
  -- message, and calls nothing.
  pub bad_connection_lem :
      (c : Call) (ch : Channel) (s : Session W)
      → is_good s.conn ≡ false
      → call_method conv calls c ch s ≡ (disconnected, ch, s)
  unfolding perform perform_post
  bad_connection_lem = call_method-P conv calls Refuses (record {
    performs = λ f r finish ch s bad. checked-bad conv calls s _ _ bad;
    posts = λ p ch s bad. checked-bad conv calls s _ _ bad;
    refuses = λ e ch s bad. checked-bad conv calls s _ _ bad;
    gets = λ r ch s bad. checked-bad conv calls s _ _ bad;
  })

  abbrev Shuts : Method conv calls → Type 0
  Shuts m =
      (ch : Channel) (s : Session W)
      → is_good s.conn ≡ true
      → is_usable ch s.conn ≡ some false
      → m ch s ≡ (channel_closed, ch, s)

  -- On a good connection every method returns nil with a message for a channel object that is closed,
  -- and calls nothing.
  pub closed_channel_lem :
      (c : Call) (ch : Channel) (s : Session W)
      → is_good s.conn ≡ true
      → is_usable ch s.conn ≡ some false
      → call_method conv calls c ch s ≡ (channel_closed, ch, s)
  unfolding perform perform_post
  closed_channel_lem = call_method-P conv calls Shuts (record {
    performs = λ f r finish ch s good shut. with_channel-closed conv calls ch s _ good shut;
    posts = λ p ch s good shut. with_channel-closed conv calls ch s _ good shut;
    refuses = λ e ch s good shut. with_channel-closed conv calls ch s _ good shut;
    gets = λ r ch s good shut. with_channel-closed conv calls ch s _ good shut;
  })

  pub perform-usable :
      (f : ℤ) (r : Request) (finish : Answer → Reply) (ch : Channel) (s : Session W) (h : ℕ)
      → s.state ≡ some h
      → is_good s.conn ≡ true
      → is_usable ch s.conn ≡ some true
      → perform conv calls f r finish ch s
        ≡ settle conv calls f finish
            (calls.request h ch.channel_id r s.system).0
            ch
            (record s { system = (calls.request h ch.channel_id r s.system).1 })
  unfolding perform
  perform-usable f r finish ch s h e good usable =
      let (i, e', up) = good-state s.conn good in
      with_channel-usable conv calls ch s
        (λ j.
          let (reply, w) = calls.request j ch.channel_id r s.system in
          settle conv calls f finish reply ch (record s { system = w }))
        h e up usable

  -- The requests of the methods that wait for an answer: one that goes through `perform`, and that of
  -- basic_get, with the `no_ack` that its options give.
  pub data Asking : Type 0 where
    performing : ℤ → Request → (Answer → Reply) → Asking
    getting : (queue : Bytes) (t : Options) (no_ack : ℤ) → Asking

  abbrev pub IsAsking : Asking → Type 0
  IsAsking (performing f r finish) = Unit {0}
  IsAsking (getting queue t no_ack) = flag conv t (text "no_ack") ≡ ok no_ack

  abbrev pub ask : Asking → Method conv calls
  ask (performing f r finish) = perform conv calls f r finish
  ask (getting queue t no_ack) = ch_basic_get conv calls queue t

  abbrev pub asked : Asking → Request
  asked (performing f r finish) = r
  asked (getting queue t no_ack) = basic_get (c_string queue) no_ack

  abbrev pub flag_of : Asking → ℤ
  flag_of (performing f r finish) = f
  flag_of (getting queue t no_ack) = negsuc 0

  abbrev finish_of : Asking → Answer → Reply
  finish_of (performing f r finish) = finish
  finish_of (getting queue t no_ack) = λ a. values []

  abbrev pub IsFailure : RpcReply → Type 0
  IsFailure (normal a) = ⊥
  IsFailure r = Unit {0}

  -- The failing path of basic_get is that of the others.
  get_settled-settle :
      (h : ℕ) (r : RpcReply) (ch : Channel) (s : Session W)
      → IsFailure r
      → get_settled conv calls h r ch s ≡ settle conv calls (negsuc 0) (λ a. values []) r ch s
  get_settled-settle h (normal a) ch s down = elim down [ ]
  get_settled-settle h response_none ch s down = refl
  get_settled-settle h (library_exception e) ch s down = refl
  get_settled-settle h (server_exception m) ch s down = refl

  pub ask-usable :
      (q : Asking) (ch : Channel) (s : Session W) (h : ℕ)
      → IsAsking q
      → s.state ≡ some h
      → is_good s.conn ≡ true
      → is_usable ch s.conn ≡ some true
      → IsFailure (calls.request h ch.channel_id (asked q) s.system).0
      → ask q ch s
        ≡ settle conv calls
            (flag_of q)
            (finish_of q)
            (calls.request h ch.channel_id (asked q) s.system).0
            ch
            (record s { system = (calls.request h ch.channel_id (asked q) s.system).1 })
  unfolding ch_basic_get
  ask-usable (performing f r finish) ch s h is e good usable down =
      perform-usable f r finish ch s h e good usable
  ask-usable (getting queue t no_ack) ch s h is e good usable down =
      let (i, e', up) = good-state s.conn good in
      rw is (
        with_channel-usable conv calls ch s
          (λ j.
            let (r, w) =
              calls.request j ch.channel_id (basic_get (c_string queue) no_ack) s.system in
            get_settled conv calls j r ch (record s { system = w }))
          h e up usable
        ∙ get_settled-settle h _ ch _ down)

  -- What `assert_rpc_reply` does with an answer after which the connection is given up.
  settle-lost :
      (f : ℤ) (finish : Answer → Reply) (r : RpcReply) (ch : Channel) (s : Session W)
      → ltb 0 (pos_part s.status) ≡ true
      → is_lost r ≡ true
      → ((settle conv calls f finish r ch s).1.channel_id ≡ negsuc 0)
        × (is_good (settle conv calls f finish r ch s).2.conn ≡ false)
  unfolding check_rpc_reply check_status
  settle-lost f finish (normal a) ch s up lost = absurd (false≢true lost)
  settle-lost f finish response_none ch s up lost = absurd (false≢true lost)
  settle-lost f finish (library_exception e) ch s up lost =
      rw (up, lost) (refl, is_good-broken conv calls s.conn)
  settle-lost f finish (server_exception (connection_close code msg)) ch s up lost =
      rw up (refl, is_good-broken conv calls s.conn)
  settle-lost f finish (server_exception (channel_close code msg)) ch s up lost =
      absurd (false≢true lost)
  settle-lost f finish (server_exception (other_method id)) ch s up lost = absurd (false≢true lost)

  lost-IsFailure : (r : RpcReply) → is_lost r ≡ true → IsFailure r
  lost-IsFailure (normal a) lost = absurd (false≢true lost)
  lost-IsFailure response_none lost = tt
  lost-IsFailure (library_exception e) lost = tt
  lost-IsFailure (server_exception m) lost = tt

  -- The request of a method that waits for an answer, basic_get among them, ends with an answer after which the connection is given up: the channel object is
  -- closed, the connection is not good, and in the state that is left a method of any channel, and
  -- `connection:channel`, call nothing and return nil with a message.
  pub lost_connection_lem :
      (q : Asking) (ch : Channel) (s : Session W) (h : ℕ) (c : Call) (ch2 : Channel) (id : Option ℤ)
      → IsAsking q
      → s.state ≡ some h
      → is_good s.conn ≡ true
      → is_usable ch s.conn ≡ some true
      → is_lost (calls.request h ch.channel_id (asked q) s.system).0 ≡ true
      → let (reply, ch1, s1) = ask q ch s in
        (ch1.channel_id ≡ negsuc 0)
        × (cn_good s1.conn ≡ values (boolean false ∷ []))
        × (call_method conv calls c ch2 s1 ≡ (disconnected, ch2, s1))
        × (cn_channel conv calls id s1 ≡ (disconnected, none, s1))
  unfolding cn_good cn_channel
  lost_connection_lem q ch s h c ch2 id is e good usable lost =
      let done = ask-usable q ch s h is e good usable (lost-IsFailure _ lost) in
      let (i, e', up) = good-state s.conn good in
      let (ended, bad) =
        settle-lost (flag_of q) (finish_of q) (calls.request h ch.channel_id (asked q) s.system).0
          ch (record s { system = (calls.request h ch.channel_id (asked q) s.system).1 }) up lost in
      let bad' : is_good (ask q ch s).2.conn ≡ false = ap (λ t. is_good t.2.conn) done ∙ bad in
      (
        ap (λ t. t.1.channel_id) done ∙ ended,
        ap (λ b. values (boolean b ∷ [])) bad',
        bad_connection_lem c ch2 _ bad',
        checked-bad conv calls (ask q ch s).2 _ _ bad',
      )
