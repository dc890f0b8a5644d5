-- ===== src/Amqp/Agreement/Operations.antt =====
-- lamqplib.c, the operations on a connection and on its channels: each keeps the bits of the channels in
-- agreement with the broker.
use lua_xlib.Amqp.Channel.Checks.{state-cases, checked-cases, choice-cases}
use lua_xlib.Amqp.Channel.{
  ch_close, cn_channel, open_at, shut_at, channel_answered, channel_at, is_channel_id, free_channel,
}
use lua_xlib.Base.Int.{pos, ℤ, pos_part}
use lua_xlib.Amqp.Agreement.Replies.{useless-Agrees, marked-Agrees, moved-Agrees}
use lua_xlib.Amqp.Frame.{Answer}
use lua_xlib.Amqp.Agreement.{
  BrokerLaws, RpcReply, Session, Agrees, LibraryError, length, Answer, false, normal, some,
  reset_channels, pos, length-reset, get_elem?-reset, arith, Channel, ℤ, pos_part, get_elem?,
}
use lua_xlib.Amqp.Connection.{
  AmqpCalls, RpcReply, Session, LibraryError, normal, reset_channels, library_exception,
  server_exception, response_none, Channel,
}
use lua_xlib.Amqp.Connection.Setup.{
  cn_close, cn_connect, establish_connection, close_connection, error_login, socket_opened,
  logged_in, connect_reply,
}
use lua_xlib.Amqp.Lua.{Conversions, Reply}
use lua_xlib.Amqp.Channel.{open_channel}
use lua_xlib.Base.{
  ℕ, Bool, Option, ◌≡◌, length, false, inl, some, inr, none, refl, ◌∙◌, arith, ap, sym,
  if◌then◌else◌, Bool-cases, true, ◌&&◌, ◌==◌, ltb, get_elem?,
}

module _ {W : Type 0} (conv : Conversions) (calls : AmqpCalls W) (opened : W → ℕ → Bool)
    (laws : BrokerLaws calls opened) (size : ℕ) where
  abbrev Sound : Session W → Type 0
  Sound s = Agrees calls opened size s

  -- `error_login` leaves no state.
  error_login-Agrees :
      (h : ℕ) (r : RpcReply) (s : Session W)
      → length s.channels ≡ size
      → Sound (error_login conv calls h r s).1
  error_login-Agrees h r s e =
      useless-Agrees conv calls opened laws size (error_login conv calls h r s).1 e refl

  -- A login that succeeds starts with no channels, and so does the broker.
  fresh-Agrees :
      (s : Session W) (h t : ℕ) (w : W)
      → length s.channels ≡ size
      → ((n : ℕ) → opened w n ≡ false)
      → Sound (record {
        conn = record s.conn {
          state = some h;
          channels = reset_channels s.channels;
          status = pos 1;
          timestamp = t;
        };
        system = w;
      })
  fresh-Agrees s h t w e none_open = record {
    sized = length-reset s.channels ∙ e;
    agree = λ good n p q.
        get_elem?-reset s.channels n p (omega (arith, q, e)) ∙ ap some (sym (none_open n));
  }

  logged_in-Agrees :
      (h : ℕ) (s : Session W) (r : RpcReply) (w : W)
      → length s.channels ≡ size
      → ((a : Answer) → r ≡ normal a → (n : ℕ) → opened w n ≡ false)
      → Sound (logged_in conv calls h s r w).1
  logged_in-Agrees h s (normal a) w e new = fresh-Agrees s h (calls.time w) w e (new a refl)
  logged_in-Agrees h s response_none w e new =
      error_login-Agrees h response_none (record s { system = w }) e
  logged_in-Agrees h s (library_exception x) w e new =
      error_login-Agrees h (library_exception x) (record s { system = w }) e
  logged_in-Agrees h s (server_exception x) w e new =
      error_login-Agrees h (server_exception x) (record s { system = w }) e

  socket_opened-Agrees :
      (h : ℕ) (s : Session W) (o : Option LibraryError) (w : W)
      → length s.channels ≡ size
      → Sound (socket_opened conv calls h s o w).1
  socket_opened-Agrees h s (some x) w e =
      error_login-Agrees h (library_exception x) (record s { system = w }) e
  socket_opened-Agrees h s none w e =
      logged_in-Agrees h s _ _ e (λ a is n. laws.logs_in h s.login_info w a is n)

  pub establish-Agrees :
      (s : Session W) → length s.channels ≡ size → Sound (establish_connection conv calls s).1
  unfolding establish_connection
  establish-Agrees s e = socket_opened-Agrees _ s _ _ e

  closed-Agrees :
      (s : Session W) (w : W)
      → length s.channels ≡ size
      → Sound (record { conn = record s.conn { state = none; status = pos 0 }; system = w })
  closed-Agrees s w e =
      useless-Agrees conv calls opened laws size
        (record { conn = record s.conn { state = none; status = pos 0 }; system = w }) e refl

  pub cn_close-Agrees : (s : Session W) → Sound s → Sound (cn_close conv calls s).1
  unfolding cn_close close_connection
  cn_close-Agrees s a = state-cases Sound s.state s _ (λ e. a) (λ h e. closed-Agrees s _ a.sized)

  replied-Agrees : (t : RpcReply × Session W) → Sound t.1 → Sound (connect_reply conv calls t).1
  replied-Agrees (normal x, s) a = a
  replied-Agrees (response_none, s) a = a
  replied-Agrees (library_exception x, s) a = a
  replied-Agrees (server_exception x, s) a = a

  pub cn_connect-Agrees : (s : Session W) → Sound s → Sound (cn_connect conv calls s).1
  unfolding cn_connect
  cn_connect-Agrees s a =
      state-cases (λ (t : Reply × Session W). Sound t.1) s.state _ _
        (λ e. replied-Agrees (establish_connection conv calls s) (establish-Agrees s a.sized))
        (λ h e. a)

  answered-Agrees :
      (h id : ℕ) (s : Session W) (b : Bool) (w : W)
      → Sound s
      → ((n : ℕ) → opened w n ≡ (if b && id == n then true else opened s.system n))
      → Sound (channel_answered conv calls h id s b w).2
  answered-Agrees h id s true w a new = marked-Agrees conv calls opened laws size s w id true a new
  answered-Agrees h id s false w a new = moved-Agrees conv calls opened laws size s w a new

  open_at-Agrees :
      (h id : ℕ) (s : Session W) (bit : Option Bool)
      → Sound s
      → Sound (open_at conv calls h id s bit).2
  open_at-Agrees h id s none a = a
  open_at-Agrees h id s (some true) a = a
  open_at-Agrees h id s (some false) a = answered-Agrees h id s _ _ a (laws.opens h id s.system)

  channel_at-Agrees :
      (h : ℕ) (z : ℤ) (s : Session W) → Sound s → Sound (channel_at conv calls h z s).2
  unfolding open_channel
  channel_at-Agrees h z s a =
      let P : Reply × Option Channel × Session W → Type 0 = λ t. Sound t.2 in
      choice-cases P (is_channel_id z (calls.get_channel_max h s.system)) _ _
        (state-cases P (if pos_part z == 0 then free_channel 0 s.channels else some (pos_part z)) _
          _ (λ e. a) (λ id e. open_at-Agrees h id s (get_elem? s.channels id) a))
        a

  pub cn_channel-Agrees :
      (id : Option ℤ) (s : Session W) → Sound s → Sound (cn_channel conv calls id s).2
  unfolding cn_channel
  cn_channel-Agrees id s a =
      checked-cases conv calls (λ (t : Reply × Option Channel × Session W). Sound t.2) s _ _ a
        (λ h e. channel_at-Agrees h _ s a)

  shut_bit-Agrees :
      (ch : Channel) (h : ℕ) (s : Session W) (bit : Option Bool)
      → Sound s
      → Sound (shut_at conv calls ch h s bit).2
  shut_bit-Agrees ch h s none a = a
  shut_bit-Agrees ch h s (some false) a = a
  shut_bit-Agrees ch h s (some true) a =
      marked-Agrees conv calls opened laws size s _ (pos_part ch.channel_id) false a
        (laws.ends h ch.channel_id s.system)

  pub ch_close-Agrees :
      (ch : Channel) (s : Session W) → Sound s → Sound (ch_close conv calls ch s).2
  unfolding ch_close
  ch_close-Agrees ch s a = elim (Bool-cases (ltb 0 (pos_part ch.channel_id))) [
    | inl p ↦ rw p (
        checked-cases conv calls (λ (t : Reply × Channel × Session W). Sound t.2) s _ _ a
          (λ h e. shut_bit-Agrees ch h s _ a))
    | inr q ↦ rw q a
  ]
