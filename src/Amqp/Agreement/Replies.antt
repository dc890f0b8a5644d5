-- ===== src/Amqp/Agreement/Replies.antt =====
-- lamqplib.c, `check_rpc_reply`, `establish_connection` and the like: they keep the bits of the channels
-- in agreement with the broker.
use lua_xlib.Amqp.Channel.Checks.{is_good-broken}
use lua_xlib.Amqp.Agreement.{BrokerLaws, Agrees, length-reset, channel_close_ok, told}
use lua_xlib.Amqp.Connection.{
  Channel, Session, AmqpCalls, RpcReply, LibraryError, is_good, broken, check_status, check_reply,
  check_rpc_reply, normal, response_none, library_exception, server_exception, connection_close,
  channel_close, other_method, is_fatal, send, channel_close_ok, connection_close_ok,
}
use lua_xlib.Amqp.Lua.{Conversions}
use lua_xlib.Base.Int.{pos_part}
use lua_xlib.Base.{
  ℕ, Bool, ◌≡◌, ◌<◌, ◌==◌, if◌then◌else◌, false, some, get_elem?, set, length, refl, arith, ltb,
  Bool-cases, Option-cases, inl, inr, length-set, ◌∙◌, sym, ap, get_elem?-set,
}

module _ {W : Type 0} (conv : Conversions) (calls : AmqpCalls W) (opened : W → ℕ → Bool)
    (laws : BrokerLaws calls opened) (size : ℕ) where
  -- A session that is of no use agrees with anything.
  pub useless-Agrees :
      (s : Session W)
      → length s.channels ≡ size
      → is_good s.conn ≡ false
      → Agrees calls opened size s
  useless-Agrees s h bad = record { sized = h; agree = λ good n p q. cc }

  -- Only what the broker has open counts, and only for the state and the bits.
  pub moved-Agrees :
      (s : Session W) (w : W)
      → Agrees calls opened size s
      → ((n : ℕ) → opened w n ≡ opened s.system n)
      → Agrees calls opened size (record s { system = w })
  moved-Agrees s w a same = record {
    sized = a.sized;
    agree = λ good n p q. a.agree good n p q ∙ ap some (sym (same n));
  }

  -- A bit is set or cleared as the broker opens or ends the channel.
  pub marked-Agrees :
      (s : Session W) (w : W) (id : ℕ) (v : Bool)
      → Agrees calls opened size s
      → ((n : ℕ) → opened w n ≡ (if id == n then v else opened s.system n))
      → Agrees calls opened size
          (record { conn = record s.conn { channels = set s.channels id v }; system = w })
  marked-Agrees s w id v a change = record {
    sized = length-set s.channels id v ∙ a.sized;
    agree = λ good n p q. marked_bit n (omega (arith, q, a.sized)) (a.agree good n p q);
  }
    where
      marked_bit :
          (n : ℕ)
          → n < length s.channels
          → get_elem? s.channels n ≡ some (opened s.system n)
          → get_elem? (set s.channels id v) n ≡ some (opened w n)
      marked_bit n h e =
          rw (get_elem?-set s.channels id n v h, change n, e)
            (elim (Bool-cases (id == n)) [ inl same ↦ rw same refl | inr other ↦ rw other refl ])

  -- A connection that has failed agrees with anything.
  broken-Agrees :
      (s : Session W) (w : W)
      → length s.channels ≡ size
      → Agrees calls opened size (record { conn = broken conv calls s.conn; system = w })
  unfolding broken
  broken-Agrees s w h =
      useless-Agrees (record { conn = broken conv calls s.conn; system = w })
        (length-reset s.channels ∙ h) (is_good-broken conv calls s.conn)

  pub check_status-Agrees :
      (ch : Channel) (e : LibraryError) (s : Session W)
      → Agrees calls opened size s
      → Agrees calls opened size (record s { conn = (check_status conv calls ch e s.conn).1 })
  unfolding check_status
  check_status-Agrees ch e s a = elim (Bool-cases (is_fatal e)) [
    | inl fatal ↦ rw fatal (broken-Agrees s s.system a.sized)
    | inr other ↦ rw other a
  ]

  -- The server closes a channel.
  shut-Agrees :
      (ch : Channel) (s : Session W) (w : W)
      → Agrees calls opened size s
      → ((n : ℕ) → opened w n ≡ (if pos_part ch.channel_id == n then false else opened s.system n))
      → Agrees calls opened size (record {
        conn = record s.conn { channels = set s.channels (pos_part ch.channel_id) false };
        system = send conv calls ch channel_close_ok (record s { system = w });
      })
  shut-Agrees ch s w a new = elim (Option-cases s.state) [
    | inl e ↦
        useless-Agrees
          (record {
            conn = record s.conn { channels = set s.channels (pos_part ch.channel_id) false };
            system = send conv calls ch channel_close_ok (record s { system = w });
          })
          (length-set s.channels (pos_part ch.channel_id) false ∙ a.sized) (rw e refl)
    | inr (h, e) ↦
        marked-Agrees s (send conv calls ch channel_close_ok (record s { system = w }))
          (pos_part ch.channel_id) false a (λ n. rw e (laws.accepts h ch.channel_id w n ∙ twice n))
  ]
    where
      twice :
          (n : ℕ)
          → (if pos_part ch.channel_id == n then false else opened w n)
            ≡ (if pos_part ch.channel_id == n then false else opened s.system n)
      twice n = rw (new n) (elim (Bool-cases (pos_part ch.channel_id == n)) [
        | inl same ↦ rw same refl
        | inr other ↦ rw other refl
      ])

  check_reply-Agrees :
      (ch : Channel) (r : RpcReply) (s : Session W) (w : W)
      → Agrees calls opened size s
      → ((n : ℕ) → opened w n ≡ told r ch.channel_id n (opened s.system n))
      → Agrees calls opened size (check_reply conv calls ch r (record s { system = w })).1
  check_reply-Agrees ch (normal x) s w a new = moved-Agrees s w a new
  check_reply-Agrees ch response_none s w a new = moved-Agrees s w a new
  check_reply-Agrees ch (library_exception e) s w a new =
      check_status-Agrees ch e (record s { system = w }) (moved-Agrees s w a new)
  check_reply-Agrees ch (server_exception (connection_close code msg)) s w a new =
      broken-Agrees s (send conv calls ch connection_close_ok (record s { system = w })) a.sized
  check_reply-Agrees ch (server_exception (channel_close code msg)) s w a new =
      shut-Agrees ch s w a new
  check_reply-Agrees ch (server_exception (other_method id)) s w a new = moved-Agrees s w a new

  -- Once the client has been given an answer, the bits follow it.
  pub check_rpc_reply-Agrees :
      (ch : Channel) (r : RpcReply) (s : Session W) (w : W)
      → Agrees calls opened size s
      → ((n : ℕ) → opened w n ≡ told r ch.channel_id n (opened s.system n))
      → Agrees calls opened size (check_rpc_reply conv calls ch r (record s { system = w })).1
  unfolding check_rpc_reply
  check_rpc_reply-Agrees ch r s w a new = elim (Bool-cases (ltb 0 (pos_part s.status))) [
    | inl up ↦ rw up (check_reply-Agrees ch r s w a new)
    | inr down ↦ rw down (useless-Agrees (record s { system = w }) a.sized (not_good down))
  ]
    where
      not_good : ltb 0 (pos_part s.status) ≡ false → is_good s.conn ≡ false
      not_good down = elim (Option-cases s.state) [ inl e ↦ rw e refl | inr (h, e) ↦ rw e down ]
