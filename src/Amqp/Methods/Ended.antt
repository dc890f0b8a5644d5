-- ===== src/Amqp/Methods/Ended.antt =====
-- lamqplib.c, `channel:close` and the end of a channel by the server: what the methods do in the state that is left.
use lua_xlib.Amqp.Methods.Closed.{
  closed_channel_lem, Asking, IsAsking, asked, ask, flag_of, ask-usable, IsFailure,
}
use lua_xlib.Amqp.Channel.Checks.{
  good-state, usable-bit, checked-good, is_usable-ended, is_usable-cleared, usable-length,
}
use lua_xlib.Lua.{Bytes}
use lua_xlib.Base.Int.{ℤ, pos_part, negsuc}
use lua_xlib.Amqp.Methods.Calls.{Call, call_method}
use lua_xlib.Amqp.Channel.{ch_close, channel_closed, is_usable}
use lua_xlib.Amqp.Connection.{
  AmqpCalls, Channel, check_rpc_reply, Session, is_good, server_exception, channel_close,
  channel_close_ok, report_amqp_error, send,
}
use lua_xlib.Amqp.Lua.{Conversions, values}
use lua_xlib.Base.{
  ℕ, ◌≡◌, set, some, true, false, get_elem?, ◌<◌, [], length, ◌≢◌, if◌then◌else◌, refl, ◌==◌, arith,
  ◌∙◌, get_elem?-set, subst, sym,
}

module _ {W : Type 0} (conv : Conversions) (calls : AmqpCalls W) where
  -- A session whose only change is that the bit of a channel is cleared, and the system.
  abbrev cleared : ℤ → Session W → W → Session W
  cleared id s w = record {
    conn = record s.conn { channels = set s.channels (pos_part id) false };
    system = w;
  }

  -- What holds once a channel is ended: of the object that ended it, of another object of the channel,
  -- and of the bits of the others.
  abbrev Ended : Call → Channel → ℕ → Session W → Channel × Session W → Type 0
  Ended c ch2 n s (ch1, s1) =
      (call_method conv calls c ch1 s1 ≡ (channel_closed, ch1, s1))
      × (call_method conv calls c ch2 s1 ≡ (channel_closed, ch2, s1))
      × (get_elem? s1.channels n ≡ get_elem? s.channels n)

  cleared-Ended :
      (c : Call) (ch ch2 : Channel) (n : ℕ) (s : Session W) (w : W)
      → is_good s.conn ≡ true
      → is_usable ch s.conn ≡ some true
      → ch2.channel_id ≡ ch.channel_id
      → n < length s.channels
      → n ≢ pos_part ch.channel_id
      → Ended c ch2 n s (record ch { channel_id = negsuc 0 }, cleared ch.channel_id s w)
  cleared-Ended c ch ch2 n s w good usable same inside other =
      let id = ch.channel_id in
      (
        closed_channel_lem conv calls c _ (cleared id s w) good
            (is_usable-ended (cleared id s w).conn ch.timestamp),
        closed_channel_lem conv calls c ch2 (cleared id s w) good
            (is_usable-cleared ch2 s.conn id (usable-length ch s.conn usable) same),
        get_elem?-set s.channels (pos_part id) n false inside ∙ kept n other,
      )
    where
      kept :
          (n : ℕ)
          → n ≢ pos_part ch.channel_id
          → (if pos_part ch.channel_id == n then some false else get_elem? s.channels n)
            ≡ get_elem? s.channels n
      kept n other = ground (arith, other)

  ask-closes :
      (q : Asking conv calls) (ch : Channel) (s : Session W) (h : ℕ) (code : ℤ) (msg : Bytes)
      → IsAsking conv calls q
      → s.state ≡ some h
      → is_good s.conn ≡ true
      → is_usable ch s.conn ≡ some true
      → (calls.request h ch.channel_id (asked conv calls q) s.system).0
        ≡ server_exception (channel_close code msg)
      → let w = (calls.request h ch.channel_id (asked conv calls q) s.system).1 in
        ask conv calls q ch s ≡ (
          report_amqp_error conv calls
              (flag_of conv calls q)
              (server_exception (channel_close code msg)),
          record ch { channel_id = negsuc 0 },
          cleared ch.channel_id s (send conv calls ch channel_close_ok (record s { system = w })),
        )
  unfolding check_rpc_reply
  ask-closes q ch s h code msg is e good usable closes =
      let (i, e', up) = good-state s.conn good in
      ask-usable conv calls q ch s h is e good usable (subst (IsFailure conv calls) (sym closes) tt)
      ∙ rw closes (rw up refl)

  -- The server answers the request of a method that waits for an answer, basic_get among them, by closing the channel: the broker is told that this is accepted, and in the
  -- state that is left a method on the channel object
  -- or on another one of the same number calls nothing and returns nil with a message. The bits of the
  -- other channels stay.
  pub closed_by_server_lem :
      (q : Asking conv calls) (ch : Channel) (s : Session W) (h : ℕ) (code : ℤ) (msg : Bytes)
      (c : Call) (ch2 : Channel) (n : ℕ)
      → IsAsking conv calls q
      → s.state ≡ some h
      → is_good s.conn ≡ true
      → is_usable ch s.conn ≡ some true
      → (calls.request h ch.channel_id (asked conv calls q) s.system).0
        ≡ server_exception (channel_close code msg)
      → ch2.channel_id ≡ ch.channel_id
      → n < length s.channels
      → n ≢ pos_part ch.channel_id
      → let (reply, ch1, s1) = ask conv calls q ch s in
        (s1.system
          ≡ calls.send_method h ch.channel_id channel_close_ok
              (calls.request h ch.channel_id (asked conv calls q) s.system).1)
        × (call_method conv calls c ch1 s1 ≡ (channel_closed, ch1, s1))
        × (call_method conv calls c ch2 s1 ≡ (channel_closed, ch2, s1))
        × (get_elem? s1.channels n ≡ get_elem? s.channels n)
  closed_by_server_lem q ch s h code msg c ch2 n is e good usable closes same inside other =
      let (end1, end2, kept) = cleared-Ended c ch ch2 n s _ good usable same inside other in
      rw (ask-closes q ch s h code msg is e good usable closes) (rw e refl, end1, end2, kept)

  ch_close-usable :
      (ch : Channel) (s : Session W) (h : ℕ)
      → s.state ≡ some h
      → is_good s.conn ≡ true
      → is_usable ch s.conn ≡ some true
      → ch_close conv calls ch s ≡ (
        values [],
        record ch { channel_id = negsuc 0 },
        cleared ch.channel_id s (calls.end_channel h ch.channel_id s.system),
      )
  unfolding ch_close
  ch_close-usable ch s h e good usable =
      let (i, e', up) = good-state s.conn good in
      let (positive, bit) = usable-bit ch s.conn usable in
      rw positive (checked-good conv calls s _ _ h e up ∙ rw bit refl)

  -- `channel:close()` on a usable channel: the broker is asked to end it, and in the state that is left a
  -- method on this object or on another one of the same number calls nothing and returns nil with a
  -- message. The bits of the other channels stay.
  pub ch_close_lem :
      (ch : Channel) (s : Session W) (h : ℕ) (c : Call) (ch2 : Channel) (n : ℕ)
      → s.state ≡ some h
      → is_good s.conn ≡ true
      → is_usable ch s.conn ≡ some true
      → ch2.channel_id ≡ ch.channel_id
      → n < length s.channels
      → n ≢ pos_part ch.channel_id
      → let (reply, ch1, s1) = ch_close conv calls ch s in
        (s1.system ≡ calls.end_channel h ch.channel_id s.system)
        × (call_method conv calls c ch1 s1 ≡ (channel_closed, ch1, s1))
        × (call_method conv calls c ch2 s1 ≡ (channel_closed, ch2, s1))
        × (get_elem? s1.channels n ≡ get_elem? s.channels n)
  ch_close_lem ch s h c ch2 n e good usable same inside other =
      let (end1, end2, kept) = cleared-Ended c ch ch2 n s _ good usable same inside other in
      rw (ch_close-usable ch s h e good usable) (refl, end1, end2, kept)
