-- ===== src/Amqp/Agreement/Waits.antt =====
-- lamqplib.c, `connection:drain_events`: it keeps the bits of the channels in agreement with the broker.
use lua_xlib.Amqp.Agreement.Replies.{check_rpc_reply-Agrees, moved-Agrees}
use lua_xlib.Amqp.Channel.Checks.{checked-cases}
use lua_xlib.Socket.Deadline.{TimeVal}
use lua_xlib.Amqp.Events.{
  Drained, drain_event, drain_round, drained, frame_received, wait_answered, cn_drain, role,
  drain_failed, end_round, wait_over, drain_channel,
}
use lua_xlib.Amqp.Frame.{
  Frame, Event, blocked, cancel, ack, nack, deliver, got, returned, other_event, unblocked,
}
use lua_xlib.Base.Int.{ℤ}
use lua_xlib.Amqp.Agreement.{
  BrokerLaws, Frame, LibraryError, Session, ℤ, Agrees, RpcReply, TimeVal, some, normal, suc, Event,
  told, told_answer, told_event, closes_channel, closes_connection,
}
use lua_xlib.Amqp.Connection.{
  AmqpCalls, LibraryError, Session, RpcReply, library_exception, server_exception, response_none,
  disconnected, timed_out,
}
use lua_xlib.Amqp.Lua.{Conversions, Reply}
use lua_xlib.Base.{
  ℕ, Bool, Option, ◌≡◌, ◌⊎◌, inl, some, inr, none≢some, ◌∙◌, subst, some-injective, refl, none, suc,
  zero, ap,
}

module _ {W : Type 0} (conv : Conversions) (calls : AmqpCalls W) (opened : W → ℕ → Bool)
    (laws : BrokerLaws calls opened) (size : ℕ) where
  abbrev Sound : Session W → Type 0
  Sound s = Agrees calls opened size s

  -- The channels that are open after what `drain_event` leaves has been told, with the number that its
  -- channel object is given.
  abbrev told_by : (garbage : ℤ) → Drained W → ℕ → Bool → Bool
  told_by garbage d n was = told d.reply (drain_channel conv calls garbage d.frame).channel_id n was

  -- A round ends a channel only with a reply that says so, and no channel where it does not end the wait.
  abbrev Steady : (garbage : ℤ) → W → Drained W ⊎ W → Type 0
  Steady garbage w (inl d) = (n : ℕ) → opened d.system n ≡ told_by garbage d n (opened w n)
  Steady garbage w (inr w1) = (n : ℕ) → opened w1 n ≡ opened w n

  read-Steady :
      (h : ℕ) (w w1 : W) (f : Frame) (n : ℕ)
      → opened w1 n ≡ opened w n
      → let (reply, m, w2) = calls.read_message h f.channel w1 in
        opened w2 n ≡ told reply f.channel n (opened w n)
  read-Steady h w w1 f n same =
      laws.reads h f.channel w1 n ∙ ap (told (calls.read_message h f.channel w1).0 f.channel n) same

  received-Steady :
      (garbage : ℤ) (h : ℕ) (w w1 : W) (f : Frame) (v : Event)
      → ((n : ℕ) → opened w1 n ≡ told_event v f.channel n (opened w n))
      → Steady garbage w (frame_received conv calls h f w1 (role v))
  received-Steady garbage h w w1 f (blocked reason) same = same
  received-Steady garbage h w w1 f unblocked same = same
  received-Steady garbage h w w1 f (cancel tag) same = same
  received-Steady garbage h w w1 f (ack tag multiple) same = same
  received-Steady garbage h w w1 f (nack tag multiple) same = same
  received-Steady garbage h w w1 f (deliver x k t r c) same = λ n. read-Steady h w w1 f n (same n)
  received-Steady garbage h w w1 f (got x k t r c) same = λ n. read-Steady h w w1 f n (same n)
  received-Steady garbage h w w1 f (returned x k c m) same = λ n. read-Steady h w w1 f n (same n)
  received-Steady garbage h w w1 f (closes_channel code msg) same = same
  received-Steady garbage h w w1 f (closes_connection code msg) same = same
  received-Steady garbage h w w1 f (other_event id) same = same

  answered-Steady :
      (garbage : ℤ) (h : ℕ) (w w1 : W) (answer : LibraryError ⊎ Frame)
      → ((n : ℕ) → opened w1 n ≡ told_answer answer n (opened w n))
      → Steady garbage w (wait_answered conv calls h answer w1)
  answered-Steady garbage h w w1 (inl e) same = same
  answered-Steady garbage h w w1 (inr f) same = received-Steady garbage h w w1 f f.event same

  drain_event-opened :
      (garbage : ℤ) (fuel h : ℕ) (timeout : Option TimeVal) (w : W) (d : Drained W) (n : ℕ)
      → drain_event conv calls fuel h timeout w ≡ some d
      → opened d.system n ≡ told_by garbage d n (opened w n)
  unfolding drain_event drain_round
  drain_event-opened garbage zero h timeout w d n e = elim (none≢some refl e) [ ]
  drain_event-opened garbage (suc fuel) h timeout w d n e =
      after (drain_round conv calls h timeout w)
        (answered-Steady garbage h w _ _ (laws.waits h timeout w)) e
        (λ w1 e1. drain_event-opened garbage fuel h timeout w1 d n e1)
    where
      after :
          (r : Drained W ⊎ W)
          → Steady garbage w r
          → end_round conv calls r (λ w1. drain_event conv calls fuel h timeout w1) ≡ some d
          → ((w1 : W)
              → drain_event conv calls fuel h timeout w1 ≡ some d
              → opened d.system n ≡ told_by garbage d n (opened w1 n))
          → opened d.system n ≡ told_by garbage d n (opened w n)
      after (inl d') same e next =
          subst (λ (x : Drained W). opened x.system n ≡ told_by garbage x n (opened w n))
            (some-injective e) (same n)
      after (inr w1) same e next = next w1 e ∙ ap (told_by garbage d n) (same n)

  failed-Agrees :
      (garbage : ℤ) (r : RpcReply) (f : Option Frame) (s : Session W) (w : W)
      → Sound s
      → ((n : ℕ)
          → opened w n
            ≡ told r (drain_channel conv calls garbage f).channel_id n (opened s.system n))
      → Sound (drain_failed conv calls garbage r f (record s { system = w })).1
  failed-Agrees garbage r f s w a new =
      check_rpc_reply-Agrees conv calls opened laws size (drain_channel conv calls garbage f) r s w
        a new

  drained-Agrees :
      (widen : ℕ → ℕ) (garbage : ℤ) (d : Drained W) (r : RpcReply) (s : Session W) (w : W)
      → Sound s
      → ((n : ℕ)
          → opened w n
            ≡ told r (drain_channel conv calls garbage d.frame).channel_id n (opened s.system n))
      → Sound (drained conv calls widen garbage d r (record s { system = w })).1
  drained-Agrees widen garbage d (normal x) s w a new =
      moved-Agrees conv calls opened laws size s w a new
  drained-Agrees widen garbage d response_none s w a new =
      failed-Agrees garbage response_none d.frame s w a new
  drained-Agrees widen garbage d (library_exception timed_out) s w a new =
      moved-Agrees conv calls opened laws size s w a new
  drained-Agrees widen garbage d (library_exception e) s w a new =
      failed-Agrees garbage (library_exception e) d.frame s w a new
  drained-Agrees widen garbage d (server_exception m) s w a new =
      failed-Agrees garbage (server_exception m) d.frame s w a new

  -- What a wait leaves, where it ends.
  abbrev Left : Option (Reply × Session W) → Type 0
  Left o = (t : Reply × Session W) → o ≡ some t → Sound t.1

  some-Left : (t : Reply × Session W) → Sound t.1 → Left (some t)
  some-Left t a u e = subst (λ (x : Reply × Session W). Sound x.1) (some-injective e) a

  over-Left :
      (widen : ℕ → ℕ) (fuel h : ℕ) (garbage : ℤ) (timeout : Option TimeVal) (s : Session W)
      (o : Option (Drained W))
      → Sound s
      → drain_event conv calls fuel h timeout s.system ≡ o
      → Left (wait_over conv calls widen h garbage o s)
  over-Left widen fuel h garbage timeout s none a e = λ t e'. elim (none≢some refl e') [ ]
  over-Left widen fuel h garbage timeout s (some d) a e = some-Left _ (
      drained-Agrees widen garbage d d.reply s _ a (λ n.
        laws.releases h d.system n ∙ drain_event-opened garbage fuel h timeout s.system d n e))

  pub cn_drain-Agrees :
      (widen : ℕ → ℕ) (fuel : ℕ) (garbage : ℤ) (timeout : Option TimeVal) (s : Session W)
      (t : Reply × Session W)
      → Sound s
      → cn_drain conv calls widen fuel garbage timeout s ≡ some t
      → Sound t.1
  unfolding cn_drain
  cn_drain-Agrees widen fuel garbage timeout s t a =
      checked-cases conv calls Left s _ _ (some-Left (disconnected, s) a)
        (λ h e. over-Left widen fuel h garbage timeout s _ a refl) t
