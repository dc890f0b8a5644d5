-- ===== src/Amqp/Agreement/Calls.antt =====
-- lamqplib.c, the methods of a channel: each keeps the bits of the channels in agreement with the broker.
use lua_xlib.Amqp.Channel.Checks.{checked-cases}
use lua_xlib.Amqp.Agreement.Replies.{moved-Agrees, check_rpc_reply-Agrees, check_status-Agrees}
use lua_xlib.Amqp.Methods.Calls.{Call, call_method, call_method-P}
use lua_xlib.Amqp.Frame.{Answer, get_ok, declared, consuming, get_empty, plain}
use lua_xlib.Amqp.Methods.{Method, get_settled}
use lua_xlib.Amqp.Channel.{
  perform, perform_post, admit, settle, settle_status, with_channel, is_usable,
}
use lua_xlib.Base.Int.{ℤ, negsuc}
use lua_xlib.Amqp.Agreement.{
  BrokerLaws, Channel, RpcReply, Session, ℤ, Agrees, Answer, LibraryError, normal, some, [], told,
}
use lua_xlib.Amqp.Connection.{
  AmqpCalls, Channel, RpcReply, Session, LibraryError, library_exception, server_exception,
  response_none,
}
use lua_xlib.Amqp.Lua.{Conversions, Reply, values}
use lua_xlib.Base.{ℕ, Bool, Option, none, false, true, [], ◌∙◌, ◌≡◌}

module _ {W : Type 0} (conv : Conversions) (calls : AmqpCalls W) (opened : W → ℕ → Bool)
    (laws : BrokerLaws calls opened) (size : ℕ) where
  abbrev Sound : Session W → Type 0
  Sound s = Agrees calls opened size s

  abbrev Keeps : Method conv calls → Type 0
  Keeps m = (ch : Channel) (s : Session W) → Sound s → Sound (m ch s).2

  admit-Agrees :
      (bit : Option Bool) (ch : Channel) (s : Session W) (t : Reply × Channel × Session W)
      → Sound s
      → Sound t.2
      → Sound (admit conv calls bit ch s t).2
  admit-Agrees none ch s t a b = a
  admit-Agrees (some false) ch s t a b = a
  admit-Agrees (some true) ch s t a b = b

  with_channel-Agrees :
      (ch : Channel) (s : Session W) (go : ℕ → Reply × Channel × Session W)
      → Sound s
      → ((h : ℕ) → Sound (go h).2)
      → Sound (with_channel conv calls ch s go).2
  with_channel-Agrees ch s go a g =
      checked-cases conv calls (λ (t : Reply × Channel × Session W). Sound t.2) s _ _ a
        (λ h e. admit-Agrees (is_usable ch s.conn) ch s (go h) a (g h))

  -- The state that an answer on a channel leaves.
  abbrev Answered : RpcReply → Channel → Session W → W → Type 0
  Answered r ch s w = (n : ℕ) → opened w n ≡ told r ch.channel_id n (opened s.system n)

  settle-Agrees :
      (f : ℤ) (finish : Answer → Reply) (r : RpcReply) (ch : Channel) (s : Session W) (w : W)
      → Sound s
      → Answered r ch s w
      → Sound (settle conv calls f finish r ch (record s { system = w })).2
  settle-Agrees f finish (normal x) ch s w a new =
      moved-Agrees conv calls opened laws size s w a new
  settle-Agrees f finish response_none ch s w a new =
      check_rpc_reply-Agrees conv calls opened laws size ch response_none s w a new
  settle-Agrees f finish (library_exception x) ch s w a new =
      check_rpc_reply-Agrees conv calls opened laws size ch (library_exception x) s w a new
  settle-Agrees f finish (server_exception x) ch s w a new =
      check_rpc_reply-Agrees conv calls opened laws size ch (server_exception x) s w a new

  settle_status-Agrees :
      (f : ℤ) (o : Option LibraryError) (ch : Channel) (s : Session W)
      → Sound s
      → Sound (settle_status conv calls f o ch s).2
  settle_status-Agrees f none ch s a = a
  settle_status-Agrees f (some e) ch s a = check_status-Agrees conv calls opened laws size ch e s a

  get_settled-Agrees :
      (h : ℕ) (r : RpcReply) (ch : Channel) (s : Session W) (w : W)
      → Sound s
      → Answered r ch s w
      → Sound (get_settled conv calls h r ch (record s { system = w })).2
  get_settled-Agrees h (normal get_empty) ch s w a new =
      moved-Agrees conv calls opened laws size s _ a (λ n. laws.releases h w n ∙ new n)
  get_settled-Agrees h (normal (get_ok k)) ch s w a new =
      moved-Agrees conv calls opened laws size s _ a
        (λ n. laws.queues h ch.channel_id (get_ok k) w n ∙ new n)
  get_settled-Agrees h (normal plain) ch s w a new =
      moved-Agrees conv calls opened laws size s w a new
  get_settled-Agrees h (normal (declared q m c)) ch s w a new =
      moved-Agrees conv calls opened laws size s w a new
  get_settled-Agrees h (normal (consuming t)) ch s w a new =
      moved-Agrees conv calls opened laws size s w a new
  get_settled-Agrees h response_none ch s w a new =
      settle-Agrees (negsuc 0) (λ x. values []) response_none ch s w a new
  get_settled-Agrees h (library_exception x) ch s w a new =
      settle-Agrees (negsuc 0) (λ x. values []) (library_exception x) ch s w a new
  get_settled-Agrees h (server_exception x) ch s w a new =
      settle-Agrees (negsuc 0) (λ x. values []) (server_exception x) ch s w a new

  pub call_method-Agrees : (c : Call) → Keeps (call_method conv calls c)
  unfolding perform perform_post
  call_method-Agrees = call_method-P conv calls Keeps (record {
    performs = λ f r finish ch s a.
        with_channel-Agrees ch s _ a
          (λ h. settle-Agrees f finish _ ch s _ a (laws.requests h ch.channel_id r s.system));
    posts = λ p ch s a. with_channel-Agrees ch s _ a (λ h.
        settle_status-Agrees _ _ ch _
          (moved-Agrees conv calls opened laws size s _ a (laws.posts h ch.channel_id p s.system)));
    refuses = λ e ch s a. with_channel-Agrees ch s _ a (λ h. a);
    gets = λ r ch s a.
        with_channel-Agrees ch s _ a
          (λ h. get_settled-Agrees h _ ch s _ a (laws.requests h ch.channel_id r s.system));
  })
