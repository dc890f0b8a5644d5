-- ===== src/Amqp/Channel.antt =====
-- lamqplib.c, `channel_t`: how a channel is opened and closed, and what every method of a channel does
-- before and after its request.
pub mod Free
pub mod Checks
use lua_xlib.Amqp.Lua.{
  LuaVal, Reply, Conversions, nil, boolean, integer, string, values, arg_error, overrun, raised,
}
use lua_xlib.Amqp.Connection.{
  Connection, Channel, Session, AmqpCalls, RpcReply, LibraryError, is_good, disconnected,
  report_amqp_error, report_os_error, check_rpc_reply, check_status, with_conn, normal,
}
use lua_xlib.Amqp.Frame.{Request, Post, Answer}
use mathlib.Core.Option.{get_or}
use lua_xlib.Lua.{Bytes, text}
use lua_xlib.Base.Int.{ℤ, pos, negsuc, pos_part, is_negative}
use lua_xlib.Base.Words.{to_int}
use lua_xlib.Base.{
  ℕ, Bool, Option, none, some, List, ◌∷◌, [], ◌++◌, get_elem?, set, if◌then◌else◌, ltb, true, false,
  not, ◌||◌, ◌&&◌, ◌==◌, ◌+◌, suc,
}

-- `for(i=0; i<8 && (conn->channels[n] & (1<<i)); i++);`, on the bits of a byte
abbrev pub free_bit : List Bool → ℕ
free_bit [] = 0
free_bit (b ∷ bs) = if b then suc (free_bit bs) else 0

-- `for(n=0; conn->channels[n]==0xff; n++);`, and the channel that both loops find, from that of the
-- first bit on; `none` means that the loop runs out of the array.
unfoldable pub free_channel : ℕ → List Bool → Option ℕ
free_channel first (b0 ∷ b1 ∷ b2 ∷ b3 ∷ b4 ∷ b5 ∷ b6 ∷ b7 ∷ rest) =
    if b0 && b1 && b2 && b3 && b4 && b5 && b6 && b7
    then free_channel (first + 8) rest
    else some (first + free_bit (b0 ∷ b1 ∷ b2 ∷ b3 ∷ b4 ∷ b5 ∷ b6 ∷ b7 ∷ []))
free_channel first _ = none

-- `channel_id>=0 && (channel_max==0 || channel_id<channel_max)`
abbrev pub is_channel_id : ℤ → ℕ → Bool
is_channel_id z channel_max =
    not (is_negative z) && (channel_max == 0 || ltb (pos_part z) channel_max)

-- `channel:ident()`
unfoldable pub ch_ident : Channel → Reply
ch_ident ch = values (integer ch.channel_id ∷ [])

-- `check_channel`, behind `check_connection`: whether the channel may be used; `none` means that its
-- bit lies outside the array.
abbrev pub is_usable : Channel → Connection → Option Bool
is_usable ch c =
    if ltb ch.timestamp c.timestamp || not (ltb 0 (pos_part ch.channel_id))
    then some false
    else get_elem? c.channels (pos_part ch.channel_id)

abbrev pub channel_closed : Reply
channel_closed = values (nil ∷ string (text "channel has closed") ∷ [])

module _ {W : Type 0} (conv : Conversions) (calls : AmqpCalls W) where
  -- The end of `connection:channel`, where the channel's bit is set.
  abbrev pub new_channel : ℕ → Session W → Reply × Option Channel × Session W
  new_channel id s =
      (values [], some (record { channel_id = pos id; timestamp = calls.time s.system }), s)

  -- What is done once the broker has answered the request to open a channel.
  abbrev pub channel_answered : ℕ → ℕ → Session W → Bool → W → Reply × Option Channel × Session W
  channel_answered h id s true w =
      new_channel id
        (record { conn = record s.conn { channels = set s.channels id true }; system = w })
  channel_answered h id s false w =
      (report_amqp_error conv calls (negsuc 0) (calls.rpc_reply h w), none, record s { system = w })

  -- `if (!BIT_TEST(conn->channels, channel_id)) ...`, by the bit.
  abbrev pub open_at : ℕ → ℕ → Session W → Option Bool → Reply × Option Channel × Session W
  open_at h id s none = (overrun, none, s)
  open_at h id s (some true) = new_channel id s
  open_at h id s (some false) =
      let (opened, w) = calls.open_channel h (pos id) s.system in channel_answered h id s opened w

  unfoldable pub open_channel : ℕ → ℕ → Session W → Reply × Option Channel × Session W
  open_channel h id s = open_at h id s (get_elem? s.channels id)

  abbrev pub channel_at : ℕ → ℤ → Session W → Reply × Option Channel × Session W
  channel_at h z s =
      if is_channel_id z (calls.get_channel_max h s.system)
      then elim (if pos_part z == 0 then free_channel 0 s.channels else some (pos_part z)) [
        | none ↦ (overrun, none, s)
        | some id ↦ open_channel h id s
      ]
      else (
        arg_error 2 (
            text "channel id in (0, "
            ++ (conv.show_int (pos (calls.get_channel_max h s.system)) ++ text "]")),
        none,
        s,
      )

  -- `check_connection(L, conn)`: what follows is done with the state of a good connection.
  abbrev pub checked {ℓ} : {A : Type ℓ} → Session W → A → (ℕ → A) → A
  checked s bad go = elim s.state [
    | none ↦ bad
    | some h ↦ if ltb 0 (pos_part s.status) then go h else bad
  ]

  -- `connection:channel([channel_id])`
  unfoldable pub cn_channel : Option ℤ → Session W → Reply × Option Channel × Session W
  cn_channel channel_id s =
      checked s (disconnected, none, s) (λ h. channel_at h (to_int (get_or channel_id (pos 0))) s)

  -- `channel:close()`, by the channel's bit; one outside the array is not looked at twice.
  abbrev pub shut_at : Channel → ℕ → Session W → Option Bool → Reply × Channel × Session W
  shut_at ch h s none = (overrun, ch, s)
  shut_at ch h s (some false) = (values [], record ch { channel_id = negsuc 0 }, s)
  shut_at ch h s (some true) = (
    values [],
    record ch { channel_id = negsuc 0 },
    record {
      conn = record s.conn { channels = set s.channels (pos_part ch.channel_id) false };
      system = calls.end_channel h ch.channel_id s.system;
    },
  )

  unfoldable pub ch_close : Channel → Session W → Reply × Channel × Session W
  ch_close ch s =
      if ltb 0 (pos_part ch.channel_id)
      then checked s (values [], record ch { channel_id = negsuc 0 }, s)
          (λ h. shut_at ch h s (get_elem? s.channels (pos_part ch.channel_id)))
      else (values [], ch, s)

  -- What `check_channel` does with the bit.
  abbrev pub admit :
      Option Bool → Channel → Session W → Reply × Channel × Session W → Reply × Channel × Session W
  admit none ch s go = (overrun, ch, s)
  admit (some false) ch s go = (channel_closed, ch, s)
  admit (some true) ch s go = go

  -- `check_channel(L, ch, conn)`, with what the method does then.
  abbrev pub with_channel :
      Channel → Session W → (ℕ → Reply × Channel × Session W) → Reply × Channel × Session W
  with_channel ch s go =
      checked s (disconnected, ch, s) (λ h. admit (is_usable ch s.conn) ch s (go h))

  -- `assert_rpc_reply(L, f, reply, conn, ch)`, and what is returned for a normal answer.
  abbrev pub settle :
      ℤ → (Answer → Reply) → RpcReply → Channel → Session W → Reply × Channel × Session W
  settle f finish (normal a) ch s = (finish a, ch, s)
  settle f finish r ch s =
      let (ch', s') = check_rpc_reply conv calls ch r s in
      (report_amqp_error conv calls f r, ch', s')

  -- `assert_status(L, f, status, conn, ch)`
  abbrev pub settle_status :
      ℤ → Option LibraryError → Channel → Session W → Reply × Channel × Session W
  settle_status f none ch s = (values (boolean true ∷ []), ch, s)
  settle_status f (some e) ch s =
      let (ch', c) = check_status conv calls ch e s.conn in
      (report_os_error conv calls f e, ch', with_conn conv calls s c)

  -- A method that makes a request and returns what `finish` makes of the answer.
  unfoldable pub perform :
      ℤ → Request → (Answer → Reply) → Channel → Session W → Reply × Channel × Session W
  perform f r finish ch s = with_channel ch s (λ h.
      let (reply, w) = calls.request h ch.channel_id r s.system in
      settle f finish reply ch (record s { system = w }))

  unfoldable pub perform_post : Post → Channel → Session W → Reply × Channel × Session W
  perform_post p ch s = with_channel ch s (λ h.
      let (status, w) = calls.post h ch.channel_id p s.system in
      settle_status (pos 0) status ch (record s { system = w }))

  -- The bit of a channel, as `channel:good` tests it; outside the array is `none`.
  unfoldable pub ch_good : Channel → Session W → Reply × Channel
  ch_good ch s =
      let shut : Channel = record ch { channel_id = negsuc 0 } in
      let is_open : Channel → Reply = λ c. values (boolean (ltb 0 (pos_part c.channel_id)) ∷ []) in
      if ltb 0 (pos_part ch.channel_id)
      then elim s.state [
        | none ↦ (is_open shut, shut)
        | some h ↦
            if is_negative s.status
            then (is_open shut, shut)
            else elim (get_elem? s.channels (pos_part ch.channel_id)) [
              | none ↦ (overrun, ch)
              | some false ↦ (is_open shut, shut)
              | some true ↦ (is_open ch, ch)
            ]
      ]
      else (is_open ch, ch)
