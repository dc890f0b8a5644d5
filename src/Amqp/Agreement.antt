-- ===== src/Amqp/Agreement.antt =====
-- lamqplib.c: the bits of a connection's channels against the channels that the broker has open.
pub mod Replies
pub mod Operations
pub mod Calls
pub mod Waits
pub mod Steps
use lua_xlib.Amqp.Connection.{
  Connection, Channel, Session, AmqpCalls, LoginInfo, RpcReply, is_good, reset_channels, normal,
  channel_close_ok, LibraryError, server_exception, channel_close, connection_close,
}
use lua_xlib.Amqp.Frame.{
  Request, Post, Answer, Frame, Message, Event, closes_channel, closes_connection,
}
use lua_xlib.Socket.Deadline.{TimeVal}
use lua_xlib.Base.Int.{ℤ, pos, pos_part}
use lua_xlib.Base.{
  ℕ, Bool, Option, List, ◌≡◌, ◌<◌, ◌==◌, ◌&&◌, if◌then◌else◌, true, false, some, get_elem?, set,
  length, map, refl, arith, ◌∷◌, [], zero, suc, length-set, length-map, ◌∙◌, ◌⊎◌, inl, inr,
}

-- Whether a channel that was open, or was not, is so once the client has been given this answer to what it
-- asked on the channel `id`: the server's closes end the channel, or all of them.
abbrev pub told : RpcReply → (id : ℤ) → ℕ → Bool → Bool
told (server_exception (channel_close code msg)) id n was = if pos_part id == n then false else was
told (server_exception (connection_close code msg)) id n was = false
told r id n was = was

-- The same, for a frame that the client has waited for.
abbrev pub told_event : Event → (id : ℤ) → ℕ → Bool → Bool
told_event (closes_channel code msg) id n was = if pos_part id == n then false else was
told_event (closes_connection code msg) id n was = false
told_event v id n was = was

abbrev pub told_answer : LibraryError ⊎ Frame → ℕ → Bool → Bool
told_answer (inl e) n was = was
told_answer (inr f) n was = told_event f.event f.channel n was

module _ {W : Type 0} (calls : AmqpCalls W) (opened : W → ℕ → Bool) where
  -- A channel is open, as far as the client has been told, from a request to open it that the broker grants,
  -- until the client ends it, or is told that the broker closes it or the connection. A new login has no
  -- channels. A broker that closes the connection in answer to a request for a channel is left out.
  pub record BrokerLaws : Type 0 where
    pub opens :
        (h id : ℕ) (w : W) (n : ℕ)
        → let (granted, w') = calls.open_channel h (pos id) w in
          opened w' n ≡ (if granted && id == n then true else opened w n)
    pub ends :
        (h : ℕ) (id : ℤ) (w : W) (n : ℕ)
        → opened (calls.end_channel h id w) n ≡ (if pos_part id == n then false else opened w n)
    pub accepts :
        (h : ℕ) (id : ℤ) (w : W) (n : ℕ)
        → opened (calls.send_method h id channel_close_ok w) n
          ≡ (if pos_part id == n then false else opened w n)
    pub requests :
        (h : ℕ) (id : ℤ) (r : Request) (w : W) (n : ℕ)
        → let (reply, w') = calls.request h id r w in opened w' n ≡ told reply id n (opened w n)
    pub posts :
        (h : ℕ) (id : ℤ) (p : Post) (w : W) (n : ℕ) → opened (calls.post h id p w).1 n ≡ opened w n
    pub logs_in :
        (h : ℕ) (login : LoginInfo) (w : W) (a : Answer)
        → (calls.login h login w).0 ≡ normal a
        → (n : ℕ) → opened (calls.login h login w).1 n ≡ false
    pub waits :
        (h : ℕ) (timeout : Option TimeVal) (w : W) (n : ℕ)
        → let (answer, w') = calls.wait_frame h timeout w in
          opened w' n ≡ told_answer answer n (opened w n)
    pub reads :
        (h : ℕ) (id : ℤ) (w : W) (n : ℕ)
        → let (reply, m, w') = calls.read_message h id w in
          opened w' n ≡ told reply id n (opened w n)
    pub queues :
        (h : ℕ) (id : ℤ) (a : Answer) (w : W) (n : ℕ)
        → opened (calls.queue_frame h id a w) n ≡ opened w n
    pub releases : (h : ℕ) (w : W) (n : ℕ) → opened (calls.release_buffers h w) n ≡ opened w n

  -- The array has `size` bits, and while the connection is good those behind the first, which stands
  -- for the connection itself, say which channels are open.
  pub record Agrees (size : ℕ) (s : Session W) : Type 0 where
    pub sized : length s.channels ≡ size
    pub agree :
        is_good s.conn ≡ true
        → (n : ℕ) → 0 < n
        → n < size
        → get_elem? s.channels n ≡ some (opened s.system n)

get_elem?-cleared :
    (xs : List Bool) (n : ℕ) → n < length xs → get_elem? (map (λ b. false) xs) n ≡ some false
get_elem?-cleared [] n h = absurd (omega (arith, h))
get_elem?-cleared (x ∷ xs) zero h = refl
get_elem?-cleared (x ∷ xs) (suc n) h = get_elem?-cleared xs n (omega (arith, h))

pub get_elem?-reset :
    (xs : List Bool) (n : ℕ) → 0 < n → n < length xs → get_elem? (reset_channels xs) n ≡ some false
unfolding reset_channels
get_elem?-reset [] n p h = absurd (omega (arith, h))
get_elem?-reset (x ∷ xs) zero p h = absurd (omega (arith, p))
get_elem?-reset (x ∷ xs) (suc n) p h = get_elem?-cleared xs n (omega (arith, h))

pub length-reset : (xs : List Bool) → length (reset_channels xs) ≡ length xs
unfolding reset_channels
length-reset xs = length-set (map (λ b. false) xs) 0 true ∙ length-map (λ b. false) xs
