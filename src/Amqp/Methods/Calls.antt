-- ===== src/Amqp/Methods/Calls.antt =====
-- lamqplib.c, the table of the methods of a channel that make a request or send a message: a value for
-- each call of one, and what has to be shown for a property that all of them have.
use lua_xlib.Amqp.Channel.{with_channel, perform, perform_post}
use lua_xlib.Amqp.Frame.{Request, Answer, Post}
use lua_xlib.Base.Int.{ℤ}
use lua_xlib.Amqp.Options.{Options, Fetched, ok, bad}
use lua_xlib.Amqp.Methods.{
  ExchangeType, Method, ch_flow, ch_exchange_declare, with_options, ch_exchange_delete,
  ch_exchange_bind, ch_exchange_unbind, ch_queue_declare, ch_queue_delete, ch_queue_bind,
  get_settled, ch_queue_unbind, ch_queue_purge, ch_basic_qos, ch_basic_publish, ch_basic_consume,
  ch_basic_cancel, ch_basic_recover, ch_basic_get, ch_basic_ack, ch_basic_nack, ch_basic_reject,
  ch_tx_select, ch_tx_commit, ch_tx_rollback, ch_confirm_select,
}
use lua_xlib.Amqp.Connection.{AmqpCalls}
use lua_xlib.Lua.{Bytes}
use lua_xlib.Amqp.Lua.{Conversions, LuaVal, Reply, raised}
use lua_xlib.Base.{Bool}

-- A call, with its arguments, but for the channel.
pub data Call : Type 0 where
  flow_call : (active : Bool) → Call
  exchange_declare_call : Bytes → ExchangeType → Options → Call
  exchange_delete_call : Bytes → Options → Call
  exchange_bind_call exchange_unbind_call : Bytes → Bytes → Bytes → LuaVal → Call
  queue_declare_call queue_delete_call : Bytes → Options → Call
  queue_bind_call queue_unbind_call : Bytes → Bytes → Bytes → LuaVal → Call
  queue_purge_call : Bytes → Call
  basic_qos_call : ℤ → ℤ → Options → Call
  basic_publish_call : Bytes → Bytes → Bytes → Options → Call
  basic_consume_call : Bytes → Options → Call
  basic_cancel_call : Bytes → Call
  basic_recover_call : Options → Call
  basic_get_call : Bytes → Options → Call
  basic_ack_call basic_nack_call basic_reject_call : ℤ → Options → Call
  tx_select_call tx_commit_call tx_rollback_call confirm_select_call : Call

module _ {W : Type 0} (conv : Conversions) (calls : AmqpCalls W) where
  unfoldable pub call_method : Call → Method conv calls
  call_method (flow_call active) = ch_flow conv calls active
  call_method (exchange_declare_call e kind t) = ch_exchange_declare conv calls e kind t
  call_method (exchange_delete_call e t) = ch_exchange_delete conv calls e t
  call_method (exchange_bind_call d e k t) = ch_exchange_bind conv calls d e k t
  call_method (exchange_unbind_call d e k t) = ch_exchange_unbind conv calls d e k t
  call_method (queue_declare_call q t) = ch_queue_declare conv calls q t
  call_method (queue_delete_call q t) = ch_queue_delete conv calls q t
  call_method (queue_bind_call q e k t) = ch_queue_bind conv calls q e k t
  call_method (queue_unbind_call q e k t) = ch_queue_unbind conv calls q e k t
  call_method (queue_purge_call q) = ch_queue_purge conv calls q
  call_method (basic_qos_call size count t) = ch_basic_qos conv calls size count t
  call_method (basic_publish_call m e k t) = ch_basic_publish conv calls m e k t
  call_method (basic_consume_call q t) = ch_basic_consume conv calls q t
  call_method (basic_cancel_call tag) = ch_basic_cancel conv calls tag
  call_method (basic_recover_call t) = ch_basic_recover conv calls t
  call_method (basic_get_call q t) = ch_basic_get conv calls q t
  call_method (basic_ack_call tag t) = ch_basic_ack conv calls tag t
  call_method (basic_nack_call tag t) = ch_basic_nack conv calls tag t
  call_method (basic_reject_call tag t) = ch_basic_reject conv calls tag t
  call_method tx_select_call = ch_tx_select conv calls
  call_method tx_commit_call = ch_tx_commit conv calls
  call_method tx_rollback_call = ch_tx_rollback conv calls
  call_method confirm_select_call = ch_confirm_select conv calls

  -- `P` is of a request with its answer, of a post, of an option that is refused, and of `basic_get`.
  pub record Covers (P : Method conv calls → Type 0) : Type 0 where
    pub performs :
        (f : ℤ) (r : Request) (finish : Answer → Reply) → P (perform conv calls f r finish)
    pub posts : (p : Post) → P (perform_post conv calls p)
    pub refuses : (e : Bytes) → P (λ ch s. with_channel conv calls ch s (λ h. (raised e, ch, s)))
    pub gets :
        (r : Request)
        → P (λ ch s. with_channel conv calls ch s (λ h.
          let (reply, w) = calls.request h ch.channel_id r s.system in
          get_settled conv calls h reply ch (record s { system = w })))

  module _ (P : Method conv calls → Type 0) (covers : Covers P) where
    with_options-P :
        {A : Type 0} (o : Fetched A) (go : A → Method conv calls)
        → ((a : A) → P (go a))
        → P (with_options conv calls o go)
    with_options-P (ok a) go h = h a
    with_options-P (bad e) go h = covers.refuses e

    pub call_method-P : (c : Call) → P (call_method c)
    unfolding call_method ch_flow ch_exchange_declare ch_exchange_delete ch_exchange_bind
        ch_exchange_unbind ch_queue_declare ch_queue_delete ch_queue_bind ch_queue_unbind
        ch_queue_purge ch_basic_qos ch_basic_publish ch_basic_consume ch_basic_cancel
        ch_basic_recover ch_basic_get ch_basic_ack ch_basic_nack ch_basic_reject ch_tx_select
        ch_tx_commit ch_tx_rollback ch_confirm_select
    call_method-P (flow_call active) = covers.performs _ _ _
    call_method-P (exchange_declare_call e kind t) = with_options-P _ _ (λ r. covers.performs _ r _)
    call_method-P (exchange_delete_call e t) = with_options-P _ _ (λ r. covers.performs _ _ _)
    call_method-P (exchange_bind_call d e k t) = covers.performs _ _ _
    call_method-P (exchange_unbind_call d e k t) = covers.performs _ _ _
    call_method-P (queue_declare_call q t) = with_options-P _ _ (λ r. covers.performs _ r _)
    call_method-P (queue_delete_call q t) = with_options-P _ _ (λ r. covers.performs _ r _)
    call_method-P (queue_bind_call q e k t) = covers.performs _ _ _
    call_method-P (queue_unbind_call q e k t) = covers.performs _ _ _
    call_method-P (queue_purge_call q) = covers.performs _ _ _
    call_method-P (basic_qos_call size count t) = with_options-P _ _ (λ g. covers.performs _ _ _)
    call_method-P (basic_publish_call m e k t) = with_options-P _ _ (λ p. covers.posts p)
    call_method-P (basic_consume_call q t) = with_options-P _ _ (λ r. covers.performs _ r _)
    call_method-P (basic_cancel_call tag) = covers.performs _ _ _
    call_method-P (basic_recover_call t) = with_options-P _ _ (λ r. covers.performs _ _ _)
    call_method-P (basic_get_call q t) = with_options-P _ _ (λ r. covers.gets _)
    call_method-P (basic_ack_call tag t) = with_options-P _ _ (λ m. covers.posts _)
    call_method-P (basic_nack_call tag t) = with_options-P _ _ (λ p. covers.posts p)
    call_method-P (basic_reject_call tag t) = with_options-P _ _ (λ r. covers.posts _)
    call_method-P tx_select_call = covers.performs _ _ _
    call_method-P tx_commit_call = covers.performs _ _ _
    call_method-P tx_rollback_call = covers.performs _ _ _
    call_method-P confirm_select_call = covers.performs _ _ _
