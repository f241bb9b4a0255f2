-- ===== src/ClientConnection/Runs.antt =====
-- Runs of the client's connection: what the application, the sockets and the timers do, in any order.
use pondsocket.Prelude.{
  ℕ, String, Bool, true, false, not, ◌&&◌, ◌||◌, Option, none, some, List, [], ◌∷◌, ◌++◌, ◌≡◌, refl,
  arith, leb,
}
use pondsocket.Protocol.{PondObject, ChannelEvent, Json, Result, ok, err}
use pondsocket.ClientChannel.{ChannelState}
use pondsocket.ClientConnection.{
  Client, Effect, threw, new_client, create_channel, schedule_reconnect, reconnect_delay,
  clear_connection_timeout, clear_channels, clear_reconnect_timeout,
}
use pondsocket.ClientConnection.Dispatch.{dispatch, broadcast_all, parse_messages}
use pondsocket.ClientConnection.Sockets.{
  connect, connection_timed_out, opened, pong_timed_out, message_received, closed, disconnect,
  reconnect_timed_out, failed, clear_pong_timeout, schedule_pong_timeout,
}

-- The application connects, disconnects or creates a channel; a socket opens, receives, fails or closes; a timer
-- runs out.
pub data Op : Type 0 where
  connect_op disconnect_op reconnect_timer_op : Op
  create_op : (ℕ → ChannelState) → String → PondObject → Option ℕ → Op
  opened_op : ℕ → ℕ → Op
  received_op : String → ℕ → List (Option (Result Json)) → Op
  failed_op closed_op : ℕ → Op
  connection_timer_op : ℕ → Bool → Op
  pong_timer_op : ℕ → Op

unfoldable pub step : Op → Client → Client × List Effect
step connect_op c = connect c
step disconnect_op c = disconnect c
step reconnect_timer_op c = reconnect_timed_out c
step (create_op states name params timeout) c = (create_channel states name params timeout c).1
step (opened_op n now) c = (opened n now c, [])
step (received_op refusal now lines) c = message_received refusal now lines c
step (failed_op n) c = (c, failed n)
step (closed_op n) c = closed n c
step (connection_timer_op n is_connecting) c = connection_timed_out n is_connecting c
step (pong_timer_op now) c = pong_timed_out now c

unfoldable pub run : List Op → Client → Client × List Effect
unfolding step
run [] c = (c, [])
run (o ∷ os) c = let (d, es) = step o c in let (e, fs) = run os d in (e, es ++ fs)

abbrev pub is_none : Option ℕ → Bool
is_none none = true
is_none (some n) = false

abbrev pub is_below : ℕ → Option ℕ → Bool
is_below most none = true
is_below most (some n) = leb n most

-- A reconnection is awaited only by a client that has no socket and was not disconnected, and for no longer than
-- the configured time.
abbrev pub is_calm : Client → Bool
is_calm c =
    is_none c.reconnect_timer
    || (not c.disconnecting && is_none c.socket && is_below c.max_reconnect_delay c.reconnect_timer)

-- What a step leaves of what a reconnection depends on.
pub record SameReconnection (c d : Client) : Type 0 where
  pub timer : d.reconnect_timer ≡ c.reconnect_timer
  pub parting : d.disconnecting ≡ c.disconnecting
  pub socket : d.socket ≡ c.socket
  pub most : d.max_reconnect_delay ≡ c.max_reconnect_delay

SameReconnection-trans :
    {c d e : Client} → SameReconnection c d → SameReconnection d e → SameReconnection c e
SameReconnection-trans {c} {d} {e} h k = ground arith

dispatch-SameReconnection : (v : ChannelEvent) (c : Client) → SameReconnection c (dispatch v c).0
unfolding dispatch
dispatch-SameReconnection v c = ground arith

broadcast_all-SameReconnection :
    (vs : List ChannelEvent) (c : Client) → SameReconnection c (broadcast_all vs c).0
unfolding broadcast_all
broadcast_all-SameReconnection [] c = ground arith
broadcast_all-SameReconnection (v ∷ vs) c =
    SameReconnection-trans (dispatch-SameReconnection v c)
      (broadcast_all-SameReconnection vs (dispatch v c).0)

pub received-SameReconnection :
    (refusal : String) (now : ℕ) (lines : List (Option (Result Json))) (c : Client)
    → SameReconnection c (step (received_op refusal now lines) c).0
unfolding step message_received
received-SameReconnection refusal now lines c = parsed (parse_messages refusal lines)
  where
    parsed :
        (r : Result (List ChannelEvent))
        → SameReconnection c
            (elim r as (λ _. Client × List Effect) [
              | err x ↦ (record c { last_message_time = now }, threw x ∷ [])
              | ok vs ↦ broadcast_all vs (record c { last_message_time = now })
            ]).0
    parsed (err x) = record { timer = refl; parting = refl; socket = refl; most = refl }
    parsed (ok vs) =
        SameReconnection-trans (record { timer = refl; parting = refl; socket = refl; most = refl })
          (broadcast_all-SameReconnection vs (record c { last_message_time = now }))

clear_connection_timeout-SameReconnection :
    (c : Client) → SameReconnection c (clear_connection_timeout c)
unfolding clear_connection_timeout
clear_connection_timeout-SameReconnection c = ground arith

SameReconnection-is_calm :
    {c d : Client} → SameReconnection c d → is_calm c ≡ true → is_calm d ≡ true
SameReconnection-is_calm {c} {d} h v = ground arith

pub create_channel-SameReconnection :
    (states : ℕ → ChannelState) (name : String) (params : PondObject) (timeout : Option ℕ)
    (c : Client)
    → SameReconnection c (create_channel states name params timeout c).1.0
unfolding create_channel
create_channel-SameReconnection states name params timeout c = ground arith

pub opened-SameReconnection : (n now : ℕ) (c : Client) → SameReconnection c (opened n now c)
unfolding opened clear_connection_timeout clear_pong_timeout schedule_pong_timeout
opened-SameReconnection n now c = ground arith

pub connection_timed_out-SameReconnection :
    (n : ℕ) (is_connecting : Bool) (c : Client)
    → SameReconnection c (connection_timed_out n is_connecting c).0
unfolding connection_timed_out
connection_timed_out-SameReconnection n is_connecting c = ground arith

pub pong_timed_out-SameReconnection :
    (now : ℕ) (c : Client) → SameReconnection c (pong_timed_out now c).0
unfolding pong_timed_out schedule_pong_timeout clear_pong_timeout
pong_timed_out-SameReconnection now c = ground arith

connect-is_calm : (c : Client) → is_calm (connect c).0 ≡ true
unfolding connect clear_reconnect_timeout
connect-is_calm c = refl

closed-is_calm : (n : ℕ) (c : Client) → is_calm c ≡ true → is_calm (closed n c).0 ≡ true
unfolding closed schedule_reconnect clear_pong_timeout clear_connection_timeout reconnect_delay
closed-is_calm n c v = ground arith

disconnect-is_calm : (c : Client) → is_calm (disconnect c).0 ≡ true
unfolding disconnect clear_pong_timeout clear_reconnect_timeout clear_channels
disconnect-is_calm c = ground arith

reconnect_timed_out-is_calm :
    (c : Client) → is_calm c ≡ true → is_calm (reconnect_timed_out c).0 ≡ true
unfolding reconnect_timed_out
reconnect_timed_out-is_calm c v = ground (arith, connect-is_calm c)

step-is_calm : (o : Op) (c : Client) → is_calm c ≡ true → is_calm (step o c).0 ≡ true
unfolding step
step-is_calm connect_op c v = connect-is_calm c
step-is_calm disconnect_op c v = disconnect-is_calm c
step-is_calm reconnect_timer_op c v = reconnect_timed_out-is_calm c v
step-is_calm (create_op states name params timeout) c v =
    SameReconnection-is_calm (create_channel-SameReconnection states name params timeout c) v
step-is_calm (opened_op n now) c v = SameReconnection-is_calm (opened-SameReconnection n now c) v
step-is_calm (received_op refusal now lines) c v =
    SameReconnection-is_calm (received-SameReconnection refusal now lines c) v
step-is_calm (failed_op n) c v = v
step-is_calm (closed_op n) c v = closed-is_calm n c v
step-is_calm (connection_timer_op n is_connecting) c v =
    SameReconnection-is_calm (connection_timed_out-SameReconnection n is_connecting c) v
step-is_calm (pong_timer_op now) c v =
    SameReconnection-is_calm (pong_timed_out-SameReconnection now c) v

run-is_calm : (os : List Op) (c : Client) → is_calm c ≡ true → is_calm (run os c).0 ≡ true
unfolding run
run-is_calm [] c v = v
run-is_calm (o ∷ os) c v = run-is_calm os (step o c).0 (step-is_calm o c v)

-- Whatever the application, the sockets and the timers do to a new client, in any order: a reconnection is awaited
-- only while the client has no socket and was not disconnected, and for no longer than the configured time.
pub run-new_client-is_calm :
    (join_timeout max_reconnect_delay ping_interval : ℕ) (os : List Op)
    → is_calm (run os (new_client join_timeout max_reconnect_delay ping_interval)).0 ≡ true
unfolding new_client
run-new_client-is_calm join_timeout max_reconnect_delay ping_interval os =
    run-is_calm os (new_client join_timeout max_reconnect_delay ping_interval) refl
