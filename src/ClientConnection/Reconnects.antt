-- ===== src/ClientConnection/Reconnects.antt =====
-- When a client reconnects, after how long, and when it does not.
use pondsocket.Prelude.{
  ℕ, suc, String, Bool, true, false, ◌&&◌, ◌||◌, Option, some, List, [], ◌∷◌, ◌++◌, ◌≡◌, refl,
  arith, min, ◌≤◌, ◌∙◌,
}
use native.Mathlib.Nat.{pow-suc}
use pondsocket.JsMap.{JsMap}
use pondsocket.Protocol.{PondObject, ChannelEvent, Json, Result, ok, err}
use pondsocket.ClientChannel.{ChannelState, disconnected, connecting}
use pondsocket.ClientConnection.{
  Client, Effect, threw, publish_event, open_socket, create_channel, schedule_reconnect,
  reconnect_delay, clear_connection_timeout, clear_channels, clear_reconnect_timeout, leave_all,
}
use pondsocket.ClientConnection.Dispatch.{
  dispatch, broadcast_all, parse_messages, handle_acknowledge, handle_error,
}
use pondsocket.ClientConnection.Sockets.{
  connect, connection_timed_out, pong_timed_out, message_received, closed, disconnect,
  reconnect_timed_out, failed, clear_pong_timeout, is_socket,
}
use pondsocket.ClientConnection.Runs.{
  Op, connect_op, disconnect_op, reconnect_timer_op, create_op, opened_op, received_op, failed_op,
  closed_op, connection_timer_op, pong_timer_op, step, run, is_none, SameReconnection,
  received-SameReconnection, create_channel-SameReconnection, opened-SameReconnection,
  connection_timed_out-SameReconnection, pong_timed_out-SameReconnection,
}

-- The delay of a reconnection is never longer than configured, never shorter than that of the attempt before, and
-- the first is a second or, if that is shorter, the configured time.
pub reconnect_delay-bounds :
    (most attempts : ℕ)
    → (reconnect_delay most attempts ≤ most)
      × (reconnect_delay most attempts ≤ reconnect_delay most (suc attempts))
      × (reconnect_delay most 0 ≡ min 1000 most)
unfolding reconnect_delay
reconnect_delay-bounds most attempts = (omega arith, omega (arith, pow-suc 2 attempts), omega arith)

-- When the socket of a client that was not disconnected closes, the client is disconnected and waits; once that time is
-- over, it opens a new socket and is connecting.
pub closed-reconnects :
    (n : ℕ) (c : Client)
    → is_socket n c.socket ≡ true
    → c.disconnecting ≡ false
    → let d = (closed n c).0 in
      (d.connection_state ≡ disconnected)
      × (d.reconnect_timer ≡ some (reconnect_delay c.max_reconnect_delay c.reconnect_attempts))
      × ((reconnect_timed_out d).0.connection_state ≡ connecting)
      × ((reconnect_timed_out d).0.socket ≡ some c.next_socket)
unfolding closed reconnect_timed_out connect schedule_reconnect clear_connection_timeout
    clear_pong_timeout clear_reconnect_timeout
closed-reconnects n c h k = (ground arith, ground arith, ground arith, ground arith)

abbrev pub is_opening : Effect → Bool
is_opening (open_socket n) = true
is_opening _ = false

-- Some effect opens a socket.
abbrev pub opens : List Effect → Bool
opens [] = false
opens (e ∷ es) = is_opening e || opens es

opens-append : (es fs : List Effect) → opens (es ++ fs) ≡ (opens es || opens fs)
opens-append [] fs = refl
opens-append (e ∷ es) fs = ground (arith, opens-append es fs)

abbrev has_parted : Client → Bool
has_parted c = c.disconnecting && is_none c.reconnect_timer

abbrev pub is_connect : Op → Bool
is_connect connect_op = true
is_connect _ = false

-- Some operation of the list connects.
abbrev pub connects : List Op → Bool
connects [] = false
connects (o ∷ os) = is_connect o || connects os

-- A step of a client that has parted.
abbrev IsQuiet : Client × List Effect → Type 0
IsQuiet (c, es) = (has_parted c ≡ true) × (opens es ≡ false)

opens-leave_all : (ns : JsMap ℕ) → opens (leave_all ns) ≡ false
unfolding leave_all
opens-leave_all [] = refl
opens-leave_all ((name, n) ∷ more) = opens-leave_all more

disconnect-IsQuiet : (c : Client) → IsQuiet (disconnect c)
unfolding disconnect clear_channels clear_pong_timeout clear_reconnect_timeout
disconnect-IsQuiet c = (ground arith, ground (arith, opens-leave_all c.channels))

opens-dispatch : (v : ChannelEvent) (c : Client) → opens (dispatch v c).1 ≡ false
unfolding dispatch handle_acknowledge handle_error
opens-dispatch v c = ground arith

opens-between :
    (v : ChannelEvent) (es fs : List Effect)
    → opens es ≡ false
    → opens fs ≡ false
    → opens (es ++ (publish_event v ∷ fs)) ≡ false
opens-between v es fs h k = opens-append es (publish_event v ∷ fs) ∙ ground arith

opens-broadcast_all : (vs : List ChannelEvent) (c : Client) → opens (broadcast_all vs c).1 ≡ false
unfolding broadcast_all
opens-broadcast_all [] c = refl
opens-broadcast_all (v ∷ vs) c =
    opens-between v (dispatch v c).1 (broadcast_all vs (dispatch v c).0).1 (opens-dispatch v c)
      (opens-broadcast_all vs (dispatch v c).0)

opens-received :
    (refusal : String) (now : ℕ) (lines : List (Option (Result Json))) (c : Client)
    → opens (step (received_op refusal now lines) c).1 ≡ false
unfolding step message_received
opens-received refusal now lines c = parsed (parse_messages refusal lines)
  where
    parsed :
        (r : Result (List ChannelEvent))
        → opens
            (elim r as (λ _. Client × List Effect) [
              | err x ↦ (record c { last_message_time = now }, threw x ∷ [])
              | ok vs ↦ broadcast_all vs (record c { last_message_time = now })
            ]).1
          ≡ false
    parsed (err x) = refl
    parsed (ok vs) = opens-broadcast_all vs (record c { last_message_time = now })

SameReconnection-has_parted :
    {c d : Client} → SameReconnection c d → has_parted c ≡ true → has_parted d ≡ true
SameReconnection-has_parted {c} {d} h v = ground arith

opens-create_channel :
    (states : ℕ → ChannelState) (name : String) (params : PondObject) (timeout : Option ℕ)
    (c : Client)
    → opens (create_channel states name params timeout c).1.1 ≡ false
unfolding create_channel
opens-create_channel states name params timeout c = ground arith

opens-failed : (n : ℕ) → opens (failed n) ≡ false
unfolding failed
opens-failed n = refl

closed-IsQuiet : (n : ℕ) (c : Client) → has_parted c ≡ true → IsQuiet (closed n c)
unfolding closed schedule_reconnect clear_pong_timeout clear_connection_timeout
closed-IsQuiet n c v = (ground arith, ground arith)

opens-connection_timed_out :
    (n : ℕ) (is_connecting : Bool) (c : Client)
    → opens (connection_timed_out n is_connecting c).1 ≡ false
unfolding connection_timed_out
opens-connection_timed_out n is_connecting c = ground arith

opens-pong_timed_out : (now : ℕ) (c : Client) → opens (pong_timed_out now c).1 ≡ false
unfolding pong_timed_out
opens-pong_timed_out now c = ground arith

reconnect_timed_out-IsQuiet : (c : Client) → has_parted c ≡ true → IsQuiet (reconnect_timed_out c)
unfolding reconnect_timed_out
reconnect_timed_out-IsQuiet c v = (ground arith, ground arith)

step-IsQuiet :
    (o : Op) (c : Client) → is_connect o ≡ false → has_parted c ≡ true → IsQuiet (step o c)
unfolding step
step-IsQuiet connect_op c n v = cc
step-IsQuiet disconnect_op c n v = disconnect-IsQuiet c
step-IsQuiet reconnect_timer_op c n v = reconnect_timed_out-IsQuiet c v
step-IsQuiet (create_op states name params timeout) c n v = (
  SameReconnection-has_parted (create_channel-SameReconnection states name params timeout c) v,
  opens-create_channel states name params timeout c,
)
step-IsQuiet (opened_op m now) c n v =
    (SameReconnection-has_parted (opened-SameReconnection m now c) v, refl)
step-IsQuiet (received_op refusal now lines) c n v = (
  SameReconnection-has_parted (received-SameReconnection refusal now lines c) v,
  opens-received refusal now lines c,
)
step-IsQuiet (failed_op m) c n v = (v, opens-failed m)
step-IsQuiet (closed_op m) c n v = closed-IsQuiet m c v
step-IsQuiet (connection_timer_op m is_connecting) c n v = (
  SameReconnection-has_parted (connection_timed_out-SameReconnection m is_connecting c) v,
  opens-connection_timed_out m is_connecting c,
)
step-IsQuiet (pong_timer_op now) c n v = (
  SameReconnection-has_parted (pong_timed_out-SameReconnection now c) v,
  opens-pong_timed_out now c,
)

run-IsQuiet :
    (os : List Op) (c : Client) → connects os ≡ false → has_parted c ≡ true → IsQuiet (run os c)
unfolding run
run-IsQuiet [] c n v = (v, refl)
run-IsQuiet (o ∷ os) c n v =
    let first = step-IsQuiet o c (ground arith) v in
    let others = run-IsQuiet os (step o c).0 (ground arith) first.0 in
    (
      others.0,
      opens-append (step o c).1 (run os (step o c).0).1 ∙ ground (arith, first.1, others.1),
    )

-- After a disconnection, whatever the sockets, the timers and the application do, no socket is opened until the
-- application connects again.
pub run-disconnect-opens :
    (c : Client) (os : List Op) → connects os ≡ false → opens (run os (disconnect c).0).1 ≡ false
run-disconnect-opens c os h = (run-IsQuiet os (disconnect c).0 h (disconnect-IsQuiet c).0).1
