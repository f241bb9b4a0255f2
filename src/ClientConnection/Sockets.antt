-- ===== src/ClientConnection/Sockets.antt =====
-- javascript/client/src/core/webSocketClient.ts.
use pondsocket.Prelude.{
  ℕ, suc, String, Bool, true, false, not, Option, none, some, List, [], ◌∷◌, ◌++◌, ◌+◌, ◌*◌,
  nat_beq, leb, if◌then◌else◌,
}
use pondsocket.Protocol.{Json, Result, ok, err}
use pondsocket.ClientChannel.{disconnected, connecting}
use pondsocket.ClientConnection.{
  Client, Effect, threw, open_socket, close_socket, publish_state, publish_error, set_state,
  clear_connection_timeout, clear_reconnect_timeout, schedule_reconnect, clear_channels, without,
  contains,
}
use pondsocket.ClientConnection.Dispatch.{broadcast_all, parse_messages}

-- `connect`: a new socket, with its timer.
unfoldable pub connect : Client → Client × List Effect
unfolding clear_reconnect_timeout
connect c =
    let d = set_state connecting (record (clear_reconnect_timeout c) { disconnecting = false }) in
    (
      record d {
        connection_timer = some d.next_socket;
        connection_timers = d.next_socket ∷ d.connection_timers;
        socket = some d.next_socket;
        next_socket = suc d.next_socket;
      },
      publish_state connecting ∷ open_socket d.next_socket ∷ [],
    )

-- The timer of a socket's connection runs out.
unfoldable pub connection_timed_out : ℕ → Bool → Client → Client × List Effect
connection_timed_out n is_connecting c =
    if contains n c.connection_timers
    then (
      record c { connection_timers = without n c.connection_timers },
      if is_connecting then publish_error "Connection timeout" ∷ close_socket n ∷ [] else [],
    )
    else (c, [])

-- `_clearPongTimeout`.
unfoldable pub clear_pong_timeout : Client → Client
clear_pong_timeout c = record c { pong_timer = none }

-- `_schedulePongTimeout`.
unfoldable pub schedule_pong_timeout : ℕ → Client → Client
unfolding clear_pong_timeout
schedule_pong_timeout n c = record (clear_pong_timeout c) { pong_timer = some n }

-- `onopen`, at a time.
unfoldable pub opened : ℕ → ℕ → Client → Client
unfolding clear_connection_timeout clear_pong_timeout schedule_pong_timeout
opened n now c =
    let d = record (clear_pong_timeout (clear_connection_timeout c)) {
      reconnect_attempts = 0;
      last_message_time = now;
    } in
    if nat_beq c.ping_interval 0 then d else schedule_pong_timeout n d

-- The timer of `_schedulePongTimeout` runs out.
unfoldable pub pong_timed_out : ℕ → Client → Client × List Effect
unfolding schedule_pong_timeout
pong_timed_out now c = elim c.pong_timer [
  | none ↦ (c, [])
  | some n ↦
      if leb (c.last_message_time + c.ping_interval * 2) now
      then (
        record c { pong_timer = none },
        publish_error "Connection lost: no response from server" ∷ close_socket n ∷ [],
      )
      else (schedule_pong_timeout n c, [])
]

-- `onmessage`: no event is published unless all are valid.
unfoldable pub message_received :
    String → ℕ → List (Option (Result Json)) → Client → Client × List Effect
unfolding parse_messages broadcast_all
message_received refusal now lines c =
    let d = record c { last_message_time = now } in
    elim (parse_messages refusal lines) [ err x ↦ (d, threw x ∷ []) | ok vs ↦ broadcast_all vs d ]

-- `onerror`.
unfoldable pub failed : ℕ → List Effect
failed n = publish_error "WebSocket error" ∷ close_socket n ∷ []

abbrev pub is_socket : ℕ → Option ℕ → Bool
is_socket n none = false
is_socket n (some m) = nat_beq m n

-- `onclose`.
unfoldable pub closed : ℕ → Client → Client × List Effect
unfolding clear_connection_timeout clear_pong_timeout schedule_reconnect
closed n c = if not (is_socket n c.socket) then (c, []) else (
  schedule_reconnect (
      set_state disconnected
        (clear_pong_timeout (clear_connection_timeout (record c { socket = none })))),
  publish_state disconnected ∷ [],
)

-- `disconnect`.
unfoldable pub disconnect : Client → Client × List Effect
unfolding clear_connection_timeout clear_reconnect_timeout clear_pong_timeout clear_channels
disconnect c =
    let d =
      set_state disconnected
        (record (clear_pong_timeout (clear_reconnect_timeout (clear_connection_timeout c))) {
          disconnecting = true;
        }) in
    let (e, es) = clear_channels d in
    (
      e,
      publish_state disconnected
          ∷ (elim d.socket as (λ _. List Effect) [ none ↦ [] | some n ↦ close_socket n ∷ [] ]
              ++ es),
    )

-- The timer of `_scheduleReconnect` runs out.
unfoldable pub reconnect_timed_out : Client → Client × List Effect
unfolding connect
reconnect_timed_out c = elim c.reconnect_timer [
  | none ↦ (c, [])
  | some delay ↦
      let d = record c { reconnect_timer = none } in if d.disconnecting then (d, []) else connect d
]
