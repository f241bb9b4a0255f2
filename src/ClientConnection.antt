-- ===== src/ClientConnection.antt =====
-- javascript/client/src/core/baseClient.ts and webSocketClient.ts: the client's connection. Sockets and
-- channels are objects with a number each, and what the client does to them is an effect; a channel's own
-- behaviour, its state included, is that of ClientChannel. The texts of the lines of a message after
-- `JSON.parse`, the clock and a socket's `readyState` are arguments.
pub mod Dispatch
pub mod Sockets
pub mod Runs
pub mod Reconnects
pub mod Replies
mod Tests
use pondsocket.Prelude.{
  ℕ, suc, String, Bool, true, false, not, ◌&&◌, Option, none, some, List, [], ◌∷◌, ◌++◌, ◌*◌, ◌^◌,
  min, nat_beq, if◌then◌else◌,
}
use pondsocket.JsMap.{JsMap, get, set}
use pondsocket.Protocol.{PondObject, Json, ChannelEvent, Error}
use pondsocket.ClientChannel.{ChannelState, ConnectionState, disconnected, is_closed}

-- What `#handleError` makes of an error's payload; what may be missing is an option.
pub record PondErrorPayload : Type 0 where
  pub code : String
  pub message : Json
  pub status : Json
  pub details : Option Json

-- What the client does: with its sockets, its subjects' subscribers, and its channels; what a
-- callback throws is its last effect.
pub data Effect : Type 0 where
  open_socket : ℕ → Effect
  close_socket : ℕ → Effect
  publish_state : ConnectionState → Effect
  publish_error : String → Effect
  publish_event : ChannelEvent → Effect
  make_channel : ℕ → String → PondObject → ℕ → Effect
  acknowledge_channel : ℕ → String → Effect
  decline_channel : ℕ → PondErrorPayload → String → Effect
  leave_channel : ℕ → Effect
  threw : Error → Effect

-- `connection_timer` is the socket whose timer `_connectionTimeoutId` holds, `connection_timers` are all that
-- run; `reconnect_timer` is the running reconnection's delay; `pong_timer` the socket of the timer that runs.
-- `_pingIntervalId` is never set.
pub record Client : Type 0 where
  pub disconnecting : Bool
  pub reconnect_attempts : ℕ
  pub connection_timer : Option ℕ
  pub connection_timers : List ℕ
  pub reconnect_timer : Option ℕ
  pub connection_state : ConnectionState
  pub channels : JsMap ℕ
  pub next_channel : ℕ
  pub socket : Option ℕ
  pub next_socket : ℕ
  pub pong_timer : Option ℕ
  pub last_message_time : ℕ
  pub join_timeout : ℕ
  pub max_reconnect_delay : ℕ
  pub ping_interval : ℕ

unfoldable pub new_client : ℕ → ℕ → ℕ → Client
new_client join_timeout max_reconnect_delay ping_interval = record {
  disconnecting = false;
  reconnect_attempts = 0;
  connection_timer = none;
  connection_timers = [];
  reconnect_timer = none;
  connection_state = disconnected;
  channels = [];
  next_channel = 0;
  socket = none;
  next_socket = 0;
  pong_timer = none;
  last_message_time = 0;
  join_timeout = join_timeout;
  max_reconnect_delay = max_reconnect_delay;
  ping_interval = ping_interval;
}

abbrev pub without : ℕ → List ℕ → List ℕ
without n [] = []
without n (m ∷ ms) = if nat_beq m n then without n ms else m ∷ without n ms

abbrev pub contains : ℕ → List ℕ → Bool
contains n [] = false
contains n (m ∷ ms) = if nat_beq m n then true else contains n ms

-- `_clearConnectionTimeout`.
unfoldable pub clear_connection_timeout : Client → Client
clear_connection_timeout c = elim c.connection_timer [
  | none ↦ c
  | some n ↦ record c { connection_timer = none; connection_timers = without n c.connection_timers }
]

-- `_clearReconnectTimeout`.
unfoldable pub clear_reconnect_timeout : Client → Client
clear_reconnect_timeout c = record c { reconnect_timer = none }

-- The delay of a reconnection after a number of attempts.
unfoldable pub reconnect_delay : ℕ → ℕ → ℕ
reconnect_delay most attempts = min (1000 * 2 ^ attempts) most

-- `_scheduleReconnect`.
unfoldable pub schedule_reconnect : Client → Client
unfolding reconnect_delay
schedule_reconnect c = if c.disconnecting then c else record c {
  reconnect_attempts = suc c.reconnect_attempts;
  reconnect_timer = some (reconnect_delay c.max_reconnect_delay c.reconnect_attempts);
}

-- A publication on `_connectionState`.
abbrev pub set_state : ConnectionState → Client → Client
set_state s c = record c { connection_state = s }

-- `createChannel` by a name, with the timeout for joins that applies, and the channels' states.
unfoldable pub create_channel :
    (ℕ → ChannelState) → String → PondObject → Option ℕ → Client → ℕ × (Client × List Effect)
create_channel states name params join_timeout c =
    let fresh : ℕ × (Client × List Effect) = (
      c.next_channel,
      (
        record c {
          channels = set name c.next_channel c.channels;
          next_channel = suc c.next_channel;
        },
        make_channel c.next_channel name params
              (elim join_timeout [ none ↦ c.join_timeout | some t ↦ t ])
            ∷ [],
      ),
    ) in
    elim (get name c.channels) [
      | none ↦ fresh
      | some n ↦ if is_closed (states n) then fresh else (n, (c, []))
    ]

-- `_clearChannels`.
unfoldable pub leave_all : JsMap ℕ → List Effect
leave_all [] = []
leave_all ((name, n) ∷ more) = leave_channel n ∷ leave_all more

unfoldable pub clear_channels : Client → Client × List Effect
unfolding leave_all
clear_channels c = (record c { channels = [] }, leave_all c.channels)
