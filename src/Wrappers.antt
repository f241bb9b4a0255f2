-- ===== src/Wrappers.antt =====
-- What the application calls: javascript/core/src/wrappers/channel.ts, the part of pondChannel.ts that leads to a
-- channel by its name, and closeConnection and getClients of endpoint.ts.
pub mod Methods
pub mod Calls
pub mod Broadcasts
mod Tests
use pondsocket.Prelude.{ℕ, String, Option, none, some, List, [], ◌∷◌, or_else}
use pondsocket.JsMap.{JsMap}
use pondsocket.Protocol.{
  PondObject, ServerActions, ChannelReceivers, all_users, all_except_sender, user_ids,
  channel_sender, Error, Result, ok, err, plain_error, UserData,
}
use pondsocket.ChannelEngine.State.{M, Action, throw}
use pondsocket.ChannelEngine.Messages.{send_new_message}
use pondsocket.ChannelEngine.Users
use pondsocket.ChannelEngine.Presence
use pondsocket.Route.{build_pond_route}
use pondsocket.Endpoint.State.{
  EndpointEngine, Exit, done, raised, call, get_elem?, SocketCache, close_socket, Effect,
}
use pondsocket.Endpoint.Lobby.{get_channel}
use pondsocket.Endpoint.Sockets
use pondsocket.Wrappers.Methods.{Broadcast}
use pondsocket.Wrappers.Calls.{channel_broadcast}

-- `#getChannel` of a `PondChannel`, by the place of its lobby: the place of the channel's engine.
unfoldable pub find_channel : ℕ → String → EndpointEngine → Result ℕ
unfolding get_channel
find_channel lobby name s = elim (get_elem? s.lobbies lobby) [
  | none ↦ err (plain_error "no lobby")
  | some l ↦ get_channel name l
]

-- `getChannel` of a `PondChannel`.
unfoldable pub channel_or_null : ℕ → String → EndpointEngine → Option ℕ
unfolding find_channel
channel_or_null lobby name s = elim (find_channel lobby name s) [ err x ↦ none | ok id ↦ some id ]

-- `broadcast`, `broadcastFrom` and `broadcastTo` of a `PondChannel`.
unfoldable pub pond_channel_broadcast :
    ℕ → String → Broadcast → EndpointEngine → Exit EndpointEngine (Unit {0})
unfolding find_channel call channel_broadcast
pond_channel_broadcast lobby name b s = elim (find_channel lobby name s) [
  | err x ↦ raised x s []
  | ok id ↦ call id (channel_broadcast b) s
]
