-- ===== src/Wrappers/Calls.antt =====
-- What the methods of `Channel` of javascript/core/src/wrappers/channel.ts do to the channel's engine.
use pondsocket.Prelude.{String, Option, List, [], ◌∷◌, or_else}
use pondsocket.JsMap.{JsMap}
use pondsocket.Protocol.{
  PondObject, ServerActions, ChannelReceivers, all_users, all_except_sender, user_ids,
  channel_sender, ok, err,
}
use pondsocket.ChannelEngine.State.{Action, throw}
use pondsocket.ChannelEngine.Messages.{send_new_message}
use pondsocket.ChannelEngine.Users
use pondsocket.ChannelEngine.Presence
use pondsocket.Route.{build_pond_route}
use pondsocket.Wrappers.Methods.{
  UserIds, one, many, Broadcast, broadcast, broadcast_from, broadcast_to, ChannelCall,
  broadcast_call, evict_call, track_presence, update_presence, upsert_presence, remove_presence,
  update_assigns, request_user_removal,
}

unfoldable pub users_of : UserIds → List String
users_of (one user) = user ∷ []
users_of (many users) = users

-- `sendMessage` with an event that `buildPondRoute` builds.
unfoldable pub send_built :
    String → ChannelReceivers → String → PondObject → Option (JsMap String) → Action
unfolding build_pond_route send_new_message
send_built sender recipient event payload params c =
    elim (build_pond_route event (or_else params [])) [
      | err x ↦ throw x c
      | ok address ↦ send_new_message sender recipient ServerActions.broadcast address payload c
    ]

unfoldable pub channel_broadcast : Broadcast → Action
unfolding send_built users_of
channel_broadcast (broadcast event payload params) =
    send_built channel_sender all_users event payload params
channel_broadcast (broadcast_from user event payload params) =
    send_built user all_except_sender event payload params
channel_broadcast (broadcast_to users event payload params) =
    send_built channel_sender (user_ids (users_of users)) event payload params

-- `evictUser`.
unfoldable pub evict_user : String → Option String → Action
unfolding Users.kick_user
evict_user user reason =
    Users.kick_user user (or_else reason "You have been banned from the channel")

unfoldable pub channel_call : ChannelCall → Action
unfolding channel_broadcast evict_user
channel_call (broadcast_call b) = channel_broadcast b
channel_call (evict_call user reason) = evict_user user reason
channel_call (track_presence user presence) = Presence.track_presence user presence
channel_call (update_presence user presence) = Presence.update_presence user presence
channel_call (upsert_presence user presence) = Presence.upsert_presence user presence
channel_call (remove_presence user) = Presence.remove_presence user
channel_call (update_assigns user assigns) = Users.update_assigns user assigns
channel_call (request_user_removal user) = Users.request_user_removal user
