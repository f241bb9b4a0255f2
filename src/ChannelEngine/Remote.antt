-- ===== src/ChannelEngine/Remote.antt =====
-- `#handleDistributedMessage` and the handler of each kind of message.
use pondsocket.Prelude.{
  ℕ, String, false, not, Option, none, some, List, [], ◌∷◌, map, is_empty, or_else, ◌==◌,
  if◌then◌else◌, select, includes,
}
use pondsocket.JsMap.{get, has, set, delete, remove}
use pondsocket.Presence
use pondsocket.Protocol.{
  PondObject, Json, str, num, ServerActions, ChannelReceivers, all_users, all_except_sender,
  user_ids, other, UserData, MessageBody, DistributedMessage, state_request, state_response,
  user_joined, user_left, user_message, presence_update, presence_removed, assigns_update,
  evict_user, user_remove, user_get_request, user_get_response, node_heartbeat,
}
use pondsocket.ChannelEngine.State.{
  ChannelEngine, resolve_user_get, Action, ◌>>=◌, ◌>>◌, pure, when, emit, get_state, modify, users,
  has_user, uuid, publish, broadcast_to_nodes,
}
use pondsocket.ChannelEngine.Presence.{
  ensure_presence_engine, call_presence_engine, safe_remove_presence,
}
use pondsocket.ChannelEngine.Users.{presence_of, drop_subscription, remove_user}
use pondsocket.ChannelEngine.Nodes.{track_node_user, untrack_node_user}

abbrev pub user_entry : ChannelEngine → String × PondObject → UserData
unfolding presence_of
user_entry c (id, assigns) = record {
  id = id;
  assigns = assigns;
  presence = or_else (presence_of id c) [];
}

unfoldable pub handle_state_request : Action
unfolding user_entry users broadcast_to_nodes
handle_state_request = do
  c ← get_state
  when (not (is_empty (users c)))
      (broadcast_to_nodes (state_response (some (map (user_entry c) c.assigns_cache))))

unfoldable pub adopt_presence : String → PondObject → Action
unfolding ensure_presence_engine call_presence_engine
adopt_presence user presence = do
  ensure_presence_engine
  call_presence_engine (Presence.upsert_presence user presence)

-- One entry of a state response: a user that this node does not know yet.
unfoldable pub adopt_user : Option String → ℕ → UserData → Action
unfolding has_user
adopt_user source now user = do
  c ← get_state
  when (not (has_user user.id c)) (do
    modify (λ d. record d { assigns_cache = set user.id user.assigns d.assigns_cache })
    track_node_user source user.id now
    when (not (is_empty user.presence)) (adopt_presence user.id user.presence))

unfoldable pub adopt_users : Option String → ℕ → List UserData → Action
adopt_users source now [] = pure tt
adopt_users source now (user ∷ more) = do adopt_user source now user; adopt_users source now more

unfoldable pub handle_state_response : Option String → ℕ → Option (List UserData) → Action
handle_state_response source now none = pure tt
handle_state_response source now (some us) = adopt_users source now us

unfoldable pub handle_remote_user_joined :
    Option String → ℕ → String → PondObject → PondObject → Action
unfolding has_user track_node_user ensure_presence_engine call_presence_engine
handle_remote_user_joined source now user presence assigns = do
  c ← get_state
  when (not (has_user user c)) (do
    modify (λ d. record d { assigns_cache = set user assigns d.assigns_cache })
    track_node_user source user now
    when (not (is_empty presence))
        (do ensure_presence_engine; call_presence_engine (Presence.track_presence user presence)))

unfoldable pub handle_remote_user_left : Option String → String → Action
unfolding untrack_node_user safe_remove_presence
handle_remote_user_left source user = do
  modify (λ d. record d { assigns_cache = delete user d.assigns_cache })
  untrack_node_user source user
  safe_remove_presence user

-- The users of this node that a message from another node is for; none for an unknown descriptor.
unfoldable pub remote_recipients : ChannelReceivers → String → List String → Option (List String)
remote_recipients all_users from us = some us
remote_recipients all_except_sender from us = some (select (λ u. not (u == from)) us)
remote_recipients (user_ids ids) from us = some (select (includes ids) us)
remote_recipients (other _) from us = none

unfoldable pub handle_remote_message :
    String → String → PondObject → String → ChannelReceivers → Action
unfolding users remote_recipients publish
handle_remote_message from event payload request_id recipient c =
    elim (remote_recipients recipient from (users c)) [
      | none ↦ pure tt c
      | some recipients ↦
          when (not (is_empty recipients))
            (publish (record {
              event = record {
                action = ServerActions.broadcast;
                event = event;
                payload = payload;
                channel_name = c.name;
                request_id = request_id;
              };
              recipients = recipients;
            }))
            c
    ]

-- The assigns of a known user after an update: the snapshot, or else the single key.
unfoldable pub updated_assigns :
    Option PondObject → Option (String × Json) → PondObject → PondObject
updated_assigns (some assigns) change current = assigns
updated_assigns none none current = current
updated_assigns none (some (key, value)) current =
    if key == "" then current else set key value current

unfoldable pub handle_remote_assigns_update :
    String → Option PondObject → Option (String × Json) → Action
unfolding updated_assigns
handle_remote_assigns_update user assigns change c = elim (get user c.assigns_cache) [
  | none ↦ pure tt c
  | some current ↦
      modify
        (λ d. record d {
          assigns_cache = set user (updated_assigns assigns change current) d.assigns_cache;
        })
        c
]

unfoldable pub publish_kicked_out : String → String → Action
unfolding uuid publish
publish_kicked_out user reason = do
  request_id ← uuid
  c ← get_state
  publish (record {
    event = record {
      action = ServerActions.system;
      event = "kicked_out";
      payload = ("message", str reason) ∷ ("code", num 403) ∷ [];
      channel_name = c.name;
      request_id = request_id;
    };
    recipients = user ∷ [];
  })

unfoldable pub handle_remote_evict_user : String → String → Action
unfolding publish_kicked_out safe_remove_presence drop_subscription
handle_remote_evict_user user reason = do
  c ← get_state
  when (has user c.user_subscriptions) (publish_kicked_out user reason)
  modify (λ d. record d { assigns_cache = delete user d.assigns_cache })
  safe_remove_presence user
  drop_subscription user

unfoldable pub handle_remote_user_remove : Option String → String → Action
unfolding remove_user safe_remove_presence untrack_node_user
handle_remote_user_remove source user c =
    if has user c.user_subscriptions
    then remove_user user false c
    else (do
      modify (λ d. record d { assigns_cache = delete user d.assigns_cache })
      safe_remove_presence user
      untrack_node_user source user)
        c

unfoldable pub handle_remote_user_get_request : String → String → Action
unfolding presence_of broadcast_to_nodes
handle_remote_user_get_request user request_id = do
  c ← get_state
  when (has user c.user_subscriptions) (
      broadcast_to_nodes (
        user_get_response user request_id (or_else (get user c.assigns_cache) [])
          (or_else (presence_of user c) [])))

unfoldable pub handle_remote_user_get_response : String → String → PondObject → PondObject → Action
handle_remote_user_get_response user request_id assigns presence = do
  c ← get_state
  when (includes c.pending_user_gets request_id) (do
    modify (λ d. record d { pending_user_gets = remove request_id d.pending_user_gets })
    emit (
        resolve_user_get request_id
          (some (record { id = user; assigns = assigns; presence = presence }))
        ∷ []))

unfoldable pub handle_body : Option String → ℕ → MessageBody → Action
unfolding handle_state_request handle_state_response handle_remote_user_joined
    handle_remote_user_left handle_remote_message adopt_presence safe_remove_presence
    handle_remote_assigns_update handle_remote_evict_user handle_remote_user_remove
    handle_remote_user_get_request handle_remote_user_get_response
handle_body source now (state_request from_node) = handle_state_request
handle_body source now (state_response us) = handle_state_response source now us
handle_body source now (user_joined user presence assigns) =
    handle_remote_user_joined source now user presence assigns
handle_body source now (user_left user) = handle_remote_user_left source user
handle_body source now (user_message from event payload request_id recipient) =
    handle_remote_message from event payload request_id recipient
handle_body source now (presence_update user presence) = adopt_presence user presence
handle_body source now (presence_removed user) = safe_remove_presence user
handle_body source now (assigns_update user assigns change) =
    handle_remote_assigns_update user assigns change
handle_body source now (evict_user user reason) = handle_remote_evict_user user reason
handle_body source now (user_remove user) = handle_remote_user_remove source user
handle_body source now (user_get_request user request_id from_node) =
    handle_remote_user_get_request user request_id
handle_body source now (user_get_response user request_id assigns presence) =
    handle_remote_user_get_response user request_id assigns presence
handle_body source now (node_heartbeat node) = pure tt

unfoldable pub handle_distributed_message : ℕ → DistributedMessage → Action
unfolding handle_body
handle_distributed_message now message = handle_body message.source_node_id now message.body
