-- ===== src/ChannelEngine/Tests.antt =====
-- Runs of the channel engine on small channels, at which the theorems apply.
use pondsocket.Prelude.{
  includes, true, false, not, ◌||◌, none, some, List, [], ◌∷◌, ◌++◌, ◌==◌, ◌≡◌, refl, if◌then◌else◌,
  count, is_empty, ◌&&◌, or_else,
}
use pondsocket.JsMap.{has, get, keys, set}
use pondsocket.Protocol.{
  ok, all_users, MessageBody, PondObject, str, UserData, all_except_sender, ServerActions,
}
use pondsocket.ChannelEngine.State.{ChannelEngine, state, effects, has_returned, users, has_user}
use pondsocket.ChannelEngine.Messages.{send_message}
use pondsocket.ChannelEngine.Users.{add_user, remove_user, cleared}
use pondsocket.ChannelEngine.Nodes.{new_channel_engine, cleanup_stale_nodes}
use pondsocket.ChannelEngine.Remote.{handle_distributed_message, handle_state_response}
use pondsocket.ChannelEngine.Told.{told, audience}
use pondsocket.ChannelEngine.Delivery.{
  may_send, is_addressed, sent_event, send_message-returns_iff, received-send_message,
}
use pondsocket.ChannelEngine.Invariant.{IsConsistent}
use pondsocket.ChannelEngine.Preservation.{new_channel_engine-IsConsistent, add_user-IsConsistent}
use pondsocket.ChannelEngine.Membership.{add_user-joins, remove_user-leaves}
use pondsocket.ChannelEngine.Refinement.{
  Request, joins, leaves, updates, sends, serve, register, serve-register,
}
use pondsocket.ChannelEngine.Departure.{left_users}
use pondsocket.ChannelEngine.Replication.{
  broadcasts, message_of, comes_from, add_user-replicates, send_message-replicates,
}
use pondsocket.ChannelEngine.Forgetting.{known}
use pondsocket.ChannelEngine.Staleness.{
  is_late, stale_users, unless_stale, cleanup_stale_nodes-drops,
}
use pondsocket.Endpoint.State.{PondPath}
use pondsocket.Outgoing.{OutgoingHandler, transform_payload}
use pondsocket.Outgoing.Reception.{received, outcome, repeat}
use pondsocket.ChannelEngine.Sync.{
  handle_state_response-get, is_addressed_remotely, reported, first_some,
}

abbrev empty_room : ChannelEngine
empty_room = new_channel_engine "room" "/api" (some 60) true (λ n. "id")

abbrev ann_data : PondObject
ann_data = ("name", str "Ann") ∷ []

abbrev room : ChannelEngine
room = state (add_user "bob" [] "r2" (state (add_user "ann" ann_data "r1" empty_room)))

abbrev closed_room : ChannelEngine
closed_room = cleared room

empty_room-IsConsistent : IsConsistent empty_room
empty_room-IsConsistent = new_channel_engine-IsConsistent "room" "/api" (some 60) true (λ n. "id")

room-IsConsistent : IsConsistent room
room-IsConsistent =
    add_user-IsConsistent "bob" "r2" [] (state (add_user "ann" ann_data "r1" empty_room))
      (add_user-IsConsistent "ann" "r1" ann_data empty_room empty_room-IsConsistent)

send_message-returns_iff_example :
    let result = send_message "ann" all_except_sender ServerActions.broadcast "hi" [] "r3" room in
    (has_returned result ≡ may_send "ann" all_except_sender room)
    × (state result ≡ room)
    × ((has_returned result || is_empty (effects result)) ≡ true)
send_message-returns_iff_example =
    send_message-returns_iff "ann" "hi" "r3" all_except_sender ServerActions.broadcast [] room

abbrev any_path : PondPath
any_path = record {
  key = "*";
  compile = ok tt;
  parse = λ _. ok (some (record { params = []; query = [] }));
}

-- It lets everything through, with another payload.
abbrev marking : OutgoingHandler
marking = record {
  path = any_path;
  handler = λ c. record { acts = transform_payload (("seen", str "yes") ∷ []) ∷ []; ending = none };
}

received-send_message_example :
    received any_path
      (marking ∷ [])
      "bob"
      (effects (send_message "ann" all_except_sender ServerActions.broadcast "hi" [] "r3" room))
    ≡ (if is_addressed "ann" all_except_sender "bob" room
        then repeat (count "bob" (audience room.publisher.observers)) (
            outcome any_path
              (marking ∷ [])
              (sent_event "hi" "r3" ServerActions.broadcast [] room)
              "bob")
        else [])
unfolding add_user has new_channel_engine keys set
received-send_message_example =
    received-send_message any_path (marking ∷ []) "ann" "hi" "r3" "bob" all_except_sender
      ServerActions.broadcast [] room refl

add_user-joins_example :
    let result = add_user "cid" ann_data "r3" room in
    (has_returned result ≡ true)
    × (users (state result) ≡ users room ++ "cid" ∷ [])
    × (get "cid" (state result).assigns_cache ≡ some ann_data)
    × (has "cid" (state result).user_subscriptions ≡ true)
    × (told "cid" (effects result) ≡ (if "cid" == "cid" then 1 else 0))
unfolding add_user has new_channel_engine keys set
add_user-joins_example = add_user-joins "cid" "r3" "cid" ann_data room room-IsConsistent refl refl

remove_user-leaves_example :
    let result = remove_user "ann" false room in
    (has_returned result ≡ true)
    × (has_user "bob" (state result) ≡ (not ("ann" == "bob") && has_user "bob" room))
    × (count "bob" (audience (state result).publisher.observers)
        ≡ (if not ("ann" == "bob") && has "bob" room.user_subscriptions then 1 else 0))
    × ((state result).closed ≡ (is_empty (left_users "ann" room) || room.closed))
unfolding add_user has new_channel_engine keys set get
remove_user-leaves_example =
    remove_user-leaves "ann" "bob" false ann_data room room-IsConsistent refl

abbrev entries : List UserData
entries =
    record { id = "ann"; assigns = []; presence = [] }
    ∷ record { id = "dan"; assigns = ann_data; presence = ann_data }
    ∷ []

handle_state_response-get_example :
    let result = handle_state_response (some "node2") 7 (some entries) room in
    (has_returned result ≡ true)
    × (get "dan" (state result).assigns_cache
        ≡ first_some (get "dan" room.assigns_cache) (reported "dan" entries))
handle_state_response-get_example = handle_state_response-get (some "node2") 7 entries "dan" room

abbrev asking : ChannelEngine
asking = record room { pending_user_gets = "r5" ∷ [] }

abbrev lonely : ChannelEngine
lonely = record room {
  node_last_seen = ("node2", 10) ∷ ("node3", 90) ∷ [];
  node_users = ("node2", "ann" ∷ []) ∷ ("node3", "bob" ∷ []) ∷ [];
  presence_engine = some (record { channel_id = "room"; cache = ("ann", ann_data) ∷ [] });
}

cleanup_stale_nodes-drops_example :
    let result = cleanup_stale_nodes 100 lonely in
    (has_returned result ≡ true)
    × (known "ann" (state result) ≡ (
        if includes (stale_users 60 100 lonely.node_last_seen lonely.node_users) "ann"
        then (none, none)
        else known "ann" lonely))
    × (get "node2" (state result).node_users ≡ (
        if is_late 60 100 (get "node2" lonely.node_last_seen)
        then none
        else get "node2" lonely.node_users))
    × (get "node2" (state result).node_last_seen
        ≡ unless_stale 60 100 (get "node2" lonely.node_last_seen))
unfolding new_channel_engine add_user keys has set
cleanup_stale_nodes-drops_example =
    cleanup_stale_nodes-drops 60 100 "ann" "node2" lonely refl (refl, (refl, tt))

abbrev tracking_room : ChannelEngine
tracking_room = state (
    handle_distributed_message 3
      (message_of room (some "node1") (MessageBody.user_joined "dee" [] [])) empty_room)

add_user-replicates_example :
    let joined = MessageBody.user_joined "cid" [] ann_data in
    let after =
      state (handle_distributed_message 5 (message_of room (some "node1") joined) tracking_room) in
    (broadcasts (effects (add_user "cid" ann_data "r6" room)) ≡ message_of room none joined ∷ [])
    × (get "dee" after.assigns_cache ≡ (
        if "cid" == "dee"
        then first_some (get "cid" tracking_room.assigns_cache) (some ann_data)
        else get "dee" tracking_room.assigns_cache))
    × (after.presence_engine ≡ tracking_room.presence_engine)
    × (includes (or_else (get "node1" after.node_users) []) "dee" ≡ (
        (not (has_user "cid" tracking_room) && comes_from "node1" (some "node1") && "cid" == "dee")
        || includes (or_else (get "node1" tracking_room.node_users) []) "dee"))
    × (get "node1" after.node_last_seen ≡ (
        if not (has_user "cid" tracking_room) && comes_from "node1" (some "node1")
        then first_some (get "node1" tracking_room.node_last_seen) (some 5)
        else get "node1" tracking_room.node_last_seen))
unfolding new_channel_engine add_user keys has set
add_user-replicates_example =
    add_user-replicates "cid" "r6" "dee" "node1" "dee" (some "node1") 5 60 ann_data room
      tracking_room room-IsConsistent refl refl refl

send_message-replicates_example :
    let sent = MessageBody.user_message "ann" "hi" [] "r7" all_users in
    (broadcasts (effects (send_message "ann" all_users ServerActions.broadcast "hi" [] "r7" room))
      ≡ message_of room none sent ∷ [])
    × (received any_path
          (marking ∷ [])
          "bob"
          (effects (handle_distributed_message 5 (message_of room (some "node1") sent) room))
        ≡ (if is_addressed_remotely "ann" all_users "bob" room
            then repeat (count "bob" (audience room.publisher.observers)) (
                outcome any_path
                  (marking ∷ [])
                  (sent_event "hi" "r7" ServerActions.broadcast [] room)
                  "bob")
            else []))
unfolding new_channel_engine add_user keys has set
send_message-replicates_example =
    send_message-replicates any_path (marking ∷ []) "ann" "hi" "r7" "bob" all_users
      ServerActions.broadcast [] (some "node1") 5 60 room room refl refl refl

abbrev requests : List Request
requests =
    joins "cid" "r3" []
    ∷ sends "cid" all_users ServerActions.broadcast "hi" [] "r4"
    ∷ updates "bob" ann_data
    ∷ leaves "ann" false
    ∷ []

serve-register_example : (serve requests room).assigns_cache ≡ register requests room.assigns_cache
serve-register_example = serve-register requests room
