-- ===== src/ChannelEngine/Users.antt =====
-- Users of a channel: joining, assigns, leaving, eviction, and the channel's end.
use pondsocket.Prelude.{
  ℕ, String, Bool, true, false, not, ◌&&◌, Option, none, some, List, [], ◌∷◌, concat, is_empty,
  is_some, or_else, includes,
}
use pondsocket.JsMap.{JsMap, get, set, delete, spread, values, add, remove}
use pondsocket.Subject
use pondsocket.Presence
use pondsocket.Protocol.{
  PondObject, ChannelEvent, ServerActions, UserData, all_users, user_ids, http_error, ok, err,
  channel_sender, user_joined, user_left, assigns_update, evict_user, user_remove, user_get_request,
  state_request, str, num,
}
use pondsocket.ChannelEngine.State.{
  ChannelEngine, deliver, after_distributed_ready, unsubscribe_channel, unsubscribe_heartbeats,
  clear_stale_timer, delete_channel, call_leave, resolve_user_get, Outcome, M, Action, ◌>>=◌, ◌>>◌,
  pure, throw, throw_if, when, emit, get_state, modify, users, has_user, uuid, broadcast_to_nodes,
}
use pondsocket.ChannelEngine.Messages.{send_new_message}
use pondsocket.ChannelEngine.Presence.{safe_remove_presence}

-- `#buildSubscriber`: the subscription and the entry for its unsubscribe closure.
unfoldable pub build_subscriber : String → Action
unfolding Subject.subscribe
build_subscriber user c = elim (Subject.subscribe user c.publisher) [
  | err x ↦ throw x c
  | ok (s, token) ↦
      modify
        (λ d. record d { publisher = s; user_subscriptions = set user token d.user_subscriptions })
        c
]

abbrev pub acknowledgement : ChannelEngine → String → ChannelEvent
acknowledgement c request_id = record {
  action = ServerActions.system;
  event = "ACKNOWLEDGE";
  payload = [];
  channel_name = c.name;
  request_id = request_id;
}

unfoldable pub add_user : String → PondObject → String → Action
unfolding has_user users build_subscriber broadcast_to_nodes
add_user user assigns request_id = do
  c ← get_state
  throw_if (has_user user c) (
      http_error 400 (
        concat
          ("ChannelEngine: User with id " ∷ user ∷ " already exists in channel " ∷ c.name ∷ [])))
  emit (deliver user (acknowledgement c request_id) ∷ [])
  modify (λ d. record d { assigns_cache = set user assigns d.assigns_cache })
  build_subscriber user
  when (is_empty (users c) && is_some c.backend) (emit (after_distributed_ready ∷ []))
  broadcast_to_nodes (user_joined user [] assigns)

-- The callback of `#afterDistributedReady`: `#requestChannelState`, unless the engine has closed.
unfoldable pub request_channel_state : Action
unfolding broadcast_to_nodes
request_channel_state = do
  c ← get_state
  when (not c.closed) (broadcast_to_nodes (state_request c.node_id))

-- `{ ...currentAssigns, ...assigns }`.
abbrev pub merged_assigns : String → PondObject → ChannelEngine → PondObject
merged_assigns user assigns c = spread (or_else (get user c.assigns_cache) []) assigns

unfoldable pub update_assigns : String → PondObject → Action
unfolding has_user broadcast_to_nodes
update_assigns user assigns = do
  c ← get_state
  throw_if (not (has_user user c)) (
      http_error 404
        (concat ("User with id " ∷ user ∷ " does not exist in channel " ∷ c.name ∷ [])))
  let new_assigns = merged_assigns user assigns c
  modify (λ d. record d { assigns_cache = set user new_assigns d.assigns_cache })
  broadcast_to_nodes (assigns_update user (some new_assigns) none)

-- `this.#presenceEngine?.getPresence(userId) || null`.
unfoldable pub presence_of : String → ChannelEngine → Option PondObject
unfolding Presence.get_presence
presence_of user c = elim c.presence_engine [ none ↦ none | some e ↦ Presence.get_presence user e ]

unfoldable pub get_assigns : ChannelEngine → JsMap PondObject
get_assigns c = c.assigns_cache

unfoldable pub get_presence : ChannelEngine → JsMap PondObject
unfolding Presence.get_all_presence
get_presence c = elim c.presence_engine [ none ↦ [] | some e ↦ Presence.get_all_presence e ]

unfoldable pub get_user_data : String → M UserData
unfolding presence_of
get_user_data user = do
  c ← get_state
  let assigns = get user c.assigns_cache
  let presence = presence_of user c
  throw_if (not (is_some assigns) && not (is_some presence)) (
      http_error 404
        (concat ("User with id " ∷ user ∷ " does not exist in the channel " ∷ c.name ∷ [])))
  pure (record { id = user; assigns = or_else assigns []; presence = or_else presence [] })

unfoldable pub unsubscribe_all : List ℕ → Subject.Subject String → Subject.Subject String
unfolding Subject.unsubscribe
unsubscribe_all [] s = s
unsubscribe_all (t ∷ ts) s = unsubscribe_all ts (Subject.unsubscribe t s)

-- The state after `close`.
unfoldable pub cleared : ChannelEngine → ChannelEngine
unfolding unsubscribe_all Subject.close
cleared c = record c {
  closed = true;
  publisher = Subject.close (unsubscribe_all (values c.user_subscriptions) c.publisher);
  user_subscriptions = [];
  assigns_cache = [];
  presence_engine = none;
  distributed_subscription = false;
  heartbeat_subscription = false;
  stale_node_timer = false;
  pending_user_gets = [];
  node_last_seen = [];
  node_users = [];
}

unfoldable pub close : Action
unfolding cleared
close = do
  c ← get_state
  modify cleared
  when c.distributed_subscription (emit (unsubscribe_channel ∷ []))
  when c.heartbeat_subscription (emit (unsubscribe_heartbeats ∷ []))
  when c.stale_node_timer (emit (clear_stale_timer ∷ []))
  emit (delete_channel c.name ∷ [])

-- The end of a user's own subscription, if there is one.
unfoldable pub drop_subscription : String → Action
unfolding Subject.unsubscribe
drop_subscription user c = elim (get user c.user_subscriptions) [
  | none ↦ pure tt c
  | some token ↦
      modify
        (λ d. record d {
          publisher = Subject.unsubscribe token d.publisher;
          user_subscriptions = delete user d.user_subscriptions;
        })
        c
]

-- `removeUser` once the user's data is at hand; the flag is `skipDistributedBroadcast`.
unfoldable pub remove_known_user : String → Bool → UserData → Action
unfolding safe_remove_presence drop_subscription broadcast_to_nodes users close
remove_known_user user skip_broadcast user_data = do
  modify (λ d. record d { assigns_cache = delete user d.assigns_cache })
  safe_remove_presence user
  drop_subscription user
  when (not skip_broadcast) (broadcast_to_nodes (user_left user))
  c ← get_state
  when (is_empty (users c)) close
  when c.leave_callback (emit (call_leave user_data ∷ []))

unfoldable pub remove_user : String → Bool → Action
unfolding get_user_data remove_known_user
remove_user user skip_broadcast c = elim (get_user_data user c) [
  | Outcome.thrown _ _ _ ↦ pure tt c
  | Outcome.returned user_data _ _ ↦ remove_known_user user skip_broadcast user_data c
]

unfoldable pub kick_user : String → String → Action
kick_user user reason = do
  send_new_message channel_sender (user_ids (user ∷ [])) ServerActions.system "kicked_out"
      (("message", str reason) ∷ ("code", num 403) ∷ [])
  send_new_message channel_sender all_users ServerActions.system "kicked"
      (("userId", str user) ∷ ("reason", str reason) ∷ [])
  broadcast_to_nodes (evict_user user reason)
  remove_user user true

unfoldable pub destroy : Option String → Action
destroy reason = do
  send_new_message channel_sender all_users ServerActions.error "destroyed"
      (("message", str (or_else reason "Channel has been destroyed")) ∷ [])
  close

unfoldable pub request_user_removal : String → Action
unfolding broadcast_to_nodes
request_user_removal user = broadcast_to_nodes (user_remove user)

-- The id of the pending request, or none where the promise is resolved with null at once.
unfoldable pub get_user_across_nodes : String → M (Option String)
unfolding uuid broadcast_to_nodes
get_user_across_nodes user c = elim c.backend [
  | none ↦ pure none c
  | some _ ↦
      (do
        request_id ← uuid
        modify (λ d. record d { pending_user_gets = add request_id d.pending_user_gets })
        broadcast_to_nodes (user_get_request user request_id c.node_id)
        pure (some request_id))
        c
]

-- The timer of a pending request; it has been cleared once the request is no longer pending.
unfoldable pub user_get_timeout : String → Action
user_get_timeout request_id = do
  c ← get_state
  when (includes c.pending_user_gets request_id) (do
    modify (λ d. record d { pending_user_gets = remove request_id d.pending_user_gets })
    emit (resolve_user_get request_id none ∷ []))
