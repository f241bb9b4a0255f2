-- ===== src/ChannelEngine/Nodes.antt =====
-- The engine's construction with a backend, heartbeats, and which users came from which node. Times
-- are milliseconds of `Date.now()`, given by the caller.
use pondsocket.Prelude.{
  ℕ, ◌+◌, String, Bool, true, false, Option, none, some, List, [], ◌∷◌, is_some, leb, is_empty,
  or_else, ◌==◌, if◌then◌else◌,
}
use pondsocket.JsMap.{JsMap, get, has, set, delete, add, remove}
use pondsocket.Subject
use pondsocket.ChannelEngine.State.{
  ChannelEngine, unsubscribe_channel, Action, ◌>>=◌, ◌>>◌, pure, when, emit, get_state, modify,
}
use pondsocket.ChannelEngine.Presence.{safe_remove_presence}

-- The constructor: with a backend it subscribes to the heartbeats and starts the stale-node timer at
-- once, and to the channel's messages asynchronously. `parent.parent.path` is the endpoint's id, the
-- first drawn `uuid()` the node's.
unfoldable pub new_channel_engine : String → String → Option ℕ → Bool → (ℕ → String) → ChannelEngine
unfolding Subject.new_subject
new_channel_engine name path backend leave_callback uuids = record {
  name = name;
  endpoint_id = path;
  node_id = uuids 0;
  backend = backend;
  leave_callback = leave_callback;
  presence_engine = none;
  assigns_cache = [];
  user_subscriptions = [];
  publisher = Subject.new_subject;
  distributed_subscription = false;
  heartbeat_subscription = is_some backend;
  stale_node_timer = is_some backend;
  node_last_seen = [];
  node_users = [];
  pending_user_gets = [];
  closed = false;
  uuids = uuids;
  drawn = 1;
}

-- The end of `#setupDistributedSubscription`, when `subscribeToChannel` has returned.
unfoldable pub distributed_subscribed : Action
distributed_subscribed c =
    if c.closed
    then emit (unsubscribe_channel ∷ []) c
    else modify (λ d. record d { distributed_subscription = true }) c

-- The heartbeat subscriber of `#setupHeartbeatTracking`.
unfoldable pub handle_heartbeat : String → ℕ → Action
handle_heartbeat node now = modify λ c. record c { node_last_seen = set node now c.node_last_seen }

-- `!sourceNodeId`.
abbrev pub known_source : Option String → Option String
known_source none = none
known_source (some node) = if node == "" then none else some node

unfoldable pub track_node_user : Option String → String → ℕ → Action
track_node_user source user now c = elim (known_source source) [
  | none ↦ pure tt c
  | some node ↦
      modify
        (λ d. record d {
          node_users = set node (add user (or_else (get node d.node_users) [])) d.node_users;
          node_last_seen =
              if has node d.node_last_seen then d.node_last_seen else set node now d.node_last_seen;
        })
        c
]

-- The users of a node after a removal: an empty set is dropped from the map.
unfoldable pub without_node_user : String → String → JsMap (List String) → JsMap (List String)
without_node_user node user m = elim (get node m) [
  | none ↦ m
  | some us ↦ if is_empty (remove user us) then delete node m else set node (remove user us) m
]

unfoldable pub untrack_node_user : Option String → String → Action
unfolding without_node_user
untrack_node_user source user c = elim (known_source source) [
  | none ↦ pure tt c
  | some node ↦ modify (λ d. record d { node_users = without_node_user node user d.node_users }) c
]

-- A user of a stale node goes, with its presence.
unfoldable pub forget_user : String → Action
unfolding safe_remove_presence
forget_user user = do
  modify (λ c. record c { assigns_cache = delete user c.assigns_cache })
  safe_remove_presence user

unfoldable pub forget_users : List String → Action
unfolding forget_user
forget_users [] = pure tt
forget_users (user ∷ more) = do forget_user user; forget_users more

unfoldable pub forget_node : String → Action
unfolding forget_users
forget_node node = do
  c ← get_state
  forget_users (or_else (get node c.node_users) [])
  modify (λ d. record d {
    node_users = delete node d.node_users;
    node_last_seen = delete node d.node_last_seen;
  })

abbrev pub is_stale : ℕ → ℕ → ℕ → Bool
is_stale timeout now last_seen = leb (last_seen + timeout) now

-- The loop of `#cleanupStaleNodes` over the entries of `#nodeLastSeen`.
unfoldable pub cleanup_loop : ℕ → ℕ → JsMap ℕ → Action
unfolding forget_node
cleanup_loop timeout now [] = pure tt
cleanup_loop timeout now ((node, last_seen) ∷ more) = do
  when (is_stale timeout now last_seen) (forget_node node)
  cleanup_loop timeout now more

unfoldable pub cleanup_stale_nodes : ℕ → Action
unfolding cleanup_loop
cleanup_stale_nodes now c = elim c.backend [
  | none ↦ pure tt c
  | some timeout ↦ cleanup_loop timeout now c.node_last_seen c
]
