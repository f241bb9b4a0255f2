-- ===== src/Distributor/Tests.antt =====
-- Two nodes with a backend each, at which the theorems apply.
use pondsocket.Prelude.{String, true, false, some, [], ◌∷◌, ◌≡◌, refl}
use pondsocket.JsMap.{get}
use pondsocket.Protocol.{PondObject, str, object, ok}
use pondsocket.Distributor.{Backend, broadcast, build_key, distributed_message, listen}
use pondsocket.Distributor.Delivery.{listen-broadcast}

abbrev node : String → Backend
node id = record {
  key_prefix = "pondsocket";
  namespace = "default";
  node_id = id;
  is_connected = true;
  heartbeat_timer = true;
  is_closed = false;
}

abbrev joined : PondObject
joined = ("type", str "USER_JOINED") ∷ ("channelName", str "room") ∷ ("userId", str "ann") ∷ []

listen-broadcast_example :
    let message = distributed_message (node "a") "m1" "/api" 5 joined in
    (broadcast (node "a") "m1" 5 "/api" "room" joined
      ≡ ok (build_key (node "a") "/api" "room", message))
    × (get "userId" message ≡ get "userId" joined)
    × (listen (node "b") (ok (object message)) ≡ some message)
unfolding get
listen-broadcast_example =
    listen-broadcast (node "a") (node "b") "m1" "/api" "room" "userId" 5 joined refl refl refl refl
      refl refl
