-- ===== src/Distributor/Delivery.antt =====
-- What one node publishes, as another node's backend reads it.
use pondsocket.Prelude.{
  ℕ, String, Bool, true, false, not, ◌&&◌, ◌||◌, Option, none, some, List, [], ◌∷◌, ◌==◌, ◌≡◌, refl,
  arith, or_else, if◌then◌else◌, includes, ◌∙◌,
}
use pondsocket.JsMap.{get, has, keys}
use pondsocket.JsMap.Laws.{get-spread, has-keys}
use pondsocket.Protocol.{PondObject, Json, null, bool, str, num, arr, obj, object, coalesce, ok}
use pondsocket.Schema.Client.{entries-fields}
use pondsocket.Distributor.{
  Backend, distributed_protocol, distributed_message, broadcast, build_key, is_valid_message,
  is_message_type, is_text, is_number, equals_text, listen, heartbeat_message, publish_heartbeat,
  heartbeat_topic, handle_heartbeat_message, normalize_topic_part,
}

-- The fields that `broadcast` writes.
abbrev pub added : List String
added = "protocol" ∷ "version" ∷ "messageId" ∷ "timestamp" ∷ "sourceNodeId" ∷ "endpointName" ∷ []

-- A field of the message that is missing or null, or of the right kind.
abbrev pub is_text_if_given : Option Json → Bool
is_text_if_given o = is_text (some (or_else (coalesce o none) (str "")))

abbrev pub is_number_if_given : Option Json → Bool
is_number_if_given o = is_number (some (or_else (coalesce o none) (num 0)))

abbrev stamps : Backend → String → String → ℕ → PondObject → PondObject
stamps b id endpoint now m =
    ("protocol", str distributed_protocol)
    ∷ ("version", num 1)
    ∷ ("messageId", or_else (coalesce (get "messageId" m) none) (str id))
    ∷ ("timestamp", or_else (coalesce (get "timestamp" m) none) (num now))
    ∷ ("sourceNodeId", str b.node_id)
    ∷ ("endpointName", str (normalize_topic_part endpoint))
    ∷ []

get-distributed_message :
    (b : Backend) (id endpoint k : String) (now : ℕ) (m : PondObject)
    → get k (distributed_message b id endpoint now m)
      ≡ (if has k (stamps b id endpoint now m) then get k (stamps b id endpoint now m) else get k m)
unfolding distributed_message keys
get-distributed_message b id endpoint k now m =
    get-spread k m (stamps b id endpoint now m) (refl, (refl, (refl, (refl, (refl, (refl, tt))))))

is_text_given :
    (o : Option Json) (id : String)
    → is_text_if_given o ≡ true
    → is_text (some (or_else (coalesce o none) (str id))) ≡ true
is_text_given none id h = refl
is_text_given (some null) id h = refl
is_text_given (some (bool b)) id h = h
is_text_given (some (num n)) id h = h
is_text_given (some (str t)) id h = refl
is_text_given (some (arr xs)) id h = h
is_text_given (some (obj fs)) id h = h

is_number_given :
    (o : Option Json) (now : ℕ)
    → is_number_if_given o ≡ true
    → is_number (some (or_else (coalesce o none) (num now))) ≡ true
is_number_given none now h = refl
is_number_given (some null) now h = refl
is_number_given (some (bool b)) now h = h
is_number_given (some (num n)) now h = refl
is_number_given (some (str t)) now h = h
is_number_given (some (arr xs)) now h = h
is_number_given (some (obj fs)) now h = h

module _ (b : Backend) (id endpoint : String) (now : ℕ) (m : PondObject) where
  abbrev sent : PondObject
  sent = distributed_message b id endpoint now m

  get-stamp :
      (k : String) (j : Json)
      → get k (stamps b id endpoint now m) ≡ some j
      → has k (stamps b id endpoint now m) ≡ true
      → get k sent ≡ some j
  get-stamp k j h i = get-distributed_message b id endpoint k now m ∙ ground arith

  get-kept : (k : String) → has k (stamps b id endpoint now m) ≡ false → get k sent ≡ get k m
  get-kept k h = get-distributed_message b id endpoint k now m ∙ ground arith

  stamped :
      (get "protocol" sent ≡ some (str distributed_protocol))
      × (get "version" sent ≡ some (num 1))
      × (get "messageId" sent ≡ some (or_else (coalesce (get "messageId" m) none) (str id)))
      × (get "timestamp" sent ≡ some (or_else (coalesce (get "timestamp" m) none) (num now)))
      × (get "sourceNodeId" sent ≡ some (str b.node_id))
      × (get "endpointName" sent ≡ some (str (normalize_topic_part endpoint)))
  unfolding get has
  stamped = (
    get-stamp "protocol" _ refl refl,
    get-stamp "version" _ refl refl,
    get-stamp "messageId" _ refl refl,
    get-stamp "timestamp" _ refl refl,
    get-stamp "sourceNodeId" _ refl refl,
    get-stamp "endpointName" _ refl refl,
  )

  kept : (get "type" sent ≡ get "type" m) × (get "channelName" sent ≡ get "channelName" m)
  unfolding has
  kept = (get-kept "type" refl, get-kept "channelName" refl)

  is_valid_message-sent :
      is_message_type (get "type" m) ≡ true
      → is_text (get "channelName" m) ≡ true
      → is_text_if_given (get "messageId" m) ≡ true
      → is_number_if_given (get "timestamp" m) ≡ true
      → is_valid_message sent ≡ true
  unfolding is_valid_message
  is_valid_message-sent type channel message_id time =
      let (p, v, i, t, s, e) = stamped in
      rw
        (
          p,
          v,
          i,
          t,
          s,
          e,
          kept.0,
          kept.1,
          type,
          channel,
          is_text_given (get "messageId" m) id message_id,
          is_number_given (get "timestamp" m) now time,
        )
        refl

-- A message of a known type for a channel is published by a connected node as it is but for the fields that the
-- node adds. A node with the same id ignores it when it comes back; any other node's handler gets it.
pub listen-broadcast :
    (a b : Backend) (id endpoint channel k : String) (now : ℕ) (m : PondObject)
    → a.is_connected ≡ true
    → is_message_type (get "type" m) ≡ true
    → is_text (get "channelName" m) ≡ true
    → is_text_if_given (get "messageId" m) ≡ true
    → is_number_if_given (get "timestamp" m) ≡ true
    → includes added k ≡ false
    → let message = distributed_message a id endpoint now m in
      (broadcast a id now endpoint channel m ≡ ok (build_key a endpoint channel, message))
      × (get k message ≡ get k m)
      × (listen b (ok (object message)) ≡ (if a.node_id == b.node_id then none else some message))
unfolding broadcast listen keys
listen-broadcast a b id endpoint channel k now m connected type name message_id time other = (
  ground arith,
  get-kept a id endpoint now m k (has-keys k (stamps a id endpoint now m) ∙ other),
  heard (entries-fields (distributed_message a id endpoint now m))
      (is_valid_message-sent a id endpoint now m type name message_id time)
      (stamped a id endpoint now m).4,
)
  where
    heard :
        {o p : PondObject}
        → p ≡ o
        → is_valid_message o ≡ true
        → get "sourceNodeId" o ≡ some (str a.node_id)
        → (if is_valid_message p && not (equals_text (get "sourceNodeId" p) b.node_id)
            then some p
            else none)
          ≡ (if a.node_id == b.node_id then none else some o)
    heard {o} {p} e v s = ground arith

-- A connected node's heartbeat tells the subscribers of another node, whose subject is open, of its id, unless that is
-- empty; a node with the same id does not hear it.
pub handle_heartbeat_message-publish_heartbeat :
    (a b : Backend) (id : String) (now : ℕ)
    → a.is_connected ≡ true
    → (publish_heartbeat a id now
        ≡ some (build_key a heartbeat_topic heartbeat_topic, heartbeat_message a id now))
      × (handle_heartbeat_message b (ok (object (heartbeat_message a id now))) ≡ (
          if b.is_closed || (a.node_id == "" || a.node_id == b.node_id)
          then none
          else some a.node_id))
unfolding publish_heartbeat handle_heartbeat_message heartbeat_message is_valid_message get
handle_heartbeat_message-publish_heartbeat a b id now connected = (ground arith, ground arith)
