-- ===== src/Distributor.antt =====
-- javascript/core/src/abstracts/distributor.ts: the backend over Redis. A message is an object with its
-- entries. What the Redis clients do is an argument or an effect: a text is published under a key, what is
-- published under a key reaches its subscribers as what `JSON.parse` makes of it.
pub mod Delivery
pub mod Keys
mod Tests
use Prim.Native.Char.{code}
use pondsocket.Prelude.{
  ℕ, String, Bool, true, false, not, ◌&&◌, Option, none, some, List, [], ◌∷◌, ◌==◌, ◌*◌, nat_beq,
  min, if◌then◌else◌, includes, concat, or_else,
}
use pondsocket.JsMap.{get, spread}
use pondsocket.Protocol.{
  PondObject, Json, str, num, obj, coalesce, Error, plain_error, Result, ok, err,
}
use pondsocket.Schema.{entries}

-- `is_closed` tells whether the heartbeats' subject is closed; `heartbeat_timer` whether
-- the timer runs, which calls `#publishHeartbeat` each time.
pub record Backend : Type 0 where
  pub key_prefix : String
  pub namespace : String
  pub node_id : String
  pub is_connected : Bool
  pub heartbeat_timer : Bool
  pub is_closed : Bool

unfoldable pub new_backend : String → String → String → Backend
new_backend key_prefix namespace node_id = record {
  key_prefix = key_prefix;
  namespace = namespace;
  node_id = node_id;
  is_connected = false;
  heartbeat_timer = false;
  is_closed = false;
}

-- The delay after a number of failed connections.
unfoldable pub reconnect_strategy : ℕ → ℕ
reconnect_strategy retries = min (retries * 100) 5000

-- `#normalizeTopicPart`: leading slashes go.
unfoldable pub normalize_topic_part : String → String
normalize_topic_part String.[] = ""
normalize_topic_part (String.◌∷◌ c s) =
    let rest = normalize_topic_part s in if nat_beq (code c) 47 then rest else String.◌∷◌ c s

abbrev pub heartbeat_topic : String
heartbeat_topic = "__heartbeat__"

-- `#buildKey`.
unfoldable pub build_key : Backend → String → String → String
unfolding normalize_topic_part
build_key b endpoint channel =
    if endpoint == heartbeat_topic && channel == heartbeat_topic
    then concat (b.key_prefix ∷ ":v1:" ∷ b.namespace ∷ ":__heartbeat__" ∷ [])
    else concat (
        b.key_prefix
        ∷ ":v1:"
        ∷ b.namespace
        ∷ ":"
        ∷ normalize_topic_part endpoint
        ∷ ":"
        ∷ channel
        ∷ [])

abbrev pub distributed_protocol : String
distributed_protocol = "pondsocket.distributed"

-- The texts of `DistributedMessageType`.
abbrev pub message_types : List String
message_types =
    "STATE_REQUEST" ∷ "STATE_RESPONSE" ∷ "USER_JOINED" ∷ "USER_LEFT" ∷ "USER_MESSAGE"
    ∷ "PRESENCE_UPDATE" ∷ "PRESENCE_REMOVED" ∷ "ASSIGNS_UPDATE" ∷ "EVICT_USER" ∷ "USER_REMOVE"
    ∷ "USER_GET_REQUEST" ∷ "USER_GET_RESPONSE" ∷ "NODE_HEARTBEAT" ∷ []

-- What `broadcast` adds to a message, at a time and with a drawn id.
unfoldable pub distributed_message : Backend → String → String → ℕ → PondObject → PondObject
unfolding normalize_topic_part
distributed_message b id endpoint now message = spread message (
    ("protocol", str distributed_protocol)
    ∷ ("version", num 1)
    ∷ ("messageId", or_else (coalesce (get "messageId" message) none) (str id))
    ∷ ("timestamp", or_else (coalesce (get "timestamp" message) none) (num now))
    ∷ ("sourceNodeId", str b.node_id)
    ∷ ("endpointName", str (normalize_topic_part endpoint))
    ∷ [])

-- `broadcast`: the key and the message that are published.
unfoldable pub broadcast :
    Backend → String → ℕ → String → String → PondObject → Result (String × PondObject)
unfolding build_key distributed_message
broadcast b id now endpoint channel message =
    if not b.is_connected
    then err (plain_error "Redis backend is not connected")
    else ok (build_key b endpoint channel, distributed_message b id endpoint now message)

abbrev pub is_text : Option Json → Bool
is_text (some (str t)) = true
is_text _ = false

abbrev pub is_number : Option Json → Bool
is_number (some (num n)) = true
is_number _ = false

-- `j === t` for a text and for a number.
abbrev pub equals_text : Option Json → String → Bool
equals_text (some (str s)) t = s == t
equals_text _ t = false

abbrev pub equals_number : Option Json → ℕ → Bool
equals_number (some (num m)) n = nat_beq m n
equals_number _ n = false

abbrev pub is_message_type : Option Json → Bool
is_message_type (some (str t)) = includes message_types t
is_message_type _ = false

-- `#isValidMessage` of an object.
unfoldable pub is_valid_message : PondObject → Bool
is_valid_message o =
    equals_text (get "protocol" o) distributed_protocol
    && (equals_number (get "version" o) 1
        && (is_message_type (get "type" o)
            && (is_text (get "messageId" o)
                && (is_text (get "endpointName" o)
                    && (is_text (get "channelName" o)
                        && (is_text (get "sourceNodeId" o) && is_number (get "timestamp" o)))))))

-- An array has none of the fields; null and what is no JSON make the listener throw, which it ignores.
abbrev pub object_of : Result Json → Option PondObject
object_of (ok (obj fs)) = some (entries fs)
object_of _ = none

-- The listener of `subscribeToChannel`: the message that the handler is given, if any.
unfoldable pub listen : Backend → Result Json → Option PondObject
unfolding is_valid_message
listen b parsed = elim (object_of parsed) [
  | none ↦ none
  | some o ↦
      if is_valid_message o && not (equals_text (get "sourceNodeId" o) b.node_id)
      then some o
      else none
]

-- The message of `#publishHeartbeat`.
unfoldable pub heartbeat_message : Backend → String → ℕ → PondObject
heartbeat_message b id now =
    ("protocol", str distributed_protocol)
    ∷ ("version", num 1)
    ∷ ("type", str "NODE_HEARTBEAT")
    ∷ ("messageId", str id)
    ∷ ("endpointName", str heartbeat_topic)
    ∷ ("channelName", str heartbeat_topic)
    ∷ ("sourceNodeId", str b.node_id)
    ∷ ("timestamp", num now)
    ∷ ("nodeId", str b.node_id)
    ∷ []

-- `#publishHeartbeat`: what is published, with its key.
unfoldable pub publish_heartbeat : Backend → String → ℕ → Option (String × PondObject)
unfolding build_key heartbeat_message
publish_heartbeat b id now =
    if not b.is_connected
    then none
    else some (build_key b heartbeat_topic heartbeat_topic, heartbeat_message b id now)

-- What `#handleHeartbeatMessage` tells the subject of an object, if anything; an empty id counts as none.
abbrev pub heartbeat_source : String → PondObject → Option String
heartbeat_source own o = elim (get "sourceNodeId" o) as (λ _. Option String) [
  | some (str t) ↦ if t == "" then none else if t == own then none else some t
  | _ ↦ none
]

-- `#handleHeartbeatMessage`: the node that the heartbeats' subscribers are told of, if any.
unfoldable pub handle_heartbeat_message : Backend → Result Json → Option String
unfolding is_valid_message
handle_heartbeat_message b parsed = elim (object_of parsed) [
  | none ↦ none
  | some o ↦
      if not b.is_closed && (is_valid_message o && equals_text (get "type" o) "NODE_HEARTBEAT")
      then heartbeat_source b.node_id o
      else none
]

-- `initialize`, once both clients are connected and subscribed: the first heartbeat is published at once.
unfoldable pub initialize : Backend → String → ℕ → Backend × Option (String × PondObject)
unfolding publish_heartbeat
initialize b id now =
    let c = record b { is_connected = true; heartbeat_timer = true } in
    (c, publish_heartbeat c id now)

-- The handlers of `#attachEventHandlers`.
unfoldable pub client_error : Backend → Backend
client_error b = record b { is_connected = false }

unfoldable pub client_ready : Bool → Bool → Backend → Backend
client_ready publish_ready subscribe_ready b =
    if publish_ready && subscribe_ready then record b { is_connected = true } else b

unfoldable pub client_end : Backend → Backend
client_end b = record b { is_connected = false }

-- `cleanup`.
unfoldable pub cleanup : Backend → Backend
cleanup b = record b { heartbeat_timer = false; is_closed = true; is_connected = false }
