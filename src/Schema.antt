-- ===== src/Schema.antt =====
-- javascript/comnon/src/schema.ts, over parsed JSON. A `ValidationError` is its path and what was
-- expected there; the wording of its message is left out. JSON text and its parser are not modelled.
pub mod Client
pub mod Events
mod Tests
use pondsocket.Prelude.{
  ℕ, suc, String, Bool, true, false, not, ◌&&◌, ◌||◌, Option, none, some, List, [], ◌∷◌, ◌==◌,
  if◌then◌else◌, map,
}
use pondsocket.JsMap.{get}
use pondsocket.Protocol.{
  Json, null, bool, num, str, arr, obj, Items, Fields, PondObject, array, object, ServerActions,
  PresenceEventTypes, join, leave, update, nil, cons, end, field,
}

pub data ClientActions : Type 0 where
  join_channel leave_channel broadcast : ClientActions

pub data Expected : Type 0 where
  a_field a_string an_object a_record an_array one_of : Expected

pub data FieldPath : Type 0 where
  at_field : String → FieldPath
  at_item : ℕ → FieldPath

pub data Checked {ℓ} (A : Type ℓ) : Type ℓ where
  valid : A → Checked A
  invalid : FieldPath → Expected → Checked A

infixl 5 ◌>>=◌
abbrev pub ◌>>=◌ {ℓ κ} : {A : Type ℓ} {B : Type κ} → Checked A → (A → Checked B) → Checked B
valid a >>= f = f a
invalid p e >>= f = invalid p e

-- The list of an object's entries, and the list of an array's items.
abbrev pub entries : Fields → PondObject
entries end = []
entries (field k v fs) = (k, v) ∷ entries fs

abbrev pub elements : Items → List Json
elements nil = []
elements (cons j js) = j ∷ elements js

-- `if (!('name' in obj)) throw …;`, with the value that is then there.
unfoldable pub require : String → PondObject → Checked Json
require name o = elim (get name o) [
  | none ↦ invalid (at_field name) a_field
  | some value ↦ valid value
]

unfoldable pub validate_string : Json → String → Checked String
validate_string (str s) name = valid s
validate_string _ name = invalid (at_field name) a_string

unfoldable pub validate_object : Json → String → Checked PondObject
validate_object (obj fs) name = valid (entries fs)
validate_object _ name = invalid (at_field name) an_object

-- `isRecord` is `isObject`: every key of an object is a string.
unfoldable pub validate_record : Json → FieldPath → Checked PondObject
validate_record (obj fs) path = valid (entries fs)
validate_record _ path = invalid path a_record

unfoldable pub validate_array : Json → String → Checked (List Json)
validate_array (arr js) name = valid (elements js)
validate_array _ name = invalid (at_field name) an_array

abbrev pub client_action_text : ClientActions → String
client_action_text join_channel = "JOIN_CHANNEL"
client_action_text leave_channel = "LEAVE_CHANNEL"
client_action_text broadcast = "BROADCAST"

abbrev pub server_action_text : ServerActions → String
server_action_text ServerActions.presence = "PRESENCE"
server_action_text ServerActions.system = "SYSTEM"
server_action_text ServerActions.broadcast = "BROADCAST"
server_action_text ServerActions.error = "ERROR"
server_action_text ServerActions.connect = "CONNECT"

-- `validateEnum(value, ClientActions, …)`.
unfoldable pub validate_client_action : Json → Checked ClientActions
validate_client_action (str s) =
    if s == "JOIN_CHANNEL"
    then valid join_channel
    else if s == "LEAVE_CHANNEL"
    then valid leave_channel
    else if s == "BROADCAST"
    then valid broadcast
    else invalid (at_field "action") one_of
validate_client_action _ = invalid (at_field "action") one_of

-- `validateEnum(value, PresenceEventTypes, …)`.
unfoldable pub validate_presence_event : Json → Checked PresenceEventTypes
validate_presence_event (str s) =
    if s == "JOIN"
    then valid join
    else if s == "LEAVE"
    then valid leave
    else if s == "UPDATE"
    then valid update
    else invalid (at_field "event") one_of
validate_presence_event _ = invalid (at_field "event") one_of

-- The test of `validActions`: every server action but PRESENCE.
unfoldable pub validate_server_action : Json → Checked ServerActions
validate_server_action (str s) =
    if s == "BROADCAST"
    then valid ServerActions.broadcast
    else if s == "CONNECT"
    then valid ServerActions.connect
    else if s == "ERROR"
    then valid ServerActions.error
    else if s == "SYSTEM"
    then valid ServerActions.system
    else invalid (at_field "action") one_of
validate_server_action _ = invalid (at_field "action") one_of

pub record ClientMessage : Type 0 where
  pub event : String
  pub request_id : String
  pub channel_name : String
  pub payload : PondObject
  pub action : ClientActions

-- `clientMessageSchema.parse`.
unfoldable pub parse_client_message : Json → Checked ClientMessage
unfolding validate_object require validate_string validate_record validate_client_action
parse_client_message message = do
  o ← validate_object message "clientMessage"
  event ← require "event" o
  request_id ← require "requestId" o
  channel_name ← require "channelName" o
  payload ← require "payload" o
  action ← require "action" o
  event ← validate_string event "event"
  request_id ← validate_string request_id "requestId"
  channel_name ← validate_string channel_name "channelName"
  payload ← validate_record payload (at_field "payload")
  action ← validate_client_action action
  valid (record {
    event = event;
    request_id = request_id;
    channel_name = channel_name;
    payload = payload;
    action = action;
  })

pub record PresenceMessage : Type 0 where
  pub request_id : String
  pub channel_name : String
  pub event : PresenceEventTypes
  pub presence : List PondObject
  pub changed : PondObject

-- The loop over `payload.presence`.
unfoldable pub validate_records : ℕ → List Json → Checked (List PondObject)
unfolding validate_record
validate_records index [] = valid []
validate_records index (item ∷ items) = do
  first ← validate_record item (at_item index)
  rest ← validate_records (suc index) items
  valid (first ∷ rest)

abbrev pub is_presence_text : Json → Bool
is_presence_text (str s) = s == "PRESENCE"
is_presence_text _ = false

unfoldable pub validate_presence_action : Json → Checked (Unit {0})
validate_presence_action action =
    if is_presence_text action then valid tt else invalid (at_field "action") one_of

-- `presenceMessageSchema.parse`.
unfoldable pub parse_presence_message : Json → Checked PresenceMessage
unfolding validate_object require validate_string validate_array validate_records validate_record
    validate_presence_event validate_presence_action
parse_presence_message message = do
  o ← validate_object message "presenceMessage"
  request_id ← require "requestId" o
  channel_name ← require "channelName" o
  event ← require "event" o
  action ← require "action" o
  payload ← require "payload" o
  request_id ← validate_string request_id "requestId"
  channel_name ← validate_string channel_name "channelName"
  event ← validate_presence_event event
  done ← validate_presence_action action
  payload ← validate_object payload "payload"
  presence ← require "presence" payload
  changed ← require "changed" payload
  presence ← validate_array presence "payload.presence"
  presence ← validate_records 0 presence
  changed ← validate_record changed (at_field "payload.changed")
  valid (record {
    request_id = request_id;
    channel_name = channel_name;
    event = event;
    presence = presence;
    changed = changed;
  })

pub record ServerMessage : Type 0 where
  pub event : String
  pub request_id : String
  pub channel_name : String
  pub payload : PondObject
  pub action : ServerActions

-- `serverMessageSchema.parse`.
unfoldable pub parse_server_message : Json → Checked ServerMessage
unfolding validate_object require validate_string validate_record validate_server_action
parse_server_message message = do
  o ← validate_object message "serverMessage"
  event ← require "event" o
  request_id ← require "requestId" o
  channel_name ← require "channelName" o
  payload ← require "payload" o
  action ← require "action" o
  event ← validate_string event "event"
  request_id ← validate_string request_id "requestId"
  channel_name ← validate_string channel_name "channelName"
  payload ← validate_record payload (at_field "payload")
  action ← validate_server_action action
  valid (record {
    event = event;
    request_id = request_id;
    channel_name = channel_name;
    payload = payload;
    action = action;
  })

pub data ParsedEvent : Type 0 where
  a_presence : PresenceMessage → ParsedEvent
  a_server : ServerMessage → ParsedEvent

-- `channelEventSchema.parse`.
unfoldable pub parse_channel_event : Json → Checked ParsedEvent
unfolding parse_presence_message parse_server_message validate_object require
parse_channel_event message = do
  o ← validate_object message "channelEvent"
  action ← require "action" o
  if is_presence_text action
      then (do m ← parse_presence_message message; valid (a_presence m))
      else (do m ← parse_server_message message; valid (a_server m))
