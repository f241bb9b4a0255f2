-- ===== src/Protocol.antt =====
-- The wire vocabulary: javascript/comnon/src/enums.ts, javascript/comnon/src/misc/types.ts,
-- javascript/core/src/types.ts and javascript/core/src/errors/httpError.ts. A JSON number is
-- represented by a natural number: the code never computes with one that it was sent.
mod Values
pub use Values.{
  coalesce, nil, cons, end, field, Json, null, bool, num, str, arr, obj, Items, Fields, PondObject,
  fields, items, array, object,
}
use pondsocket.Prelude.{
  ℕ, String, Bool, Option, some, none, List, [], ◌∷◌, ◌==◌, if◌then◌else◌, nat_beq, false, true,
}

pub data PresenceEventTypes : Type 0 where
  join leave update : PresenceEventTypes

pub data ServerActions : Type 0 where
  presence system broadcast error connect : ServerActions

-- What can be thrown: an `HttpError` with its status code, another `Error`, or some other value.
pub data Error : Type 0 where
  http_error : ℕ → String → Error
  plain_error : String → Error
  thrown_value : Error

-- What a function of the source does: it throws, or it returns.
pub data Result {ℓ} (T : Type ℓ) : Type ℓ where
  err : (thrown : Error) → Result T
  ok : (value : T) → Result T

abbrev pub is_ok {ℓ} : {T : Type ℓ} → Result T → Bool
is_ok (err _) = false
is_ok (ok _) = true

-- `if (b) throw e;`
abbrev pub throw_if : Bool → Error → Result (Unit {0})
throw_if true e = err e
throw_if false e = ok tt

infixl 5 ◌>>=◌
abbrev pub ◌>>=◌ {ℓ κ} : {S : Type ℓ} {T : Type κ} → Result S → (S → Result T) → Result T
err thrown >>= next = err thrown
ok value >>= next = next value

infixl 5 ◌>>◌
abbrev pub ◌>>◌ {κ} : {T : Type κ} → Result (Unit {0}) → Result T → Result T
err thrown >> rest = err thrown
ok _ >> rest = rest

-- `Event`, and `PresenceEventMessage` with its event's name as a text.
pub record ChannelEvent : Type 0 where
  pub action : ServerActions
  pub event : String
  pub payload : PondObject
  pub channel_name : String
  pub request_id : String

pub record InternalChannelEvent : Type 0 where
  pub event : ChannelEvent
  pub recipients : List String

-- `ChannelReceivers`: the two enum members, a list of user ids, or some other value at run time.
pub data ChannelReceivers : Type 0 where
  all_users all_except_sender : ChannelReceivers
  user_ids : List String → ChannelReceivers
  other : String → ChannelReceivers

pub record UserData : Type 0 where
  pub id : String
  pub assigns : PondObject
  pub presence : PondObject

-- The body of a message between nodes; the fields that a consumer tests for are options.
pub data MessageBody : Type 0 where
  state_request : String → MessageBody
  state_response : Option (List UserData) → MessageBody
  user_joined : String → PondObject → PondObject → MessageBody
  user_left : String → MessageBody
  user_message : String → String → PondObject → String → ChannelReceivers → MessageBody
  presence_update : String → PondObject → MessageBody
  presence_removed : String → MessageBody
  assigns_update : String → Option PondObject → Option (String × Json) → MessageBody
  evict_user : String → String → MessageBody
  user_remove : String → MessageBody
  user_get_request : String → String → String → MessageBody
  user_get_response : String → String → PondObject → PondObject → MessageBody
  node_heartbeat : String → MessageBody

pub record DistributedMessage : Type 0 where
  pub endpoint_name : String
  pub channel_name : String
  pub source_node_id : Option String
  pub body : MessageBody

-- `SystemSender.CHANNEL`.
abbrev pub channel_sender : String
channel_sender = "CHANNEL"

-- The texts of `PresenceEventTypes`.
abbrev pub event_text : PresenceEventTypes → String
event_text join = "JOIN"
event_text leave = "LEAVE"
event_text update = "UPDATE"

-- `HttpError.getStatusText`.
unfoldable pub get_status_text : ℕ → String
get_status_text code =
    if nat_beq code 400
    then "Bad Request"
    else if nat_beq code 401
    then "Unauthorized"
    else if nat_beq code 403
    then "Forbidden"
    else if nat_beq code 404
    then "Not Found"
    else if nat_beq code 405
    then "Method Not Allowed"
    else if nat_beq code 406
    then "Not Acceptable"
    else if nat_beq code 409
    then "Conflict"
    else if nat_beq code 413
    then "Payload Too Large"
    else if nat_beq code 429
    then "Too Many Requests"
    else if nat_beq code 500
    then "Internal Server Error"
    else if nat_beq code 501
    then "Not Implemented"
    else if nat_beq code 502
    then "Bad Gateway"
    else if nat_beq code 503
    then "Service Unavailable"
    else if nat_beq code 504
    then "Gateway Timeout"
    else "Unknown Error"
