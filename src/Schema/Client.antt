-- ===== src/Schema/Client.antt =====
-- Which JSON values are client messages.
use pondsocket.Prelude.{some, [], ◌∷◌, ◌≡◌, refl, ap, ◌↔◌, arith, eq_iff}
use pondsocket.JsMap.{get}
use pondsocket.Protocol.{Json, null, str, obj, Fields, PondObject, object, fields}
use pondsocket.Schema.{
  ClientActions, join_channel, leave_channel, broadcast, valid, entries, client_action_text,
  ClientMessage, parse_client_message, validate_client_action,
}

-- Reading an object back gives its entries.
pub entries-fields : (o : PondObject) → entries (fields o) ≡ o
entries-fields [] = refl
entries-fields ((k, v) ∷ o) = ap (λ (r : PondObject). (k, v) ∷ r) (entries-fields o)

-- The JSON value of a message, as `JSON.stringify` and `JSON.parse` hand it over.
abbrev pub client_entries : ClientMessage → PondObject
client_entries m =
    ("action", str (client_action_text m.action))
    ∷ ("event", str m.event)
    ∷ ("channelName", str m.channel_name)
    ∷ ("requestId", str m.request_id)
    ∷ ("payload", object m.payload)
    ∷ []

abbrev pub client_json : ClientMessage → Json
client_json m = object (client_entries m)

-- An object's entries say the message.
pub record Says (o : PondObject) (m : ClientMessage) : Type 0 where
  pub event : get "event" o ≡ some (str m.event)
  pub request_id : get "requestId" o ≡ some (str m.request_id)
  pub channel_name : get "channelName" o ≡ some (str m.channel_name)
  pub payload : (fs : Fields) × (get "payload" o ≡ some (obj fs)) × (entries fs ≡ m.payload)
  pub action : get "action" o ≡ some (str (client_action_text m.action))

validate_client_action-eq_valid :
    (j : Json) (a : ClientActions)
    → validate_client_action j ≡ valid a
    → j ≡ str (client_action_text a)
unfolding validate_client_action
validate_client_action-eq_valid (str s) a h =
    ground (arith, eq_iff s "JOIN_CHANNEL", eq_iff s "LEAVE_CHANNEL", eq_iff s "BROADCAST")
validate_client_action-eq_valid null a h = cc
validate_client_action-eq_valid _ a h = cc

checked_action :
    (fs : Fields) (m : ClientMessage)
    → parse_client_message (obj fs) ≡ valid m
    → (j : Json) × (get "action" (entries fs) ≡ some j)
      × (validate_client_action j ≡ valid m.action)
unfolding parse_client_message
checked_action fs m h = ground arith

parse_client_message_sound :
    (fs : Fields) (m : ClientMessage)
    → parse_client_message (obj fs) ≡ valid m
    → Says (entries fs) m
unfolding parse_client_message
parse_client_message_sound fs m h =
    let (j, found, checked) = checked_action fs m h in
    record {
      event = ground arith;
      request_id = ground arith;
      channel_name = ground arith;
      payload = ground arith;
      action = rw (← validate_client_action-eq_valid j m.action checked) found;
    }

validate_client_action-text :
    (a : ClientActions) → validate_client_action (str (client_action_text a)) ≡ valid a
unfolding validate_client_action
validate_client_action-text join_channel = refl
validate_client_action-text leave_channel = refl
validate_client_action-text broadcast = refl

parse_client_message_complete :
    (fs : Fields) (m : ClientMessage)
    → Says (entries fs) m
    → parse_client_message (obj fs) ≡ valid m
unfolding parse_client_message
parse_client_message_complete fs m s =
    let (gs, found, same) = s.payload in ground (arith, validate_client_action-text m.action)

-- The parser of client messages accepts an object as a message exactly when the object's entries say that
-- message, whatever else the object holds and in whatever order.
pub parse_client_message-eq_valid_iff :
    (fs : Fields) (m : ClientMessage)
    → (parse_client_message (obj fs) ≡ valid m) ↔ Says (entries fs) m
parse_client_message-eq_valid_iff fs m =
    (parse_client_message_sound fs m, parse_client_message_complete fs m)

-- Every message that a client can send is read back as it was.
pub parse_client_message-client_json :
    (m : ClientMessage) → parse_client_message (client_json m) ≡ valid m
unfolding get
parse_client_message-client_json m = parse_client_message_complete (fields (client_entries m)) m (
    rw (entries-fields (client_entries m)) (record {
      event = refl;
      request_id = refl;
      channel_name = refl;
      payload = (fields m.payload, refl, entries-fields m.payload);
      action = refl;
    }))
