-- ===== src/Schema/Events.antt =====
-- The events that the server makes, as the client's parser reads them.
use pondsocket.Prelude.{ℕ, suc, String, Option, List, [], ◌∷◌, ◌≡◌, ◌≢◌, refl, ap, map, or_else}
use pondsocket.JsMap.{get, values}
use pondsocket.Protocol.{
  Json, str, PondObject, object, items, ServerActions, PresenceEventTypes, join, leave, update,
  ChannelEvent,
}
use pondsocket.Presence.{presence_event}
use pondsocket.Schema.{
  valid, elements, server_action_text, ServerMessage, a_presence, a_server, parse_channel_event,
  validate_records,
}
use pondsocket.Schema.Client.{entries-fields}

abbrev pub event_entries : ChannelEvent → PondObject
event_entries e =
    ("channelName", str e.channel_name)
    ∷ ("requestId", str e.request_id)
    ∷ ("action", str (server_action_text e.action))
    ∷ ("event", str e.event)
    ∷ ("payload", object e.payload)
    ∷ []

abbrev pub event_json : ChannelEvent → Json
event_json e = object (event_entries e)

abbrev pub server_message : ChannelEvent → ServerMessage
server_message e = record {
  event = e.event;
  request_id = e.request_id;
  channel_name = e.channel_name;
  payload = e.payload;
  action = e.action;
}

read_back :
    (action : ServerActions)
    → action ≢ ServerActions.presence
    → (event channel_name request_id : String) (payload : PondObject)
    → let e : ChannelEvent = record {
      action = action;
      event = event;
      payload = payload;
      channel_name = channel_name;
      request_id = request_id;
    } in
      parse_channel_event (event_json e) ≡ valid (a_server (server_message e))
unfolding parse_channel_event get
read_back ServerActions.presence h _ _ _ _ = absurd (h refl)
read_back ServerActions.system h event channel_name request_id payload = rw (entries-fields payload)
read_back ServerActions.broadcast h event channel_name request_id payload =
    rw (entries-fields payload)
read_back ServerActions.error h event channel_name request_id payload = rw (entries-fields payload)
read_back ServerActions.connect h event channel_name request_id payload =
    rw (entries-fields payload)

-- Every event of the server that is no presence event is read by the client as it was sent.
pub parse_channel_event-server :
    (e : ChannelEvent)
    → e.action ≢ ServerActions.presence
    → parse_channel_event (event_json e) ≡ valid (a_server (server_message e))
parse_channel_event-server e h = read_back e.action h e.event e.channel_name e.request_id e.payload

elements-items : (js : List Json) → elements (items js) ≡ js
elements-items [] = refl
elements-items (j ∷ js) = ap (λ (r : List Json). j ∷ r) (elements-items js)

validate_records-objects :
    (n : ℕ) (os : List PondObject) → validate_records n (map object os) ≡ valid os
unfolding validate_records
validate_records-objects n [] = refl
validate_records-objects n (o ∷ os) = rw (entries-fields o, validate_records-objects (suc n) os)

-- Every event that the presence engine publishes is read by the client as a presence message: with the
-- kind of change, the presences of all users that are left, and the earlier presence of the changed
-- user, or else the new one.
pub parse_channel_event-presence :
    (action : PresenceEventTypes) (channel request_id : String)
    (current presence : Option PondObject) (total : List (String × PondObject))
    → parse_channel_event
        (event_json (presence_event action channel request_id current presence total).event)
      ≡ valid (
          a_presence (record {
            request_id = request_id;
            channel_name = channel;
            event = action;
            presence = values total;
            changed = or_else current (or_else presence []);
          }))
unfolding parse_channel_event presence_event get
parse_channel_event-presence join channel request_id current presence total = rw (
  elements-items (map object (values total)),
  validate_records-objects 0 (values total),
  entries-fields (or_else current (or_else presence [])),
)
parse_channel_event-presence leave channel request_id current presence total = rw (
  elements-items (map object (values total)),
  validate_records-objects 0 (values total),
  entries-fields (or_else current (or_else presence [])),
)
parse_channel_event-presence update channel request_id current presence total = rw (
  elements-items (map object (values total)),
  validate_records-objects 0 (values total),
  entries-fields (or_else current (or_else presence [])),
)
