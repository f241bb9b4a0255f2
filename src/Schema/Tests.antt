-- ===== src/Schema/Tests.antt =====
-- Messages that the theorems on the parsers apply to.
use pondsocket.Prelude.{[], ◌∷◌, ◌≡◌, ◌≢◌, ◌↔◌}
use pondsocket.Protocol.{str, obj, fields, ChannelEvent, ServerActions}
use pondsocket.Schema.{
  ClientMessage, ClientActions, valid, entries, parse_client_message, parse_channel_event, a_server,
}
use pondsocket.Schema.Client.{Says, client_entries, parse_client_message-eq_valid_iff}
use pondsocket.Schema.Events.{event_json, server_message, parse_channel_event-server}

abbrev message : ClientMessage
message = record {
  event = "hi";
  request_id = "r1";
  channel_name = "/room";
  payload = ("text", str "hello") ∷ [];
  action = ClientActions.broadcast;
}

abbrev event : ChannelEvent
event = record {
  action = ServerActions.system;
  event = "ACKNOWLEDGE";
  payload = [];
  channel_name = "/room";
  request_id = "r1";
}

parse_client_message-eq_valid_iff_example :
    (parse_client_message (obj (fields (("more", str "x") ∷ client_entries message)))
      ≡ valid message)
    ↔ Says (entries (fields (("more", str "x") ∷ client_entries message))) message
parse_client_message-eq_valid_iff_example =
    parse_client_message-eq_valid_iff (fields (("more", str "x") ∷ client_entries message)) message

no_presence : ServerActions.system ≢ ServerActions.presence
no_presence = λ p. cc

parse_channel_event-server_example :
    parse_channel_event (event_json event) ≡ valid (a_server (server_message event))
parse_channel_event-server_example = parse_channel_event-server event no_presence
