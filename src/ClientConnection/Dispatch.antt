-- ===== src/ClientConnection/Dispatch.antt =====
-- What the client does with an event of the server: `#init`, `#handleAcknowledge`, `#handleError` and
-- `_parseMessages` of javascript/client/src/core/baseClient.ts.
use pondsocket.Prelude.{
  String, Bool, true, false, ◌&&◌, ◌||◌, Option, none, some, List, [], ◌∷◌, ◌++◌, ◌==◌, map,
  if◌then◌else◌, or_else,
}
use pondsocket.JsMap.{get}
use pondsocket.Protocol.{
  coalesce, PondObject, Json, str, num, obj, array, object, ChannelEvent, ServerActions, event_text,
  Result, ok, err, ◌>>=◌, plain_error,
}
use pondsocket.Schema.{
  entries, ParsedEvent, a_presence, a_server, valid, invalid, parse_channel_event,
}
use pondsocket.ClientChannel.{connected}
use pondsocket.ClientConnection.{
  Client, PondErrorPayload, Effect, publish_event, publish_state, acknowledge_channel,
  decline_channel, set_state,
}

-- `payload.error` where it is an object; an array has none of the fields that are read.
abbrev pub nested_error : Option Json → PondObject
nested_error (some (obj fs)) = entries fs
nested_error _ = []

abbrev pub number_of : Option Json → Option Json
number_of (some (num n)) = some (num n)
number_of _ = none

abbrev pub text_of : Option Json → String → String
text_of (some (str t)) d = t
text_of _ d = d

-- The payload that `#handleError` declines a channel with.
unfoldable pub normalize_error : ChannelEvent → PondErrorPayload
normalize_error v =
    let nested = nested_error (get "error" v.payload) in
    record {
      code = text_of (get "code" v.payload) v.event;
      message =
          or_else (coalesce (get "message" v.payload) (coalesce (get "message" nested) none))
            (str "Channel request failed");
      status =
          or_else
            (coalesce (get "status" v.payload) (
              coalesce (get "statusCode" v.payload) (
                coalesce (number_of (get "code" v.payload)) (coalesce (get "status" nested) none))))
            (num 500);
      details = get "details" v.payload;
    }

-- `#handleAcknowledge`.
unfoldable pub handle_acknowledge : ChannelEvent → Client → List Effect
handle_acknowledge v c = elim (get v.channel_name c.channels) [
  | none ↦ []
  | some n ↦ acknowledge_channel n v.request_id ∷ []
]

-- `#handleError`.
unfoldable pub handle_error : ChannelEvent → Client → List Effect
unfolding normalize_error
handle_error v c = elim (get v.channel_name c.channels) [
  | none ↦ []
  | some n ↦ decline_channel n (normalize_error v) v.request_id ∷ []
]

abbrev pub is_error : ServerActions → Bool
is_error ServerActions.error = true
is_error _ = false

abbrev pub is_connect : ServerActions → Bool
is_connect ServerActions.connect = true
is_connect _ = false

-- The subscriber of `#init`.
unfoldable pub dispatch : ChannelEvent → Client → Client × List Effect
unfolding handle_acknowledge handle_error
dispatch v c =
    if v.event == "ACKNOWLEDGE"
    then (c, handle_acknowledge v c)
    else if is_error v.action || v.event == "UNAUTHORIZED"
    then (c, handle_error v c)
    else if v.event == "CONNECTION" && is_connect v.action
    then (set_state connected c, publish_state connected ∷ [])
    else (c, [])

-- A publication on `_broadcaster`: the subscriber of `#init` is its first.
unfoldable pub broadcast_all : List ChannelEvent → Client → Client × List Effect
unfolding dispatch
broadcast_all [] c = (c, [])
broadcast_all (v ∷ vs) c =
    let (d, es) = dispatch v c in
    let (e, fs) = broadcast_all vs d in (e, es ++ (publish_event v ∷ fs))

abbrev pub event_of : ParsedEvent → ChannelEvent
event_of (a_server m) = record {
  action = m.action;
  event = m.event;
  payload = m.payload;
  channel_name = m.channel_name;
  request_id = m.request_id;
}
event_of (a_presence m) = record {
  action = ServerActions.presence;
  event = event_text m.event;
  payload = ("presence", array (map object m.presence)) ∷ ("changed", object m.changed) ∷ [];
  channel_name = m.channel_name;
  request_id = m.request_id;
}

-- `_parseMessages`: a line is blank, or what `JSON.parse` makes of it. The message of a `ValidationError` is an
-- argument.
unfoldable pub parse_messages : String → List (Option (Result Json)) → Result (List ChannelEvent)
parse_messages refusal [] = ok []
parse_messages refusal (none ∷ lines) = parse_messages refusal lines
parse_messages refusal (some line ∷ lines) = do
  j ← line
  v ← (elim (parse_channel_event j) as (λ _. Result ParsedEvent) [
    | valid v ↦ ok v
    | invalid _ _ ↦ err (plain_error refusal)
  ])
  vs ← parse_messages refusal lines
  ok (event_of v ∷ vs)
