-- ===== src/Presence.antt =====
-- javascript/core/src/engines/presenceEngine.ts. Every operation is `process_presence_action`, which
-- throws before it writes, so a failure is a value without a new state. The id that `uuid()` draws
-- is an argument.
pub mod Laws
mod Tests
use pondsocket.Prelude.{
  ℕ, String, Bool, true, false, not, ◌&&◌, ◌||◌, Option, none, some, List, [], ◌∷◌, map, or_else,
  is_some, length, concat, if◌then◌else◌,
}
use pondsocket.JsMap.{JsMap, get, set, has, delete, keys, values}
use pondsocket.Protocol.{
  PresenceEventTypes, join, leave, update, PondObject, object, array, ChannelEvent,
  InternalChannelEvent, ServerActions, Result, ok, err, plain_error, ◌>>=◌, ◌>>◌, throw_if,
  event_text,
}

pub record PresenceEngine : Type 0 where
  pub channel_id : String
  pub cache : JsMap PondObject

unfoldable pub new_presence_engine : String → PresenceEngine
new_presence_engine channel_id = record { channel_id = channel_id; cache = [] }

unfoldable pub presence_count : PresenceEngine → ℕ
presence_count e = length e.cache

abbrev pub is_join : PresenceEventTypes → Bool
is_join join = true
is_join _ = false

abbrev pub is_leave : PresenceEventTypes → Bool
is_leave leave = true
is_leave _ = false

-- The write to the cache.
unfoldable pub write : String → Option PondObject → JsMap PondObject → JsMap PondObject
write user none cache = delete user cache
write user (some presence) cache = set user presence cache

-- The event that tells the remaining users of the change; `changed` is the earlier presence, if any.
unfoldable pub presence_event :
    PresenceEventTypes
    → String
    → String
    → Option PondObject
    → Option PondObject
    → JsMap PondObject
    → InternalChannelEvent
presence_event action channel_id request_id current presence total = record {
  event = record {
    action = ServerActions.presence;
    event = event_text action;
    payload =
        ("changed", object (or_else current (or_else presence [])))
        ∷ ("presence", array (map object (values total)))
        ∷ [];
    channel_name = channel_id;
    request_id = request_id;
  };
  recipients = keys total;
}

unfoldable pub process_presence_action :
    PresenceEventTypes
    → String
    → Option PondObject
    → String
    → PresenceEngine
    → Result (PresenceEngine × InternalChannelEvent)
unfolding write
process_presence_action action user presence request_id e = do
  let present = has user e.cache
  throw_if (is_join action && present)
      (plain_error (concat ("User with id " ∷ user ∷ " already exists in the presence cache" ∷ [])))
  throw_if (not (is_join action) && not present)
      (plain_error (concat ("User with id " ∷ user ∷ " does not exist in the presence cache" ∷ [])))
  throw_if (not (is_leave action) && not (is_some presence))
      (plain_error (concat ("Data is required for " ∷ event_text action ∷ " action" ∷ [])))
  let total = write user presence e.cache
  ok (
    record e { cache = total },
    presence_event action e.channel_id request_id (get user e.cache) presence total,
  )

unfoldable pub track_presence :
    String → PondObject → String → PresenceEngine → Result (PresenceEngine × InternalChannelEvent)
unfolding process_presence_action
track_presence user presence = process_presence_action join user (some presence)

unfoldable pub update_presence :
    String → PondObject → String → PresenceEngine → Result (PresenceEngine × InternalChannelEvent)
unfolding process_presence_action
update_presence user presence = process_presence_action update user (some presence)

unfoldable pub remove_presence :
    String → String → PresenceEngine → Result (PresenceEngine × InternalChannelEvent)
unfolding process_presence_action
remove_presence user = process_presence_action leave user none

unfoldable pub upsert_presence :
    String → PondObject → String → PresenceEngine → Result (PresenceEngine × InternalChannelEvent)
unfolding track_presence update_presence
upsert_presence user presence request_id e =
    if has user e.cache
    then update_presence user presence request_id e
    else track_presence user presence request_id e

unfoldable pub get_presence : String → PresenceEngine → Option PondObject
get_presence user e = get user e.cache

unfoldable pub get_all_presence : PresenceEngine → JsMap PondObject
get_all_presence e = e.cache

unfoldable pub close : PresenceEngine → PresenceEngine
close e = record e { cache = [] }
