-- ===== src/Presence/Laws.antt =====
-- What the presence engine promises: when an operation succeeds, what it writes and whom it tells.
use pondsocket.Prelude.{
  String, true, not, ◌&&◌, ◌||◌, Option, none, some, ◌≡◌, ◌==◌, if◌then◌else◌, includes, IsDistinct,
  arith, inl, inr, Bool-cases, is_some, same_self,
}
use pondsocket.JsMap.{JsMap, get, has, keys}
use pondsocket.JsMap.Laws.{
  get-set, get-delete, has-set, has-delete, has-keys, set-IsDistinct, delete-IsDistinct,
}
use pondsocket.Protocol.{
  PresenceEventTypes, join, update, PondObject, InternalChannelEvent, ok, is_ok,
}
use pondsocket.Presence.{
  PresenceEngine, is_join, is_leave, write, presence_event, process_presence_action,
  upsert_presence,
}

-- The result of an action that succeeds: the cache after the write, and the event about it.
abbrev pub published :
    PresenceEventTypes
    → String
    → Option PondObject
    → String
    → PresenceEngine
    → PresenceEngine × InternalChannelEvent
published action user presence request_id e = (
  record e { cache = write user presence e.cache },
  presence_event action e.channel_id request_id (get user e.cache) presence
      (write user presence e.cache),
)

pub process_presence_action-accepts :
    (action : PresenceEventTypes) (user request_id : String) (presence : Option PondObject)
    (e : PresenceEngine)
    → let possible =
        (if is_join action then not (has user e.cache) else has user e.cache)
        && (is_leave action || is_some presence) in
      (is_ok (process_presence_action action user presence request_id e) ≡ possible)
      × (possible ≡ true
          → process_presence_action action user presence request_id e
            ≡ ok (published action user presence request_id e))
unfolding process_presence_action
process_presence_action-accepts join user request_id presence e = ground arith
process_presence_action-accepts _ user request_id presence e = ground arith

get-write :
    (j user : String) (presence : Option PondObject) (m : JsMap PondObject)
    → get j (write user presence m) ≡ (if user == j then presence else get j m)
unfolding write
get-write j user none m = get-delete j user m
get-write j user (some p) m = get-set j user p m

has-write :
    (j user : String) (presence : Option PondObject) (m : JsMap PondObject)
    → has j (write user presence m) ≡ (if user == j then is_some presence else has j m)
unfolding write
has-write j user none m = ground (arith, has-delete j user m)
has-write j user (some p) m = ground (arith, has-set j user p m)

-- An action is accepted exactly when a JOIN names an absent user, or an UPDATE or a LEAVE a present
-- one, and a JOIN or an UPDATE comes with data.
pub is_ok-process_presence_action :
    (action : PresenceEventTypes) (user request_id : String) (presence : Option PondObject)
    (e : PresenceEngine)
    → is_ok (process_presence_action action user presence request_id e) ≡ (
        (if is_join action then not (has user e.cache) else has user e.cache)
        && (is_leave action || is_some presence))
is_ok-process_presence_action action user request_id presence e =
    (process_presence_action-accepts action user request_id presence e).0

-- Where an action succeeds, the named user's presence is what was given (nothing after a LEAVE), all
-- other presences are as before, and the event goes to exactly the users that are present afterwards:
-- a joining user hears of itself, a leaving one does not.
pub process_presence_action-writes :
    (action : PresenceEventTypes) (user request_id j : String) (presence : Option PondObject)
    (e e' : PresenceEngine) (event : InternalChannelEvent)
    → process_presence_action action user presence request_id e ≡ ok (e', event)
    → (get j e'.cache ≡ (if user == j then presence else get j e.cache))
      × (includes event.recipients j ≡ (if user == j then is_some presence else has j e.cache))
unfolding presence_event
process_presence_action-writes action user request_id j presence e e' event h =
    let a = process_presence_action-accepts action user request_id presence e in
    ground (
      arith,
      a,
      get-write j user presence e.cache,
      has-write j user presence e.cache,
      has-keys j (write user presence e.cache),
    )

-- `upsertPresence` never fails, and the user's presence is then the given one.
pub upsert_presence-total :
    (user request_id : String) (presence : PondObject) (e : PresenceEngine)
    → (r : PresenceEngine × InternalChannelEvent) × (upsert_presence user presence request_id e
        ≡ ok r)
      × (get user (r.0).cache ≡ some presence)
unfolding upsert_presence
upsert_presence-total user request_id presence e = elim (Bool-cases (has user e.cache)) [
  | inl there ↦ (published update user (some presence) request_id e, ground arith, kept)
  | inr absent ↦ (published join user (some presence) request_id e, ground arith, kept)
]
  where
    kept : get user (write user (some presence) e.cache) ≡ some presence
    kept = rw (get-write user user (some presence) e.cache, same_self user)

-- No operation makes the cache hold a user twice.
pub process_presence_action-IsDistinct :
    (action : PresenceEventTypes) (user request_id : String) (presence : Option PondObject)
    (e e' : PresenceEngine) (event : InternalChannelEvent)
    → IsDistinct (keys e.cache)
    → process_presence_action action user presence request_id e ≡ ok (e', event)
    → IsDistinct (keys e'.cache)
unfolding write
process_presence_action-IsDistinct action user request_id none e e' event d h = ground (
  arith,
  process_presence_action-accepts action user request_id none e,
  delete-IsDistinct user e.cache d,
)
process_presence_action-IsDistinct action user request_id (some p) e e' event d h = ground (
  arith,
  process_presence_action-accepts action user request_id (some p) e,
  set-IsDistinct user p e.cache d,
)
