-- ===== src/ChannelEngine/Presence.antt =====
-- The presence operations of the engine, `#getOrCreatePresenceEngine` and `#safeRemovePresence`.
use pondsocket.Prelude.{String, none, some, suc, is_some}
use pondsocket.Presence
use pondsocket.Presence.{PresenceEngine}
use pondsocket.Protocol.{
  PondObject, InternalChannelEvent, Result, ok, err, presence_update, presence_removed,
}
use pondsocket.ChannelEngine.State.{
  returned, thrown, Action, ◌>>=◌, ◌>>◌, pure, throw, modify, get_state, publish,
  broadcast_to_nodes, when,
}

unfoldable pub ensure_presence_engine : Action
unfolding Presence.new_presence_engine
ensure_presence_engine = modify λ c. elim c.presence_engine [
  | none ↦ record c { presence_engine = some (Presence.new_presence_engine c.name) }
  | some e ↦ c
]

-- What follows a presence operation: its error, or the new cache and the event's publication.
unfoldable pub settle : Result (PresenceEngine × InternalChannelEvent) → Action
unfolding publish
settle (err x) c = throw x c
settle (ok (e, event)) c =
    publish event (record c { presence_engine = some e; drawn = suc c.drawn })

-- A call of the presence engine, with the id that it draws where it succeeds.
unfoldable pub call_presence_engine :
    (String → PresenceEngine → Result (PresenceEngine × InternalChannelEvent)) → Action
unfolding settle
call_presence_engine op c = elim c.presence_engine [
  | none ↦ pure tt c
  | some e ↦ settle (op (c.uuids c.drawn) e) c
]

unfoldable pub track_presence : String → PondObject → Action
unfolding ensure_presence_engine call_presence_engine broadcast_to_nodes
track_presence user presence = do
  ensure_presence_engine
  call_presence_engine (Presence.track_presence user presence)
  broadcast_to_nodes (presence_update user presence)

unfoldable pub update_presence : String → PondObject → Action
unfolding ensure_presence_engine call_presence_engine broadcast_to_nodes
update_presence user presence = do
  ensure_presence_engine
  call_presence_engine (Presence.update_presence user presence)
  broadcast_to_nodes (presence_update user presence)

unfoldable pub upsert_presence : String → PondObject → Action
unfolding ensure_presence_engine call_presence_engine broadcast_to_nodes
upsert_presence user presence = do
  ensure_presence_engine
  call_presence_engine (Presence.upsert_presence user presence)
  broadcast_to_nodes (presence_update user presence)

unfoldable pub remove_presence : String → Action
unfolding call_presence_engine broadcast_to_nodes
remove_presence user = do
  c ← get_state
  when (is_some c.presence_engine) (do
    call_presence_engine (Presence.remove_presence user)
    broadcast_to_nodes (presence_removed user))

-- `try { … } catch (_) { }`.
abbrev pub ignoring_errors : Action → Action
ignoring_errors m c = elim (m c) [
  | returned _ c' es ↦ returned tt c' es
  | thrown _ c' es ↦ returned tt c' es
]

unfoldable pub safe_remove_presence : String → Action
unfolding call_presence_engine
safe_remove_presence user = ignoring_errors (call_presence_engine (Presence.remove_presence user))
