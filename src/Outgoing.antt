-- ===== src/Outgoing.antt =====
-- Events on their way to a user: javascript/core/src/contexts/outgoingContext.ts with the state of baseContext.ts,
-- `runAsync` of javascript/core/src/abstracts/middleware.ts on the functions that `handleOutgoingEvent` of
-- javascript/core/src/engines/lobbyEngine.ts registers, and `processOutgoingEvents`. A handler is code of the
-- application, known by the methods of its context that it calls and by the error, if any, that it ends by; what it
-- does to the channel besides is no part of it.
pub mod Laws
pub mod Unhandled
pub mod Reception
pub mod Routes
mod Tests
use pondsocket.Prelude.{
  String, Bool, true, false, Option, none, some, List, [], ◌∷◌, ◌++◌, if◌then◌else◌,
}
use pondsocket.Protocol.{
  PondObject, ServerActions, ChannelEvent, Error, plain_error, Result, ok, err, ◌>>=◌,
}
use pondsocket.Middleware.{handle_error}
use pondsocket.Endpoint.State.{EventParams, PondPath}
use pondsocket.ChannelEngine.State.{Effect, deliver}

-- `OutgoingContext` and its `BaseContext`, without the engine. `params` is `null` where the event's name does not
-- match.
pub record OutgoingContext : Type 0 where
  pub params : Option EventParams
  pub event : String
  pub sender : String
  pub payload : PondObject
  pub action : ServerActions
  pub is_blocked : Bool

unfoldable pub new_outgoing_context : ChannelEvent → Option EventParams → String → OutgoingContext
new_outgoing_context v params user = record {
  params = params;
  event = v.event;
  sender = user;
  payload = v.payload;
  action = v.action;
  is_blocked = false;
}

unfoldable pub block : OutgoingContext → OutgoingContext
block c = record c { is_blocked = true }

unfoldable pub transform : PondObject → OutgoingContext → OutgoingContext
transform payload c = record c { payload = payload }

unfoldable pub update_params : EventParams → OutgoingContext → OutgoingContext
update_params params c = record c { params = some params }

-- What `get event ()` gives; without parameters it throws.
pub record PondEvent : Type 0 where
  pub event : String
  pub params : EventParams
  pub action : ServerActions
  pub payload : PondObject

unfoldable pub event_of : OutgoingContext → Result PondEvent
event_of c = elim c.params [
  | none ↦ err (plain_error "Cannot read properties of null (reading 'query')")
  | some params ↦
      ok (record { event = c.event; params = params; action = c.action; payload = c.payload })
]

-- What a handler calls. `broadcast`, `broadcastFrom` and `broadcastTo` send nothing on this context.
pub data OutgoingAct : Type 0 where
  block_event : OutgoingAct
  transform_payload : PondObject → OutgoingAct
  broadcast_event : String → PondObject → OutgoingAct

pub record OutgoingScript : Type 0 where
  pub acts : List OutgoingAct
  pub ending : Option Error

pub record OutgoingHandler : Type 0 where
  pub path : PondPath
  pub handler : OutgoingContext → OutgoingScript

unfoldable pub outgoing_act : OutgoingAct → OutgoingContext → OutgoingContext
unfolding block transform
outgoing_act block_event c = block c
outgoing_act (transform_payload payload) c = transform payload c
outgoing_act (broadcast_event event payload) c = c

unfoldable pub outgoing_acts : List OutgoingAct → OutgoingContext → OutgoingContext
unfolding outgoing_act
outgoing_acts [] c = c
outgoing_acts (a ∷ acts) c = outgoing_acts acts (outgoing_act a c)

-- `handleOutgoingEvent`: a handler is added where its path compiles.
unfoldable pub handle_outgoing_event :
    OutgoingHandler → List OutgoingHandler → Result (List OutgoingHandler)
handle_outgoing_event h stack = h.path.compile >>= λ _. ok (stack ++ h ∷ [])

-- The function that `processOutgoingEvents` gives to `runAsync` as the final one.
unfoldable pub outgoing_final : Option Error → OutgoingContext → OutgoingContext
unfolding block
outgoing_final none c = c
outgoing_final (some x) c = block c

-- How the function ends that was registered for a handler, after the handler.
unfoldable pub after_outgoing : Option Error → OutgoingContext → OutgoingContext
unfolding outgoing_final handle_error
after_outgoing none c = c
after_outgoing (some x) c = outgoing_final (some (handle_error x)) c

unfoldable pub call_outgoing : OutgoingHandler → EventParams → OutgoingContext → OutgoingContext
unfolding after_outgoing outgoing_acts update_params
call_outgoing h params c =
    let typed = update_params params c in
    after_outgoing (h.handler typed).ending (outgoing_acts (h.handler typed).acts typed)

-- `runAsync` from a place of the stack on: a function calls `next` once or not at all, and waits for it.
unfoldable pub run_async : List OutgoingHandler → ChannelEvent → OutgoingContext → OutgoingContext
unfolding outgoing_final handle_error call_outgoing
run_async [] v c = outgoing_final none c
run_async (h ∷ hs) v c =
    let rest = run_async hs v c in
    elim (h.path.parse v.event) [
      | err x ↦ outgoing_final (some (handle_error x)) c
      | ok none ↦ rest
      | ok (some params) ↦ if c.is_blocked then rest else call_outgoing h params c
    ]

-- The end of `processOutgoingEvents`: nothing for a blocked event.
unfoldable pub outgoing_result : ChannelEvent → OutgoingContext → Result (Option ChannelEvent)
unfolding event_of
outgoing_result v c =
    if c.is_blocked
    then ok none
    else (event_of c >>= λ e. ok (some (record v { payload = c.payload; event = e.event })))

module _ (any_path : PondPath) where
  -- `processOutgoingEvents`. `any_path` is the path `*`.
  unfoldable pub process_outgoing_events :
      List OutgoingHandler → ChannelEvent → String → Result (Option ChannelEvent)
  unfolding run_async outgoing_result new_outgoing_context
  process_outgoing_events stack v user = any_path.parse v.event >>= λ params.
      outgoing_result v (run_async stack v (new_outgoing_context v params user))

  -- What the subscriber of a user does with the result: it calls the user's `onMessage`, or its promise is
  -- rejected.
  unfoldable pub outgoing_processed :
      List OutgoingHandler → ChannelEvent → String → Result (List Effect)
  unfolding process_outgoing_events
  outgoing_processed stack v user = process_outgoing_events stack v user >>= λ result.
      ok (elim (result) [ none ↦ [] | some w ↦ deliver user w ∷ [] ])
