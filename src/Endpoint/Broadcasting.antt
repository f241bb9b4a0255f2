-- ===== src/Endpoint/Broadcasting.antt =====
-- A client's message to a channel: `broadcastMessage` of javascript/core/src/engines/channelEngine.ts, the
-- middleware that `onEvent` of lobbyEngine.ts registers, and contexts/eventContext.ts.
use pondsocket.Prelude.{
  ℕ, zero, suc, String, Bool, false, not, Option, none, some, List, [], ◌∷◌, ◌++◌, if◌then◌else◌,
  length, concat, or_else,
}
use pondsocket.Protocol.{
  str, num, ServerActions, user_ids, Error, ok, err, http_error, channel_sender,
}
use pondsocket.Schema.{ClientMessage}
use pondsocket.ChannelEngine.State.{ChannelEngine, has_user}
use pondsocket.ChannelEngine.Users
use pondsocket.ChannelEngine.Presence
use pondsocket.ChannelEngine.Messages
use pondsocket.Middleware.{handle_error}
use pondsocket.Wrappers.Calls.{channel_call}
use pondsocket.Endpoint.State.{
  EventRequest, EventHandler, EventAct, assign, reply, track_presence, update_presence,
  remove_presence, evict_user, send_to_recipients, on_channel, delegate, Script, EndpointEngine,
  Effect, Exit, done, raised, engine_at, call, get_elem?,
}
use pondsocket.Endpoint.Joining.{error_message, error_status, text_or, code_or}
use pondsocket.Endpoint.JoinMiddleware.{first_error}

-- One call of a method of an `EventContext`; the user is the sender where none is given.
unfoldable pub event_act :
    ℕ → EventRequest → EventAct → EndpointEngine → Exit EndpointEngine (Unit {0})
unfolding call
event_act id r (assign assigns) s = call id (Users.update_assigns r.sender assigns) s
event_act id r (reply event payload) s =
    call id
      (Messages.send_message channel_sender (user_ids (r.sender ∷ [])) ServerActions.system event
        payload r.request_id)
      s
event_act id r (track_presence presence user) s =
    call id (Presence.track_presence (or_else user r.sender) presence) s
event_act id r (update_presence presence user) s =
    call id (Presence.update_presence (or_else user r.sender) presence) s
event_act id r (remove_presence user) s =
    call id (Presence.remove_presence (or_else user r.sender)) s
event_act id r (evict_user reason user) s =
    call id (Users.kick_user (or_else user r.sender) reason) s
event_act id r (send_to_recipients recipient event payload) s =
    call id
      (Messages.send_message r.sender recipient ServerActions.broadcast event payload r.request_id)
      s
event_act id r (on_channel k) s = call id (channel_call k) s
event_act id r (delegate e) s = done tt s []

-- What a run of the middleware leaves: the handlers that are left, the endpoint, and the effects. `thrown` is
-- an error that the final function, or the method itself, has thrown.
pub record Run : Type 0 where
  pub left : List EventHandler
  pub endpoint : EndpointEngine
  pub told : List Effect
  pub thrown : Option Error

abbrev pub after_effects : List Effect → Run → Run
after_effects es r = record r { told = es ++ r.told }

-- A handler's calls, up to the first that throws.
unfoldable pub run_event_acts :
    (Option Error → List EventHandler → EndpointEngine → Run)
    → ℕ
    → EventRequest
    → List EventAct
    → List EventHandler
    → EndpointEngine
    → Run
unfolding event_act
run_event_acts next id r [] rest s = record { left = rest; endpoint = s; told = []; thrown = none }
run_event_acts next id r (delegate e ∷ acts) rest s =
    let p = next e rest s in
    elim p.thrown [
      | some x ↦ p
      | none ↦ after_effects p.told (run_event_acts next id r acts p.left p.endpoint)
    ]
run_event_acts next id r (a ∷ acts) rest s = elim (event_act id r a s) [
  | raised x t es ↦ record { left = rest; endpoint = t; told = es; thrown = some x }
  | done _ t es ↦ after_effects es (run_event_acts next id r acts rest t)
]

abbrev pub final_message : Option Error → String
final_message none = "A handler did not respond to the event"
final_message (some e) = text_or (some (error_message e)) "A handler did not respond to the event"

abbrev pub final_code : Option Error → ℕ
final_code none = 500
final_code (some e) = code_or (some (error_status e)) 500

-- The final function of `broadcastMessage`.
unfoldable pub event_final :
    ℕ → EventRequest → Option Error → EndpointEngine → Exit EndpointEngine (Unit {0})
event_final id r e s =
    call id
      (Messages.send_message channel_sender (user_ids (r.sender ∷ [])) ServerActions.error
        "HANDLER_NOT_FOUND" (("message", str (final_message e)) ∷ ("code", num (final_code e)) ∷ [])
        r.request_id)
      s

unfoldable pub finish : ℕ → EventRequest → Option Error → List EventHandler → EndpointEngine → Run
unfolding event_final
finish id r e rest s = elim (event_final id r e s) [
  | done _ t es ↦ record { left = rest; endpoint = t; told = es; thrown = none }
  | raised x t es ↦ record { left = rest; endpoint = t; told = es; thrown = some x }
]

-- An error of the final function is ignored where it handles a rejection.
abbrev pub ignore_error : Bool → Run → Run
ignore_error is_async p = record p { thrown = if is_async then none else p.thrown }

-- What follows a handler: its error goes to the final function.
unfoldable pub after_event : ℕ → EventRequest → Option Error → Bool → Run → Run
unfolding finish
after_event id r ending is_async p = elim (first_error p.thrown ending) [
  | none ↦ p
  | some x ↦
      after_effects p.told
        (ignore_error is_async (finish id r (some (handle_error x)) p.left p.endpoint))
]

unfoldable pub event_script : EventHandler → EventRequest → ℕ → EndpointEngine → Script EventAct
event_script h r id s = elim (get_elem? s.engines id) [
  | none ↦ record { acts = []; ending = none; is_async = false }
  | some cell ↦ h.handler r cell.engine
]

-- `next` of the lobby's middleware, on fuel for how deep the handlers call one another.
unfoldable pub event_next :
    ℕ → ℕ → EventRequest → Option Error → List EventHandler → EndpointEngine → Run
unfolding run_event_acts after_event finish event_script
event_next zero id r e stack s = record { left = stack; endpoint = s; told = []; thrown = none }
event_next (suc fuel) id r (some e) stack s = finish id r (some (handle_error e)) stack s
event_next (suc fuel) id r none [] s = finish id r none [] s
event_next (suc fuel) id r none (h ∷ rest) s = elim (h.path.parse r.event) [
  | err x ↦ finish id r (some (handle_error x)) rest s
  | ok none ↦ event_next fuel id r none rest s
  | ok (some params) ↦
      let q = record r { params = params } in
      let script = event_script h q id s in
      after_event id r script.ending script.is_async
        (run_event_acts (event_next fuel id r) id q script.acts rest s)
]

-- The handlers of the lobby of a channel engine.
unfoldable pub handlers_of : ℕ → EndpointEngine → List EventHandler
handlers_of id s = elim (get_elem? s.engines id) [
  | none ↦ []
  | some cell ↦ elim (get_elem? s.lobbies cell.lobby) [ none ↦ [] | some l ↦ l.middleware ]
]

abbrev pub knows : String → Option ChannelEngine → Bool
knows user none = false
knows user (some c) = has_user user c

-- `this.users.has(userId)` of the engine at a place.
abbrev pub is_member : ℕ → String → EndpointEngine → Bool
is_member id user s = knows user (engine_at id s)

abbrev pub name_of : Option ChannelEngine → String
name_of none = ""
name_of (some c) = c.name

-- A run as the outcome of a method.
abbrev pub to_exit : Run → Exit EndpointEngine (Unit {0})
to_exit r = elim r.thrown [ none ↦ done tt r.endpoint r.told | some x ↦ raised x r.endpoint r.told ]

-- The request before a handler's path has put its parameters in.
abbrev pub event_request : String → ClientMessage → EventRequest
event_request user m = record {
  sender = user;
  event = m.event;
  payload = m.payload;
  request_id = m.request_id;
  params = record { params = []; query = [] };
}

-- `broadcastMessage`.
unfoldable pub broadcast_message :
    ℕ → String → ClientMessage → EndpointEngine → Exit EndpointEngine (Unit {0})
unfolding event_next handlers_of
broadcast_message id user m s =
    if not (is_member id user s)
    then raised
        (http_error 404 (
          concat (
            "ChannelEngine: User with id "
            ∷ user
            ∷ " does not exist in channel "
            ∷ name_of (engine_at id s)
            ∷ [])))
        s []
    else (let hs = handlers_of id s in
        let r = event_request user m in to_exit (event_next (suc (length hs)) id r none hs s))
