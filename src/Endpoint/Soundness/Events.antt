-- ===== src/Endpoint/Soundness/Events.antt =====
-- The handlers of events keep the endpoint sound.
use pondsocket.Prelude.{
  ℕ, zero, suc, String, Bool, Bool-cases, Option, none, some, List, [], ◌∷◌, inl, inr, or_else,
  subst, sym, length,
}
use pondsocket.Protocol.{
  PondObject, ServerActions, ChannelReceivers, all_users, all_except_sender, user_ids,
  channel_sender, Error, Result, ok, err,
}
use pondsocket.Schema.{ClientMessage}
use pondsocket.ChannelEngine.State
use pondsocket.ChannelEngine.State.{ChannelEngine}
use pondsocket.ChannelEngine.Messages
use pondsocket.ChannelEngine.Invariant.{
  IsConsistent, track_presence-Frames, update_presence-Frames, remove_presence-Frames,
  upsert_presence-Frames,
}
use pondsocket.ChannelEngine.Delivery.{send_message-returns_iff}
use pondsocket.ChannelEngine.Preservation.{
  Keeps, Frames-Keeps, kick_user-Keeps, update_assigns-IsConsistent, send_new_message-Frames,
  broadcast_to_nodes-Frames,
}
use pondsocket.ChannelEngine.Users
use pondsocket.Middleware.{handle_error}
use pondsocket.JsMap.{JsMap}
use pondsocket.Route.{build_pond_route}
use pondsocket.Wrappers.Methods
use pondsocket.Wrappers.Methods.{
  ChannelCall, broadcast_call, broadcast, broadcast_from, broadcast_to, evict_call, upsert_presence,
  update_assigns, request_user_removal,
}
use pondsocket.Wrappers.Calls
use pondsocket.Wrappers.Calls.{send_built, channel_broadcast, channel_call}
use pondsocket.Endpoint.State.{
  EventParams, EventRequest, EventHandler, EventAct, assign, reply, track_presence, update_presence,
  remove_presence, evict_user, send_to_recipients, on_channel, delegate, EndpointEngine, Exit, done,
  raised, state,
}
use pondsocket.Endpoint.JoinMiddleware.{first_error}
use pondsocket.Endpoint.Broadcasting.{
  event_act, Run, after_effects, run_event_acts, event_final, finish, ignore_error, after_event,
  event_script, event_next, handlers_of, event_request, is_member, to_exit, broadcast_message,
}
use pondsocket.Endpoint.Soundness.{IsSound, call-IsSound}

pub send_message-Keeps :
    (sender event request_id : String) (recipient : ChannelReceivers) (action : ServerActions)
    (payload : PondObject)
    → Keeps (Messages.send_message sender recipient action event payload request_id)
send_message-Keeps sender event request_id recipient action payload = record {
  keeps = λ c v.
      subst IsConsistent
        (sym (send_message-returns_iff sender event request_id recipient action payload c).1) v;
}

pub update_assigns-Keeps :
    (user : String) (assigns : PondObject) → Keeps (Users.update_assigns user assigns)
update_assigns-Keeps user assigns = record { keeps = update_assigns-IsConsistent user assigns }

send_built-Keeps :
    (sender event : String) (recipient : ChannelReceivers) (payload : PondObject)
    (params : Option (JsMap String))
    → Keeps (send_built sender recipient event payload params)
unfolding send_built
send_built-Keeps sender event recipient payload params = record {
  keeps = λ c v. built c v (build_pond_route event (or_else params []));
}
  where
    built :
        (c : ChannelEngine)
        → IsConsistent c
        → (r : Result String)
        → IsConsistent (
            State.state (elim r as (λ _. State.Outcome (Unit {0})) [
              | err x ↦ State.throw x c
              | ok address ↦
                  Messages.send_new_message sender recipient ServerActions.broadcast address payload
                    c
            ]))
    built c v (err x) = v
    built c v (ok address) =
        (Frames-Keeps (
            send_new_message-Frames sender recipient ServerActions.broadcast address payload)).keeps
          c v

-- Every method of `Channel` keeps its engine consistent.
pub channel_call-Keeps : (k : ChannelCall) → Keeps (channel_call k)
unfolding channel_call channel_broadcast Calls.evict_user Users.request_user_removal
channel_call-Keeps (broadcast_call (broadcast event payload params)) =
    send_built-Keeps channel_sender event all_users payload params
channel_call-Keeps (broadcast_call (broadcast_from user event payload params)) =
    send_built-Keeps user event all_except_sender payload params
channel_call-Keeps (broadcast_call (broadcast_to users event payload params)) =
    send_built-Keeps channel_sender event (user_ids (Calls.users_of users)) payload params
channel_call-Keeps (evict_call user reason) = kick_user-Keeps user _
channel_call-Keeps (Methods.track_presence user presence) =
    Frames-Keeps (track_presence-Frames user presence)
channel_call-Keeps (Methods.update_presence user presence) =
    Frames-Keeps (update_presence-Frames user presence)
channel_call-Keeps (upsert_presence user presence) =
    Frames-Keeps (upsert_presence-Frames user presence)
channel_call-Keeps (Methods.remove_presence user) = Frames-Keeps (remove_presence-Frames user)
channel_call-Keeps (update_assigns user assigns) = update_assigns-Keeps user assigns
channel_call-Keeps (request_user_removal user) = Frames-Keeps (broadcast_to_nodes-Frames _)

event_act-IsSound :
    (id : ℕ) (r : EventRequest) (a : EventAct) (s : EndpointEngine)
    → IsSound s
    → IsSound (state (event_act id r a s))
unfolding event_act
event_act-IsSound id r (assign assigns) s v =
    call-IsSound id _ s (update_assigns-Keeps r.sender assigns) v
event_act-IsSound id r (reply event payload) s v =
    call-IsSound id _ s (send_message-Keeps _ event r.request_id _ _ payload) v
event_act-IsSound id r (track_presence presence user) s v =
    call-IsSound id _ s (Frames-Keeps (track_presence-Frames (or_else user r.sender) presence)) v
event_act-IsSound id r (update_presence presence user) s v =
    call-IsSound id _ s (Frames-Keeps (update_presence-Frames (or_else user r.sender) presence)) v
event_act-IsSound id r (remove_presence user) s v =
    call-IsSound id _ s (Frames-Keeps (remove_presence-Frames (or_else user r.sender))) v
event_act-IsSound id r (evict_user reason user) s v =
    call-IsSound id _ s (kick_user-Keeps (or_else user r.sender) reason) v
event_act-IsSound id r (send_to_recipients recipient event payload) s v =
    call-IsSound id _ s (send_message-Keeps r.sender event r.request_id recipient _ payload) v
event_act-IsSound id r (on_channel k) s v = call-IsSound id _ s (channel_call-Keeps k) v
event_act-IsSound id r (delegate e) s v = v

-- What follows a call that returned or threw, and what follows a call of `next`.
abbrev after_act : (EndpointEngine → Run) → List EventHandler → Exit EndpointEngine (Unit {0}) → Run
after_act continue rest (raised x t es) = record {
  left = rest;
  endpoint = t;
  told = es;
  thrown = some x;
}
after_act continue rest (done _ t es) = after_effects es (continue t)

after_act-IsSound :
    (continue : EndpointEngine → Run) (rest : List EventHandler)
    (o : Exit EndpointEngine (Unit {0}))
    → ((t : EndpointEngine) → IsSound t → IsSound (continue t).endpoint)
    → IsSound (state o)
    → IsSound (after_act continue rest o).endpoint
after_act-IsSound continue rest (raised x t es) k v = v
after_act-IsSound continue rest (done a t es) k v = k t v

unless_thrown-IsSound :
    (p q : Run) (thrown : Option Error)
    → IsSound p.endpoint
    → IsSound q.endpoint
    → IsSound (elim thrown as (λ _. Run) [ some x ↦ p | none ↦ q ]).endpoint
unless_thrown-IsSound p q none v w = w
unless_thrown-IsSound p q (some x) v w = v

-- Calls of `next` keep the endpoint sound.
abbrev pub NextKeeps : (Option Error → List EventHandler → EndpointEngine → Run) → Type 0
NextKeeps next =
    (e : Option Error) (hs : List EventHandler) (s : EndpointEngine)
    → IsSound s
    → IsSound (next e hs s).endpoint

module _ (next : Option Error → List EventHandler → EndpointEngine → Run)
    (next_keeps : NextKeeps next) (id : ℕ) (r : EventRequest) where
  run_event_acts-IsSound :
      (acts : List EventAct) (rest : List EventHandler) (s : EndpointEngine)
      → IsSound s
      → IsSound (run_event_acts next id r acts rest s).endpoint
  unfolding run_event_acts
  run_event_acts-IsSound [] rest s v = v
  run_event_acts-IsSound (delegate e ∷ acts) rest s v =
      let w = next_keeps e rest s v in
      unless_thrown-IsSound (next e rest s) _ (next e rest s).thrown w
        (run_event_acts-IsSound acts (next e rest s).left (next e rest s).endpoint w)
  run_event_acts-IsSound (assign x ∷ acts) rest s v =
      after_act-IsSound (run_event_acts next id r acts rest) rest (event_act id r (assign x) s)
        (λ t w. run_event_acts-IsSound acts rest t w) (event_act-IsSound id r (assign x) s v)
  run_event_acts-IsSound (reply x y ∷ acts) rest s v =
      after_act-IsSound (run_event_acts next id r acts rest) rest (event_act id r (reply x y) s)
        (λ t w. run_event_acts-IsSound acts rest t w) (event_act-IsSound id r (reply x y) s v)
  run_event_acts-IsSound (track_presence x y ∷ acts) rest s v =
      after_act-IsSound (run_event_acts next id r acts rest) rest
        (event_act id r (track_presence x y) s) (λ t w. run_event_acts-IsSound acts rest t w)
        (event_act-IsSound id r (track_presence x y) s v)
  run_event_acts-IsSound (update_presence x y ∷ acts) rest s v =
      after_act-IsSound (run_event_acts next id r acts rest) rest
        (event_act id r (update_presence x y) s) (λ t w. run_event_acts-IsSound acts rest t w)
        (event_act-IsSound id r (update_presence x y) s v)
  run_event_acts-IsSound (remove_presence x ∷ acts) rest s v =
      after_act-IsSound (run_event_acts next id r acts rest) rest
        (event_act id r (remove_presence x) s) (λ t w. run_event_acts-IsSound acts rest t w)
        (event_act-IsSound id r (remove_presence x) s v)
  run_event_acts-IsSound (evict_user x y ∷ acts) rest s v =
      after_act-IsSound (run_event_acts next id r acts rest) rest
        (event_act id r (evict_user x y) s) (λ t w. run_event_acts-IsSound acts rest t w)
        (event_act-IsSound id r (evict_user x y) s v)
  run_event_acts-IsSound (send_to_recipients x y z ∷ acts) rest s v =
      after_act-IsSound (run_event_acts next id r acts rest) rest
        (event_act id r (send_to_recipients x y z) s) (λ t w. run_event_acts-IsSound acts rest t w)
        (event_act-IsSound id r (send_to_recipients x y z) s v)
  run_event_acts-IsSound (on_channel k ∷ acts) rest s v =
      after_act-IsSound (run_event_acts next id r acts rest) rest (event_act id r (on_channel k) s)
        (λ t w. run_event_acts-IsSound acts rest t w) (event_act-IsSound id r (on_channel k) s v)

event_final-IsSound :
    (id : ℕ) (r : EventRequest) (e : Option Error) (s : EndpointEngine)
    → IsSound s
    → IsSound (state (event_final id r e s))
unfolding event_final
event_final-IsSound id r e s v = call-IsSound id _ s (send_message-Keeps _ _ r.request_id _ _ _) v

finish-IsSound :
    (id : ℕ) (r : EventRequest) (e : Option Error) (rest : List EventHandler) (s : EndpointEngine)
    → IsSound s
    → IsSound (finish id r e rest s).endpoint
unfolding finish
finish-IsSound id r e rest s v = ended (event_final id r e s) (event_final-IsSound id r e s v)
  where
    ended :
        (o : Exit EndpointEngine (Unit {0}))
        → IsSound (state o)
        → IsSound
            (elim o as (λ _. Run) [
              | done _ t es ↦ record { left = rest; endpoint = t; told = es; thrown = none }
              | raised x t es ↦ record { left = rest; endpoint = t; told = es; thrown = some x }
            ]).endpoint
    ended (done a t es) v = v
    ended (raised x t es) v = v

after_event-IsSound :
    (id : ℕ) (r : EventRequest) (ending : Option Error) (is_async : Bool) (p : Run)
    → IsSound p.endpoint
    → IsSound (after_event id r ending is_async p).endpoint
unfolding after_event
after_event-IsSound id r ending is_async p v = by_error (first_error p.thrown ending)
  where
    by_error :
        (e : Option Error)
        → IsSound
            (elim e as (λ _. Run) [
              | none ↦ p
              | some x ↦
                  after_effects p.told
                    (ignore_error is_async (finish id r (some (handle_error x)) p.left p.endpoint))
            ]).endpoint
    by_error none = v
    by_error (some x) = finish-IsSound id r (some (handle_error x)) p.left p.endpoint v

event_next-IsSound : (fuel id : ℕ) (r : EventRequest) → NextKeeps (event_next fuel id r)
unfolding event_next
event_next-IsSound zero id r e hs s v = v
event_next-IsSound (suc fuel) id r (some e) hs s v =
    finish-IsSound id r (some (handle_error e)) hs s v
event_next-IsSound (suc fuel) id r none [] s v = finish-IsSound id r none [] s v
event_next-IsSound (suc fuel) id r none (h ∷ rest) s v =
    by_path (event_next-IsSound fuel id r) (h.path.parse r.event)
  where
    by_path :
        NextKeeps (event_next fuel id r)
        → (o : Result (Option EventParams))
        → IsSound
            (elim o as (λ _. Run) [
              | err x ↦ finish id r (some (handle_error x)) rest s
              | ok none ↦ event_next fuel id r none rest s
              | ok (some params) ↦
                  let q = record r { params = params } in
                  let script = event_script h q id s in
                  after_event id r script.ending script.is_async
                    (run_event_acts (event_next fuel id r) id q script.acts rest s)
            ]).endpoint
    by_path k (err x) = finish-IsSound id r (some (handle_error x)) rest s v
    by_path k (ok none) = k none rest s v
    by_path k (ok (some params)) =
        let q = record r { params = params } in
        let script = event_script h q id s in
        let p = run_event_acts (event_next fuel id r) id q script.acts rest s in
        after_event-IsSound id r script.ending script.is_async p
          (run_event_acts-IsSound (event_next fuel id r) k id q script.acts rest s v)

to_exit-IsSound : (p : Run) → IsSound p.endpoint → IsSound (state (to_exit p))
to_exit-IsSound p v = by_thrown p.thrown
  where
    by_thrown :
        (e : Option Error)
        → IsSound (
            state (elim e as (λ _. Exit EndpointEngine (Unit {0})) [
              | none ↦ done tt p.endpoint p.told
              | some x ↦ raised x p.endpoint p.told
            ]))
    by_thrown none = v
    by_thrown (some x) = v

pub broadcast_message-IsSound :
    (id : ℕ) (user : String) (m : ClientMessage) (s : EndpointEngine)
    → IsSound s
    → IsSound (state (broadcast_message id user m s))
unfolding broadcast_message
broadcast_message-IsSound id user m s v = elim (Bool-cases (is_member id user s)) [
  | inl h ↦ rw (h) (
      to_exit-IsSound
        (event_next (suc (length (handlers_of id s))) id (event_request user m) none
          (handlers_of id s) s)
        (event_next-IsSound (suc (length (handlers_of id s))) id (event_request user m) none
          (handlers_of id s) s v))
  | inr h ↦ rw (h) v
]
