-- ===== src/Endpoint/Soundness/Joins.antt =====
-- The handlers of joins keep the endpoint sound.
use pondsocket.Prelude.{
  ℕ, String, Bool, true, false, Bool-cases, Option, none, some, List, ◌≡◌, inl, inr, if◌then◌else◌,
  arith, subst, sym,
}
use pondsocket.Protocol.{PondObject}
use pondsocket.ChannelEngine.State
use pondsocket.ChannelEngine.Invariant.{track_presence-Frames}
use pondsocket.ChannelEngine.Preservation.{Keeps, Frames-Keeps, add_user-IsConsistent}
use pondsocket.ChannelEngine.Users
use pondsocket.Endpoint.State.{
  JoinAct, accept, decline, assign, reply, track_presence, send_to_recipients, on_channel, delegate,
  EndpointEngine, Exit, done, raised, state, before, call,
}
use pondsocket.Endpoint.Joining.{
  JoinContext, Joining, call_engine, join_assign, perform_checks, add_subscription, join_user,
  join_accept, join_decline, join_act,
}
use pondsocket.Endpoint.Soundness.{IsSound, IsSound-engines, call-IsSound}
use pondsocket.Endpoint.Soundness.Events.{
  channel_call-Keeps, send_message-Keeps, update_assigns-Keeps,
}

-- An outcome with a sound endpoint, and no context changed but in its own fields.
abbrev pub Sound : Exit Joining (Unit {0}) → Type 0
Sound o = IsSound (state o).1

add_user-Keeps :
    (user request_id : String) (assigns : PondObject)
    → Keeps (Users.add_user user assigns request_id)
add_user-Keeps user request_id assigns = record {
  keeps = add_user-IsConsistent user request_id assigns;
}

call_engine-IsSound :
    {A : Type 0} (m : State.M A) (c : JoinContext) (s : EndpointEngine)
    → Keeps m
    → IsSound s
    → IsSound (state (call_engine m (c, s))).1
unfolding call_engine
call_engine-IsSound {A} m c s k v = ended (call c.engine m s) (call-IsSound c.engine m s k v)
  where
    ended :
        (o : Exit EndpointEngine A)
        → IsSound (state o)
        → IsSound
            (state (elim o as (λ _. Exit Joining A) [
              | done a t es ↦ done a (c, t) es
              | raised x t es ↦ raised x (c, t) es
            ])).1
    ended (done a t es) v = v
    ended (raised x t es) v = v

if-Sound :
    (b : Bool) (o p : Exit Joining (Unit {0})) → Sound o → Sound p → Sound (if b then o else p)
if-Sound true o p v w = v
if-Sound false o p v w = w

join_assign-IsSound :
    (assigns : PondObject) (c : JoinContext) (s : EndpointEngine)
    → IsSound s
    → Sound (join_assign assigns (c, s))
unfolding join_assign
join_assign-IsSound assigns c s v =
    if-Sound c.accepted _ _
      (call_engine-IsSound _ c s (update_assigns-Keeps c.request.client_id assigns) v) v

perform_checks-endpoint :
    (c : JoinContext) (s : EndpointEngine) → (state (perform_checks (c, s))).1 ≡ s
unfolding perform_checks
perform_checks-endpoint c s = ground arith

add_subscription-IsSound :
    (c : JoinContext) (s : EndpointEngine) → IsSound s → IsSound (add_subscription c s)
unfolding add_subscription
add_subscription-IsSound c s v = IsSound-engines (ground arith) v

join_user-IsSound : (c : JoinContext) (s : EndpointEngine) → IsSound s → Sound (join_user (c, s))
unfolding join_user
join_user-IsSound c s v =
    checked (perform_checks (c, s)) (subst IsSound (sym (perform_checks-endpoint c s)) v)
  where
    added :
        (o : Exit Joining (Unit {0}))
        → Sound o
        → Sound (elim o as (λ _. Exit Joining (Unit {0})) [
          | raised x k fs ↦ raised x k fs
          | done _ (d, t) fs ↦ done tt (record d { accepted = true }, add_subscription d t) fs
        ])
    added (raised x k fs) v = v
    added (done a (d, t) fs) v = add_subscription-IsSound d t v

    checked :
        (o : Exit Joining (Unit {0}))
        → Sound o
        → Sound (elim o as (λ _. Exit Joining (Unit {0})) [
          | raised x k es ↦ raised x k es
          | done _ (c, s) es ↦
              elim (call_engine
                (Users.add_user c.request.client_id c.new_assigns c.request.request_id)
                (c, s)) [
                  | raised x k fs ↦ raised x k fs
                  | done _ (d, t) fs ↦
                      done tt (record d { accepted = true }, add_subscription d t) fs
                ]
        ])
    checked (raised x k es) v = v
    checked (done a (d, t) es) v =
        added
          (call_engine (Users.add_user d.request.client_id d.new_assigns d.request.request_id)
            (d, t))
          (call_engine-IsSound _ d t
            (add_user-Keeps d.request.client_id d.request.request_id d.new_assigns) v)

before-IsSound : (es : List _) (o : Exit Joining (Unit {0})) → Sound o → Sound (before es o)
before-IsSound es (done a k fs) v = v
before-IsSound es (raised x k fs) v = v

join_accept-IsSound :
    (assigns : Option PondObject) (c : JoinContext) (s : EndpointEngine)
    → IsSound s
    → Sound (join_accept assigns (c, s))
unfolding join_accept
join_accept-IsSound none c s v = join_user-IsSound c s v
join_accept-IsSound (some assigns) c s v =
    merged (join_assign assigns (c, s)) (join_assign-IsSound assigns c s v)
  where
    merged :
        (o : Exit Joining (Unit {0}))
        → Sound o
        → Sound (elim o as (λ _. Exit Joining (Unit {0})) [
          | raised x k es ↦ raised x k es
          | done _ k es ↦ before es (join_user k)
        ])
    merged (raised x k es) v = v
    merged (done a (d, t) es) v = before-IsSound es (join_user (d, t)) (join_user-IsSound d t v)

pub join_decline-IsSound :
    (message : Option String) (code : Option ℕ) (c : JoinContext) (s : EndpointEngine)
    → IsSound s
    → Sound (join_decline message code (c, s))
unfolding join_decline perform_checks
join_decline-IsSound message code c s v = elim (Bool-cases c.executed) [
  | inl h ↦ rw (h) v
  | inr h ↦ rw (h) v
]

pub join_act-IsSound :
    (a : JoinAct) (c : JoinContext) (s : EndpointEngine) → IsSound s → Sound (join_act a (c, s))
unfolding join_act
join_act-IsSound (accept assigns) c s v = join_accept-IsSound assigns c s v
join_act-IsSound (decline message code) c s v = join_decline-IsSound message code c s v
join_act-IsSound (assign assigns) c s v = join_assign-IsSound assigns c s v
join_act-IsSound (reply event payload) c s v = v
join_act-IsSound (track_presence presence) c s v =
    call_engine-IsSound _ c s (Frames-Keeps (track_presence-Frames c.request.client_id presence)) v
join_act-IsSound (send_to_recipients recipient event payload) c s v =
    call_engine-IsSound _ c s
      (send_message-Keeps c.request.client_id event c.request.request_id recipient _ payload) v
join_act-IsSound (on_channel k) c s v = call_engine-IsSound _ c s (channel_call-Keeps k) v
join_act-IsSound (delegate e) c s v = v
