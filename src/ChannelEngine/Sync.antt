-- ===== src/ChannelEngine/Sync.antt =====
-- What the engine does with messages of other nodes: state transfer, remote messages, requests for a
-- user's data.
use pondsocket.Prelude.{
  ℕ, String, Bool, true, false, not, ◌&&◌, Option, none, some, List, [], ◌∷◌, ◌==◌, ◌≡◌, refl, ap,
  ◌∙◌, if◌then◌else◌, arith, eq_iff, Option-cases, inl, inr, is_empty, count, includes, select,
  includes-select,
}
use pondsocket.JsMap.{get, set}
use pondsocket.JsMap.Laws.{has-get, get-set, includes-remove}
use pondsocket.Presence
use pondsocket.Presence.{PresenceEngine}
use pondsocket.Presence.Laws.{upsert_presence-total}
use pondsocket.Protocol.{
  PondObject, UserData, ChannelReceivers, all_users, all_except_sender, user_ids, other,
  ServerActions, InternalChannelEvent,
}
use pondsocket.ChannelEngine.State.{
  ChannelEngine, Outcome, returned, thrown, prefix, state, effects, has_returned, users, has_user,
  resolve_user_get, Action, ◌>>◌, publish, when,
}
use pondsocket.ChannelEngine.Nodes.{track_node_user}
use pondsocket.ChannelEngine.Users.{user_get_timeout}
use pondsocket.ChannelEngine.Remote.{
  adopt_presence, adopt_user, adopt_users, handle_state_response, handle_remote_message,
  handle_remote_user_get_response,
}
use pondsocket.ChannelEngine.Told.{audience}
use pondsocket.Endpoint.State.{PondPath}
use pondsocket.Outgoing.{OutgoingHandler}
use pondsocket.Outgoing.Reception.{received, outcome, repeat, received-publish}

-- An action that never throws, and is followed by another.
pub state-then :
    (m k : Action) (c : ChannelEngine)
    → has_returned (m c) ≡ true
    → state ((m >> k) c) ≡ state (k (state (m c)))
state-then m k c h = go (m c) h
  where
    go :
        (o : Outcome (Unit {0}))
        → has_returned o ≡ true
        → state (elim o [ returned a c' es ↦ prefix es (k c') | thrown x c' es ↦ thrown x c' es ])
          ≡ state (k (state o))
    go (returned a c' es) h = ground arith
    go (thrown x c' es) h = cc

pub returned-then :
    (m k : Action) (c : ChannelEngine)
    → has_returned (m c) ≡ true
    → has_returned ((m >> k) c) ≡ has_returned (k (state (m c)))
returned-then m k c h = go (m c) h
  where
    go :
        (o : Outcome (Unit {0}))
        → has_returned o ≡ true
        → has_returned
            (elim o [ returned a c' es ↦ prefix es (k c') | thrown x c' es ↦ thrown x c' es ])
          ≡ has_returned (k (state o))
    go (returned a c' es) h = ground arith
    go (thrown x c' es) h = cc

-- What a list of entries says first about a user.
abbrev pub reported : String → List UserData → Option PondObject
reported user [] = none
reported user (u ∷ us) = if u.id == user then some u.assigns else reported user us

-- The first of two that is there.
abbrev pub first_some {ℓ} : {A : Type ℓ} → Option A → Option A → Option A
first_some none b = b
first_some (some a) b = some a

-- Adopting a presence never fails, and leaves the users alone.
adopt_presence_lem :
    (user : String) (p : PondObject) (c : ChannelEngine)
    → (has_returned (adopt_presence user p c) ≡ true)
      × ((state (adopt_presence user p c)).assigns_cache ≡ c.assigns_cache)
unfolding adopt_presence
adopt_presence_lem user p c = elim (Option-cases c.presence_engine) [
  | inl missing ↦
      ground (
        arith,
        upsert_presence-total user (c.uuids c.drawn) p (Presence.new_presence_engine c.name),
      )
  | inr (e, there) ↦ ground (arith, upsert_presence-total user (c.uuids c.drawn) p e)
]

track_node_user_lem :
    (source : Option String) (user : String) (now : ℕ) (c : ChannelEngine)
    → (has_returned (track_node_user source user now c) ≡ true)
      × ((state (track_node_user source user now c)).assigns_cache ≡ c.assigns_cache)
unfolding track_node_user
track_node_user_lem source user now c = ground arith

adopt_user_lem :
    (source : Option String) (now : ℕ) (u : UserData) (c : ChannelEngine)
    → (has_returned (adopt_user source now u c) ≡ true)
      × ((state (adopt_user source now u c)).assigns_cache
          ≡ (if has_user u.id c then c.assigns_cache else set u.id u.assigns c.assigns_cache))
unfolding adopt_user
adopt_user_lem source now u c =
    let c1 = record c { assigns_cache = set u.id u.assigns c.assigns_cache } in
    let c2 = state (track_node_user source u.id now c1) in
    ground (arith, track_node_user_lem source u.id now c1, adopt_presence_lem u.id u.presence c2)

adopt_users-get :
    (source : Option String) (now : ℕ) (us : List UserData) (user : String) (c : ChannelEngine)
    → (has_returned (adopt_users source now us c) ≡ true)
      × (get user (state (adopt_users source now us c)).assigns_cache
          ≡ first_some (get user c.assigns_cache) (reported user us))
unfolding adopt_users has_user
adopt_users-get source now [] user c = ground arith
adopt_users-get source now (u ∷ us) user c =
    let (here, assigns) = adopt_user_lem source now u c in
    let c' = state (adopt_user source now u c) in
    (
      returned-then (adopt_user source now u) (adopt_users source now us) c here
          ∙ (adopt_users-get source now us user c').0,
      ap (λ d. get user d.assigns_cache)
            (state-then (adopt_user source now u) (adopt_users source now us) c here)
          ∙ (adopt_users-get source now us user c').1
          ∙ ground (
            arith,
            assigns,
            get-set user u.id u.assigns c.assigns_cache,
            has-get u.id c.assigns_cache,
            eq_iff u.id user,
          ),
    )

-- A state response is taken in without failure: a user that is known keeps its assigns, a new one has
-- those of its first entry, and no other user appears.
pub handle_state_response-get :
    (source : Option String) (now : ℕ) (us : List UserData) (user : String) (c : ChannelEngine)
    → let result = handle_state_response source now (some us) c in
      (has_returned result ≡ true)
      × (get user (state result).assigns_cache
          ≡ first_some (get user c.assigns_cache) (reported user us))
unfolding handle_state_response
handle_state_response-get source now us user c = adopt_users-get source now us user c

-- Whom a message from another node is for, among the users that this node knows of.
abbrev pub is_addressed_remotely : String → ChannelReceivers → String → ChannelEngine → Bool
is_addressed_remotely from all_users user c = includes (users c) user
is_addressed_remotely from all_except_sender user c = not (user == from) && includes (users c) user
is_addressed_remotely from (user_ids ids) user c = includes ids user && includes (users c) user
is_addressed_remotely from (other _) user c = false

includes-nil : (xs : List String) (a : String) → is_empty xs ≡ true → includes xs a ≡ false
includes-nil [] a h = refl
includes-nil (x ∷ xs) a h = cc

module _ (event request_id : String) (payload : PondObject) (c : ChannelEngine) where
  abbrev remote_event : List String → InternalChannelEvent
  remote_event recipients = record {
    event = record {
      action = ServerActions.broadcast;
      event = event;
      payload = payload;
      channel_name = c.name;
      request_id = request_id;
    };
    recipients = recipients;
  }

  module _ (any_path : PondPath) (stack : List OutgoingHandler) where
    received-remote :
        (user : String) (rs : List String)
        → let result = when (not (is_empty rs)) (publish (remote_event rs)) c in
          received any_path stack user (effects result) ≡ (
            if includes rs user
            then repeat
                (count user (audience c.publisher.observers))
                (outcome any_path stack (remote_event rs).event user)
            else [])
    received-remote user [] = refl
    received-remote user (r ∷ rs) = received-publish any_path stack user (remote_event (r ∷ rs)) c

-- What a user gets of a message from another node: for each subscriber the event as the handlers of outgoing
-- events leave it, if it is addressed to that user, and nothing otherwise.
pub received-handle_remote_message :
    (any_path : PondPath) (stack : List OutgoingHandler) (from event request_id user : String)
    (payload : PondObject) (recipient : ChannelReceivers) (c : ChannelEngine)
    → received any_path stack user
        (effects (handle_remote_message from event payload request_id recipient c))
      ≡ (if is_addressed_remotely from recipient user c
          then repeat
              (count user (audience c.publisher.observers))
              (outcome any_path stack (remote_event event request_id payload c []).event user)
          else [])
unfolding handle_remote_message
received-handle_remote_message any_path stack from event request_id user payload all_users c =
    received-remote event request_id payload c any_path stack user (users c)
received-handle_remote_message any_path stack from event request_id user payload all_except_sender
      c =
    rw (← includes-select (λ u. not (u == from)) (users c) user) (
      received-remote event request_id payload c any_path stack user
        (select (λ u. not (u == from)) (users c)))
received-handle_remote_message any_path stack from event request_id user payload (user_ids ids) c =
    rw (← includes-select (includes ids) (users c) user) (
      received-remote event request_id payload c any_path stack user
        (select (includes ids) (users c)))
received-handle_remote_message any_path stack from event request_id user payload (other text) c =
    refl

-- A pending request for a user's data is settled by the first response or timeout for it: with the data or
-- with null. After that it is no longer pending, so later ones for the same request do nothing.
pub user_get-settled_once :
    (request_id user : String) (assigns presence : PondObject) (c : ChannelEngine)
    → includes c.pending_user_gets request_id ≡ true
    → let answered = handle_remote_user_get_response user request_id assigns presence c in
      let timed_out = user_get_timeout request_id c in
      (effects answered
        ≡ resolve_user_get request_id
            (some (record { id = user; assigns = assigns; presence = presence }))
          ∷ [])
      × (effects timed_out ≡ resolve_user_get request_id none ∷ [])
      × (effects (user_get_timeout request_id (state answered)) ≡ [])
      × (effects
            (handle_remote_user_get_response user request_id assigns presence (state timed_out))
          ≡ [])
unfolding handle_remote_user_get_response user_get_timeout
user_get-settled_once request_id user assigns presence c h =
    ground (
      arith,
      includes-remove request_id request_id c.pending_user_gets,
      eq_iff request_id request_id,
    )
