-- ===== src/ChannelEngine/State.antt =====
-- The state of a `ChannelEngine`, what it does to the outside, and the monad of its methods: a method
-- that throws keeps the state and the effects that it had reached.
use pondsocket.Prelude.{
  ℕ, suc, String, Bool, true, false, not, ◌&&◌, Option, none, List, [], ◌∷◌, ◌++◌, if◌then◌else◌,
  includes, is_some,
}
use pondsocket.JsMap.{JsMap, keys, has}
use pondsocket.Subject
use pondsocket.Subject.{Subject, Reaction}
use pondsocket.Presence.{PresenceEngine}
use pondsocket.Protocol.{
  PondObject, ChannelEvent, InternalChannelEvent, ServerActions, UserData, MessageBody,
  DistributedMessage, Error,
}

-- The resources of the backend and of the lobby are flags: whether the engine holds them. A drawn
-- `uuid()` is the next value of a stream; an entry of `pending_user_gets` stands for its promise.
pub record ChannelEngine : Type 0 where
  pub name : String
  pub endpoint_id : String
  pub node_id : String
  pub backend : Option ℕ
  pub leave_callback : Bool
  pub presence_engine : Option PresenceEngine
  pub assigns_cache : JsMap PondObject
  pub user_subscriptions : JsMap ℕ
  pub publisher : Subject String
  pub distributed_subscription : Bool
  pub heartbeat_subscription : Bool
  pub stale_node_timer : Bool
  pub node_last_seen : JsMap ℕ
  pub node_users : JsMap (List String)
  pub pending_user_gets : List String
  pub closed : Bool
  pub uuids : ℕ → String
  pub drawn : ℕ

-- What the engine does to the outside, in order: it calls a user's `onMessage`, starts the outgoing
-- middleware for a user, calls the backend, asks for a callback once the subscription is ready, gives
-- up its subscriptions, has the lobby forget it, calls the leave callback, settles a promise.
pub data Effect : Type 0 where
  deliver : String → ChannelEvent → Effect
  process_outgoing : String → ChannelEvent → Effect
  backend_broadcast : DistributedMessage → Effect
  after_distributed_ready : Effect
  unsubscribe_channel unsubscribe_heartbeats clear_stale_timer : Effect
  delete_channel : String → Effect
  call_leave : UserData → Effect
  resolve_user_get : String → Option UserData → Effect

pub data Outcome (A : Type 0) : Type 0 where
  returned : A → ChannelEngine → List Effect → Outcome A
  thrown : Error → ChannelEngine → List Effect → Outcome A

abbrev pub prefix : {A : Type 0} → List Effect → Outcome A → Outcome A
prefix es (returned a c fs) = returned a c (es ++ fs)
prefix es (thrown x c fs) = thrown x c (es ++ fs)

abbrev pub M : Type 0 → Type 0
M A = ChannelEngine → Outcome A

abbrev pub Action : Type 0
Action = M (Unit {0})

infixl 5 ◌>>=◌
abbrev pub ◌>>=◌ : {S T : Type 0} → M S → (S → M T) → M T
first >>= rest = λ c. elim (first c) [
  | returned a c' es ↦ prefix es (rest a c')
  | thrown x c' es ↦ thrown x c' es
]

infixl 5 ◌>>◌
abbrev pub ◌>>◌ : {T : Type 0} → Action → M T → M T
first >> rest = first >>= λ _. rest

abbrev pub pure : {A : Type 0} → A → M A
pure a c = returned a c []

abbrev pub throw : {A : Type 0} → Error → M A
throw x c = thrown x c []

abbrev pub throw_if : Bool → Error → Action
throw_if true x = throw x
throw_if false x = pure tt

-- `if (b) { … }`.
abbrev pub when : Bool → Action → Action
when true m = m
when false m = pure tt

abbrev pub emit : List Effect → Action
emit es c = returned tt c es

abbrev pub get_state : M ChannelEngine
get_state c = returned c c []

abbrev pub modify : (ChannelEngine → ChannelEngine) → Action
modify f c = returned tt (f c) []

-- The final state and the effects, whether the method returned or threw.
abbrev pub state : {A : Type 0} → Outcome A → ChannelEngine
state (returned a c es) = c
state (thrown x c es) = c

abbrev pub effects : {A : Type 0} → Outcome A → List Effect
effects (returned a c es) = es
effects (thrown x c es) = es

abbrev pub has_returned : {A : Type 0} → Outcome A → Bool
has_returned (returned a c es) = true
has_returned (thrown x c es) = false

-- `get users ()`: every user of the channel that this node knows of, local or not.
unfoldable pub users : ChannelEngine → List String
users c = keys c.assigns_cache

-- `this.users.has(userId)`.
unfoldable pub has_user : String → ChannelEngine → Bool
has_user user c = has user c.assigns_cache

-- `uuid()`.
unfoldable pub uuid : M String
uuid c = returned (c.uuids c.drawn) (record c { drawn = suc c.drawn }) []

-- The synchronous part of the subscriber that `#buildSubscriber` makes for a user.
abbrev pub is_presence : ServerActions → Bool
is_presence ServerActions.presence = true
is_presence _ = false

unfoldable pub subscriber : String → InternalChannelEvent → Reaction Effect Error
subscriber user e =
    if includes e.recipients user
    then (if is_presence e.event.action
        then Reaction.returned (deliver user e.event ∷ [])
        else Reaction.returned (process_outgoing user e.event ∷ []))
    else Reaction.returned []

-- `this.#publisher.publish(event)`; the subject ignores the errors of observers.
unfoldable pub publish : InternalChannelEvent → Action
unfolding subscriber
publish e c = returned tt c (Subject.publish subscriber (λ _ _. []) c.publisher e)

-- `#broadcastToNodes`, up to the backend's call.
unfoldable pub broadcast_to_nodes : MessageBody → Action
broadcast_to_nodes body c =
    if is_some c.backend && not c.closed
    then emit
        (backend_broadcast (record {
          endpoint_name = c.endpoint_id;
          channel_name = c.name;
          source_node_id = none;
          body = body;
        })
          ∷ [])
        c
    else pure tt c
