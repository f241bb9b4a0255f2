-- ===== src/ChannelEngine/Told.antt =====
-- Which users an operation's effects are for, and to which subscribers a publication is given. What the handlers of
-- outgoing events make of it is in Outgoing/Reception.
use pondsocket.Prelude.{
  ℕ, suc, ◌+◌, String, Bool, false, List, [], ◌∷◌, ◌++◌, ◌==◌, ◌≡◌, refl, if◌then◌else◌, includes,
  count, arith, eq_iff,
}
use pondsocket.Subject
use pondsocket.Subject.{Subject}
use pondsocket.Protocol.{InternalChannelEvent, MessageBody}
use pondsocket.ChannelEngine.State.{
  ChannelEngine, Effect, deliver, process_outgoing, state, effects, subscriber, publish,
  broadcast_to_nodes,
}

-- Whether an effect is a channel event for the user: one that is delivered, or one that is given to the lobby's
-- handlers of outgoing events, which may still block it.
abbrev pub is_for : String → Effect → Bool
is_for user (deliver u e) = u == user
is_for user (process_outgoing u e) = u == user
is_for user _ = false

-- How many channel events of a list of effects are for the user, those included that handlers may still block.
abbrev pub told : String → List Effect → ℕ
told user [] = 0
told user (e ∷ es) = if is_for user e then suc (told user es) else told user es

pub told-append :
    (user : String) (es fs : List Effect) → told user (es ++ fs) ≡ told user es + told user fs
told-append user [] fs = omega arith
told-append user (e ∷ es) fs = ground (arith, told-append user es fs)

-- The users that have a subscriber at the publisher, in the order of subscription.
abbrev pub audience : List (ℕ × String) → List String
audience [] = []
audience ((t, u) ∷ os) = u ∷ audience os

pub told-publish_to :
    (user : String) (os : List (ℕ × String)) (e : InternalChannelEvent)
    → told user (Subject.publish_to subscriber (λ _ _. []) os e)
      ≡ (if includes e.recipients user then count user (audience os) else 0)
unfolding Subject.publish_to Subject.notify_observer subscriber
told-publish_to user [] e = ground arith
told-publish_to user ((t, u) ∷ os) e = ground (arith, told-publish_to user os e, eq_iff u user)

-- A publication changes no state, and it is given to each subscriber of a user, if the user is
-- a recipient.
pub told-publish :
    (user : String) (e : InternalChannelEvent) (c : ChannelEngine)
    → (told user (effects (publish e c))
        ≡ (if includes e.recipients user then count user (audience c.publisher.observers) else 0))
      × (state (publish e c) ≡ c)
unfolding publish Subject.publish
told-publish user e c = (told-publish_to user c.publisher.observers e, refl)

pub told-broadcast :
    (user : String) (body : MessageBody) (c : ChannelEngine)
    → (told user (effects (broadcast_to_nodes body c)) ≡ 0)
      × (state (broadcast_to_nodes body c) ≡ c)
unfolding broadcast_to_nodes
told-broadcast user body c = ground arith
