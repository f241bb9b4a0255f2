-- ===== src/Outgoing/Reception.antt =====
-- The events that a user gets in the end: what an engine delivers at once, and what the lobby's handlers of outgoing
-- events let through of what they are given (`#buildSubscriber` of javascript/core/src/engines/channelEngine.ts).
use pondsocket.Prelude.{
  ℕ, zero, suc, String, some, none, List, [], ◌∷◌, ◌++◌, ◌==◌, ◌≡◌, refl, ap, sym, ◌∙◌, arith,
  if◌then◌else◌, includes, count, Bool-cases, Option, inl, inr, same_eq, same_self,
}
use pondsocket.Subject
use pondsocket.Protocol.{ChannelEvent, InternalChannelEvent, MessageBody, Result, ok, err, ◌>>=◌}
use pondsocket.Endpoint.State.{PondPath}
use pondsocket.ChannelEngine.State.{
  ChannelEngine, Effect, deliver, process_outgoing, effects, subscriber, publish, is_presence,
  broadcast_to_nodes, ◌>>◌,
}
use pondsocket.ChannelEngine.Told.{audience}
use pondsocket.Outgoing.{OutgoingHandler, outgoing_processed, process_outgoing_events}

-- What is called on users, in order: their `onMessage`.
abbrev pub deliveries : String → List Effect → List ChannelEvent
deliveries user [] = []
deliveries user (deliver u v ∷ es) = (if u == user then v ∷ [] else []) ++ deliveries user es
deliveries user (_ ∷ es) = deliveries user es

abbrev pub or_nothing {ℓ} : {A : Type ℓ} → Result (List A) → List A
or_nothing (ok xs) = xs
or_nothing (err x) = []

abbrev pub or_lost {ℓ} : {A : Type ℓ} → Result (Option A) → List A
or_lost (ok (some a)) = a ∷ []
or_lost (ok none) = []
or_lost (err x) = []

abbrev pub repeat {ℓ} : {A : Type ℓ} → ℕ → List A → List A
repeat zero xs = []
repeat (suc n) xs = xs ++ repeat n xs

append_assoc {ℓ} : {A : Type ℓ} (xs ys zs : List A) → (xs ++ ys) ++ zs ≡ xs ++ (ys ++ zs)
append_assoc [] ys zs = refl
append_assoc (x ∷ xs) ys zs = ap (λ ws. x ∷ ws) (append_assoc xs ys zs)

append_nil {ℓ} : {A : Type ℓ} (xs : List A) → xs ++ [] ≡ xs
append_nil [] = refl
append_nil (x ∷ xs) = ap (λ ws. x ∷ ws) (append_nil xs)

-- What the result of the handlers, for one user, is for another.
deliveries-processed :
    (user u : String) (r : Result (Option ChannelEvent))
    → deliveries user
        (or_nothing (r >>= λ result. ok (elim (result) [ none ↦ [] | some w ↦ deliver u w ∷ [] ])))
      ≡ (if u == user then or_lost r else [])
deliveries-processed user u (err x) = ground arith
deliveries-processed user u (ok none) = ground arith
deliveries-processed user u (ok (some w)) = append_nil (if u == user then w ∷ [] else [])

effects-publish-broadcast :
    (e : InternalChannelEvent) (body : MessageBody) (c : ChannelEngine)
    → effects ((publish e >> broadcast_to_nodes body) c)
      ≡ effects (publish e c) ++ effects (broadcast_to_nodes body c)
unfolding publish broadcast_to_nodes
effects-publish-broadcast e body c = ground arith

module _ (any_path : PondPath) (stack : List OutgoingHandler) where
  -- An effect once the handlers of outgoing events have had their turn, if they are due one.
  abbrev pub settled : Effect → List Effect
  settled (process_outgoing u v) = or_nothing (outgoing_processed any_path stack v u)
  settled e = e ∷ []

  -- The events that a user gets from some effects.
  abbrev pub received : String → List Effect → List ChannelEvent
  received user [] = []
  received user (e ∷ es) = deliveries user (settled e) ++ received user es

  -- What becomes of an event for a user: an event about presence is delivered as it is, any other as the handlers
  -- leave it, unless they block or lose it.
  abbrev pub outcome : ChannelEvent → String → List ChannelEvent
  outcome v user =
      if is_presence v.action
      then v ∷ []
      else or_lost (process_outgoing_events any_path stack v user)

  pub received-append :
      (user : String) (es fs : List Effect)
      → received user (es ++ fs) ≡ received user es ++ received user fs
  received-append user [] fs = refl
  received-append user (e ∷ es) fs =
      ap (λ vs. deliveries user (settled e) ++ vs) (received-append user es fs)
      ∙ sym (append_assoc (deliveries user (settled e)) (received user es) (received user fs))

  received-deliver :
      (user u : String) (v : ChannelEvent)
      → received user (deliver u v ∷ []) ≡ (if u == user then v ∷ [] else [])
  received-deliver user u v = append_nil _ ∙ append_nil (if u == user then v ∷ [] else [])

  received-process_outgoing :
      (user u : String) (v : ChannelEvent)
      → received user (process_outgoing u v ∷ [])
        ≡ (if u == user then or_lost (process_outgoing_events any_path stack v u) else [])
  unfolding outgoing_processed
  received-process_outgoing user u v =
      append_nil _ ∙ deliveries-processed user u (process_outgoing_events any_path stack v u)

  notified :
      (u : String) (e : InternalChannelEvent)
      → Subject.notify_observer subscriber (λ _ _. []) u e ≡ (
          if includes e.recipients u
          then (if is_presence e.event.action
              then deliver u e.event ∷ []
              else process_outgoing u e.event ∷ [])
          else [])
  unfolding Subject.notify_observer subscriber
  notified u e = ground arith

  -- What one subscriber makes of an event.
  received-subscriber :
      (user u : String) (e : InternalChannelEvent)
      → received user (Subject.notify_observer subscriber (λ _ _. []) u e)
        ≡ (if includes e.recipients u then (if u == user then outcome e.event u else []) else [])
  received-subscriber user u e =
      ap (received user) (notified u e) ∙ elim (Bool-cases (includes e.recipients u)) [
        | inr out ↦ rw out refl
        | inl recipient ↦ elim (Bool-cases (is_presence e.event.action)) [
          | inl presence ↦ rw (recipient, presence) (received-deliver user u e.event)
          | inr message ↦ rw (recipient, message) (received-process_outgoing user u e.event)
        ]
      ]

  received-publish_to :
      (user : String) (os : List (ℕ × String)) (e : InternalChannelEvent)
      → received user (Subject.publish_to subscriber (λ _ _. []) os e) ≡ (
          if includes e.recipients user
          then repeat (count user (audience os)) (outcome e.event user)
          else [])
  unfolding Subject.publish_to
  received-publish_to user [] e = ground arith
  received-publish_to user ((t, u) ∷ os) e =
      received-append user (Subject.notify_observer subscriber (λ _ _. []) u e)
        (Subject.publish_to subscriber (λ _ _. []) os e)
      ∙ rw (received-subscriber user u e, received-publish_to user os e)
          (elim (Bool-cases (u == user)) [
            | inl same ↦ rw (same_eq u user same) (elim (Bool-cases (includes e.recipients user)) [
              | inl recipient ↦ rw (recipient, same_self user) refl
              | inr out ↦ rw (out) refl
            ])
            | inr different ↦ rw (different) (elim (Bool-cases (includes e.recipients u)) [
              | inl recipient ↦ rw (recipient) refl
              | inr out ↦ rw (out) refl
            ])
          ])

  pub received-publish :
      (user : String) (e : InternalChannelEvent) (c : ChannelEngine)
      → received user (effects (publish e c)) ≡ (
          if includes e.recipients user
          then repeat (count user (audience c.publisher.observers)) (outcome e.event user)
          else [])
  unfolding publish Subject.publish
  received-publish user e c = received-publish_to user c.publisher.observers e

  received-broadcast_to_nodes :
      (user : String) (body : MessageBody) (c : ChannelEngine)
      → received user (effects (broadcast_to_nodes body c)) ≡ []
  unfolding broadcast_to_nodes
  received-broadcast_to_nodes user body c = ground arith

  -- A message to this node's subscribers and then to the other nodes.
  pub received-publish-broadcast :
      (user : String) (e : InternalChannelEvent) (body : MessageBody) (c : ChannelEngine)
      → received user (effects ((publish e >> broadcast_to_nodes body) c)) ≡ (
          if includes e.recipients user
          then repeat (count user (audience c.publisher.observers)) (outcome e.event user)
          else [])
  received-publish-broadcast user e body c =
      ap (received user) (effects-publish-broadcast e body c)
      ∙ received-append user (effects (publish e c)) (effects (broadcast_to_nodes body c))
      ∙ ap (λ vs. received user (effects (publish e c)) ++ vs)
          (received-broadcast_to_nodes user body c)
      ∙ append_nil (received user (effects (publish e c)))
      ∙ received-publish user e c
