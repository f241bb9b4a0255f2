-- ===== src/Wrappers/Broadcasts.antt =====
-- What becomes of a broadcast.
use pondsocket.Prelude.{
  String, Bool, suc, true, false, ◌&&◌, List, [], ◌∷◌, ◌≡◌, refl, ap, ◌∙◌, arith, if◌then◌else◌,
  Bool-cases, inl, inr, or_else, count, is_empty,
}
use pondsocket.Protocol.{
  PondObject, ServerActions, ChannelReceivers, all_users, all_except_sender, user_ids, other,
  channel_sender, Result, ok, err, is_ok, ChannelEvent,
}
use pondsocket.ChannelEngine.State.{
  ChannelEngine, effects, has_returned, Outcome, prefix, uuid, Action, throw, has_user, users,
}
use pondsocket.ChannelEngine.Messages.{send_message, send_new_message}
use pondsocket.ChannelEngine.Delivery.{
  may_send, is_addressed, sent_event, received-send_message, send_message-returns_iff,
}
use pondsocket.ChannelEngine.Told.{audience}
use pondsocket.Endpoint.State.{PondPath}
use pondsocket.Outgoing.{OutgoingHandler}
use pondsocket.Outgoing.Reception.{received, outcome, repeat}
use pondsocket.Route.{build_pond_route}
use pondsocket.Wrappers.Methods.{Broadcast, broadcast, broadcast_from, broadcast_to}
use pondsocket.Wrappers.Calls.{users_of, channel_broadcast, send_built}

abbrev pub sender_of : Broadcast → String
sender_of (broadcast event payload params) = channel_sender
sender_of (broadcast_from user event payload params) = user
sender_of (broadcast_to users event payload params) = channel_sender

abbrev pub recipient_of : Broadcast → ChannelReceivers
recipient_of (broadcast event payload params) = all_users
recipient_of (broadcast_from user event payload params) = all_except_sender
recipient_of (broadcast_to users event payload params) = user_ids (users_of users)

-- The event's name, built from its route.
abbrev pub address_of : Broadcast → Result String
address_of (broadcast event payload params) = build_pond_route event (or_else params [])
address_of (broadcast_from user event payload params) = build_pond_route event (or_else params [])
address_of (broadcast_to users event payload params) = build_pond_route event (or_else params [])

abbrev pub payload_of : Broadcast → PondObject
payload_of (broadcast event payload params) = payload
payload_of (broadcast_from user event payload params) = payload
payload_of (broadcast_to users event payload params) = payload

effects-prefix : (o : Outcome (Unit {0})) → effects (prefix [] o) ≡ effects o
effects-prefix (Outcome.returned a c es) = refl
effects-prefix (Outcome.thrown x c es) = refl

has_returned-prefix : (o : Outcome (Unit {0})) → has_returned (prefix [] o) ≡ has_returned o
has_returned-prefix (Outcome.returned a c es) = refl
has_returned-prefix (Outcome.thrown x c es) = refl

is_empty-nil : {A : Type 0} (xs : List A) → is_empty xs ≡ true → xs ≡ []
is_empty-nil [] h = refl
is_empty-nil (x ∷ xs) h = cc

module _ (sender : String) (action : ServerActions) (event : String) (payload : PondObject)
    (c : ChannelEngine) where
  -- The engine once the request id is drawn.
  abbrev after_uuid : ChannelEngine
  after_uuid = record c { drawn = suc c.drawn }

  may_send-after_uuid :
      (recipient : ChannelReceivers)
      → may_send sender recipient after_uuid ≡ may_send sender recipient c
  unfolding has_user users
  may_send-after_uuid all_users = refl
  may_send-after_uuid all_except_sender = refl
  may_send-after_uuid (user_ids ids) = refl
  may_send-after_uuid (other text) = refl

  is_addressed-after_uuid :
      (recipient : ChannelReceivers) (user : String)
      → is_addressed sender recipient user after_uuid ≡ is_addressed sender recipient user c
  unfolding users
  is_addressed-after_uuid all_users user = refl
  is_addressed-after_uuid all_except_sender user = refl
  is_addressed-after_uuid (user_ids ids) user = refl
  is_addressed-after_uuid (other text) user = refl

  send_new_message-received :
      (any_path : PondPath) (stack : List OutgoingHandler) (recipient : ChannelReceivers)
      (user : String)
      → may_send sender recipient c ≡ true
      → received any_path stack user
          (effects (send_new_message sender recipient action event payload c))
        ≡ (if is_addressed sender recipient user c
            then repeat
                (count user (audience c.publisher.observers))
                (outcome any_path stack (sent_event event (c.uuids c.drawn) action payload c) user)
            else [])
  unfolding send_new_message uuid
  send_new_message-received any_path stack recipient user h =
      let event_sent = sent_event event (c.uuids c.drawn) action payload c in
      ap (received any_path stack user) (
        effects-prefix
          (send_message sender recipient action event payload (c.uuids c.drawn) after_uuid))
      ∙ received-send_message any_path stack sender event (c.uuids c.drawn) user recipient action
          payload after_uuid (may_send-after_uuid recipient ∙ h)
      ∙ ap
          (λ b.
            if b
            then repeat (count user (audience c.publisher.observers))
                (outcome any_path stack event_sent user)
            else [])
          (is_addressed-after_uuid recipient user)

  send_new_message-returns :
      (recipient : ChannelReceivers)
      → has_returned (send_new_message sender recipient action event payload c)
        ≡ may_send sender recipient c
  unfolding send_new_message uuid
  send_new_message-returns recipient =
      has_returned-prefix
        (send_message sender recipient action event payload (c.uuids c.drawn) after_uuid)
      ∙ (send_message-returns_iff sender event (c.uuids c.drawn) recipient action payload
          after_uuid).0
      ∙ may_send-after_uuid recipient

  send_new_message-silent :
      (recipient : ChannelReceivers)
      → may_send sender recipient c ≡ false
      → effects (send_new_message sender recipient action event payload c) ≡ []
  unfolding send_new_message uuid
  send_new_message-silent recipient h =
      let (returns, same, quiet) =
        send_message-returns_iff sender event (c.uuids c.drawn) recipient action payload
          after_uuid in
      effects-prefix
        (send_message sender recipient action event payload (c.uuids c.drawn) after_uuid)
      ∙ is_empty-nil _ (ground (arith, may_send-after_uuid recipient))

abbrev built : Result String → String → ChannelReceivers → PondObject → Action
built r sender recipient payload c = elim r [
  | err x ↦ throw x c
  | ok address ↦ send_new_message sender recipient ServerActions.broadcast address payload c
]

channel_broadcast-built :
    (b : Broadcast) (c : ChannelEngine)
    → channel_broadcast b c ≡ built (address_of b) (sender_of b) (recipient_of b) (payload_of b) c
unfolding channel_broadcast send_built
channel_broadcast-built (broadcast event payload params) c = refl
channel_broadcast-built (broadcast_from user event payload params) c = refl
channel_broadcast-built (broadcast_to users event payload params) c = refl

and_assoc : (a b d : Bool) → (a && b && d) ≡ ((a && b) && d)
and_assoc a b d = ground arith

built-returns :
    (r : Result String) (sender : String) (recipient : ChannelReceivers) (payload : PondObject)
    (c : ChannelEngine)
    → has_returned (built r sender recipient payload c) ≡ (is_ok r && may_send sender recipient c)
built-returns (err x) sender recipient payload c = refl
built-returns (ok address) sender recipient payload c =
    send_new_message-returns sender ServerActions.broadcast address payload c recipient

-- What a broadcast with a built address is for a user that it is addressed to.
abbrev pub gets :
    PondPath
    → List OutgoingHandler
    → Result String
    → PondObject
    → String
    → ChannelEngine
    → List ChannelEvent
gets any_path stack (err x) payload user c = []
gets any_path stack (ok address) payload user c =
    outcome any_path stack (sent_event address (c.uuids c.drawn) ServerActions.broadcast payload c)
      user

built-received :
    (any_path : PondPath) (stack : List OutgoingHandler) (r : Result String) (sender user : String)
    (recipient : ChannelReceivers) (payload : PondObject) (c : ChannelEngine)
    → received any_path stack user (effects (built r sender recipient payload c)) ≡ (
        if is_ok r && may_send sender recipient c && is_addressed sender recipient user c
        then repeat
            (count user (audience c.publisher.observers))
            (gets any_path stack r payload user c)
        else [])
built-received any_path stack (err x) sender user recipient payload c = refl
built-received any_path stack (ok address) sender user recipient payload c =
    elim (Bool-cases (may_send sender recipient c)) [
      | inl may ↦ rw (may) (
          send_new_message-received sender ServerActions.broadcast address payload c any_path stack
            recipient user may)
      | inr not_may ↦ rw (not_may) (
          ap (received any_path stack user) (
            send_new_message-silent sender ServerActions.broadcast address payload c recipient
              not_may))
    ]

-- A broadcast returns exactly if its event's address can be built and its sender may send to its recipients. If it
-- returns, the broadcast with this address and its payload is given to each subscriber that an addressed user has
-- at this node: for each, the user gets it as the lobby's handlers of outgoing events leave it, and nothing where
-- these block or lose it. Users that are not addressed get nothing, and nobody does if it does not return.
pub channel_broadcast-received :
    (any_path : PondPath) (stack : List OutgoingHandler) (b : Broadcast) (user : String)
    (c : ChannelEngine)
    → (has_returned (channel_broadcast b c)
        ≡ (is_ok (address_of b) && may_send (sender_of b) (recipient_of b) c))
      × (received any_path stack user (effects (channel_broadcast b c)) ≡ (
          if has_returned (channel_broadcast b c)
            && is_addressed (sender_of b) (recipient_of b) user c
          then repeat
              (count user (audience c.publisher.observers))
              (gets any_path stack (address_of b) (payload_of b) user c)
          else []))
channel_broadcast-received any_path stack b user c =
    let e = channel_broadcast-built b c in
    let sender = sender_of b in
    let returns = built-returns (address_of b) sender (recipient_of b) (payload_of b) c in
    let reached =
      built-received any_path stack (address_of b) sender user (recipient_of b) (payload_of b) c in
    (rw (e) returns, rw (e, returns) (reached ∙ ap (chosen) (and_assoc (is_ok (address_of b)) _ _)))
  where
    chosen : Bool → List ChannelEvent
    chosen t =
        if t
        then repeat (count user (audience c.publisher.observers))
            (gets any_path stack (address_of b) (payload_of b) user c)
        else []
