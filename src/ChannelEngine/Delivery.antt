-- ===== src/ChannelEngine/Delivery.antt =====
-- What users get of `sendMessage`, and when it fails.
use pondsocket.Prelude.{
  is_empty, String, Bool, true, false, not, ◌&&◌, ◌||◌, List, [], ◌==◌, ◌≡◌, refl, if◌then◌else◌,
  includes, count, select, all, arith, includes-select,
}
use pondsocket.Protocol.{
  PondObject, ServerActions, ChannelReceivers, all_users, all_except_sender, user_ids, other,
  channel_sender, user_message, InternalChannelEvent, ChannelEvent,
}
use pondsocket.ChannelEngine.State.{
  ChannelEngine, state, effects, has_returned, users, has_user, publish, broadcast_to_nodes, ◌>>◌,
}
use pondsocket.ChannelEngine.Messages.{send_message}
use pondsocket.ChannelEngine.Told.{audience}
use pondsocket.Endpoint.State.{PondPath}
use pondsocket.Outgoing.{OutgoingHandler}
use pondsocket.Outgoing.Reception.{received, outcome, repeat, received-publish-broadcast}

-- What a caller may ask for: a sender that is in the channel or the channel itself, and recipients
-- that exist; only a user can be left out of its own message.
abbrev pub may_send : String → ChannelReceivers → ChannelEngine → Bool
may_send sender all_users c = has_user sender c || sender == channel_sender
may_send sender all_except_sender c =
    (has_user sender c || sender == channel_sender) && not (sender == channel_sender)
may_send sender (user_ids ids) c =
    (has_user sender c || sender == channel_sender) && all (includes (users c)) ids
may_send sender (other _) c = false

-- Whether a message with such recipients is for the user.
abbrev pub is_addressed : String → ChannelReceivers → String → ChannelEngine → Bool
is_addressed sender all_users user c = includes (users c) user
is_addressed sender all_except_sender user c = not (user == sender) && includes (users c) user
is_addressed sender (user_ids ids) user c = includes ids user
is_addressed sender (other _) user c = false

-- `sendMessage` returns exactly when it may; it never changes the state, and a call that throws has no
-- effect.
pub send_message-returns_iff :
    (sender event request_id : String) (recipient : ChannelReceivers) (action : ServerActions)
    (payload : PondObject) (c : ChannelEngine)
    → let result = send_message sender recipient action event payload request_id c in
      (has_returned result ≡ may_send sender recipient c)
      × (state result ≡ c)
      × ((has_returned result || is_empty (effects result)) ≡ true)
unfolding send_message
send_message-returns_iff sender event request_id all_users action payload c = ground arith
send_message-returns_iff sender event request_id all_except_sender action payload c = ground arith
send_message-returns_iff sender event request_id (user_ids ids) action payload c = ground arith
send_message-returns_iff sender event request_id (other text) action payload c = ground arith

-- The users that recipients stand for, among those of the channel.
abbrev pub resolved : ChannelReceivers → String → List String → List String
resolved all_users sender us = us
resolved all_except_sender sender us = select (λ user. not (user == sender)) us
resolved (user_ids ids) sender us = ids
resolved (other _) sender us = []

includes-resolved :
    (sender user : String) (recipient : ChannelReceivers) (c : ChannelEngine)
    → includes (resolved recipient sender (users c)) user ≡ is_addressed sender recipient user c
includes-resolved sender user all_users c = refl
includes-resolved sender user all_except_sender c =
    includes-select (λ u. not (u == sender)) (users c) user
includes-resolved sender user (user_ids ids) c = refl
includes-resolved sender user (other text) c = refl

module _ (event request_id : String) (action : ServerActions) (payload : PondObject) where
  abbrev pub sent_event : ChannelEngine → ChannelEvent
  sent_event c = record {
    action = action;
    event = event;
    payload = payload;
    channel_name = c.name;
    request_id = request_id;
  }

  abbrev pub message : ChannelEngine → List String → InternalChannelEvent
  message c recipients = record { event = sent_event c; recipients = recipients }

  pub send_message-sent :
      (sender : String) (recipient : ChannelReceivers) (c : ChannelEngine)
      → may_send sender recipient c ≡ true
      → effects (send_message sender recipient action event payload request_id c)
        ≡ effects (
            (publish (message c (resolved recipient sender (users c)))
                >> broadcast_to_nodes (user_message sender event payload request_id recipient))
              c)
  unfolding send_message
  send_message-sent sender all_users c h = ground arith
  send_message-sent sender all_except_sender c h = ground arith
  send_message-sent sender (user_ids ids) c h = ground arith
  send_message-sent sender (other text) c h = cc

-- A message that is sent is given to each subscriber that an addressed user has at this node, and to nobody else:
-- for each, the user gets the event as the lobby's handlers of outgoing events leave it, and nothing where these
-- block or lose it; an event about presence, which they do not see, the user gets as it is.
pub received-send_message :
    (any_path : PondPath) (stack : List OutgoingHandler) (sender event request_id user : String)
    (recipient : ChannelReceivers) (action : ServerActions) (payload : PondObject)
    (c : ChannelEngine)
    → may_send sender recipient c ≡ true
    → received any_path stack user
        (effects (send_message sender recipient action event payload request_id c))
      ≡ (if is_addressed sender recipient user c
          then repeat
              (count user (audience c.publisher.observers))
              (outcome any_path stack (sent_event event request_id action payload c) user)
          else [])
received-send_message any_path stack sender event request_id user recipient action payload c h =
    rw (
      send_message-sent event request_id action payload sender recipient c h,
      received-publish-broadcast any_path stack user (message event request_id action payload c _) _
          c,
      includes-resolved sender user recipient c,
    )
