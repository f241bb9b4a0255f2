-- ===== src/Wrappers/Tests.antt =====
-- A run of the wrappers, at which the theorem applies.
use pondsocket.Prelude.{none, true, ◌&&◌, some, [], ◌∷◌, ◌≡◌, if◌then◌else◌, count}
use pondsocket.Protocol.{is_ok, ok, str}
use pondsocket.ChannelEngine.State.{ChannelEngine, effects, has_returned, state}
use pondsocket.ChannelEngine.Users.{add_user}
use pondsocket.ChannelEngine.Nodes.{new_channel_engine}
use pondsocket.ChannelEngine.Delivery.{may_send, is_addressed}
use pondsocket.ChannelEngine.Told.{audience}
use pondsocket.Wrappers.Methods.{Broadcast, broadcast}
use pondsocket.Wrappers.Calls.{channel_broadcast}
use pondsocket.Wrappers.Broadcasts.{
  address_of, sender_of, recipient_of, payload_of, gets, channel_broadcast-received,
}
use pondsocket.Endpoint.State.{PondPath}
use pondsocket.Outgoing.{OutgoingHandler, transform_payload}
use pondsocket.Outgoing.Reception.{received, repeat}

abbrev room : ChannelEngine
room = state (add_user "ann" [] "r1" (new_channel_engine "room" "/ws" (some 1) true (λ _. "id")))

abbrev any_path : PondPath
any_path = record {
  key = "*";
  compile = ok tt;
  parse = λ _. ok (some (record { params = []; query = [] }));
}

-- It lets everything through, with another payload.
abbrev marking : OutgoingHandler
marking = record {
  path = any_path;
  handler = λ c. record { acts = transform_payload (("seen", str "yes") ∷ []) ∷ []; ending = none };
}

abbrev saying : Broadcast
saying = broadcast "say/:id" [] (some (("id", "7") ∷ []))

channel_broadcast-received_example :
    (has_returned (channel_broadcast saying room)
      ≡ (is_ok (address_of saying) && may_send (sender_of saying) (recipient_of saying) room))
    × (received any_path (marking ∷ []) "ann" (effects (channel_broadcast saying room)) ≡ (
        if has_returned (channel_broadcast saying room)
          && is_addressed (sender_of saying) (recipient_of saying) "ann" room
        then repeat
            (count "ann" (audience room.publisher.observers))
            (gets any_path (marking ∷ []) (address_of saying) (payload_of saying) "ann" room)
        else []))
channel_broadcast-received_example =
    channel_broadcast-received any_path (marking ∷ []) saying "ann" room
