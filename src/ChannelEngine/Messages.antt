-- ===== src/ChannelEngine/Messages.antt =====
-- `sendMessage`, `#getUsersFromRecipients`, and the events that go out by them.
use pondsocket.Prelude.{
  String, not, ◌&&◌, List, [], ◌∷◌, ◌==◌, includes, select, all, concat, comma_separated,
}
use pondsocket.Protocol.{
  PondObject, ServerActions, ChannelReceivers, all_users, all_except_sender, user_ids, other,
  http_error, channel_sender, user_message,
}
use pondsocket.ChannelEngine.State.{
  M, Action, ◌>>=◌, ◌>>◌, pure, throw, throw_if, get_state, users, has_user, publish, uuid,
  broadcast_to_nodes,
}

unfoldable pub get_users_from_recipients : ChannelReceivers → String → M (List String)
unfolding users
get_users_from_recipients all_users sender c = pure (users c) c
get_users_from_recipients all_except_sender sender c =
    (do
      throw_if (sender == channel_sender) (
          http_error 400 (
            concat (
              "ChannelEngine: Invalid sender " ∷ sender ∷ " for recipients ALL_EXCEPT_SENDER"
              ∷ [])))
      pure (select (λ user. not (user == sender)) (users c)))
      c
get_users_from_recipients (user_ids ids) sender c =
    (do
      throw_if (not (all (includes (users c)) ids)) (
          http_error 400
            (concat ("ChannelEngine: Invalid user ids in recipients " ∷ comma_separated ids ∷ [])))
      pure ids)
      c
get_users_from_recipients (other text) sender c =
    throw
      (http_error 400 (
        concat (
          "ChannelEngine: Invalid recipients " ∷ text ∷ " must be an array of user ids or ALL_USERS"
          ∷ [])))
      c

unfoldable pub send_message :
    String → ChannelReceivers → ServerActions → String → PondObject → String → Action
unfolding get_users_from_recipients has_user publish broadcast_to_nodes
send_message sender recipient action event payload request_id = do
  c ← get_state
  throw_if (not (has_user sender c) && not (sender == channel_sender)) (
      http_error 404 (
        concat
          ("ChannelEngine: User with id " ∷ sender ∷ " does not exist in channel " ∷ c.name ∷ [])))
  recipients ← get_users_from_recipients recipient sender
  publish (record {
    event = record {
      action = action;
      event = event;
      payload = payload;
      channel_name = c.name;
      request_id = request_id;
    };
    recipients = recipients;
  })
  broadcast_to_nodes (user_message sender event payload request_id recipient)

-- `sendMessage` with its default request id.
unfoldable pub send_new_message :
    String → ChannelReceivers → ServerActions → String → PondObject → Action
unfolding send_message uuid
send_new_message sender recipient action event payload = do
  request_id ← uuid
  send_message sender recipient action event payload request_id
