-- ===== src/ClientChannel/Rejoin.antt =====
-- Joining again in javascript/client/src/core/channel.ts: answers to an earlier request, and a channel that
-- was left.
use pondsocket.Prelude.{String, true, false, [], ◌∷◌, ◌==◌, ◌≡◌, arith, eq_iff}
use pondsocket.Protocol.{PondObject, ChannelEvent, plain_error}
use pondsocket.ClientChannel.{
  Channel, joined, threw, is_joined, is_joining, is_connected, acknowledge, initialise,
  is_stale_reply, follow_connection, send_join_request, decline, join, leave, receive,
}
use pondsocket.ClientChannel.Machine.{changes}

-- After a join that a connected channel begins, whatever it awaited before, an answer with the id of
-- another request neither joins nor declines it: the channel stays as it is, and nothing is told.
pub join-ignores_other_replies :
    (id other fresh_id : String) (payload : PondObject) (c : Channel)
    → is_joined c.join_state ≡ false
    → is_joining c.join_state ≡ false
    → is_connected c.client_state ≡ true
    → (id == "") ≡ false
    → (other == "") ≡ false
    → (other == id) ≡ false
    → let d = (join id c).0 in
      (acknowledge fresh_id other d ≡ (d, [])) × (decline payload other d ≡ (d, []))
unfolding join send_join_request acknowledge decline is_stale_reply
join-ignores_other_replies id other fresh_id payload c j w n e f g =
    ground (arith, eq_iff other id, eq_iff other "", eq_iff id "")

-- The joining of a connected channel that was left is acknowledged: its state is JOINED, but the
-- acknowledgement throws, its subscribers are told of neither state, nothing of its queue is sent, and it
-- takes no event of the server.
pub leave-join-acknowledge :
    (parting id fresh_id : String) (v : ChannelEvent) (c : Channel)
    → is_connected c.client_state ≡ true
    → let left = (leave parting c).0 in
      let d = (join id left).0 in
      let r = acknowledge fresh_id id d in
      (r.0.join_state ≡ joined)
      × ((r.1 ≡ threw (plain_error "Cannot subscribe to a closed subject") ∷ [])
          × ((changes ((join id left).1) ≡ []) × (receive v r.0 ≡ (r.0, []))))
unfolding leave join send_join_request acknowledge initialise follow_connection is_stale_reply
    receive changes
leave-join-acknowledge parting id fresh_id v c n = ground (arith, eq_iff id id)
