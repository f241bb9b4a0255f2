-- ===== src/ChannelEngine/Replication.antt =====
-- Two nodes of one channel: what a call at one node sends to the backend, and what the other node does when
-- the backend hands it over with the name of the node that it comes from.
use pondsocket.Prelude.{
  ℕ, String, Bool, true, false, not, ◌&&◌, ◌||◌, or_else, includes, Option, none, some, List, [],
  ◌∷◌, ◌++◌, ◌==◌, ◌≡◌, refl, ap, ◌∙◌, if◌then◌else◌, arith, eq_iff, count,
}
use pondsocket.JsMap.{get, add}
use pondsocket.JsMap.Laws.{get-set, has-get, includes-add}
use pondsocket.Subject
use pondsocket.Protocol.{
  PondObject, MessageBody, DistributedMessage, ServerActions, InternalChannelEvent,
  ChannelReceivers,
}
use pondsocket.ChannelEngine.State.{
  ◌>>◌, ChannelEngine, Effect, backend_broadcast, state, effects, has_user, users, subscriber,
  publish, broadcast_to_nodes,
}
use pondsocket.ChannelEngine.Messages.{send_message}
use pondsocket.ChannelEngine.Users.{add_user}
use pondsocket.ChannelEngine.Nodes.{track_node_user}
use pondsocket.ChannelEngine.Remote.{
  handle_body, handle_remote_user_joined, handle_distributed_message,
}
use pondsocket.ChannelEngine.Invariant.{IsConsistent}
use pondsocket.ChannelEngine.Delivery.{may_send, resolved, message, sent_event, send_message-sent}
use pondsocket.ChannelEngine.Told.{audience}
use pondsocket.Endpoint.State.{PondPath}
use pondsocket.Outgoing.{OutgoingHandler}
use pondsocket.Outgoing.Reception.{received, outcome, repeat}
use pondsocket.ChannelEngine.Sync.{
  first_some, is_addressed_remotely, received-handle_remote_message,
}

-- What the effects send to the backend, in order.
abbrev pub broadcasts : List Effect → List DistributedMessage
broadcasts [] = []
broadcasts (backend_broadcast m ∷ es) = m ∷ broadcasts es
broadcasts (_ ∷ es) = broadcasts es

abbrev pub message_of : ChannelEngine → Option String → MessageBody → DistributedMessage
message_of c source body = record {
  endpoint_name = c.endpoint_id;
  channel_name = c.name;
  source_node_id = source;
  body = body;
}

-- Whether a message has the name of the node as its source.
abbrev pub comes_from : String → Option String → Bool
comes_from node none = false
comes_from node (some source) = not (source == "") && source == node

module _ (user : String) (source : Option String) (now : ℕ) (assigns : PondObject)
    (d : ChannelEngine) where
  -- The node after the message that a user without a presence joined.
  abbrev pub after_joined : ChannelEngine
  after_joined = state (
      handle_distributed_message now (message_of d source (MessageBody.user_joined user [] assigns))
        d)

  joined-assigns :
      (another : String)
      → get another after_joined.assigns_cache ≡ (
          if user == another
          then first_some (get user d.assigns_cache) (some assigns)
          else get another d.assigns_cache)
  unfolding handle_distributed_message handle_body handle_remote_user_joined track_node_user
  joined-assigns another = ground (
    arith,
    get-set another user assigns d.assigns_cache,
    has-get user d.assigns_cache,
    eq_iff user another,
  )

  joined-presence : after_joined.presence_engine ≡ d.presence_engine
  unfolding handle_distributed_message handle_body handle_remote_user_joined track_node_user
  joined-presence = ground arith

  joined-node_users :
      (node member : String)
      → includes (or_else (get node after_joined.node_users) []) member ≡ (
          (not (has_user user d) && comes_from node source && user == member)
          || includes (or_else (get node d.node_users) []) member)
  unfolding handle_distributed_message handle_body handle_remote_user_joined track_node_user
  joined-node_users node member = go source
    where
      tracked : String → List String
      tracked from = add user (or_else (get from d.node_users) [])

      go :
          (source : Option String)
          → includes
              (or_else
                (get node
                  (state (handle_remote_user_joined source now user [] assigns d)).node_users)
                [])
              member
            ≡ ((not (has_user user d) && comes_from node source && user == member)
                || includes (or_else (get node d.node_users) []) member)
      go none = ground arith
      go (some from) = ground (
        arith,
        get-set node from (tracked from) d.node_users,
        includes-add user member (or_else (get from d.node_users) []),
        eq_iff from node,
      )

  joined-node_last_seen :
      (node : String)
      → get node after_joined.node_last_seen ≡ (
          if not (has_user user d) && comes_from node source
          then first_some (get node d.node_last_seen) (some now)
          else get node d.node_last_seen)
  unfolding handle_distributed_message handle_body handle_remote_user_joined track_node_user
  joined-node_last_seen node = go source
    where
      go :
          (source : Option String)
          → get node (state (handle_remote_user_joined source now user [] assigns d)).node_last_seen
            ≡ (if not (has_user user d) && comes_from node source
                then first_some (get node d.node_last_seen) (some now)
                else get node d.node_last_seen)
      go none = ground arith
      go (some from) = ground (
        arith,
        get-set node from now d.node_last_seen,
        has-get from d.node_last_seen,
        eq_iff from node,
      )

-- The join of a new user at an open node that has a backend sends one message, and when that reaches another node,
-- the user is one of its users too: with the assigns that are sent, unless it knows the user already. It counts a
-- new user among the users of the node that the message comes from, and the time when it last heard of that
-- node is the time of the message if there was none. The assigns of every other user, all presences, and every
-- other member and time of a node stay as they are.
pub add_user-replicates :
    (user request_id another node member : String) (source : Option String) (now timeout : ℕ)
    (assigns : PondObject) (c d : ChannelEngine)
    → IsConsistent c
    → c.closed ≡ false
    → c.backend ≡ some timeout
    → has_user user c ≡ false
    → let joined = MessageBody.user_joined user [] assigns in
      let after = state (handle_distributed_message now (message_of c source joined) d) in
      (broadcasts (effects (add_user user assigns request_id c)) ≡ message_of c none joined ∷ [])
      × (get another after.assigns_cache ≡ (
          if user == another
          then first_some (get user d.assigns_cache) (some assigns)
          else get another d.assigns_cache))
      × (after.presence_engine ≡ d.presence_engine)
      × (includes (or_else (get node after.node_users) []) member ≡ (
          (not (has_user user d) && comes_from node source && user == member)
          || includes (or_else (get node d.node_users) []) member))
      × (get node after.node_last_seen ≡ (
          if not (has_user user d) && comes_from node source
          then first_some (get node d.node_last_seen) (some now)
          else get node d.node_last_seen))
unfolding add_user Subject.subscribe handle_distributed_message
add_user-replicates user request_id another node member source now timeout assigns c d v
      open_channel b h =
    (
      ground (arith, v.sealed),
      joined-assigns user source now assigns d another,
      joined-presence user source now assigns d,
      joined-node_users user source now assigns d node member,
      joined-node_last_seen user source now assigns d node,
    )

broadcasts-append : (es fs : List Effect) → broadcasts (es ++ fs) ≡ broadcasts es ++ broadcasts fs
broadcasts-append [] fs = refl
broadcasts-append (e ∷ es) fs =
    elim e as (λ e. broadcasts ((e ∷ es) ++ fs) ≡ broadcasts (e ∷ es) ++ broadcasts fs) [
      | backend_broadcast m ↦ ap (λ ms. m ∷ ms) (broadcasts-append es fs)
      | _ ↦ broadcasts-append es fs
    ]

broadcasts-publish_to :
    (os : List (ℕ × String)) (e : InternalChannelEvent)
    → broadcasts (Subject.publish_to subscriber (λ _ _. []) os e) ≡ []
unfolding Subject.publish_to Subject.notify_observer subscriber
broadcasts-publish_to [] e = refl
broadcasts-publish_to ((t, user) ∷ os) e = ground (arith, broadcasts-publish_to os e)

broadcasts-publish :
    (e : InternalChannelEvent) (body : MessageBody) (timeout : ℕ) (c : ChannelEngine)
    → c.closed ≡ false
    → c.backend ≡ some timeout
    → broadcasts (effects ((publish e >> broadcast_to_nodes body) c)) ≡ message_of c none body ∷ []
unfolding publish broadcast_to_nodes Subject.publish
broadcasts-publish e body timeout c h b = ground (
  arith,
  broadcasts-publish_to c.publisher.observers e,
  broadcasts-append (Subject.publish_to subscriber (λ _ _. []) c.publisher.observers e)
      (backend_broadcast (message_of c none body) ∷ []),
)

-- A message that may be sent goes from an open node that has a backend to the others once. Where another node
-- receives it, it is given, as a broadcast, to each subscriber that a user has there whom it addresses, and to nobody
-- else: for each,
-- the user gets it as the handlers of outgoing events of that node's lobby leave it, and nothing where these
-- block or lose it.
pub send_message-replicates :
    (any_path : PondPath) (stack : List OutgoingHandler) (sender event request_id user : String)
    (recipient : ChannelReceivers) (action : ServerActions) (payload : PondObject)
    (source : Option String) (now timeout : ℕ) (c d : ChannelEngine)
    → may_send sender recipient c ≡ true
    → c.closed ≡ false
    → c.backend ≡ some timeout
    → let sent = MessageBody.user_message sender event payload request_id recipient in
      (broadcasts (effects (send_message sender recipient action event payload request_id c))
        ≡ message_of c none sent ∷ [])
      × (received any_path stack user
            (effects (handle_distributed_message now (message_of c source sent) d))
          ≡ (if is_addressed_remotely sender recipient user d
              then repeat (count user (audience d.publisher.observers)) (
                  outcome any_path stack
                    (sent_event event request_id ServerActions.broadcast payload d)
                    user)
              else []))
unfolding handle_distributed_message handle_body
send_message-replicates any_path stack sender event request_id user recipient action payload source
      now timeout c d h open_channel b =
    (
      ap broadcasts (send_message-sent event request_id action payload sender recipient c h)
          ∙ broadcasts-publish
              (message event request_id action payload c (resolved recipient sender (users c)))
              (MessageBody.user_message sender event payload request_id recipient) timeout c
              open_channel b,
      received-handle_remote_message any_path stack sender event request_id user payload recipient
          d,
    )
