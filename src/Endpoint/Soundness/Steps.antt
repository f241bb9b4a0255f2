-- ===== src/Endpoint/Soundness/Steps.antt =====
-- What reaches an endpoint, and any sequence of it.
use pondsocket.Prelude.{ℕ, String, false, Option, none, some, List, [], ◌∷◌, refl, arith}
use pondsocket.JsMap.{get, delete}
use pondsocket.Protocol.{Result, ok, err}
use pondsocket.Schema.{ClientMessage, ClientActions, join_channel, leave_channel, broadcast}
use pondsocket.ChannelEngine.Preservation.{remove_user-Keeps}
use pondsocket.ChannelEngine.Users
use pondsocket.Endpoint.State.{
  EndpointEngine, SocketCache, Subscription, Exit, done, raised, state, before, Effect, call,
}
use pondsocket.Endpoint.Lobby.{retrieve_channel}
use pondsocket.Endpoint.JoinMiddleware
use pondsocket.Endpoint.Broadcasting.{broadcast_message}
use pondsocket.Endpoint.Sockets.{
  update_socket, unsubscribe, unsubscribe_all, after_unsubscribe, unlist, handle_socket_close,
  leave, broadcast_to, handle_message, without_token,
}
use pondsocket.Endpoint.Soundness.{IsSound, IsSound-engines, call-IsSound}
use pondsocket.Endpoint.Soundness.Events.{broadcast_message-IsSound}
use pondsocket.Endpoint.Soundness.Lobbies.{join_channel-IsSound}

update_socket-IsSound :
    (client : String) (f : SocketCache → SocketCache) (s : EndpointEngine)
    → IsSound s
    → IsSound (update_socket client f s)
update_socket-IsSound client f s v = IsSound-engines (ground arith) v

unsubscribe-IsSound :
    (client : String) (b : Subscription) (s : EndpointEngine)
    → IsSound s
    → IsSound (state (unsubscribe client b s))
unfolding unsubscribe
unsubscribe-IsSound client b s v =
    ended (call b.engine (Users.remove_user client false) s)
      (call-IsSound b.engine _ s (remove_user-Keeps client false) v)
  where
    ended :
        (o : Exit EndpointEngine (Unit {0}))
        → IsSound (state o)
        → IsSound (
            state (elim o as (λ _. Exit EndpointEngine (Unit {0})) [
              | raised x t es ↦ raised x t es
              | done _ t es ↦
                  done tt
                    (update_socket client
                      (λ c. record c {
                        subscriptions = without_token b.token c.subscriptions;
                        channel_subscriptions = delete b.channel_name c.channel_subscriptions;
                      })
                      t)
                    es
            ]))
    ended (raised x t es) v = v
    ended (done a t es) v = update_socket-IsSound client _ t v

before-IsSound :
    (es : List Effect) (o : Exit EndpointEngine (Unit {0}))
    → IsSound (state o)
    → IsSound (state (before es o))
before-IsSound es (raised x t fs) v = v
before-IsSound es (done a t fs) v = v

unsubscribe_all-IsSound :
    (client : String) (bs : List Subscription) (s : EndpointEngine)
    → IsSound s
    → IsSound (state (unsubscribe_all client bs s))
unfolding unsubscribe_all
unsubscribe_all-IsSound client [] s v = v
unsubscribe_all-IsSound client (b ∷ bs) s v =
    ended (unsubscribe client b s) (λ t w. unsubscribe_all-IsSound client bs t w)
      (unsubscribe-IsSound client b s v)
  where
    ended :
        (o : Exit EndpointEngine (Unit {0}))
        → ((t : EndpointEngine) → IsSound t → IsSound (state (unsubscribe_all client bs t)))
        → IsSound (state o)
        → IsSound (
            state (elim o as (λ _. Exit EndpointEngine (Unit {0})) [
              | raised x t es ↦ raised x t es
              | done _ t es ↦ before es (unsubscribe_all client bs t)
            ]))
    ended (raised x t es) k v = v
    ended (done a t es) k v = before-IsSound es (unsubscribe_all client bs t) (k t v)

after_unsubscribe-IsSound :
    (client : String) (o : Exit EndpointEngine (Unit {0}))
    → IsSound (state o)
    → IsSound (after_unsubscribe client o).0
unfolding after_unsubscribe
after_unsubscribe-IsSound client (raised x s es) v = v
after_unsubscribe-IsSound client (done a s es) v = update_socket-IsSound client _ s v

unlist-IsSound :
    (client : String) (cache : SocketCache) (s : EndpointEngine)
    → IsSound s
    → IsSound (unlist client cache s)
unlist-IsSound client cache s v = IsSound-engines refl v

pub handle_socket_close-IsSound :
    (client : String) (s : EndpointEngine) → IsSound s → IsSound (handle_socket_close client s).0
unfolding handle_socket_close
handle_socket_close-IsSound client s v = known (get client s.sockets)
  where
    known :
        (o : Option SocketCache)
        → IsSound
            (elim o as (λ _. EndpointEngine × List Effect) [
              | none ↦ (s, [])
              | some cache ↦
                  after_unsubscribe client
                    (unsubscribe_all client cache.subscriptions (unlist client cache s))
            ]).0
    known none = v
    known (some cache) =
        after_unsubscribe-IsSound client
          (unsubscribe_all client cache.subscriptions (unlist client cache s))
          (unsubscribe_all-IsSound client cache.subscriptions (unlist client cache s)
            (unlist-IsSound client cache s v))

leave-IsSound :
    (channel client : String) (s : EndpointEngine)
    → IsSound s
    → IsSound (state (leave channel client s))
unfolding leave
leave-IsSound channel client s v = known (get client s.sockets)
  where
    found :
        (o : Result ℕ)
        → IsSound (
            state (elim o as (λ _. Exit EndpointEngine (Unit {0})) [
              | err x ↦ raised x s []
              | ok id ↦ call id (Users.remove_user client false) s
            ]))
    found (err x) = v
    found (ok id) = call-IsSound id _ s (remove_user-Keeps client false) v

    held :
        (o : Option Subscription)
        → IsSound (
            state (elim o as (λ _. Exit EndpointEngine (Unit {0})) [
              | some b ↦ unsubscribe client b s
              | none ↦ elim (retrieve_channel channel s) [
                | err x ↦ raised x s []
                | ok id ↦ call id (Users.remove_user client false) s
              ]
            ]))
    held none = found (retrieve_channel channel s)
    held (some b) = unsubscribe-IsSound client b s v

    known :
        (o : Option SocketCache)
        → IsSound (
            state (elim o as (λ _. Exit EndpointEngine (Unit {0})) [
              | none ↦ done tt s []
              | some cache ↦ elim (get channel cache.channel_subscriptions) [
                | some b ↦ unsubscribe client b s
                | none ↦ elim (retrieve_channel channel s) [
                  | err x ↦ raised x s []
                  | ok id ↦ call id (Users.remove_user client false) s
                ]
              ]
            ]))
    known none = v
    known (some cache) = held (get channel cache.channel_subscriptions)

broadcast_to-IsSound :
    (client : String) (m : ClientMessage) (s : EndpointEngine)
    → IsSound s
    → IsSound (state (broadcast_to client m s))
unfolding broadcast_to
broadcast_to-IsSound client m s v = found (retrieve_channel m.channel_name s)
  where
    found :
        (o : Result ℕ)
        → IsSound (
            state (elim o as (λ _. Exit EndpointEngine (Unit {0})) [
              | err x ↦ raised x s []
              | ok id ↦ broadcast_message id client m s
            ]))
    found (err x) = v
    found (ok id) = broadcast_message-IsSound id client m s v

pub handle_message-IsSound :
    (uuids : ℕ → ℕ → String) (client : String) (m : ClientMessage) (s : EndpointEngine)
    → IsSound s
    → IsSound (state (handle_message uuids client m s))
unfolding handle_message
handle_message-IsSound uuids client m s v = by_action m.action
  where
    by_action :
        (a : ClientActions)
        → IsSound (
            state (elim a as (λ _. Exit EndpointEngine (Unit {0})) [
              | join_channel ↦
                  let (t, es) =
                    JoinMiddleware.join_channel uuids client m.channel_name m.payload m.request_id
                      s in
                  done tt t es
              | leave_channel ↦ leave m.channel_name client s
              | broadcast ↦ broadcast_to client m s
            ]))
    by_action join_channel =
        join_channel-IsSound uuids client m.channel_name m.request_id m.payload s v
    by_action leave_channel = leave-IsSound m.channel_name client s v
    by_action broadcast = broadcast_to-IsSound client m s v
