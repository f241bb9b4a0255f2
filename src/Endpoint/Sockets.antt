-- ===== src/Endpoint/Sockets.antt =====
-- The sockets of javascript/core/src/engines/endpointEngine.ts: connections, what the clients send, and the
-- end of a connection. The id that `uuid()` draws for an answer without a request is an argument.
use pondsocket.Prelude.{
  ℕ, String, true, false, ◌&&◌, none, some, List, [], ◌∷◌, ◌++◌, nat_beq, ltb, if◌then◌else◌,
  includes, concat,
}
use pondsocket.JsMap.{JsMap, get, set, delete}
use pondsocket.Protocol.{PondObject, Json, ServerActions, Result, ok, err, http_error, plain_error}
use pondsocket.Schema.{
  ClientMessage, join_channel, leave_channel, broadcast, valid, invalid, parse_client_message,
}
use pondsocket.ChannelEngine.Users
use pondsocket.Endpoint.State.{
  SocketCache, Subscription, EndpointEngine, Effect, close_socket, Exit, done, raised, before,
  send_message, call,
}
use pondsocket.Endpoint.Lobby.{retrieve_channel}
use pondsocket.Endpoint.JoinMiddleware
use pondsocket.Endpoint.Joining.{build_error}
use pondsocket.Endpoint.Broadcasting.{broadcast_message}

-- A change of a client's socket cache, if there is one.
abbrev pub update_socket : String → (SocketCache → SocketCache) → EndpointEngine → EndpointEngine
update_socket client f s = elim (get client s.sockets) [
  | none ↦ s
  | some cache ↦ record s { sockets = set client (f cache) s.sockets }
]

-- `manageSocket`, for the cache that `ConnectionContext.accept` makes.
unfoldable pub manage_socket :
    String → String → PondObject → EndpointEngine → EndpointEngine × List Effect
unfolding send_message
manage_socket request_id client assigns s =
    let t = record s {
      sockets =
          set client
            (record {
              is_registered = true;
              is_open = true;
              assigns = assigns;
              subscriptions = [];
              channel_subscriptions = [];
            })
            s.sockets;
    } in
    (
      t,
      send_message client
          (record {
            action = ServerActions.connect;
            event = "CONNECTION";
            payload = [];
            channel_name = "ENDPOINT";
            request_id = request_id;
          })
          t,
    )

-- `getClients`.
unfoldable pub get_clients : JsMap SocketCache → List SocketCache
get_clients [] = []
get_clients ((_, cache) ∷ more) =
    if cache.is_registered then cache ∷ get_clients more else get_clients more

-- `getUser`.
unfoldable pub get_user : String → EndpointEngine → Result SocketCache
get_user client s = elim (get client s.sockets) [
  | none ↦ err (http_error 404 (concat ("GatewayEngine: User " ∷ client ∷ " does not exist" ∷ [])))
  | some cache ↦
      if cache.is_registered
      then ok cache
      else err (http_error 404 (concat ("GatewayEngine: User " ∷ client ∷ " does not exist" ∷ [])))
]

-- `closeConnection`.
unfoldable pub close_connection : List String → JsMap SocketCache → List Effect
close_connection clients [] = []
close_connection clients ((client, cache) ∷ more) =
    if cache.is_registered && includes clients client
    then close_socket client ∷ close_connection clients more
    else close_connection clients more

abbrev pub without_token : ℕ → List Subscription → List Subscription
without_token t [] = []
without_token t (b ∷ bs) = if nat_beq b.token t then without_token t bs else b ∷ without_token t bs

-- A call of a `wrappedSubscription`.
unfoldable pub unsubscribe : String → Subscription → EndpointEngine → Exit EndpointEngine (Unit {0})
unfolding call
unsubscribe client b s = elim (call b.engine (Users.remove_user client false) s) [
  | raised x t es ↦ raised x t es
  | done _ t es ↦
      done tt
        (update_socket client
          (λ c. record c {
            subscriptions = without_token b.token c.subscriptions;
            channel_subscriptions = delete b.channel_name c.channel_subscriptions;
          })
          t)
        es
]

unfoldable pub unsubscribe_all :
    String → List Subscription → EndpointEngine → Exit EndpointEngine (Unit {0})
unfolding unsubscribe
unsubscribe_all client [] s = done tt s []
unsubscribe_all client (b ∷ bs) s = elim (unsubscribe client b s) [
  | raised x t es ↦ raised x t es
  | done _ t es ↦ before es (unsubscribe_all client bs t)
]

-- What follows the calls of the subscriptions: an error ends the handler silently.
unfoldable pub after_unsubscribe :
    String → Exit EndpointEngine (Unit {0}) → EndpointEngine × List Effect
after_unsubscribe client (raised x s es) = (s, es)
after_unsubscribe client (done _ s es) =
    (update_socket client (λ c. record c { channel_subscriptions = [] }) s, es)

abbrev pub unlist : String → SocketCache → EndpointEngine → EndpointEngine
unlist client cache s = record s {
  sockets = set client (record cache { is_registered = false; is_open = false }) s.sockets;
}

-- `#handleSocketClose`, for a socket whose state is CLOSED by then.
unfoldable pub handle_socket_close : String → EndpointEngine → EndpointEngine × List Effect
unfolding unsubscribe_all after_unsubscribe
handle_socket_close client s = elim (get client s.sockets) [
  | none ↦ (s, [])
  | some cache ↦
      after_unsubscribe client (unsubscribe_all client cache.subscriptions (unlist client cache s))
]

-- `#leaveChannel`.
unfoldable pub leave : String → String → EndpointEngine → Exit EndpointEngine (Unit {0})
unfolding unsubscribe retrieve_channel
leave channel client s = elim (get client s.sockets) [
  | none ↦ done tt s []
  | some cache ↦ elim (get channel cache.channel_subscriptions) [
    | some b ↦ unsubscribe client b s
    | none ↦ elim (retrieve_channel channel s) [
      | err x ↦ raised x s []
      | ok id ↦ call id (Users.remove_user client false) s
    ]
  ]
]

-- `#broadcastMessage`.
unfoldable pub broadcast_to :
    String → ClientMessage → EndpointEngine → Exit EndpointEngine (Unit {0})
unfolding retrieve_channel broadcast_message
broadcast_to client m s = elim (retrieve_channel m.channel_name s) [
  | err x ↦ raised x s []
  | ok id ↦ broadcast_message id client m s
]

-- `#handleMessage`.
unfoldable pub handle_message :
    (ℕ → ℕ → String) → String → ClientMessage → EndpointEngine → Exit EndpointEngine (Unit {0})
unfolding leave broadcast_to
handle_message uuids client m s = elim m.action [
  | join_channel ↦
      let (t, es) =
        JoinMiddleware.join_channel uuids client m.channel_name m.payload m.request_id s in
      done tt t es
  | leave_channel ↦ leave m.channel_name client s
  | broadcast ↦ broadcast_to client m s
]

-- A message on the socket: its length, and what `JSON.parse` makes of it, the message of its error included.
pub record Frame : Type 0 where
  pub size : ℕ
  pub size_text : String
  pub parsed : Result Json

-- `clientMessageSchema.parse`, with the message of a `ValidationError` as an argument.
abbrev pub checked_message : String → Json → Result ClientMessage
checked_message refusal j = elim (parse_client_message j) [
  | valid m ↦ ok m
  | invalid _ _ ↦ err (plain_error refusal)
]

-- The body of `#readMessage`'s `try`.
unfoldable pub read_frame :
    (ℕ → ℕ → String)
    → String
    → String
    → String
    → Frame
    → EndpointEngine
    → Exit EndpointEngine (Unit {0})
unfolding handle_message
read_frame uuids limit_text refusal client f s =
    if ltb s.max_message_size f.size
    then raised
        (http_error 413 (
          concat (
            "Message size " ∷ f.size_text ∷ " exceeds maximum allowed size of " ∷ limit_text
            ∷ " bytes" ∷ [])))
        s []
    else elim f.parsed [
      | err x ↦ raised x s []
      | ok j ↦ elim (checked_message refusal j) [
        | err x ↦ raised x s []
        | ok m ↦ handle_message uuids client m s
      ]
    ]

-- `#readMessage`: every error is answered on the socket.
unfoldable pub read_message :
    (ℕ → ℕ → String)
    → String
    → String
    → String
    → String
    → Frame
    → EndpointEngine
    → EndpointEngine × List Effect
unfolding read_frame build_error
read_message uuids limit_text refusal fresh_id client f s =
    elim (read_frame uuids limit_text refusal client f s) [
      | done _ t es ↦ (t, es)
      | raised x t es ↦
          (t, es ++ send_message client (build_error x "INVALID_MESSAGE" "ENDPOINT" fresh_id) t)
    ]
