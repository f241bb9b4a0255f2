-- ===== src/Endpoint/Connecting.antt =====
-- javascript/core/src/contexts/connectionContext.ts: the request of a client to connect. The upgrade of the
-- connection by the WebSocket server ends in its callback, with an open socket; the id that `uuid()` draws for the
-- first event is an argument.
use pondsocket.Prelude.{
  ℕ, String, Bool, true, false, not, Option, none, some, [], ◌∷◌, ◌≡◌, arith, if◌then◌else◌, eq_iff,
}
use pondsocket.JsMap.{spread}
use pondsocket.JsMap.Laws.{get-set}
use pondsocket.Protocol.{PondObject, ServerActions, ok, err, http_error}
use pondsocket.Endpoint.State.{
  EndpointEngine, Exit, refuse_connection, done, raised, before, state, send_message,
}
use pondsocket.Endpoint.Joining.{text_or, code_or}
use pondsocket.Endpoint.Sockets.{manage_socket, get_user, update_socket}

pub record ConnectionContext : Type 0 where
  pub client_id : String
  pub request_id : String
  pub assigns : PondObject
  pub executed : Bool

unfoldable pub new_connection_context : String → String → ConnectionContext
new_connection_context client_id request_id = record {
  client_id = client_id;
  request_id = request_id;
  assigns = [];
  executed = false;
}

abbrev pub Connecting : Type 0
Connecting = ConnectionContext × EndpointEngine

-- `assign`.
unfoldable pub connection_assign : PondObject → Connecting → Exit Connecting (Unit {0})
unfolding get_user
connection_assign assigns (c, s) =
    if not c.executed
    then done tt (record c { assigns = spread c.assigns assigns }, s) []
    else elim (get_user c.client_id s) [
      | err x ↦ raised x (c, s) []
      | ok _ ↦
          done tt
            (
              c,
              update_socket c.client_id
                  (λ user. record user { assigns = spread user.assigns assigns }) s,
            )
            []
    ]

-- `#performChecks`.
unfoldable pub connection_checks : Connecting → Exit Connecting (Unit {0})
connection_checks (c, s) =
    if c.executed
    then raised (http_error 400 "Response has already been executed") (c, s) []
    else done tt (record c { executed = true }, s) []

-- What `accept` does once its assigns are merged.
unfoldable pub connect_client : String → Connecting → Exit Connecting (Unit {0})
unfolding connection_checks manage_socket
connect_client fresh_id k = elim (connection_checks k) [
  | raised x l es ↦ raised x l es
  | done _ (c, s) es ↦
      let (t, fs) = manage_socket fresh_id c.client_id c.assigns s in done tt (c, t) fs
]

-- `accept`.
unfoldable pub connection_accept :
    String → Option PondObject → Connecting → Exit Connecting (Unit {0})
unfolding connection_assign connect_client
connection_accept fresh_id none k = connect_client fresh_id k
connection_accept fresh_id (some assigns) k = elim (connection_assign assigns k) [
  | raised x l es ↦ raised x l es
  | done _ l es ↦ before es (connect_client fresh_id l)
]

-- `decline`: a line of HTTP is written, and the connection destroyed.
unfoldable pub connection_decline :
    Option String → Option ℕ → Connecting → Exit Connecting (Unit {0})
unfolding connection_checks
connection_decline message code k = elim (connection_checks k) [
  | raised x l es ↦ raised x l es
  | done _ (c, s) es ↦
      done tt (c, s)
        (refuse_connection c.client_id (code_or code 400)
            (text_or message "Unauthorized connection")
          ∷ [])
]

-- `reply`.
unfoldable pub connection_reply : String → PondObject → Connecting → Exit Connecting (Unit {0})
unfolding get_user send_message
connection_reply event payload (c, s) =
    if not c.executed
    then raised (http_error 400 "Connection has not been accepted") (c, s) []
    else elim (get_user c.client_id s) [
      | err x ↦ raised x (c, s) []
      | ok _ ↦
          done tt (c, s)
            (send_message c.client_id
              (record {
                action = ServerActions.broadcast;
                event = event;
                payload = payload;
                channel_name = "ENDPOINT";
                request_id = c.request_id;
              })
              s)
    ]

-- A connection request that is accepted for the first time makes its client one of the endpoint's, with the assigns of
-- the context, on an open socket without subscriptions, and accepting or declining it again only throws.
pub connect_client-connects :
    (fresh_id : String) (message : Option String) (code : Option ℕ) (c : ConnectionContext)
    (s : EndpointEngine)
    → c.executed ≡ false
    → let k = state (connection_accept fresh_id none (c, s)) in
      (get_user c.client_id k.1
        ≡ ok (record {
          is_registered = true;
          is_open = true;
          assigns = c.assigns;
          subscriptions = [];
          channel_subscriptions = [];
        }))
      × (connection_accept fresh_id none k
          ≡ raised (http_error 400 "Response has already been executed") k [])
      × (connection_decline message code k
          ≡ raised (http_error 400 "Response has already been executed") k [])
unfolding connection_accept connection_decline connect_client connection_checks manage_socket
    get_user
connect_client-connects fresh_id message code c s h = (
  ground (
    arith,
    get-set c.client_id c.client_id
        (record {
          is_registered = true;
          is_open = true;
          assigns = c.assigns;
          subscriptions = [];
          channel_subscriptions = [];
        })
        s.sockets,
    eq_iff c.client_id c.client_id,
  ),
  ground arith,
  ground arith,
)
