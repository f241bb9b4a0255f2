-- ===== src/Endpoint/Tests.antt =====
-- Runs of small endpoints, at which the theorems apply.
use pondsocket.Prelude.{
  ℕ, String, true, false, none, some, List, [], ◌∷◌, ◌≡◌, refl, ◌==◌, if◌then◌else◌,
}
use pondsocket.JsMap.{get}
use pondsocket.Protocol.{Error, plain_error, ok, err, is_ok, str}
use pondsocket.Schema.{ClientActions, ClientMessage, broadcast}
use pondsocket.Schema.Client.{client_json}
use pondsocket.ChannelEngine.State
use pondsocket.ChannelEngine.State.{ChannelEngine, has_user}
use pondsocket.ChannelEngine.Users
use pondsocket.ChannelEngine.Nodes.{new_channel_engine}
use pondsocket.ChannelEngine.Invariant.{IsConsistent}
use pondsocket.ChannelEngine.Preservation.{new_channel_engine-IsConsistent}
use pondsocket.Wrappers.Methods.{upsert_presence, update_assigns}
use pondsocket.Endpoint.State.{
  accept, on_channel, evict_user, delegate, JoinAct, EventHandler, Script, EventParams, PondPath,
  JoinRequest, LobbyEngine, Subscription, SocketCache, EndpointEngine, state, is_done, send_message,
}
use pondsocket.Endpoint.Joining.{JoinContext, build_error}
use pondsocket.Endpoint.JoinMiddleware.{join_channel}
use pondsocket.Endpoint.Broadcasting.{is_member}
use pondsocket.Endpoint.Lobby.{retrieve_channel}
use pondsocket.Endpoint.Sockets.{leave, handle_socket_close, get_user, Frame, read_message}
use pondsocket.Endpoint.Closing.{handle_socket_close-leaves}
use pondsocket.Endpoint.Accepting.{subscription_of}
use pondsocket.Endpoint.Admission.{accepting, join_channel-creates}
use pondsocket.Endpoint.Leaving.{leave-join_channel}
use pondsocket.Endpoint.Refusals.{read_message-refuses}
use pondsocket.Endpoint.Soundness.Runs.{
  Occurrence, event_registered, channel_registered, connected, received,
}

abbrev no_params : EventParams
no_params = record { params = []; query = [] }

-- A path that fits one name.
abbrev path_of : String → PondPath
path_of name = record {
  key = name;
  compile = ok tt;
  parse = λ address. if address == name then ok (some no_params) else ok none;
}

abbrev lobby_of : String → LobbyEngine
lobby_of name = record {
  path = path_of name;
  handler = λ r c. accepting false;
  leave_callback = false;
  middleware =
      record {
        path = path_of "ping";
        handler = λ r c. record { acts = []; ending = none; is_async = false };
      }
      ∷ [];
  channels = [];
}

abbrev with_channel : LobbyEngine → LobbyEngine
with_channel l = record l { channels = ("room", 0) ∷ [] }

abbrev draws : ℕ → ℕ → String
draws i j = "id"

abbrev ann_cache : SocketCache
ann_cache = record {
  is_registered = true;
  is_open = true;
  assigns = [];
  subscriptions = [];
  channel_subscriptions = [];
}

-- Two lobbies, no channel, one client.
abbrev endpoint : EndpointEngine
endpoint = record {
  path = "/api";
  backend = none;
  max_message_size = 100;
  engines = [];
  lobbies = lobby_of "hall" ∷ lobby_of "room" ∷ [];
  sockets = ("ann", ann_cache) ∷ [];
  next_token = 0;
}

abbrev empty_room : ChannelEngine
empty_room = new_channel_engine "room" "/api" none false (draws 0)

-- The channel is there.
abbrev opened : EndpointEngine
opened = record endpoint {
  engines = record { engine = empty_room; lobby = 1 } ∷ [];
  lobbies = lobby_of "hall" ∷ with_channel (lobby_of "room") ∷ [];
}

abbrev subscribed : Subscription
subscribed = record { token = 0; engine = 0; channel_name = "room" }

abbrev ann_inside : SocketCache
ann_inside = record ann_cache {
  subscriptions = subscribed ∷ [];
  channel_subscriptions = ("room", subscribed) ∷ [];
}

-- The client is in the channel.
abbrev inside : EndpointEngine
inside = record opened {
  engines =
      record { engine = State.state (Users.add_user "ann" [] "r1" empty_room); lobby = 1 } ∷ [];
  sockets = ("ann", ann_inside) ∷ ("bob", ann_cache) ∷ [];
  next_token = 1;
}

abbrev ann_request : JoinRequest
ann_request = record {
  client_id = "ann";
  assigns = [];
  params = no_params;
  join_params = [];
  channel_name = "room";
  request_id = "r1";
}

abbrev ann_context : JoinContext
ann_context = record {
  engine = 0;
  request = ann_request;
  new_assigns = [];
  executed = false;
  accepted = false;
}

abbrev answered : JoinContext
answered = record ann_context { executed = true; accepted = true }

empty_room-IsConsistent : IsConsistent empty_room
empty_room-IsConsistent = new_channel_engine-IsConsistent "room" "/api" none false (draws 0)

handle_socket_close-leaves_example :
    let t = (handle_socket_close "ann" inside).0 in
    (is_member 0 "ann" t ≡ false) × (is_ok (get_user "ann" t) ≡ false)
unfolding get
handle_socket_close-leaves_example =
    handle_socket_close-leaves "ann" 0 ann_inside inside refl (refl, tt)

join_channel-creates_example :
    let t = (join_channel draws "ann" "room" [] "r1" endpoint).0 in
    (retrieve_channel "room" t ≡ ok 0)
    × (is_member 0 "ann" t ≡ true)
    × (subscription_of "room" (get "ann" t.sockets) ≡ some subscribed)
unfolding get
join_channel-creates_example =
    join_channel-creates draws "ann" "room" "r1" [] no_params false (lobby_of "room")
      (lobby_of "hall" ∷ []) [] ann_cache endpoint refl (refl, tt) refl refl refl refl

leave-join_channel_example :
    let t = (join_channel draws "ann" "room" [] "r1" endpoint).0 in
    let o = leave "room" "ann" t in
    (retrieve_channel "room" t ≡ ok 0)
    × (is_member 0 "ann" t ≡ true)
    × (is_done o ≡ true)
    × (is_member 0 "ann" (state o) ≡ false)
unfolding get
leave-join_channel_example =
    leave-join_channel draws "ann" "room" "r1" [] no_params false (lobby_of "room")
      (lobby_of "hall" ∷ []) [] ann_cache endpoint refl (refl, tt) refl refl refl refl

-- The client is gone before its request is answered.
abbrev gone_cache : SocketCache
gone_cache = record ann_cache { is_registered = false; is_open = false }

abbrev after_close : EndpointEngine
after_close = record opened { sockets = ("ann", gone_cache) ∷ [] }

abbrev no_json : Frame
no_json = record { size = 2; size_text = "2"; parsed = err (plain_error "Unexpected token") }

read_message-refuses_example :
    (e : Error) × (read_message draws "100" "refused" "id" "ann" no_json endpoint
      ≡ (endpoint, send_message "ann" (build_error e "INVALID_MESSAGE" "ENDPOINT" "id") endpoint))
read_message-refuses_example =
    read_message-refuses draws "100" "refused" "id" "ann" no_json endpoint refl

abbrev hello : ClientMessage
hello = record {
  action = broadcast;
  event = "hello";
  payload = [];
  channel_name = "room";
  request_id = "r2";
}

abbrev hello_frame : Frame
hello_frame = record { size = 80; size_text = "80"; parsed = ok (client_json hello) }

-- A client joins a channel whose handler accepts and then sets assigns by the channel, sends an event, whose handler
-- evicts another user, and is gone.
abbrev welcoming : Script JoinAct
welcoming = record {
  acts =
      accept none
      ∷ on_channel (upsert_presence "ann" [])
      ∷ on_channel (update_assigns "ann" (("seen", str "yes") ∷ []))
      ∷ [];
  ending = none;
  is_async = false;
}

abbrev evicting : EventHandler
evicting = record {
  path = path_of "hello";
  handler = λ r c. record {
    acts = evict_user "bye" (some "bob") ∷ delegate none ∷ [];
    ending = none;
    is_async = false;
  };
}

abbrev joining_frame : Frame
joining_frame = record {
  size = 80;
  size_text = "80";
  parsed = ok (client_json (record hello { action = ClientActions.join_channel }));
}

abbrev visit : List Occurrence
visit =
    channel_registered (path_of "room") (λ r c. welcoming)
    ∷ event_registered 0 evicting
    ∷ connected "r0" "ann" []
    ∷ received "100" "refused" "id" "ann" joining_frame
    ∷ received "100" "refused" "id" "ann" hello_frame
    ∷ []
