-- ===== src/Endpoint/Lobby.antt =====
-- javascript/core/src/engines/lobbyEngine.ts, and the endpoint's lobbies: their registration and the way
-- from a channel's name to its engine. The texts that a channel engine's `uuid()` calls draw are an
-- argument, a stream for each engine.
use pondsocket.Prelude.{
  ℕ, String, Bool, true, false, ◌||◌, Option, none, some, List, [], ◌∷◌, ◌++◌, ◌==◌, nat_beq,
  if◌then◌else◌, length, concat, map,
}
use pondsocket.JsMap.{get, set}
use pondsocket.Protocol.{Result, ok, err, http_error}
use pondsocket.ChannelEngine.State.{ChannelEngine}
use pondsocket.ChannelEngine.Nodes.{new_channel_engine}
use pondsocket.Endpoint.State.{
  PondPath, LobbyEngine, EndpointEngine, Cell, EventHandler, JoinRequest, JoinAct, Script, modify,
  get_elem?,
}

unfoldable pub new_endpoint_engine : String → Option ℕ → ℕ → EndpointEngine
new_endpoint_engine path backend max_message_size = record {
  path = path;
  backend = backend;
  max_message_size = max_message_size;
  engines = [];
  lobbies = [];
  sockets = [];
  next_token = 0;
}

-- `this.#lobbyEngines.has(path)`.
unfoldable pub has_path : String → List LobbyEngine → Bool
has_path key [] = false
has_path key (l ∷ ls) = l.path.key == key || has_path key ls

-- `createChannel` of the endpoint.
unfoldable pub create_channel :
    PondPath
    → (JoinRequest → ChannelEngine → Script JoinAct)
    → EndpointEngine
    → Result EndpointEngine
unfolding has_path
create_channel path handler s = elim path.compile [
  | err x ↦ err x
  | ok _ ↦
      if has_path path.key s.lobbies
      then err (
          http_error 409
            (concat ("GatewayEngine: Channel pattern " ∷ path.key ∷ " is already registered" ∷ [])))
      else ok (record s {
        lobbies =
            s.lobbies
            ++ record {
              path = path;
              handler = handler;
              leave_callback = false;
              middleware = [];
              channels = [];
            }
              ∷ [];
      })
]

-- `onLeave`: the engines of the lobby read its callback when they need it.
unfoldable pub on_leave : ℕ → EndpointEngine → EndpointEngine
on_leave lobby s = record s {
  lobbies = modify lobby (λ l. record l { leave_callback = true }) s.lobbies;
  engines =
      map
        (λ (cell : Cell).
          if nat_beq cell.lobby lobby
          then record cell { engine = record cell.engine { leave_callback = true } }
          else cell)
        s.engines;
}

-- `onEvent`.
unfoldable pub on_event : ℕ → EventHandler → EndpointEngine → Result EndpointEngine
on_event lobby h s = elim h.path.compile [
  | err x ↦ err x
  | ok _ ↦ ok (record s {
    lobbies = modify lobby (λ l. record l { middleware = l.middleware ++ h ∷ [] }) s.lobbies;
  })
]

-- `#createChannel` of the lobby at a place: the new engine takes the next place.
unfoldable pub create_engine :
    (ℕ → ℕ → String) → ℕ → LobbyEngine → String → EndpointEngine → EndpointEngine
unfolding new_channel_engine
create_engine uuids lobby l name s = record s {
  engines =
      s.engines
      ++ record {
        engine =
            new_channel_engine name s.path s.backend l.leave_callback (uuids (length s.engines));
        lobby = lobby;
      }
        ∷ [];
  lobbies =
      modify lobby (λ l. record l { channels = set name (length s.engines) l.channels }) s.lobbies;
}

-- `getOrCreateChannel` of the lobby at a place, with the place of the channel's engine.
unfoldable pub get_or_create_channel :
    (ℕ → ℕ → String) → ℕ → String → EndpointEngine → ℕ × EndpointEngine
unfolding create_engine
get_or_create_channel uuids lobby name s = elim (get_elem? s.lobbies lobby) [
  | none ↦ (length s.engines, s)
  | some l ↦ elim (get name l.channels) [
    | some id ↦ (id, s)
    | none ↦ (length s.engines, create_engine uuids lobby l name s)
  ]
]

-- `getChannel`.
unfoldable pub get_channel : String → LobbyEngine → Result ℕ
get_channel name l = elim (get name l.channels) [
  | some id ↦ ok id
  | none ↦ err (http_error 404 (concat ("Channel " ∷ name ∷ " not found" ∷ [])))
]

-- `#retrieveChannel`: the first lobby whose path fits decides.
unfoldable pub find_channel : String → List LobbyEngine → Result ℕ
unfolding get_channel
find_channel name [] =
    err (http_error 404 (concat ("GatewayEngine: Channel " ∷ name ∷ " does not exist" ∷ [])))
find_channel name (l ∷ ls) = elim (l.path.parse name) [
  | err x ↦ err x
  | ok none ↦ find_channel name ls
  | ok (some _) ↦ get_channel name l
]

unfoldable pub retrieve_channel : String → EndpointEngine → Result ℕ
unfolding find_channel
retrieve_channel name s = find_channel name s.lobbies
