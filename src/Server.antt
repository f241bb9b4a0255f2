-- ===== src/Server.antt =====
-- javascript/core/src/server/server.ts: the life of a server, its heartbeat, and the cookies of a request. The HTTP
-- server and the WebSocket server are what they are told and what they report.
pub mod Cookies
pub mod Trimming
pub mod CookieLaws
pub mod Heartbeat
pub mod Life
mod Tests
use pondsocket.Prelude.{
  ℕ, String, Bool, true, false, not, ◌&&◌, Option, none, some, List, [], ◌∷◌, ◌++◌, map, is_some,
  if◌then◌else◌, ◌==◌,
}
use pondsocket.JsMap.{JsMap, set, delete}
use pondsocket.Protocol.{Error, Result, ok, err}

-- `readyState`.
pub data ReadyState : Type 0 where
  opened closing shut : ReadyState

-- A socket of the WebSocket server's `clients`. `is_alive` is undefined at first; `is_terminated` tells whether
-- `terminate` was called.
pub record ServerSocket : Type 0 where
  pub is_alive : Option Bool
  pub ready_state : ReadyState
  pub is_terminated : Bool

abbrev pub new_socket : ServerSocket
new_socket = record { is_alive = none; ready_state = opened; is_terminated = false }

-- What the server does to the outside.
pub data Effect : Type 0 where
  ping close_socket terminate_socket : String → Effect
  initialize_backend cleanup_backend : Effect
  close_socket_server close_http_server : Effect

-- The timer and the promises are flags: whether the server holds them. `is_listening` is the HTTP server's.
pub record PondSocket : Type 0 where
  pub backend : Option ℕ
  pub close_http_server_on_shutdown : Bool
  pub heartbeat_timer : Bool
  pub upgrade_listener : Bool
  pub is_listening : Bool
  pub backend_error : Option Error
  pub server_error : Option Error
  pub is_shutting_down : Bool
  pub clients : JsMap ServerSocket

-- The constructor, with `#init`.
unfoldable pub new_pond_socket : Option ℕ → Bool → PondSocket × List Effect
new_pond_socket backend close_http = (
  record {
    backend = backend;
    close_http_server_on_shutdown = close_http;
    heartbeat_timer = true;
    upgrade_listener = true;
    is_listening = false;
    backend_error = none;
    server_error = none;
    is_shutting_down = false;
    clients = [];
  },
  if is_some backend then initialize_backend ∷ [] else [],
)

-- A change of every value of a map.
abbrev pub map_values : {V : Type 0} → (V → V) → JsMap V → JsMap V
map_values f [] = []
map_values f ((k, v) ∷ m) = (k, f v) ∷ map_values f m

abbrev pub modify_value : {V : Type 0} → String → (V → V) → JsMap V → JsMap V
modify_value id f [] = []
modify_value id f ((k, v) ∷ m) =
    let rest = modify_value id f m in if k == id then (k, f v) ∷ rest else (k, v) ∷ rest

-- The listener of a socket's pongs.
unfoldable pub pong : String → JsMap ServerSocket → JsMap ServerSocket
pong id m = modify_value id (λ k. record k { is_alive = some true }) m

-- `socket.isAlive === false`.
abbrev pub is_silent : ServerSocket → Bool
is_silent k = elim k.is_alive [ none ↦ false | some b ↦ not b ]

-- What the heartbeat's timer does to one socket.
unfoldable pub beat_socket : ServerSocket → ServerSocket
beat_socket k =
    if is_silent k then record k { is_terminated = true } else record k { is_alive = some false }

unfoldable pub beat_effects : JsMap ServerSocket → List Effect
beat_effects [] = []
beat_effects ((id, k) ∷ m) = (if is_silent k then terminate_socket id else ping id) ∷ beat_effects m

unfoldable pub beat : JsMap ServerSocket → JsMap ServerSocket × List Effect
unfolding beat_socket beat_effects
beat m = (map_values beat_socket m, beat_effects m)

-- `isHealthy`.
unfoldable pub is_healthy : PondSocket → Bool
is_healthy s =
    not (is_some s.backend_error) && not (is_some s.server_error) && not s.is_shutting_down

-- `ready`, once the backend's promise is settled.
unfoldable pub ready : PondSocket → Result (Unit {0})
ready s = elim s.backend_error [ none ↦ ok tt | some x ↦ err x ]

abbrev is_open : ServerSocket → Bool
is_open k = elim k.ready_state [ opened ↦ true | closing ↦ false | shut ↦ false ]

abbrev is_shut : ServerSocket → Bool
is_shut k = elim k.ready_state [ opened ↦ false | closing ↦ false | shut ↦ true ]

-- `socket.close(1001, …)` on the open sockets.
unfoldable pub close_open : JsMap ServerSocket → JsMap ServerSocket × List Effect
close_open [] = ([], [])
close_open ((id, k) ∷ m) =
    let (rest, es) = close_open m in
    if is_open k
    then ((id, record k { ready_state = closing }) ∷ rest, close_socket id ∷ es)
    else ((id, k) ∷ rest, es)

-- `closeAsync`, up to the first wait of `#shutdown`; a second call only gives the promise of the first.
unfoldable pub close_async : PondSocket → PondSocket × List Effect
unfolding close_open
close_async s =
    let (closed, es) = close_open s.clients in
    if s.is_shutting_down then (s, []) else (
      record s {
        is_shutting_down = true;
        heartbeat_timer = false;
        upgrade_listener = false;
        clients = closed;
      },
      es
          ++ close_socket_server
            ∷ (if s.close_http_server_on_shutdown && s.is_listening
                then close_http_server ∷ []
                else []),
    )

-- The backend's promise is settled while the server shuts down.
unfoldable pub backend_settled : PondSocket → List Effect
backend_settled s = if is_some s.backend && s.is_shutting_down then cleanup_backend ∷ [] else []

-- The timer of `#shutdown`: every socket that is not closed is terminated.
unfoldable pub force_close : JsMap ServerSocket → JsMap ServerSocket × List Effect
force_close [] = ([], [])
force_close ((id, k) ∷ m) =
    let (rest, es) = force_close m in
    if is_shut k
    then ((id, k) ∷ rest, es)
    else ((id, record k { is_terminated = true }) ∷ rest, terminate_socket id ∷ es)

-- What the servers and the backend report, the timers, and the calls of the application.
pub data Occurrence : Type 0 where
  connected ponged gone : String → Occurrence
  heartbeat listening http_closed close_called close_timeout settled : Occurrence
  failed backend_failed : Error → Occurrence

unfoldable pub step : Occurrence → PondSocket → PondSocket × List Effect
unfolding pong beat close_async backend_settled force_close
step (connected id) s = (record s { clients = set id new_socket s.clients }, [])
step (ponged id) s = (record s { clients = pong id s.clients }, [])
step (gone id) s = (record s { clients = delete id s.clients }, [])
step heartbeat s =
    let (m, es) = beat s.clients in
    if s.heartbeat_timer then (record s { clients = m }, es) else (s, [])
step listening s = (record s { is_listening = true }, [])
step http_closed s = (record s { heartbeat_timer = false; is_listening = false }, [])
step close_called s = close_async s
step close_timeout s =
    let (m, es) = force_close s.clients in
    if s.is_shutting_down then (record s { clients = m }, es) else (s, [])
step settled s = (s, backend_settled s)
step (failed x) s = (record s { server_error = some x; heartbeat_timer = false }, [])
step (backend_failed x) s = (record s { backend_error = some x }, [])

unfoldable pub run : List Occurrence → PondSocket → PondSocket × List Effect
unfolding step
run [] s = (s, [])
run (o ∷ os) s = let (t, es) = step o s in let (u, fs) = run os t in (u, es ++ fs)
