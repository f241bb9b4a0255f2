-- ===== src/Server/Tests.antt =====
-- Runs of the server, at which the theorems apply.
use pondsocket.Prelude.{true, false, not, ◌||◌, some, [], ◌∷◌, ◌≡◌, refl, map}
use pondsocket.JsMap.{get, set}
use pondsocket.Server.{
  PondSocket, new_pond_socket, new_socket, connected, ponged, heartbeat, close_called, settled,
  close_timeout, step, run, is_healthy,
}
use pondsocket.Server.Heartbeat.{pongs, heartbeat-heartbeat}
use pondsocket.Server.Life.{has_live, run-close_async}
use pondsocket.Server.Cookies.{get_cookies, is_space}
use pondsocket.Server.CookieLaws.{Cookie, field_of, last_value, get_cookies-pairs}
use pondsocket.Route.Texts.{codes}
use pondsocket.Route.Percent.{is_scalar, encode_uri_component}

abbrev first : PondSocket
first = (new_pond_socket (some 1) true).0

abbrev two : PondSocket
two = (run (connected "ann" ∷ connected "bob" ∷ []) first).0

heartbeat-heartbeat_example :
    get "ann" (step heartbeat (run (ponged "bob" ∷ []) (step heartbeat two).0).0).0.clients
    ≡ some (record new_socket {
      is_alive = some false;
      is_terminated = false || not (pongs "ann" (ponged "bob" ∷ []));
    })
unfolding run new_pond_socket get set
heartbeat-heartbeat_example =
    heartbeat-heartbeat "ann" new_socket two (ponged "bob" ∷ []) refl refl refl (tt, tt)

run-close_async_example :
    let (t, es) =
      run (heartbeat ∷ close_called ∷ close_timeout ∷ settled ∷ []) (step close_called two).0 in
    (is_healthy t ≡ false)
    × (t.heartbeat_timer ≡ false)
    × (t.upgrade_listener ≡ false)
    × (has_live es ≡ false)
unfolding run new_pond_socket
run-close_async_example =
    run-close_async two (heartbeat ∷ close_called ∷ close_timeout ∷ settled ∷ []) refl

abbrev session : Cookie
session = (0, codes "sid", "a b;c")

abbrev theme : Cookie
theme = (1, codes "theme", "dark")

get_cookies-pairs_example :
    get "sid" (get_cookies (some "sid=a%20b%3Bc; theme=dark"))
    ≡ last_value "sid" (map field_of (session ∷ theme ∷ []))
unfolding is_scalar is_space encode_uri_component
get_cookies-pairs_example =
    get_cookies-pairs "sid=a%20b%3Bc; theme=dark" "sid" session (theme ∷ []) refl refl
