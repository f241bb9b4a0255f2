-- ===== src/Server/Life.antt =====
-- The end of a server.
use pondsocket.Prelude.{
  Bool, true, false, not, ◌&&◌, ◌||◌, List, [], ◌∷◌, ◌++◌, ◌≡◌, refl, ◌∙◌, arith,
}
use pondsocket.JsMap.{JsMap}
use pondsocket.Server.{
  PondSocket, Effect, ServerSocket, force_close, backend_settled, ping, close_socket,
  terminate_socket, initialize_backend, cleanup_backend, close_socket_server, close_http_server,
  Occurrence, connected, ponged, gone, heartbeat, listening, http_closed, close_called,
  close_timeout, settled, failed, backend_failed, step, run, is_healthy, close_async,
}

abbrev ending : PondSocket → Bool
ending s = s.is_shutting_down && not s.heartbeat_timer && not s.upgrade_listener

step-ending : (o : Occurrence) (s : PondSocket) → ending s ≡ true → ending (step o s).0 ≡ true
unfolding step close_async
step-ending (connected id) s h = h
step-ending (ponged id) s h = h
step-ending (gone id) s h = h
step-ending heartbeat s h = ground arith
step-ending listening s h = h
step-ending http_closed s h = ground arith
step-ending close_called s h = ground arith
step-ending close_timeout s h = ground arith
step-ending settled s h = h
step-ending (failed x) s h = ground arith
step-ending (backend_failed x) s h = h

-- What a server does that is not ending yet.
abbrev pub is_live : Effect → Bool
is_live (ping id) = true
is_live (close_socket id) = true
is_live (terminate_socket id) = false
is_live initialize_backend = true
is_live cleanup_backend = false
is_live close_socket_server = true
is_live close_http_server = true

abbrev pub has_live : List Effect → Bool
has_live [] = false
has_live (e ∷ es) = is_live e || has_live es

has_live-append : (es fs : List Effect) → has_live (es ++ fs) ≡ (has_live es || has_live fs)
has_live-append [] fs = refl
has_live-append (e ∷ es) fs = ground (arith, has_live-append es fs)

has_live-force_close : (m : JsMap ServerSocket) → has_live (force_close m).1 ≡ false
unfolding force_close
has_live-force_close [] = refl
has_live-force_close ((id, k) ∷ m) = ground (arith, has_live-force_close m)

has_live-step : (o : Occurrence) (s : PondSocket) → ending s ≡ true → has_live (step o s).1 ≡ false
unfolding step close_async backend_settled
has_live-step (connected id) s h = refl
has_live-step (ponged id) s h = refl
has_live-step (gone id) s h = refl
has_live-step heartbeat s h = ground arith
has_live-step listening s h = refl
has_live-step http_closed s h = refl
has_live-step close_called s h = ground arith
has_live-step close_timeout s h = ground (arith, has_live-force_close s.clients)
has_live-step settled s h = ground arith
has_live-step (failed x) s h = refl
has_live-step (backend_failed x) s h = refl

run-ending :
    (os : List Occurrence) (s : PondSocket)
    → ending s ≡ true
    → (ending (run os s).0 ≡ true) × (has_live (run os s).1 ≡ false)
unfolding run
run-ending [] s h = (h, refl)
run-ending (o ∷ os) s h =
    let (still, quiet) = run-ending os (step o s).0 (step-ending o s h) in
    (
      still,
      has_live-append (step o s).1 (run os (step o s).0).1 ∙ ground (arith, has_live-step o s h),
    )

close_async-ending :
    (s : PondSocket) → s.is_shutting_down ≡ false → ending (step close_called s).0 ≡ true
unfolding step close_async
close_async-ending s h = ground arith

-- After the first `close` or `closeAsync`, whatever is reported or called, the server is not healthy, has no
-- heartbeat and listens to no upgrade; it pings nobody, and closes neither a socket nor a server again: it
-- only terminates sockets and cleans up the backend.
pub run-close_async :
    (s : PondSocket) (os : List Occurrence)
    → s.is_shutting_down ≡ false
    → let (t, es) = run os (step close_called s).0 in
      (is_healthy t ≡ false)
      × (t.heartbeat_timer ≡ false)
      × (t.upgrade_listener ≡ false)
      × (has_live es ≡ false)
unfolding is_healthy
run-close_async s os h =
    let (still, quiet) = run-ending os (step close_called s).0 (close_async-ending s h) in
    (ground arith, ground arith, ground arith, quiet)
