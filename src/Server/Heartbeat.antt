-- ===== src/Server/Heartbeat.antt =====
-- When the heartbeat ends a connection.
use pondsocket.Prelude.{
  String, Bool, true, false, not, ◌||◌, Option, none, some, List, [], ◌∷◌, ◌≡◌, refl, ap, ◌∙◌,
  arith, ◌==◌, eq_iff, if◌then◌else◌, subst,
}
use pondsocket.JsMap.{JsMap, get}
use pondsocket.JsMap.Laws.{get-set, get-delete}
use pondsocket.Server.{
  ServerSocket, PondSocket, map_values, modify_value, beat, beat_socket, pong, is_silent,
  Occurrence, connected, ponged, gone, heartbeat, listening, http_closed, close_called,
  close_timeout, settled, failed, backend_failed, step, run,
}

abbrev mapped : {V : Type 0} → (V → V) → Option V → Option V
mapped f none = none
mapped f (some v) = some (f v)

get-map_values :
    {V : Type 0} (id : String) (f : V → V) (m : JsMap V)
    → get id (map_values f m) ≡ mapped f (get id m)
unfolding get
get-map_values id f [] = refl
get-map_values id f ((k, v) ∷ m) = ground (arith, get-map_values id f m)

get-modify_value :
    {V : Type 0} (id who : String) (f : V → V) (m : JsMap V)
    → get id (modify_value who f m) ≡ (if who == id then mapped f (get id m) else get id m)
unfolding get
get-modify_value id who f [] = ground arith
get-modify_value id who f ((k, v) ∷ m) =
    ground (arith, get-modify_value id who f m, eq_iff k who, eq_iff k id, eq_iff who id)

-- What may happen to other sockets, and pongs: nothing that ends the connection or the server.
abbrev pub IsQuiet : String → Occurrence → Type 0
IsQuiet id (connected who) = (who == id) ≡ false
IsQuiet id (gone who) = (who == id) ≡ false
IsQuiet id (ponged who) = Unit {0}
IsQuiet id listening = Unit {0}
IsQuiet id settled = Unit {0}
IsQuiet id (backend_failed x) = Unit {0}
IsQuiet id heartbeat = ⊥
IsQuiet id http_closed = ⊥
IsQuiet id close_called = ⊥
IsQuiet id close_timeout = ⊥
IsQuiet id (failed x) = ⊥

abbrev pub AreQuiet : String → List Occurrence → Type 0
AreQuiet id [] = Unit {0}
AreQuiet id (o ∷ os) = IsQuiet id o × AreQuiet id os

-- Some pong of the socket is among the occurrences.
abbrev pub is_pong : String → Occurrence → Bool
is_pong id (ponged who) = who == id
is_pong id _ = false

abbrev pub pongs : String → List Occurrence → Bool
pongs id [] = false
pongs id (o ∷ os) = is_pong id o || pongs id os

-- A socket that is there, with whether it has answered.
abbrev Watched : String → ServerSocket → Bool → PondSocket → Type 0
Watched id k b s =
    (get id s.clients ≡ some (record k { is_alive = some b })) × (s.heartbeat_timer ≡ true)

module _ (id : String) (k : ServerSocket) where
  step-Watched :
      (o : Occurrence) (s : PondSocket) (b : Bool)
      → IsQuiet id o
      → Watched id k b s
      → Watched id k (is_pong id o || b) (step o s).0
  unfolding step pong
  step-Watched (connected who) s b q (e, t) = (get-set id who _ s.clients ∙ ground (arith, e, q), t)
  step-Watched (gone who) s b q (e, t) = (get-delete id who s.clients ∙ ground (arith, e, q), t)
  step-Watched (ponged who) s b q (e, t) =
      (get-modify_value id who _ s.clients ∙ ponged_case (who == id), t)
    where
      ponged_case :
          (same : Bool)
          → (if same
              then mapped
                  (λ (v : ServerSocket). record v { is_alive = some true })
                  (get id s.clients)
              else get id s.clients)
            ≡ some (record k { is_alive = some (same || b) })
      ponged_case true = rw (e) refl
      ponged_case false = e
  step-Watched listening s b q w = w
  step-Watched settled s b q w = w
  step-Watched (backend_failed x) s b q w = w
  step-Watched heartbeat s b q w = absurd q
  step-Watched http_closed s b q w = absurd q
  step-Watched close_called s b q w = absurd q
  step-Watched close_timeout s b q w = absurd q
  step-Watched (failed x) s b q w = absurd q

  run-Watched :
      (os : List Occurrence) (s : PondSocket) (b : Bool)
      → AreQuiet id os
      → Watched id k b s
      → Watched id k (pongs id os || b) (run os s).0
  unfolding run
  run-Watched [] s b q w = w
  run-Watched (o ∷ os) s b (q, qs) w =
      subst (λ c. Watched id k c (run os (step o s).0).0) (ground arith)
        (run-Watched os (step o s).0 (is_pong id o || b) qs (step-Watched o s b q w))

  beat_socket-live : is_silent k ≡ false → beat_socket k ≡ record k { is_alive = some false }
  unfolding beat_socket
  beat_socket-live h = rw (h) refl

  beat_socket-watched :
      (b : Bool)
      → beat_socket (record k { is_alive = some b })
        ≡ record k { is_alive = some false; is_terminated = k.is_terminated || not b }
  unfolding beat_socket
  beat_socket-watched true =
      ap (λ t. record k { is_alive = some false; is_terminated = t }) (ground arith)
  beat_socket-watched false =
      ap (λ t. record k { is_alive = some false; is_terminated = t }) (ground arith)

  beat-get :
      (s : PondSocket) (v : ServerSocket)
      → s.heartbeat_timer ≡ true
      → get id s.clients ≡ some v
      → get id (step heartbeat s).0.clients ≡ some (beat_socket v)
  unfolding step beat
  beat-get s v t e = rw (t) (get-map_values id beat_socket s.clients ∙ rw (e) refl)

  beat-timer : (s : PondSocket) → (step heartbeat s).0.heartbeat_timer ≡ s.heartbeat_timer
  unfolding step
  beat-timer s = ground arith

  first_beat :
      (s : PondSocket)
      → s.heartbeat_timer ≡ true
      → get id s.clients ≡ some k
      → is_silent k ≡ false
      → Watched id k false (step heartbeat s).0
  first_beat s t e h = (beat-get s k t e ∙ ap some (beat_socket-live h), beat-timer s ∙ t)

  second_beat :
      (s : PondSocket) (b : Bool)
      → Watched id k b s
      → get id (step heartbeat s).0.clients
        ≡ some (record k { is_alive = some false; is_terminated = k.is_terminated || not b })
  second_beat s b (e, t) =
      beat-get s (record k { is_alive = some b }) t e ∙ ap some (beat_socket-watched b)

  -- Of a socket that is not silent at one heartbeat, the next one ends the connection if no pong of it came between
  -- them, and else keeps it, whatever the other sockets did, while the server goes on and the socket
  -- stays.
  pub heartbeat-heartbeat :
      (s : PondSocket) (os : List Occurrence)
      → s.heartbeat_timer ≡ true
      → get id s.clients ≡ some k
      → is_silent k ≡ false
      → AreQuiet id os
      → get id (step heartbeat (run os (step heartbeat s).0).0).0.clients
        ≡ some (record k {
          is_alive = some false;
          is_terminated = k.is_terminated || not (pongs id os);
        })
  heartbeat-heartbeat s os t e h q = second_beat (run os (step heartbeat s).0).0 (pongs id os) (
      subst (λ b. Watched id k b (run os (step heartbeat s).0).0) (ground arith)
        (run-Watched os (step heartbeat s).0 false q (first_beat s t e h)))
