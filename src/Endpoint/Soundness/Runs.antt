-- ===== src/Endpoint/Soundness/Runs.antt =====
-- Runs of an endpoint: what its application and its clients do, in any order.
use pondsocket.Prelude.{ℕ, String, List, [], ◌∷◌}
use pondsocket.Protocol.{PondObject, Result, ok, err}
use pondsocket.ChannelEngine.State.{ChannelEngine}
use pondsocket.Endpoint.State.{PondPath, JoinRequest, JoinAct, Script, EventHandler, EndpointEngine}
use pondsocket.Endpoint.Lobby.{create_channel, on_leave, on_event}
use pondsocket.Endpoint.Sockets.{manage_socket, handle_socket_close, Frame, read_message}
use pondsocket.Endpoint.State

-- What reaches an endpoint: the application registers a channel, a leave callback or an event's handler; a client
-- connects, sends a message, or its socket closes.
pub data Occurrence : Type 0 where
  channel_registered : PondPath → (JoinRequest → ChannelEngine → Script JoinAct) → Occurrence
  leave_registered : ℕ → Occurrence
  event_registered : ℕ → EventHandler → Occurrence
  connected : String → String → PondObject → Occurrence
  received : String → String → String → String → Frame → Occurrence
  socket_closed : String → Occurrence

-- A registration that throws leaves the endpoint as it was.
abbrev pub unless_err : EndpointEngine → Result EndpointEngine → EndpointEngine
unless_err s (err x) = s
unless_err s (ok t) = t

unfoldable pub occur : (ℕ → ℕ → String) → Occurrence → EndpointEngine → EndpointEngine
occur uuids (channel_registered path handler) s = unless_err s (create_channel path handler s)
occur uuids (leave_registered lobby) s = on_leave lobby s
occur uuids (event_registered lobby h) s = unless_err s (on_event lobby h s)
occur uuids (connected request_id client assigns) s = (manage_socket request_id client assigns s).0
occur uuids (received limit_text refusal fresh_id client f) s =
    (read_message uuids limit_text refusal fresh_id client f s).0
occur uuids (socket_closed client) s = (handle_socket_close client s).0

unfoldable pub run : (ℕ → ℕ → String) → List Occurrence → EndpointEngine → EndpointEngine
unfolding occur
run uuids [] s = s
run uuids (o ∷ os) s = run uuids os (occur uuids o s)
