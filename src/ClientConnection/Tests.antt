-- ===== src/ClientConnection/Tests.antt =====
-- Runs of a client's connection, at which the theorems apply.
use pondsocket.Prelude.{true, false, none, some, List, [], ◌∷◌, ◌≡◌, refl, min, ◌≤◌}
use pondsocket.JsMap.{get}
use pondsocket.Protocol.{http_error, str, num}
use pondsocket.ChannelEngine.State.{ChannelEngine}
use pondsocket.ChannelEngine.Nodes.{new_channel_engine}
use pondsocket.Endpoint.Joining.{build_error}
use pondsocket.ClientChannel.{disconnected, connecting, idle}
use pondsocket.ClientConnection.{
  Client, decline_channel, publish_event, new_client, reconnect_delay,
}
use pondsocket.ClientConnection.Dispatch.{broadcast_all}
use pondsocket.ClientConnection.Sockets.{closed, disconnect, reconnect_timed_out}
use pondsocket.ClientConnection.Runs.{
  Op, connect_op, disconnect_op, reconnect_timer_op, create_op, opened_op, closed_op, run, is_calm,
  run-new_client-is_calm,
}
use pondsocket.ClientConnection.Reconnects.{
  opens, reconnect_delay-bounds, closed-reconnects, run-disconnect-opens,
}
use pondsocket.ClientConnection.Replies.{broadcast_all-build_error}

-- A client that is connecting, with one channel.
abbrev client : Client
client = record (new_client 10000 30000 0) {
  socket = some 0;
  next_socket = 1;
  channels = ("room", 7) ∷ [];
  connection_state = connecting;
}

abbrev ops : List Op
ops =
    connect_op
    ∷ create_op (λ n. idle) "room" [] none
    ∷ opened_op 0 5
    ∷ closed_op 0
    ∷ reconnect_timer_op
    ∷ disconnect_op
    ∷ []

run-new_client-is_calm_example : is_calm (run ops (new_client 10000 30000 0)).0 ≡ true
run-new_client-is_calm_example = run-new_client-is_calm 10000 30000 0 ops

reconnect_delay-bounds_example :
    (reconnect_delay 30000 4 ≤ 30000)
    × (reconnect_delay 30000 4 ≤ reconnect_delay 30000 5)
    × (reconnect_delay 30000 0 ≡ min 1000 30000)
reconnect_delay-bounds_example = reconnect_delay-bounds 30000 4

closed-reconnects_example :
    let d = (closed 0 client).0 in
    (d.connection_state ≡ disconnected)
    × (d.reconnect_timer ≡ some (reconnect_delay 30000 0))
    × ((reconnect_timed_out d).0.connection_state ≡ connecting)
    × ((reconnect_timed_out d).0.socket ≡ some 1)
unfolding new_client
closed-reconnects_example = closed-reconnects 0 client refl refl

run-disconnect-opens_example :
    opens (run (closed_op 0 ∷ reconnect_timer_op ∷ []) (disconnect client).0).1 ≡ false
run-disconnect-opens_example =
    run-disconnect-opens client (closed_op 0 ∷ reconnect_timer_op ∷ []) refl

broadcast_all-build_error_example :
    broadcast_all (build_error (http_error 404 "gone") "CHANNEL_NOT_FOUND" "room" "r1" ∷ []) client
    ≡ (
      client,
      decline_channel 7
            (record {
              code = "CHANNEL_NOT_FOUND";
              message = str "gone";
              status = num 404;
              details = none;
            })
            "r1"
          ∷ publish_event (build_error (http_error 404 "gone") "CHANNEL_NOT_FOUND" "room" "r1")
          ∷ [],
    )
unfolding get
broadcast_all-build_error_example =
    broadcast_all-build_error (http_error 404 "gone") "CHANNEL_NOT_FOUND" "room" "r1" 7 client refl
      refl

abbrev room : ChannelEngine
room = new_channel_engine "room" "/api" none false (λ n. "id")
