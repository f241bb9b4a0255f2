-- ===== src/ClientChannel/Tests.antt =====
-- Runs of a client's channel, at which the theorems apply.
use pondsocket.Prelude.{String, true, List, [], ◌∷◌, ◌++◌, ◌≡◌, refl, map, arith}
use pondsocket.Protocol.{ChannelEvent, ServerActions}
use pondsocket.Schema.{ClientMessage, ClientActions}
use pondsocket.ClientChannel.{
  Channel, joined, disconnected, connected, send, state_change, new_channel, acknowledge, join,
  is_stale_reply,
}
use pondsocket.ClientChannel.Machine.{
  join_op, leave_op, acknowledge_op, connection_op, publish_op, step, run, changes, leads,
}
use pondsocket.ClientChannel.Invariant.{
  IsSound, join-IsSound, new_channel-IsSound, step-IsSound, run-new_channel-IsSound,
}
use pondsocket.ClientChannel.Moves.{step-leads}
use pondsocket.ClientChannel.Queue.{keep_last, acknowledge-sends_queue}

abbrev message : String → ClientMessage
message id = record {
  event = "hi";
  request_id = id;
  channel_name = "/room";
  payload = [];
  action = ClientActions.broadcast;
}

abbrev event : ChannelEvent
event = record {
  action = ServerActions.broadcast;
  event = "hi";
  payload = [];
  channel_name = "/room";
  request_id = "e1";
}

abbrev fresh : Channel
fresh = new_channel "/room" [] 2 connected

abbrev waiting : Channel
waiting = (join "j1" fresh).0

abbrev messages : List ClientMessage
messages = message "m1" ∷ message "m2" ∷ message "m3" ∷ []

run-new_channel-IsSound_example : IsSound (
    (run
      (join_op "j1"
        ∷ publish_op (message "m1")
        ∷ connection_op connected "j2" (λ n. "j3")
        ∷ acknowledge_op "j4" "j2"
        ∷ connection_op disconnected "j5" (λ n. "j6")
        ∷ leave_op "l1"
        ∷ [])
      (new_channel "/room" [] 2 disconnected)).0)
run-new_channel-IsSound_example = run-new_channel-IsSound "/room" [] 2 disconnected (
    join_op "j1"
    ∷ publish_op (message "m1")
    ∷ connection_op connected "j2" (λ n. "j3")
    ∷ acknowledge_op "j4" "j2"
    ∷ connection_op disconnected "j5" (λ n. "j6")
    ∷ leave_op "l1"
    ∷ [])

step-IsSound_example : IsSound ((step (acknowledge_op "j2" "j1") waiting).0)
step-IsSound_example =
    step-IsSound (acknowledge_op "j2" "j1") waiting
      (join-IsSound "j1" fresh (new_channel-IsSound "/room" [] 2 connected))

step-leads_example :
    leads waiting.join_state
      (changes ((step (acknowledge_op "j2" "j1") waiting).1))
      ((step (acknowledge_op "j2" "j1") waiting).0.join_state)
    ≡ true
unfolding join new_channel
step-leads_example =
    step-leads (acknowledge_op "j2" "j1") waiting refl
      (join-IsSound "j1" fresh (new_channel-IsSound "/room" [] 2 connected))

acknowledge-sends_queue_example :
    let d = (run (map publish_op messages) waiting).0 in
    let r = acknowledge "j2" "j1" d in
    (r.1
      ≡ state_change joined
        ∷ map send (keep_last waiting.max_queue_size (waiting.queue ++ messages)))
    × ((r.0.queue ≡ []) × (r.0.join_state ≡ joined))
unfolding join new_channel is_stale_reply
acknowledge-sends_queue_example =
    acknowledge-sends_queue "j2" "j1" messages waiting refl refl refl refl (omega arith)
      (omega arith)
