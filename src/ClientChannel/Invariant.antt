-- ===== src/ClientChannel/Invariant.antt =====
-- The invariant of javascript/client/src/core/channel.ts, kept by every step of the machine.
use pondsocket.Prelude.{
  not, ◌||◌, ℕ, zero, suc, ◌≤◌, String, Bool, true, false, List, [], ◌∷◌, ◌≡◌, refl, arith,
  if◌then◌else◌, length, is_empty, is_some, length-append,
}
use pondsocket.Protocol.{PondObject, ChannelEvent}
use pondsocket.Schema.{ClientMessage}
use pondsocket.ClientChannel.{
  Channel, ConnectionState, new_channel, is_joined, is_over, is_closed, awaits_join, acknowledge,
  initialise, is_stale_reply, follow_connection, follow_orphans, send_join_request, end_waiting,
  decline, join, connection_changed, join_timed_out, leave, publish, enqueue, send_for_response,
  response_timed_out, receive, handle_event,
}
use pondsocket.ClientChannel.Machine.{
  Op, join_op, leave_op, acknowledge_op, decline_op, connection_op, join_timer_op, publish_op,
  response_op, response_timer_op, receive_op, step, run,
}

-- The places of a queue: one at least, since the new message always finds room.
unfoldable pub room : ℕ → ℕ
room zero = 1
room (suc n) = suc n

-- The queue has at most its places and holds nothing where it could never be sent; a pending request
-- belongs to a channel that awaits its answer, and its timer is the one that is set. CLOSED is the state of
-- a channel that was left.
pub record IsSound (c : Channel) : Type 0 where
  pub bounded : length c.queue ≤ room c.max_queue_size
  pub over : (not (is_over c.join_state) || is_empty c.queue) ≡ true
  pub live : (not (is_joined c.join_state) || (c.has_left || is_empty c.queue)) ≡ true
  pub awaited : (not (is_some c.pending_join) || awaits_join c.join_state) ≡ true
  pub timed : c.join_timeout ≡ c.pending_join
  pub parted : (not (is_closed c.join_state) || c.has_left) ≡ true

pub new_channel-IsSound :
    (name : String) (params : PondObject) (most : ℕ) (s : ConnectionState)
    → IsSound (new_channel name params most s)
unfolding new_channel room
new_channel-IsSound name params most s = record {
  bounded = ground arith;
  over = refl;
  live = refl;
  awaited = ground arith;
  timed = refl;
  parted = ground arith;
}

pub join-IsSound : (id : String) (c : Channel) → IsSound c → IsSound ((join id c).0)
unfolding join send_join_request
join-IsSound id c h = record {
  bounded = ground arith;
  over = ground arith;
  live = ground arith;
  awaited = ground arith;
  timed = ground arith;
  parted = ground arith;
}

pub send_join_request-IsSound :
    (id : String) (c : Channel)
    → awaits_join c.join_state ≡ true
    → IsSound c
    → IsSound ((send_join_request id c).0)
unfolding send_join_request
send_join_request-IsSound id c k h = record {
  bounded = ground arith;
  over = ground arith;
  live = ground arith;
  awaited = ground arith;
  timed = ground arith;
  parted = ground arith;
}

pub follow_connection-IsSound :
    (id : String) (c : Channel) → IsSound c → IsSound ((follow_connection id c).0)
unfolding follow_connection send_join_request
follow_connection-IsSound id c h = record {
  bounded = ground arith;
  over = ground arith;
  live = ground arith;
  awaited = ground arith;
  timed = ground arith;
  parted = ground arith;
}

pub end_waiting-IsSound : (id : String) (c : Channel) → IsSound c → IsSound ((end_waiting id c).0)
unfolding end_waiting send_join_request
end_waiting-IsSound id c h = record {
  bounded = ground arith;
  over = ground arith;
  live = ground arith;
  awaited = ground arith;
  timed = ground arith;
  parted = ground arith;
}

pub decline-IsSound :
    (payload : PondObject) (id : String) (c : Channel)
    → IsSound c
    → IsSound ((decline payload id c).0)
unfolding decline is_stale_reply
decline-IsSound payload id c h = record {
  bounded = ground arith;
  over = ground arith;
  live = ground arith;
  awaited = ground arith;
  timed = ground arith;
  parted = ground arith;
}

pub join_timed_out-IsSound :
    (id : String) (c : Channel) → IsSound c → IsSound ((join_timed_out id c).0)
unfolding join_timed_out decline is_stale_reply
join_timed_out-IsSound id c h = record {
  bounded = ground arith;
  over = ground arith;
  live = ground arith;
  awaited = ground arith;
  timed = ground arith;
  parted = ground arith;
}

pub leave-IsSound : (id : String) (c : Channel) → IsSound c → IsSound ((leave id c).0)
unfolding leave
leave-IsSound id c h = record {
  bounded = ground arith;
  over = ground arith;
  live = ground arith;
  awaited = ground arith;
  timed = ground arith;
  parted = ground arith;
}

pub acknowledge-IsSound :
    (fresh_id : String) (id : String) (c : Channel)
    → IsSound c
    → IsSound ((acknowledge fresh_id id c).0)
unfolding acknowledge initialise is_stale_reply follow_connection send_join_request
acknowledge-IsSound fresh_id id c h = record {
  bounded = ground arith;
  over = ground arith;
  live = ground arith;
  awaited = ground arith;
  timed = ground arith;
  parted = ground arith;
}

pub handle_event-IsSound :
    (v : ChannelEvent) (c : Channel) → IsSound c → IsSound ((handle_event v c).0)
unfolding handle_event
handle_event-IsSound v c h = record {
  bounded = ground arith;
  over = ground arith;
  live = ground arith;
  awaited = ground arith;
  timed = ground arith;
  parted = ground arith;
}

pub receive-IsSound : (v : ChannelEvent) (c : Channel) → IsSound c → IsSound ((receive v c).0)
unfolding receive handle_event
receive-IsSound v c h = record {
  bounded = ground arith;
  over = ground arith;
  live = ground arith;
  awaited = ground arith;
  timed = ground arith;
  parted = ground arith;
}

pub response_timed_out-IsSound :
    (id : String) (c : Channel) → IsSound c → IsSound ((response_timed_out id c).0)
unfolding response_timed_out
response_timed_out-IsSound id c h = record {
  bounded = ground arith;
  over = ground arith;
  live = ground arith;
  awaited = ground arith;
  timed = ground arith;
  parted = ground arith;
}

enqueue-room :
    (most : ℕ) (m : ClientMessage) (ms : List ClientMessage)
    → length ms ≤ room most
    → length (enqueue most m ms) ≤ room most
unfolding enqueue room
enqueue-room zero m [] h = ground arith
enqueue-room zero m (x ∷ ms) h = ground (arith, length-append ms (m ∷ []))
enqueue-room (suc n) m [] h = ground arith
enqueue-room (suc n) m (x ∷ ms) h = ground (arith, length-append ms (m ∷ []))

publish-IsSound :
    (m : ClientMessage) (c : Channel) → IsSound c → IsSound ((step (publish_op m) c).0)
unfolding step publish
publish-IsSound m c h = record {
  bounded = ground (arith, enqueue-room c.max_queue_size m c.queue h.bounded);
  over = ground arith;
  live = ground arith;
  awaited = ground arith;
  timed = ground arith;
  parted = ground arith;
}

send_for_response-IsSound :
    (m : ClientMessage) (c : Channel) → IsSound c → IsSound ((send_for_response m c).0)
unfolding send_for_response publish
send_for_response-IsSound m c h = record {
  bounded = ground (arith, enqueue-room c.max_queue_size m c.queue h.bounded);
  over = ground arith;
  live = ground arith;
  awaited = ground arith;
  timed = ground arith;
  parted = ground arith;
}

pub follow_orphans-IsSound :
    (n : ℕ) (ids : ℕ → String) (c : Channel) → IsSound c → IsSound ((follow_orphans n ids c).0)
unfolding follow_orphans
follow_orphans-IsSound zero ids c h = h
follow_orphans-IsSound (suc n) ids c h =
    follow_orphans-IsSound n ids ((follow_connection (ids n) c).0)
      (follow_connection-IsSound (ids n) c h)

pub connected-IsSound :
    (s : ConnectionState) (c : Channel) → IsSound c → IsSound (record c { client_state = s })
connected-IsSound s c h = record {
  bounded = h.bounded;
  over = h.over;
  live = h.live;
  awaited = h.awaited;
  timed = h.timed;
  parted = h.parted;
}

pub followed-IsSound :
    (b : Bool) (id : String) (c : Channel)
    → IsSound c
    → IsSound ((if b then follow_connection id c else (c, [])).0)
followed-IsSound true id c h = follow_connection-IsSound id c h
followed-IsSound false id c h = h

pub connection_changed-IsSound :
    (s : ConnectionState) (id : String) (ids : ℕ → String) (c : Channel)
    → IsSound c
    → IsSound ((connection_changed s id ids c).0)
unfolding connection_changed
connection_changed-IsSound s id ids c h = end_waiting-IsSound id _ (
    follow_orphans-IsSound c.orphans ids _
      (followed-IsSound c.is_initialised id _ (connected-IsSound s c h)))

-- Every step of a sound channel leaves it sound: the queue within its places, empty once the channel is
-- over and, unless the channel was left before, while it is joined; a pending request only where the
-- channel awaits a join's answer, with its own timer set.
pub step-IsSound : (o : Op) (c : Channel) → IsSound c → IsSound ((step o c).0)
unfolding step
step-IsSound (join_op id) c h = join-IsSound id c h
step-IsSound (leave_op id) c h = leave-IsSound id c h
step-IsSound (acknowledge_op fresh_id id) c h = acknowledge-IsSound fresh_id id c h
step-IsSound (decline_op payload id) c h = decline-IsSound payload id c h
step-IsSound (connection_op s id ids) c h = connection_changed-IsSound s id ids c h
step-IsSound (join_timer_op id) c h = join_timed_out-IsSound id c h
step-IsSound (publish_op m) c h = publish-IsSound m c h
step-IsSound (response_op m) c h = send_for_response-IsSound m c h
step-IsSound (response_timer_op id) c h = response_timed_out-IsSound id c h
step-IsSound (receive_op v) c h = receive-IsSound v c h

run-IsSound : (os : List Op) (c : Channel) → IsSound c → IsSound ((run os c).0)
unfolding run
run-IsSound [] c h = h
run-IsSound (o ∷ os) c h = run-IsSound os ((step o c).0) (step-IsSound o c h)

-- Whatever calls, answers, events, connection states and timers reach a new channel, and in whatever
-- order, it is sound: its queue has at most the configured places (one if none is configured), a channel
-- that is over holds no message, one that is joined and was not left holds none, a join request is
-- pending only in a channel that awaits its answer, with its own timer set, and only a channel that was
-- left is closed.
pub run-new_channel-IsSound :
    (name : String) (params : PondObject) (most : ℕ) (s : ConnectionState) (os : List Op)
    → IsSound ((run os (new_channel name params most s)).0)
run-new_channel-IsSound name params most s os =
    run-IsSound os (new_channel name params most s) (new_channel-IsSound name params most s)
