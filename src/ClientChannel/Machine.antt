-- ===== src/ClientChannel/Machine.antt =====
-- javascript/client/src/core/channel.ts as a machine: its operations, one step, a run, and the moves
-- between its states that a step makes.
use pondsocket.Prelude.{ℕ, String, Bool, true, false, List, [], ◌∷◌, ◌++◌, nat_beq, ◌&&◌}
use pondsocket.Protocol.{PondObject, ChannelEvent, ok, err}
use pondsocket.Schema.{ClientMessage}
use pondsocket.ClientChannel.{
  Channel, ChannelState, idle, joining, joined, stalled, closed, declined, ConnectionState, Effect,
  state_change, threw, acknowledge, decline, join, connection_changed, join_timed_out, leave,
  publish, send_for_response, response_timed_out, receive,
}

-- The calls that reach a channel: those of the application, the client's answers, events and connection
-- states, and its timers. A drawn `uuid()` is an argument.
pub data Op : Type 0 where
  join_op : String → Op
  leave_op : String → Op
  acknowledge_op : String → String → Op
  decline_op : PondObject → String → Op
  connection_op : ConnectionState → String → (ℕ → String) → Op
  join_timer_op : String → Op
  publish_op : ClientMessage → Op
  response_op : ClientMessage → Op
  response_timer_op : String → Op
  receive_op : ChannelEvent → Op

unfoldable pub step : Op → Channel → Channel × List Effect
unfolding acknowledge decline join connection_changed join_timed_out leave publish send_for_response
step (join_op id) c = join id c
step (leave_op id) c = leave id c
step (acknowledge_op fresh_id id) c = acknowledge fresh_id id c
step (decline_op payload id) c = decline payload id c
step (connection_op s id ids) c = connection_changed s id ids c
step (join_timer_op id) c = join_timed_out id c
step (publish_op m) c = elim (publish m c) [ ok r ↦ r | err e ↦ (c, threw e ∷ []) ]
step (response_op m) c = send_for_response m c
step (response_timer_op id) c = response_timed_out id c
step (receive_op v) c = receive v c

unfoldable pub run : List Op → Channel → Channel × List Effect
unfolding step
run [] c = (c, [])
run (o ∷ os) c = let (d, es) = step o c in let (e, fs) = run os d in (e, es ++ fs)

-- The states that the effects tell of, in order.
unfoldable pub changes : List Effect → List ChannelState
changes [] = []
changes (state_change s ∷ es) = s ∷ changes es
changes (_ ∷ es) = changes es

-- A single change of a channel's state.
unfoldable pub may_move : ChannelState → ChannelState → Bool
may_move idle joining = true
may_move stalled joining = true
may_move declined joining = true
may_move joining joined = true
may_move stalled joined = true
may_move joining declined = true
may_move stalled declined = true
may_move joined stalled = true
may_move _ closed = true
may_move _ _ = false

abbrev pub rank : ChannelState → ℕ
rank idle = 0
rank joining = 1
rank joined = 2
rank stalled = 3
rank closed = 4
rank declined = 5

-- The states told of lead from the first to the last, each by a move.
unfoldable pub leads : ChannelState → List ChannelState → ChannelState → Bool
unfolding may_move
leads s [] u = nat_beq (rank s) (rank u)
leads s (t ∷ ts) u = may_move s t && leads t ts u
