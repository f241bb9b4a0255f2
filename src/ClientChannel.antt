-- ===== src/ClientChannel.antt =====
-- javascript/client/src/core/channel.ts: the client's side of a channel. A drawn `uuid()` is an argument,
-- as is an event's name after `buildPondRoute`. A promise of `sendForResponse` is known by its request
-- id. Observers of the channel's own subjects are application code: what they are told is an effect.
pub mod Machine
pub mod Moves
pub mod Queue
pub mod Invariant
pub mod Rejoin
mod Tests
use pondsocket.Prelude.{
  ℕ, zero, suc, String, Bool, true, false, not, ◌&&◌, ◌||◌, Option, none, some, List, [], ◌∷◌, ◌++◌,
  ◌==◌, if◌then◌else◌, length, leb, map, includes, concat,
}
use pondsocket.JsMap.{add, remove, get}
use pondsocket.Protocol.{
  PondObject, Json, str, num, array, ChannelEvent, ServerActions, Result, ok, err, Error,
  plain_error,
}
use pondsocket.Schema.{ClientMessage, ClientActions, join_channel, leave_channel}

pub data ChannelState : Type 0 where
  idle joining joined stalled closed declined : ChannelState

pub data ConnectionState : Type 0 where
  disconnected connecting connected : ConnectionState

-- What the channel does: it hands a message to the publisher, publishes on its state, error and message
-- subjects, settles the promise of a response, and throws, which is then its last effect.
pub data Effect : Type 0 where
  send : ClientMessage → Effect
  state_change : ChannelState → Effect
  error_event : PondObject → Effect
  receive_event : ChannelEvent → Effect
  resolve_response : String → PondObject → Effect
  reject_response : String → Effect
  threw : Error → Effect

-- `client_state` is the value of the client's subject. `is_initialised` tells whether the subscriptions that
-- `#presenceSub` ends are alive, `is_waiting` whether that of `join` is; `has_left` that `leave` has closed
-- the channel's subjects. `orphans` counts the client-state subscriptions of an `#init` that threw, which
-- nothing ends. A timer is known by the request that it was set for. `presence` may be missing in an event.
pub record Channel : Type 0 where
  pub name : String
  pub join_params : PondObject
  pub max_queue_size : ℕ
  pub queue : List ClientMessage
  pub presence : Option Json
  pub client_state : ConnectionState
  pub join_state : ChannelState
  pub join_timeout : Option String
  pub pending_join : Option String
  pub last_error : Option PondObject
  pub is_waiting : Bool
  pub is_initialised : Bool
  pub orphans : ℕ
  pub has_left : Bool
  pub pending_responses : List String

unfoldable pub new_channel : String → PondObject → ℕ → ConnectionState → Channel
new_channel name join_params max_queue_size client_state = record {
  name = name;
  join_params = join_params;
  max_queue_size = max_queue_size;
  queue = [];
  presence = some (array []);
  client_state = client_state;
  join_state = idle;
  join_timeout = none;
  pending_join = none;
  last_error = none;
  is_waiting = false;
  is_initialised = false;
  orphans = 0;
  has_left = false;
  pending_responses = [];
}

abbrev pub is_joined : ChannelState → Bool
is_joined joined = true
is_joined _ = false

abbrev pub is_joining : ChannelState → Bool
is_joining joining = true
is_joining _ = false

abbrev pub is_stalled : ChannelState → Bool
is_stalled stalled = true
is_stalled _ = false

-- `[JOINING, STALLED].includes(state)`.
abbrev pub awaits_join : ChannelState → Bool
awaits_join joining = true
awaits_join stalled = true
awaits_join _ = false

-- `[DECLINED, CLOSED].includes(state)`.
abbrev pub is_over : ChannelState → Bool
is_over declined = true
is_over closed = true
is_over _ = false

abbrev pub is_closed : ChannelState → Bool
is_closed closed = true
is_closed _ = false

abbrev pub is_connected : ConnectionState → Bool
is_connected connected = true
is_connected _ = false

-- `requestId && this.#pendingJoinRequestId && requestId !== this.#pendingJoinRequestId`; an empty text
-- counts as none.
unfoldable pub is_stale_reply : String → Option String → Bool
is_stale_reply request_id none = false
is_stale_reply request_id (some pending) =
    not (request_id == "") && not (pending == "") && not (request_id == pending)

-- A publication on a subject of the channel, which `leave` closes.
abbrev pub tell : Channel → List Effect → List Effect
tell c es = if c.has_left then [] else es

-- `#sendJoinRequest`.
unfoldable pub send_join_request : String → Channel → Channel × List Effect
send_join_request request_id c = (
  record c { pending_join = some request_id; join_timeout = some request_id },
  send (record {
    event = "JOIN_CHANNEL";
    request_id = request_id;
    channel_name = c.name;
    payload = c.join_params;
    action = join_channel;
  })
      ∷ [],
)

-- The client-state subscriber of `#init`.
unfoldable pub follow_connection : String → Channel → Channel × List Effect
unfolding send_join_request
follow_connection request_id c =
    if is_connected c.client_state && is_stalled c.join_state
    then send_join_request request_id c
    else if not (is_connected c.client_state) && is_joined c.join_state
    then (
      record c { join_timeout = none; pending_join = none; join_state = stalled },
      tell c (state_change stalled ∷ []),
    )
    else (c, [])

-- `#init` and `#emptyQueue`, once the state is JOINED. The new subscriber hears of the connection's
-- state at once; in a channel that was left, the subscription to its closed receiver then throws.
unfoldable pub initialise : String → Channel → Channel × List Effect
unfolding follow_connection
initialise request_id c =
    let (d, es) = follow_connection request_id c in
    if c.has_left
    then (
      record d { is_initialised = false; orphans = suc d.orphans },
      es ++ threw (plain_error "Cannot subscribe to a closed subject") ∷ [],
    )
    else (record d { is_initialised = true; queue = [] }, es ++ map send d.queue)

-- `acknowledge`; the first id is the one that a new join request would draw.
unfoldable pub acknowledge : String → String → Channel → Channel × List Effect
unfolding is_stale_reply initialise
acknowledge fresh_id request_id c =
    if not (awaits_join c.join_state) || is_stale_reply request_id c.pending_join
    then (c, [])
    else (let d = record c {
      join_timeout = none;
      pending_join = none;
      last_error = none;
      join_state = joined;
    } in
        let (e, es) = initialise fresh_id d in (e, tell c (state_change joined ∷ []) ++ es))

unfoldable pub decline : PondObject → String → Channel → Channel × List Effect
unfolding is_stale_reply
decline payload request_id c =
    if not (awaits_join c.join_state)
    then (c, tell c (error_event payload ∷ []))
    else if is_stale_reply request_id c.pending_join
    then (c, [])
    else (
      record c {
        join_timeout = none;
        pending_join = none;
        last_error = some payload;
        join_state = declined;
        queue = [];
      },
      tell c (state_change declined ∷ error_event payload ∷ []),
    )

-- `join`. Without a connection the channel waits for one; the earlier wait, if any, ends.
unfoldable pub join : String → Channel → Channel × List Effect
unfolding send_join_request
join request_id c =
    if is_joined c.join_state || is_joining c.join_state
    then (c, [])
    else (let d = record c { last_error = none; join_state = joining } in
        let told = tell c (state_change joining ∷ []) in
        let (e, es) = send_join_request request_id d in
        if is_connected c.client_state
        then (e, told ++ es)
        else (record d { is_waiting = true }, told))

-- The subscriber of `join` that waits for a connection.
unfoldable pub end_waiting : String → Channel → Channel × List Effect
unfolding send_join_request
end_waiting request_id c =
    if c.is_waiting && is_connected c.client_state
    then (let d = record c { is_waiting = false } in
        if is_joining c.join_state then send_join_request request_id d else (d, []))
    else (c, [])

-- Orphaned subscriptions, each with the id that it would draw.
unfoldable pub follow_orphans : ℕ → (ℕ → String) → Channel → Channel × List Effect
unfolding follow_connection
follow_orphans zero ids c = (c, [])
follow_orphans (suc n) ids c =
    let (d, es) = follow_connection (ids n) c in
    let (e, fs) = follow_orphans n ids d in (e, es ++ fs)

-- The client publishes a connection state: the subscribers of `#init` hear it, then that of `join`.
unfoldable pub connection_changed :
    ConnectionState → String → (ℕ → String) → Channel → Channel × List Effect
unfolding follow_connection follow_orphans end_waiting
connection_changed s request_id ids c =
    let c1 = record c { client_state = s } in
    let (c2, es) = if c.is_initialised then follow_connection request_id c1 else (c1, []) in
    let (c3, fs) = follow_orphans c.orphans ids c2 in
    let (c4, gs) = end_waiting request_id c3 in (c4, es ++ (fs ++ gs))

abbrev pub timeout_payload : String → PondObject
timeout_payload name =
    ("code", str "CHANNEL_ERROR")
    ∷ ("message", str (concat ("Timed out joining channel \"" ∷ name ∷ "\"" ∷ [])))
    ∷ ("status", num 408)
    ∷ ("statusCode", num 408)
    ∷ []

abbrev pub is_id : String → Option String → Bool
is_id id none = false
is_id id (some other) = other == id

-- The timer of a join request runs out; a cleared timer does nothing.
unfoldable pub join_timed_out : String → Channel → Channel × List Effect
unfolding decline
join_timed_out request_id c =
    if is_id request_id c.join_timeout && is_id request_id c.pending_join
    then decline (timeout_payload c.name) request_id c
    else (c, [])

unfoldable pub leave : String → Channel → Channel × List Effect
leave request_id c =
    let parting =
      if is_joined c.join_state
      then send (record {
        event = "LEAVE_CHANNEL";
        request_id = request_id;
        channel_name = c.name;
        payload = [];
        action = leave_channel;
      })
        ∷ []
      else [] in
    (
      record c {
        join_timeout = none;
        is_waiting = false;
        pending_responses = [];
        pending_join = none;
        queue = [];
        join_state = closed;
        is_initialised = false;
        has_left = true;
      },
      parting ++ tell c (state_change closed ∷ []),
    )

-- The queue after a message: the oldest goes if there is no room.
unfoldable pub enqueue : ℕ → ClientMessage → List ClientMessage → List ClientMessage
enqueue most message [] = message ∷ []
enqueue most message (m ∷ ms) =
    if leb most (length (m ∷ ms)) then ms ++ message ∷ [] else (m ∷ ms) ++ message ∷ []

abbrev pub state_text : ChannelState → String
state_text idle = "IDLE"
state_text joining = "JOINING"
state_text joined = "JOINED"
state_text stalled = "STALLED"
state_text closed = "CLOSED"
state_text declined = "DECLINED"

-- `#publish`, on which `sendMessage` rests.
unfoldable pub publish : ClientMessage → Channel → Result (Channel × List Effect)
unfolding enqueue
publish message c =
    if is_joined c.join_state
    then ok (c, send message ∷ [])
    else if is_over c.join_state
    then err (
        plain_error (
          concat (
            "Cannot send messages while channel \""
            ∷ c.name
            ∷ "\" is "
            ∷ state_text c.join_state
            ∷ [])))
    else ok (record c { queue = enqueue c.max_queue_size message c.queue }, [])

-- `sendForResponse`: the subscription and the timer are set before the message is published, and they
-- stay where that throws. The promise is rejected at once then, as it is where the subscription throws;
-- a promise that is settled is not changed by a later effect.
unfoldable pub send_for_response : ClientMessage → Channel → Channel × List Effect
unfolding publish
send_for_response message c =
    if c.has_left
    then (c, reject_response message.request_id ∷ [])
    else (let d = record c { pending_responses = add message.request_id c.pending_responses } in
        elim (publish message d) [
          | err x ↦ (d, reject_response message.request_id ∷ [])
          | ok (e, es) ↦ (e, es)
        ])

unfoldable pub response_timed_out : String → Channel → Channel × List Effect
response_timed_out request_id c =
    if includes c.pending_responses request_id
    then (
      record c { pending_responses = remove request_id c.pending_responses },
      reject_response request_id ∷ [],
    )
    else (c, [])

abbrev pub is_presence : ServerActions → Bool
is_presence ServerActions.presence = true
is_presence _ = false

-- What the subscribers of the channel's receiver do: that of `#init` and those of `sendForResponse`.
unfoldable pub handle_event : ChannelEvent → Channel → Channel × List Effect
handle_event v c =
    if is_presence v.action
    then (record c { presence = get "presence" v.payload }, [])
    else if includes c.pending_responses v.request_id
    then (
      record c { pending_responses = remove v.request_id c.pending_responses },
      resolve_response v.request_id v.payload ∷ [],
    )
    else (c, [])

-- The client publishes an event of the server: the subscriber of `#init` passes it to the receiver.
unfoldable pub receive : ChannelEvent → Channel → Channel × List Effect
unfolding handle_event
receive v c =
    if c.is_initialised && (v.channel_name == c.name && is_joined c.join_state)
    then (let (d, es) = handle_event v c in (d, receive_event v ∷ es))
    else (c, [])
