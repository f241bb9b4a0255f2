-- ===== src/Endpoint/State.antt =====
-- The state of an `EndpointEngine` with its lobbies, their channels and the clients' sockets. Objects that
-- the source shares by reference stand in lists, and are known by their place (channel engines, lobbies) or
-- by the client's id (socket caches).
use pondsocket.Prelude.{
  ℕ, zero, suc, String, Bool, true, false, Option, none, some, List, [], ◌∷◌, ◌++◌, if◌then◌else◌,
}
use pondsocket.JsMap.{JsMap, get, delete}
use pondsocket.Protocol.{PondObject, ChannelEvent, ChannelReceivers, Error, Result, plain_error}
use pondsocket.Wrappers.Methods.{ChannelCall}
use pondsocket.ChannelEngine.State
use pondsocket.ChannelEngine.State.{ChannelEngine}

-- `EventParams`.
pub record EventParams : Type 0 where
  pub params : JsMap String
  pub query : JsMap String

-- A `PondPath`: its key in a `Map`, what `compilePondRoute` does at registration, and `parseAddress` at it.
pub record PondPath : Type 0 where
  pub key : String
  pub compile : Result (Unit {0})
  pub parse : String → Result (Option EventParams)

-- What a join handler reads of its context, besides the channel.
pub record JoinRequest : Type 0 where
  pub client_id : String
  pub assigns : PondObject
  pub params : EventParams
  pub join_params : PondObject
  pub channel_name : String
  pub request_id : String

-- What a join handler calls: the methods of its context, those of the channel that `context.channel` gives, and
-- `next`.
pub data JoinAct : Type 0 where
  accept : Option PondObject → JoinAct
  decline : Option String → Option ℕ → JoinAct
  assign : PondObject → JoinAct
  reply : String → PondObject → JoinAct
  track_presence : PondObject → JoinAct
  send_to_recipients : ChannelReceivers → String → PondObject → JoinAct
  on_channel : ChannelCall → JoinAct
  delegate : Option Error → JoinAct

-- A handler is code of the application, known by the calls that it makes, in order, and by the error, if any,
-- that it throws in the end; where it is an async function, its promise is rejected with it instead. Its calls
-- are those up to the first that throws: a handler that catches such an error and goes on is not expressible, nor
-- one that calls what is not named above (the getters, which change nothing, and other channels).
pub record Script (Act : Type 0) : Type 0 where
  pub acts : List Act
  pub ending : Option Error
  pub is_async : Bool

pub record EventRequest : Type 0 where
  pub sender : String
  pub event : String
  pub payload : PondObject
  pub request_id : String
  pub params : EventParams

-- What an event handler calls: the methods of its context, for a user where they take one, those of the channel
-- that `context.channel` gives, and `next`.
pub data EventAct : Type 0 where
  assign : PondObject → EventAct
  reply : String → PondObject → EventAct
  track_presence : PondObject → Option String → EventAct
  update_presence : PondObject → Option String → EventAct
  remove_presence : Option String → EventAct
  evict_user : String → Option String → EventAct
  send_to_recipients : ChannelReceivers → String → PondObject → EventAct
  on_channel : ChannelCall → EventAct
  delegate : Option Error → EventAct

pub record EventHandler : Type 0 where
  pub path : PondPath
  pub handler : EventRequest → ChannelEngine → Script EventAct

-- A `LobbyEngine` with the path and the handler that `createChannel` registers for it.
pub record LobbyEngine : Type 0 where
  pub path : PondPath
  pub handler : JoinRequest → ChannelEngine → Script JoinAct
  pub leave_callback : Bool
  pub middleware : List EventHandler
  pub channels : JsMap ℕ

-- A channel engine and its `parent`.
pub record Cell : Type 0 where
  pub engine : ChannelEngine
  pub lobby : ℕ

-- A `wrappedSubscription`: a closure of its own for each acceptance, over the engine and its name.
pub record Subscription : Type 0 where
  pub token : ℕ
  pub engine : ℕ
  pub channel_name : String

-- A `SocketCache`, and whether it is in the endpoint's `#sockets`: the closures of the socket's events hold
-- it longer. `is_open` tells `readyState === OPEN`.
pub record SocketCache : Type 0 where
  pub is_registered : Bool
  pub is_open : Bool
  pub assigns : PondObject
  pub subscriptions : List Subscription
  pub channel_subscriptions : JsMap Subscription

pub record EndpointEngine : Type 0 where
  pub path : String
  pub backend : Option ℕ
  pub max_message_size : ℕ
  pub engines : List Cell
  pub lobbies : List LobbyEngine
  pub sockets : JsMap SocketCache
  pub next_token : ℕ

-- What the endpoint does to the outside: it sends an event on a client's socket, closes that, refuses a
-- connection with a status and a message, or does what a channel engine does to the outside.
pub data Effect : Type 0 where
  send : String → ChannelEvent → Effect
  close_socket : String → Effect
  refuse_connection : String → ℕ → String → Effect
  of_engine : ℕ → State.Effect → Effect

-- A method returns or throws, with the state and the effects that it reached.
pub data Exit (S A : Type 0) : Type 0 where
  done : A → S → List Effect → Exit S A
  raised : Error → S → List Effect → Exit S A

abbrev pub before : {S A : Type 0} → List Effect → Exit S A → Exit S A
before es (done a s fs) = done a s (es ++ fs)
before es (raised x s fs) = raised x s (es ++ fs)

abbrev pub state : {S A : Type 0} → Exit S A → S
state (done a s es) = s
state (raised x s es) = s

abbrev pub effects : {S A : Type 0} → Exit S A → List Effect
effects (done a s es) = es
effects (raised x s es) = es

abbrev pub is_done : {S A : Type 0} → Exit S A → Bool
is_done (done a s es) = true
is_done (raised x s es) = false

module _ {ℓ} {A : Type ℓ} where
  abbrev pub get_elem? : List A → ℕ → Option A
  get_elem? [] i = none
  get_elem? (x ∷ xs) zero = some x
  get_elem? (x ∷ xs) (suc i) = get_elem? xs i

  -- A change of the entry at a place, if there is one.
  abbrev pub modify : ℕ → (A → A) → List A → List A
  modify i f [] = []
  modify zero f (x ∷ xs) = f x ∷ xs
  modify (suc i) f (x ∷ xs) = x ∷ modify i f xs

-- `sendMessage`: nothing is sent on a socket that is not open.
unfoldable pub send_message : String → ChannelEvent → EndpointEngine → List Effect
send_message client v s = elim (get client s.sockets) [
  | none ↦ []
  | some c ↦ if c.is_open then send client v ∷ [] else []
]

-- `deleteChannel` of a lobby.
unfoldable pub delete_channel : ℕ → String → EndpointEngine → EndpointEngine
delete_channel lobby name s = record s {
  lobbies = modify lobby (λ l. record l { channels = delete name l.channels }) s.lobbies;
}

-- What becomes of one effect of a channel engine: a user's `onMessage` is the endpoint's `sendMessage` on the
-- socket of the client with that id, and the lobby forgets a channel that closes.
unfoldable pub relay : ℕ → ℕ → State.Effect → EndpointEngine → EndpointEngine × List Effect
unfolding send_message delete_channel
relay id lobby (State.deliver user v) s = (s, send_message user v s)
relay id lobby (State.delete_channel name) s = (delete_channel lobby name s, [])
relay id lobby e s = (s, of_engine id e ∷ [])

unfoldable pub relay_all : ℕ → ℕ → List State.Effect → EndpointEngine → EndpointEngine × List Effect
relay_all id lobby [] s = (s, [])
relay_all id lobby (e ∷ es) s =
    let (t, out) = relay id lobby e s in let (u, out') = relay_all id lobby es t in (u, out ++ out')

abbrev pub put_engine : ℕ → ChannelEngine → EndpointEngine → EndpointEngine
put_engine id c s = record s { engines = modify id (λ cell. record cell { engine = c }) s.engines }

unfoldable pub settle_call :
    {A : Type 0} → ℕ → ℕ → State.Outcome A → EndpointEngine → Exit EndpointEngine A
unfolding relay_all
settle_call id lobby (State.returned a c es) s =
    let (t, out) = relay_all id lobby es (put_engine id c s) in done a t out
settle_call id lobby (State.thrown x c es) s =
    let (t, out) = relay_all id lobby es (put_engine id c s) in raised x t out

-- A call of a channel engine's method. A place that holds no engine is never called.
unfoldable pub call : {A : Type 0} → ℕ → State.M A → EndpointEngine → Exit EndpointEngine A
unfolding settle_call
call id m s = elim (get_elem? s.engines id) [
  | none ↦ raised (plain_error "no engine") s []
  | some cell ↦ settle_call id cell.lobby (m cell.engine) s
]

abbrev pub engine_of : Option Cell → Option ChannelEngine
engine_of none = none
engine_of (some cell) = some cell.engine

-- The channel engine at a place.
abbrev pub engine_at : ℕ → EndpointEngine → Option ChannelEngine
engine_at id s = engine_of (get_elem? s.engines id)
