-- ===== src/Endpoint/JoinMiddleware.antt =====
-- The join of a channel through the lobbies' handlers: the endpoint's `#joinChannel`, and the middleware that its
-- `createChannel` registers (javascript/core/src/engines/endpointEngine.ts).
use pondsocket.Prelude.{
  ℕ, zero, suc, String, Bool, true, false, not, ◌&&◌, Option, none, some, List, [], ◌∷◌, ◌++◌,
  if◌then◌else◌, length, concat,
}
use pondsocket.JsMap.{get}
use pondsocket.Protocol.{PondObject, Error, ok, err, http_error}
use pondsocket.Middleware.{handle_error}
use pondsocket.Endpoint.State.{
  JoinRequest, JoinAct, delegate, Script, LobbyEngine, EndpointEngine, SocketCache, Effect, done,
  raised, effects, send_message, get_elem?,
}
use pondsocket.Endpoint.Lobby.{get_or_create_channel}
use pondsocket.Endpoint.Joining.{
  build_error, JoinContext, new_join_context, Joining, join_decline, join_act,
}

-- What a handler's calls leave: its context, the rest of the middleware's stack, the endpoint, the effects,
-- the error that a call threw, and whether `next` was called.
pub record Handled (C Rest : Type 0) : Type 0 where
  pub context : C
  pub rest : Rest
  pub endpoint : EndpointEngine
  pub told : List Effect
  pub thrown : Option Error
  pub delegated : Bool

-- The middleware's stack: each lobby with its place.
abbrev pub Stack : Type 0
Stack = List (ℕ × LobbyEngine)

-- What a call of `next` leaves.
pub record Passed (Rest : Type 0) : Type 0 where
  pub left : Rest
  pub server : EndpointEngine
  pub said : List Effect

-- A handler's calls, one after another, up to the first that throws.
unfoldable pub run_join_acts :
    (Option Error → Stack → EndpointEngine → Passed Stack)
    → List JoinAct
    → Stack
    → Joining
    → Handled JoinContext Stack
unfolding join_act
run_join_acts next [] rest (c, s) = record {
  context = c;
  rest = rest;
  endpoint = s;
  told = [];
  thrown = none;
  delegated = false;
}
run_join_acts next (delegate e ∷ acts) rest (c, s) =
    let p = next e rest s in
    let h = run_join_acts next acts p.left (c, p.server) in
    record h { told = p.said ++ h.told; delegated = true }
run_join_acts next (a ∷ acts) rest (c, s) = elim (join_act a (c, s)) [
  | raised x (d, t) es ↦ record {
    context = d;
    rest = rest;
    endpoint = t;
    told = es;
    thrown = some x;
    delegated = false;
  }
  | done _ k es ↦ let h = run_join_acts next acts rest k in record h { told = es ++ h.told }
]

-- The final function of `#joinChannel`.
unfoldable pub join_final : JoinRequest → Option Error → EndpointEngine → List Effect
unfolding build_error
join_final r (some e) s =
    send_message r.client_id (build_error e "CHANNEL_ERROR" r.channel_name r.request_id) s
join_final r none s =
    send_message r.client_id
      (build_error
        (http_error 404
          (concat ("GatewayEngine: Channel " ∷ r.channel_name ∷ " does not exist" ∷ [])))
        "CHANNEL_NOT_FOUND" r.channel_name r.request_id)
      s

-- A call that throws ends the handler; otherwise its own end counts.
abbrev pub first_error : Option Error → Option Error → Option Error
first_error none ending = ending
first_error (some x) ending = some x

-- What follows a handler: its error goes to the final function, and a request that it has neither answered
-- nor passed on is declined.
unfoldable pub after_join : JoinRequest → Option Error → Handled JoinContext Stack → Passed Stack
unfolding join_final join_decline
after_join r ending h = elim (first_error h.thrown ending) [
  | some x ↦ record {
    left = h.rest;
    server = h.endpoint;
    said = h.told ++ join_final r (some (handle_error x)) h.endpoint;
  }
  | none ↦
      if not h.delegated && not h.context.executed
      then record {
        left = h.rest;
        server = h.endpoint;
        said =
            h.told
            ++ effects (
                join_decline
                  (some "Join handler completed without accepting or declining the request")
                  (some 500) (h.context, h.endpoint));
      }
      else record { left = h.rest; server = h.endpoint; said = h.told }
]

-- The calls of a lobby's handler, which sees the channel's engine.
unfoldable pub join_script : LobbyEngine → JoinRequest → ℕ → EndpointEngine → Script JoinAct
join_script l r id s = elim (get_elem? s.engines id) [
  | none ↦ record { acts = []; ending = none; is_async = false }
  | some cell ↦ l.handler r cell.engine
]

-- `next` of the middleware that `#joinChannel` runs, on fuel for how deep the handlers call one another.
unfoldable pub join_next :
    (ℕ → ℕ → String) → ℕ → JoinRequest → Option Error → Stack → EndpointEngine → Passed Stack
unfolding run_join_acts after_join join_final join_script new_join_context get_or_create_channel
join_next uuids zero r e stack s = record { left = stack; server = s; said = [] }
join_next uuids (suc fuel) r (some e) stack s = record {
  left = stack;
  server = s;
  said = join_final r (some (handle_error e)) s;
}
join_next uuids (suc fuel) r none [] s = record {
  left = [];
  server = s;
  said = join_final r none s;
}
join_next uuids (suc fuel) r none ((i, l) ∷ rest) s = elim (l.path.parse r.channel_name) [
  | err x ↦ record { left = rest; server = s; said = join_final r (some (handle_error x)) s }
  | ok none ↦ join_next uuids fuel r none rest s
  | ok (some params) ↦
      let (id, t) = get_or_create_channel uuids i r.channel_name s in
      let q = record r { params = params } in
      let script = join_script l q id t in
      after_join r script.ending
        (run_join_acts (join_next uuids fuel r) script.acts rest (new_join_context id q, t))
]

-- The lobbies with their places.
abbrev pub numbered : ℕ → List LobbyEngine → Stack
numbered i [] = []
numbered i (l ∷ ls) = (i, l) ∷ numbered (suc i) ls

-- The request before a lobby has put its parameters in.
abbrev pub first_request : String → String → PondObject → String → SocketCache → JoinRequest
first_request client channel join_params request_id cache = record {
  client_id = client;
  assigns = cache.assigns;
  params = record { params = []; query = [] };
  join_params = join_params;
  channel_name = channel;
  request_id = request_id;
}

-- `#joinChannel`. One unit of fuel for each lobby and one more are enough.
unfoldable pub join_channel :
    (ℕ → ℕ → String)
    → String
    → String
    → PondObject
    → String
    → EndpointEngine
    → EndpointEngine × List Effect
unfolding join_next
join_channel uuids client channel join_params request_id s = elim (get client s.sockets) [
  | none ↦ (s, [])
  | some cache ↦
      let r = first_request client channel join_params request_id cache in
      let p = join_next uuids (suc (length s.lobbies)) r none (numbered 0 s.lobbies) s in
      (p.server, p.said)
]
