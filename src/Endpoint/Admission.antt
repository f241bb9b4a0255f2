-- ===== src/Endpoint/Admission.antt =====
-- A join from the client's message to the channel's engine, through the first lobby whose path fits.
use pondsocket.Prelude.{
  ℕ, suc, String, Bool, true, false, Option, none, some, List, [], ◌∷◌, ◌++◌, ◌+◌, ◌≡◌, refl, arith,
  ap, ◌∙◌, length,
}
use pondsocket.JsMap.{get, has}
use pondsocket.Protocol.{PondObject, Error, ok}
use pondsocket.ChannelEngine.State.{ChannelEngine, has_user}
use pondsocket.ChannelEngine.Nodes.{new_channel_engine}
use pondsocket.ChannelEngine.Preservation.{new_channel_engine-IsConsistent}
use pondsocket.ChannelEngine.Invariant.{IsConsistent}
use pondsocket.Endpoint.State.{
  Effect, EventParams, EndpointEngine, Cell, LobbyEngine, SocketCache, Subscription, Exit, done,
  raised, state, get_elem?, JoinRequest, JoinAct, accept, Script,
}
use pondsocket.Endpoint.Lobby.{create_engine, get_or_create_channel, retrieve_channel}
use pondsocket.Endpoint.Recording.{join_act-lobbies, retrieve_channel-created}
use pondsocket.Endpoint.Broadcasting.{is_member}
use pondsocket.Endpoint.Joining.{JoinContext, Joining, join_act, new_join_context}
use pondsocket.Endpoint.JoinMiddleware.{
  first_request, Stack, Passed, numbered, join_next, join_channel, after_join, join_script,
  run_join_acts,
}
use pondsocket.Endpoint.Accepting.{Joined, subscription_of, join_act-accepts}
use pondsocket.Endpoint.Routing.{
  NoneFits, past, join_next-skips, join_channel_known, get_elem?-length, get_or_create_made,
}

-- A handler that accepts every request, and does nothing else.
abbrev pub accepting : Bool → Script JoinAct
accepting b = record { acts = accept none ∷ []; ending = none; is_async = b }

join_next-fits :
    (uuids : ℕ → ℕ → String) (fuel i id : ℕ) (r : JoinRequest) (l : LobbyEngine) (rest : Stack)
    (params : EventParams) (s t : EndpointEngine)
    → l.path.parse r.channel_name ≡ ok (some params)
    → get_or_create_channel uuids i r.channel_name s ≡ (id, t)
    → let q = record r { params = params } in
      let script = join_script l q id t in
      join_next uuids (suc fuel) r none ((i, l) ∷ rest) s
      ≡ after_join r script.ending
          (run_join_acts (join_next uuids fuel r) script.acts rest (new_join_context id q, t))
unfolding join_next
join_next-fits uuids fuel i id r l rest params s t h e = rw (h, e) refl

-- Once the request is accepted, the handler leaves the endpoint as accepting did.
after_join-accept :
    (next : Option Error → Stack → EndpointEngine → Passed Stack) (r : JoinRequest) (rest : Stack)
    (c : JoinContext) (s : EndpointEngine)
    → Joined c s (join_act (accept none) (c, s))
    → (after_join r none (run_join_acts next (accept none ∷ []) rest (c, s))).server
      ≡ (state (join_act (accept none) (c, s))).1
unfolding after_join run_join_acts
after_join-accept next r rest c s joined = answered (join_act (accept none) (c, s)) joined
  where
    answered :
        (o : Exit Joining (Unit {0}))
        → Joined c s o
        → (after_join r none (elim o [
          | raised x (d, t) es ↦ record {
            context = d;
            rest = rest;
            endpoint = t;
            told = es;
            thrown = some x;
            delegated = false;
          }
          | done _ k es ↦ let h = run_join_acts next [] rest k in record h { told = es ++ h.told }
        ])).server
          ≡ (state o).1
    answered (raised x (d, t) es) h = cc
    answered (done a (d, t) es) h = ground (arith, h.2)

-- A channel engine that a user can join.
pub record Admits (user : String) (engine : ChannelEngine) (o : Option Cell) : Type 0 where
  pub cell : Cell
  pub is_engine : cell.engine ≡ engine
  pub found : o ≡ some cell
  pub consistent : IsConsistent cell.engine
  pub open_channel : cell.engine.closed ≡ false
  pub new_user : has_user user cell.engine ≡ false

-- The engine that a lobby makes for a channel.
abbrev pub made_engine : (ℕ → ℕ → String) → LobbyEngine → String → EndpointEngine → ChannelEngine
made_engine uuids l name s =
    new_channel_engine name s.path s.backend l.leave_callback (uuids (length s.engines))

created-Admits :
    (user : String) (uuids : ℕ → ℕ → String) (i : ℕ) (l : LobbyEngine) (name : String)
    (s : EndpointEngine)
    → Admits user
        (made_engine uuids l name s)
        (get_elem? (create_engine uuids i l name s).engines (length s.engines))
unfolding create_engine new_channel_engine has_user has
created-Admits user uuids i l name s = record {
  cell = record {
    engine = new_channel_engine name s.path s.backend l.leave_callback (uuids (length s.engines));
    lobby = i;
  };
  is_engine = refl;
  found = get_elem?-length _ s.engines [];
  consistent =
      new_channel_engine-IsConsistent name s.path s.backend l.leave_callback
        (uuids (length s.engines));
  open_channel = refl;
  new_user = refl;
}

create_engine-sockets :
    (uuids : ℕ → ℕ → String) (i : ℕ) (l : LobbyEngine) (name : String) (s : EndpointEngine)
    → (create_engine uuids i l name s).sockets ≡ s.sockets
unfolding create_engine
create_engine-sockets uuids i l name s = refl

create_engine-next_token :
    (uuids : ℕ → ℕ → String) (i : ℕ) (l : LobbyEngine) (name : String) (s : EndpointEngine)
    → (create_engine uuids i l name s).next_token ≡ s.next_token
unfolding create_engine
create_engine-next_token uuids i l name s = refl

past-length : (ls : List LobbyEngine) (i : ℕ) → past ls i ≡ length ls + i
past-length [] i = omega arith
past-length (l ∷ ls) i = omega (arith, past-length ls (suc i))

get_elem?-past :
    (l : LobbyEngine) (ls more : List LobbyEngine) → get_elem? (ls ++ l ∷ more) (past ls 0) ≡ some l
get_elem?-past l ls more =
    ap (get_elem? (ls ++ l ∷ more)) (past-length ls 0 ∙ omega arith) ∙ get_elem?-length l ls more

-- The request that a matching lobby's handler is given.
abbrev pub matched_request :
    String → String → PondObject → String → SocketCache → EventParams → JoinRequest
matched_request client channel join_params request_id cache params =
    record (first_request client channel join_params request_id cache) { params = params }

module _ (uuids : ℕ → ℕ → String) (client channel request_id : String) (join_params : PondObject)
    (params : EventParams) (async : Bool) (l : LobbyEngine) (pre more : List LobbyEngine)
    (cache : SocketCache) (s : EndpointEngine) (lobbies : s.lobbies ≡ pre ++ l ∷ more)
    (misses : NoneFits channel pre) (fits : l.path.parse channel ≡ ok (some params))
    (engine : ChannelEngine)
    (accepts : l.handler (matched_request client channel join_params request_id cache params) engine
      ≡ accepting async)
    (known : get client s.sockets ≡ some cache) where
  abbrev request : JoinRequest
  request = matched_request client channel join_params request_id cache params

  abbrev first : JoinRequest
  first = first_request client channel join_params request_id cache

  abbrev rest : Stack
  rest = numbered (suc (past pre 0)) more

  script_at :
      (id : ℕ) (t : EndpointEngine)
      → Admits client engine (get_elem? t.engines id)
      → join_script l request id t ≡ accepting async
  unfolding join_script
  script_at id t a = rw (join_script, a.found) (ap (l.handler request) a.is_engine ∙ accepts)

  join_channel-accepting :
      (id : ℕ) (t : EndpointEngine)
      → get_or_create_channel uuids (past pre 0) channel s ≡ (id, t)
      → get client t.sockets ≡ some cache
      → Admits client engine (get_elem? t.engines id)
      → (join_channel uuids client channel join_params request_id s).0
        ≡ (state (join_act (accept none) (new_join_context id request, t))).1
  unfolding new_join_context
  join_channel-accepting id t made socket a =
      ap (λ (p : EndpointEngine × List Effect). p.0)
        (join_channel_known uuids client channel request_id join_params s cache known)
      ∙ ap (λ (p : Passed Stack). p.server) (reaches ∙ chosen)
      ∙ ap handled_by (script_at id t a)
      ∙ after_join-accept next first rest (new_join_context id request) t (
          join_act-accepts (new_join_context id request) t a.cell cache refl a.found a.consistent
            a.open_channel a.new_user socket)
    where
      next : Option Error → Stack → EndpointEngine → Passed Stack
      next = join_next uuids (suc (length more)) first

      handled_by : Script JoinAct → EndpointEngine
      handled_by script =
          (after_join first script.ending
            (run_join_acts next script.acts rest (new_join_context id request, t))).server

      reaches :
          join_next uuids (suc (length s.lobbies)) first none (numbered 0 s.lobbies) s
          ≡ join_next uuids (suc (suc (length more))) first none ((past pre 0, l) ∷ rest) s
      reaches =
          ap (λ ls. join_next uuids (suc (length ls)) first none (numbered 0 ls) s) lobbies
          ∙ join_next-skips uuids 0 first pre (l ∷ more) s misses

      chosen : join_next uuids (suc (suc (length more))) first none ((past pre 0, l) ∷ rest) s ≡ (
          let script = join_script l request id t in
          after_join first script.ending
            (run_join_acts next script.acts rest (new_join_context id request, t)))
      chosen =
          join_next-fits uuids (suc (length more)) (past pre 0) id first l rest params s t fits made

-- A known client asks to join a channel that the first lobby whose path fits the name does not have, and the
-- lobby's handler, for this request and the engine that is made, does nothing but accept. Afterwards the name leads
-- to a new engine, and the client is in that channel, with a new subscription for it on its socket.
pub join_channel-creates :
    (uuids : ℕ → ℕ → String) (client channel request_id : String) (join_params : PondObject)
    (params : EventParams) (async : Bool) (l : LobbyEngine) (pre more : List LobbyEngine)
    (cache : SocketCache) (s : EndpointEngine)
    → s.lobbies ≡ pre ++ l ∷ more
    → NoneFits channel pre
    → l.path.parse channel ≡ ok (some params)
    → l.handler
        (matched_request client channel join_params request_id cache params)
        (made_engine uuids l channel s)
      ≡ accepting async
    → get client s.sockets ≡ some cache
    → get channel l.channels ≡ none
    → let t = (join_channel uuids client channel join_params request_id s).0 in
      (retrieve_channel channel t ≡ ok (length s.engines))
      × (is_member (length s.engines) client t ≡ true)
      × (subscription_of channel (get client t.sockets)
          ≡ some
              (record { token = s.next_token; engine = length s.engines; channel_name = channel }))
unfolding new_join_context
join_channel-creates uuids client channel request_id join_params params async l pre more cache s
      lobbies misses fits accepts known absent =
    rw
      (join_channel-accepting uuids client channel request_id join_params params async l pre more
        cache s lobbies misses fits (made_engine uuids l channel s) accepts known (length s.engines)
        made_state made socket admits)
      (
        retrieve_channel-created uuids channel params l pre more s _ lobbies misses fits (
            join_act-lobbies context made_state admits.cell refl admits.found admits.consistent
              admits.open_channel admits.new_user
            ∙ ap (λ i. (create_engine uuids i l channel s).lobbies)
                (past-length pre 0 ∙ omega arith)),
        joined.1,
        joined.4 ∙ ap with_token (create_engine-next_token uuids (past pre 0) l channel s),
      )
  where
    made_state : EndpointEngine
    made_state = create_engine uuids (past pre 0) l channel s

    made : get_or_create_channel uuids (past pre 0) channel s ≡ (length s.engines, made_state)
    made =
        get_or_create_made uuids (past pre 0) channel l s
          (ap (λ ls. get_elem? ls (past pre 0)) lobbies ∙ get_elem?-past l pre more) absent

    socket : get client made_state.sockets ≡ some cache
    socket = ap (get client) (create_engine-sockets uuids (past pre 0) l channel s) ∙ known

    admits :
        Admits client
          (made_engine uuids l channel s)
          (get_elem? made_state.engines (length s.engines))
    admits = created-Admits client uuids (past pre 0) l channel s

    context : JoinContext
    context =
        new_join_context (length s.engines)
          (matched_request client channel join_params request_id cache params)

    joined : Joined context made_state (join_act (accept none) (context, made_state))
    joined =
        join_act-accepts context made_state admits.cell cache refl admits.found admits.consistent
          admits.open_channel admits.new_user socket

    with_token : ℕ → Option Subscription
    with_token n = some (record { token = n; engine = length s.engines; channel_name = channel })
