-- ===== src/Endpoint/Soundness/Lobbies.antt =====
-- A join through the lobbies keeps the endpoint sound.
use pondsocket.Prelude.{
  ℕ, zero, suc, String, Bool, true, false, not, ◌&&◌, Option, none, some, List, [], ◌∷◌, ◌++◌,
  if◌then◌else◌, length,
}
use pondsocket.JsMap.{get}
use pondsocket.Protocol.{PondObject, Error, Result, ok, err}
use pondsocket.ChannelEngine.Preservation.{new_channel_engine-IsConsistent}
use pondsocket.Middleware.{handle_error}
use pondsocket.Endpoint.State.{
  EventParams, JoinRequest, JoinAct, accept, decline, assign, reply, track_presence,
  send_to_recipients, on_channel, delegate, EndpointEngine, LobbyEngine, SocketCache, Exit, Effect,
  done, raised, effects, get_elem?,
}
use pondsocket.Endpoint.Lobby.{create_engine, get_or_create_channel}
use pondsocket.Endpoint.Joining.{JoinContext, Joining, join_decline, join_act, new_join_context}
use pondsocket.Endpoint.JoinMiddleware.{
  Handled, Stack, Passed, run_join_acts, join_final, first_error, after_join, join_script,
  join_next, numbered, first_request, join_channel,
}
use pondsocket.Endpoint.Soundness.{IsSound, AllConsistent-append}
use pondsocket.Endpoint.Soundness.Joins.{Sound, join_act-IsSound}

create_engine-IsSound :
    (uuids : ℕ → ℕ → String) (i : ℕ) (l : LobbyEngine) (name : String) (s : EndpointEngine)
    → IsSound s
    → IsSound (create_engine uuids i l name s)
unfolding create_engine
create_engine-IsSound uuids i l name s v = record {
  engines_consistent = AllConsistent-append s.engines _ v.engines_consistent (
      new_channel_engine-IsConsistent name s.path s.backend l.leave_callback
        (uuids (length s.engines)));
}

get_or_create_channel-IsSound :
    (uuids : ℕ → ℕ → String) (i : ℕ) (name : String) (s : EndpointEngine)
    → IsSound s
    → IsSound (get_or_create_channel uuids i name s).1
unfolding get_or_create_channel
get_or_create_channel-IsSound uuids i name s v = at (get_elem? s.lobbies i)
  where
    of_lobby :
        (l : LobbyEngine) (o : Option ℕ)
        → IsSound
            (elim o as (λ _. ℕ × EndpointEngine) [
              | some id ↦ (id, s)
              | none ↦ (length s.engines, create_engine uuids i l name s)
            ]).1
    of_lobby l none = create_engine-IsSound uuids i l name s v
    of_lobby l (some id) = v

    at :
        (o : Option LobbyEngine)
        → IsSound
            (elim o as (λ _. ℕ × EndpointEngine) [
              | none ↦ (length s.engines, s)
              | some l ↦ elim (get name l.channels) [
                | some id ↦ (id, s)
                | none ↦ (length s.engines, create_engine uuids i l name s)
              ]
            ]).1
    at none = v
    at (some l) = of_lobby l (get name l.channels)

-- What follows a call that returned or threw.
abbrev after_act :
    (Joining → Handled JoinContext Stack)
    → Stack
    → Exit Joining (Unit {0})
    → Handled JoinContext Stack
after_act continue rest (raised x (d, t) es) = record {
  context = d;
  rest = rest;
  endpoint = t;
  told = es;
  thrown = some x;
  delegated = false;
}
after_act continue rest (done _ k es) = let h = continue k in record h { told = es ++ h.told }

after_act-IsSound :
    (continue : Joining → Handled JoinContext Stack) (rest : Stack) (o : Exit Joining (Unit {0}))
    → ((c : JoinContext) (t : EndpointEngine) → IsSound t → IsSound (continue (c, t)).endpoint)
    → Sound o
    → IsSound (after_act continue rest o).endpoint
after_act-IsSound continue rest (raised x (d, t) es) k v = v
after_act-IsSound continue rest (done a (d, t) es) k v = k d t v

abbrev NextKeeps : (Option Error → Stack → EndpointEngine → Passed Stack) → Type 0
NextKeeps next =
    (e : Option Error) (hs : Stack) (s : EndpointEngine) → IsSound s → IsSound (next e hs s).server

module _ (next : Option Error → Stack → EndpointEngine → Passed Stack)
    (next_keeps : NextKeeps next) where
  run_join_acts-IsSound :
      (acts : List JoinAct) (rest : Stack) (c : JoinContext) (s : EndpointEngine)
      → IsSound s
      → IsSound (run_join_acts next acts rest (c, s)).endpoint
  unfolding run_join_acts
  run_join_acts-IsSound [] rest c s v = v
  run_join_acts-IsSound (delegate e ∷ acts) rest c s v =
      let p = next e rest s in run_join_acts-IsSound acts p.left c p.server (next_keeps e rest s v)
  run_join_acts-IsSound (accept x ∷ acts) rest c s v =
      after_act-IsSound (run_join_acts next acts rest) rest (join_act (accept x) (c, s))
        (λ d t w. run_join_acts-IsSound acts rest d t w) (join_act-IsSound (accept x) c s v)
  run_join_acts-IsSound (decline x y ∷ acts) rest c s v =
      after_act-IsSound (run_join_acts next acts rest) rest (join_act (decline x y) (c, s))
        (λ d t w. run_join_acts-IsSound acts rest d t w) (join_act-IsSound (decline x y) c s v)
  run_join_acts-IsSound (assign x ∷ acts) rest c s v =
      after_act-IsSound (run_join_acts next acts rest) rest (join_act (assign x) (c, s))
        (λ d t w. run_join_acts-IsSound acts rest d t w) (join_act-IsSound (assign x) c s v)
  run_join_acts-IsSound (reply x y ∷ acts) rest c s v =
      after_act-IsSound (run_join_acts next acts rest) rest (join_act (reply x y) (c, s))
        (λ d t w. run_join_acts-IsSound acts rest d t w) (join_act-IsSound (reply x y) c s v)
  run_join_acts-IsSound (track_presence x ∷ acts) rest c s v =
      after_act-IsSound (run_join_acts next acts rest) rest (join_act (track_presence x) (c, s))
        (λ d t w. run_join_acts-IsSound acts rest d t w) (join_act-IsSound (track_presence x) c s v)
  run_join_acts-IsSound (send_to_recipients x y z ∷ acts) rest c s v =
      after_act-IsSound (run_join_acts next acts rest) rest
        (join_act (send_to_recipients x y z) (c, s))
        (λ d t w. run_join_acts-IsSound acts rest d t w)
        (join_act-IsSound (send_to_recipients x y z) c s v)
  run_join_acts-IsSound (on_channel k ∷ acts) rest c s v =
      after_act-IsSound (run_join_acts next acts rest) rest (join_act (on_channel k) (c, s))
        (λ d t w. run_join_acts-IsSound acts rest d t w) (join_act-IsSound (on_channel k) c s v)

after_join-IsSound :
    (r : JoinRequest) (ending : Option Error) (h : Handled JoinContext Stack)
    → IsSound h.endpoint
    → IsSound (after_join r ending h).server
unfolding after_join
after_join-IsSound r ending h v = by_error (first_error h.thrown ending)
  where
    by_check :
        (b : Bool) (p q : Passed Stack)
        → IsSound p.server
        → IsSound q.server
        → IsSound (if◌then◌else◌ {A = Passed Stack} b p q).server
    by_check true p q v w = v
    by_check false p q v w = w

    by_error :
        (e : Option Error)
        → IsSound
            (elim e as (λ _. Passed Stack) [
              | some x ↦ record {
                left = h.rest;
                server = h.endpoint;
                said = h.told ++ join_final r (some (handle_error x)) h.endpoint;
              }
              | none ↦
                  if not h.delegated && not h.context.executed
                  then record {
                    left = h.rest;
                    server = h.endpoint;
                    said =
                        h.told
                        ++ effects (
                            join_decline
                              (some
                                "Join handler completed without accepting or declining the request")
                              (some 500)
                              (h.context, h.endpoint));
                  }
                  else record { left = h.rest; server = h.endpoint; said = h.told }
            ]).server
    by_error (some x) = v
    by_error none = by_check (not h.delegated && not h.context.executed) _ _ v v

join_next-IsSound :
    (uuids : ℕ → ℕ → String) (fuel : ℕ) (r : JoinRequest) → NextKeeps (join_next uuids fuel r)
unfolding join_next
join_next-IsSound uuids zero r e stack s v = v
join_next-IsSound uuids (suc fuel) r (some e) stack s v = v
join_next-IsSound uuids (suc fuel) r none [] s v = v
join_next-IsSound uuids (suc fuel) r none ((i, l) ∷ rest) s v =
    by_path (join_next-IsSound uuids fuel r) (l.path.parse r.channel_name)
  where
    by_path :
        NextKeeps (join_next uuids fuel r)
        → (o : Result (Option EventParams))
        → IsSound
            (elim o as (λ _. Passed Stack) [
              | err x ↦ record {
                left = rest;
                server = s;
                said = join_final r (some (handle_error x)) s;
              }
              | ok none ↦ join_next uuids fuel r none rest s
              | ok (some params) ↦
                  let (id, t) = get_or_create_channel uuids i r.channel_name s in
                  let q = record r { params = params } in
                  let script = join_script l q id t in
                  after_join r script.ending (
                    run_join_acts
                      (join_next uuids fuel r)
                      script.acts
                      rest
                      (new_join_context id q, t))
            ]).server
    by_path k (err x) = v
    by_path k (ok none) = k none rest s v
    by_path k (ok (some params)) =
        let (id, t) = get_or_create_channel uuids i r.channel_name s in
        let q = record r { params = params } in
        let script = join_script l q id t in
        after_join-IsSound r script.ending
          (run_join_acts (join_next uuids fuel r) script.acts rest (new_join_context id q, t))
          (run_join_acts-IsSound (join_next uuids fuel r) k script.acts rest (new_join_context id q)
            t (get_or_create_channel-IsSound uuids i r.channel_name s v))

pub join_channel-IsSound :
    (uuids : ℕ → ℕ → String) (client channel request_id : String) (join_params : PondObject)
    (s : EndpointEngine)
    → IsSound s
    → IsSound (join_channel uuids client channel join_params request_id s).0
unfolding join_channel
join_channel-IsSound uuids client channel request_id join_params s v = known (get client s.sockets)
  where
    known :
        (o : Option SocketCache)
        → IsSound
            (elim o as (λ _. EndpointEngine × List Effect) [
              | none ↦ (s, [])
              | some cache ↦
                  let r = first_request client channel join_params request_id cache in
                  let p =
                    join_next uuids (suc (length s.lobbies)) r none (numbered 0 s.lobbies) s in
                  (p.server, p.said)
            ]).0
    known none = v
    known (some cache) =
        join_next-IsSound uuids (suc (length s.lobbies))
          (first_request client channel join_params request_id cache) none (numbered 0 s.lobbies) s
          v
