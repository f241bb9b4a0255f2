-- ===== src/Endpoint/Recording.antt =====
-- The lobby's record of a channel: what `#createChannel` of javascript/core/src/engines/lobbyEngine.ts writes into
-- `#channels`, and what a join leaves of it.
use pondsocket.Prelude.{
  ℕ, String, Bool, true, false, none, some, List, [], ◌∷◌, ◌++◌, ◌≡◌, refl, arith, ap, ◌∙◌, length,
  eq_iff,
}
use pondsocket.JsMap.{get, set}
use pondsocket.JsMap.Laws.{get-set}
use pondsocket.Subject
use pondsocket.Protocol.{PondObject, ok}
use pondsocket.ChannelEngine.State
use pondsocket.ChannelEngine.State.{ChannelEngine, has_user}
use pondsocket.ChannelEngine.Users
use pondsocket.ChannelEngine.Invariant.{IsConsistent}
use pondsocket.Endpoint.State.{
  EventParams, EndpointEngine, Cell, LobbyEngine, Exit, done, raised, state, get_elem?, modify,
  relay, relay_all, settle_call, put_engine, call, accept,
}
use pondsocket.Endpoint.Lobby.{create_engine, retrieve_channel, find_channel, get_channel}
use pondsocket.Endpoint.Joining.{JoinContext, join_act, join_accept, add_subscription}
use pondsocket.Endpoint.Calls.{call_found}
use pondsocket.Endpoint.Routing.{NoneFits, find_channel-skips}
use pondsocket.Endpoint.Accepting.{with_answer, join_user-with_answer}

-- Whether the effects of an engine make its lobby forget a channel.
abbrev closes : List State.Effect → Bool
closes [] = false
closes (State.delete_channel name ∷ es) = true
closes (_ ∷ es) = closes es

relay_all-lobbies :
    (id lobby : ℕ) (es : List State.Effect) (s : EndpointEngine)
    → closes es ≡ false
    → (relay_all id lobby es s).0.lobbies ≡ s.lobbies
unfolding relay_all relay
relay_all-lobbies id lobby [] s h = refl
relay_all-lobbies id lobby (State.deliver user v ∷ es) s h = relay_all-lobbies id lobby es s h
relay_all-lobbies id lobby (State.delete_channel name ∷ es) s h = cc
relay_all-lobbies id lobby (State.process_outgoing user v ∷ es) s h =
    relay_all-lobbies id lobby es s h
relay_all-lobbies id lobby (State.backend_broadcast m ∷ es) s h = relay_all-lobbies id lobby es s h
relay_all-lobbies id lobby (State.after_distributed_ready ∷ es) s h =
    relay_all-lobbies id lobby es s h
relay_all-lobbies id lobby (State.unsubscribe_channel ∷ es) s h = relay_all-lobbies id lobby es s h
relay_all-lobbies id lobby (State.unsubscribe_heartbeats ∷ es) s h =
    relay_all-lobbies id lobby es s h
relay_all-lobbies id lobby (State.clear_stale_timer ∷ es) s h = relay_all-lobbies id lobby es s h
relay_all-lobbies id lobby (State.call_leave u ∷ es) s h = relay_all-lobbies id lobby es s h
relay_all-lobbies id lobby (State.resolve_user_get r u ∷ es) s h = relay_all-lobbies id lobby es s h

settle_call-lobbies :
    (id lobby : ℕ) (s : EndpointEngine) (o : State.Outcome (Unit {0}))
    → closes (State.effects o) ≡ false
    → (state (settle_call id lobby o s)).lobbies ≡ s.lobbies
unfolding settle_call
settle_call-lobbies id lobby s (State.returned a c es) h =
    relay_all-lobbies id lobby es (put_engine id c s) h
settle_call-lobbies id lobby s (State.thrown x c es) h =
    relay_all-lobbies id lobby es (put_engine id c s) h

add_user-closes :
    (user request_id : String) (assigns : PondObject) (c : ChannelEngine)
    → IsConsistent c
    → c.closed ≡ false
    → has_user user c ≡ false
    → closes (State.effects (Users.add_user user assigns request_id c)) ≡ false
unfolding Users.add_user Subject.subscribe
add_user-closes user request_id assigns c v o h = ground (arith, v.sealed)

with_answer-lobbies :
    (c : JoinContext) (o : Exit EndpointEngine (Unit {0}))
    → (state (with_answer c o)).1.lobbies ≡ (state o).lobbies
unfolding add_subscription
with_answer-lobbies c (raised x t es) = refl
with_answer-lobbies c (done a t es) = ground arith

-- Accepting a request leaves the lobbies as they are.
pub join_act-lobbies :
    (c : JoinContext) (s : EndpointEngine) (cell : Cell)
    → c.executed ≡ false
    → get_elem? s.engines c.engine ≡ some cell
    → IsConsistent cell.engine
    → cell.engine.closed ≡ false
    → has_user c.request.client_id cell.engine ≡ false
    → (state (join_act (accept none) (c, s))).1.lobbies ≡ s.lobbies
unfolding join_act join_accept
join_act-lobbies c s cell fresh found v o new = rw (join_user-with_answer c s fresh) (
    with_answer-lobbies (record c { executed = true }) (call c.engine m s)
    ∙ ap (λ (e : Exit EndpointEngine (Unit {0})). (state e).lobbies)
        (call_found c.engine m s cell found)
    ∙ settle_call-lobbies c.engine cell.lobby s (m cell.engine) (
        add_user-closes c.request.client_id c.request.request_id c.new_assigns cell.engine v o new))
  where
    m : State.M (Unit {0})
    m = Users.add_user c.request.client_id c.new_assigns c.request.request_id

modify-past :
    {A : Type 0} (f : A → A) (x : A) (xs ys : List A)
    → modify (length xs) f (xs ++ x ∷ ys) ≡ xs ++ f x ∷ ys
modify-past f x [] ys = refl
modify-past f x (y ∷ xs) ys = ap (λ zs. y ∷ zs) (modify-past f x xs ys)

found_first :
    (channel : String) (params : EventParams) (l : LobbyEngine) (more : List LobbyEngine) (id : ℕ)
    → l.path.parse channel ≡ ok (some params)
    → get channel l.channels ≡ some id
    → find_channel channel (l ∷ more) ≡ ok id
unfolding find_channel get_channel
found_first channel params l more id fits there = ground arith

-- A channel that the first fitting lobby makes is the one that its name leads to, as long as the lobbies stay so.
pub retrieve_channel-created :
    (uuids : ℕ → ℕ → String) (channel : String) (params : EventParams) (l : LobbyEngine)
    (pre more : List LobbyEngine) (s t : EndpointEngine)
    → s.lobbies ≡ pre ++ l ∷ more
    → NoneFits channel pre
    → l.path.parse channel ≡ ok (some params)
    → t.lobbies ≡ (create_engine uuids (length pre) l channel s).lobbies
    → retrieve_channel channel t ≡ ok (length s.engines)
unfolding create_engine retrieve_channel
retrieve_channel-created uuids channel params l pre more s t lobbies misses fits same =
    ap (find_channel channel)
      (same ∙ ap (modify (length pre) recorded) lobbies ∙ modify-past recorded l pre more)
    ∙ find_channel-skips channel pre (recorded l ∷ more) misses
    ∙ found_first channel params (recorded l) more (length s.engines) fits (
        get-set channel channel (length s.engines) l.channels
        ∙ ground (arith, eq_iff channel channel))
  where
    recorded : LobbyEngine → LobbyEngine
    recorded = λ k. record k { channels = set channel (length s.engines) k.channels }
