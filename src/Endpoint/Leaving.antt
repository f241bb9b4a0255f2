-- ===== src/Endpoint/Leaving.antt =====
-- Leaving a channel, by a message or by the end of the connection, after a join.
use pondsocket.Prelude.{
  ℕ, String, Bool, true, false, Option, none, some, Option-cases, List, ◌∷◌, ◌++◌, ◌≡◌, inl, inr,
  refl, arith, ap, ◌∙◌, nat_beq, if◌then◌else◌, is_some, length,
}
use pondsocket.JsMap.{get}
use pondsocket.Protocol.{PondObject, ok, is_ok}
use pondsocket.ChannelEngine.State.{ChannelEngine, has_user}
use pondsocket.ChannelEngine.Invariant.{IsConsistent}
use pondsocket.Endpoint.State.{
  EventParams, engine_at, EndpointEngine, Cell, LobbyEngine, SocketCache, Subscription, state,
  is_done, get_elem?, accept,
}
use pondsocket.Endpoint.Broadcasting.{knows, is_member}
use pondsocket.Endpoint.Joining.{JoinContext, join_act}
use pondsocket.Endpoint.JoinMiddleware.{join_channel}
use pondsocket.Endpoint.Sockets.{unsubscribe, leave, get_user}
use pondsocket.Endpoint.Unsubscribing.{unsubscribe-Leaves}
use pondsocket.Endpoint.Accepting.{subscription_of, join_act-accepts}
use pondsocket.Endpoint.Routing.{NoneFits}
use pondsocket.Endpoint.Admission.{accepting, made_engine, matched_request, join_channel-creates}
use pondsocket.Endpoint.Lobby.{retrieve_channel}

leave-unsubscribe :
    (channel client : String) (b : Subscription) (s : EndpointEngine)
    → subscription_of channel (get client s.sockets) ≡ some b
    → leave channel client s ≡ unsubscribe client b s
unfolding leave
leave-unsubscribe channel client b s h = elim (Option-cases (get client s.sockets)) [
  | inl e ↦ cc (ap (subscription_of channel) e)
  | inr (cache, e) ↦ ground (arith, ap (subscription_of channel) e)
]

knows-is_some : (user : String) (o : Option ChannelEngine) → knows user o ≡ true → is_some o ≡ true
knows-is_some user none h = cc
knows-is_some user (some c) h = refl

-- A client that leaves a channel that its socket holds a subscription of, and whose engine knows it, is out of
-- that channel and keeps every other membership; no error is thrown.
pub leave-leaves :
    (channel client : String) (j : ℕ) (b : Subscription) (s : EndpointEngine)
    → subscription_of channel (get client s.sockets) ≡ some b
    → is_member b.engine client s ≡ true
    → (is_done (leave channel client s) ≡ true)
      × (is_member j client (state (leave channel client s))
          ≡ (if nat_beq b.engine j then false else is_member j client s))
leave-leaves channel client j b s h m =
    let k = unsubscribe-Leaves client b s (knows-is_some client (engine_at b.engine s) m) in
    rw (leave-unsubscribe channel client b s h) (k.ended, k.member j)

-- A known client asks to join a channel that the first lobby whose path fits the name does not have, and the
-- lobby's handler, for this request and the engine that is made, does nothing but accept: the name then leads to a
-- new engine, and the client is in it. The client's leave message then ends without an error, and the client is
-- out of the channel again.
pub leave-join_channel :
    (uuids : ℕ → ℕ → String) (client channel request_id : String) (join_params : PondObject)
    (params : EventParams) (async : Bool) (l : LobbyEngine) (pre more : List LobbyEngine)
    (cache : SocketCache) (s : EndpointEngine)
    → s.lobbies ≡ pre ++ l ∷ more
    → NoneFits channel pre
    → l.path.parse channel ≡ ok (some params)
    → l.handler
        (matched_request client channel join_params request_id cache params)
        (made_engine uuids l channel s)
      ≡ accepting async
    → get client s.sockets ≡ some cache
    → get channel l.channels ≡ none
    → let t = (join_channel uuids client channel join_params request_id s).0 in
      let o = leave channel client t in
      (retrieve_channel channel t ≡ ok (length s.engines))
      × (is_member (length s.engines) client t ≡ true)
      × (is_done o ≡ true)
      × (is_member (length s.engines) client (state o) ≡ false)
leave-join_channel uuids client channel request_id join_params params async l pre more cache s
      lobbies misses fits accepts known absent =
    let (leads, inside, held) =
      join_channel-creates uuids client channel request_id join_params params async l pre more cache
        s lobbies misses fits accepts known absent in
    let (ended, gone) = leave-leaves channel client (length s.engines) _ _ held inside in
    (leads, inside, ended, gone ∙ ground arith)

-- A join request that is accepted after the client's connection has ended, while the channel is open and the
-- user is new to it, puts the user into the channel although the endpoint has no such client.
pub join_act-after-close :
    (c : JoinContext) (s : EndpointEngine) (cell : Cell) (cache : SocketCache)
    → c.executed ≡ false
    → get_elem? s.engines c.engine ≡ some cell
    → IsConsistent cell.engine
    → cell.engine.closed ≡ false
    → has_user c.request.client_id cell.engine ≡ false
    → get c.request.client_id s.sockets ≡ some cache
    → cache.is_registered ≡ false
    → (is_ok (get_user c.request.client_id s) ≡ false)
      × (is_member c.engine c.request.client_id (state (join_act (accept none) (c, s))).1 ≡ true)
unfolding get_user
join_act-after-close c s cell cache fresh found v o new socket off =
    (ground arith, (join_act-accepts c s cell cache fresh found v o new socket).1)
