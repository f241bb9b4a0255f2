-- ===== src/Endpoint/Accepting.antt =====
-- What accepting and declining a join do.
use pondsocket.Prelude.{
  ℕ, String, true, false, Option, none, some, [], ◌∷◌, ◌++◌, ◌≡◌, refl, arith, ap, ◌∙◌, eq_iff,
  concat,
}
use pondsocket.JsMap.{get, set}
use pondsocket.JsMap.Laws.{get-set, has-get}
use pondsocket.Protocol.{PondObject, http_error}
use pondsocket.ChannelEngine.State
use pondsocket.ChannelEngine.State.{ChannelEngine, has_user}
use pondsocket.ChannelEngine.Users
use pondsocket.ChannelEngine.Invariant.{IsConsistent}
use pondsocket.ChannelEngine.Membership.{add_user-joins}
use pondsocket.Endpoint.State.{
  engine_of, EndpointEngine, Cell, SocketCache, Subscription, Exit, done, raised, state, is_done,
  get_elem?, call, accept, decline,
}
use pondsocket.Endpoint.Broadcasting.{knows, is_member}
use pondsocket.Endpoint.Joining.{
  JoinContext, Joining, call_engine, perform_checks, join_user, join_accept, join_decline, join_act,
  add_subscription,
}
use pondsocket.Endpoint.Unsubscribing.{is_member-call}
use pondsocket.Endpoint.Calls.{call-sockets, call-next_token, call_found, is_done-settle_call}

-- The subscription that a socket holds for a channel.
abbrev pub subscription_of : String → Option SocketCache → Option Subscription
subscription_of channel none = none
subscription_of channel (some cache) = get channel cache.channel_subscriptions

-- Once a join request is answered, neither accepting nor declining it again does anything but throw.
pub join_act-executed :
    (message : Option String) (code : Option ℕ) (c : JoinContext) (s : EndpointEngine)
    → c.executed ≡ true
    → let refused : Exit Joining (Unit {0}) =
        raised
          (http_error 403 (
            concat (
              "Request to join channel " ∷ c.request.channel_name
              ∷ " rejected: Request already executed" ∷ [])))
          (c, s)
          [] in
      (join_act (accept none) (c, s) ≡ refused) × (join_act (decline message code) (c, s) ≡ refused)
unfolding join_act join_accept join_user join_decline perform_checks
join_act-executed message code c s h = (ground arith, ground arith)

-- What accepting leaves of the context, the channel and the socket.
abbrev pub Joined : JoinContext → EndpointEngine → Exit Joining (Unit {0}) → Type 0
Joined c s o =
    (is_done o ≡ true)
    × (is_member c.engine c.request.client_id (state o).1 ≡ true)
    × ((state o).0.executed ≡ true)
    × ((state o).0.accepted ≡ true)
    × (subscription_of c.request.channel_name (get c.request.client_id (state o).1.sockets)
        ≡ some (record {
          token = s.next_token;
          engine = c.engine;
          channel_name = c.request.channel_name;
        }))

-- The rest of `accept`, once the engine has answered.
abbrev pub with_answer : JoinContext → Exit EndpointEngine (Unit {0}) → Exit Joining (Unit {0})
with_answer c (raised x t es) = raised x (c, t) es
with_answer c (done a t es) = done tt (record c { accepted = true }, add_subscription c t) es

add_subscription-engines :
    (c : JoinContext) (s : EndpointEngine) → (add_subscription c s).engines ≡ s.engines
unfolding add_subscription
add_subscription-engines c s = ground arith

subscription_of-add_subscription :
    (c : JoinContext) (s : EndpointEngine) (cache : SocketCache)
    → get c.request.client_id s.sockets ≡ some cache
    → subscription_of c.request.channel_name
        (get c.request.client_id (add_subscription c s).sockets)
      ≡ some (record {
        token = s.next_token;
        engine = c.engine;
        channel_name = c.request.channel_name;
      })
unfolding add_subscription
subscription_of-add_subscription c s cache h = rw (reduced) (
    ground (
      arith,
      get-set c.request.client_id c.request.client_id new_cache s.sockets,
      eq_iff c.request.client_id c.request.client_id,
      eq_iff c.request.channel_name c.request.channel_name,
      get-set c.request.channel_name c.request.channel_name new cache.channel_subscriptions,
    ))
  where
    new : Subscription
    new = record { token = s.next_token; engine = c.engine; channel_name = c.request.channel_name }

    new_cache : SocketCache
    new_cache = record cache {
      subscriptions = cache.subscriptions ++ new ∷ [];
      channel_subscriptions = set c.request.channel_name new cache.channel_subscriptions;
    }

    reduced : (add_subscription c s).sockets ≡ set c.request.client_id new_cache s.sockets
    reduced = ground arith

with_answer-Joined :
    (c : JoinContext) (s : EndpointEngine) (cache : SocketCache)
    (o : Exit EndpointEngine (Unit {0}))
    → get c.request.client_id s.sockets ≡ some cache
    → is_done o ≡ true
    → is_member c.engine c.request.client_id (state o) ≡ true
    → (state o).sockets ≡ s.sockets
    → (state o).next_token ≡ s.next_token
    → Joined c s (with_answer (record c { executed = true }) o)
with_answer-Joined c s cache (raised x t es) h d m p n = cc
with_answer-Joined c s cache (done a t es) h d m p n = (
  refl,
  ap (λ es. knows c.request.client_id (engine_of (get_elem? es c.engine)))
        (add_subscription-engines (record c { executed = true }) t)
      ∙ m,
  refl,
  refl,
  subscription_of-add_subscription (record c { executed = true }) t cache
        (ap (get c.request.client_id) p ∙ h)
      ∙ ap with_token n,
)
  where
    with_token : ℕ → Option Subscription
    with_token n =
        some (record { token = n; engine = c.engine; channel_name = c.request.channel_name })

pub join_user-with_answer :
    (c : JoinContext) (s : EndpointEngine)
    → c.executed ≡ false
    → join_user (c, s)
      ≡ with_answer
          (record c { executed = true })
          (call c.engine (Users.add_user c.request.client_id c.new_assigns c.request.request_id) s)
unfolding join_user perform_checks call_engine
join_user-with_answer c s h = ground arith

knows-after_add :
    (user request_id : String) (assigns : PondObject) (c : ChannelEngine)
    → IsConsistent c
    → c.closed ≡ false
    → has_user user c ≡ false
    → has_user user (State.state (Users.add_user user assigns request_id c)) ≡ true
unfolding has_user
knows-after_add user request_id assigns c v o h = ground (
  arith,
  has-get user (State.state (Users.add_user user assigns request_id c)).assigns_cache,
  (add_user-joins user request_id user assigns c v o h).2,
)

-- A join request that is accepted while the channel is open, the user is new to it and the socket is known, ends
-- without an error: the user is in the channel, the request counts as answered and accepted, and the socket
-- holds the channel's subscription, a new one.
pub join_act-accepts :
    (c : JoinContext) (s : EndpointEngine) (cell : Cell) (cache : SocketCache)
    → c.executed ≡ false
    → get_elem? s.engines c.engine ≡ some cell
    → IsConsistent cell.engine
    → cell.engine.closed ≡ false
    → has_user c.request.client_id cell.engine ≡ false
    → get c.request.client_id s.sockets ≡ some cache
    → Joined c s (join_act (accept none) (c, s))
unfolding join_act join_accept
join_act-accepts c s cell cache fresh found v o new socket = rw (join_user-with_answer c s fresh) (
    with_answer-Joined c s cache (call c.engine m s) socket done_then there
      (call-sockets c.engine m s) (call-next_token c.engine m s))
  where
    m : State.M (Unit {0})
    m = Users.add_user c.request.client_id c.new_assigns c.request.request_id

    done_then : is_done (call c.engine m s) ≡ true
    done_then =
        rw
          (
            call_found c.engine m s cell found,
            is_done-settle_call c.engine cell.lobby s (m cell.engine),
          )
          (add_user-joins c.request.client_id c.request.request_id "" c.new_assigns cell.engine v o
            new).0

    there : is_member c.engine c.request.client_id (state (call c.engine m s)) ≡ true
    there =
        rw (is_member-call c.engine c.engine m c.request.client_id s, ap engine_of found)
          (ground (
            arith,
            knows-after_add c.request.client_id c.request.request_id c.new_assigns cell.engine v o
                new,
          ))
