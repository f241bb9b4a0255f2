-- ===== src/Endpoint/Routing.antt =====
-- The way from a channel's name to its engine: the first lobby whose path fits the name decides.
use pondsocket.Prelude.{
  ℕ, suc, String, none, some, Option-cases, List, [], ◌∷◌, ◌++◌, ◌≡◌, inl, inr, refl, arith, ap,
  ◌∙◌, eq_iff, concat, length,
}
use pondsocket.JsMap.{get, set}
use pondsocket.JsMap.Laws.{get-set}
use pondsocket.Protocol.{PondObject, ok, http_error}
use pondsocket.ChannelEngine.Nodes.{new_channel_engine}
use pondsocket.Endpoint.State.{
  engine_at, engine_of, EndpointEngine, LobbyEngine, get_elem?, SocketCache, send_message,
  JoinRequest,
}
use pondsocket.Endpoint.Lobby.{create_engine, get_or_create_channel, find_channel}
use pondsocket.Endpoint.Joining.{build_error}
use pondsocket.Endpoint.JoinMiddleware.{
  first_request, Stack, Passed, numbered, join_next, join_final, join_channel,
}
use pondsocket.Endpoint.Calls.{get_elem?-modify}

-- None of the lobbies' paths fits the channel's name.
abbrev pub NoneFits : String → List LobbyEngine → Type 0
NoneFits name [] = Unit {0}
NoneFits name (l ∷ ls) = (l.path.parse name ≡ ok none) × NoneFits name ls

pub find_channel-skips :
    (name : String) (ls more : List LobbyEngine)
    → NoneFits name ls
    → find_channel name (ls ++ more) ≡ find_channel name more
unfolding find_channel
find_channel-skips name [] more h = refl
find_channel-skips name (l ∷ ls) more (h, hs) = rw (h) (find_channel-skips name ls more hs)

-- The place that follows a lobby's predecessors, counted from a place.
abbrev pub past : List LobbyEngine → ℕ → ℕ
past [] i = i
past (l ∷ ls) i = past ls (suc i)

pub join_next-skips :
    (uuids : ℕ → ℕ → String) (i : ℕ) (r : JoinRequest) (ls more : List LobbyEngine)
    (s : EndpointEngine)
    → NoneFits r.channel_name ls
    → join_next uuids (suc (length (ls ++ more))) r none (numbered i (ls ++ more)) s
      ≡ join_next uuids (suc (length more)) r none (numbered (past ls i) more) s
unfolding join_next
join_next-skips uuids i r [] more s h = refl
join_next-skips uuids i r (l ∷ ls) more s (h, hs) =
    rw (h) (join_next-skips uuids (suc i) r ls more s hs)

pub join_channel_known :
    (uuids : ℕ → ℕ → String) (client channel request_id : String) (join_params : PondObject)
    (s : EndpointEngine) (cache : SocketCache)
    → get client s.sockets ≡ some cache
    → let r = first_request client channel join_params request_id cache in
      let p = join_next uuids (suc (length s.lobbies)) r none (numbered 0 s.lobbies) s in
      join_channel uuids client channel join_params request_id s ≡ (p.server, p.said)
unfolding join_channel
join_channel_known uuids client channel request_id join_params s cache h = ground arith

-- No lobby is left that fits.
join_next-misses :
    (uuids : ℕ → ℕ → String) (i : ℕ) (r : JoinRequest) (ls : List LobbyEngine) (s : EndpointEngine)
    → NoneFits r.channel_name ls
    → join_next uuids (suc (length ls)) r none (numbered i ls) s
      ≡ record { left = []; server = s; said = join_final r none s }
unfolding join_next
join_next-misses uuids i r [] s h = refl
join_next-misses uuids i r (l ∷ ls) s (h, hs) = rw (h) (join_next-misses uuids (suc i) r ls s hs)

-- A client that asks to join a channel that no lobby's path fits is told so by one error event, if its socket
-- is open, and nothing else happens.
pub join_channel-unknown :
    (uuids : ℕ → ℕ → String) (client channel request_id : String) (join_params : PondObject)
    (s : EndpointEngine) (cache : SocketCache)
    → get client s.sockets ≡ some cache
    → NoneFits channel s.lobbies
    → join_channel uuids client channel join_params request_id s ≡ (
      s,
      send_message client
          (build_error
            (http_error 404 (concat ("GatewayEngine: Channel " ∷ channel ∷ " does not exist" ∷ [])))
            "CHANNEL_NOT_FOUND"
            channel
            request_id)
          s,
    )
unfolding join_channel join_final join_next
join_channel-unknown uuids client channel request_id join_params s cache known h =
    join_channel_known uuids client channel request_id join_params s cache known
    ∙ ap (λ (p : Passed Stack). (p.server, p.said))
        (join_next-misses uuids 0 (first_request client channel join_params request_id cache)
          s.lobbies s h)

pub get_elem?-length :
    {A : Type 0} (x : A) (xs ys : List A) → get_elem? (xs ++ x ∷ ys) (length xs) ≡ some x
get_elem?-length x [] ys = refl
get_elem?-length x (y ∷ xs) ys = get_elem?-length x xs ys

module _ (uuids : ℕ → ℕ → String) (i : ℕ) (name : String) (l : LobbyEngine) (s : EndpointEngine)
    (there : get_elem? s.lobbies i ≡ some l) where
  get_or_create_found :
      (id : ℕ) → get name l.channels ≡ some id → get_or_create_channel uuids i name s ≡ (id, s)
  unfolding get_or_create_channel
  get_or_create_found id e = ground arith

  pub get_or_create_made :
      get name l.channels ≡ none
      → get_or_create_channel uuids i name s ≡ (length s.engines, create_engine uuids i l name s)
  unfolding get_or_create_channel
  get_or_create_made e = ground arith

  create_engine-lobby :
      get_elem? (create_engine uuids i l name s).lobbies i
      ≡ some (record l { channels = set name (length s.engines) l.channels })
  unfolding create_engine
  create_engine-lobby =
      rw
        (get_elem?-modify i i
          (λ (k : LobbyEngine). record k { channels = set name (length s.engines) k.channels })
          s.lobbies)
        (ground arith)

pub engine_at-create_engine :
    (uuids : ℕ → ℕ → String) (i : ℕ) (l : LobbyEngine) (name : String) (s : EndpointEngine)
    → engine_at (length s.engines) (create_engine uuids i l name s)
      ≡ some (new_channel_engine name s.path s.backend l.leave_callback (uuids (length s.engines)))
unfolding create_engine
engine_at-create_engine uuids i l name s = ap engine_of (get_elem?-length _ s.engines [])

-- The engine that a lobby gets or makes for a channel is the one that it finds for it from then on; another
-- request for it changes nothing.
pub get_or_create_channel-again :
    (uuids : ℕ → ℕ → String) (i : ℕ) (name : String) (l : LobbyEngine) (s : EndpointEngine)
    → get_elem? s.lobbies i ≡ some l
    → let t = (get_or_create_channel uuids i name s).1 in
      get_or_create_channel uuids i name t ≡ ((get_or_create_channel uuids i name s).0, t)
get_or_create_channel-again uuids i name l s h = elim (Option-cases (get name l.channels)) [
  | inr (id, e) ↦
      rw (get_or_create_found uuids i name l s h id e) (get_or_create_found uuids i name l s h id e)
  | inl e ↦ rw (get_or_create_made uuids i name l s h e) (
      get_or_create_found uuids i name _ (create_engine uuids i l name s)
        (create_engine-lobby uuids i name l s h) (length s.engines)
        (get-set name name (length s.engines) l.channels ∙ ground (arith, eq_iff name name)))
]
