-- ===== src/Endpoint/Calls.antt =====
-- What a call of a channel engine's method leaves of the endpoint.
use pondsocket.Prelude.{
  ℕ, zero, suc, Option, none, some, Option-cases, List, [], ◌∷◌, ◌≡◌, inl, inr, refl, arith, ap,
  ◌∙◌, nat_beq, if◌then◌else◌,
}
use pondsocket.ChannelEngine.State
use pondsocket.ChannelEngine.State.{ChannelEngine}
use pondsocket.Endpoint.State.{
  engine_at, EndpointEngine, Cell, state, effects, is_done, get_elem?, modify, relay, relay_all,
  delete_channel, put_engine, settle_call, call,
}

-- What a method makes of an engine, if there is one.
abbrev pub after_method : {A : Type 0} → State.M A → Option ChannelEngine → Option ChannelEngine
after_method m none = none
after_method m (some c) = some (State.state (m c))

relay-keeps :
    (id lobby : ℕ) (e : State.Effect) (s : EndpointEngine)
    → ((relay id lobby e s).0.engines ≡ s.engines)
      × ((relay id lobby e s).0.sockets ≡ s.sockets)
      × ((relay id lobby e s).0.next_token ≡ s.next_token)
unfolding relay delete_channel
relay-keeps id lobby (State.deliver user v) s = (refl, refl, refl)
relay-keeps id lobby (State.delete_channel name) s = (refl, refl, refl)
relay-keeps id lobby (State.process_outgoing user v) s = (refl, refl, refl)
relay-keeps id lobby (State.backend_broadcast m) s = (refl, refl, refl)
relay-keeps id lobby State.after_distributed_ready s = (refl, refl, refl)
relay-keeps id lobby State.unsubscribe_channel s = (refl, refl, refl)
relay-keeps id lobby State.unsubscribe_heartbeats s = (refl, refl, refl)
relay-keeps id lobby State.clear_stale_timer s = (refl, refl, refl)
relay-keeps id lobby (State.call_leave u) s = (refl, refl, refl)
relay-keeps id lobby (State.resolve_user_get r u) s = (refl, refl, refl)

pub relay_all-keeps :
    (id lobby : ℕ) (es : List State.Effect) (s : EndpointEngine)
    → ((relay_all id lobby es s).0.engines ≡ s.engines)
      × ((relay_all id lobby es s).0.sockets ≡ s.sockets)
      × ((relay_all id lobby es s).0.next_token ≡ s.next_token)
unfolding relay_all
relay_all-keeps id lobby [] s = (refl, refl, refl)
relay_all-keeps id lobby (e ∷ es) s =
    let h = relay-keeps id lobby e s in
    let k = relay_all-keeps id lobby es (relay id lobby e s).0 in (k.0 ∙ h.0, k.1 ∙ h.1, k.2 ∙ h.2)

pub get_elem?-modify {ℓ} :
    {A : Type ℓ} (i j : ℕ) (f : A → A) (xs : List A)
    → get_elem? (modify i f xs) j ≡ (
        if nat_beq i j
        then (elim (get_elem? xs j) [ none ↦ none | some x ↦ some (f x) ])
        else get_elem? xs j)
get_elem?-modify i j f [] = ground arith
get_elem?-modify zero zero f (x ∷ xs) = refl
get_elem?-modify zero (suc j) f (x ∷ xs) = ground arith
get_elem?-modify (suc i) zero f (x ∷ xs) = ground arith
get_elem?-modify (suc i) (suc j) f (x ∷ xs) = ground (arith, get_elem?-modify i j f xs)

module _ {A : Type 0} (id lobby : ℕ) (s : EndpointEngine) where
  pub settle_call-sockets :
      (o : State.Outcome A) → (state (settle_call id lobby o s)).sockets ≡ s.sockets
  unfolding settle_call
  settle_call-sockets (State.returned a c es) = (relay_all-keeps id lobby es (put_engine id c s)).1
  settle_call-sockets (State.thrown x c es) = (relay_all-keeps id lobby es (put_engine id c s)).1

  pub settle_call-next_token :
      (o : State.Outcome A) → (state (settle_call id lobby o s)).next_token ≡ s.next_token
  unfolding settle_call
  settle_call-next_token (State.returned a c es) =
      (relay_all-keeps id lobby es (put_engine id c s)).2
  settle_call-next_token (State.thrown x c es) = (relay_all-keeps id lobby es (put_engine id c s)).2

  pub settle_call-engines :
      (o : State.Outcome A)
      → (state (settle_call id lobby o s)).engines ≡ (put_engine id (State.state o) s).engines
  unfolding settle_call
  settle_call-engines (State.returned a c es) = (relay_all-keeps id lobby es (put_engine id c s)).0
  settle_call-engines (State.thrown x c es) = (relay_all-keeps id lobby es (put_engine id c s)).0

  pub is_done-settle_call :
      (o : State.Outcome A) → is_done (settle_call id lobby o s) ≡ State.has_returned o
  unfolding settle_call
  is_done-settle_call (State.returned a c es) = refl
  is_done-settle_call (State.thrown x c es) = refl

  pub effects-settle_call :
      (o : State.Outcome A)
      → effects (settle_call id lobby o s)
        ≡ (relay_all id lobby (State.effects o) (put_engine id (State.state o) s)).1
  unfolding settle_call
  effects-settle_call (State.returned a c es) = refl
  effects-settle_call (State.thrown x c es) = refl

module _ {A : Type 0} (id : ℕ) (m : State.M A) (s : EndpointEngine) where
  pub call_found :
      (cell : Cell)
      → get_elem? s.engines id ≡ some cell
      → call id m s ≡ settle_call id cell.lobby (m cell.engine) s
  unfolding call
  call_found cell h = ground arith

  pub call_missed : get_elem? s.engines id ≡ none → state (call id m s) ≡ s
  unfolding call
  call_missed h = ground arith

  pub call-sockets : (state (call id m s)).sockets ≡ s.sockets
  call-sockets = elim (Option-cases (get_elem? s.engines id)) [
    | inl h ↦ ap (λ t. t.sockets) (call_missed h)
    | inr (cell, h) ↦ rw (call_found cell h) (settle_call-sockets id cell.lobby s (m cell.engine))
  ]

  pub call-next_token : (state (call id m s)).next_token ≡ s.next_token
  call-next_token = elim (Option-cases (get_elem? s.engines id)) [
    | inl h ↦ ap (λ t. t.next_token) (call_missed h)
    | inr (cell, h) ↦
        rw (call_found cell h) (settle_call-next_token id cell.lobby s (m cell.engine))
  ]

  -- After the call, the engine is in the state that the method left, and all others are as before.
  pub engine_at-call :
      (j : ℕ)
      → engine_at j (state (call id m s))
        ≡ (if nat_beq id j then after_method m (engine_at j s) else engine_at j s)
  engine_at-call j = elim (Option-cases (get_elem? s.engines id)) [
    | inl h ↦ ground (arith, call_missed h)
    | inr (cell, h) ↦
        rw (call_found cell h, settle_call-engines id cell.lobby s (m cell.engine))
          (ground (
            arith,
            get_elem?-modify id j (λ (x : Cell). record x { engine = State.state (m cell.engine) })
                s.engines,
          ))
  ]
