-- ===== src/Endpoint/Unsubscribing.antt =====
-- The end of one subscription: the client is out of the channel, and the rest is as before.
use pondsocket.Prelude.{
  ℕ, String, Bool, true, false, Option, none, some, Option-cases, [], ◌≡◌, inl, inr, refl, arith,
  ap, ◌∙◌, nat_beq, if◌then◌else◌, is_some, eq_iff,
}
use pondsocket.JsMap.{get, has, delete}
use pondsocket.JsMap.Laws.{get-set, has-delete, has-get}
use pondsocket.ChannelEngine.State
use pondsocket.ChannelEngine.State.{ChannelEngine, has_user}
use pondsocket.ChannelEngine.Users
use pondsocket.ChannelEngine.Users.{remove_user}
use pondsocket.ChannelEngine.Departure.{remove_known_user-assigns_cache, remove_known_user-returned}
use pondsocket.Protocol.{UserData}
use pondsocket.Endpoint.State.{
  engine_of, engine_at, EndpointEngine, SocketCache, Subscription, Exit, done, raised, state,
  is_done, get_elem?, call,
}
use pondsocket.Endpoint.Broadcasting.{knows, is_member}
use pondsocket.Endpoint.Sockets
use pondsocket.Endpoint.Sockets.{
  update_socket, unsubscribe, unsubscribe_all, handle_socket_close, get_user, unlist,
  after_unsubscribe,
}
use pondsocket.Endpoint.Calls.{
  after_method, engine_at-call, call-sockets, call_found, is_done-settle_call,
}

remove_user_returned :
    (user : String) (skip : Bool) (c : ChannelEngine)
    → State.has_returned (remove_user user skip c) ≡ true
unfolding remove_user
remove_user_returned user skip c = split (Users.get_user_data user c)
  where
    split :
        (o : State.Outcome UserData)
        → State.has_returned (elim o [
          | State.thrown _ _ _ ↦ State.returned tt c []
          | State.returned d _ _ ↦ Users.remove_known_user user skip d c
        ])
          ≡ true
    split (State.thrown x d es) = refl
    split (State.returned d e es) = remove_known_user-returned user skip d c

has-left :
    (b : Bool) (user : String) (c : ChannelEngine)
    → has user (if b then [] else delete user c.assigns_cache) ≡ false
unfolding has
has-left true user c = refl
has-left false user c = ground (arith, has-delete user user c.assigns_cache, eq_iff user user)

remove_known_user_gone :
    (user : String) (skip : Bool) (d : UserData) (c : ChannelEngine)
    → has_user user (State.state (Users.remove_known_user user skip d c)) ≡ false
unfolding has_user
remove_known_user_gone user skip d c =
    rw (remove_known_user-assigns_cache user skip d c) (has-left _ user c)

absent_of_thrown :
    (user : String) (c : ChannelEngine)
    → State.has_returned (Users.get_user_data user c) ≡ false
    → has_user user c ≡ false
unfolding Users.get_user_data has_user
absent_of_thrown user c h = ground (arith, has-get user c.assigns_cache)

-- After `removeUser` the user is no user of the channel, whatever it was before.
remove_user_gone :
    (user : String) (skip : Bool) (c : ChannelEngine)
    → has_user user (State.state (remove_user user skip c)) ≡ false
unfolding remove_user
remove_user_gone user skip c = split (Users.get_user_data user c) (absent_of_thrown user c)
  where
    split :
        (o : State.Outcome UserData)
        → (State.has_returned o ≡ false → has_user user c ≡ false)
        → has_user user (
            State.state (elim o [
              | State.thrown _ _ _ ↦ State.returned tt c []
              | State.returned d _ _ ↦ Users.remove_known_user user skip d c
            ]))
          ≡ false
    split (State.thrown x d es) h = h refl
    split (State.returned d e es) h = remove_known_user_gone user skip d c

pub is_member-call :
    {A : Type 0} (id j : ℕ) (m : State.M A) (user : String) (s : EndpointEngine)
    → is_member j user (state (call id m s))
      ≡ (if nat_beq id j then knows user (after_method m (engine_at j s)) else is_member j user s)
is_member-call id j m user s = rw (engine_at-call id m s j) (ground arith)

knows-remove_user :
    (user : String) (skip : Bool) (o : Option ChannelEngine)
    → knows user (after_method (remove_user user skip) o) ≡ false
knows-remove_user user skip none = refl
knows-remove_user user skip (some c) = remove_user_gone user skip c

is_some-after :
    {A : Type 0} (m : State.M A) (o : Option ChannelEngine) → is_some (after_method m o) ≡ is_some o
is_some-after m none = refl
is_some-after m (some c) = refl

pub update_socket-engines :
    (client : String) (f : SocketCache → SocketCache) (s : EndpointEngine)
    → (update_socket client f s).engines ≡ s.engines
update_socket-engines client f s = ground arith

is_done-call :
    (id : ℕ) (user : String) (skip : Bool) (s : EndpointEngine)
    → is_some (engine_at id s) ≡ true
    → is_done (call id (remove_user user skip) s) ≡ true
is_done-call id user skip s h = elim (Option-cases (get_elem? s.engines id)) [
  | inl missing ↦ cc (ap (λ o. is_some (engine_of o)) missing)
  | inr (cell, there) ↦
      rw
        (
          call_found id (remove_user user skip) s cell there,
          is_done-settle_call id cell.lobby s (remove_user user skip cell.engine),
        )
        (remove_user_returned user skip cell.engine)
]

abbrev pub flag : Option SocketCache → Bool
flag none = false
flag (some c) = c.is_registered

-- `this.#sockets.has(clientId)`.
abbrev pub registered : String → EndpointEngine → Bool
registered client s = flag (get client s.sockets)

pub update_socket-registered :
    (client : String) (f : SocketCache → SocketCache) (s : EndpointEngine)
    → ((c : SocketCache) → (f c).is_registered ≡ c.is_registered)
    → registered client (update_socket client f s) ≡ registered client s
update_socket-registered client f s h = elim (Option-cases (get client s.sockets)) [
  | inl absent ↦ ground arith
  | inr (c, there) ↦
      ground (arith, get-set client client (f c) s.sockets, eq_iff client client, h c)
]

-- What one unsubscription leaves.
pub record Leaves (client : String) (b : Subscription) (s : EndpointEngine)
    (o : Exit EndpointEngine (Unit {0})) : Type 0 where
  pub ended : is_done o ≡ true
  pub member :
      (j : ℕ)
      → is_member j client (state o) ≡ (if nat_beq b.engine j then false else is_member j client s)
  pub present : (j : ℕ) → is_some (engine_at j (state o)) ≡ is_some (engine_at j s)
  pub listed : registered client (state o) ≡ registered client s

pub unsubscribe-Leaves :
    (client : String) (b : Subscription) (s : EndpointEngine)
    → is_some (engine_at b.engine s) ≡ true
    → Leaves client b s (unsubscribe client b s)
unfolding unsubscribe
unsubscribe-Leaves client b s h =
    after (call b.engine (remove_user client false) s) (is_done-call b.engine client false s h)
      (λ j. is_member-call b.engine j (remove_user client false) client s ∙ gone j)
      (λ j. ap is_some (engine_at-call b.engine (remove_user client false) s j) ∙ kept j)
      (ap (λ m. flag (get client m)) (call-sockets b.engine (remove_user client false) s))
  where
    gone :
        (j : ℕ)
        → (if nat_beq b.engine j
            then knows client (after_method (remove_user client false) (engine_at j s))
            else is_member j client s)
          ≡ (if nat_beq b.engine j then false else is_member j client s)
    gone j = ground (arith, knows-remove_user client false (engine_at j s))

    kept :
        (j : ℕ)
        → is_some (
            if nat_beq b.engine j
            then after_method (remove_user client false) (engine_at j s)
            else engine_at j s)
          ≡ is_some (engine_at j s)
    kept j = ground (arith, is_some-after (remove_user client false) (engine_at j s))

    after :
        (o : Exit EndpointEngine (Unit {0}))
        → is_done o ≡ true
        → ((j : ℕ)
            → is_member j client (state o)
              ≡ (if nat_beq b.engine j then false else is_member j client s))
        → ((j : ℕ) → is_some (engine_at j (state o)) ≡ is_some (engine_at j s))
        → registered client (state o) ≡ registered client s
        → Leaves client b s (elim o [
          | raised x t es ↦ raised x t es
          | done _ t es ↦
              done tt
                (update_socket client
                  (λ c. record c {
                    subscriptions = Sockets.without_token b.token c.subscriptions;
                    channel_subscriptions = delete b.channel_name c.channel_subscriptions;
                  })
                  t)
                es
        ])
    after (raised x t es) d m p l = cc
    after (done a t es) d m p l = record {
      ended = refl;
      member = λ j.
          ap (λ es. knows client (engine_of (get_elem? es j))) (update_socket-engines client _ t)
          ∙ m j;
      present = λ j.
          ap (λ es. is_some (engine_of (get_elem? es j))) (update_socket-engines client _ t) ∙ p j;
      listed = update_socket-registered client _ t (λ c. refl) ∙ l;
    }
