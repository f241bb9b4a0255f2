-- ===== src/Endpoint/Closing.antt =====
-- The end of a connection: whatever channels the client had joined, it is in none of them afterwards.
use pondsocket.Prelude.{
  ℕ, String, Bool, true, false, not, ◌&&◌, ◌||◌, some, List, [], ◌∷◌, ◌≡◌, refl, arith, ap, ◌∙◌,
  nat_beq, is_some, eq_iff,
}
use pondsocket.JsMap.{get}
use pondsocket.JsMap.Laws.{get-set}
use pondsocket.Protocol.{is_ok}
use pondsocket.Endpoint.State.{
  Effect, engine_of, engine_at, EndpointEngine, SocketCache, Subscription, Exit, done, raised,
  before, state, is_done, get_elem?,
}
use pondsocket.Endpoint.Broadcasting.{knows, is_member}
use pondsocket.Endpoint.Sockets.{
  unsubscribe, unsubscribe_all, handle_socket_close, get_user, unlist, after_unsubscribe,
}
use pondsocket.Endpoint.Unsubscribing.{
  registered, update_socket-engines, update_socket-registered, Leaves, unsubscribe-Leaves,
}

-- Some subscription is one of the engine at the place.
abbrev pub has_engine : ℕ → List Subscription → Bool
has_engine j [] = false
has_engine j (b ∷ bs) = nat_beq b.engine j || has_engine j bs

-- The subscriptions' engines exist.
abbrev pub AllExist : List Subscription → EndpointEngine → Type 0
AllExist [] s = Unit {0}
AllExist (b ∷ bs) s = (is_some (engine_at b.engine s) ≡ true) × AllExist bs s

AllExist-keeps :
    (bs : List Subscription) (s t : EndpointEngine)
    → ((j : ℕ) → is_some (engine_at j t) ≡ is_some (engine_at j s))
    → AllExist bs s
    → AllExist bs t
AllExist-keeps [] s t p h = tt
AllExist-keeps (b ∷ bs) s t p (h, hs) = (p b.engine ∙ h, AllExist-keeps bs s t p hs)

record LeavesAll (client : String) (bs : List Subscription) (s : EndpointEngine)
    (o : Exit EndpointEngine (Unit {0})) : Type 0 where
  ended : is_done o ≡ true
  member : (j : ℕ) → is_member j client (state o) ≡ (not (has_engine j bs) && is_member j client s)
  listed : registered client (state o) ≡ registered client s

prefix-LeavesAll :
    (client : String) (b : Subscription) (bs : List Subscription) (s t : EndpointEngine)
    (es : List Effect) (o : Exit EndpointEngine (Unit {0}))
    → Leaves client b s (done tt t es)
    → LeavesAll client bs t o
    → LeavesAll client (b ∷ bs) s (before es o)
prefix-LeavesAll client b bs s t es (raised x u fs) h k = cc (k.ended)
prefix-LeavesAll client b bs s t es (done a u fs) h k = record {
  ended = refl;
  member = λ j. k.member j ∙ ground (arith, h.member j);
  listed = k.listed ∙ h.listed;
}

unsubscribe_all-LeavesAll :
    (client : String) (bs : List Subscription) (s : EndpointEngine)
    → AllExist bs s
    → LeavesAll client bs s (unsubscribe_all client bs s)
unfolding unsubscribe_all
unsubscribe_all-LeavesAll client [] s h = record { ended = refl; member = λ j. refl; listed = refl }
unsubscribe_all-LeavesAll client (b ∷ bs) s (h, hs) =
    after (unsubscribe client b s) (unsubscribe-Leaves client b s h)
      (λ t p. unsubscribe_all-LeavesAll client bs t (AllExist-keeps bs s t p hs))
  where
    after :
        (o : Exit EndpointEngine (Unit {0}))
        → Leaves client b s o
        → ((t : EndpointEngine)
            → ((j : ℕ) → is_some (engine_at j t) ≡ is_some (engine_at j s))
            → LeavesAll client bs t (unsubscribe_all client bs t))
        → LeavesAll client (b ∷ bs) s (elim o [
          | raised x t es ↦ raised x t es
          | done _ t es ↦ before es (unsubscribe_all client bs t)
        ])
    after (raised x t es) k ih = cc (k.ended)
    after (done a t es) k ih =
        prefix-LeavesAll client b bs s t es (unsubscribe_all client bs t) k (ih t k.present)

unlisted :
    (client : String) (s : EndpointEngine)
    → registered client s ≡ false
    → is_ok (get_user client s) ≡ false
unfolding get_user
unlisted client s h = ground arith

after_unsubscribe-leaves :
    (client : String) (j : ℕ) (bs : List Subscription) (s : EndpointEngine)
    (o : Exit EndpointEngine (Unit {0}))
    → LeavesAll client bs s o
    → (is_member j client (after_unsubscribe client o).0
        ≡ (not (has_engine j bs) && is_member j client s))
      × (registered client (after_unsubscribe client o).0 ≡ registered client s)
unfolding after_unsubscribe
after_unsubscribe-leaves client j bs s (raised x u es) k = (k.member j, k.listed)
after_unsubscribe-leaves client j bs s (done a u es) k = (
  ap (λ es. knows client (engine_of (get_elem? es j))) (update_socket-engines client _ u)
      ∙ k.member j,
  update_socket-registered client _ u (λ c. refl) ∙ k.listed,
)

-- When a client's socket closes, the client is no longer among the endpoint's clients, and it is in no channel
-- that it had a subscription of; its membership elsewhere is as before.
pub handle_socket_close-leaves :
    (client : String) (j : ℕ) (cache : SocketCache) (s : EndpointEngine)
    → get client s.sockets ≡ some cache
    → AllExist cache.subscriptions s
    → let t = (handle_socket_close client s).0 in
      (is_member j client t ≡ (not (has_engine j cache.subscriptions) && is_member j client s))
      × (is_ok (get_user client t) ≡ false)
unfolding handle_socket_close
handle_socket_close-leaves client j cache s there h =
    let t = unlist client cache s in
    let k =
      unsubscribe_all-LeavesAll client cache.subscriptions t
        (AllExist-keeps cache.subscriptions s t (λ i. refl) h) in
    let r = after_unsubscribe-leaves client j cache.subscriptions t _ k in
    rw (closed_as cache there) (r.0, unlisted client _ (r.1 ∙ off))
  where
    off : registered client (unlist client cache s) ≡ false
    off = ground (
      arith,
      get-set client client (record cache { is_registered = false; is_open = false }) s.sockets,
      eq_iff client client,
    )

    closed_as :
        (c : SocketCache)
        → get client s.sockets ≡ some c
        → handle_socket_close client s
          ≡ after_unsubscribe client (unsubscribe_all client c.subscriptions (unlist client c s))
    closed_as c e = ground arith
