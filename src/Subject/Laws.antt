-- ===== src/Subject/Laws.antt =====
-- Subscriptions of a subject come and go without touching one another.
use pondsocket.Prelude.{
  ℕ, ◌<◌, List, [], ◌∷◌, ◌++◌, ◌≡◌, refl, ap, ◌∙◌, arith, append-nil, append_assoc,
}
use pondsocket.Protocol.{ok}
use pondsocket.Subject.{
  Subject, Reaction, subscribe, unsubscribe, drop_observer, notify_observer, publish_to, publish,
}

-- Every token in use was handed out before.
abbrev pub AreOld {ℓ} : {O : Type ℓ} → ℕ → List (ℕ × O) → Type 0
AreOld n [] = Unit {0}
AreOld n ((t, o) ∷ os) = (t < n) × AreOld n os

drop_observer-last {ℓ} :
    {O : Type ℓ} (n : ℕ) (o : O) (os : List (ℕ × O))
    → AreOld n os
    → drop_observer n (os ++ (n, o) ∷ []) ≡ os
unfolding drop_observer
drop_observer-last n o [] a = ground arith
drop_observer-last n o ((t, p) ∷ os) (h, a) = ground (arith, drop_observer-last n o os a)

module _ {O T E X : Type 0} (react : O → T → Reaction E X) (on_error : X → O → List E) where
  publish_to-append :
      (os ps : List (ℕ × O)) (m : T)
      → publish_to react on_error (os ++ ps) m
        ≡ publish_to react on_error os m ++ publish_to react on_error ps m
  unfolding publish_to
  publish_to-append [] ps m = refl
  publish_to-append ((t, o) ∷ os) ps m =
      rw (publish_to-append os ps m, append_assoc (notify_observer react on_error o m)) refl

  -- A new observer of a subject hears a publication after all the earlier ones, whatever these do or
  -- throw; and when it unsubscribes, exactly the earlier observers are left.
  pub subscribe-unsubscribe :
      (o : O) (m : T) (s s' : Subject O) (token : ℕ)
      → AreOld s.next_token s.observers
      → subscribe o s ≡ ok (s', token)
      → (publish react on_error s' m
          ≡ publish react on_error s m ++ notify_observer react on_error o m)
        × ((unsubscribe token s').observers ≡ s.observers)
  unfolding subscribe unsubscribe publish publish_to
  subscribe-unsubscribe o m s s' token a h = (heard, left)
    where
      taken : (s'.observers ≡ s.observers ++ (s.next_token, o) ∷ []) × (token ≡ s.next_token)
      taken = ground (arith, h)

      heard :
          publish react on_error s' m
          ≡ publish react on_error s m ++ notify_observer react on_error o m
      heard = rw taken.0 (
          publish_to-append s.observers ((s.next_token, o) ∷ []) m
          ∙ ap (λ es. publish_to react on_error s.observers m ++ es)
              (append-nil (notify_observer react on_error o m)))

      left : (unsubscribe token s').observers ≡ s.observers
      left = rw (taken.1, taken.0) (drop_observer-last s.next_token o s.observers a)
