-- ===== src/Subject.antt =====
-- javascript/comnon/src/subjects: `Subject` and `BehaviorSubject`. A `Set` of observers keeps the
-- order of subscription; each `subscribe` call is given a closure of its own, which is identified
-- here by a token. What an observer does when it is called is the caller's function.
pub mod Laws
mod Tests
use pondsocket.Prelude.{
  ℕ, suc, String, Bool, true, false, Option, none, some, List, [], ◌∷◌, ◌++◌, nat_beq,
  if◌then◌else◌, length,
}
use pondsocket.Protocol.{Result, ok, err, plain_error, ◌>>=◌}

pub record Subject {ℓ} (O : Type ℓ) : Type ℓ where
  pub is_closed : Bool
  pub observers : List (ℕ × O)
  pub next_token : ℕ

module _ {ℓ} {O : Type ℓ} where
  unfoldable pub new_subject : Subject O
  new_subject = record { is_closed = false; observers = []; next_token = 0 }

  unfoldable pub size : Subject O → ℕ
  size s = length s.observers

  -- The result is the new subject and the token that the unsubscribe closure holds.
  unfoldable pub subscribe : O → Subject O → Result (Subject O × ℕ)
  subscribe o s =
      if s.is_closed
      then err (plain_error "Cannot subscribe to a closed subject")
      else ok (
        record s {
          observers = s.observers ++ (s.next_token, o) ∷ [];
          next_token = suc s.next_token;
        },
        s.next_token,
      )

  unfoldable pub drop_observer : ℕ → List (ℕ × O) → List (ℕ × O)
  drop_observer t [] = []
  drop_observer t ((u, o) ∷ os) =
      if nat_beq u t then drop_observer t os else (u, o) ∷ drop_observer t os

  -- The closure that `subscribe` returned.
  unfoldable pub unsubscribe : ℕ → Subject O → Subject O
  unfolding drop_observer
  unsubscribe t s = record s { observers = drop_observer t s.observers }

  unfoldable pub close : Subject O → Subject O
  close s = record s { observers = []; is_closed = true }

-- What one observer's call amounts to: it returns, or it throws.
pub data Reaction {ℓ κ} (E : Type ℓ) (X : Type κ) : Type (ℓ ⊔ κ) where
  returned : List E → Reaction E X
  raised : List E → X → Reaction E X

module _ {ℓ κ μ ν} {O : Type ℓ} {T : Type κ} {E : Type μ} {X : Type ν} where
  module _ (react : O → T → Reaction E X) (on_observer_error : X → O → List E) where
    unfoldable pub notify_observer : O → T → List E
    notify_observer o message = elim (react o message) [
      | returned es ↦ es
      | raised es x ↦ es ++ on_observer_error x o
    ]

    unfoldable pub publish_to : List (ℕ × O) → T → List E
    publish_to [] message = []
    publish_to ((_, o) ∷ os) message = notify_observer o message ++ publish_to os message

    unfoldable pub publish : Subject O → T → List E
    publish s message = publish_to s.observers message

-- `BehaviorSubject`: a subject with the last message.
pub record BehaviorSubject {ℓ κ} (O : Type ℓ) (T : Type κ) : Type (ℓ ⊔ κ) where
  pub subject : Subject O
  pub last_message : Option T

module _ {ℓ κ μ ν} {O : Type ℓ} {T : Type κ} {E : Type μ} {X : Type ν} where
  module _ (react : O → T → Reaction E X) (on_observer_error : X → O → List E) where
    unfoldable pub publish_last : BehaviorSubject O T → T → BehaviorSubject O T × List E
    publish_last b message = (
      record b { last_message = some message },
      publish react on_observer_error b.subject message,
    )

    -- What a new observer hears of the last message.
    unfoldable pub heard : O → Option T → List E
    heard o none = []
    heard o (some message) = notify_observer react on_observer_error o message

    -- The new observer hears the last message, even where the subscription then fails.
    unfoldable pub subscribe_last :
        O → BehaviorSubject O T → Result (BehaviorSubject O T × ℕ) × List E
    unfolding heard
    subscribe_last o b = (
      (do joined ← subscribe o b.subject; ok (record b { subject = joined.0 }, joined.1)),
      heard o b.last_message,
    )
