-- ===== src/ChannelEngine/Invariant.antt =====
-- The invariant of a channel engine: users and subscriptions are kept once each, every subscribed user
-- is a user of the channel, and the publisher's observers are exactly the recorded subscriptions.
use pondsocket.Prelude.{
  String, true, none, some, ◌≡◌, refl, IsDistinct, arith, Option-cases, inl, inr, ◌⊎◌,
}
use pondsocket.JsMap.{keys, has}
use pondsocket.Presence.{PresenceEngine}
use pondsocket.Protocol.{PondObject, Result, InternalChannelEvent}
use pondsocket.ChannelEngine.State.{ChannelEngine, state, M}
use pondsocket.ChannelEngine.Presence.{
  call_presence_engine, track_presence, update_presence, upsert_presence, remove_presence,
  safe_remove_presence,
}
use pondsocket.ChannelEngine.Subscriptions.{swapped, Rising}

pub record IsConsistent (c : ChannelEngine) : Type 0 where
  pub distinct_users : IsDistinct (keys c.assigns_cache)
  pub distinct_subscriptions : IsDistinct (keys c.user_subscriptions)
  pub matched : c.publisher.observers ≡ swapped c.user_subscriptions
  pub rising : Rising 0 c.publisher.next_token c.user_subscriptions
  pub known :
      (user : String) → has user c.user_subscriptions ≡ true → has user c.assigns_cache ≡ true
  pub sealed : c.closed ≡ c.publisher.is_closed

-- Two states with the same users and the same subscriptions.
pub record SameUsers (c d : ChannelEngine) : Type 0 where
  pub assigns : d.assigns_cache ≡ c.assigns_cache
  pub subscriptions : d.user_subscriptions ≡ c.user_subscriptions
  pub publishers : d.publisher ≡ c.publisher
  pub closing : d.closed ≡ c.closed

pub SameUsers-IsConsistent : {c d : ChannelEngine} → SameUsers c d → IsConsistent c → IsConsistent d
SameUsers-IsConsistent {c} {d} s v = record {
  distinct_users = rw s.assigns v.distinct_users;
  distinct_subscriptions = rw s.subscriptions v.distinct_subscriptions;
  matched = rw (s.publishers, s.subscriptions) v.matched;
  rising = rw (s.publishers, s.subscriptions) v.rising;
  known = λ user h. rw s.assigns (v.known user (rw s.subscriptions at h));
  sealed = rw (s.publishers, s.closing) v.sealed;
}

pub SameUsers-refl : (c : ChannelEngine) → SameUsers c c
SameUsers-refl c = record {
  assigns = refl;
  subscriptions = refl;
  publishers = refl;
  closing = refl;
}

pub SameUsers-trans : {c d e : ChannelEngine} → SameUsers c d → SameUsers d e → SameUsers c e
SameUsers-trans {c} {d} {e} s t = ground arith

-- A method that leaves users and subscriptions as they are, whether it returns or throws.
pub record Frames {A : Type 0} (m : M A) : Type 0 where
  pub frames : (c : ChannelEngine) → SameUsers c (state (m c))

pub call_presence_engine-Frames :
    (op : String → PresenceEngine → Result (PresenceEngine × InternalChannelEvent))
    → Frames (call_presence_engine op)
unfolding call_presence_engine
call_presence_engine-Frames op = record { frames = λ c. split c (Option-cases c.presence_engine) }
  where
    split :
        (c : ChannelEngine)
        → (c.presence_engine ≡ none) ⊎ ((e : PresenceEngine) × (c.presence_engine ≡ some e))
        → SameUsers c (state (call_presence_engine op c))
    split c (inl missing) = ground arith
    split c (inr (e, there)) = ground arith

pub safe_remove_presence-Frames : (user : String) → Frames (safe_remove_presence user)
unfolding safe_remove_presence
safe_remove_presence-Frames user = record { frames = λ c. ground arith }

pub track_presence-Frames : (user : String) (p : PondObject) → Frames (track_presence user p)
unfolding track_presence
track_presence-Frames user p = record { frames = λ c. ground arith }

pub update_presence-Frames : (user : String) (p : PondObject) → Frames (update_presence user p)
unfolding update_presence
update_presence-Frames user p = record { frames = λ c. ground arith }

pub upsert_presence-Frames : (user : String) (p : PondObject) → Frames (upsert_presence user p)
unfolding upsert_presence
upsert_presence-Frames user p = record { frames = λ c. ground arith }

pub remove_presence-Frames : (user : String) → Frames (remove_presence user)
unfolding remove_presence
remove_presence-Frames user = record { frames = λ c. ground arith }
