-- ===== src/ChannelEngine/Subscriptions.antt =====
-- The publisher's observers and the map of unsubscribe closures: one entry for each subscribed user.
use pondsocket.Prelude.{
  ℕ, suc, ◌≤◌, String, false, some, List, [], ◌∷◌, ◌++◌, ◌≡◌, refl, if◌then◌else◌, IsDistinct,
  arith, eq_iff, count,
}
use pondsocket.JsMap.{JsMap, keys, has, get, set, delete}
use pondsocket.JsMap.Laws.{has-keys, delete_of_absent}
use pondsocket.Subject.{drop_observer}
use pondsocket.ChannelEngine.Told.{audience}

-- The observers that a map of subscriptions stands for.
abbrev pub swapped : JsMap ℕ → List (ℕ × String)
swapped [] = []
swapped ((u, t) ∷ m) = (t, u) ∷ swapped m

-- Tokens rise along the map, from one bound up to another.
abbrev pub Rising : ℕ → ℕ → JsMap ℕ → Type 0
Rising lo hi [] = lo ≤ hi
Rising lo hi ((u, t) ∷ m) = (lo ≤ t) × Rising (suc t) hi m

Rising-le : (lo lo' hi : ℕ) (m : JsMap ℕ) → lo ≤ lo' → Rising lo' hi m → Rising lo hi m
Rising-le lo lo' hi [] h r = omega arith
Rising-le lo lo' hi ((u, t) ∷ m) h r = (omega arith, r.1)

Rising-bound : (lo hi : ℕ) (m : JsMap ℕ) → Rising lo hi m → lo ≤ hi
Rising-bound lo hi [] r = r
Rising-bound lo hi ((u, t) ∷ m) r = omega (arith, Rising-bound (suc t) hi m r.1)

pub Rising-set :
    (lo hi : ℕ) (user : String) (m : JsMap ℕ)
    → has user m ≡ false
    → Rising lo hi m
    → Rising lo (suc hi) (set user hi m)
unfolding has set
Rising-set lo hi user [] h r = ground arith
Rising-set lo hi user ((u, t) ∷ m) h r = ground (arith, Rising-set (suc t) hi user m)

pub Rising-delete :
    (lo hi : ℕ) (user : String) (m : JsMap ℕ) → Rising lo hi m → Rising lo hi (delete user m)
unfolding delete
Rising-delete lo hi user [] r = r
Rising-delete lo hi user ((u, t) ∷ m) r = ground (
  arith,
  Rising-delete (suc t) hi user m r.1,
  Rising-delete lo hi user m (Rising-le lo (suc t) hi m (omega arith) r.1),
)

pub swapped-set :
    (user : String) (t : ℕ) (m : JsMap ℕ)
    → has user m ≡ false
    → swapped (set user t m) ≡ swapped m ++ (t, user) ∷ []
unfolding has set
swapped-set user t [] h = refl
swapped-set user t ((u, s) ∷ m) h = ground (arith, swapped-set user t m)

-- A token below the rest is no token of the rest.
drop_observer-below :
    (t lo hi : ℕ) (m : JsMap ℕ)
    → suc t ≤ lo
    → Rising lo hi m
    → drop_observer t (swapped m) ≡ swapped m
unfolding drop_observer
drop_observer-below t lo hi [] h r = refl
drop_observer-below t lo hi ((u, s) ∷ m) h r = ground (arith, drop_observer-below t (suc s) hi m)

get-above :
    (t lo hi : ℕ) (user : String) (m : JsMap ℕ) → Rising lo hi m → get user m ≡ some t → lo ≤ t
unfolding get
get-above t lo hi user [] r h = cc
get-above t lo hi user ((u, s) ∷ m) r h = ground (arith, get-above t (suc s) hi user m r.1)

-- To drop the observer of a user's token is to drop the user's entry.
pub drop_observer-swapped :
    (t lo hi : ℕ) (user : String) (m : JsMap ℕ)
    → IsDistinct (keys m)
    → Rising lo hi m
    → get user m ≡ some t
    → drop_observer t (swapped m) ≡ swapped (delete user m)
unfolding drop_observer delete get keys
drop_observer-swapped t lo hi user [] d r h = cc
drop_observer-swapped t lo hi user ((u, s) ∷ m) d r h = ground (
  arith,
  drop_observer-swapped t (suc s) hi user m d.1 r.1,
  drop_observer-below t (suc s) hi m,
  get-above t (suc s) hi user m r.1,
  eq_iff u user,
  has-keys u m,
  delete_of_absent u m,
)

-- Every subscribed user has one subscriber, all others have none.
pub count-audience :
    (user : String) (m : JsMap ℕ)
    → IsDistinct (keys m)
    → count user (audience (swapped m)) ≡ (if has user m then 1 else 0)
unfolding keys has
count-audience user [] d = refl
count-audience user ((u, t) ∷ m) d =
    ground (arith, count-audience user m d.1, eq_iff u user, has-keys u m)
