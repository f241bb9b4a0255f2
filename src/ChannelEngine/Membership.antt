-- ===== src/ChannelEngine/Membership.antt =====
-- What joining, leaving and closing do to the channel's users and what they send.
use pondsocket.Prelude.{
  concat, String, Bool, true, false, not, ◌&&◌, ◌||◌, some, [], ◌∷◌, ◌++◌, ◌==◌, ◌≡◌, refl,
  if◌then◌else◌, arith, eq_iff, is_empty, count, or_else,
}
use pondsocket.JsMap.{JsMap, keys, has, get, delete}
use pondsocket.JsMap.Laws.{has-set, has-delete, get-set, keys-set}
use pondsocket.Subject
use pondsocket.Protocol.{PondObject, UserData, http_error}
use pondsocket.ChannelEngine.State.{
  ChannelEngine, thrown, state, effects, has_returned, users, has_user, deliver,
}
use pondsocket.ChannelEngine.Users.{
  add_user, remove_known_user, remove_user, acknowledgement, presence_of,
}
use pondsocket.ChannelEngine.Told.{told, audience}
use pondsocket.ChannelEngine.Subscriptions.{count-audience}
use pondsocket.ChannelEngine.Invariant.{IsConsistent}
use pondsocket.ChannelEngine.Preservation.{remove_user-IsConsistent}
use pondsocket.ChannelEngine.Departure.{
  left_users, remove_known_user-closed, remove_known_user-returned, remove_known_user-assigns_cache,
  remove_known_user-user_subscriptions,
}

-- On an open, consistent engine the join of a new user succeeds. The user then comes last in the list of
-- users, with the given assigns and a subscription, and it is sent exactly one event; nobody else is sent
-- anything.
pub add_user-joins :
    (user request_id other : String) (assigns : PondObject) (c : ChannelEngine)
    → IsConsistent c
    → c.closed ≡ false
    → has_user user c ≡ false
    → let result = add_user user assigns request_id c in
      (has_returned result ≡ true)
      × (users (state result) ≡ users c ++ user ∷ [])
      × (get user (state result).assigns_cache ≡ some assigns)
      × (has user (state result).user_subscriptions ≡ true)
      × (told other (effects result) ≡ (if user == other then 1 else 0))
unfolding add_user Subject.subscribe
add_user-joins user request_id other assigns c v open_channel h = (
  ground (arith, v.sealed),
  ground (arith, v.sealed, keys-set user assigns c.assigns_cache),
  ground (arith, v.sealed, get-set user user assigns c.assigns_cache, eq_iff user user),
  ground (
    arith,
    v.sealed,
    has-set user user c.publisher.next_token c.user_subscriptions,
    eq_iff user user,
  ),
  ground (arith, v.sealed),
)

-- A second join of a user that the channel knows throws, and does nothing at all.
pub add_user-twice :
    (user request_id : String) (assigns : PondObject) (c : ChannelEngine)
    → has_user user c ≡ true
    → add_user user assigns request_id c
      ≡ thrown
          (http_error 400 (
            concat (
              "ChannelEngine: User with id " ∷ user ∷ " already exists in channel " ∷ c.name ∷ [])))
          c
          []
unfolding add_user
add_user-twice user request_id assigns c h = ground arith

-- On a closed engine a join of a new user fails with an error, yet the user has been sent the
-- acknowledgement and is listed as a user, without a subscription.
pub add_user-after-close :
    (user request_id : String) (assigns : PondObject) (c : ChannelEngine)
    → IsConsistent c
    → c.closed ≡ true
    → has_user user c ≡ false
    → let result = add_user user assigns request_id c in
      (has_returned result ≡ false)
      × (effects result ≡ deliver user (acknowledgement c request_id) ∷ [])
      × (has_user user (state result) ≡ true)
      × (has user (state result).user_subscriptions ≡ false)
unfolding add_user Subject.subscribe
add_user-after-close user request_id assigns c v shut h = (
  ground (arith, v.sealed),
  ground (arith, v.sealed),
  ground (arith, v.sealed, has-set user user assigns c.assigns_cache, eq_iff user user),
  ground (arith, v.sealed, v.known user),
)

-- What `removeUser` finds of a user with assigns.
abbrev found : String → PondObject → ChannelEngine → UserData
unfolding presence_of
found user assigns c = record {
  id = user;
  assigns = assigns;
  presence = or_else (presence_of user c) [];
}

remove_user-known :
    (user : String) (skip : Bool) (assigns : PondObject) (c : ChannelEngine)
    → get user c.assigns_cache ≡ some assigns
    → remove_user user skip c ≡ remove_known_user user skip (found user assigns c) c
unfolding remove_user presence_of
remove_user-known user skip assigns c h = ground arith

has-if :
    {V : Type 0} (b : Bool) (u : String) (m : JsMap V)
    → has u (if b then [] else m) ≡ (not b && has u m)
unfolding has
has-if true u m = refl
has-if false u m = refl

-- An empty map has no keys.
has-empty_keys :
    {V : Type 0} (u : String) (m : JsMap V) → is_empty (keys m) ≡ true → has u m ≡ false
unfolding has keys
has-empty_keys u [] h = refl
has-empty_keys u ((k, v) ∷ m) h = cc

module _ (user other : String) (skip : Bool) (assigns : PondObject) (c : ChannelEngine) where
  -- The removal of a user with assigns from a consistent engine returns. That user is then no user of the
  -- channel and has no subscriber at the publisher; every other user is a user, and has its one subscriber
  -- if it was subscribed, as before. The channel is closed if nobody is left or if it was closed before.
  pub remove_user-leaves :
      IsConsistent c
      → get user c.assigns_cache ≡ some assigns
      → let result = remove_user user skip c in
        (has_returned result ≡ true)
        × (has_user other (state result) ≡ (not (user == other) && has_user other c))
        × (count other (audience (state result).publisher.observers)
            ≡ (if not (user == other) && has other c.user_subscriptions then 1 else 0))
        × ((state result).closed ≡ (is_empty (left_users user c) || c.closed))
  unfolding has_user
  remove_user-leaves v h = rw (remove_user-known user skip assigns c h) (
    remove_known_user-returned user skip d c,
    rw (remove_known_user-assigns_cache user skip d c) (
        ground (
          arith,
          has-if (is_empty (left_users user c)) other (delete user c.assigns_cache),
          gone,
          has-delete other user c.assigns_cache,
        )),
    rw
        (
          w.matched,
          count-audience other _ w.distinct_subscriptions,
          remove_known_user-user_subscriptions user skip d c,
        )
        (ground (
          arith,
          has-delete other user c.user_subscriptions,
          has-if (is_empty (left_users user c)) other (delete user c.user_subscriptions),
          gone,
          v.known other,
          has-delete other user c.assigns_cache,
        )),
    ground (arith, remove_known_user-closed user skip d c),
  )
    where
      d : UserData
      d = found user assigns c

      gone : is_empty (left_users user c) ≡ true → has other (delete user c.assigns_cache) ≡ false
      gone = has-empty_keys other (delete user c.assigns_cache)

      w : IsConsistent (state (remove_known_user user skip d c))
      w = rw (remove_user-known user skip assigns c h) at (remove_user-IsConsistent user skip c v)
