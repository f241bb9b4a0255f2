-- ===== src/ChannelEngine/Departure.antt =====
-- What `removeUser` leaves behind, field by field.
use pondsocket.Prelude.{
  String, Bool, true, false, List, [], ◌≡◌, if◌then◌else◌, is_empty, arith, Option-cases, inl, inr,
}
use pondsocket.JsMap.{keys, get, delete}
use pondsocket.JsMap.Laws.{has-get, delete_of_absent}
use pondsocket.Subject
use pondsocket.Protocol.{UserData}
use pondsocket.ChannelEngine.State.{ChannelEngine, state, has_returned}
use pondsocket.ChannelEngine.Invariant.{IsConsistent}
use pondsocket.ChannelEngine.Subscriptions.{swapped, drop_observer-swapped}
use pondsocket.ChannelEngine.Users.{remove_known_user}

-- The users that are left.
abbrev pub left_users : String → ChannelEngine → List String
left_users user c = keys (delete user c.assigns_cache)

module _ (user : String) (skip : Bool) (d : UserData) (c : ChannelEngine) where
  pub remove_known_user-assigns_cache :
      (state (remove_known_user user skip d c)).assigns_cache
      ≡ (if is_empty (left_users user c) then [] else delete user c.assigns_cache)
  unfolding remove_known_user
  remove_known_user-assigns_cache = ground arith

  pub remove_known_user-user_subscriptions :
      (state (remove_known_user user skip d c)).user_subscriptions
      ≡ (if is_empty (left_users user c) then [] else delete user c.user_subscriptions)
  unfolding remove_known_user
  remove_known_user-user_subscriptions =
      ground (arith, delete_of_absent user c.user_subscriptions, has-get user c.user_subscriptions)

  pub remove_known_user-observers :
      IsConsistent c
      → (state (remove_known_user user skip d c)).publisher.observers
        ≡ swapped (if is_empty (left_users user c) then [] else delete user c.user_subscriptions)
  unfolding remove_known_user Subject.close Subject.unsubscribe
  remove_known_user-observers v = elim (Option-cases (get user c.user_subscriptions)) [
    | inl absent ↦ ground (
      arith,
      v.matched,
      delete_of_absent user c.user_subscriptions,
      has-get user c.user_subscriptions,
    )
    | inr (t, there) ↦ ground (
      arith,
      v.matched,
      drop_observer-swapped t 0 c.publisher.next_token user c.user_subscriptions
          v.distinct_subscriptions v.rising there,
    )
  ]

  pub remove_known_user-next_token :
      is_empty (left_users user c) ≡ false
      → (state (remove_known_user user skip d c)).publisher.next_token ≡ c.publisher.next_token
  unfolding remove_known_user Subject.unsubscribe
  remove_known_user-next_token h = ground arith

  pub remove_known_user-sealed :
      c.closed ≡ c.publisher.is_closed
      → (state (remove_known_user user skip d c)).closed
        ≡ (state (remove_known_user user skip d c)).publisher.is_closed
  unfolding remove_known_user Subject.close Subject.unsubscribe
  remove_known_user-sealed v = ground arith

  -- The departure of the last user closes the channel.
  pub remove_known_user-closed :
      (state (remove_known_user user skip d c)).closed
      ≡ (if is_empty (left_users user c) then true else c.closed)
  unfolding remove_known_user
  remove_known_user-closed = ground arith

  pub remove_known_user-returned : has_returned (remove_known_user user skip d c) ≡ true
  unfolding remove_known_user
  remove_known_user-returned = ground arith
