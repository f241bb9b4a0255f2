-- ===== src/ChannelEngine/Refinement.antt =====
-- A channel engine as a register of users: a map from a user to its assigns, which joins, departures and updates
-- of assigns change, and nothing else does.
use pondsocket.Prelude.{
  String, Bool, false, List, [], ◌∷◌, ◌≡◌, refl, sym, arith, ap, ◌∙◌, if◌then◌else◌, is_empty,
  or_else,
}
use pondsocket.JsMap.{JsMap, get, has, set, delete, keys, spread}
use pondsocket.JsMap.Laws.{has-get, delete_of_absent}
use pondsocket.Subject
use pondsocket.Protocol.{PondObject, UserData, ChannelReceivers, ServerActions}
use pondsocket.ChannelEngine.State.{
  ChannelEngine, Outcome, returned, thrown, state, has_returned, Action,
}
use pondsocket.ChannelEngine.Users.{
  add_user, update_assigns, remove_user, remove_known_user, get_user_data,
}
use pondsocket.ChannelEngine.Messages.{send_message}
use pondsocket.ChannelEngine.Presence.{
  track_presence, update_presence, upsert_presence, remove_presence,
}
use pondsocket.ChannelEngine.Invariant.{
  track_presence-Frames, update_presence-Frames, upsert_presence-Frames, remove_presence-Frames,
}
use pondsocket.ChannelEngine.Delivery.{send_message-returns_iff}
use pondsocket.ChannelEngine.Departure.{remove_known_user-assigns_cache}

-- What is asked of a channel.
pub data Request : Type 0 where
  joins : String → String → PondObject → Request
  leaves : String → Bool → Request
  updates : String → PondObject → Request
  tracks changes_presence upserts : String → PondObject → Request
  untracks : String → Request
  sends : String → ChannelReceivers → ServerActions → String → PondObject → String → Request

-- The engine's method for a request.
abbrev pub served : Request → Action
served (joins user request_id assigns) = add_user user assigns request_id
served (leaves user skip) = remove_user user skip
served (updates user assigns) = update_assigns user assigns
served (tracks user presence) = track_presence user presence
served (changes_presence user presence) = update_presence user presence
served (upserts user presence) = upsert_presence user presence
served (untracks user) = remove_presence user
served (sends sender recipient action event payload request_id) =
    send_message sender recipient action event payload request_id

-- The engine after some requests, each of which may throw.
abbrev pub serve : List Request → ChannelEngine → ChannelEngine
serve [] c = c
serve (r ∷ rs) c = serve rs (state (served r c))

-- The same requests on the register.
abbrev pub registered : Request → JsMap PondObject → JsMap PondObject
registered (joins user request_id assigns) m = if has user m then m else set user assigns m
registered (leaves user skip) m = delete user m
registered (updates user assigns) m =
    if has user m then set user (spread (or_else (get user m) []) assigns) m else m
registered _ m = m

abbrev pub register : List Request → JsMap PondObject → JsMap PondObject
register [] m = m
register (r ∷ rs) m = register rs (registered r m)

add_user-register :
    (user request_id : String) (assigns : PondObject) (c : ChannelEngine)
    → (state (add_user user assigns request_id c)).assigns_cache
      ≡ registered (joins user request_id assigns) c.assigns_cache
unfolding add_user Subject.subscribe
add_user-register user request_id assigns c = ground arith

update_assigns-register :
    (user : String) (assigns : PondObject) (c : ChannelEngine)
    → (state (update_assigns user assigns c)).assigns_cache
      ≡ registered (updates user assigns) c.assigns_cache
unfolding update_assigns
update_assigns-register user assigns c = ground arith

empty_of_keys : {V : Type 0} (m : JsMap V) → (if is_empty (keys m) then [] else m) ≡ m
unfolding keys
empty_of_keys [] = refl
empty_of_keys (e ∷ m) = refl

absent_of_thrown :
    (user : String) (c : ChannelEngine)
    → has_returned (get_user_data user c) ≡ false
    → has user c.assigns_cache ≡ false
unfolding get_user_data
absent_of_thrown user c h = ground (arith, has-get user c.assigns_cache)

remove_user-register :
    (user : String) (skip : Bool) (c : ChannelEngine)
    → (state (remove_user user skip c)).assigns_cache ≡ delete user c.assigns_cache
unfolding remove_user
remove_user-register user skip c = answered (get_user_data user c) (absent_of_thrown user c)
  where
    answered :
        (o : Outcome UserData)
        → (has_returned o ≡ false → has user c.assigns_cache ≡ false)
        → (state (elim o as (λ _. Outcome (Unit {0})) [
          | thrown _ _ _ ↦ returned tt c []
          | returned d _ _ ↦ remove_known_user user skip d c
        ])).assigns_cache
          ≡ delete user c.assigns_cache
    answered (thrown x d es) h = sym (delete_of_absent user c.assigns_cache (h refl))
    answered (returned d e es) h =
        remove_known_user-assigns_cache user skip d c ∙ empty_of_keys (delete user c.assigns_cache)

served-register :
    (r : Request) (c : ChannelEngine)
    → (state (served r c)).assigns_cache ≡ registered r c.assigns_cache
served-register (joins user request_id assigns) c = add_user-register user request_id assigns c
served-register (leaves user skip) c = remove_user-register user skip c
served-register (updates user assigns) c = update_assigns-register user assigns c
served-register (tracks user presence) c = ((track_presence-Frames user presence).frames c).assigns
served-register (changes_presence user presence) c =
    ((update_presence-Frames user presence).frames c).assigns
served-register (upserts user presence) c =
    ((upsert_presence-Frames user presence).frames c).assigns
served-register (untracks user) c = ((remove_presence-Frames user).frames c).assigns
served-register (sends sender recipient action event payload request_id) c =
    ap (λ d. d.assigns_cache)
      (send_message-returns_iff sender event request_id recipient action payload c).1

-- Whatever requests a channel engine serves, and in whatever order, its users with their assigns are those of a
-- plain register that takes the same requests: a join of a known user changes nothing, as does an update of an
-- unknown one, and presences and messages never change it.
pub serve-register :
    (rs : List Request) (c : ChannelEngine)
    → (serve rs c).assigns_cache ≡ register rs c.assigns_cache
serve-register [] c = refl
serve-register (r ∷ rs) c =
    serve-register rs (state (served r c)) ∙ ap (register rs) (served-register r c)
