-- ===== src/ChannelEngine/Preservation.antt =====
-- Every operation on the channel's own users keeps the engine consistent.
use pondsocket.Prelude.{
  ℕ, suc, String, Bool, true, false, Option, List, [], ◌≡◌, refl, arith, Bool-cases, inl, inr,
  is_empty,
}
use pondsocket.JsMap.{keys, has}
use pondsocket.JsMap.Laws.{has-set, has-delete, set-IsDistinct, delete-IsDistinct}
use pondsocket.Subject
use pondsocket.ChannelEngine.Delivery.{send_message-returns_iff}
use pondsocket.Protocol.{MessageBody, PondObject, UserData, ServerActions, ChannelReceivers}
use pondsocket.ChannelEngine.State.{
  ChannelEngine, Outcome, returned, thrown, prefix, state, M, Action, ◌>>◌, Effect,
  broadcast_to_nodes,
}
use pondsocket.ChannelEngine.Messages.{send_new_message}
use pondsocket.ChannelEngine.Users.{
  add_user, update_assigns, close, cleared, merged_assigns, remove_known_user, remove_user,
  kick_user, destroy, get_user_data,
}
use pondsocket.ChannelEngine.Nodes.{new_channel_engine}
use pondsocket.ChannelEngine.Subscriptions.{Rising-set, Rising-delete, swapped-set}
use pondsocket.ChannelEngine.Invariant.{IsConsistent, SameUsers-IsConsistent, Frames}
use pondsocket.ChannelEngine.Departure.{
  left_users, remove_known_user-assigns_cache, remove_known_user-user_subscriptions,
  remove_known_user-observers, remove_known_user-next_token, remove_known_user-sealed,
}

-- A user of whom nothing is known has no subscription.
not_subscribed :
    (user : String) (c : ChannelEngine)
    → IsConsistent c
    → has user c.assigns_cache ≡ false
    → has user c.user_subscriptions ≡ false
not_subscribed user c v h = ground (arith, v.known user)

-- A consistent engine stays consistent when a user joins, also where the join throws.
pub add_user-IsConsistent :
    (user request_id : String) (assigns : PondObject) (c : ChannelEngine)
    → IsConsistent c
    → IsConsistent (state (add_user user assigns request_id c))
unfolding add_user Subject.subscribe
add_user-IsConsistent user request_id assigns c v = elim (Bool-cases (has user c.assigns_cache)) [
  | inl member ↦ rw (member, add_user) v
  | inr absent ↦ record {
    distinct_users = ground (arith, set-IsDistinct user assigns c.assigns_cache v.distinct_users);
    distinct_subscriptions = ground (
      arith,
      set-IsDistinct user c.publisher.next_token c.user_subscriptions v.distinct_subscriptions,
    );
    matched = ground (
      arith,
      v.matched,
      swapped-set user c.publisher.next_token c.user_subscriptions,
      not_subscribed user c v,
    );
    rising = ground (
      arith,
      v.rising,
      Rising-set 0 c.publisher.next_token user c.user_subscriptions,
      not_subscribed user c v,
    );
    known = λ u. ground (
      arith,
      v.known u,
      has-set u user assigns c.assigns_cache,
      has-set u user c.publisher.next_token c.user_subscriptions,
    );
    sealed = ground (arith, v.sealed);
  }
]

-- A consistent engine stays consistent when a user's assigns are updated.
pub update_assigns-IsConsistent :
    (user : String) (assigns : PondObject) (c : ChannelEngine)
    → IsConsistent c
    → IsConsistent (state (update_assigns user assigns c))
unfolding update_assigns
update_assigns-IsConsistent user assigns c v = record {
  distinct_users = ground (
    arith,
    v.distinct_users,
    set-IsDistinct user (merged_assigns user assigns c) c.assigns_cache v.distinct_users,
  );
  distinct_subscriptions = ground (arith, v.distinct_subscriptions);
  matched = ground (arith, v.matched);
  rising = ground (arith, v.rising);
  known = λ u.
      ground (arith, v.known u, has-set u user (merged_assigns user assigns c) c.assigns_cache);
  sealed = ground (arith, v.sealed);
}

pub state-close : (c : ChannelEngine) → state (close c) ≡ cleared c
unfolding close
state-close c = ground arith

pub cleared-IsConsistent : (c : ChannelEngine) → IsConsistent (cleared c)
unfolding cleared Subject.close keys has
cleared-IsConsistent c = record {
  distinct_users = tt;
  distinct_subscriptions = tt;
  matched = refl;
  rising = omega arith;
  known = λ u h. h;
  sealed = refl;
}

-- A method that keeps the engine consistent, whether it returns or throws.
pub record Keeps {A : Type 0} (m : M A) : Type 0 where
  pub keeps : (c : ChannelEngine) → IsConsistent c → IsConsistent (state (m c))

state-prefix : {A : Type 0} (es : List Effect) (o : Outcome A) → state (prefix es o) ≡ state o
state-prefix es (returned a c fs) = refl
state-prefix es (thrown x c fs) = refl

pub >>-Keeps : {m k : Action} → Keeps m → Keeps k → Keeps (m >> k)
>>-Keeps {m} {k} hm hk = record { keeps = λ c v. after (m c) (hm.keeps c v) }
  where
    after :
        (o : Outcome (Unit {0}))
        → IsConsistent (state o)
        → IsConsistent (
            state
              (elim o [ returned a c' es ↦ prefix es (k c') | thrown x c' es ↦ thrown x c' es ]))
    after (returned a c' es) w = rw (state-prefix es (k c')) (hk.keeps c' w)
    after (thrown x c' es) w = w

pub Frames-Keeps : {A : Type 0} {m : M A} → Frames m → Keeps m
Frames-Keeps f = record { keeps = λ c v. SameUsers-IsConsistent (f.frames c) v }

pub close-Keeps : Keeps close
close-Keeps = record { keeps = λ c v. rw (state-close c) (cleared-IsConsistent c) }

module _ (user : String) (skip : Bool) (d : UserData) (c : ChannelEngine) (v : IsConsistent c) where
  -- The last user's departure closes the channel.
  emptied-IsConsistent :
      is_empty (left_users user c) ≡ true → IsConsistent (state (remove_known_user user skip d c))
  unfolding keys has
  emptied-IsConsistent e = record {
    distinct_users = rw (remove_known_user-assigns_cache user skip d c, e) tt;
    distinct_subscriptions = rw (remove_known_user-user_subscriptions user skip d c, e) tt;
    matched =
        rw (remove_known_user-user_subscriptions user skip d c)
          (remove_known_user-observers user skip d c v);
    rising = rw (remove_known_user-user_subscriptions user skip d c, e) (omega arith);
    known = λ u.
        rw
          (
            remove_known_user-user_subscriptions user skip d c,
            remove_known_user-assigns_cache user skip d c,
            e,
          )
          (λ h. h);
    sealed = remove_known_user-sealed user skip d c v.sealed;
  }

  remaining-IsConsistent :
      is_empty (left_users user c) ≡ false → IsConsistent (state (remove_known_user user skip d c))
  remaining-IsConsistent e = record {
    distinct_users =
        rw (remove_known_user-assigns_cache user skip d c, e)
          (delete-IsDistinct user c.assigns_cache v.distinct_users);
    distinct_subscriptions =
        rw (remove_known_user-user_subscriptions user skip d c, e)
          (delete-IsDistinct user c.user_subscriptions v.distinct_subscriptions);
    matched =
        rw (remove_known_user-user_subscriptions user skip d c)
          (remove_known_user-observers user skip d c v);
    rising =
        rw
          (
            remove_known_user-user_subscriptions user skip d c,
            remove_known_user-next_token user skip d c e,
            e,
          )
          (Rising-delete 0 c.publisher.next_token user c.user_subscriptions v.rising);
    known = λ u.
        rw
          (
            remove_known_user-user_subscriptions user skip d c,
            remove_known_user-assigns_cache user skip d c,
            e,
          )
          (ground (
            arith,
            v.known u,
            has-delete u user c.user_subscriptions,
            has-delete u user c.assigns_cache,
          ));
    sealed = remove_known_user-sealed user skip d c v.sealed;
  }

  remove_known_user-IsConsistent : IsConsistent (state (remove_known_user user skip d c))
  remove_known_user-IsConsistent = elim (Bool-cases (is_empty (left_users user c))) [
    | inl e ↦ emptied-IsConsistent e
    | inr e ↦ remaining-IsConsistent e
  ]

pub remove_user-Keeps : (user : String) (skip : Bool) → Keeps (remove_user user skip)
unfolding remove_user
remove_user-Keeps user skip = record { keeps = λ c v. attempt c v (get_user_data user c) }
  where
    attempt :
        (c : ChannelEngine)
        → IsConsistent c
        → (o : Outcome UserData)
        → IsConsistent (
            state (elim o [
              | Outcome.thrown _ _ _ ↦ returned tt c []
              | Outcome.returned d _ _ ↦ remove_known_user user skip d c
            ]))
    attempt c v (thrown x c' es) = v
    attempt c v (returned d c' es) = remove_known_user-IsConsistent user skip d c v

pub send_new_message-Frames :
    (sender : String) (r : ChannelReceivers) (action : ServerActions) (event : String)
    (p : PondObject)
    → Frames (send_new_message sender r action event p)
unfolding send_new_message
send_new_message-Frames sender r action event p = record {
  frames = λ c. ground (
    arith,
    send_message-returns_iff sender event (c.uuids c.drawn) r action p
        (record c { drawn = suc c.drawn }),
  );
}

pub broadcast_to_nodes-Frames : (body : MessageBody) → Frames (broadcast_to_nodes body)
unfolding broadcast_to_nodes
broadcast_to_nodes-Frames body = record { frames = λ c. ground arith }

pub ruleset keeping = (
  >>-Keeps, Frames-Keeps, send_new_message-Frames, broadcast_to_nodes-Frames, remove_user-Keeps,
  close-Keeps,
)

pub kick_user-Keeps : (user reason : String) → Keeps (kick_user user reason)
unfolding kick_user
kick_user-Keeps user reason = search keeping

pub destroy-Keeps : (reason : Option String) → Keeps (destroy reason)
unfolding destroy
destroy-Keeps reason = search keeping

pub new_channel_engine-IsConsistent :
    (name path : String) (backend : Option ℕ) (leave_callback : Bool) (uuids : ℕ → String)
    → IsConsistent (new_channel_engine name path backend leave_callback uuids)
unfolding new_channel_engine Subject.new_subject keys has
new_channel_engine-IsConsistent name path backend leave_callback uuids = record {
  distinct_users = tt;
  distinct_subscriptions = tt;
  matched = refl;
  rising = omega arith;
  known = λ u h. h;
  sealed = refl;
}

-- A consistent engine stays consistent when a user is removed, whoever that is and whether or not other
-- nodes are told.
pub remove_user-IsConsistent :
    (user : String) (skip : Bool) (c : ChannelEngine)
    → IsConsistent c
    → IsConsistent (state (remove_user user skip c))
remove_user-IsConsistent user skip c v = (remove_user-Keeps user skip).keeps c v

-- A consistent engine stays consistent when a user is kicked, also where that throws.
pub kick_user-IsConsistent :
    (user reason : String) (c : ChannelEngine)
    → IsConsistent c
    → IsConsistent (state (kick_user user reason c))
kick_user-IsConsistent user reason c v = (kick_user-Keeps user reason).keeps c v

-- A consistent engine stays consistent when the channel is destroyed.
pub destroy-IsConsistent :
    (reason : Option String) (c : ChannelEngine)
    → IsConsistent c
    → IsConsistent (state (destroy reason c))
destroy-IsConsistent reason c v = (destroy-Keeps reason).keeps c v
