-- ===== src/ChannelEngine/Forgetting.antt =====
-- What is left of a channel engine after the users of a node, and the node, are forgotten.
use pondsocket.Prelude.{
  String, Bool, true, false, ◌||◌, Option, none, List, [], ◌∷◌, ◌==◌, ◌≡◌, refl, sym, ap, ◌∙◌,
  if◌then◌else◌, arith, eq_iff, inl, inr, or_else, includes, subst, Option-cases,
}
use pondsocket.JsMap.{get, delete}
use pondsocket.JsMap.Laws.{get-delete, has-get}
use pondsocket.Protocol.{PondObject, leave}
use pondsocket.Presence
use pondsocket.Presence.Laws.{process_presence_action-accepts}
use pondsocket.ChannelEngine.State.{
  ChannelEngine, Outcome, returned, thrown, state, has_returned, prefix, Action,
}
use pondsocket.ChannelEngine.Presence.{safe_remove_presence, call_presence_engine}
use pondsocket.ChannelEngine.Users.{presence_of}
use pondsocket.ChannelEngine.Nodes.{forget_user, forget_users, forget_node}
use pondsocket.ChannelEngine.Sync.{state-then, returned-then}

-- What the parts of a cleanup leave alone.
record Leaves (c d : ChannelEngine) : Type 0 where
  users_of_nodes : d.node_users ≡ c.node_users
  seen : d.node_last_seen ≡ c.node_last_seen

-- The removal of one user.
forget_user_returned :
    (user : String) (c : ChannelEngine) → has_returned (forget_user user c) ≡ true
unfolding forget_user safe_remove_presence
forget_user_returned user c = ground arith

-- What an engine knows of a user: its assigns and its presence.
abbrev pub known : String → ChannelEngine → Option PondObject × Option PondObject
known user c = (get user c.assigns_cache, presence_of user c)

forget_user-assigns :
    (user u : String) (c : ChannelEngine)
    → get u (state (forget_user user c)).assigns_cache
      ≡ (if user == u then none else get u c.assigns_cache)
unfolding forget_user safe_remove_presence
forget_user-assigns user u c = ground (arith, get-delete u user c.assigns_cache)

forget_user-presence :
    (user u : String) (c : ChannelEngine)
    → presence_of u (state (forget_user user c)) ≡ (if user == u then none else presence_of u c)
unfolding forget_user safe_remove_presence presence_of call_presence_engine Presence.remove_presence
    Presence.write
forget_user-presence user u c = elim (Option-cases c.presence_engine) [
  | inl missing ↦ ground arith
  | inr (e, there) ↦ ground (
    arith,
    process_presence_action-accepts leave user (c.uuids c.drawn) none e,
    get-delete u user e.cache,
    has-get user e.cache,
    eq_iff user u,
  )
]

if-pair :
    (b : Bool) (assigns presence : Option PondObject)
    → ◌≡◌ {A = Option PondObject × Option PondObject}
        (if b then none else assigns, if b then none else presence)
        (if b then (none, none) else (assigns, presence))
if-pair true assigns presence = refl
if-pair false assigns presence = refl

forget_user-known :
    (user u : String) (c : ChannelEngine)
    → known u (state (forget_user user c)) ≡ (if user == u then (none, none) else known u c)
forget_user-known user u c =
    rw (forget_user-assigns user u c, forget_user-presence user u c) (if-pair (user == u) _ _)

forget_user-Leaves : (user : String) (c : ChannelEngine) → Leaves c (state (forget_user user c))
unfolding forget_user safe_remove_presence
forget_user-Leaves user c = record { users_of_nodes = ground arith; seen = ground arith }

record Forgets (us : List String) (c : ChannelEngine) (o : Outcome (Unit {0})) : Type 0 where
  ended : has_returned o ≡ true
  left : (u : String) → known u (state o) ≡ (if includes us u then (none, none) else known u c)
  leaves : Leaves c (state o)

-- One of two removals after the other.
pub either {ℓ} :
    {A : Type ℓ} (gone a : A) (b b' : Bool)
    → (if b' then gone else if b then gone else a) ≡ (if b || b' then gone else a)
either gone a true true = refl
either gone a true false = refl
either gone a false true = refl
either gone a false false = refl

forget_users-Forgets : (us : List String) (c : ChannelEngine) → Forgets us c (forget_users us c)
unfolding forget_users
forget_users-Forgets [] c = record {
  ended = refl;
  left = λ u. refl;
  leaves = record { users_of_nodes = refl; seen = refl };
}
forget_users-Forgets (user ∷ us) c =
    let d = state (forget_user user c) in
    let ih = forget_users-Forgets us d in
    let r = forget_user_returned user c in
    record {
      ended = returned-then (forget_user user) (forget_users us) c r ∙ ih.ended;
      left = λ u.
          ap (known u) (state-then (forget_user user) (forget_users us) c r)
          ∙ ih.left u
          ∙ rw (forget_user-known user u c) (either _ (known u c) (user == u) (includes us u));
      leaves =
          subst (Leaves c) (sym (state-then (forget_user user) (forget_users us) c r)) (record {
            users_of_nodes = ih.leaves.users_of_nodes ∙ (forget_user-Leaves user c).users_of_nodes;
            seen = ih.leaves.seen ∙ (forget_user-Leaves user c).seen;
          });
    }

forget_node-state :
    (node : String) (c : ChannelEngine)
    → (state (forget_node node c) ≡ (
        let d = state (forget_users (or_else (get node c.node_users) []) c) in
        record d {
          node_users = delete node d.node_users;
          node_last_seen = delete node d.node_last_seen;
        }))
      × (has_returned (forget_node node c)
          ≡ has_returned (forget_users (or_else (get node c.node_users) []) c))
unfolding forget_node
forget_node-state node c =
    after (forget_users (or_else (get node c.node_users) []) c)
      (forget_users-Forgets (or_else (get node c.node_users) []) c).ended
  where
    finish : Action
    finish = λ e.
        returned tt
          (record e {
            node_users = delete node e.node_users;
            node_last_seen = delete node e.node_last_seen;
          })
          []

    after :
        (o : Outcome (Unit {0}))
        → has_returned o ≡ true
        → (state (
              prefix [] (elim o [
                | returned a c' es ↦ prefix es (finish c')
                | thrown x c' es ↦ thrown x c' es
              ]))
            ≡ (let d = state o in
                record d {
                  node_users = delete node d.node_users;
                  node_last_seen = delete node d.node_last_seen;
                }))
          × (has_returned (
                prefix [] (elim o [
                  | returned a c' es ↦ prefix es (finish c')
                  | thrown x c' es ↦ thrown x c' es
                ]))
              ≡ has_returned o)
    after (returned a c' es) h = (refl, refl)
    after (thrown x c' es) h = cc

-- The state after a node is forgotten, and that this cannot fail.
pub record Drops (node : String) (c : ChannelEngine) (o : Outcome (Unit {0})) : Type 0 where
  pub ended : has_returned o ≡ true
  pub left :
      (u : String)
      → known u (state o)
        ≡ (if includes (or_else (get node c.node_users) []) u then (none, none) else known u c)
  pub users_of_nodes : (state o).node_users ≡ delete node c.node_users
  pub seen : (state o).node_last_seen ≡ delete node c.node_last_seen

pub forget_node-Drops : (node : String) (c : ChannelEngine) → Drops node c (forget_node node c)
unfolding forget_users get presence_of
forget_node-Drops node c =
    let f = forget_users-Forgets (or_else (get node c.node_users) []) c in
    let s = forget_node-state node c in
    record {
      ended = s.1 ∙ f.ended;
      left = λ u. ap (known u) s.0 ∙ f.left u;
      users_of_nodes = ap (λ e. e.node_users) s.0 ∙ ap (delete node) f.leaves.users_of_nodes;
      seen = ap (λ e. e.node_last_seen) s.0 ∙ ap (delete node) f.leaves.seen;
    }
