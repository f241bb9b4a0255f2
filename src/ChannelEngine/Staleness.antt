-- ===== src/ChannelEngine/Staleness.antt =====
-- The removal of nodes that have not been heard of.
use pondsocket.Prelude.{
  ℕ, String, Bool, true, false, ◌&&◌, ◌||◌, Option, none, some, List, [], ◌∷◌, ◌++◌, ◌==◌, ◌≡◌,
  refl, ap, ◌∙◌, if◌then◌else◌, arith, eq_iff, Bool-cases, inl, inr, or_else, includes,
  includes-append, IsDistinct, leb, ◌+◌,
}
use pondsocket.JsMap.{JsMap, get, delete, keys}
use pondsocket.JsMap.Laws.{get-delete}
use pondsocket.ChannelEngine.State.{ChannelEngine, Outcome, state, has_returned, ◌>>◌, when}
use pondsocket.ChannelEngine.Nodes.{forget_node, is_stale, cleanup_loop, cleanup_stale_nodes}
use pondsocket.ChannelEngine.Sync.{state-then, returned-then}
use pondsocket.ChannelEngine.Forgetting.{known, either, forget_node-Drops}

-- The users of the stale nodes among some entries.
abbrev pub stale_users : ℕ → ℕ → JsMap ℕ → JsMap (List String) → List String
stale_users timeout now [] users = []
stale_users timeout now ((node, last_seen) ∷ more) users =
    (if leb (last_seen + timeout) now then or_else (get node users) [] else [])
    ++ stale_users timeout now more users

-- What is left of the time when a node was last heard of.
abbrev pub unless_stale : ℕ → ℕ → Option ℕ → Option ℕ
unless_stale timeout now none = none
unless_stale timeout now (some last_seen) =
    if leb (last_seen + timeout) now then none else some last_seen

stale_users-delete :
    (timeout now : ℕ) (node : String) (entries : JsMap ℕ) (users : JsMap (List String))
    → includes (keys entries) node ≡ false
    → stale_users timeout now entries (delete node users) ≡ stale_users timeout now entries users
unfolding keys
stale_users-delete timeout now node [] users h = refl
stale_users-delete timeout now node ((other, last_seen) ∷ more) users h = ground (
  arith,
  stale_users-delete timeout now node more users,
  get-delete other node users,
  eq_iff node other,
  eq_iff other node,
)

-- A node is stale among some entries.
abbrev has_stale : ℕ → ℕ → String → JsMap ℕ → Bool
has_stale timeout now node [] = false
has_stale timeout now node ((other, last_seen) ∷ more) =
    (leb (last_seen + timeout) now && other == node) || has_stale timeout now node more

record Cleans (timeout now : ℕ) (entries : JsMap ℕ) (c : ChannelEngine) (o : Outcome (Unit {0}))
    : Type 0 where
  ended : has_returned o ≡ true
  left :
      (u : String)
      → known u (state o) ≡ (
          if includes (stale_users timeout now entries c.node_users) u
          then (none, none)
          else known u c)
  users_of_nodes :
      (node : String)
      → get node (state o).node_users
        ≡ (if has_stale timeout now node entries then none else get node c.node_users)
  seen :
      (node : String)
      → get node (state o).node_last_seen
        ≡ (if has_stale timeout now node entries then none else get node c.node_last_seen)

module _ (timeout now : ℕ) (node : String) (last_seen : ℕ) (more : JsMap ℕ)
    (c : ChannelEngine) where
  stale-Cleans :
      is_stale timeout now last_seen ≡ true
      → includes (keys more) node ≡ false
      → Cleans timeout now more
          (state (forget_node node c))
          (cleanup_loop timeout now more (state (forget_node node c)))
      → Cleans timeout now
          ((node, last_seen) ∷ more)
          c
          ((forget_node node >> cleanup_loop timeout now more) c)
  stale-Cleans stale fresh ih =
      let r = forget_node-Drops node c in
      let there = state-then (forget_node node) (cleanup_loop timeout now more) c r.ended in
      record {
        ended =
            returned-then (forget_node node) (cleanup_loop timeout now more) c r.ended ∙ ih.ended;
        left = λ u.
            ap (known u) there
            ∙ ih.left u
            ∙ rw
                (
                  r.users_of_nodes,
                  stale_users-delete timeout now node more c.node_users fresh,
                  r.left u,
                  stale,
                  includes-append (or_else (get node c.node_users) [])
                      (stale_users timeout now more c.node_users) u,
                )
                (either _ (known u c) (includes (or_else (get node c.node_users) []) u)
                  (includes (stale_users timeout now more c.node_users) u));
        users_of_nodes = λ other.
            ap (λ e. get other e.node_users) there
            ∙ ih.users_of_nodes other
            ∙ rw (r.users_of_nodes, get-delete other node c.node_users, stale) (ground arith);
        seen = λ other.
            ap (λ e. get other e.node_last_seen) there
            ∙ ih.seen other
            ∙ rw (r.seen, get-delete other node c.node_last_seen, stale) (ground arith);
      }

  alive-Cleans :
      is_stale timeout now last_seen ≡ false
      → Cleans timeout now more c (cleanup_loop timeout now more c)
      → Cleans timeout now
          ((node, last_seen) ∷ more)
          c
          ((when false (forget_node node) >> cleanup_loop timeout now more) c)
  alive-Cleans alive ih =
      let there =
        state-then (when false (forget_node node)) (cleanup_loop timeout now more) c refl in
      record {
        ended =
            returned-then (when false (forget_node node)) (cleanup_loop timeout now more) c refl
            ∙ ih.ended;
        left = λ u. ap (known u) there ∙ ih.left u ∙ rw alive refl;
        users_of_nodes = λ other.
            ap (λ e. get other e.node_users) there ∙ ih.users_of_nodes other ∙ rw alive refl;
        seen = λ other. ap (λ e. get other e.node_last_seen) there ∙ ih.seen other ∙ rw alive refl;
      }

cleanup_loop-Cleans :
    (timeout now : ℕ) (entries : JsMap ℕ) (c : ChannelEngine)
    → IsDistinct (keys entries)
    → Cleans timeout now entries c (cleanup_loop timeout now entries c)
unfolding cleanup_loop keys
cleanup_loop-Cleans timeout now [] c d = record {
  ended = refl;
  left = λ u. refl;
  users_of_nodes = λ node. refl;
  seen = λ node. refl;
}
cleanup_loop-Cleans timeout now ((node, last_seen) ∷ more) c (fresh, d) =
    elim (Bool-cases (is_stale timeout now last_seen)) [
      | inl stale ↦ rw stale (
          stale-Cleans timeout now node last_seen more c stale fresh
            (cleanup_loop-Cleans timeout now more (state (forget_node node c)) d))
      | inr alive ↦ rw alive (
          alive-Cleans timeout now node last_seen more c alive
            (cleanup_loop-Cleans timeout now more c d))
    ]

has_stale-keys :
    (timeout now : ℕ) (node : String) (entries : JsMap ℕ)
    → includes (keys entries) node ≡ false
    → has_stale timeout now node entries ≡ false
unfolding keys
has_stale-keys timeout now node [] h = refl
has_stale-keys timeout now node ((other, last_seen) ∷ more) h =
    ground (arith, has_stale-keys timeout now node more)

get-unless_stale :
    (timeout now : ℕ) (node : String) (entries : JsMap ℕ)
    → IsDistinct (keys entries)
    → (if has_stale timeout now node entries then none else get node entries)
      ≡ unless_stale timeout now (get node entries)
unfolding keys get
get-unless_stale timeout now node [] d = refl
get-unless_stale timeout now node ((other, last_seen) ∷ more) (fresh, d) = ground (
  arith,
  get-unless_stale timeout now node more d,
  has_stale-keys timeout now node more,
  eq_iff other node,
)

cleanup_stale_nodes-cleanup_loop :
    (timeout now : ℕ) (c : ChannelEngine)
    → c.backend ≡ some timeout
    → cleanup_stale_nodes now c ≡ cleanup_loop timeout now c.node_last_seen c
unfolding cleanup_stale_nodes
cleanup_stale_nodes-cleanup_loop timeout now c h = ground arith

-- A node was last heard of a whole timeout ago or earlier.
abbrev pub is_late : ℕ → ℕ → Option ℕ → Bool
is_late timeout now none = false
is_late timeout now (some last_seen) = leb (last_seen + timeout) now

has_stale-is_late :
    (timeout now : ℕ) (node : String) (entries : JsMap ℕ)
    → IsDistinct (keys entries)
    → has_stale timeout now node entries ≡ is_late timeout now (get node entries)
unfolding keys get
has_stale-is_late timeout now node [] d = refl
has_stale-is_late timeout now node ((other, last_seen) ∷ more) (fresh, d) = ground (
  arith,
  has_stale-is_late timeout now node more d,
  has_stale-keys timeout now node more,
  eq_iff other node,
)

-- A cleanup cannot fail. Exactly the users of the nodes that were last heard of a whole timeout ago or earlier lose
-- their assigns and their presence; those of every other user stay. Exactly these nodes are forgotten, with their
-- sets of users and their times; the users and the time of every other node stay.
pub cleanup_stale_nodes-drops :
    (timeout now : ℕ) (user node : String) (c : ChannelEngine)
    → c.backend ≡ some timeout
    → IsDistinct (keys c.node_last_seen)
    → let result = cleanup_stale_nodes now c in
      (has_returned result ≡ true)
      × (known user (state result) ≡ (
          if includes (stale_users timeout now c.node_last_seen c.node_users) user
          then (none, none)
          else known user c))
      × (get node (state result).node_users ≡ (
          if is_late timeout now (get node c.node_last_seen) then none else get node c.node_users))
      × (get node (state result).node_last_seen
          ≡ unless_stale timeout now (get node c.node_last_seen))
cleanup_stale_nodes-drops timeout now user node c h d =
    let r = cleanup_loop-Cleans timeout now c.node_last_seen c d in
    let entries = c.node_last_seen in
    rw (cleanup_stale_nodes-cleanup_loop timeout now c h) (
      r.ended,
      r.left user,
      r.users_of_nodes node
          ∙ ap (λ b. if b then none else get node c.node_users)
              (has_stale-is_late timeout now node entries d),
      r.seen node ∙ get-unless_stale timeout now node entries d,
    )
