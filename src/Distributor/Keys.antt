-- ===== src/Distributor/Keys.antt =====
-- The keys of channels, and the delays between connections.
use text.Mathlib.TextLemmas.{append_cancel_left, append_cancel_right}
use pondsocket.Prelude.{
  ℕ, suc, String, false, ◌==◌, ◌≡◌, arith, ◌≤◌, Bool-cases, inl, inr, ap, eq_iff, [], ◌∷◌, sym, ◌∙◌,
  refl, concat,
}
use pondsocket.Distributor.{
  Backend, build_key, normalize_topic_part, heartbeat_topic, reconnect_strategy,
}

build_key-concat :
    (b : Backend) (endpoint c : String)
    → (endpoint == heartbeat_topic) ≡ false
    → build_key b endpoint c
      ≡ concat
          (b.key_prefix ∷ ":v1:" ∷ b.namespace ∷ ":" ∷ normalize_topic_part endpoint ∷ ":" ∷ c ∷ [])
unfolding build_key
build_key-concat b endpoint c h = rw (h) refl

same_key :
    (b : Backend) (endpoint c d : String)
    → (endpoint == heartbeat_topic) ≡ false
    → build_key b endpoint c ≡ build_key b endpoint d
    → c ≡ d
same_key b endpoint c d h e =
    let same = sym (build_key-concat b endpoint c h) ∙ e ∙ build_key-concat b endpoint d h in
    append_cancel_right c d "" (
      append_cancel_left ":" _ _ (
        append_cancel_left (normalize_topic_part endpoint) _ _ (
          append_cancel_left ":" _ _ (
            append_cancel_left b.namespace _ _
              (append_cancel_left ":v1:" _ _ (append_cancel_left b.key_prefix _ _ same))))))

-- Two channels of an endpoint that is not called as the heartbeats are have the same key exactly if they have the
-- same name.
pub build_key-separates :
    (b : Backend) (endpoint c d : String)
    → (endpoint == heartbeat_topic) ≡ false
    → (build_key b endpoint c == build_key b endpoint d) ≡ (c == d)
build_key-separates b endpoint c d h = elim (Bool-cases (c == d)) [
  | inl same ↦
      (eq_iff (build_key b endpoint c) (build_key b endpoint d)).1
        (ap (build_key b endpoint) ((eq_iff c d).0 same))
      ∙ sym same
  | inr other ↦ elim (Bool-cases (build_key b endpoint c == build_key b endpoint d)) [
    | inr differ ↦ differ ∙ sym other
    | inl keys_same ↦
        keys_same
        ∙ sym (
            (eq_iff c d).1 (
              same_key b endpoint c d h
                ((eq_iff (build_key b endpoint c) (build_key b endpoint d)).0 keys_same)))
  ]
]

-- The delay before a connection is at most five seconds, and not shorter than the one before.
pub reconnect_strategy-bounds :
    (retries : ℕ)
    → (reconnect_strategy retries ≤ 5000)
      × (reconnect_strategy retries ≤ reconnect_strategy (suc retries))
unfolding reconnect_strategy
reconnect_strategy-bounds retries = (omega arith, omega arith)
