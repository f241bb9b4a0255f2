-- ===== src/ClientChannel/Queue.antt =====
-- The queue of javascript/client/src/core/channel.ts: what is published before a join's answer and what is
-- sent after it.
use pondsocket.Prelude.{
  not, ◌&&◌, append-nil, subst, ℕ, zero, suc, ◌≤◌, ◌<◌, ◌+◌, ◌-◌, String, Bool, true, false,
  Bool-cases, leb, inl, inr, List, [], ◌∷◌, ◌++◌, ◌≡◌, refl, ap, sym, ◌∙◌, arith, length,
  length-append, append_assoc, map,
}
use pondsocket.Schema.{ClientMessage}
use pondsocket.ClientChannel.{
  Channel, joined, send, state_change, is_joined, is_over, is_connected, awaits_join, acknowledge,
  initialise, is_stale_reply, follow_connection, publish, enqueue,
}
use pondsocket.ClientChannel.Machine.{publish_op, step, run}

abbrev drop {ℓ} : {A : Type ℓ} → ℕ → List A → List A
drop zero xs = xs
drop (suc n) [] = []
drop (suc n) (x ∷ xs) = drop n xs

-- The last elements of a list, in their order.
unfoldable pub keep_last {ℓ} : {A : Type ℓ} → ℕ → List A → List A
keep_last n xs = drop (length xs - n) xs

module _ {ℓ} {A : Type ℓ} where
  length-drop : (n : ℕ) (xs : List A) → length (drop n xs) ≡ length xs - n
  length-drop zero xs = ground arith
  length-drop (suc n) [] = ground arith
  length-drop (suc n) (x ∷ xs) = ground (arith, length-drop n xs)

  drop-append : (n : ℕ) (xs ys : List A) → n ≤ length xs → drop n xs ++ ys ≡ drop n (xs ++ ys)
  drop-append zero xs ys h = refl
  drop-append (suc n) [] ys h = ground arith
  drop-append (suc n) (x ∷ xs) ys h = drop-append n xs ys (ground arith)

  drop-drop : (m n k : ℕ) (xs : List A) → k ≡ n + m → drop m (drop n xs) ≡ drop k xs
  drop-drop m zero k xs h = ap (λ i. drop i xs) (ground arith)
  drop-drop m (suc n) zero xs h = ground arith
  drop-drop zero (suc n) (suc k) [] h = refl
  drop-drop (suc m) (suc n) (suc k) [] h = refl
  drop-drop m (suc n) (suc k) (x ∷ xs) h = drop-drop m n k xs (ground arith)

  keep_last-append :
      (n : ℕ) (xs ys : List A) → keep_last n (keep_last n xs ++ ys) ≡ keep_last n (xs ++ ys)
  unfolding keep_last
  keep_last-append n xs ys = ap (keep_last n) kept ∙ again
    where
      surplus : ℕ
      surplus = length xs - n

      kept : keep_last n xs ++ ys ≡ drop (length xs - n) (xs ++ ys)
      kept = drop-append (length xs - n) xs ys (ground arith)

      again : keep_last n (drop (length xs - n) (xs ++ ys)) ≡ keep_last n (xs ++ ys)
      again =
          drop-drop _ (length xs - n) _ (xs ++ ys)
            (ground (arith, length-drop (length xs - n) (xs ++ ys), length-append xs ys))

enqueue-keep_last :
    (n : ℕ) (m : ClientMessage) (q : List ClientMessage)
    → 0 < n
    → length q ≤ n
    → enqueue n m q ≡ keep_last n (q ++ m ∷ [])
unfolding enqueue keep_last
enqueue-keep_last n m [] h k = ground arith
enqueue-keep_last n m (x ∷ q) h k = elim (Bool-cases (leb n (length (x ∷ q)))) [
  | inl full ↦ ground (arith, ap (λ i. drop i (x ∷ (q ++ m ∷ []))) (over full))
  | inr free ↦ ground (arith, ap (λ i. drop i (x ∷ (q ++ m ∷ []))) (under free))
]
  where
    over : leb n (length (x ∷ q)) ≡ true → length (x ∷ (q ++ m ∷ [])) - n ≡ 1
    over full = ground (arith, length-append q (m ∷ []))

    under : leb n (length (x ∷ q)) ≡ false → length (x ∷ (q ++ m ∷ [])) - n ≡ 0
    under free = ground (arith, length-append q (m ∷ []))

-- The channel neither sends at once nor refuses to send.
abbrev waits : Channel → Bool
waits c = not (is_joined c.join_state) && not (is_over c.join_state)

abbrev holding : Channel → List ClientMessage → Channel
holding c q = record c { queue = q }

step-publish_op :
    (m : ClientMessage) (c : Channel)
    → waits c ≡ true
    → 0 < c.max_queue_size
    → length c.queue ≤ c.max_queue_size
    → step (publish_op m) c ≡ (holding c (keep_last c.max_queue_size (c.queue ++ m ∷ [])), [])
unfolding step publish
step-publish_op m c w h k = ground (arith, enqueue-keep_last c.max_queue_size m c.queue h k)

length-keep_last {ℓ} : {A : Type ℓ} (n : ℕ) (xs : List A) → length (keep_last n xs) ≤ n
unfolding keep_last
length-keep_last n xs = ground (arith, length-drop (length xs - n) xs)

keep_last_short {ℓ} : {A : Type ℓ} (n : ℕ) (xs : List A) → length xs ≤ n → keep_last n xs ≡ xs
unfolding keep_last
keep_last_short n xs h = ap (λ i. drop i xs) none_more
  where
    none_more : length xs - n ≡ 0
    none_more = ground arith

-- Messages are published on a channel that neither sends at once nor refuses to send, whose queue has
-- places and is within them: nothing is told, and the queue keeps the last messages that it has places
-- for, in their order.
pub run-publish_op :
    (ms : List ClientMessage) (c : Channel)
    → waits c ≡ true
    → 0 < c.max_queue_size
    → length c.queue ≤ c.max_queue_size
    → run (map publish_op ms) c ≡ (holding c (keep_last c.max_queue_size (c.queue ++ ms)), [])
unfolding run
run-publish_op [] c w h k =
    ap (λ q. (holding c q, []))
      (sym (
        ap (keep_last c.max_queue_size) (append-nil c.queue)
        ∙ keep_last_short c.max_queue_size c.queue k))
run-publish_op (m ∷ ms) c w h k =
    let n = c.max_queue_size in
    let q = keep_last n (c.queue ++ m ∷ []) in
    ap (λ r. ((run (map publish_op ms) r.0).0, r.1 ++ (run (map publish_op ms) r.0).1))
      (step-publish_op m c w h k)
    ∙ run-publish_op ms (holding c q) w h (length-keep_last n (c.queue ++ m ∷ []))
    ∙ ap (λ p. (holding c p, []))
        (keep_last-append n (c.queue ++ m ∷ []) ms
          ∙ ap (keep_last n) (append_assoc c.queue (m ∷ []) ms))

-- Messages are published on a channel that awaits its join's answer, is connected and was not left, whose
-- queue has places and is within them; then an answer that is not stale acknowledges it. The channel is
-- joined, its subscribers are told so, and then the last messages that the queue has places for are sent,
-- in the order of publication; none is left.
pub acknowledge-sends_queue :
    (fresh_id id : String) (ms : List ClientMessage) (c : Channel)
    → awaits_join c.join_state ≡ true
    → c.has_left ≡ false
    → is_connected c.client_state ≡ true
    → is_stale_reply id c.pending_join ≡ false
    → 0 < c.max_queue_size
    → length c.queue ≤ c.max_queue_size
    → let d = (run (map publish_op ms) c).0 in
      let r = acknowledge fresh_id id d in
      (r.1 ≡ state_change joined ∷ map send (keep_last c.max_queue_size (c.queue ++ ms)))
      × ((r.0.queue ≡ []) × (r.0.join_state ≡ joined))
unfolding acknowledge initialise follow_connection
acknowledge-sends_queue fresh_id id ms c a l n s h k =
    subst
      (λ d.
        ((acknowledge fresh_id id d).1
          ≡ state_change joined ∷ map send (keep_last c.max_queue_size (c.queue ++ ms)))
        × (((acknowledge fresh_id id d).0.queue ≡ [])
            × ((acknowledge fresh_id id d).0.join_state ≡ joined)))
      (sym (ap (λ r. r.0) (run-publish_op ms c (ground arith) h k))) (ground arith)
