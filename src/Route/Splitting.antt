-- ===== src/Route/Splitting.antt =====
-- Which characters are left when a text is split, joined, stripped or collapsed, and when it is percent-coded.
use Prim.Native.Nat.{◌/◌, ◌%◌}
use pondsocket.Prelude.{
  ℕ, ◌<◌, Bool, true, false, not, ◌&&◌, ◌||◌, List, [], ◌∷◌, ◌++◌, nat_beq, ltb, all, ◌≡◌, refl, ap,
  arith, is_empty, Bool-cases, inl, inr,
}
use pondsocket.Route.Texts.{Text, occurs, split, push_front, join, strip}
use pondsocket.Route.Percent.{
  is_unreserved, is_scalar, utf8, hex_digit, escapes, encode_uri_component,
}
use pondsocket.Route.Coding.{small-utf8}

module _ (p : ℕ → Bool) where
  pub all-append : (s t : Text) → all p s ≡ true → all p t ≡ true → all p (s ++ t) ≡ true
  all-append [] t h k = k
  all-append (c ∷ s) t h k = ground (arith, all-append s t)

  all-push_front :
      (c : ℕ) (ws : List Text)
      → p c ≡ true
      → all (all p) ws ≡ true
      → all (all p) (push_front c ws) ≡ true
  all-push_front c [] h k = ground arith
  all-push_front c (w ∷ ws) h k = ground arith

  pub all-split : (d : ℕ) (s : Text) → all p s ≡ true → all (all p) (split d s) ≡ true
  all-split d [] h = refl
  all-split d (c ∷ s) h =
      let rest = all-split d s (ground arith) in
      elim (Bool-cases (nat_beq c d)) [
        | inl same ↦ rw (same) rest
        | inr other ↦ rw (other) (all-push_front c (split d s) (ground arith) rest)
      ]

  pub all-join :
      (d : ℕ) (ws : List Text) → p d ≡ true → all (all p) ws ≡ true → all p (join d ws) ≡ true
  all-join d [] h k = refl
  all-join d (w ∷ []) h k = ground arith
  all-join d (w ∷ v ∷ ws) h k =
      all-append w (d ∷ join d (v ∷ ws)) (ground arith)
        (ground (arith, all-join d (v ∷ ws) h (ground arith)))

  pub all-strip : (s : Text) → all p s ≡ true → all p (strip s) ≡ true
  unfolding strip
  all-strip [] h = refl
  all-strip (c ∷ s) h = ground (arith, all-strip s)

pub all_weaken :
    (p q : ℕ → Bool)
    → ((c : ℕ) → p c ≡ true → q c ≡ true)
    → (s : Text) → all p s ≡ true
    → all q s ≡ true
all_weaken p q h [] k = refl
all_weaken p q h (c ∷ s) k = ground (arith, h c, all_weaken p q h s)

pub occurs-all : (d : ℕ) (s : Text) → occurs d s ≡ not (all (λ c. not (nat_beq c d)) s)
occurs-all d [] = refl
occurs-all d (c ∷ s) = ground (arith, occurs-all d s)

lacks-push_front :
    (c d : ℕ) (ws : List Text)
    → nat_beq c d ≡ false
    → all (λ w. not (occurs d w)) ws ≡ true
    → all (λ w. not (occurs d w)) (push_front c ws) ≡ true
lacks-push_front c d [] h k = ground arith
lacks-push_front c d (w ∷ ws) h k = ground arith

-- No piece has the character that the text is split at.
pub lacks-split : (d : ℕ) (s : Text) → all (λ w. not (occurs d w)) (split d s) ≡ true
lacks-split d [] = refl
lacks-split d (c ∷ s) = elim (Bool-cases (nat_beq c d)) [
  | inl same ↦ rw (same) (lacks-split d s)
  | inr other ↦ rw (other) (lacks-push_front c d (split d s) other (lacks-split d s))
]

-- A text without the character is one piece.
pub split_none : (d : ℕ) (s : Text) → occurs d s ≡ false → split d s ≡ s ∷ []
split_none d [] h = refl
split_none d (c ∷ s) h = rw (split_none d s (ground arith)) (ground arith)

pub nat_beq-eq : (a b : ℕ) → nat_beq a b ≡ true → a ≡ b
nat_beq-eq a b h = ground arith

abbrev pub coded : ℕ → Bool
coded c = is_unreserved c || nat_beq c 37

coded-hex_digit : (d : ℕ) → d < 16 → coded (hex_digit d) ≡ true
unfolding hex_digit is_unreserved
coded-hex_digit d h = ground arith

coded-escapes : (bs : List ℕ) → all (λ b. ltb b 256) bs ≡ true → all coded (escapes bs) ≡ true
unfolding escapes
coded-escapes [] h = refl
coded-escapes (b ∷ bs) h = ground (
  arith,
  coded-hex_digit (b / 16) (ground arith),
  coded-hex_digit (b % 16) (omega arith),
  coded-escapes bs,
)

-- What is coded consists of the unreserved characters and of escapes.
pub coded-encode : (s : Text) → all is_scalar s ≡ true → all coded (encode_uri_component s) ≡ true
unfolding encode_uri_component
coded-encode [] h = refl
coded-encode (c ∷ s) h =
    let rest = coded-encode s (ground arith) in
    elim (Bool-cases (is_unreserved c)) [
      | inl free ↦ rw (free) (ground arith)
      | inr other ↦ rw (other) (
          all-append coded (escapes (utf8 c)) _
            (coded-escapes (utf8 c) (small-utf8 c (ground arith))) rest)
    ]

-- A scalar value that is not `?`.
abbrev pub clean : ℕ → Bool
clean c = is_scalar c && not (nat_beq c 63)

coded-clean : (c : ℕ) → coded c ≡ true → clean c ≡ true
unfolding is_unreserved is_scalar
coded-clean c h = ground arith

pub clean-encode : (s : Text) → all is_scalar s ≡ true → all clean (encode_uri_component s) ≡ true
clean-encode s h = all_weaken coded clean coded-clean (encode_uri_component s) (coded-encode s h)

pub clean-parts : (s : Text) → all is_scalar s ≡ true → occurs 63 s ≡ false → all clean s ≡ true
clean-parts [] h k = refl
clean-parts (c ∷ s) h k = ground (arith, clean-parts s)

pub clean_scalars :
    (s : Text) → all clean s ≡ true → (all is_scalar s ≡ true) × (occurs 63 s ≡ false)
clean_scalars [] h = (refl, refl)
clean_scalars (c ∷ s) h =
    let (scalars, lacking) = clean_scalars s (ground arith) in (ground arith, ground arith)

-- So a character that is none of these does not occur.
pub lacks-encode :
    (d : ℕ) (s : Text)
    → coded d ≡ false
    → all is_scalar s ≡ true
    → occurs d (encode_uri_component s) ≡ false
lacks-encode d s h k = rw (occurs-all d (encode_uri_component s)) (
    ap not (
      all_weaken coded (λ c. not (nat_beq c d)) (λ c e. differs c e) (encode_uri_component s)
        (coded-encode s k)))
  where
    differs : (c : ℕ) → coded c ≡ true → not (nat_beq c d) ≡ true
    differs c e = elim (Bool-cases (nat_beq c d)) [
      | inr other ↦ rw (other) refl
      | inl same ↦ let clash = ap coded (nat_beq-eq c d same) in cc
    ]

pub encode_filled : (c : ℕ) (s : Text) → is_empty (encode_uri_component (c ∷ s)) ≡ false
unfolding encode_uri_component utf8 escapes
encode_filled c s = ground arith
