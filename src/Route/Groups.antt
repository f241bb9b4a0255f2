-- ===== src/Route/Groups.antt =====
-- What a group of an expression takes, and what is left to the rest of the expression.
use pondsocket.Prelude.{
  ℕ, Bool, true, false, Option, some, none, List, [], ◌∷◌, ◌++◌, nat_beq, all, ◌≡◌, refl, ap, arith,
  if◌then◌else◌, inl, inr, ◌⊎◌, map,
}
use pondsocket.Route.Texts.{Text, occurs}
use pondsocket.Route.Pattern.{
  Token, char, no_slash, exec, greedy, greedy_one, longer, ended, or_shorter,
}
use pondsocket.Route.Splitting.{occurs-all}

or_shorter-some :
    (o shorter : Option (List Text)) (gs : List Text)
    → or_shorter o shorter ≡ some gs
    → (o ≡ some gs) ⊎ (shorter ≡ some gs)
or_shorter-some none shorter gs h = inr h
or_shorter-some (some hs) shorter gs h = inl h

if_some :
    (b : Bool) (o : Option (List Text)) (gs : List Text)
    → (if b then o else none) ≡ some gs
    → (b ≡ true) × (o ≡ some gs)
if_some true o gs h = (refl, h)
if_some false o gs h = cc

module _ (fits : ℕ → Bool) (rest : Text → Option (List Text)) where
  -- What a group took, and what the rest of the expression then matched.
  abbrev pub Taken : Text → List Text → Type 0
  Taken s gs =
      (v t : Text) × (g : List Text) × (s ≡ v ++ t)
      × (all fits v ≡ true)
      × (gs ≡ v ∷ g)
      × (rest t ≡ some g)

  ended-Taken :
      (s : Text) (gs : List Text) (o : Option (List Text))
      → rest s ≡ o
      → ended o ≡ some gs
      → Taken s gs
  ended-Taken s gs none e h = cc
  ended-Taken s gs (some g) e h = ([], s, g, refl, refl, ground arith, e)

  longer-Taken :
      (c : ℕ) (s : Text) (gs : List Text) (o : Option (List Text))
      → fits c ≡ true
      → ((hs : List Text) → o ≡ some hs → Taken s hs)
      → longer c o ≡ some gs
      → Taken (c ∷ s) gs
  longer-Taken c s gs none ok_c ih h = cc
  longer-Taken c s gs (some []) ok_c ih h = cc
  longer-Taken c s gs (some (w ∷ ws)) ok_c ih h =
      let (v, t, g, e0, e1, e2, e3) = ih (w ∷ ws) refl in
      (c ∷ v, t, g, ap (λ x. c ∷ x) e0, ground arith, ground arith, e3)

  pub greedy-Taken : (s : Text) (gs : List Text) → greedy fits rest s ≡ some gs → Taken s gs
  unfolding greedy
  greedy-Taken [] gs h = ended-Taken [] gs (rest []) refl h
  greedy-Taken (c ∷ s) gs h =
      elim (or_shorter-some (if fits c then longer c (greedy fits rest s) else none) _ gs h) [
        | inr shorter ↦ ended-Taken (c ∷ s) gs (rest (c ∷ s)) refl shorter
        | inl taken ↦
            let (ok_c, more) = if_some (fits c) _ gs taken in
            longer-Taken c s gs (greedy fits rest s) ok_c (λ hs e. greedy-Taken s hs e) more
      ]

pub greedy_one_taken :
    (fits : ℕ → Bool) (rest : Text → Option (List Text)) (s : Text) (gs : List Text)
    → greedy_one fits rest s ≡ some gs
    → (c : ℕ) × (v t : Text) × (g : List Text) × (s ≡ (c ∷ v) ++ t)
      × (all fits (c ∷ v) ≡ true)
      × (gs ≡ (c ∷ v) ∷ g)
      × (rest t ≡ some g)
unfolding greedy_one
greedy_one_taken fits rest [] gs h = cc
greedy_one_taken fits rest (c ∷ s) gs h =
    let (ok_c, more) = if_some (fits c) _ gs h in caught (greedy fits rest s) refl more ok_c
  where
    caught :
        (o : Option (List Text))
        → greedy fits rest s ≡ o
        → longer c o ≡ some gs
        → fits c ≡ true
        → (d : ℕ) × (v t : Text) × (g : List Text) × (c ∷ s ≡ (d ∷ v) ++ t)
          × (all fits (d ∷ v) ≡ true)
          × (gs ≡ (d ∷ v) ∷ g)
          × (rest t ≡ some g)
    caught none e more ok_c = cc
    caught (some []) e more ok_c = cc
    caught (some (w ∷ ws)) e more ok_c =
        let (v, t, g, e0, e1, e2, e3) = greedy-Taken fits rest s (w ∷ ws) e in
        (c, v, t, g, ap (λ x. c ∷ x) e0, ground arith, ground arith, e3)

pub literal_taken :
    (w : Text) (p : List Token) (s : Text) (gs : List Text)
    → exec (map char w ++ p) s ≡ some gs
    → (t : Text) × (s ≡ w ++ t) × (exec p t ≡ some gs)
unfolding exec
literal_taken [] p s gs h = (s, refl, h)
literal_taken (d ∷ w) p [] gs h = cc
literal_taken (d ∷ w) p (c ∷ s) gs h =
    let (same, more) = if_some (nat_beq c d) _ gs h in
    let (t, e0, e1) = literal_taken w p s gs more in (t, ground arith, e1)

pub lacks_of : (v : Text) → all no_slash v ≡ true → occurs 47 v ≡ false
lacks_of v h = rw (occurs-all 47 v, h) refl
