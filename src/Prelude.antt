-- ===== src/Prelude.antt =====
-- The names that the other modules share: the libraries', passed on, and Boolean tests,
-- conditionals, text equality and a few list functions over the native numbers.
use Prim.Native.String
use text.Mathlib.TextPositions.{eq_refl}
pub use Prim.Native.Nat.{ℕ, zero, suc, ◌+◌, ◌-◌, ◌*◌, ◌^◌, ◌≤◌, ◌<◌, min, compare, Ordering}
pub use Prim.Native.String.{String}
pub use mathlib.Core.Path.{◌≡◌, refl, sym, ap, ◌∙◌, subst}
pub use mathlib.Core.Logic.{◌≢◌, ◌↔◌, ◌⊎◌, inl, inr}
pub use mathlib.Core.Bool.{Bool, true, false, not, ◌&&◌, ◌||◌}
pub use mathlib.Core.Option.{Option, none, some}
pub use mathlib.Core.List.{List, [], ◌∷◌, ◌++◌, map, append-nil, append_assoc, map-append}
pub use native.Mathlib.Omega.{arith}
pub use text.Mathlib.Text.{◌==◌}
pub use text.Mathlib.TextEquality.{eq_iff}

abbrev pub ltb : ℕ → ℕ → Bool
ltb a b = elim (compare a b) [ Ordering.lt ↦ true | _ ↦ false ]

abbrev pub leb : ℕ → ℕ → Bool
leb a b = elim (compare a b) [ Ordering.gt ↦ false | _ ↦ true ]

abbrev pub nat_beq : ℕ → ℕ → Bool
nat_beq a b = elim (compare a b) [ Ordering.eq ↦ true | _ ↦ false ]

infix 1 if◌then◌else◌
abbrev pub if◌then◌else◌ {ℓ} : {A : Type ℓ} → Bool → A → A → A
if true then x else y = x
if false then x else y = y

pub Bool-cases : (b : Bool) → (b ≡ true) ⊎ (b ≡ false)
Bool-cases true = inl refl
Bool-cases false = inr refl

pub Option-cases {ℓ} : {A : Type ℓ} (o : Option A) → (o ≡ none) ⊎ ((a : A) × (o ≡ some a))
Option-cases none = inl refl
Option-cases (some a) = inr (a, refl)

abbrev pub is_some {ℓ} : {A : Type ℓ} → Option A → Bool
is_some none = false
is_some (some _) = true

-- `a ?? b`.
abbrev pub or_else {ℓ} : {A : Type ℓ} → Option A → A → A
or_else none d = d
or_else (some a) d = a

pub same_self : (s : String) → (s == s) ≡ true
same_self s = eq_refl s

pub same_eq : (s t : String) → (s == t) ≡ true → s ≡ t
same_eq s t h = (eq_iff s t).0 h

pub same_comm : (s t : String) → (s == t) ≡ (t == s)
same_comm s t = ground (arith, eq_iff s t, eq_iff t s)

-- A template literal, by its pieces.
abbrev pub concat : List String → String
concat [] = ""
concat (s ∷ ss) = String.◌++◌ s (concat ss)

-- `Array.prototype.toString` on texts.
abbrev pub comma_separated : List String → String
comma_separated [] = ""
comma_separated (s ∷ []) = s
comma_separated (s ∷ ss) = String.◌++◌ s (String.◌++◌ "," (comma_separated ss))

module _ {ℓ} {A : Type ℓ} where
  abbrev pub length : List A → ℕ
  length [] = 0
  length (x ∷ xs) = suc (length xs)

  abbrev pub is_empty : List A → Bool
  is_empty [] = true
  is_empty (x ∷ xs) = false

  -- `Array.prototype.filter`, by a Boolean test.
  abbrev pub select : (A → Bool) → List A → List A
  select p [] = []
  select p (x ∷ xs) = if p x then x ∷ select p xs else select p xs

  -- `Array.prototype.every`.
  abbrev pub all : (A → Bool) → List A → Bool
  all p [] = true
  all p (x ∷ xs) = p x && all p xs

  pub length-append : (xs ys : List A) → length (xs ++ ys) ≡ length xs + length ys
  length-append [] ys = omega arith
  length-append (x ∷ xs) ys = omega (arith, length-append xs ys)

  pub select-append :
      (p : A → Bool) (xs ys : List A) → select p (xs ++ ys) ≡ select p xs ++ select p ys
  select-append p [] ys = refl
  select-append p (x ∷ xs) ys = ground (arith, select-append p xs ys)

-- `Array.prototype.includes` and `Set.prototype.has`, on texts.
abbrev pub includes : List String → String → Bool
includes [] a = false
includes (x ∷ xs) a = x == a || includes xs a

-- How often a text stands in a list.
abbrev pub count : String → List String → ℕ
count a [] = 0
count a (x ∷ xs) = if x == a then suc (count a xs) else count a xs

pub count-append :
    (who : String) (first rest : List String)
    → count who (first ++ rest) ≡ count who first + count who rest
count-append who [] rest = ground arith
count-append who (s ∷ first) rest = ground (arith, count-append who first rest)

pub includes-count : (a : String) (xs : List String) → includes xs a ≡ ltb 0 (count a xs)
includes-count a [] = refl
includes-count a (x ∷ xs) = ground (arith, includes-count a xs)

-- No text stands twice.
abbrev pub IsDistinct : List String → Type 0
IsDistinct [] = Unit {0}
IsDistinct (x ∷ xs) = (includes xs x ≡ false) × IsDistinct xs

pub count-le-one : (a : String) (xs : List String) → IsDistinct xs → count a xs ≤ 1
count-le-one a [] d = omega arith
count-le-one a (x ∷ xs) (fresh, d) =
    ground (arith, count-le-one a xs d, includes-count x xs, eq_iff x a)

pub includes-append :
    (xs ys : List String) (a : String) → includes (xs ++ ys) a ≡ (includes xs a || includes ys a)
includes-append [] ys a = refl
includes-append (x ∷ xs) ys a = ground (arith, includes-append xs ys a)

pub includes-select :
    (p : String → Bool) (xs : List String) (a : String)
    → includes (select p xs) a ≡ (p a && includes xs a)
includes-select p [] a = ground arith
includes-select p (x ∷ xs) a = ground (arith, includes-select p xs a, eq_iff x a)
