-- ===== src/Route/Texts.antt =====
-- Texts by their code points, and the methods of `String` that javascript/comnon/src/misc/route.ts calls. A text
-- is a list of Unicode scalar values: the lone surrogates that a JavaScript string may hold are no part of it.
use Prim.Native.Char.{Char, char, code, IsLt}
use pondsocket.Prelude.{
  ℕ, Ordering, String, Bool, false, ◌&&◌, ◌||◌, Option, none, some, List, [], ◌∷◌, ◌++◌, nat_beq,
  compare, if◌then◌else◌,
}

abbrev pub Text : Type 0
Text = List ℕ

abbrev pub codes : String → Text
codes String.[] = []
codes (String.◌∷◌ c s) = code c ∷ codes s

-- The condition of the built-in `IsScalar`, by its three comparisons.
abbrev Both : Ordering → Ordering → Type 0
Both Ordering.lt o = IsLt o
Both Ordering.eq _ = ⊥
Both Ordering.gt _ = ⊥

abbrev pub Scalar : Ordering → Ordering → Ordering → Type 0
Scalar Ordering.lt _ _ = Unit
Scalar Ordering.eq o p = Both o p
Scalar Ordering.gt o p = Both o p

abbrev pub choose : (o p q : Ordering) → (Scalar o p q → Char) → Option Char
choose Ordering.lt p q make = some (make tt)
choose Ordering.eq Ordering.lt Ordering.lt make = some (make tt)
choose Ordering.eq Ordering.lt Ordering.eq make = none
choose Ordering.eq Ordering.lt Ordering.gt make = none
choose Ordering.eq Ordering.eq q make = none
choose Ordering.eq Ordering.gt q make = none
choose Ordering.gt Ordering.lt Ordering.lt make = some (make tt)
choose Ordering.gt Ordering.lt Ordering.eq make = none
choose Ordering.gt Ordering.lt Ordering.gt make = none
choose Ordering.gt Ordering.eq q make = none
choose Ordering.gt Ordering.gt q make = none

abbrev pub char_of : ℕ → Option Char
char_of n = choose (compare n 55296) (compare 57343 n) (compare n 1114112) (λ p. char n p)

abbrev pub put : Option Char → String → String
put none s = s
put (some c) s = String.◌∷◌ c s

-- The way back from `codes`; a number that is no scalar value goes.
abbrev pub text_of : Text → String
text_of [] = ""
text_of (n ∷ s) = put (char_of n) (text_of s)

-- `text.includes(c)` for one character.
abbrev pub occurs : ℕ → Text → Bool
occurs c [] = false
occurs c (d ∷ s) = nat_beq d c || occurs c s

-- `text.startsWith(c)` for one character.
abbrev pub starts_with : ℕ → Text → Bool
starts_with c [] = false
starts_with c (d ∷ s) = nat_beq d c

-- `text.slice(1)`.
abbrev pub slice_one : Text → Text
slice_one [] = []
slice_one (c ∷ s) = s

abbrev pub push_front : ℕ → List Text → List Text
push_front c [] = (c ∷ []) ∷ []
push_front c (w ∷ ws) = (c ∷ w) ∷ ws

-- `text.split(c)` for one character.
abbrev pub split : ℕ → Text → List Text
split d [] = [] ∷ []
split d (c ∷ s) = let rest = split d s in if nat_beq c d then [] ∷ rest else push_front c rest

-- `texts.join('/')`, for texts and for the parts of a regular expression.
abbrev pub join : {A : Type 0} → A → List (List A) → List A
join slash [] = []
join slash (w ∷ []) = w
join slash (w ∷ v ∷ ws) = w ++ slash ∷ join slash (v ∷ ws)

-- `text.replace(/\/+/g, '/')`.
unfoldable pub collapse : Text → Text
collapse [] = []
collapse (c ∷ s) =
    let rest = collapse s in if nat_beq c 47 && starts_with 47 s then rest else c ∷ rest

-- `text.replace(/^\/+/, '')`.
unfoldable pub strip : Text → Text
strip [] = []
strip (c ∷ s) = let rest = strip s in if nat_beq c 47 then rest else c ∷ s
