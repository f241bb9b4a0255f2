-- ===== src/Route/Pattern.antt =====
-- The regular expressions that javascript/comnon/src/misc/route.ts builds, and how they match a whole text: a
-- group takes as much as it can, and gives back while the rest does not match.
use pondsocket.Prelude.{
  ℕ, Bool, not, ◌||◌, Option, none, some, List, [], ◌∷◌, nat_beq, if◌then◌else◌,
}
use pondsocket.Route.Texts.{Text}

-- A character, which `escapeRegExp` made stand for itself, `([^/]+)` or `(.*)`.
pub data Token : Type 0 where
  char : ℕ → Token
  segment_group rest_group : Token

-- A character behind the ones that a group took, in front of the other groups' texts.
abbrev pub longer : ℕ → Option (List Text) → Option (List Text)
longer c none = none
longer c (some []) = none
longer c (some (g ∷ gs)) = some ((c ∷ g) ∷ gs)

abbrev pub ended : Option (List Text) → Option (List Text)
ended none = none
ended (some gs) = some ([] ∷ gs)

abbrev pub or_shorter : Option (List Text) → Option (List Text) → Option (List Text)
or_shorter none shorter = shorter
or_shorter (some gs) shorter = some gs

-- A group that takes any number of the characters that fit.
unfoldable pub greedy : (ℕ → Bool) → (Text → Option (List Text)) → Text → Option (List Text)
greedy fits rest [] = ended (rest [])
greedy fits rest (c ∷ s) =
    let more = greedy fits rest s in
    or_shorter (if fits c then longer c more else none) (ended (rest (c ∷ s)))

-- It takes one at least.
unfoldable pub greedy_one : (ℕ → Bool) → (Text → Option (List Text)) → Text → Option (List Text)
unfolding greedy
greedy_one fits rest [] = none
greedy_one fits rest (c ∷ s) = if fits c then longer c (greedy fits rest s) else none

abbrev pub no_slash : ℕ → Bool
no_slash c = not (nat_beq c 47)

-- What `.` fits: all but the line terminators.
abbrev pub is_dot : ℕ → Bool
is_dot c = not (nat_beq c 10 || nat_beq c 13 || nat_beq c 8232 || nat_beq c 8233)

-- `regexp.exec(text)`: the texts of the groups.
unfoldable pub exec : List Token → Text → Option (List Text)
unfolding greedy greedy_one
exec [] [] = some []
exec [] (c ∷ s) = none
exec (char d ∷ p) [] = none
exec (char d ∷ p) (c ∷ s) = let rest = exec p s in if nat_beq c d then rest else none
exec (segment_group ∷ p) s = greedy_one no_slash (exec p) s
exec (rest_group ∷ p) s = greedy is_dot (exec p) s
