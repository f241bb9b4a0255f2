-- ===== src/Route/Slots.antt =====
-- The segments of a text that a compiled expression matches.
use pondsocket.Prelude.{ℕ, Bool, true, false, List, [], ◌∷◌, all, ◌≡◌, map}
use pondsocket.Route.Texts.{Text, occurs, join}
use pondsocket.Route.Pattern.{Token, char, segment_group, rest_group, is_dot}

-- A segment of a matched text, by what it is matched by: a literal, one character or more for a parameter, or the
-- text of the wildcard.
pub data Slot : Type 0 where
  literal : Text → Slot
  parameter : ℕ → Text → Slot
  wildcard : Text → Slot

abbrev pub part_of : Slot → List Token
part_of (literal w) = map char w
part_of (parameter c v) = segment_group ∷ []
part_of (wildcard w) = rest_group ∷ []

abbrev pub word_of : Slot → Text
word_of (literal w) = w
word_of (parameter c v) = c ∷ v
word_of (wildcard w) = w

abbrev pub groups_of : List Slot → List Text
groups_of [] = []
groups_of (literal w ∷ slots) = groups_of slots
groups_of (parameter c v ∷ slots) = (c ∷ v) ∷ groups_of slots
groups_of (wildcard w ∷ slots) = w ∷ groups_of slots

-- Literals and parameters hold no slash; the wildcard, which holds no line terminator, stands at most once, where it
-- is allowed.
abbrev pub IsAligned : Bool → List Slot → Type 0
IsAligned star [] = Unit {0}
IsAligned star (literal w ∷ slots) = (occurs 47 w ≡ false) × IsAligned star slots
IsAligned star (parameter c v ∷ slots) = (occurs 47 (c ∷ v) ≡ false) × IsAligned star slots
IsAligned star (wildcard w ∷ slots) = (star ≡ true) × (all is_dot w ≡ true) × IsAligned false slots

abbrev pub pattern_of : List Slot → List Token
pattern_of slots = join (char 47) (map part_of slots)

abbrev pub path_of : List Slot → Text
path_of slots = join 47 (map word_of slots)
