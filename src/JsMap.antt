-- ===== src/JsMap.antt =====
-- JavaScript's `Map<string, V>`, `Set<string>` and plain objects with text keys: an association list
-- in insertion order. A write to a present key keeps its place, a new key goes to the end.
pub mod Laws
use pondsocket.Prelude.{
  String, Bool, false, Option, none, some, List, [], ◌∷◌, ◌==◌, ◌||◌, if◌then◌else◌, ◌++◌, includes,
}

abbrev pub JsMap {ℓ} : Type ℓ → Type ℓ
JsMap V = List (String × V)

module _ {ℓ} {V : Type ℓ} where
  unfoldable pub get : String → JsMap V → Option V
  get k [] = none
  get k ((j, v) ∷ m) = if j == k then some v else get k m

  unfoldable pub has : String → JsMap V → Bool
  has k [] = false
  has k ((j, v) ∷ m) = j == k || has k m

  unfoldable pub set : String → V → JsMap V → JsMap V
  set k v [] = (k, v) ∷ []
  set k v ((j, w) ∷ m) = if j == k then (j, v) ∷ m else (j, w) ∷ set k v m

  unfoldable pub delete : String → JsMap V → JsMap V
  delete k [] = []
  delete k ((j, v) ∷ m) = if j == k then delete k m else (j, v) ∷ delete k m

  -- `Array.from(map.keys())` and `Array.from(map.values())`.
  unfoldable pub keys : JsMap V → List String
  keys [] = []
  keys ((k, v) ∷ m) = k ∷ keys m

  unfoldable pub values : JsMap V → List V
  values [] = []
  values ((k, v) ∷ m) = v ∷ values m

  -- `{ ...a, ...b }`.
  unfoldable pub spread : JsMap V → JsMap V → JsMap V
  unfolding set
  spread a [] = a
  spread a ((k, v) ∷ b) = spread (set k v a) b

-- `Set.prototype.add` and `Set.prototype.delete` on texts.
unfoldable pub add : String → List String → List String
add a xs = if includes xs a then xs else xs ++ a ∷ []

unfoldable pub remove : String → List String → List String
remove a [] = []
remove a (x ∷ xs) = if x == a then remove a xs else x ∷ remove a xs
