-- ===== src/JsMap/Laws.antt =====
-- The laws of maps, in the form of conditionals, so that they serve `ground` and `simp` alike.
use pondsocket.Prelude.{
  String, false, not, ◌&&◌, ◌||◌, none, some, List, [], ◌∷◌, ◌++◌, ◌≡◌, refl, ◌==◌, eq_iff,
  if◌then◌else◌, includes, is_some, IsDistinct, arith, includes-append,
}
use pondsocket.JsMap.{JsMap, get, has, set, delete, keys, spread, add, remove}

module _ {ℓ} {V : Type ℓ} where
  pub get-set :
      (j k : String) (v : V) (m : JsMap V)
      → get j (set k v m) ≡ (if k == j then some v else get j m)
  unfolding get set
  get-set j k v [] = refl
  get-set j k v ((i, w) ∷ m) = ground (arith, eq_iff k j, eq_iff i k, eq_iff i j, get-set j k v m)

  pub get-delete :
      (j k : String) (m : JsMap V) → get j (delete k m) ≡ (if k == j then none else get j m)
  unfolding get delete
  get-delete j k [] = ground arith
  get-delete j k ((i, w) ∷ m) = ground (arith, eq_iff k j, eq_iff i k, eq_iff i j, get-delete j k m)

  pub has-get : (k : String) (m : JsMap V) → has k m ≡ is_some (get k m)
  unfolding get has
  has-get k [] = refl
  has-get k ((i, w) ∷ m) = ground (arith, has-get k m)

  pub has-set : (j k : String) (v : V) (m : JsMap V) → has j (set k v m) ≡ (k == j || has j m)
  unfolding has set
  has-set j k v [] = ground arith
  has-set j k v ((i, w) ∷ m) = ground (arith, eq_iff k j, eq_iff i k, eq_iff i j, has-set j k v m)

  pub has-delete : (j k : String) (m : JsMap V) → has j (delete k m) ≡ (not (k == j) && has j m)
  unfolding has delete
  has-delete j k [] = ground arith
  has-delete j k ((i, w) ∷ m) = ground (arith, eq_iff k j, eq_iff i k, eq_iff i j, has-delete j k m)

  pub has-keys : (k : String) (m : JsMap V) → has k m ≡ includes (keys m) k
  unfolding has keys
  has-keys k [] = refl
  has-keys k ((i, w) ∷ m) = ground (arith, has-keys k m)

  pub keys-set :
      (k : String) (v : V) (m : JsMap V)
      → keys (set k v m) ≡ (if has k m then keys m else keys m ++ k ∷ [])
  unfolding keys set has
  keys-set k v [] = refl
  keys-set k v ((i, w) ∷ m) = ground (arith, keys-set k v m)

  pub keys-delete : (k : String) (m : JsMap V) → keys (delete k m) ≡ remove k (keys m)
  unfolding keys delete remove
  keys-delete k [] = refl
  keys-delete k ((i, w) ∷ m) = ground (arith, keys-delete k m)

  pub get-spread :
      (k : String) (a b : JsMap V)
      → IsDistinct (keys b)
      → get k (spread a b) ≡ (if has k b then get k b else get k a)
  unfolding get has spread keys
  get-spread k a [] d = refl
  get-spread k a ((j, v) ∷ b) (fresh, d) =
      ground (
        arith,
        eq_iff j k,
        get-spread k (set j v a) b d,
        get-set k j v a,
        has-keys j b,
        has-get k b,
      )

pub includes-remove :
    (a b : String) (xs : List String) → includes (remove a xs) b ≡ (not (a == b) && includes xs b)
unfolding remove
includes-remove a b [] = ground arith
includes-remove a b (x ∷ xs) =
    ground (arith, eq_iff a b, eq_iff x a, eq_iff x b, includes-remove a b xs)

pub remove-IsDistinct : (a : String) (xs : List String) → IsDistinct xs → IsDistinct (remove a xs)
unfolding remove
remove-IsDistinct a [] d = tt
remove-IsDistinct a (x ∷ xs) (fresh, d) =
    ground (arith, remove-IsDistinct a xs d, includes-remove a x xs)

pub snoc-IsDistinct :
    (a : String) (xs : List String)
    → IsDistinct xs
    → includes xs a ≡ false
    → IsDistinct (xs ++ a ∷ [])
snoc-IsDistinct a [] d h = (refl, tt)
snoc-IsDistinct a (x ∷ xs) (fresh, d) h =
    ground (arith, snoc-IsDistinct a xs d, includes-append xs (a ∷ []) x, eq_iff a x, eq_iff x a)

pub includes-add :
    (a b : String) (xs : List String) → includes (add a xs) b ≡ (a == b || includes xs b)
unfolding add
includes-add a b xs = ground (arith, includes-append xs (a ∷ []) b, eq_iff a b)

-- A write keeps the keys distinct, and so does a removal.
pub set-IsDistinct {ℓ} :
    {V : Type ℓ} (k : String) (v : V) (m : JsMap V)
    → IsDistinct (keys m)
    → IsDistinct (keys (set k v m))
set-IsDistinct k v m d = ground (arith, keys-set k v m, has-keys k m, snoc-IsDistinct k (keys m) d)

pub delete-IsDistinct {ℓ} :
    {V : Type ℓ} (k : String) (m : JsMap V) → IsDistinct (keys m) → IsDistinct (keys (delete k m))
delete-IsDistinct k m d = ground (arith, keys-delete k m, remove-IsDistinct k (keys m) d)

-- A removal of what is absent changes nothing.
pub remove_of_absent : (a : String) (xs : List String) → includes xs a ≡ false → remove a xs ≡ xs
unfolding remove
remove_of_absent a [] h = refl
remove_of_absent a (x ∷ xs) h = ground (arith, remove_of_absent a xs)

pub delete_of_absent {ℓ} :
    {V : Type ℓ} (k : String) (m : JsMap V) → has k m ≡ false → delete k m ≡ m
unfolding has delete
delete_of_absent k [] h = refl
delete_of_absent k ((j, v) ∷ m) h = ground (arith, delete_of_absent k m)
