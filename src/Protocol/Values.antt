-- ===== src/Protocol/Values.antt =====
-- JSON values, and `PondObject` of javascript/comnon/src/misc/types.ts.
use pondsocket.Prelude.{ℕ, String, Bool, Option, none, some, List, [], ◌∷◌}
use pondsocket.JsMap.{JsMap}

mutual
  pub data Json : Type 0 where
    null : Json
    bool : Bool → Json
    num : ℕ → Json
    str : String → Json
    arr : Items → Json
    obj : Fields → Json

  pub data Items : Type 0 where
    nil : Items
    cons : Json → Items → Items

  pub data Fields : Type 0 where
    end : Fields
    field : String → Json → Fields → Fields

abbrev pub PondObject : Type 0
PondObject = JsMap Json

abbrev pub items : List Json → Items
items [] = nil
items (j ∷ js) = cons j (items js)

abbrev pub fields : PondObject → Fields
fields [] = end
fields ((k, v) ∷ o) = field k v (fields o)

abbrev pub array : List Json → Json
array js = arr (items js)

abbrev pub object : PondObject → Json
object o = obj (fields o)

-- `a ?? b` for a value that may be missing or null.
abbrev pub coalesce : Option Json → Option Json → Option Json
coalesce none b = b
coalesce (some null) b = b
coalesce (some j) b = some j
