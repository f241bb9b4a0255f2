-- ===== src/Server/Cookies.antt =====
-- `#getCookies` of javascript/core/src/server/server.ts.
use pondsocket.Prelude.{
  ℕ, String, Bool, ◌&&◌, ◌||◌, Option, none, some, List, [], ◌∷◌, nat_beq, is_empty, if◌then◌else◌,
  ◌==◌,
}
use pondsocket.JsMap.{JsMap}
use pondsocket.Protocol.{ok, err}
use pondsocket.Route.{set_field}
use pondsocket.Route.Texts.{Text, codes, text_of, split}
use pondsocket.Route.Percent.{between, decode_uri_component}

-- The white space and the line terminators of the language.
unfoldable pub is_space : ℕ → Bool
is_space c =
    between 9 13 c
    || nat_beq c 32
    || nat_beq c 160
    || nat_beq c 5760
    || between 8192 8202 c
    || between 8232 8233 c
    || nat_beq c 8239
    || nat_beq c 8287
    || nat_beq c 12288
    || nat_beq c 65279

-- `text.trim()`.
unfoldable pub trim_start : Text → Text
unfolding is_space
trim_start [] = []
trim_start (c ∷ s) = let rest = trim_start s in if is_space c then rest else c ∷ s

unfoldable pub trim_end : Text → Text
unfolding is_space
trim_end [] = []
trim_end (c ∷ s) = let rest = trim_end s in if is_empty rest && is_space c then [] else c ∷ rest

abbrev pub trim : Text → Text
trim s = trim_end (trim_start s)

abbrev pub cons_name : ℕ → Option (Text × Text) → Option (Text × Text)
cons_name c none = none
cons_name c (some (name, value)) = some (c ∷ name, value)

-- The texts before and behind the first `=`, if there is one.
unfoldable pub cut : Text → Option (Text × Text)
cut [] = none
cut (c ∷ s) = let rest = cut s in if nat_beq c 61 then some ([], s) else cons_name c rest

-- The value of a cookie, as it stands where it cannot be decoded.
unfoldable pub cookie_value : Text → Text
unfolding decode_uri_component
cookie_value value = elim (decode_uri_component value) [ err x ↦ value | ok decoded ↦ decoded ]

unfoldable pub add_cookie : Text → JsMap String → JsMap String
unfolding trim_start trim_end cut cookie_value set_field
add_cookie cookie cookies = elim (cut (trim cookie)) [
  | none ↦ cookies
  | some (name, value) ↦ set_field (text_of name) (text_of (cookie_value value)) cookies
]

unfoldable pub add_cookies : List Text → JsMap String → JsMap String
unfolding add_cookie
add_cookies [] cookies = cookies
add_cookies (cookie ∷ more) cookies = add_cookies more (add_cookie cookie cookies)

unfoldable pub get_cookies : Option String → JsMap String
unfolding add_cookies
get_cookies none = []
get_cookies (some header) = if header == "" then [] else add_cookies (split 59 (codes header)) []
