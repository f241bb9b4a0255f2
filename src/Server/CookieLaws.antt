-- ===== src/Server/CookieLaws.antt =====
-- Which cookies are read from a header.
use pondsocket.Prelude.{
  ℕ, zero, suc, String, Bool, true, false, not, some, List, [], ◌∷◌, ◌++◌, nat_beq, is_empty, all,
  ◌==◌, ◌≡◌, refl, ap, ◌∙◌, sym, arith, map, Bool-cases, inl, inr, same_eq, Option, none,
  if◌then◌else◌, eq_iff,
}
use pondsocket.JsMap.{JsMap, get}
use pondsocket.JsMap.Laws.{get-set}
use pondsocket.Protocol.{ok}
use pondsocket.Route.{set_field, set_fields}
use pondsocket.Route.Texts.{Text, codes, text_of, split, join, occurs}
use pondsocket.Route.Percent.{encode_uri_component, decode_uri_component}
use pondsocket.Route.Coding.{decode-encode, codes-is_scalar, text_of-codes}
use pondsocket.Route.Splitting.{coded, coded-encode, all-append, all_weaken, split_none}
use pondsocket.Server.Cookies.{
  is_space, trim, cut, cookie_value, add_cookie, add_cookies, get_cookies,
}
use pondsocket.Server.Trimming.{
  both_parts, not-true, trim-spaces, cut-name, is_name-solid, coded-solid, solid, is_name, spaces,
}

-- A cookie as a browser sends it, behind some spaces: its name, an equals sign, and its value, coded.
abbrev pub Cookie : Type 0
Cookie = ℕ × Text × String

abbrev pub cookie_text : Cookie → Text
cookie_text (n, name, value) = spaces n ++ (name ++ 61 ∷ encode_uri_component (codes value))

abbrev pub has_name : Cookie → Bool
has_name (n, name, value) = all is_name name

abbrev pub field_of : Cookie → String × String
field_of (n, name, value) = (text_of name, value)

solid_pair :
    (name : Text) (value : String)
    → all is_name name ≡ true
    → all solid (name ++ 61 ∷ encode_uri_component (codes value)) ≡ true
unfolding is_space
solid_pair name value h =
    all-append solid name (61 ∷ encode_uri_component (codes value))
      (all_weaken is_name solid is_name-solid name h)
      (all_weaken coded solid coded-solid (encode_uri_component (codes value))
        (coded-encode (codes value) (codes-is_scalar value)))

filled_pair : (name rest : Text) → is_empty (name ++ 61 ∷ rest) ≡ false
filled_pair [] rest = refl
filled_pair (c ∷ name) rest = refl

cookie_value-decoded : (value t : Text) → decode_uri_component value ≡ ok t → cookie_value value ≡ t
unfolding cookie_value
cookie_value-decoded value t h = ground arith

add_cookie-cut :
    (s name value : Text) (cookies : JsMap String)
    → cut (trim s) ≡ some (name, value)
    → add_cookie s cookies ≡ set_field (text_of name) (text_of (cookie_value value)) cookies
unfolding add_cookie
add_cookie-cut s name value cookies h = ground arith

add_cookie-text :
    (k : Cookie) (cookies : JsMap String)
    → has_name k ≡ true
    → add_cookie (cookie_text k) cookies ≡ set_field (field_of k).0 (field_of k).1 cookies
add_cookie-text (n, name, value) cookies h =
    let coded_value = encode_uri_component (codes value) in
    let pair = name ++ 61 ∷ coded_value in
    add_cookie-cut (spaces n ++ pair) name coded_value cookies (
      ap cut (trim-spaces n pair (filled_pair name coded_value) (solid_pair name value h))
      ∙ cut-name name coded_value h)
    ∙ ap (λ t. set_field (text_of name) t cookies)
        (ap text_of (
            cookie_value-decoded coded_value (codes value)
              (decode-encode (codes value) (codes-is_scalar value)))
          ∙ text_of-codes value)

split-append : (d : ℕ) (w s : Text) → occurs d w ≡ false → split d (w ++ d ∷ s) ≡ w ∷ split d s
split-append d [] s h = ground arith
split-append d (c ∷ w) s h = rw (split-append d w s (ground arith)) (ground arith)

split-join :
    (d : ℕ) (w : Text) (ws : List Text)
    → all (λ v. not (occurs d v)) (w ∷ ws) ≡ true
    → split d (join d (w ∷ ws)) ≡ w ∷ ws
split-join d w [] h = split_none d w (ground arith)
split-join d w (v ∷ ws) h =
    split-append d w (join d (v ∷ ws)) (ground arith)
    ∙ ap (λ vs. w ∷ vs) (split-join d v ws (ground arith))

add_cookies-text :
    (ks : List Cookie) (cookies : JsMap String)
    → all has_name ks ≡ true
    → add_cookies (map cookie_text ks) cookies ≡ set_fields cookies (map field_of ks)
unfolding add_cookies set_fields
add_cookies-text [] cookies h = refl
add_cookies-text (k ∷ ks) cookies h =
    let (here, there) = both_parts (has_name k) (all has_name ks) h in
    add_cookies-text ks (add_cookie (cookie_text k) cookies) there
    ∙ ap (λ m. set_fields m (map field_of ks)) (add_cookie-text k cookies here)

lacks_semicolon : (s : Text) → all solid s ≡ true → occurs 59 s ≡ false
lacks_semicolon [] h = refl
lacks_semicolon (c ∷ s) h =
    let (here, there) = both_parts (solid c) (all solid s) h in
    rw
      (
        not-true (nat_beq c 59) (both_parts (not (is_space c)) (not (nat_beq c 59)) here).1,
        lacks_semicolon s there,
      )
      refl

lacks_spaces : (n : ℕ) (s : Text) → occurs 59 s ≡ false → occurs 59 (spaces n ++ s) ≡ false
lacks_spaces zero s h = h
lacks_spaces (suc n) s h = lacks_spaces n s h

lacks_cookies :
    (ks : List Cookie)
    → all has_name ks ≡ true
    → all (λ v. not (occurs 59 v)) (map cookie_text ks) ≡ true
lacks_cookies [] h = refl
lacks_cookies ((n, name, value) ∷ ks) h =
    let (here, there) = both_parts (all is_name name) (all has_name ks) h in
    rw
      (
        lacks_spaces n (name ++ 61 ∷ encode_uri_component (codes value))
            (lacks_semicolon _ (solid_pair name value here)),
        lacks_cookies ks there,
      )
      refl

filled_header :
    (n : ℕ) (name rest : Text) (ws : List Text)
    → is_empty (join 59 ((spaces n ++ (name ++ 61 ∷ rest)) ∷ ws)) ≡ false
filled_header zero [] rest [] = refl
filled_header zero [] rest (w ∷ ws) = refl
filled_header zero (c ∷ name) rest [] = refl
filled_header zero (c ∷ name) rest (w ∷ ws) = refl
filled_header (suc n) name rest [] = refl
filled_header (suc n) name rest (w ∷ ws) = refl

get_cookies-set_fields :
    (header : String) (k : Cookie) (ks : List Cookie)
    → all has_name (k ∷ ks) ≡ true
    → codes header ≡ join 59 (map cookie_text (k ∷ ks))
    → get_cookies (some header) ≡ set_fields [] (map field_of (k ∷ ks))
unfolding get_cookies
get_cookies-set_fields header (n, name, value) ks h e = elim (Bool-cases (header == "")) [
  | inr filled ↦
      rw (filled, e)
        (ap (λ ps. add_cookies ps [])
            (split-join 59 (cookie_text (n, name, value)) (map cookie_text ks)
              (lacks_cookies ((n, name, value) ∷ ks) h))
          ∙ add_cookies-text ((n, name, value) ∷ ks) [] h)
  | inl blank ↦
      let nothing = ap is_empty (sym e ∙ ap codes (same_eq header "" blank)) in
      let something =
        filled_header n name (encode_uri_component (codes value)) (map cookie_text ks) in
      cc
]

abbrev or_option : Option String → Option String → Option String
or_option none b = b
or_option (some v) b = some v

or_option-none : (o : Option String) → or_option o none ≡ o
or_option-none none = refl
or_option-none (some v) = refl

-- The value of the last pair with a name.
abbrev pub last_value : String → List (String × String) → Option String
last_value wanted [] = none
last_value wanted ((name, value) ∷ more) =
    or_option (last_value wanted more) (if name == wanted then some value else none)

get-set_fields :
    (wanted : String) (m : JsMap String) (ps : List (String × String))
    → get wanted (set_fields m ps) ≡ (
        if wanted == "__proto__"
        then get wanted m
        else or_option (last_value wanted ps) (get wanted m))
unfolding set_fields set_field
get-set_fields wanted m [] = ground arith
get-set_fields wanted m ((name, value) ∷ more) = ground (
  arith,
  get-set_fields wanted (set_field name value m) more,
  get-set wanted name value m,
  eq_iff name wanted,
)

-- The cookies of a header that consists of pairs of a name and a coded value, with spaces before them if any and
-- semicolons between them: each name has the value, decoded, of its last pair, and no other name has a value. A
-- cookie with the name `__proto__` is lost. Names have no white space, no semicolon and no equals sign.
pub get_cookies-pairs :
    (header wanted : String) (k : Cookie) (ks : List Cookie)
    → all has_name (k ∷ ks) ≡ true
    → codes header ≡ join 59 (map cookie_text (k ∷ ks))
    → get wanted (get_cookies (some header))
      ≡ (if wanted == "__proto__" then none else last_value wanted (map field_of (k ∷ ks)))
unfolding get
get_cookies-pairs header wanted k ks h e =
    ap (get wanted) (get_cookies-set_fields header k ks h e)
    ∙ get-set_fields wanted [] (map field_of (k ∷ ks))
    ∙ ap (λ o. if wanted == "__proto__" then none else o)
        (or_option-none (last_value wanted (map field_of (k ∷ ks))))
