-- ===== src/Route.antt =====
-- javascript/comnon/src/misc/route.ts and javascript/core/src/matcher/matcher.ts: routes are compiled to regular
-- expressions, addresses parsed by them, and addresses built from parameters. What `URLSearchParams` makes of a
-- query is an argument: its keys and values in order.
pub mod Texts
pub mod Percent
pub mod Pattern
pub mod Coding
pub mod Slots
pub mod Matching
pub mod Splitting
pub mod Segments
pub mod Alignment
pub mod RoundTrip
pub mod Groups
pub mod Shapes
pub mod Reading
pub mod Building
mod Tests
use pondsocket.Prelude.{
  ℕ, String, Bool, true, false, not, ◌&&◌, ◌||◌, Option, none, some, List, [], ◌∷◌, ◌++◌, ◌==◌,
  nat_beq, if◌then◌else◌, concat, includes, map, all,
}
use pondsocket.JsMap.{JsMap, get, set}
use pondsocket.Protocol.{Error, plain_error, Result, ok, err, throw_if, ◌>>=◌, ◌>>◌}
use pondsocket.Endpoint.State.{EventParams, PondPath}
use Texts.{Text, codes, text_of, occurs, starts_with, slice_one, split, join, collapse, strip}
use Percent.{is_letter, is_digit, encode_uri_component, decode_uri_component}
use Pattern.{Token, char, segment_group, rest_group, exec}

-- `new PondRouteError(message, route)`.
unfoldable pub route_error : String → String → Error
route_error message route =
    plain_error (concat ("Invalid PondSocket route \"" ∷ route ∷ "\": " ∷ message ∷ []))

pub record CompiledRoute : Type 0 where
  pub keys : List String
  pub pattern : List Token

abbrev pub is_word : ℕ → Bool
is_word c = is_letter c || is_digit c || nat_beq c 95

-- `/^[A-Za-z_][A-Za-z0-9_]*$/`.
unfoldable pub is_identifier : Text → Bool
is_identifier [] = false
is_identifier (c ∷ s) = (is_letter c || nat_beq c 95) && all is_word s

abbrev pub is_star : Text → Bool
is_star (c ∷ []) = nat_beq c 42
is_star _ = false

-- A segment that starts with `:`, by its key.
unfoldable pub parse_parameter : String → List String → Text → Result (List String × List Token)
unfolding route_error is_identifier
parse_parameter route seen key =
    throw_if (not (is_identifier key))
      (route_error "parameter names must be non-empty JavaScript identifiers" route)
    >> throw_if (includes seen (text_of key))
        (route_error (concat ("duplicate parameter \"" ∷ text_of key ∷ "\"" ∷ [])) route)
    >> ok (text_of key ∷ [], segment_group ∷ [])

-- A segment, with the keys of those before: the key that it adds, and its part of the expression.
unfoldable pub parse_segment : String → List String → Text → Result (List String × List Token)
unfolding route_error parse_parameter
parse_segment route seen segment =
    if is_star segment
    then throw_if (includes seen "*") (route_error "a wildcard can only appear once" route)
      >> ok ("*" ∷ [], rest_group ∷ [])
    else if occurs 42 segment
    then err (route_error "wildcards must occupy an entire path segment" route)
    else if starts_with 58 segment
    then parse_parameter route seen (slice_one segment)
    else if occurs 58 segment
    then err (route_error "parameters must occupy an entire path segment" route)
    else ok ([], map char segment)

unfoldable pub parse_each :
    String → List String → List Text → Result (List String × List (List Token))
unfolding parse_segment
parse_each route seen [] = ok ([], [])
parse_each route seen (segment ∷ segments) = parse_segment route seen segment >>= λ (new, part).
    parse_each route (seen ++ new) segments >>= λ (later, parts). ok (new ++ later, part ∷ parts)

-- `parseSegments`, and `compilePondRoute`, which adds the route to its result.
unfoldable pub compile_pond_route : String → Result CompiledRoute
unfolding route_error parse_each
compile_pond_route route =
    throw_if (occurs 63 (codes route))
      (route_error "query strings are not allowed in route declarations" route)
    >> (parse_each route [] (split 47 (codes route)) >>= λ (names, parts).
        ok (record { keys = names; pattern = join (char 47) parts }))

-- `result[key] = value` on an object that began as `{}`: a text assigned to `__proto__` is lost.
unfoldable pub set_field : String → String → JsMap String → JsMap String
unfolding set
set_field key value m = if key == "__proto__" then m else set key value m

unfoldable pub set_fields : JsMap String → List (String × String) → JsMap String
unfolding set_field
set_fields m [] = m
set_fields m ((key, value) ∷ more) = set_fields (set_field key value m) more

-- The value of a key from its group's text.
unfoldable pub param_value : String → Text → Result String
unfolding collapse decode_uri_component
param_value key raw =
    if key == "*"
    then ok (text_of (collapse (47 ∷ raw)))
    else decode_uri_component raw >>= λ value. ok (text_of value)

abbrev pub first_group : List Text → Text
first_group [] = []
first_group (g ∷ gs) = g

abbrev pub other_groups : List Text → List Text
other_groups [] = []
other_groups (g ∷ gs) = gs

unfoldable pub read_params : List String → List Text → JsMap String → Result (JsMap String)
unfolding param_value set_field
read_params [] groups m = ok m
read_params (key ∷ keys) groups m = param_value key (first_group groups) >>= λ value.
    read_params keys (other_groups groups) (set_field key value m)

module _ (search_params : String → List (String × String)) where
  unfoldable pub matched : CompiledRoute → List Text → Result (Option EventParams)
  unfolding exec read_params set_fields
  matched compiled pieces = elim (exec compiled.pattern (first_group pieces)) [
    | none ↦ ok none
    | some groups ↦ read_params compiled.keys groups [] >>= λ params. ok (
        some (record {
          params = params;
          query = set_fields [] (search_params (text_of (first_group (other_groups pieces))));
        }))
  ]

  unfoldable pub parse_pond_route : String → String → Result (Option EventParams)
  unfolding compile_pond_route matched
  parse_pond_route route address =
      compile_pond_route route >>= λ compiled. matched compiled (split 63 (codes address))

  -- What the rest of the code sees of a route: `compilePondRoute` at its registration, and `parseAddress`.
  unfoldable pub route_path : String → PondPath
  unfolding compile_pond_route parse_pond_route
  route_path route = record {
    key = route;
    compile = compile_pond_route route >>= λ _. ok tt;
    parse = parse_pond_route route;
  }

-- A path that is a `RegExp`: whether an address matches is an argument.
unfoldable pub regexp_path : String → (String → Bool) → PondPath
regexp_path key matches = record {
  key = key;
  compile = ok tt;
  parse =
      λ address. ok (if matches address then some (record { params = []; query = [] }) else none);
}

-- The key that `buildPondRoute` reads of a segment, if any.
unfoldable pub segment_key : Text → Option String
segment_key segment =
    if is_star segment
    then some "*"
    else if starts_with 58 segment
    then some (text_of (slice_one segment))
    else none

unfoldable pub build_value : String → String → Option String → Result Text
unfolding route_error strip encode_uri_component
build_value route key value = elim (value) [
  | none ↦ err (route_error (concat ("missing value for parameter \"" ∷ key ∷ "\"" ∷ [])) route)
  | some v ↦
      if v == ""
      then err (route_error (concat ("missing value for parameter \"" ∷ key ∷ "\"" ∷ [])) route)
      else ok (if key == "*" then strip (codes v) else encode_uri_component (codes v))
]

unfoldable pub build_segment : String → JsMap String → Text → Result Text
unfolding segment_key build_value get
build_segment route given segment = elim (segment_key segment) [
  | none ↦ ok segment
  | some key ↦ if key == "" then ok segment else build_value route key (get key given)
]

unfoldable pub build_each : String → JsMap String → List Text → Result (List Text)
unfolding build_segment
build_each route given [] = ok []
build_each route given (segment ∷ segments) = build_segment route given segment >>= λ word.
    build_each route given segments >>= λ words. ok (word ∷ words)

unfoldable pub build_pond_route : String → JsMap String → Result String
unfolding compile_pond_route build_each
build_pond_route route given = compile_pond_route route >>= λ _.
    build_each route given (split 47 (codes route)) >>= λ words. ok (text_of (join 47 words))
