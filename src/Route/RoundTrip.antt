-- ===== src/Route/RoundTrip.antt =====
-- An address that is built from a route is parsed by that route.
use pondsocket.Prelude.{
  ℕ, String, true, false, some, List, [], ◌∷◌, all, ◌≡◌, refl, ap, ◌∙◌, sym, arith, if◌then◌else◌,
  Bool-cases, inl, inr, ◌==◌, ◌&&◌, not, map, or_else, nat_beq, includes, eq_iff, none,
}
use pondsocket.JsMap.{JsMap, get}
use pondsocket.JsMap.Laws.{get-set}
use pondsocket.Protocol.{ok}
use pondsocket.Endpoint.State.{EventParams}
use pondsocket.Route.Texts.{Text, codes, text_of, occurs, split, join, collapse, strip}
use pondsocket.Route.Percent.{is_scalar}
use pondsocket.Route.Pattern.{Token, char, is_dot, exec}
use pondsocket.Route.{
  build_each, compile_pond_route, CompiledRoute, build_pond_route, parse_pond_route, matched,
  read_params, param_value, set_field, set_fields, first_group, other_groups,
}
use pondsocket.Route.Coding.{codes-text_of, codes-is_scalar, decode-encode, text_of-codes}
use pondsocket.Route.Splitting.{
  nat_beq-eq, lacks-split, all-split, all-join, split_none, all-strip, clean, clean-parts,
  clean_scalars,
}
use pondsocket.Route.Slots.{Slot, part_of, word_of, IsAligned, groups_of}
use pondsocket.Route.Matching.{exec-IsAligned}
use pondsocket.Route.Segments.{raw_value, bind_ok, ok_eq, compiled_parts}
use pondsocket.Route.Alignment.{aligned}

-- The value of a parameter after the round trip: that of the wildcard has one slash at its front, and no two slashes
-- stand together in it.
abbrev pub given_value : JsMap String → String → String
given_value given key =
    let value = or_else (get key given) "" in
    if key == "*" then text_of (collapse (47 ∷ codes value)) else value

abbrev recovered : JsMap String → List String → JsMap String → JsMap String
recovered given [] m = m
recovered given (key ∷ names) m = recovered given names (set_field key (given_value given key) m)

get-recovered :
    (wanted : String) (given : JsMap String) (names : List String) (m : JsMap String)
    → get wanted (recovered given names m) ≡ (
        if includes names wanted && not (wanted == "__proto__")
        then some (given_value given wanted)
        else get wanted m)
unfolding set_field
get-recovered wanted given [] m = ground arith
get-recovered wanted given (key ∷ names) m = ground (
  arith,
  get-recovered wanted given names (set_field key (given_value given key) m),
  get-set wanted key (given_value given key) m,
  eq_iff key wanted,
)

-- The parameters and the query that the address of a route has which was built with parameters: each key of the
-- route has the value that was given for it, except the key `__proto__`, which has none, and so has any other
-- text. The query has nothing.
pub record IsGiven (given : JsMap String) (names : List String) (p : EventParams) : Type 0 where
  pub value_of :
      (key : String)
      → get key p.params ≡ (
          if includes names key && not (key == "__proto__")
          then some (given_value given key)
          else none)
  pub no_query : p.query ≡ []

strip-other : (c : ℕ) (s : Text) → nat_beq c 47 ≡ false → strip (c ∷ s) ≡ c ∷ s
unfolding strip
strip-other c s h = rw (h) refl

strip-slash : (c : ℕ) (s : Text) → nat_beq c 47 ≡ true → strip (c ∷ s) ≡ strip s
unfolding strip
strip-slash c s h = rw (h) refl

collapse-slash : (s : Text) → collapse (47 ∷ 47 ∷ s) ≡ collapse (47 ∷ s)
unfolding collapse
collapse-slash s = refl

-- Behind a slash, a text's first slashes make no difference.
collapse-strip : (s : Text) → collapse (47 ∷ strip s) ≡ collapse (47 ∷ s)
unfolding strip
collapse-strip [] = refl
collapse-strip (c ∷ s) = elim (Bool-cases (nat_beq c 47)) [
  | inl slash ↦
      ap (λ t. collapse (47 ∷ t)) (strip-slash c s slash)
      ∙ collapse-strip s
      ∙ sym (collapse-slash s)
      ∙ ap (λ d. collapse (47 ∷ d ∷ s)) (sym (nat_beq-eq c 47 slash))
  | inr other ↦ ap (λ t. collapse (47 ∷ t)) (strip-other c s other)
]

param_value-raw_value :
    (given : JsMap String) (key : String)
    → param_value key (raw_value given key) ≡ ok (given_value given key)
unfolding param_value
param_value-raw_value given key = elim (Bool-cases (key == "*")) [
  | inl star ↦
      rw (star) (ap (λ t. ok (text_of t)) (collapse-strip (codes (or_else (get key given) ""))))
  | inr other ↦
      let value = or_else (get key given) "" in
      rw (other, decode-encode (codes value) (codes-is_scalar value), text_of-codes value) refl
]

read_params-recovered :
    (given : JsMap String) (names : List String) (m : JsMap String)
    → read_params names (map (raw_value given) names) m ≡ ok (recovered given names m)
unfolding read_params
read_params-recovered given [] m = refl
read_params-recovered given (key ∷ names) m =
    rw (param_value-raw_value given key) (read_params-recovered given names _)

built_words :
    (route : String) (given : JsMap String) (address : String)
    → build_pond_route route given ≡ ok address
    → (words : List Text) × (build_each route given (split 47 (codes route)) ≡ ok words)
      × (text_of (join 47 words) ≡ address)
unfolding build_pond_route
built_words route given address built =
    let (compiled', b0, b1) = bind_ok (compile_pond_route route) _ address built in
    let (words, b2, b3) = bind_ok (build_each route given (split 47 (codes route))) _ address b1 in
    (words, b2, ok_eq b3)

clean_slash : clean 47 ≡ true
unfolding is_scalar
clean_slash = refl

module _ (search_params : String → List (String × String)) where
  pub matched_lem :
      (compiled : CompiledRoute) (pieces groups : List Text) (m : JsMap String)
      → exec compiled.pattern (first_group pieces) ≡ some groups
      → read_params compiled.keys groups [] ≡ ok m
      → matched search_params compiled pieces
        ≡ ok (
            some (record {
              params = m;
              query = set_fields [] (search_params (text_of (first_group (other_groups pieces))));
            }))
  unfolding matched
  matched_lem compiled pieces groups m h k = ground arith

  pub parse-compiled :
      (route : String) (compiled : CompiledRoute) (address : String)
      → compile_pond_route route ≡ ok compiled
      → parse_pond_route search_params route address
        ≡ matched search_params compiled (split 63 (codes address))
  unfolding parse_pond_route
  parse-compiled route compiled address fits = rw (fits) refl

module _ (search_params : String → List (String × String)) (route : String) (given : JsMap String)
    (compiled : CompiledRoute) where
  matched-join :
      (parts : List (List Token)) (words : List Text) (slots : List Slot)
      → compiled.pattern ≡ join (char 47) parts
      → IsAligned true slots
      → parts ≡ map part_of slots
      → words ≡ map word_of slots
      → map (raw_value given) compiled.keys ≡ groups_of slots
      → occurs 63 (join 47 words) ≡ false
      → matched search_params compiled (split 63 (join 47 words))
        ≡ ok (
            some (record {
              params = recovered given compiled.keys [];
              query = set_fields [] (search_params "");
            }))
  matched-join parts words slots pattern h hp hw hg lacking =
      rw (split_none 63 (join 47 words) lacking) (
        matched_lem search_params compiled (join 47 words ∷ [])
          (map (raw_value given) compiled.keys) _
          (rw (pattern, hp, hw, hg) (exec-IsAligned true slots h))
          (read_params-recovered given compiled.keys []))

  parse-built :
      (address : String)
      → let star = codes (or_else (get "*" given) "") in
        all is_dot star ≡ true
        → occurs 63 star ≡ false
        → compile_pond_route route ≡ ok compiled
        → build_pond_route route given ≡ ok address
        → parse_pond_route search_params route address
          ≡ ok (
              some (record {
                params = recovered given compiled.keys [];
                query = set_fields [] (search_params "");
              }))
  parse-built address dots lacking fits built =
      let star = codes (or_else (get "*" given) "") in
      let (parts, no_query, parsed, pattern) = compiled_parts route compiled fits in
      let (words, built_each, whole) = built_words route given address built in
      let (slots, h, hp, hw, hg, hc) =
        aligned route given (all-strip is_dot star dots)
          (all-strip clean star
            (clean-parts star (codes-is_scalar (or_else (get "*" given) "")) lacking))
          (split 47 (codes route)) [] compiled.keys parts words (lacks-split 47 (codes route))
          (all-split clean 47 (codes route)
            (clean-parts (codes route) (codes-is_scalar route) no_query))
          parsed built_each in
      let (scalars, lacks) =
        clean_scalars (join 47 words) (all-join clean 47 words clean_slash hc) in
      let read = ap codes (sym whole) ∙ codes-text_of (join 47 words) scalars in
      parse-compiled search_params route compiled address fits
      ∙ ap (λ t. matched search_params compiled (split 63 t)) read
      ∙ matched-join parts words slots pattern h hp hw hg lacks

  -- An address that a route is built to with parameters is matched by that route, without an error: each key has the
  -- value that was given for it, the wildcard's with one slash put in front of it and runs of slashes made one, and
  -- only a key `__proto__` has none. There is nothing else among the parameters, and nothing in the query, as an
  -- empty query text has no parameters. The text for the wildcard, which is not coded, must have no `?` and no
  -- line terminator.
  pub parse_pond_route-build :
      (address : String)
      → let star = codes (or_else (get "*" given) "") in
        search_params "" ≡ []
        → all is_dot star ≡ true
        → occurs 63 star ≡ false
        → compile_pond_route route ≡ ok compiled
        → build_pond_route route given ≡ ok address
        → (p : EventParams) × (parse_pond_route search_params route address ≡ ok (some p))
          × IsGiven given compiled.keys p
  unfolding set_fields get
  parse_pond_route-build address empty dots lacking fits built = (
    record { params = recovered given compiled.keys []; query = set_fields [] (search_params "") },
    parse-built address dots lacking fits built,
    record {
      value_of = λ key. get-recovered key given compiled.keys [];
      no_query = ap (set_fields []) empty;
    },
  )
