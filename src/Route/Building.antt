-- ===== src/Route/Building.antt =====
-- Which routes compile, and for which parameters an address can be built.
use pondsocket.Prelude.{
  String, Bool, true, false, not, ◌&&◌, ◌||◌, Option, some, none, List, [], ◌∷◌, ◌++◌, all, ◌≡◌,
  refl, ap, ◌∙◌, sym, arith, if◌then◌else◌, Bool-cases, inl, inr, ◌==◌, includes, or_else,
  append-nil, append_assoc, ◌⊎◌,
}
use pondsocket.JsMap.{JsMap, get}
use pondsocket.Protocol.{Error, Result, ok, err, is_ok, ◌>>=◌}
use pondsocket.Route.Texts.{Text, codes, text_of, occurs, split, starts_with, slice_one}
use pondsocket.Route.Pattern.{Token}
use pondsocket.Route.{
  parse_segment, parse_parameter, parse_each, compile_pond_route, CompiledRoute, is_star,
  is_identifier, build_segment, build_each, build_value, segment_key, build_pond_route,
}
use pondsocket.Route.Segments.{compiled_parts}
use pondsocket.Route.Shapes.{star_part, key_part, literal_part, parse_each_cons, parse_each_nil}

-- `*`, `:` with an identifier, or a text with neither of these characters.
abbrev pub is_segment : Text → Bool
is_segment s =
    is_star s
    || not (occurs 42 s)
      && (if starts_with 58 s then is_identifier (slice_one s) else not (occurs 58 s))

abbrev pub keys_of : Text → List String
keys_of s =
    if is_star s then "*" ∷ [] else if starts_with 58 s then text_of (slice_one s) ∷ [] else []

abbrev pub all_keys : List Text → List String
all_keys [] = []
all_keys (s ∷ ss) = keys_of s ++ all_keys ss

-- No name stands twice, or among those seen before.
abbrev pub are_new : List String → List String → Bool
are_new seen [] = true
are_new seen (name ∷ names) = not (includes seen name) && are_new (seen ++ name ∷ []) names

parse_segment-is_ok :
    (route : String) (seen : List String) (segment : Text)
    → is_ok (parse_segment route seen segment)
      ≡ (is_segment segment && are_new seen (keys_of segment))
unfolding parse_segment parse_parameter
parse_segment-is_ok route seen segment = ground arith

parse_segment-keys_of :
    (route : String) (seen new : List String) (segment : Text) (part : List Token)
    → parse_segment route seen segment ≡ ok (new, part)
    → new ≡ keys_of segment
unfolding parse_segment parse_parameter
parse_segment-keys_of route seen new segment part h = ground arith

are_new-append :
    (seen first others : List String)
    → are_new seen (first ++ others) ≡ (are_new seen first && are_new (seen ++ first) others)
are_new-append seen [] others = rw (append-nil seen) refl
are_new-append seen (name ∷ first) others =
    rw (are_new-append (seen ++ name ∷ []) first others, append_assoc seen (name ∷ []) first)
      (ground arith)

pub Result-cases {ℓ} :
    {T : Type ℓ} (r : Result T) → ((x : Error) × (r ≡ err x)) ⊎ ((t : T) × (r ≡ ok t))
Result-cases (err x) = inl (x, refl)
Result-cases (ok t) = inr (t, refl)

is_ok-bind {ℓ κ} :
    {S : Type ℓ} {T : Type κ} (r : Result S) (f : S → T) → is_ok (r >>= λ a. ok (f a)) ≡ is_ok r
is_ok-bind (err x) f = refl
is_ok-bind (ok a) f = refl

module _ (route : String) (seen : List String) (segment : Text) (segments : List Text) where
  abbrev is_valid : Bool
  is_valid = all is_segment (segment ∷ segments) && are_new seen (all_keys (segment ∷ segments))

  refused_first : is_ok (parse_segment route seen segment) ≡ false → is_valid ≡ false
  refused_first h =
      rw (are_new-append seen (keys_of segment) (all_keys segments))
        (ground (arith, parse_segment-is_ok route seen segment))

  accepted_first :
      is_ok (parse_segment route seen segment) ≡ true
      → (all is_segment segments && are_new (seen ++ keys_of segment) (all_keys segments))
        ≡ is_valid
  accepted_first h =
      rw (are_new-append seen (keys_of segment) (all_keys segments))
        (ground (arith, parse_segment-is_ok route seen segment))

parse_each-is_ok :
    (route : String) (seen : List String) (segments : List Text)
    → is_ok (parse_each route seen segments)
      ≡ (all is_segment segments && are_new seen (all_keys segments))
unfolding parse_each
parse_each-is_ok route seen [] = refl
parse_each-is_ok route seen (segment ∷ segments) =
    elim (Result-cases (parse_segment route seen segment)) [
      | inl (x, e) ↦ rw (e) (sym (refused_first route seen segment segments (ap is_ok e)))
      | inr ((new, part), e) ↦ rw (e) (
          is_ok-bind (parse_each route (seen ++ new) segments) _
          ∙ parse_each-is_ok route (seen ++ new) segments
          ∙ ap (λ ks. all is_segment segments && are_new (seen ++ ks) (all_keys segments))
              (parse_segment-keys_of route seen new segment part e)
          ∙ accepted_first route seen segment segments (ap is_ok e))
    ]

-- A route compiles exactly if it has no `?`, each segment is `*`, `:` with an identifier, or a text with neither
-- of these characters, and no name of a parameter and no wildcard stands twice.
pub compile_pond_route-is_ok :
    (route : String)
    → let segments = split 47 (codes route) in
      is_ok (compile_pond_route route)
      ≡ (not (occurs 63 (codes route)) && all is_segment segments && are_new [] (all_keys segments))
unfolding compile_pond_route
compile_pond_route-is_ok route = elim (Bool-cases (occurs 63 (codes route))) [
  | inl query ↦ rw (query) refl
  | inr fine ↦ rw (fine) (
      is_ok-bind (parse_each route [] (split 47 (codes route))) _
      ∙ parse_each-is_ok route [] (split 47 (codes route)))
]

abbrev pub has_value : JsMap String → String → Bool
has_value given key = not (or_else (get key given) "" == "")

build_value-is_ok :
    (route key : String) (o : Option String)
    → is_ok (build_value route key o) ≡ not (or_else o "" == "")
unfolding build_value
build_value-is_ok route key none = refl
build_value-is_ok route key (some v) = ground arith

module _ (route : String) (given : JsMap String) where
  build_segment-key :
      (segment : Text) (key : String)
      → segment_key segment ≡ some key
      → (key == "") ≡ false
      → build_segment route given segment ≡ build_value route key (get key given)
  unfolding build_segment
  build_segment-key segment key h filled = ground arith

  build_segment-literal :
      (segment : Text) → segment_key segment ≡ none → build_segment route given segment ≡ ok segment
  unfolding build_segment
  build_segment-literal segment h = ground arith

  one_value : (name : String) → has_value given name ≡ all (has_value given) (name ∷ [])
  one_value name = ground arith

  build_segment-is_ok :
      (seen new : List String) (segment : Text) (part : List Token)
      → parse_segment route seen segment ≡ ok (new, part)
      → is_ok (build_segment route given segment) ≡ all (has_value given) new
  unfolding segment_key
  build_segment-is_ok seen new segment part h = elim (Bool-cases (is_star segment)) [
    | inl star ↦
        let (added, fresh, shape) = star_part route seen new segment part h star in
        ap is_ok (build_segment-key segment "*" (ground arith) refl)
        ∙ build_value-is_ok route "*" (get "*" given)
        ∙ one_value "*"
        ∙ sym (ap (all (has_value given)) added)
    | inr other ↦ elim (Bool-cases (starts_with 58 segment)) [
      | inl colon ↦
          let (name, same, filled, added, differs, shape) =
            key_part route seen new segment part h other colon in
          ap is_ok (build_segment-key segment name (ground arith) filled)
          ∙ build_value-is_ok route name (get name given)
          ∙ one_value name
          ∙ sym (ap (all (has_value given)) added)
      | inr plain ↦
          ap is_ok (build_segment-literal segment (ground arith))
          ∙ sym (
              ap (all (has_value given)) (literal_part route seen new segment part h other plain).0)
    ]
  ]

  all-append :
      (ns ms : List String)
      → all (has_value given) (ns ++ ms) ≡ (all (has_value given) ns && all (has_value given) ms)
  all-append [] ms = refl
  all-append (n ∷ ns) ms = ground (arith, all-append ns ms)

  build_each-is_ok :
      (segments : List Text) (seen names : List String) (parts : List (List Token))
      → parse_each route seen segments ≡ ok (names, parts)
      → is_ok (build_each route given segments) ≡ all (has_value given) names
  unfolding build_each
  build_each-is_ok [] seen names parts h =
      ap (all (has_value given)) (sym (parse_each_nil route seen names parts h).1)
  build_each-is_ok (segment ∷ segments) seen names parts h =
      let (new, later, part, rest, p0, p1, p2, p3) =
        parse_each_cons route seen names segment segments parts h in
      let first = build_segment-is_ok seen new segment part p0 in
      elim (Result-cases (build_segment route given segment)) [
        | inl (x, e) ↦ rw (e, p3, all-append) (ground (arith, first, ap is_ok e))
        | inr (word, e) ↦
            rw (e, p3, all-append)
              (is_ok-bind (build_each route given segments) _
                ∙ build_each-is_ok segments (seen ++ new) later rest p1
                ∙ ground (arith, first, ap is_ok e))
      ]

  -- An address can be built from a route that compiles exactly if each of its keys has a value that is not blank.
  pub build_pond_route-is_ok :
      (compiled : CompiledRoute)
      → compile_pond_route route ≡ ok compiled
      → is_ok (build_pond_route route given) ≡ all (has_value given) compiled.keys
  unfolding build_pond_route
  build_pond_route-is_ok compiled h =
      let (parts, no_query, parsed, pattern) = compiled_parts route compiled h in
      rw (h) (
        is_ok-bind (build_each route given (split 47 (codes route))) _
        ∙ build_each-is_ok (split 47 (codes route)) [] compiled.keys parts parsed)
