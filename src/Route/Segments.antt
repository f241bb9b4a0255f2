-- ===== src/Route/Segments.antt =====
-- What a segment of a route that compiles is, and what it is built to.
use Prim.Native.Char.{code}
use pondsocket.Prelude.{
  ℕ, String, Bool, true, false, Option, some, none, List, [], ◌∷◌, all, ◌≡◌, refl, ap, ◌∙◌, sym,
  arith, if◌then◌else◌, Bool-cases, inl, inr, ◌==◌, includes, or_else, same_eq, subst, is_empty,
}
use pondsocket.JsMap.{JsMap, get}
use pondsocket.Protocol.{Error, Result, ok, err, throw_if, ◌>>=◌, ◌>>◌}
use pondsocket.Route.Texts.{
  Text, codes, text_of, occurs, starts_with, slice_one, strip, split, join,
}
use pondsocket.Route.Percent.{is_unreserved, is_scalar, encode_uri_component}
use pondsocket.Route.Pattern.{Token, char}
use pondsocket.Route.{
  is_star, is_identifier, is_word, parse_parameter, parse_segment, parse_each, build_segment,
  build_value, segment_key, compile_pond_route, CompiledRoute,
}
use pondsocket.Route.Coding.{codes-text_of, codes-is_scalar}
use pondsocket.Route.Splitting.{lacks-encode, encode_filled}
use pondsocket.Route.Slots.{Slot, literal, parameter, wildcard, part_of, word_of}

pub bind_ok {ℓ κ} :
    {S : Type ℓ} {T : Type κ} (r : Result S) (k : S → Result T) (t : T)
    → (r >>= k) ≡ ok t
    → (a : S) × (r ≡ ok a) × (k a ≡ ok t)
bind_ok (err x) k t h = cc
bind_ok (ok a) k t h = (a, refl, h)

pub throw_if_ok {κ} :
    {T : Type κ} (b : Bool) (x : Error) (r : Result T) (t : T)
    → (throw_if b x >> r) ≡ ok t
    → (b ≡ false) × (r ≡ ok t)
throw_if_ok true x r t h = cc
throw_if_ok false x r t h = (refl, h)

pub ok_eq {ℓ} : {T : Type ℓ} {a b : T} → Path (Result T) (ok a) (ok b) → a ≡ b
ok_eq h = cc

pub compiled_parts :
    (route : String) (compiled : CompiledRoute)
    → compile_pond_route route ≡ ok compiled
    → (parts : List (List Token)) × (occurs 63 (codes route) ≡ false)
      × (parse_each route [] (split 47 (codes route)) ≡ ok (compiled.keys, parts))
      × (compiled.pattern ≡ join (char 47) parts)
unfolding compile_pond_route
compiled_parts route compiled fits =
    let (no_query, e) = throw_if_ok (occurs 63 (codes route)) _ _ compiled fits in
    let ((names, parts), e0, e1) =
      bind_ok (parse_each route [] (split 47 (codes route))) _ compiled e in
    let same = ok_eq e1 in
    (
      parts,
      no_query,
      e0 ∙ ap (λ (c : CompiledRoute). ok (c.keys, parts)) same,
      ap (λ (c : CompiledRoute). c.pattern) (sym same),
    )

-- The text that stands for a key in a path: that of the wildcard without its first slashes, or that of a
-- parameter, coded.
abbrev pub raw_value : JsMap String → String → Text
raw_value given key =
    let value = codes (or_else (get key given) "") in
    if key == "*" then strip value else encode_uri_component value

-- A segment that adds the keys to those seen before, by the slot that it is built to.
abbrev pub IsStep : JsMap String → Text → List String → List String → Slot → Type 0
IsStep given segment seen new (literal w) = (w ≡ segment) × (new ≡ []) × (occurs 47 w ≡ false)
IsStep given segment seen new (parameter c v) =
    (key : String) × (new ≡ key ∷ [])
    × ((key == "*") ≡ false)
    × (raw_value given key ≡ c ∷ v)
    × (occurs 47 (c ∷ v) ≡ false)
IsStep given segment seen new (wildcard w) =
    (new ≡ "*" ∷ []) × (includes seen "*" ≡ false) × (raw_value given "*" ≡ w)

abbrev Read : Type 0
Read = List String × List Token

is_word-is_scalar : (s : Text) → all is_word s ≡ true → all is_scalar s ≡ true
unfolding is_scalar
is_word-is_scalar [] h = refl
is_word-is_scalar (c ∷ s) h = ground (arith, is_word-is_scalar s)

codes-identifier : (s : Text) → is_identifier s ≡ true → codes (text_of s) ≡ s
unfolding is_identifier
codes-identifier [] h = refl
codes-identifier (c ∷ s) h = codes-text_of (c ∷ s) (is_word-is_scalar (c ∷ s) (ground arith))

is_star-codes : (s : String) → (s == "*") ≡ true → is_star (codes s) ≡ true
is_star-codes s h = rw (same_eq s "*" h) refl

pub not_identifier :
    (t : String) (s : Text)
    → is_identifier (codes t) ≡ false
    → is_identifier s ≡ true
    → (text_of s == t) ≡ false
not_identifier t s other h = elim (Bool-cases (text_of s == t)) [
  | inr differ ↦ differ
  | inl same ↦
      let codes_same = sym (codes-identifier s h) ∙ ap codes (same_eq (text_of s) t same) in
      let clash = ap is_identifier codes_same in cc
]

build_value_ok :
    (route key : String) (o : Option String) (word : Text)
    → build_value route key o ≡ ok word
    → let value = or_else o "" in
      ((if key == "*" then strip (codes value) else encode_uri_component (codes value)) ≡ word)
      × ((value == "") ≡ false)
unfolding build_value
build_value_ok route key none word h = cc
build_value_ok route key (some v) word h = (ground arith, ground arith)

Filled : Text → Type 0
Filled s = (c : ℕ) × (t : Text) × (s ≡ c ∷ t)

is_empty-Filled : (s : Text) → is_empty s ≡ false → Filled s
unfolding Filled
is_empty-Filled [] h = cc
is_empty-Filled (c ∷ t) h = (c, t, refl)

coded_slot :
    (v : String)
    → (v == "") ≡ false
    → (c : ℕ) × (t : Text) × (encode_uri_component (codes v) ≡ c ∷ t) × (occurs 47 (c ∷ t) ≡ false)
unfolding Filled is_unreserved
coded_slot String.[] h = cc
coded_slot (String.◌∷◌ d s) h =
    let (c, t, e) =
      is_empty-Filled (encode_uri_component (codes (String.◌∷◌ d s)))
        (encode_filled (code d) (codes s)) in
    (
      c,
      t,
      e,
      subst (λ w. occurs 47 w ≡ false) e
          (lacks-encode 47 (codes (String.◌∷◌ d s)) refl (codes-is_scalar (String.◌∷◌ d s))),
    )

module _ (route : String) (given : JsMap String) (seen new : List String) (part : List Token)
    (segment word : Text) (lacks : occurs 47 segment ≡ false)
    (parsed : parse_segment route seen segment ≡ ok (new, part))
    (built : build_segment route given segment ≡ ok word) where
  abbrev Found : Type 0
  Found =
      (slot : Slot) × (part ≡ part_of slot)
      × (word ≡ word_of slot)
      × IsStep given segment seen new slot

  star_found : is_star segment ≡ true → Found
  unfolding parse_segment build_segment segment_key parse_parameter
  star_found star =
      let (value, filled) = build_value_ok route "*" (get "*" given) word (ground arith) in
      (wildcard word, ground arith, refl, (ground arith, ground arith, value))

  key_found : is_star segment ≡ false → starts_with 58 segment ≡ true → Found
  unfolding parse_segment build_segment segment_key parse_parameter
  key_found star colon =
      let name = text_of (slice_one segment) in
      let identifier : is_identifier (slice_one segment) ≡ true = ground arith in
      let filled_name = not_identifier "" (slice_one segment) refl identifier in
      let not_star = not_identifier "*" (slice_one segment) refl identifier in
      let (value, filled) = build_value_ok route name (get name given) word (ground arith) in
      let (c, t, e, lacking) = coded_slot (or_else (get name given) "") filled in
      (
        parameter c t,
        ground arith,
        ground arith,
        (name, ground arith, not_star, ground arith, lacking),
      )

  literal_found : is_star segment ≡ false → starts_with 58 segment ≡ false → Found
  unfolding parse_segment build_segment segment_key
  literal_found star colon =
      (literal segment, ground arith, ground arith, (refl, ground arith, lacks))

  pub slot_found : Found
  slot_found = elim (Bool-cases (is_star segment)) [
    | inl star ↦ star_found star
    | inr other ↦ elim (Bool-cases (starts_with 58 segment)) [
      | inl colon ↦ key_found other colon
      | inr plain ↦ literal_found other plain
    ]
  ]
