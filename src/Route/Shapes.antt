-- ===== src/Route/Shapes.antt =====
-- What a compiled expression matches, in terms of the route's segments.
use pondsocket.Prelude.{
  String, true, false, not, some, List, [], ◌∷◌, ◌++◌, ◌≡◌, refl, ap, ◌∙◌, sym, arith, Bool-cases,
  inl, inr, ◌==◌, includes, map, subst, includes-append,
}
use pondsocket.Protocol.{ok}
use pondsocket.Route.Texts.{Text, text_of, occurs, starts_with, slice_one}
use pondsocket.Route.Pattern.{Token, char, segment_group, rest_group, is_dot, no_slash, exec}
use pondsocket.Route.{parse_segment, parse_parameter, parse_each, is_star}
use pondsocket.Route.Slots.{
  Slot, literal, parameter, wildcard, part_of, word_of, IsAligned, groups_of,
}
use pondsocket.Route.Segments.{bind_ok, not_identifier, ok_eq}
use pondsocket.Route.Groups.{greedy-Taken, greedy_one_taken, literal_taken, lacks_of}

-- A slot is for a segment: the segment itself, a parameter for one with `:` at its front, the wildcard for `*`.
abbrev pub IsFor : Text → Slot → Type 0
IsFor segment (literal w) =
    (segment ≡ w) × (is_star segment ≡ false) × (starts_with 58 segment ≡ false)
IsFor segment (parameter c v) = (is_star segment ≡ false) × (starts_with 58 segment ≡ true)
IsFor segment (wildcard w) = is_star segment ≡ true

abbrev pub AreFor : List Text → List Slot → Type 0
AreFor [] [] = Unit {0}
AreFor [] (slot ∷ slots) = ⊥
AreFor (segment ∷ segments) [] = ⊥
AreFor (segment ∷ segments) (slot ∷ slots) = IsFor segment slot × AreFor segments slots

-- What stands in front of a matched rest.
abbrev pub Step : List String → List String → Text → List Token → Text → List Text → Type 0
Step seen new segment p s gs =
    (slot : Slot) × (t : Text) × (g : List Text) × IsFor segment slot
    × (s ≡ word_of slot ++ t)
    × (gs ≡ groups_of (slot ∷ []) ++ g)
    × (exec p t ≡ some g)
    × ((others : List Slot)
        → IsAligned (not (includes (seen ++ new) "*")) others
        → IsAligned (not (includes seen "*")) (slot ∷ others))

module _ (route : String) (seen new : List String) (segment : Text) (part : List Token)
    (parsed : parse_segment route seen segment ≡ ok (new, part)) where
  pub star_part :
      is_star segment ≡ true
      → (new ≡ "*" ∷ []) × (includes seen "*" ≡ false) × (part ≡ rest_group ∷ [])
  unfolding parse_segment
  star_part star = (ground arith, ground arith, ground arith)

  pub key_part :
      is_star segment ≡ false
      → starts_with 58 segment ≡ true
      → (name : String) × (name ≡ text_of (slice_one segment))
        × ((name == "") ≡ false)
        × (new ≡ name ∷ [])
        × ((name == "*") ≡ false)
        × (part ≡ segment_group ∷ [])
  unfolding parse_segment parse_parameter
  key_part star colon = (
    text_of (slice_one segment),
    refl,
    not_identifier "" (slice_one segment) refl (ground arith),
    ground arith,
    not_identifier "*" (slice_one segment) refl (ground arith),
    ground arith,
  )

  pub literal_part :
      is_star segment ≡ false
      → starts_with 58 segment ≡ false
      → (new ≡ []) × (part ≡ map char segment)
  unfolding parse_segment
  literal_part star colon = (ground arith, ground arith)

  module _ (lacks : occurs 47 segment ≡ false) (p : List Token) (s : Text) (gs : List Text)
      (h : exec (part ++ p) s ≡ some gs) where
    star-Step : is_star segment ≡ true → Step seen new segment p s gs
    unfolding exec
    star-Step star =
        let (added, fresh, shape) = star_part star in
        let (w, t, g, e0, dots, e1, e2) =
          greedy-Taken is_dot (exec p) s gs (subst (λ q. exec (q ++ p) s ≡ some gs) shape h) in
        (
          wildcard w,
          t,
          g,
          star,
          e0,
          e1,
          e2,
          λ others k. (
            ground arith,
            dots,
            subst (λ b. IsAligned b others) (rw (added, includes-append) (ground arith)) k,
          ),
        )

    key-Step :
        is_star segment ≡ false → starts_with 58 segment ≡ true → Step seen new segment p s gs
    unfolding exec
    key-Step star colon =
        let (name, same, filled, added, other, shape) = key_part star colon in
        let (c, v, t, g, e0, filled, e1, e2) =
          greedy_one_taken no_slash (exec p) s gs
            (subst (λ q. exec (q ++ p) s ≡ some gs) shape h) in
        (
          parameter c v,
          t,
          g,
          (star, colon),
          e0,
          e1,
          e2,
          λ others k. (
            lacks_of (c ∷ v) filled,
            subst (λ b. IsAligned b others) (rw (added, includes-append, other) (ground arith)) k,
          ),
        )

    literal-Step :
        is_star segment ≡ false → starts_with 58 segment ≡ false → Step seen new segment p s gs
    literal-Step star colon =
        let (added, shape) = literal_part star colon in
        let (t, e0, e1) =
          literal_taken segment p s gs (subst (λ q. exec (q ++ p) s ≡ some gs) shape h) in
        (
          literal segment,
          t,
          gs,
          (refl, star, colon),
          e0,
          refl,
          e1,
          λ others k. (
            lacks,
            subst (λ b. IsAligned b others) (rw (added, includes-append) (ground arith)) k,
          ),
        )

    pub segment-Step : Step seen new segment p s gs
    segment-Step = elim (Bool-cases (is_star segment)) [
      | inl star ↦ star-Step star
      | inr other ↦ elim (Bool-cases (starts_with 58 segment)) [
        | inl colon ↦ key-Step other colon
        | inr plain ↦ literal-Step other plain
      ]
    ]

  -- The other way: a slot for the segment tells the segment's part.
  pub part-IsFor : (slot : Slot) → IsFor segment slot → part ≡ part_of slot
  part-IsFor (literal w) (same, star, colon) = (literal_part star colon).1 ∙ ap (map char) same
  part-IsFor (parameter c v) (star, colon) = ground (arith, key_part star colon)
  part-IsFor (wildcard w) star = ground (arith, star_part star)

-- What `parse_each` makes of the first segment and of the others.
pub parse_each_cons :
    (route : String) (seen names : List String) (segment : Text) (segments : List Text)
    (parts : List (List Token))
    → parse_each route seen (segment ∷ segments) ≡ ok (names, parts)
    → (new later : List String) × (part : List Token) × (rest : List (List Token)) × (parse_segment
          route seen segment
        ≡ ok (new, part))
      × (parse_each route (seen ++ new) segments ≡ ok (later, rest))
      × (parts ≡ part ∷ rest)
      × (names ≡ new ++ later)
unfolding parse_each
parse_each_cons route seen names segment segments parts h =
    let ((new, part), p0, p1) = bind_ok (parse_segment route seen segment) _ (names, parts) h in
    let ((later, rest), p2, p3) =
      bind_ok (parse_each route (seen ++ new) segments) _ (names, parts) p1 in
    (
      new,
      later,
      part,
      rest,
      p0,
      p2,
      ap (λ (r : List String × List (List Token)). r.1) (sym (ok_eq p3)),
      ap (λ (r : List String × List (List Token)). r.0) (sym (ok_eq p3)),
    )

pub parse_each_nil :
    (route : String) (seen names : List String) (parts : List (List Token))
    → parse_each route seen [] ≡ ok (names, parts)
    → (parts ≡ []) × (names ≡ [])
unfolding parse_each
parse_each_nil route seen names parts h = (
  ap (λ (r : List String × List (List Token)). r.1) (sym (ok_eq h)),
  ap (λ (r : List String × List (List Token)). r.0) (sym (ok_eq h)),
)
