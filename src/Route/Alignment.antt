-- ===== src/Route/Alignment.antt =====
-- A route that compiles, and that an address is built from, as slots.
use pondsocket.Prelude.{
  String, Bool, true, false, not, ◌&&◌, List, [], ◌∷◌, ◌++◌, all, ◌≡◌, ap, sym, arith, ◌==◌,
  includes, map, or_else, subst, includes-append,
}
use pondsocket.JsMap.{JsMap, get}
use pondsocket.Protocol.{ok}
use pondsocket.Route.Texts.{Text, occurs}
use pondsocket.Route.Pattern.{Token, is_dot}
use pondsocket.Route.{parse_segment, parse_each, build_segment, build_each}
use pondsocket.Route.Coding.{codes-is_scalar}
use pondsocket.Route.Splitting.{clean, clean-encode}
use pondsocket.Route.Slots.{
  Slot, literal, parameter, wildcard, part_of, word_of, IsAligned, groups_of,
}
use pondsocket.Route.Segments.{IsStep, slot_found, raw_value, bind_ok, ok_eq}

both_true : {a b : Bool} → a ≡ true → b ≡ true → (a && b) ≡ true
both_true h k = ground (arith, h, k)

module _ (route : String) (given : JsMap String) (dots : all is_dot (raw_value given "*") ≡ true)
    (cleans : all clean (raw_value given "*") ≡ true) where
  abbrev pub Aligned : List String → List String → List (List Token) → List Text → Type 0
  Aligned seen names parts words =
      (slots : List Slot) × IsAligned (not (includes seen "*")) slots
      × (parts ≡ map part_of slots)
      × (words ≡ map word_of slots)
      × (map (raw_value given) names ≡ groups_of slots)
      × (all (all clean) words ≡ true)

  clean-raw_value :
      (name : String) → (name == "*") ≡ false → all clean (raw_value given name) ≡ true
  clean-raw_value name other =
      rw (other) (clean-encode _ (codes-is_scalar (or_else (get name given) "")))

  more-Aligned :
      (seen new names : List String) (part : List Token) (parts : List (List Token)) (word : Text)
      (words : List Text) (slot : Slot) (segment : Text)
      → all clean segment ≡ true
      → part ≡ part_of slot
      → word ≡ word_of slot
      → IsStep given segment seen new slot
      → Aligned (seen ++ new) names parts words
      → Aligned seen (new ++ names) (part ∷ parts) (word ∷ words)
  more-Aligned seen new names part parts word words (literal w) segment ok_segment p q
        (same, added, lacks) (slots, h, hp, hw, hg, hc) =
      (
        literal w ∷ slots,
        (
          lacks,
          subst (λ b. IsAligned b slots) (ground (arith, includes-append seen new "*", added)) h,
        ),
        cc,
        cc,
        rw (added) hg,
        rw (q, same, ok_segment) hc,
      )
  more-Aligned seen new names part parts word words (parameter c v) segment ok_segment p q
        (name, added, other, value, lacks) (slots, h, hp, hw, hg, hc) =
      (
        parameter c v ∷ slots,
        (
          lacks,
          subst (λ b. IsAligned b slots) (rw (added, includes-append, other) (ground arith)) h,
        ),
        cc,
        cc,
        rw (added, value) (ap (λ gs. (c ∷ v) ∷ gs) hg),
        rw (q) (both_true (subst (λ t. all clean t ≡ true) value (clean-raw_value name other)) hc),
      )
  more-Aligned seen new names part parts word words (wildcard w) segment ok_segment p q
        (added, fresh, value) (slots, h, hp, hw, hg, hc) =
      (
        wildcard w ∷ slots,
        (
          ground arith,
          subst (λ t. all is_dot t ≡ true) value dots,
          subst (λ b. IsAligned b slots) (rw (added, includes-append) (ground arith)) h,
        ),
        cc,
        cc,
        rw (added, value) (ap (λ gs. w ∷ gs) hg),
        rw (q, sym value, cleans) hc,
      )

  pub aligned :
      (segments : List Text) (seen names : List String) (parts : List (List Token))
      (words : List Text)
      → all (λ w. not (occurs 47 w)) segments ≡ true
      → all (all clean) segments ≡ true
      → parse_each route seen segments ≡ ok (names, parts)
      → build_each route given segments ≡ ok words
      → Aligned seen names parts words
  unfolding parse_each build_each
  aligned [] seen names parts words lacks cs p b = (
    [],
    tt,
    cc,
    cc,
    ap (λ (r : List String × List (List Token)). map (raw_value given) r.0) (sym (ok_eq p)),
    ap (all (all clean)) (sym (ok_eq b)),
  )
  aligned (segment ∷ segments) seen names parts words lacks cs p b =
      let ((new, part), p0, p1) = bind_ok (parse_segment route seen segment) _ (names, parts) p in
      let ((later, rest), p2, p3) =
        bind_ok (parse_each route (seen ++ new) segments) _ (names, parts) p1 in
      let (word, b0, b1) = bind_ok (build_segment route given segment) _ words b in
      let (others, b2, b3) = bind_ok (build_each route given segments) _ words b1 in
      let (slot, q0, q1, q2) =
        slot_found route given seen new part segment word (ground arith) p0 b0 in
      let behind =
        aligned segments (seen ++ new) later rest others (ground arith) (ground arith) p2 b2 in
      subst (λ r. Aligned seen r.0 r.1 words) (ok_eq p3)
        (subst (λ ws. Aligned seen (new ++ later) (part ∷ rest) ws) (ok_eq b3)
          (more-Aligned seen new later part rest word others slot segment (ground arith) q0 q1 q2
            behind))
