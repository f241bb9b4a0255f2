-- ===== src/Route/Reading.antt =====
-- What a route that compiles matches: the texts that consist of its segments.
use pondsocket.Prelude.{
  String, Bool, true, not, some, List, [], ◌∷◌, ◌++◌, all, ◌≡◌, refl, ap, ◌∙◌, sym, arith, includes,
  map, subst, ◌↔◌, append-nil,
}
use pondsocket.Protocol.{ok}
use pondsocket.Route.Texts.{Text, codes, occurs, split, join}
use pondsocket.Route.Pattern.{Token, char, exec}
use pondsocket.Route.{parse_each, compile_pond_route, CompiledRoute}
use pondsocket.Route.Splitting.{lacks-split}
use pondsocket.Route.Slots.{
  Slot, literal, parameter, wildcard, part_of, word_of, IsAligned, groups_of, path_of,
}
use pondsocket.Route.Matching.{exec-IsAligned}
use pondsocket.Route.Segments.{compiled_parts}
use pondsocket.Route.Shapes.{parse_each_cons, parse_each_nil, AreFor, segment-Step, part-IsFor}
use pondsocket.Route.Groups.{literal_taken}

-- The slots of a text, and the groups' texts.
abbrev pub IsRead : Bool → List Text → Text → List Text → Type 0
IsRead star segments s gs =
    (slots : List Slot) × AreFor segments slots
    × IsAligned star slots
    × (s ≡ path_of slots)
    × (gs ≡ groups_of slots)

nothing_left : (s : Text) (gs : List Text) → exec [] s ≡ some gs → (s ≡ []) × (gs ≡ [])
unfolding exec
nothing_left [] gs h = (refl, ground arith)
nothing_left (c ∷ s) gs h = cc

groups_of-cons :
    (slot : Slot) (slots : List Slot)
    → groups_of (slot ∷ slots) ≡ groups_of (slot ∷ []) ++ groups_of slots
groups_of-cons (literal w) slots = refl
groups_of-cons (parameter c v) slots = refl
groups_of-cons (wildcard w) slots = refl

path_of-cons :
    (segment : Text) (segments : List Text) (slot : Slot) (slots : List Slot)
    → AreFor (segment ∷ segments) slots
    → path_of (slot ∷ slots) ≡ word_of slot ++ 47 ∷ path_of slots
path_of-cons segment segments slot [] h = absurd h
path_of-cons segment segments slot (other ∷ slots) h = refl

more_path :
    (segment : Text) (segments : List Text) (s t t' : Text) (slot : Slot) (slots : List Slot)
    → AreFor (segment ∷ segments) slots
    → s ≡ word_of slot ++ t
    → t ≡ 47 ∷ t'
    → t' ≡ path_of slots
    → s ≡ path_of (slot ∷ slots)
more_path segment segments s t t' slot slots fs e0 e1 e2 =
    rw (path_of-cons segment segments slot slots fs, e0, e1, e2) refl

more_groups :
    (gs g : List Text) (slot : Slot) (slots : List Slot)
    → gs ≡ groups_of (slot ∷ []) ++ g
    → g ≡ groups_of slots
    → gs ≡ groups_of (slot ∷ slots)
more_groups gs g slot slots e0 e1 = rw (groups_of-cons slot slots, e0, e1) refl

pub IsRead-exec :
    (route : String) (segments : List Text) (seen names : List String) (parts : List (List Token))
    (s : Text) (gs : List Text)
    → all (λ w. not (occurs 47 w)) segments ≡ true
    → parse_each route seen segments ≡ ok (names, parts)
    → exec (join (char 47) parts) s ≡ some gs
    → IsRead (not (includes seen "*")) segments s gs
IsRead-exec route [] seen names parts s gs lacks p h =
    let (blank, none_caught) = nothing_left s gs (
      subst (λ ps. exec (join (char 47) ps) s ≡ some gs) (parse_each_nil route seen names parts p).0
        h) in
    ([], tt, tt, blank, none_caught)
IsRead-exec route (segment ∷ []) seen names parts s gs lacks p h =
    let (new, later, part, rest, p0, p1, p2, p3) =
      parse_each_cons route seen names segment [] parts p in
    let alone = p2 ∙ ap (λ ps. part ∷ ps) (parse_each_nil route (seen ++ new) later rest p1).0 in
    let (slot, t, g, f, e0, e1, e2, grow) =
      segment-Step route seen new segment part p0 (ground arith) [] s gs
        (rw (append-nil part) (subst (λ ps. exec (join (char 47) ps) s ≡ some gs) alone h)) in
    let (blank, none_caught) = nothing_left t g e2 in
    (
      slot ∷ [],
      (f, tt),
      grow [] tt,
      e0 ∙ ap (λ x. word_of slot ++ x) blank ∙ append-nil (word_of slot),
      e1 ∙ ap (λ x. groups_of (slot ∷ []) ++ x) none_caught ∙ append-nil (groups_of (slot ∷ [])),
    )
IsRead-exec route (segment ∷ segment' ∷ segments) seen names parts s gs lacks p h =
    let (new, later, part, rest, p0, p1, p2, p3) =
      parse_each_cons route seen names segment (segment' ∷ segments) parts p in
    let (new', later', part', rest', q0, q1, q2, q3) =
      parse_each_cons route (seen ++ new) later segment' segments rest p1 in
    let whole = p2 ∙ ap (λ ps. part ∷ ps) q2 in
    let (slot, t, g, f, e0, e1, e2, grow) =
      segment-Step route seen new segment part p0 (ground arith)
        (char 47 ∷ join (char 47) (part' ∷ rest')) s gs
        (subst (λ ps. exec (join (char 47) ps) s ≡ some gs) whole h) in
    let (t', e3, e4) = literal_taken (47 ∷ []) (join (char 47) (part' ∷ rest')) t g e2 in
    let (slots, fs, k, e5, e6) =
      IsRead-exec route (segment' ∷ segments) (seen ++ new) later rest t' g (ground arith) p1
        (subst (λ ps. exec (join (char 47) ps) t' ≡ some g) (sym q2) e4) in
    (
      slot ∷ slots,
      (f, fs),
      grow slots k,
      more_path segment' segments s t t' slot slots fs e0 e3 e5,
      more_groups gs g slot slots e1 e6,
    )

parts-AreFor :
    (route : String) (segments : List Text) (seen names : List String) (parts : List (List Token))
    (slots : List Slot)
    → parse_each route seen segments ≡ ok (names, parts)
    → AreFor segments slots
    → parts ≡ map part_of slots
parts-AreFor route [] seen names parts [] p h = (parse_each_nil route seen names parts p).0
parts-AreFor route [] seen names parts (slot ∷ slots) p h = absurd h
parts-AreFor route (segment ∷ segments) seen names parts [] p h = absurd h
parts-AreFor route (segment ∷ segments) seen names parts (slot ∷ slots) p (f, fs) =
    let (new, later, part, rest, p0, p1, p2, p3) =
      parse_each_cons route seen names segment segments parts p in
    rw
      (
        p2,
        part-IsFor route seen new segment part p0 slot f,
        parts-AreFor route segments (seen ++ new) later rest slots p1 fs,
      )
      refl

-- A route that compiles matches exactly the paths that consist of its segments, between single slashes: a literal
-- segment as it stands, one character or more without a slash for a parameter, and any text without a line
-- terminator for the wildcard. The groups are the texts of the parameters and of the wildcard.
pub exec-reads_iff :
    (route : String) (compiled : CompiledRoute) (path : Text) (groups : List Text)
    → compile_pond_route route ≡ ok compiled
    → (exec compiled.pattern path ≡ some groups) ↔ IsRead true (split 47 (codes route)) path groups
exec-reads_iff route compiled path groups fits =
    let (parts, no_query, parsed, pattern) = compiled_parts route compiled fits in
    (
      λ found.
          IsRead-exec route (split 47 (codes route)) [] compiled.keys parts path groups
            (lacks-split 47 (codes route)) parsed
            (subst (λ q. exec q path ≡ some groups) pattern found),
      λ (slots, fs, k, e, f).
          rw
            (
              pattern,
              parts-AreFor route (split 47 (codes route)) [] compiled.keys parts slots parsed fs,
              e,
              f,
            )
            (exec-IsAligned true slots k),
    )
