-- ===== src/Route/Matching.antt =====
-- What the compiled expressions match: texts that consist of segments, as the route does.
use pondsocket.Prelude.{
  ℕ, suc, ◌<◌, Bool, true, false, Option, some, none, List, [], ◌∷◌, ◌++◌, nat_beq, if◌then◌else◌,
  all, ◌≡◌, refl, ap, ◌∙◌, sym, arith, map, append-nil, subst,
}
use pondsocket.Route.Texts.{Text, occurs}
use pondsocket.Route.Pattern.{
  Token, char, segment_group, rest_group, exec, greedy, greedy_one, no_slash, is_dot, longer, ended,
  or_shorter,
}
use pondsocket.Route.Slots.{
  Slot, literal, parameter, wildcard, groups_of, IsAligned, pattern_of, path_of,
}

abbrev caught : Text → Option (List Text) → Option (List Text)
caught v none = none
caught v (some gs) = some (v ∷ gs)

longer-caught :
    (c : ℕ) (v : Text) (o : Option (List Text)) → longer c (caught v o) ≡ caught (c ∷ v) o
longer-caught c v none = refl
longer-caught c v (some gs) = refl

ended-caught : (o : Option (List Text)) → ended o ≡ caught [] o
ended-caught none = refl
ended-caught (some gs) = refl

or_shorter-none : (o : Option (List Text)) → or_shorter o none ≡ o
or_shorter-none none = refl
or_shorter-none (some gs) = refl

exec-literal : (w : Text) (p : List Token) (s : Text) → exec (map char w ++ p) (w ++ s) ≡ exec p s
unfolding exec
exec-literal [] p s = refl
exec-literal (c ∷ w) p s = ground (arith, exec-literal w p s)

exec-literal_end : (w : Text) → exec (map char w) w ≡ some []
unfolding exec
exec-literal_end [] = refl
exec-literal_end (c ∷ w) = ground (arith, exec-literal_end w)

module _ (p : List Token) (s : Text) where
  greedy-no_slash :
      (v : Text)
      → occurs 47 v ≡ false
      → greedy no_slash (exec (char 47 ∷ p)) (v ++ 47 ∷ s) ≡ caught v (exec p s)
  unfolding greedy exec
  greedy-no_slash [] h = ended-caught (exec p s)
  greedy-no_slash (c ∷ v) h =
      rw (greedy-no_slash v (ground arith))
        (ground (arith, longer-caught c v (exec p s), or_shorter-none (caught (c ∷ v) (exec p s))))

greedy-no_slash_end : (v : Text) → occurs 47 v ≡ false → greedy no_slash (exec []) v ≡ some (v ∷ [])
unfolding greedy exec
greedy-no_slash_end [] h = refl
greedy-no_slash_end (c ∷ v) h = rw (greedy-no_slash_end v (ground arith)) (ground arith)

greedy-is_dot_end : (w : Text) → all is_dot w ≡ true → greedy is_dot (exec []) w ≡ some (w ∷ [])
unfolding greedy exec
greedy-is_dot_end [] h = refl
greedy-is_dot_end (c ∷ w) h = rw (greedy-is_dot_end w (ground arith)) (ground arith)

abbrev slashes : Text → ℕ
slashes [] = 0
slashes (c ∷ s) = if nat_beq c 47 then suc (slashes s) else slashes s

abbrev pattern_slashes : List Token → ℕ
pattern_slashes [] = 0
pattern_slashes (char c ∷ p) = if nat_beq c 47 then suc (pattern_slashes p) else pattern_slashes p
pattern_slashes (segment_group ∷ p) = pattern_slashes p
pattern_slashes (rest_group ∷ p) = pattern_slashes p

-- No wildcard.
abbrev IsPlain : List Token → Type 0
IsPlain [] = Unit {0}
IsPlain (char c ∷ p) = IsPlain p
IsPlain (segment_group ∷ p) = IsPlain p
IsPlain (rest_group ∷ p) = ⊥

-- A group finds nothing where the rest of the expression needs more slashes than there are.
greedy-few :
    (fits : ℕ → Bool) (rest : Text → Option (List Text)) (n : ℕ)
    → ((s : Text) → slashes s < n → rest s ≡ none)
    → (s : Text) → slashes s < n
    → greedy fits rest s ≡ none
unfolding greedy
greedy-few fits rest n h [] few = rw (h [] few) refl
greedy-few fits rest n h (c ∷ s) few =
    rw (greedy-few fits rest n h s (ground arith), h (c ∷ s) few) (ground arith)

exec-few : (p : List Token) (s : Text) → IsPlain p → slashes s < pattern_slashes p → exec p s ≡ none
unfolding exec greedy_one
exec-few [] s h few = absurd (omega arith)
exec-few (char d ∷ p) [] h few = refl
exec-few (char d ∷ p) (c ∷ s) h few = ground (arith, exec-few p s h)
exec-few (segment_group ∷ p) [] h few = refl
exec-few (segment_group ∷ p) (c ∷ s) h few =
    rw (greedy-few no_slash (exec p) (pattern_slashes p) (λ t. exec-few p t h) s (ground arith))
      (ground arith)
exec-few (rest_group ∷ p) s h few = absurd h

module _ (p : List Token) (s : Text) (gs : List Text) (plain : IsPlain p)
    (even : slashes s ≡ pattern_slashes p) (fits : exec p s ≡ some gs) where
  -- A wildcard in front of the last segments takes all that is before them.
  greedy-is_dot :
      (w : Text)
      → all is_dot w ≡ true
      → greedy is_dot (exec (char 47 ∷ p)) (w ++ 47 ∷ s) ≡ some (w ∷ gs)
  unfolding greedy exec
  greedy-is_dot [] h =
      rw
        (
          greedy-few is_dot (exec (char 47 ∷ p)) (suc (pattern_slashes p))
              (λ t. exec-few (char 47 ∷ p) t plain) s (omega arith),
          fits,
        )
        refl
  greedy-is_dot (c ∷ w) h = rw (greedy-is_dot w (ground arith)) (ground arith)

slashes-append : (w s : Text) → occurs 47 w ≡ false → slashes (w ++ s) ≡ slashes s
slashes-append [] s h = refl
slashes-append (c ∷ w) s h = ground (arith, slashes-append w s)

pattern_slashes-literal :
    (w : Text) (p : List Token)
    → occurs 47 w ≡ false
    → pattern_slashes (map char w ++ p) ≡ pattern_slashes p
pattern_slashes-literal [] p h = refl
pattern_slashes-literal (c ∷ w) p h = ground (arith, pattern_slashes-literal w p)

slashes_none : (w : Text) → occurs 47 w ≡ false → slashes w ≡ 0
slashes_none [] h = refl
slashes_none (c ∷ w) h = ground (arith, slashes_none w)

pattern_slashes_none : (w : Text) → occurs 47 w ≡ false → pattern_slashes (map char w) ≡ 0
pattern_slashes_none [] h = refl
pattern_slashes_none (c ∷ w) h = ground (arith, pattern_slashes_none w)

IsPlain-literal : (w : Text) (p : List Token) → IsPlain p → IsPlain (map char w ++ p)
IsPlain-literal [] p h = h
IsPlain-literal (c ∷ w) p h = IsPlain-literal w p h

IsAligned-IsPlain : (slots : List Slot) → IsAligned false slots → IsPlain (pattern_of slots)
IsAligned-IsPlain [] h = tt
IsAligned-IsPlain (literal w ∷ []) h =
    subst IsPlain (append-nil (map char w)) (IsPlain-literal w [] tt)
IsAligned-IsPlain (literal w ∷ t ∷ slots) (h, hs) =
    IsPlain-literal w _ (IsAligned-IsPlain (t ∷ slots) hs)
IsAligned-IsPlain (parameter c v ∷ []) h = tt
IsAligned-IsPlain (parameter c v ∷ t ∷ slots) (h, hs) = IsAligned-IsPlain (t ∷ slots) hs
IsAligned-IsPlain (wildcard w ∷ []) (e, h, hs) = cc
IsAligned-IsPlain (wildcard w ∷ t ∷ slots) (e, h, hs) = cc

IsAligned-even :
    (slots : List Slot)
    → IsAligned false slots
    → slashes (path_of slots) ≡ pattern_slashes (pattern_of slots)
IsAligned-even [] h = refl
IsAligned-even (literal w ∷ []) (h, hs) = slashes_none w h ∙ sym (pattern_slashes_none w h)
IsAligned-even (literal w ∷ t ∷ slots) (h, hs) =
    rw
      (
        slashes-append w (47 ∷ path_of (t ∷ slots)) h,
        pattern_slashes-literal w (char 47 ∷ pattern_of (t ∷ slots)) h,
      )
      (ap suc (IsAligned-even (t ∷ slots) hs))
IsAligned-even (parameter c v ∷ []) (h, hs) = slashes_none (c ∷ v) h
IsAligned-even (parameter c v ∷ t ∷ slots) (h, hs) =
    rw (slashes-append (c ∷ v) (47 ∷ path_of (t ∷ slots)) h)
      (ap suc (IsAligned-even (t ∷ slots) hs))
IsAligned-even (wildcard w ∷ slots) (e, h, hs) = cc

-- The expression of aligned segments matches their text, and its groups catch the parameters and the wildcard.
pub exec-IsAligned :
    (star : Bool) (slots : List Slot)
    → IsAligned star slots
    → exec (pattern_of slots) (path_of slots) ≡ some (groups_of slots)
unfolding exec
exec-IsAligned star [] h = refl
exec-IsAligned star (literal w ∷ []) (h, hs) = exec-literal_end w
exec-IsAligned star (literal w ∷ t ∷ slots) (h, hs) =
    exec-literal w _ _ ∙ exec-IsAligned star (t ∷ slots) hs
exec-IsAligned star (parameter c v ∷ []) (h, hs) =
    rw (greedy-no_slash_end v (ground arith)) (ground arith)
exec-IsAligned star (parameter c v ∷ t ∷ slots) (h, hs) =
    rw
      (
        greedy-no_slash (pattern_of (t ∷ slots)) (path_of (t ∷ slots)) v (ground arith),
        exec-IsAligned star (t ∷ slots) hs,
      )
      (ground arith)
exec-IsAligned star (wildcard w ∷ []) (e, h, hs) = greedy-is_dot_end w h
exec-IsAligned star (wildcard w ∷ t ∷ slots) (e, h, hs) =
    greedy-is_dot (pattern_of (t ∷ slots)) (path_of (t ∷ slots)) (groups_of (t ∷ slots))
      (IsAligned-IsPlain (t ∷ slots) hs) (IsAligned-even (t ∷ slots) hs)
      (exec-IsAligned false (t ∷ slots) hs) w h
