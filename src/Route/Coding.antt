-- ===== src/Route/Coding.antt =====
-- Percent coding: what `encodeURIComponent` makes of a text is read back by `decodeURIComponent`.
use Prim.Native.Nat.{◌/◌, ◌%◌}
use Prim.Native.Char.{Char, code}
use pondsocket.Prelude.{
  ℕ, ◌<◌, String, Bool, true, false, Option, some, List, [], ◌∷◌, ◌++◌, nat_beq, ltb, all, ◌≡◌,
  refl, ap, ◌∙◌, arith, Bool-cases, inl, inr, compare, map, ◌||◌, ◌&&◌, Ordering,
}
use pondsocket.Protocol.{ok}
use pondsocket.Route.Texts.{Text, codes, text_of, choose, char_of, Scalar}
use pondsocket.Route.Percent.{
  is_unreserved, is_scalar, utf8, hex_digit, hex_value, escapes, encode_uri_component, Piece, plain,
  octet, push, unescape, assemble, decoded, decode_uri_component, lead,
}

choose-Scalar :
    (o p q : Ordering) (make : Scalar o p q → Char) (h : Scalar o p q)
    → choose o p q make ≡ some (make h)
choose-Scalar Ordering.lt p q make h = refl
choose-Scalar Ordering.eq Ordering.lt Ordering.lt make h = refl
choose-Scalar Ordering.gt Ordering.lt Ordering.lt make h = refl
choose-Scalar Ordering.eq Ordering.lt Ordering.eq make h = absurd h
choose-Scalar Ordering.eq Ordering.lt Ordering.gt make h = absurd h
choose-Scalar Ordering.eq Ordering.eq q make h = absurd h
choose-Scalar Ordering.eq Ordering.gt q make h = absurd h
choose-Scalar Ordering.gt Ordering.lt Ordering.eq make h = absurd h
choose-Scalar Ordering.gt Ordering.lt Ordering.gt make h = absurd h
choose-Scalar Ordering.gt Ordering.eq q make h = absurd h
choose-Scalar Ordering.gt Ordering.gt q make h = absurd h

char_of-code : (c : Char) → char_of (code c) ≡ some c
char_of-code (Char.char n h) =
    choose-Scalar (compare n 55296) (compare 57343 n) (compare n 1114112) (λ p. Char.char n p) h

pub text_of-codes : (s : String) → text_of (codes s) ≡ s
text_of-codes String.[] = refl
text_of-codes (String.◌∷◌ c s) = rw (char_of-code c, text_of-codes s) refl

abbrev is_lt : Ordering → Bool
is_lt o = elim o [ Ordering.lt ↦ true | _ ↦ false ]

Scalar-is_lt : (o p q : Ordering) → Scalar o p q → (is_lt o || is_lt p && is_lt q) ≡ true
Scalar-is_lt Ordering.lt p q h = refl
Scalar-is_lt Ordering.eq Ordering.lt Ordering.lt h = refl
Scalar-is_lt Ordering.gt Ordering.lt Ordering.lt h = refl
Scalar-is_lt Ordering.eq Ordering.lt Ordering.eq h = absurd h
Scalar-is_lt Ordering.eq Ordering.lt Ordering.gt h = absurd h
Scalar-is_lt Ordering.eq Ordering.eq q h = absurd h
Scalar-is_lt Ordering.eq Ordering.gt q h = absurd h
Scalar-is_lt Ordering.gt Ordering.lt Ordering.eq h = absurd h
Scalar-is_lt Ordering.gt Ordering.lt Ordering.gt h = absurd h
Scalar-is_lt Ordering.gt Ordering.eq q h = absurd h
Scalar-is_lt Ordering.gt Ordering.gt q h = absurd h

is_lt-Scalar :
    (o p q : Ordering) (make : Scalar o p q → Char)
    → (is_lt o || is_lt p && is_lt q) ≡ true
    → (h : Scalar o p q) × (choose o p q make ≡ some (make h))
is_lt-Scalar Ordering.lt p q make e = (tt, refl)
is_lt-Scalar Ordering.eq Ordering.lt Ordering.lt make e = (tt, refl)
is_lt-Scalar Ordering.gt Ordering.lt Ordering.lt make e = (tt, refl)
is_lt-Scalar Ordering.eq Ordering.lt Ordering.eq make e = cc
is_lt-Scalar Ordering.eq Ordering.lt Ordering.gt make e = cc
is_lt-Scalar Ordering.eq Ordering.eq q make e = cc
is_lt-Scalar Ordering.eq Ordering.gt q make e = cc
is_lt-Scalar Ordering.gt Ordering.lt Ordering.eq make e = cc
is_lt-Scalar Ordering.gt Ordering.lt Ordering.gt make e = cc
is_lt-Scalar Ordering.gt Ordering.eq q make e = cc
is_lt-Scalar Ordering.gt Ordering.gt q make e = cc

pub codes-text_of : (s : Text) → all is_scalar s ≡ true → codes (text_of s) ≡ s
unfolding is_scalar
codes-text_of [] h = refl
codes-text_of (n ∷ s) h =
    let (scalar, e) =
      is_lt-Scalar (compare n 55296) (compare 57343 n) (compare n 1114112) (λ p. Char.char n p)
        (ground arith) in
    rw (e, codes-text_of s (ground arith)) refl

Scalar-is_scalar :
    (n : ℕ) → Scalar (compare n 55296) (compare 57343 n) (compare n 1114112) → is_scalar n ≡ true
unfolding is_scalar
Scalar-is_scalar n h = Scalar-is_lt (compare n 55296) (compare 57343 n) (compare n 1114112) h

pub codes-is_scalar : (s : String) → all is_scalar (codes s) ≡ true
codes-is_scalar String.[] = refl
codes-is_scalar (String.◌∷◌ (Char.char n h) s) = rw (Scalar-is_scalar n h) (codes-is_scalar s)

hex_value-hex_digit : (d : ℕ) → d < 16 → hex_value (hex_digit d) ≡ some d
unfolding hex_value hex_digit
hex_value-hex_digit d h = ground arith

-- An escape is read as its octet.
unescape-escapes :
    (bs : List ℕ) (s : Text) (ps : List Piece)
    → all (λ b. ltb b 256) bs ≡ true
    → unescape s ≡ some ps
    → unescape (escapes bs ++ s) ≡ some (map octet bs ++ ps)
unfolding unescape escapes
unescape-escapes [] s ps small e = e
unescape-escapes (b ∷ bs) s ps small e =
    rw
      (
        hex_value-hex_digit (b / 16) (ground arith),
        hex_value-hex_digit (b % 16) (omega arith),
        unescape-escapes bs s ps (ground arith) e,
      )
      (ap (λ o. some (octet o ∷ (map octet bs ++ ps))) (omega arith))

unescape-plain :
    (c : ℕ) (s : Text) → nat_beq c 37 ≡ false → unescape (c ∷ s) ≡ push (plain c) (unescape s)
unfolding unescape
unescape-plain c [] h = ground arith
unescape-plain c (a ∷ []) h = ground arith
unescape-plain c (a ∷ b ∷ s) h = ground arith

pub small-utf8 : (c : ℕ) → is_scalar c ≡ true → all (λ b. ltb b 256) (utf8 c) ≡ true
unfolding utf8 is_scalar
small-utf8 c h = ground arith

-- The octets of a character are read as that.
assemble-utf8 :
    (c bits least : ℕ) (ps : List Piece) (t : Text)
    → is_scalar c ≡ true
    → assemble 0 0 0 ps ≡ some t
    → assemble 0 bits least (map octet (utf8 c) ++ ps) ≡ some (c ∷ t)
unfolding assemble utf8 lead is_scalar
assemble-utf8 c bits least ps t h e = ground arith

-- What the octets that `unescape` finds are decoded to, behind a character.
abbrev IsRead : Text → Text → Type 0
IsRead s t = (ps : List Piece) × (unescape s ≡ some ps) × (assemble 0 0 0 ps ≡ some t)

is_unreserved-percent : (c : ℕ) → is_unreserved c ≡ true → nat_beq c 37 ≡ false
unfolding is_unreserved
is_unreserved-percent c h = ground arith

IsRead-plain : (c : ℕ) (s t : Text) → is_unreserved c ≡ true → IsRead s t → IsRead (c ∷ s) (c ∷ t)
unfolding assemble
IsRead-plain c s t h (ps, e, f) = (
  plain c ∷ ps,
  unescape-plain c s (is_unreserved-percent c h) ∙ ap (push (plain c)) e,
  ap (push c) f,
)

IsRead-escapes :
    (c : ℕ) (s t : Text) → is_scalar c ≡ true → IsRead s t → IsRead (escapes (utf8 c) ++ s) (c ∷ t)
IsRead-escapes c s t h (ps, e, f) = (
  map octet (utf8 c) ++ ps,
  unescape-escapes (utf8 c) s ps (small-utf8 c h) e,
  assemble-utf8 c 0 0 ps t h f,
)

IsRead-encode : (s : Text) → all is_scalar s ≡ true → IsRead (encode_uri_component s) s
unfolding encode_uri_component unescape assemble
IsRead-encode [] h = ([], refl, refl)
IsRead-encode (c ∷ s) h =
    let rest = IsRead-encode s (ground arith) in
    elim (Bool-cases (is_unreserved c)) [
      | inl free ↦ rw (free) (IsRead-plain c (encode_uri_component s) s free rest)
      | inr other ↦ rw (other) (IsRead-escapes c (encode_uri_component s) s (ground arith) rest)
    ]

decoded_lem :
    (o : Option (List Piece)) (ps : List Piece) (t : Text)
    → o ≡ some ps
    → assemble 0 0 0 ps ≡ some t
    → decoded o ≡ some t
unfolding decoded
decoded_lem o ps t e f = rw (e) f

-- `decodeURIComponent` gives back every text that `encodeURIComponent` was given.
pub decode-encode :
    (s : Text) → all is_scalar s ≡ true → decode_uri_component (encode_uri_component s) ≡ ok s
unfolding decode_uri_component
decode-encode s h =
    let (ps, e, f) = IsRead-encode s h in
    let read = decoded_lem (unescape (encode_uri_component s)) ps s e f in ground arith
