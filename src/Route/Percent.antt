-- ===== src/Route/Percent.antt =====
-- `encodeURIComponent` and `decodeURIComponent` of the language, which javascript/comnon/src/misc/route.ts calls.
use Prim.Native.Nat.{◌/◌, ◌%◌}
use pondsocket.Prelude.{
  ℕ, zero, suc, ◌+◌, ◌-◌, ◌*◌, Bool, true, false, ◌&&◌, ◌||◌, Option, none, some, List, [], ◌∷◌,
  ◌++◌, nat_beq, ltb, leb, if◌then◌else◌,
}
use pondsocket.Protocol.{Result, ok, err, plain_error}
use pondsocket.Route.Texts.{Text}

abbrev pub between : ℕ → ℕ → ℕ → Bool
between low high c = leb low c && leb c high

abbrev pub is_letter : ℕ → Bool
is_letter c = between 65 90 c || between 97 122 c

abbrev pub is_digit : ℕ → Bool
is_digit c = between 48 57 c

-- The characters that stand for themselves: letters, digits and `-_.!~*'()`.
unfoldable pub is_unreserved : ℕ → Bool
is_unreserved c =
    is_letter c
    || is_digit c
    || between 39 42 c
    || between 45 46 c
    || nat_beq c 95
    || nat_beq c 33
    || nat_beq c 126

unfoldable pub is_scalar : ℕ → Bool
is_scalar c = ltb c 55296 || ltb 57343 c && ltb c 1114112

-- The octets of UTF-8.
unfoldable pub utf8 : ℕ → List ℕ
utf8 c =
    if ltb c 128
    then c ∷ []
    else if ltb c 2048
    then (192 + c / 64) ∷ (128 + c % 64) ∷ []
    else if ltb c 65536
    then (224 + c / 4096) ∷ (128 + c / 64 % 64) ∷ (128 + c % 64) ∷ []
    else (240 + c / 262144) ∷ (128 + c / 4096 % 64) ∷ (128 + c / 64 % 64) ∷ (128 + c % 64) ∷ []

unfoldable pub hex_digit : ℕ → ℕ
hex_digit d = if ltb d 10 then 48 + d else 55 + d

unfoldable pub escapes : List ℕ → Text
unfolding hex_digit
escapes [] = []
escapes (b ∷ bs) = 37 ∷ hex_digit (b / 16) ∷ hex_digit (b % 16) ∷ escapes bs

unfoldable pub encode_uri_component : Text → Text
unfolding escapes is_unreserved utf8
encode_uri_component [] = []
encode_uri_component (c ∷ s) =
    (if is_unreserved c then c ∷ [] else escapes (utf8 c)) ++ encode_uri_component s

-- A character that is not escaped, or the octet of an escape.
pub data Piece : Type 0 where
  plain octet : ℕ → Piece

unfoldable pub hex_value : ℕ → Option ℕ
hex_value c =
    if is_digit c
    then some (c - 48)
    else if between 65 70 c
    then some (c - 55)
    else if between 97 102 c
    then some (c - 87)
    else none

abbrev pub push {ℓ} : {A : Type ℓ} → A → Option (List A) → Option (List A)
push p none = none
push p (some ps) = some (p ∷ ps)

abbrev pub push_octet : Option ℕ → Option ℕ → Option (List Piece) → Option (List Piece)
push_octet (some high) (some low) rest = push (octet (high * 16 + low)) rest
push_octet (some high) none rest = none
push_octet none low rest = none

-- An escape is `%` with two hexadecimal digits; another `%` is an error.
unfoldable pub unescape : Text → Option (List Piece)
unfolding hex_value
unescape [] = some []
unescape (c ∷ []) = if nat_beq c 37 then none else some (plain c ∷ [])
unescape (c ∷ a ∷ []) =
    let rest = unescape (a ∷ []) in if nat_beq c 37 then none else push (plain c) rest
unescape (c ∷ a ∷ b ∷ s) = elim (nat_beq c 37) [
  | true ↦ push_octet (hex_value a) (hex_value b) (unescape s)
  | false ↦ push (plain c) (unescape (a ∷ b ∷ s))
]

-- The first octet of a character: how many follow, its bits, and the least character of that length.
unfoldable pub lead : ℕ → Option (ℕ × ℕ × ℕ)
lead b =
    if ltb b 128
    then some (0, b, 0)
    else if ltb b 192
    then none
    else if ltb b 224
    then some (1, b - 192, 128)
    else if ltb b 240
    then some (2, b - 224, 2048)
    else if ltb b 248
    then some (3, b - 240, 65536)
    else none

-- The characters of the pieces, where some octets of one are still to come.
unfoldable pub assemble : ℕ → ℕ → ℕ → List Piece → Option Text
unfolding lead is_scalar
assemble zero bits least [] = some []
assemble (suc n) bits least [] = none
assemble zero bits least (plain c ∷ ps) = push c (assemble zero 0 0 ps)
assemble (suc n) bits least (plain c ∷ ps) = none
assemble zero bits least (octet b ∷ ps) = elim (lead b) [
  | none ↦ none
  | some (zero, c, low) ↦ push c (assemble zero 0 0 ps)
  | some (suc n, c, low) ↦ assemble (suc n) c low ps
]
assemble (suc zero) bits least (octet b ∷ ps) =
    let c = bits * 64 + (b - 128) in
    let rest = push c (assemble zero 0 0 ps) in
    if between 128 191 b && leb least c && is_scalar c then rest else none
assemble (suc (suc n)) bits least (octet b ∷ ps) =
    let rest = assemble (suc n) (bits * 64 + (b - 128)) least ps in
    if between 128 191 b then rest else none

unfoldable pub decoded : Option (List Piece) → Option Text
unfolding assemble
decoded none = none
decoded (some ps) = assemble 0 0 0 ps

unfoldable pub decode_uri_component : Text → Result Text
unfolding unescape decoded
decode_uri_component s = elim (decoded (unescape s)) [
  | none ↦ err (plain_error "URI malformed")
  | some t ↦ ok t
]
