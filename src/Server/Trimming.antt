-- ===== src/Server/Trimming.antt =====
-- Trimming a cookie, and cutting it at its equals sign.
use pondsocket.Prelude.{
  ℕ, zero, suc, Bool, true, false, not, ◌&&◌, some, [], ◌∷◌, ◌++◌, nat_beq, ltb, is_empty, all, ◌≡◌,
  refl, ap, ◌∙◌, sym, arith,
}
use pondsocket.Route.Texts.{Text}
use pondsocket.Route.Percent.{is_scalar, is_unreserved}
use pondsocket.Route.Splitting.{coded}
use pondsocket.Server.Cookies.{is_space, trim_start, trim_end, trim, cut}

-- A character that is part of a cookie.
abbrev pub solid : ℕ → Bool
solid c = not (is_space c) && not (nat_beq c 59)

-- A character of a cookie's name.
abbrev pub is_name : ℕ → Bool
is_name c = not (nat_beq c 61) && (is_scalar c && solid c)

abbrev pub spaces : ℕ → Text
spaces zero = []
spaces (suc n) = 32 ∷ spaces n

pub both_parts : (a b : Bool) → (a && b) ≡ true → (a ≡ true) × (b ≡ true)
both_parts true b h = (refl, h)
both_parts false b h = cc

and_false : (b : Bool) → (b && false) ≡ false
and_false true = refl
and_false false = refl

pub not-true : (b : Bool) → not b ≡ true → b ≡ false
not-true true h = sym h
not-true false h = refl

solid-is_space : (c : ℕ) → solid c ≡ true → is_space c ≡ false
solid-is_space c h = not-true (is_space c) (both_parts (not (is_space c)) _ h).0

trim_end-solid : (s : Text) → all solid s ≡ true → trim_end s ≡ s
unfolding trim_end
trim_end-solid [] h = refl
trim_end-solid (c ∷ s) h =
    let (here, there) = both_parts (solid c) (all solid s) h in
    rw (trim_end-solid s there, solid-is_space c here, and_false (is_empty s)) refl

trim_start-solid : (c : ℕ) (s : Text) → solid c ≡ true → trim_start (c ∷ s) ≡ c ∷ s
unfolding trim_start
trim_start-solid c s h = rw (solid-is_space c h) refl

trim_start-spaces : (n : ℕ) (s : Text) → trim_start (spaces n ++ s) ≡ trim_start s
unfolding trim_start is_space
trim_start-spaces zero s = refl
trim_start-spaces (suc n) s = trim_start-spaces n s

pub trim-spaces :
    (n : ℕ) (s : Text) → is_empty s ≡ false → all solid s ≡ true → trim (spaces n ++ s) ≡ s
trim-spaces n [] e h = cc
trim-spaces n (c ∷ s) e h =
    ap trim_end
      (trim_start-spaces n (c ∷ s) ∙ trim_start-solid c s (both_parts (solid c) (all solid s) h).0)
    ∙ trim_end-solid (c ∷ s) h

is_name-equals : (c : ℕ) → is_name c ≡ true → nat_beq c 61 ≡ false
is_name-equals c h =
    not-true (nat_beq c 61) (both_parts (not (nat_beq c 61)) (is_scalar c && solid c) h).0

pub cut-name :
    (name value : Text) → all is_name name ≡ true → cut (name ++ 61 ∷ value) ≡ some (name, value)
unfolding cut
cut-name [] value h = refl
cut-name (c ∷ name) value h =
    let (here, there) = both_parts (is_name c) (all is_name name) h in
    rw (cut-name name value there, is_name-equals c here) refl

pub is_name-solid : (c : ℕ) → is_name c ≡ true → solid c ≡ true
is_name-solid c h =
    (both_parts (is_scalar c) (solid c)
      (both_parts (not (nat_beq c 61)) (is_scalar c && solid c) h).1).1

coded_range : (c : ℕ) → coded c ≡ true → (ltb 32 c && ltb c 127 ≡ true) × (nat_beq c 59 ≡ false)
unfolding is_unreserved
coded_range c h = (ground arith, ground arith)

is_space_range : (c : ℕ) → (ltb 32 c && ltb c 127) ≡ true → is_space c ≡ false
unfolding is_space
is_space_range c h = ground arith

pub coded-solid : (c : ℕ) → coded c ≡ true → solid c ≡ true
coded-solid c h = let (range, other) = coded_range c h in rw (is_space_range c range, other) refl
