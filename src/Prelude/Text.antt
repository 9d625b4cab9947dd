-- ===== src/Prelude/Text.antt =====
-- Go strings as lists of bytes: literals, equality, prefixes, search, ASCII lower case, joining.
use Prim.Native.Nat.{ℕ, zero, suc, ◌+◌, ◌/◌, ◌%◌}
use Prim.Native.Char.{code}
use Prim.Native.String.{String}
use mathlib.Core.Path.{◌≡◌, refl, ap, ◌∙◌}
use mathlib.Core.Logic.{◌↔◌}
use mathlib.Core.Bool.{Bool, true, false, ◌&&◌, ◌||◌}
use mathlib.Core.List.{List, [], ◌∷◌, ◌++◌}
use native.Mathlib.Omega.{arith}
use logflux_go_sdk.Prelude.Lists.{drop}
use logflux_go_sdk.Prelude.Tests.{ltb, leb, ◌==◌, if◌then◌else◌}

abbrev pub Str : Type 0
Str = List ℕ

-- The bytes of an ASCII literal.
abbrev pub codes : String → Str
codes String.[] = []
codes (String.◌∷◌ c s) = code c ∷ codes s

unfoldable pub str_eq : Str → Str → Bool
str_eq [] [] = true
str_eq [] (y ∷ ys) = false
str_eq (x ∷ xs) [] = false
str_eq (x ∷ xs) (y ∷ ys) = x == y && str_eq xs ys

pub str_eq_refl : (s : Str) → str_eq s s ≡ true
unfolding str_eq
str_eq_refl [] = refl
str_eq_refl (x ∷ xs) = ground (arith, str_eq_refl xs)

pub str_eq→eq : (s t : Str) → str_eq s t ≡ true → s ≡ t
unfolding str_eq
str_eq→eq [] [] h = refl
str_eq→eq [] (y ∷ ys) h = ground arith
str_eq→eq (x ∷ xs) [] h = ground arith
str_eq→eq (x ∷ xs) (y ∷ ys) h = ground (arith, str_eq→eq xs ys)

pub str_eq_iff : (s t : Str) → (str_eq s t ≡ true) ↔ (s ≡ t)
str_eq_iff s t = (str_eq→eq s t, λ e. ground (arith, str_eq_refl s))

-- strings.HasPrefix
unfoldable pub has_prefix : Str → Str → Bool
has_prefix s [] = true
has_prefix [] (p ∷ ps) = false
has_prefix (x ∷ xs) (p ∷ ps) = x == p && has_prefix xs ps

pub prefix_split : (s p : Str) → has_prefix s p ≡ true → (rest : Str) × (s ≡ p ++ rest)
unfolding has_prefix
prefix_split s [] h = (s, refl)
prefix_split [] (p ∷ ps) h = cc
prefix_split (x ∷ xs) (p ∷ ps) h =
    let (rest, same) = prefix_split xs ps (ground arith) in
    (rest, ap (λ c. c ∷ xs) (ground (arith, h)) ∙ ap (◌∷◌ p) same)

-- strings.Contains
unfoldable pub contains : Str → Str → Bool
contains [] p = has_prefix [] p
contains (x ∷ xs) p = has_prefix (x ∷ xs) p || contains xs p

-- An ASCII letter in lower case; any other byte stays.
unfoldable pub to_lower_byte : ℕ → ℕ
to_lower_byte c = if leb b'A' c && leb c b'Z' then c + 32 else c

-- One byte before a text that is in lower case already. Two runes beyond ASCII have a lower case in ASCII:
-- U+212A (the Kelvin sign, three bytes) is a k and U+0130 (two bytes) an i.
unfoldable pub lower_rune : ℕ → Str → Str
unfolding to_lower_byte has_prefix
lower_rune c rest =
    if c == 226 && has_prefix rest (132 ∷ 170 ∷ [])
    then b'k' ∷ drop 2 rest
    else if c == 196 && has_prefix rest (176 ∷ [])
    then b'i' ∷ drop 1 rest
    else to_lower_byte c ∷ rest

-- strings.ToLower as far as ASCII texts can tell: any other rune, and a byte that is part of none, becomes
-- bytes that are not ASCII either, and stays here.
unfoldable pub to_lower : Str → Str
unfolding lower_rune
to_lower [] = []
to_lower (c ∷ s) = let rest = to_lower s in lower_rune c rest

-- strconv.Itoa on natural numbers; a number has at most as many digits as its value and one.
digits : ℕ → ℕ → Str
digits zero n = []
digits (suc f) n =
    let rest = digits f (n / 10) in if ltb n 10 then (n + 48) ∷ [] else rest ++ (n % 10 + 48) ∷ []

unfoldable pub itoa : ℕ → Str
unfolding digits
itoa n = digits (n + 1) n

-- strings.Join
unfoldable pub join : Str → List Str → Str
join sep [] = []
join sep (x ∷ []) = x
join sep (x ∷ y ∷ ys) = x ++ sep ++ join sep (y ∷ ys)
