-- ===== src/Prelude/Chars.antt =====
-- Text that the program walks through: a list of code points, with what Rust's `str` and `char`
-- answer. (Texts that are only compared are `String`.)
use Prim.Native.Char.{code}
use Prim.Native.String
use Prim.Native.String.append.{nil, cons}
use Prim.Native.String.{String}
use Prim.Native.Nat.{ℕ, ◌+◌, ◌/◌, ◌%◌}
use mathlib.Core.Path.{◌≡◌, refl, ap, ◌∙◌}
use mathlib.Core.Logic.{inl, inr}
use mathlib.Core.Bool.{Bool, true, false, ◌&&◌, ◌||◌}
use mathlib.Core.List.{List, [], ◌∷◌, ◌++◌}
use native.Mathlib.Omega.{arith}
use fineract_ai_reports.Prelude.Tests.{
  ltb, leb, nat_beq, if◌then◌else◌, Bool-cases, nat_eq, string_eq,
}
use fineract_ai_reports.Prelude.Lists.{concat, all, is_empty, All}

abbrev pub Text : Type 0
Text = List ℕ

abbrev pub codes : String → Text
codes String.[] = []
codes (String.◌∷◌ c s) = code c ∷ codes s

-- `char::is_whitespace`: the property White_Space of Unicode
unfoldable pub is_whitespace : ℕ → Bool
is_whitespace c =
    leb 9 c && leb c 13
    || nat_beq c 32
    || nat_beq c 0x85
    || nat_beq c 0xa0
    || nat_beq c 0x1680
    || leb 0x2000 c && leb c 0x200a
    || nat_beq c 0x2028
    || nat_beq c 0x2029
    || nat_beq c 0x202f
    || nat_beq c 0x205f
    || nat_beq c 0x3000

unfoldable pub is_ascii_lowercase : ℕ → Bool
is_ascii_lowercase c = leb b'a' c && leb c b'z'

unfoldable pub is_ascii_uppercase : ℕ → Bool
is_ascii_uppercase c = leb b'A' c && leb c b'Z'

unfoldable pub is_ascii_digit : ℕ → Bool
is_ascii_digit c = leb b'0' c && leb c b'9'

-- `char::len_utf8`
unfoldable pub len_utf8 : ℕ → ℕ
len_utf8 c = if ltb c 0x80 then 1 else if ltb c 0x800 then 2 else if ltb c 0x10000 then 3 else 4

-- `str::len`
unfoldable pub byte_len : Text → ℕ
unfolding len_utf8
byte_len [] = 0
byte_len (c ∷ cs) = len_utf8 c + byte_len cs

-- `str::trim_start`
unfoldable pub trim_start : Text → Text
unfolding is_whitespace
trim_start [] = []
trim_start (c ∷ cs) = let rest = trim_start cs in if is_whitespace c then rest else c ∷ cs

-- `s.trim().is_empty()`
unfoldable pub is_blank : Text → Bool
unfolding is_whitespace
is_blank s = all is_whitespace s

-- `s.starts_with(prefix)`
unfoldable pub starts_with : Text → Text → Bool
starts_with s [] = true
starts_with [] (p ∷ ps) = false
starts_with (c ∷ cs) (p ∷ ps) = nat_beq c p && starts_with cs ps

-- `s.contains(needle)`
unfoldable pub contains_text : Text → Text → Bool
unfolding starts_with
contains_text [] needle = is_empty needle
contains_text (c ∷ cs) needle = starts_with (c ∷ cs) needle || contains_text cs needle

abbrev pub put_first : ℕ → List Text → List Text
put_first c [] = (c ∷ []) ∷ []
put_first c (piece ∷ pieces) = (c ∷ piece) ∷ pieces

-- `s.split_inclusive(stop)`: each piece ends with the character that stops it.
unfoldable pub split_inclusive : (ℕ → Bool) → Text → List Text
split_inclusive stop [] = []
split_inclusive stop (c ∷ cs) =
    let rest = split_inclusive stop cs in if stop c then (c ∷ []) ∷ rest else put_first c rest

concat-put_first : (c : ℕ) (pieces : List Text) → concat (put_first c pieces) ≡ c ∷ concat pieces
concat-put_first c [] = refl
concat-put_first c (piece ∷ pieces) = refl

-- Splitting loses nothing.
pub concat-split_inclusive : (stop : ℕ → Bool) (s : Text) → concat (split_inclusive stop s) ≡ s
unfolding split_inclusive
concat-split_inclusive stop [] = refl
concat-split_inclusive stop (c ∷ cs) = elim (Bool-cases (stop c)) [
  | inl t ↦ rw t (ap (λ r. c ∷ r) (concat-split_inclusive stop cs))
  | inr f ↦ rw f (
      concat-put_first c (split_inclusive stop cs)
      ∙ ap (λ r. c ∷ r) (concat-split_inclusive stop cs))
]

put_first_full :
    (c : ℕ) (pieces : List Text)
    → All (λ p. is_empty p ≡ false) pieces
    → All (λ p. is_empty p ≡ false) (put_first c pieces)
put_first_full c [] h = (refl, tt)
put_first_full c (piece ∷ pieces) h = (refl, h.1)

-- No piece is empty.
pub split_inclusive_full :
    (stop : ℕ → Bool) (s : Text) → All (λ p. is_empty p ≡ false) (split_inclusive stop s)
unfolding split_inclusive
split_inclusive_full stop [] = tt
split_inclusive_full stop (c ∷ cs) = elim (Bool-cases (stop c)) [
  | inl t ↦ rw t (refl, split_inclusive_full stop cs)
  | inr f ↦ rw f (put_first_full c (split_inclusive stop cs) (split_inclusive_full stop cs))
]

pub byte_len-append : (s t : Text) → byte_len (s ++ t) ≡ byte_len s + byte_len t
unfolding byte_len
byte_len-append [] t = omega arith
byte_len-append (c ∷ s) t = omega (arith, byte_len-append s t)

-- `push_str`
abbrev pub append : String → String → String
append s t = String.◌++◌ s t

abbrev digit : ℕ → String
digit n =
    if nat_beq n 0
    then "0"
    else if nat_beq n 1
    then "1"
    else if nat_beq n 2
    then "2"
    else if nat_beq n 3
    then "3"
    else if nat_beq n 4
    then "4"
    else if nat_beq n 5
    then "5"
    else if nat_beq n 6
    then "6"
    else if nat_beq n 7
    then "7"
    else if nat_beq n 8
    then "8"
    else "9"

-- A `u8` in decimal
unfoldable pub decimal : ℕ → String
decimal n =
    if ltb n 10
    then digit n
    else if ltb n 100
    then append (digit (n / 10)) (digit (n % 10))
    else append (digit (n / 100)) (append (digit (n / 10 % 10)) (digit (n % 10)))

pub codes-append : (s t : String) → codes (append s t) ≡ codes s ++ codes t
codes-append String.[] t = λ i. codes (nil t i)
codes-append (String.◌∷◌ c s) t =
    let first : codes (append (String.◌∷◌ c s) t) ≡ code c ∷ codes (append s t) =
      λ i. codes (cons c s t i) in
    first ∙ ap (λ r. code c ∷ r) (codes-append s t)
