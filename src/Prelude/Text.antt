-- ===== src/Prelude/Text.antt =====
-- Strings of the source as lists of code units, with what the source does to addresses and keys:
-- equality, `toLowerCase`, concatenation, and the reading of a property key as an array index.
use scan_service.Prelude.Tests.{ltb, leb, ◌==◌, if◌then◌else◌}
use Prim.Native.Nat.{ℕ, zero, suc, ◌+◌, ◌-◌, ◌*◌, ◌/◌, ◌%◌}
use Prim.Native.Char.{code}
use Prim.Native.String.{String}
use mathlib.Core.Path.{◌≡◌, refl}
use mathlib.Core.Logic.{◌↔◌}
use mathlib.Core.Bool.{Bool, true, false, ◌&&◌}
use mathlib.Core.Option.{Option, none, some}
use mathlib.Core.List.{List, [], ◌∷◌, ◌++◌, map, map-append}
use native.Mathlib.Omega.{arith}

abbrev pub Text : Type 0
Text = List ℕ

-- The code points of a quoted text.
abbrev pub codes : String → Text
codes String.[] = []
codes (String.◌∷◌ c s) = code c ∷ codes s

unfoldable pub same_text : Text → Text → Bool
same_text [] [] = true
same_text (x ∷ xs) (y ∷ ys) = x == y && same_text xs ys
same_text [] (y ∷ ys) = false
same_text (x ∷ xs) [] = false

pub same_text_iff : (a b : Text) → (same_text a b ≡ true) ↔ (a ≡ b)
unfolding same_text
same_text_iff [] [] = ground arith
same_text_iff (x ∷ xs) (y ∷ ys) = ground (arith, same_text_iff xs ys)
same_text_iff [] (y ∷ ys) = ground arith
same_text_iff (x ∷ xs) [] = ground arith

pub same_text_refl : (a : Text) → same_text a a ≡ true
same_text_refl a = (same_text_iff a a).1 refl

pub same_text-false_comm : (a b : Text) → same_text a b ≡ false → same_text b a ≡ false
same_text-false_comm a b h = ground (arith, same_text_iff a b, same_text_iff b a)

-- `toLowerCase` on the ASCII letters; the texts that the program lowers are hexadecimal.
lower : ℕ → ℕ
lower c = if leb b'A' c && leb c b'Z' then c + 32 else c

unfoldable pub to_lower_case : Text → Text
unfolding lower
to_lower_case = map lower

lower_idem : (c : ℕ) → lower (lower c) ≡ lower c
unfolding lower
lower_idem c = ground arith

pub to_lower_case_idem : (a : Text) → to_lower_case (to_lower_case a) ≡ to_lower_case a
unfolding to_lower_case
to_lower_case_idem [] = refl
to_lower_case_idem (c ∷ a) = λ i. lower_idem c i ∷ to_lower_case_idem a i

pub to_lower_case-append :
    (a b : Text) → to_lower_case (a ++ b) ≡ to_lower_case a ++ to_lower_case b
unfolding to_lower_case
to_lower_case-append a b = map-append lower a b

-- The number that a text of digits spells.
digits_value : ℕ → Text → Option ℕ
digits_value n [] = some n
digits_value n (c ∷ a) =
    let rest = digits_value (n * 10 + (c - 48)) a in if leb b'0' c && leb c b'9' then rest else none

-- A property key that is an array index: digits with no leading zero, below 2 ^ 32 - 1.
unfoldable pub array_index : Text → Option ℕ
unfolding digits_value
array_index [] = none
array_index (c ∷ a) =
    if c == b'0' then elim a [ [] ↦ some 0 | _ ∷ _ ↦ none ] else elim (digits_value 0 (c ∷ a)) [
      | none ↦ none
      | some n ↦ if ltb n 4294967295 then some n else none
    ]

-- `a.startsWith(prefix)`
unfoldable pub starts_with : Text → Text → Bool
starts_with [] a = true
starts_with (c ∷ p) [] = false
starts_with (c ∷ p) (d ∷ a) = c == d && starts_with p a

-- `String(n)` on fuel, the digits before those of `a`; `n` rounds are enough.
print_digits : ℕ → ℕ → Text → Text
print_digits zero n a = a
print_digits (suc fuel) n a =
    let digits = (48 + n % 10) ∷ a in
    let rest = print_digits fuel (n / 10) digits in if ltb n 10 then digits else rest

unfoldable pub decimal : ℕ → Text
unfolding print_digits
decimal n = print_digits (suc n) n []
