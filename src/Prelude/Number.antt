-- ===== src/Prelude/Number.antt =====
-- JavaScript numbers that are integers: a double holds every integer up to 2 ^ 53, and rounds what
-- is above to 53 bits, halves to the even side. What is above 2 ^ 1024, where a double is infinite,
-- is left as it is.
use mathlib.Core.Logic.{inl, inr}
use scan_service.Prelude.Tests.{Bool-cases, ltb, leb, ◌==◌, if◌then◌else◌}
use scan_service.Prelude.Int.{ℤ, pos, negsuc, ◌+ℤ◌, ◌-ℤ◌, ◌≤ℤ◌}
use Prim.Native.Nat.{ℕ, zero, suc, ◌+◌, ◌*◌, ◌/◌, ◌%◌, ◌≤◌}
use mathlib.Core.Path.{◌≡◌, refl}
use mathlib.Core.Bool.{true, false, ◌&&◌, ◌||◌}
use native.Mathlib.Omega.{arith}

-- 2 ^ 53
abbrev pub limit : ℕ
limit = 9007199254740992

-- The multiple of the unit that is nearest, and of two the even one.
nearest : ℕ → ℕ → ℕ
nearest unit n =
    let q = n / unit in
    let r = n % unit in
    if ltb unit (r + r) || (r + r == unit && q % 2 == 1) then suc q * unit else q * unit

-- The unit is doubled until the number has 53 bits of it.
round_from : ℕ → ℕ → ℕ → ℕ
unfolding nearest
round_from zero unit n = n
round_from (suc fuel) unit n = elim (leb n (limit * unit)) [
  | true ↦ nearest unit n
  | false ↦ round_from fuel (unit + unit) n
]

unfoldable pub round_ℕ : ℕ → ℕ
unfolding round_from
round_ℕ n = elim (leb n limit) [ true ↦ n | false ↦ round_from 971 2 n ]

-- `Number(text)` of an integer
unfoldable pub to_number : ℤ → ℤ
to_number (pos n) = pos (round_ℕ n)
to_number (negsuc n) = elim (round_ℕ (suc n)) [ zero ↦ pos 0 | suc m ↦ negsuc m ]

-- `a + b` and `a - b`
unfoldable pub add_number : ℤ → ℤ → ℤ
add_number a b = to_number (a +ℤ b)

unfoldable pub sub_number : ℤ → ℤ → ℤ
sub_number a b = to_number (a -ℤ b)

-- At most 2 ^ 53 on either side.
abbrev pub IsExact : ℤ → Type 0
IsExact v = (v ≤ℤ pos limit) × (negsuc 9007199254740991 ≤ℤ v)

pub to_number_exact : (v : ℤ) → IsExact v → to_number v ≡ v
unfolding to_number round_ℕ
to_number_exact (pos n) h = ground arith
to_number_exact (negsuc n) h = ground arith

rounds_up : to_number (pos 9007199254740995) ≡ pos 9007199254740996
unfolding to_number round_ℕ nearest round_from
rounds_up = refl

rounds_to_even : add_number (pos 9007199254740992) (pos 1) ≡ pos 9007199254740992
unfolding add_number to_number round_ℕ nearest round_from ◌+ℤ◌
rounds_to_even = refl

-- What is above zero stays so.
nearest_positive : (unit n : ℕ) → 1 ≤ unit → unit ≤ n → 1 ≤ nearest unit n
unfolding nearest
nearest_positive unit n h le =
    let whole : 1 ≤ n / unit = grind arith in
    let less : 1 ≤ n / unit * unit = grind (arith, whole) in
    let more : 1 ≤ suc (n / unit) * unit = grind (arith, whole) in ground (arith, less, more)

round_from_positive : (fuel unit n : ℕ) → 1 ≤ unit → unit ≤ n → 1 ≤ round_from fuel unit n
unfolding round_from
round_from_positive zero unit n h le = omega arith
round_from_positive (suc fuel) unit n h le = elim (Bool-cases (leb n (limit * unit))) [
  | inl fits ↦ rw (fits, round_from) (nearest_positive unit n h le)
  | inr beyond ↦
      rw (beyond, round_from)
        (round_from_positive fuel (unit + unit) n (omega arith) (ground arith))
]

pub round_ℕ_positive : (n : ℕ) → 1 ≤ n → 1 ≤ round_ℕ n
unfolding round_ℕ
round_ℕ_positive n h = elim (Bool-cases (leb n limit)) [
  | inl exact ↦ rw (exact, round_ℕ) h
  | inr beyond ↦ rw (beyond, round_ℕ) (round_from_positive 971 2 n (omega arith) (ground arith))
]

pub to_number_positive : (v : ℤ) → pos 1 ≤ℤ v → pos 1 ≤ℤ to_number v
unfolding to_number
to_number_positive (pos n) h = let r = round_ℕ_positive n (omega arith) in omega arith
to_number_positive (negsuc n) h = absurd (omega arith)
