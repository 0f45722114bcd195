-- ===== src/Env/Numeric.antt =====
-- The interface of bignumber.js, at the values that the program computes with: whole amounts of
-- the smallest unit, and NaN. `value` says which integer a number stands for; `none` is NaN.
use scan_service.Prelude.{◌≡◌, Bool, true, false, Option, none, some}
use scan_service.Prelude.Int.{ℤ, pos, ◌+ℤ◌, ◌-ℤ◌, ltb_ℤ, leb_ℤ, beq_ℤ}
use scan_service.Prelude.Text.{Text}

-- An operation on integers, NaN if one of its arguments is.
abbrev pub lift₂ : (ℤ → ℤ → ℤ) → Option ℤ → Option ℤ → Option ℤ
lift₂ f (some a) (some b) = some (f a b)
lift₂ f _ _ = none

-- A comparison, which fails at NaN.
abbrev pub test₂ : (ℤ → ℤ → Bool) → Option ℤ → Option ℤ → Bool
test₂ f (some a) (some b) = f a b
test₂ f _ _ = false

pub record BigNumbers : Type 1 where
  pub BigNumber : Type 0
  pub value : BigNumber → Option ℤ
  -- `new BigNumber(0)`
  pub big_zero : BigNumber
  pub plus : BigNumber → BigNumber → BigNumber
  pub minus : BigNumber → BigNumber → BigNumber
  pub is_less_than : BigNumber → BigNumber → Bool
  pub is_less_than_or_equal_to : BigNumber → BigNumber → Bool
  pub is_equal_to : BigNumber → BigNumber → Bool
  -- `Number.isNaN(x.toNumber())`
  pub is_nan : BigNumber → Bool
  pub to_fixed : BigNumber → Text
  pub value-big_zero : value big_zero ≡ some (pos 0)
  pub value-plus : (a b : BigNumber) → value (plus a b) ≡ lift₂ ◌+ℤ◌ (value a) (value b)
  pub value-minus : (a b : BigNumber) → value (minus a b) ≡ lift₂ ◌-ℤ◌ (value a) (value b)
  pub is_less_than_lem : (a b : BigNumber) → is_less_than a b ≡ test₂ ltb_ℤ (value a) (value b)
  pub is_less_than_or_equal_to_lem :
      (a b : BigNumber) → is_less_than_or_equal_to a b ≡ test₂ leb_ℤ (value a) (value b)
  pub is_equal_to_lem : (a b : BigNumber) → is_equal_to a b ≡ test₂ beq_ℤ (value a) (value b)
  pub is_nan_lem : (a : BigNumber) → is_nan a ≡ (elim (value a) [ none ↦ true | some _ ↦ false ])
  -- two numbers that are printed alike stand for the same integer
  pub to_fixed_injective : (a b : BigNumber) → to_fixed a ≡ to_fixed b → value a ≡ value b
