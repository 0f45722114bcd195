-- ===== src/AccountCache/Solvency.antt =====
-- No balance below zero: minus and plus repair it from the chain, or throw.
use scan_service.Prelude.{
  ℕ, ◌≡◌, refl, true, false, Option, some, inl, inr, arith, Option-cases, Bool-cases, ◌||◌, ap, ◌∙◌,
  sym,
}
use scan_service.Prelude.Int.{ℤ, ltb_ℤ}
use scan_service.Prelude.Text.{Text, same_text, same_text_iff, to_lower_case}
use scan_service.Prelude.Exec.{ok}
use scan_service.Const.{zero_address}
use scan_service.Env.{Env}
use scan_service.Env.Numeric.{test₂}
use scan_service.Env.Model.{Token, mtr, mtrg, BlockConcise, Account, ChainAccount}
use scan_service.AccountCache.{AccountCache, new_account, correct, minus, plus}
use scan_service.AccountCache.View.{view}
use scan_service.AccountCache.Frame.{run, minus_op, plus_op, view-run}
use scan_service.AccountCache.Effects.{
  loaded, balance_of, set_balance, outcome, IsNative, minus-outcome, plus-outcome, minus-skips,
  plus-skips,
}

module _ ⦃e : Env⦄ where
  open e use {BigNumber, big_zero, is_less_than, is_less_than_or_equal_to, to_fixed, value}

  -- Not below zero.
  abbrev IsCovered : BigNumber → Type 0
  IsCovered b = is_less_than b big_zero ≡ false

  abbrev pub IsSolvent : Account BigNumber → Type 0
  IsSolvent a = IsCovered a.mtr_balance × IsCovered a.mtrg_balance

  -- What the cache shows has no balance below zero.
  abbrev pub ShowsSolvent : AccountCache → Type 0
  ShowsSolvent s = (k : Text) (a : Account BigNumber) → view s k ≡ some a → IsSolvent a

  -- The node reports no balance below zero.
  abbrev pub NodeIsSolvent : Type 0
  NodeIsSolvent =
      (addr : Text) (n : ℕ) (c : ChainAccount BigNumber)
      → e.get_account addr n ≡ some c
      → IsCovered c.energy × IsCovered c.balance

  IsCovered-big_zero : IsCovered big_zero
  IsCovered-big_zero = rw (e.is_less_than_lem big_zero big_zero, e.value-big_zero) refl

  IsCovered-of_print :
      (a b : BigNumber) → same_text (to_fixed a) (to_fixed b) ≡ true → IsCovered b → IsCovered a
  IsCovered-of_print a b same h =
      e.is_less_than_lem a big_zero
      ∙ ap (λ (v : Option ℤ). test₂ ltb_ℤ v (value big_zero))
          (e.to_fixed_injective a b ((same_text_iff _ _).0 same))
      ∙ sym (e.is_less_than_lem b big_zero)
      ∙ h

  correct-IsSolvent :
      (c : ChainAccount BigNumber) (block : BlockConcise) (a : Account BigNumber)
      → IsCovered c.energy
      → IsCovered c.balance
      → IsSolvent (correct c block a)
  unfolding correct
  correct-IsSolvent c block a he hb = ground (
    arith,
    IsCovered-of_print a.mtr_balance c.energy,
    IsCovered-of_print a.mtrg_balance c.balance,
  )

  loaded-IsSolvent :
      (addr : Text) (block : BlockConcise) (s : AccountCache)
      → ShowsSolvent s
      → IsSolvent (loaded addr block s)
  unfolding loaded new_account
  loaded-IsSolvent addr block s h = elim (Option-cases (view s (to_lower_case addr))) [
    | inl new ↦ rw (new, loaded) (IsCovered-big_zero, IsCovered-big_zero)
    | inr (a, found) ↦ rw (found, loaded) (h (to_lower_case addr) a found)
  ]

  module _ (honest : NodeIsSolvent) where
    outcome-IsSolvent :
        (addr : Text) (block : BlockConcise) (token : Token) (b : BigNumber) (a : Account BigNumber)
        → IsNative token
        → IsSolvent a
        → (outcome addr block (balance_of token) (set_balance token b a)).0 ≡ ok tt
        → IsSolvent (outcome addr block (balance_of token) (set_balance token b a)).1
    unfolding outcome
    outcome-IsSolvent addr block mtr b a native h r =
        elim (Option-cases (e.get_account addr block.number)) [
          | inl failed ↦ ground (arith, failed)
          | inr (c, found) ↦ ground (
            arith,
            found,
            honest addr block.number c found,
            correct-IsSolvent c block (record a { mtr_balance = b }),
          )
        ]
    outcome-IsSolvent addr block mtrg b a native h r =
        elim (Option-cases (e.get_account addr block.number)) [
          | inl failed ↦ ground (arith, failed)
          | inr (c, found) ↦ ground (
            arith,
            found,
            honest addr block.number c found,
            correct-IsSolvent c block (record a { mtrg_balance = b }),
          )
        ]
    outcome-IsSolvent addr block _ b a native h r = elim native [ ]

    -- One account changed, and it is solvent.
    solvent_after :
        (low : Text) (s s' : AccountCache) (b : Account BigNumber)
        → ShowsSolvent s
        → ((j : Text) → same_text low j ≡ false → view s' j ≡ view s j)
        → view s' low ≡ some b
        → IsSolvent b
        → ShowsSolvent s'
    solvent_after low s s' b solvent frame at_low hb k a shown =
        elim (Bool-cases (same_text low k)) [
          | inl same ↦ ground (arith, shown, at_low, (same_text_iff low k).0 same, hb)
          | inr other ↦ solvent k a (sym (frame k other) ∙ shown)
        ]

    module _ (addr : Text) (token : Token) (amount : BigNumber) (block : BlockConcise)
        (s : AccountCache) (native : IsNative token) (solvent : ShowsSolvent s) where
      minus_charged :
          (same_text addr zero_address || is_less_than_or_equal_to amount big_zero) ≡ false
          → (minus addr token amount block s).0 ≡ ok tt
          → ShowsSolvent (minus addr token amount block s).1
      unfolding run minus
      minus_charged open_guard returned =
          let nonzero : same_text addr zero_address ≡ false = ground arith in
          let positive : is_less_than_or_equal_to amount big_zero ≡ false = ground arith in
          let (result, shown) = minus-outcome addr token amount block s native positive nonzero in
          solvent_after (to_lower_case addr) s _ _ solvent
            (λ j other. view-run block (minus_op addr token amount) s j other) shown
            (outcome-IsSolvent (to_lower_case addr) block token _ _ native
              (loaded-IsSolvent addr block s solvent) (sym result ∙ returned))

      -- If the node reports no balance below zero, and the cache shows none, then it shows none
      -- after a `minus` of MTR or MTRG that returns, whatever the address and the amount are.
      pub minus-ShowsSolvent :
          (minus addr token amount block s).0 ≡ ok tt
          → ShowsSolvent (minus addr token amount block s).1
      minus-ShowsSolvent returned =
          elim (Bool-cases
            (same_text addr zero_address || is_less_than_or_equal_to amount big_zero)) [
              | inl skip ↦ rw (minus-skips addr token amount block s skip) solvent
              | inr charged ↦ minus_charged charged returned
            ]

      plus_charged :
          is_less_than_or_equal_to amount big_zero ≡ false
          → (plus addr token amount block s).0 ≡ ok tt
          → ShowsSolvent (plus addr token amount block s).1
      unfolding run plus
      plus_charged positive returned =
          let (result, shown) = plus-outcome addr token amount block s native positive in
          solvent_after (to_lower_case addr) s _ _ solvent
            (λ j other. view-run block (plus_op addr token amount) s j other) shown
            (outcome-IsSolvent (to_lower_case addr) block token _ _ native
              (loaded-IsSolvent addr block s solvent) (sym result ∙ returned))

      -- The same holds after a `plus` of MTR or MTRG that returns.
      pub plus-ShowsSolvent :
          (plus addr token amount block s).0 ≡ ok tt
          → ShowsSolvent (plus addr token amount block s).1
      plus-ShowsSolvent returned = elim (Bool-cases (is_less_than_or_equal_to amount big_zero)) [
        | inl skip ↦ rw (plus-skips addr token amount block s skip) solvent
        | inr charged ↦ plus_charged charged returned
      ]
