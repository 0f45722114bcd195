-- ===== src/AccountCache/Debited.antt =====
-- What `minus` leaves of an account, as integers.
use scan_service.Prelude.{
  ◌≡◌, refl, sym, ap, ◌∙◌, ◌⊎◌, inl, inr, Bool, true, false, none, some, Option, Bool-cases,
  Option-cases,
}
use scan_service.Prelude.Int.{ℤ, pos, ◌-ℤ◌, ltb_ℤ}
use scan_service.Prelude.Text.{Text, same_text, to_lower_case}
use scan_service.Prelude.Exec.{ok, err, node_failed}
use scan_service.Const.{zero_address}
use scan_service.Env.{Env}
use scan_service.Env.Numeric.{lift₂, test₂}
use scan_service.Env.Model.{Token, mtr, mtrg, BlockConcise, Account, ChainAccount}
use scan_service.AccountCache.{AccountCache, correct, minus}
use scan_service.AccountCache.View.{view}
use scan_service.AccountCache.Corrected.{Agrees, Agrees-corrected}
use scan_service.AccountCache.Effects.{
  loaded, balance_of, set_balance, stamp, outcome, IsNative, debited, minus-outcome,
}

-- Below zero; a NaN is not.
abbrev pub is_overdrawn : Option ℤ → Bool
is_overdrawn v = test₂ ltb_ℤ v (some (pos 0))

module _ ⦃e : Env⦄ where
  open e use {BigNumber, big_zero, is_less_than, is_less_than_or_equal_to, value}

  balance_of-set_balance :
      (token : Token) (b : BigNumber) (a : Account BigNumber)
      → IsNative token
      → balance_of token (set_balance token b a) ≡ b
  balance_of-set_balance mtr b a native = refl
  balance_of-set_balance mtrg b a native = refl
  balance_of-set_balance _ b a native = elim native [ ]

  balance_of-stamp :
      (token : Token) (block : BlockConcise) (a : Account BigNumber)
      → value (balance_of token (stamp block a)) ≡ value (balance_of token a)
  balance_of-stamp mtr block a = refl
  balance_of-stamp _ block a = refl

  -- The balance that is found, less the amount.
  abbrev pub rest : Text → Token → BigNumber → BlockConcise → AccountCache → Option ℤ
  rest addr token amount block s =
      lift₂ ◌-ℤ◌ (value (balance_of token (loaded addr block s))) (value amount)

  module _ (addr : Text) (token : Token) (amount : BigNumber) (block : BlockConcise)
      (s : AccountCache) (native : IsNative token)
      (positive : is_less_than_or_equal_to amount big_zero ≡ false)
      (nonzero : same_text addr zero_address ≡ false) where
    -- A positive amount of MTR or MTRG is taken from an account other than the zero address. Where the
    -- balance that was found, less the amount, is not below zero, minus returns and this is the
    -- balance. Where it is below zero and the node reports the account, minus returns and all four
    -- amounts of the account are those of the node; and where the request fails, minus throws. If it
    -- returns, the block is that of the last update.
    pub minus-value :
        let (r, s') = minus addr token amount block s in
        let left = rest addr token amount block s in
        ((is_overdrawn left ≡ false)
          × (r ≡ ok tt)
          × (a : Account BigNumber) × (view s' (to_lower_case addr) ≡ some a)
          × (value (balance_of token a) ≡ left)
          × (a.last_update ≡ block))
        ⊎ ((is_overdrawn left ≡ true)
            × (c : ChainAccount BigNumber) × (e.get_account (to_lower_case addr) block.number
                ≡ some c)
            × (r ≡ ok tt)
            × (a : Account BigNumber) × (view s' (to_lower_case addr) ≡ some a)
            × Agrees c a
            × (a.last_update ≡ block))
        ⊎ ((is_overdrawn left ≡ true)
            × (e.get_account (to_lower_case addr) block.number ≡ none)
            × (r ≡ err node_failed))
    unfolding outcome
    minus-value =
        let low = to_lower_case addr in
        let a = debited addr token amount block s native positive in
        let (returned, left) = minus-outcome addr token amount block s native positive nonzero in
        let is_rest : value (balance_of token a) ≡ rest addr token amount block s =
          ap value (balance_of-set_balance token _ (loaded addr block s) native)
          ∙ e.value-minus (balance_of token (loaded addr block s)) amount in
        let tested : is_less_than (balance_of token a) big_zero
            ≡ is_overdrawn (rest addr token amount block s) =
          e.is_less_than_lem (balance_of token a) big_zero
          ∙ (λ i. test₂ ltb_ℤ (is_rest i) (e.value-big_zero i)) in
        elim (Bool-cases (is_less_than (balance_of token a) big_zero)) [
          | inr covered ↦
              let out : outcome low block (balance_of token) a ≡ (ok tt, stamp block a) =
                rw (covered, outcome) refl in
              inl (
                sym tested ∙ covered,
                returned ∙ ap (λ p. p.0) out,
                stamp block a,
                left ∙ ap (λ p. some p.1) out,
                balance_of-stamp token block a ∙ is_rest,
                refl,
              )
          | inl over ↦ elim (Option-cases (e.get_account low block.number)) [
            | inl failed ↦
                let out : outcome low block (balance_of token) a ≡ (err node_failed, a) =
                  rw (over, failed, outcome) refl in
                inr (inr (sym tested ∙ over, failed, returned ∙ ap (λ p. p.0) out))
            | inr (c, reported) ↦
                let out : outcome low block (balance_of token) a
                    ≡ (ok tt, stamp block (correct c block a)) =
                  rw (over, reported, outcome) refl in
                let h = Agrees-corrected c block a in
                inr (
                  inl (
                    sym tested ∙ over,
                    c,
                    reported,
                    returned ∙ ap (λ p. p.0) out,
                    stamp block (correct c block a),
                    left ∙ ap (λ p. some p.1) out,
                    record {
                      same_mtr = h.same_mtr;
                      same_mtrg = h.same_mtrg;
                      same_mtr_bounded = h.same_mtr_bounded;
                      same_mtrg_bounded = h.same_mtrg_bounded;
                    },
                    refl,
                  ))
          ]
        ]
