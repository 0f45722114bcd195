-- ===== src/AccountCache/Transfer.antt =====
-- The amounts that minus and plus leave, as integers, and a transfer between two accounts.
use scan_service.Prelude.{◌≡◌, refl, false, Option, none, some, arith, ap, ◌∙◌}
use scan_service.Prelude.Int.{ℤ, pos, ◌+ℤ◌, ◌-ℤ◌, ◌≤ℤ◌, int_laws}
use scan_service.Prelude.Text.{Text, same_text, same_text-false_comm, to_lower_case}
use scan_service.Prelude.Exec.{Exec, ok, ◌>>◌, ◌>>=◌}
use scan_service.Const.{zero_address}
use scan_service.Env.{Env}
use scan_service.Env.Model.{Token, mtr, mtrg, BlockConcise, Account}
use scan_service.AccountCache.{AccountCache, new_account, minus, plus}
use scan_service.AccountCache.View.{view}
use scan_service.AccountCache.Frame.{run, minus_op, plus_op, view-run}
use scan_service.AccountCache.Effects.{
  loaded, balance_of, set_balance, outcome, IsNative, minus-outcome, plus-outcome,
}

module _ ⦃e : Env⦄ where
  open e use {BigNumber, big_zero, is_less_than, is_less_than_or_equal_to, value}

  -- The balance that the cache shows under an address; an unknown account holds nothing.
  abbrev pub amount_in : Token → Option (Account BigNumber) → Option ℤ
  amount_in token none = some (pos 0)
  amount_in token (some a) = value (balance_of token a)

  abbrev pub held : Token → AccountCache → Text → Option ℤ
  held token s k = amount_in token (view s k)

  value-loaded :
      (token : Token) (addr : Text) (block : BlockConcise) (s : AccountCache)
      → value (balance_of token (loaded addr block s)) ≡ held token s (to_lower_case addr)
  unfolding loaded new_account
  value-loaded mtr addr block s = ground (arith, e.value-big_zero)
  value-loaded _ addr block s = ground (arith, e.value-big_zero)

  pub covered_of_value :
      (b : BigNumber) (w : ℤ) → value b ≡ some w → pos 0 ≤ℤ w → is_less_than b big_zero ≡ false
  covered_of_value b w hb hw =
      rw (e.is_less_than_lem b big_zero, hb, e.value-big_zero) (ground arith)

  -- A balance of zero or more is written, and the account needs no repair.
  outcome_held :
      (token : Token) (addr : Text) (block : BlockConcise) (a : Account BigNumber) (b : BigNumber)
      (w : ℤ)
      → IsNative token
      → value b ≡ some w
      → pos 0 ≤ℤ w
      → ((outcome addr block (balance_of token) (set_balance token b a)).0 ≡ ok tt)
        × (value
              (balance_of token (outcome addr block (balance_of token) (set_balance token b a)).1)
            ≡ some w)
  unfolding outcome
  outcome_held mtr addr block a b w native hb hw =
      rw (covered_of_value b w hb hw, outcome) (refl, hb)
  outcome_held mtrg addr block a b w native hb hw =
      rw (covered_of_value b w hb hw, outcome) (refl, hb)
  outcome_held _ addr block a b w native hb hw = elim native [ ]

  module _ (addr : Text) (token : Token) (amount : BigNumber) (block : BlockConcise)
      (s : AccountCache) (native : IsNative token) (v x : ℤ)
      (holds : held token s (to_lower_case addr) ≡ some v) (worth : value amount ≡ some x)
      (positive : pos 1 ≤ℤ x) where
    amount_positive : is_less_than_or_equal_to amount big_zero ≡ false
    amount_positive =
        rw (e.is_less_than_or_equal_to_lem amount big_zero, worth, e.value-big_zero) (ground arith)

    -- A positive amount that the account covers is taken from it.
    pub minus_held :
        same_text addr zero_address ≡ false
        → x ≤ℤ v
        → ((minus addr token amount block s).0 ≡ ok tt)
          × (held token (minus addr token amount block s).1 (to_lower_case addr) ≡ some (v -ℤ x))
    minus_held nonzero covers =
        let (result, shown) =
          minus-outcome addr token amount block s native amount_positive nonzero in
        let written : value (e.minus (balance_of token (loaded addr block s)) amount)
            ≡ some (v -ℤ x) =
          rw
            (
              e.value-minus (balance_of token (loaded addr block s)) amount,
              value-loaded token addr block s,
              holds,
              worth,
            )
            refl in
        let after =
          outcome_held token (to_lower_case addr) block (loaded addr block s) _ _ native written
            (omega int_laws) in
        (result ∙ after.0, ap (amount_in token) shown ∙ after.1)

    -- A positive amount is added to an account that is not below zero.
    pub plus_held :
        pos 0 ≤ℤ v
        → ((plus addr token amount block s).0 ≡ ok tt)
          × (held token (plus addr token amount block s).1 (to_lower_case addr) ≡ some (v +ℤ x))
    plus_held nonneg =
        let (result, shown) = plus-outcome addr token amount block s native amount_positive in
        let written : value (e.plus (balance_of token (loaded addr block s)) amount)
            ≡ some (v +ℤ x) =
          rw
            (
              e.value-plus (balance_of token (loaded addr block s)) amount,
              value-loaded token addr block s,
              holds,
              worth,
            )
            refl in
        let after =
          outcome_held token (to_lower_case addr) block (loaded addr block s) _ _ native written
            (omega int_laws) in
        (result ∙ after.0, ap (amount_in token) shown ∙ after.1)

  -- `await minus(from, …); await plus(to, …)`, as pos.cmd handles a transfer.
  unfoldable pub transfer :
      Text → Text → Token → BigNumber → BlockConcise → Exec AccountCache (Unit {0})
  transfer from to token amount block = do minus from token amount block; plus to token amount block

  transfer_step :
      (from to : Text) (token : Token) (amount : BigNumber) (block : BlockConcise)
      (s : AccountCache)
      → (minus from token amount block s).0 ≡ ok tt
      → transfer from to token amount block s
        ≡ plus to token amount block (minus from token amount block s).1
  unfolding transfer ◌>>=◌
  transfer_step from to token amount block s h = rw h

  -- Between two accounts, a positive amount of MTR or MTRG that the sender covers moves: both calls
  -- return, the sender holds it less, the recipient holds it more, and no third account changes.
  pub transfer_moves :
      (from to : Text) (token : Token) (amount : BigNumber) (block : BlockConcise)
      (s : AccountCache) (v w x : ℤ) (third : Text)
      → IsNative token
      → same_text from zero_address ≡ false
      → same_text (to_lower_case from) (to_lower_case to) ≡ false
      → held token s (to_lower_case from) ≡ some v
      → held token s (to_lower_case to) ≡ some w
      → value amount ≡ some x
      → pos 1 ≤ℤ x
      → x ≤ℤ v
      → pos 0 ≤ℤ w
      → same_text (to_lower_case from) third ≡ false
      → same_text (to_lower_case to) third ≡ false
      → let (r, s') = transfer from to token amount block s in
        (r ≡ ok tt)
        × (held token s' (to_lower_case from) ≡ some (v -ℤ x))
        × (held token s' (to_lower_case to) ≡ some (w +ℤ x))
        × (view s' third ≡ view s third)
  unfolding run
  transfer_moves from to token amount block s v w x third native nonzero apart hv hw worth positive
        covers nonneg not_from not_to =
      let m = minus from token amount block s in
      let (r1, h1) =
        minus_held from token amount block s native v x hv worth positive nonzero covers in
      let before = λ (k : Text) (o : same_text (to_lower_case from) k ≡ false).
        view-run block (minus_op from token amount) s k o in
      let after = λ (k : Text) (o : same_text (to_lower_case to) k ≡ false).
        view-run block (plus_op to token amount) m.1 k o in
      let (r2, h2) =
        plus_held to token amount block m.1 native w x
          (ap (amount_in token) (before (to_lower_case to) apart) ∙ hw) worth positive nonneg in
      rw (transfer_step from to token amount block s r1) (
        r2,
        ap (amount_in token) (after (to_lower_case from) (same_text-false_comm _ _ apart)) ∙ h1,
        h2,
        after third not_to ∙ before third not_from,
      )
