-- ===== src/TokenBalanceCache/Amounts.antt =====
-- What `minus` and `plus` leave of a balance.
use scan_service.Prelude.{
  Bool-cases, inl, inr, ◌≡◌, refl, ap, ◌∙◌, false, Option, none, some, arith, ◌||◌, if◌then◌else◌,
}
use scan_service.Prelude.Int.{ℤ, pos, ◌+ℤ◌, ◌-ℤ◌, eq_of_parts}
use scan_service.Prelude.Text.{Text, same_text, same_text_refl}
use scan_service.Prelude.Dict.{get, get-put}
use scan_service.Prelude.Exec.{Exec, ok, ◌>>=◌, ◌>>◌}
use scan_service.Const.{zero_address}
use scan_service.Env.{Env}
use scan_service.Env.Numeric.{lift₂}
use scan_service.Env.Model.{BlockConcise, TokenBalance}
use scan_service.TokenBalanceCache.{
  TokenBalanceCache, key_of, find_by_address, new_token_balance, create, update_bal, correct,
  fix_token_balance, hold, set_default, fix_if_invalid, touch, minus, plus,
}

module _ ⦃e : Env⦄ where
  open e use {
    BigNumber, big_zero, value, is_less_than, is_less_than_or_equal_to, is_equal_to, is_nan,
  }

  -- The balance that a method finds for the pair: cached, stored, or new.
  unfoldable pub loaded : Text → Text → BlockConcise → TokenBalanceCache → TokenBalance BigNumber
  loaded a t block s = elim (get (key_of a t) s.bals) [
    | some b ↦ b
    | none ↦ elim (find_by_address a t s.db) [ none ↦ new_token_balance a t block | some b ↦ b ]
  ]

  -- An amount that is below zero or not a number gives way to the node's.
  abbrev pub repaired : Option ℤ → Option ℤ → Option ℤ
  repaired chain (some (pos n)) = some (pos n)
  repaired chain _ = chain

  module _ (a t : Text) (block : BlockConcise) where
    pub set_default-ok : (s : TokenBalanceCache) → (set_default a t block s).0 ≡ ok tt
    unfolding set_default
    set_default-ok s = ground arith

    pub get-set_default :
        (s : TokenBalanceCache)
        → get (key_of a t) (set_default a t block s).1.bals ≡ some (loaded a t block s)
    unfolding set_default loaded create hold find_by_address
    get-set_default s = grind (arith, get-put, same_text_refl)

    abbrev fixed : TokenBalance BigNumber → TokenBalance BigNumber
    fixed b =
        let c =
          if is_less_than b.balance big_zero || is_nan b.balance
          then correct (e.get_erc20_balance_of a t block.number) block b
          else b in
        record c { last_update = block }

    fix_if_invalid_lem :
        (s : TokenBalanceCache) (b : TokenBalance BigNumber)
        → get (key_of a t) s.bals ≡ some b
        → (((fix_if_invalid a t block >> touch (key_of a t) block) s).0 ≡ ok tt)
          × (get (key_of a t) ((fix_if_invalid a t block >> touch (key_of a t) block) s).1.bals
              ≡ some (fixed b))
    unfolding fix_if_invalid touch fix_token_balance update_bal ◌>>=◌
    fix_if_invalid_lem s b found = grind (arith, get-put, same_text_refl (key_of a t))

    abbrev charge :
        (TokenBalance BigNumber → TokenBalance BigNumber) → Exec TokenBalanceCache (Unit {0})
    charge f =
        set_default a t block
        >> update_bal (key_of a t) f
        >> fix_if_invalid a t block
        >> touch (key_of a t) block

    written :
        (f : TokenBalance BigNumber → TokenBalance BigNumber) (s : TokenBalanceCache)
        → (((set_default a t block >> update_bal (key_of a t) f) s).0 ≡ ok tt)
          × (get (key_of a t) ((set_default a t block >> update_bal (key_of a t) f) s).1.bals
              ≡ some (f (loaded a t block s)))
    unfolding ◌>>=◌ update_bal
    written f s =
        grind (arith, set_default-ok s, get-set_default s, get-put, same_text_refl (key_of a t))

    charge_lem :
        (f : TokenBalance BigNumber → TokenBalance BigNumber) (s : TokenBalanceCache)
        → ((charge f s).0 ≡ ok tt)
          × (get (key_of a t) (charge f s).1.bals ≡ some (fixed (f (loaded a t block s))))
    unfolding ◌>>=◌
    charge_lem f s =
        let (r, found) = written f s in
        let (result, after) =
          fix_if_invalid_lem ((set_default a t block >> update_bal (key_of a t) f) s).1 _ found in
        (rw r result, rw r after)

    value-fixed :
        (b : TokenBalance BigNumber)
        → value (fixed b).balance
          ≡ repaired (value (e.get_erc20_balance_of a t block.number)) (value b.balance)
    unfolding correct
    value-fixed b = grind (
      arith,
      e.is_less_than_lem b.balance big_zero,
      e.value-big_zero,
      e.is_nan_lem b.balance,
      e.is_equal_to_lem b.balance (e.get_erc20_balance_of a t block.number),
      eq_of_parts,
    )

  module _ (a t : Text) (amount : BigNumber) (block : BlockConcise) (s : TokenBalanceCache)
      (nonzero : same_text a zero_address ≡ false)
      (positive : is_less_than_or_equal_to amount big_zero ≡ false) where
    -- Taking a positive amount from an owner other than the zero address always returns. It leaves
    -- the balance that was found less the amount, or the balance that the node reports where that
    -- is below zero or not a number, and the block as that of the last update.
    pub minus-balance :
        ((minus a t amount block s).0 ≡ ok tt)
        × (b : TokenBalance BigNumber) × (get (key_of a t) (minus a t amount block s).1.bals
            ≡ some b)
        × (value b.balance
            ≡ repaired
                (value (e.get_erc20_balance_of a t block.number))
                (lift₂ ◌-ℤ◌ (value (loaded a t block s).balance) (value amount)))
        × (b.last_update ≡ block)
    unfolding minus
    minus-balance =
        let debit =
          λ (b : TokenBalance BigNumber). record b { balance = e.minus b.balance amount } in
        let (result, after) = charge_lem a t block debit s in
        (
          rw (nonzero, positive) result,
          fixed a t block (debit (loaded a t block s)),
          rw (nonzero, positive) after,
          value-fixed a t block (debit (loaded a t block s))
              ∙ ap (repaired (value (e.get_erc20_balance_of a t block.number)))
                  (e.value-minus (loaded a t block s).balance amount),
          refl,
        )

    -- Adding a positive amount for an owner other than the zero address always returns. It leaves
    -- the balance that was found and the amount, or the balance that the node reports where that
    -- is below zero or not a number, and the block as that of the last update.
    pub plus-balance :
        ((plus a t amount block s).0 ≡ ok tt)
        × (b : TokenBalance BigNumber) × (get (key_of a t) (plus a t amount block s).1.bals
            ≡ some b)
        × (value b.balance
            ≡ repaired
                (value (e.get_erc20_balance_of a t block.number))
                (lift₂ ◌+ℤ◌ (value (loaded a t block s).balance) (value amount)))
        × (b.last_update ≡ block)
    unfolding plus
    plus-balance =
        let credit =
          λ (b : TokenBalance BigNumber). record b { balance = e.plus b.balance amount } in
        let (result, after) = charge_lem a t block credit s in
        (
          rw (nonzero, positive) result,
          fixed a t block (credit (loaded a t block s)),
          rw (nonzero, positive) after,
          value-fixed a t block (credit (loaded a t block s))
              ∙ ap (repaired (value (e.get_erc20_balance_of a t block.number)))
                  (e.value-plus (loaded a t block s).balance amount),
          refl,
        )

  -- A call of minus returns, whatever the owner, the token and the amount are.
  pub minus-ok :
      (a t : Text) (amount : BigNumber) (block : BlockConcise) (s : TokenBalanceCache)
      → (minus a t amount block s).0 ≡ ok tt
  unfolding minus ◌>>=◌
  minus-ok a t amount block s =
      elim (Bool-cases (same_text a zero_address || is_less_than_or_equal_to amount big_zero)) [
        | inl skipped ↦ rw skipped refl
        | inr charged ↦ rw charged (charge_lem a t block _ s).0
      ]

  -- A call of plus returns, whatever the owner, the token and the amount are.
  pub plus-ok :
      (a t : Text) (amount : BigNumber) (block : BlockConcise) (s : TokenBalanceCache)
      → (plus a t amount block s).0 ≡ ok tt
  unfolding plus ◌>>=◌
  plus-ok a t amount block s =
      elim (Bool-cases (same_text a zero_address || is_less_than_or_equal_to amount big_zero)) [
        | inl skipped ↦ rw skipped refl
        | inr charged ↦ rw charged (charge_lem a t block _ s).0
      ]
