-- ===== src/AccountCache/Effects.antt =====
-- What minus and plus do to the account that they name, branch by branch.
use scan_service.Prelude.{◌≡◌, true, false, none, some, arith, ◌||◌}
use scan_service.Prelude.Text.{Text, same_text, same_text_refl, to_lower_case, to_lower_case_idem}
use scan_service.Prelude.Dict.{get, get-put}
use scan_service.Prelude.Exec.{Exec, Result, ok, err, ◌>>◌, node_failed, ◌>>=◌}
use scan_service.Const.{zero_address, get_account_name}
use scan_service.Env.{Env}
use scan_service.Env.Model.{Token, mtr, mtrg, BlockConcise, Account}
use scan_service.AccountCache.{
  AccountCache, find_by_address, new_account, create, update_acct, correct, fix_account,
  set_default, fix_if_negative, touch, minus, minus_token, plus, plus_token,
}
use scan_service.AccountCache.View.{view}

module _ ⦃e : Env⦄ where
  open e use {BigNumber, big_zero, is_less_than, is_less_than_or_equal_to, value}

  -- The account that a method finds under the address: cached, stored, or new.
  unfoldable pub loaded : Text → BlockConcise → AccountCache → Account BigNumber
  unfolding view
  loaded addr block s = elim (view s (to_lower_case addr)) [
    | none ↦
        new_account (get_account_name s.network (to_lower_case addr)) (to_lower_case addr) block
    | some a ↦ a
  ]

  module _ (addr : Text) (block : BlockConcise) (s : AccountCache) where
    pub set_default-ok : (set_default addr block s).0 ≡ ok tt
    unfolding set_default
    set_default-ok = ground arith

    pub get-set_default :
        get (to_lower_case addr) (set_default addr block s).1.accts ≡ some (loaded addr block s)
    unfolding set_default loaded find_by_address create new_account
    get-set_default = grind (arith, get-put, same_text_refl, to_lower_case_idem)

  abbrev pub balance_of : Token → Account BigNumber → BigNumber
  balance_of mtr a = a.mtr_balance
  balance_of _ a = a.mtrg_balance

  abbrev pub set_balance : Token → BigNumber → Account BigNumber → Account BigNumber
  set_balance mtr b a = record a { mtr_balance = b }
  set_balance _ b a = record a { mtrg_balance = b }

  abbrev pub stamp : BlockConcise → Account BigNumber → Account BigNumber
  stamp block a = record a { last_update = block }

  -- How a change ends that leaves the account as `a`: it stands unless the given amount is below
  -- zero. Then the account is taken from the chain, or the request fails and `a` stays as it is.
  unfoldable pub outcome :
      Text
      → BlockConcise
      → (Account BigNumber → BigNumber)
      → Account BigNumber
      → Result (Unit {0}) × Account BigNumber
  outcome addr block amount a = elim (is_less_than (amount a) big_zero) [
    | false ↦ (ok tt, stamp block a)
    | true ↦ elim (e.get_account addr block.number) [
      | none ↦ (err node_failed, a)
      | some c ↦ (ok tt, stamp block (correct c block a))
    ]
  ]

  module _ (addr : Text) (block : BlockConcise) (low : to_lower_case addr ≡ addr) where
    fix_if_negative_lem :
        (amount : Account BigNumber → BigNumber) (s : AccountCache) (a : Account BigNumber)
        → get addr s.accts ≡ some a
        → (((fix_if_negative amount addr block >> touch addr block) s).0
            ≡ (outcome addr block amount a).0)
          × (get addr ((fix_if_negative amount addr block >> touch addr block) s).1.accts
              ≡ some (outcome addr block amount a).1)
    unfolding fix_if_negative touch fix_account update_acct outcome ◌>>=◌
    fix_if_negative_lem amount s a found = grind (arith, low, get-put, same_text_refl addr)

  -- `this.accts[addr]` after the change, where a test follows it.
  module _ (addr_str : Text) (block : BlockConcise) (amount : Account BigNumber → BigNumber)
      (f : Account BigNumber → Account BigNumber) where
    abbrev charge : Exec AccountCache (Unit {0})
    charge =
        set_default addr_str block
        >> (update_acct (to_lower_case addr_str) f
            >> fix_if_negative amount (to_lower_case addr_str) block)
        >> touch (to_lower_case addr_str) block

    charge-outcome :
        (s : AccountCache)
        → ((charge s).0
            ≡ (outcome (to_lower_case addr_str) block amount (f (loaded addr_str block s))).0)
          × (view (charge s).1 (to_lower_case addr_str)
              ≡ some
                  (outcome (to_lower_case addr_str) block amount (f (loaded addr_str block s))).1)
    unfolding ◌>>=◌ update_acct view
    charge-outcome s = grind (
      arith,
      set_default-ok addr_str block s,
      get-set_default addr_str block s,
      fix_if_negative_lem (to_lower_case addr_str) block (to_lower_case_idem addr_str) amount,
      get-put,
      same_text_refl (to_lower_case addr_str),
    )

  -- The tokens that the cache keeps balances of.
  abbrev pub IsNative : Token → Type 0
  IsNative mtr = Unit
  IsNative mtrg = Unit
  IsNative _ = ⊥

  -- A call that the guard refuses changes nothing.
  module _ (addr : Text) (token : Token) (amount : BigNumber) (block : BlockConcise) where
    pub minus-skips :
        (s : AccountCache)
        → (same_text addr zero_address || is_less_than_or_equal_to amount big_zero) ≡ true
        → minus addr token amount block s ≡ (ok tt, s)
    unfolding minus ◌>>=◌
    minus-skips s h = rw h

    pub plus-skips :
        (s : AccountCache)
        → is_less_than_or_equal_to amount big_zero ≡ true
        → plus addr token amount block s ≡ (ok tt, s)
    unfolding plus ◌>>=◌
    plus-skips s h = rw h

  minus-charge :
      (addr : Text) (token : Token) (amount : BigNumber) (block : BlockConcise)
      → IsNative token
      → is_less_than_or_equal_to amount big_zero ≡ false
      → same_text addr zero_address ≡ false
      → minus addr token amount block
        ≡ charge addr block
            (balance_of token)
            (λ a. set_balance token (e.minus (balance_of token a) amount) a)
  unfolding minus minus_token
  minus-charge addr mtr amount block native positive nonzero = rw (nonzero, positive)
  minus-charge addr mtrg amount block native positive nonzero = rw (nonzero, positive)
  minus-charge addr _ amount block native positive nonzero = elim native [ ]

  plus-charge :
      (addr : Text) (token : Token) (amount : BigNumber) (block : BlockConcise)
      → IsNative token
      → is_less_than_or_equal_to amount big_zero ≡ false
      → plus addr token amount block
        ≡ charge addr block
            (balance_of token)
            (λ a. set_balance token (e.plus (balance_of token a) amount) a)
  unfolding plus plus_token
  plus-charge addr mtr amount block native positive = rw positive
  plus-charge addr mtrg amount block native positive = rw positive
  plus-charge addr _ amount block native positive = elim native [ ]

  module _ (addr : Text) (token : Token) (amount : BigNumber) (block : BlockConcise)
      (s : AccountCache) (native : IsNative token)
      (positive : is_less_than_or_equal_to amount big_zero ≡ false) where
    -- The balance that is written, before it is tested.
    abbrev pub debited : Account BigNumber
    debited =
        let a = loaded addr block s in set_balance token (e.minus (balance_of token a) amount) a

    abbrev pub credited : Account BigNumber
    credited =
        let a = loaded addr block s in set_balance token (e.plus (balance_of token a) amount) a

    -- A positive amount of MTR or MTRG is taken from an account other than the zero address: the
    -- result and the account are those of `outcome` at the debited account.
    pub minus-outcome :
        same_text addr zero_address ≡ false
        → ((minus addr token amount block s).0
            ≡ (outcome (to_lower_case addr) block (balance_of token) debited).0)
          × (view (minus addr token amount block s).1 (to_lower_case addr)
              ≡ some (outcome (to_lower_case addr) block (balance_of token) debited).1)
    minus-outcome nonzero =
        rw (minus-charge addr token amount block native positive nonzero)
          (charge-outcome addr block (balance_of token) _ s)

    pub plus-outcome :
        ((plus addr token amount block s).0
          ≡ (outcome (to_lower_case addr) block (balance_of token) credited).0)
        × (view (plus addr token amount block s).1 (to_lower_case addr)
            ≡ some (outcome (to_lower_case addr) block (balance_of token) credited).1)
    plus-outcome =
        rw (plus-charge addr token amount block native positive)
          (charge-outcome addr block (balance_of token) _ s)
