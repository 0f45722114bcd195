-- ===== src/AccountCache/Frame.antt =====
-- Every method of the cache leaves the accounts alone that it does not name.
use scan_service.Prelude.{◌≡◌, refl, false, Option}
use scan_service.Prelude.Text.{Text, same_text, to_lower_case, to_lower_case_idem}
use scan_service.Prelude.Exec.{Exec, Preserves, preserves_rules}
use scan_service.Env.{Env}
use scan_service.Env.Model.{Token, mtr, mtrg, BlockConcise, Account}
use scan_service.AccountCache.{
  AccountCache, minus, minus_token, plus, plus_token, bound, bound_token, unbound, unbound_token,
  withdraw, withdraw_token, set_default, touch, update_acct, fix_if_negative,
}
use scan_service.AccountCache.View.{
  view, Shows, update_acct-Shows, set_default-Shows, fix_if_negative-Shows,
}

module _ ⦃e : Env⦄ where
  open e use {BigNumber}

  -- A call of one of the methods that change an amount.
  pub data Operation : Type 0 where
    minus_op plus_op bound_op unbound_op : Text → Token → BigNumber → Operation
    withdraw_op : Text → Text → Token → BigNumber → Operation

  unfoldable pub run : BlockConcise → Operation → Exec AccountCache (Unit {0})
  run block (minus_op addr token amount) = minus addr token amount block
  run block (plus_op addr token amount) = plus addr token amount block
  run block (bound_op addr token amount) = bound addr token amount block
  run block (unbound_op addr token amount) = unbound addr token amount block
  run block (withdraw_op owner recipient token amount) = withdraw owner recipient token amount block

  -- The account `j` is none of those that the call names.
  abbrev pub Spares : Operation → Text → Type 0
  Spares (minus_op addr _ _) j = same_text (to_lower_case addr) j ≡ false
  Spares (plus_op addr _ _) j = same_text (to_lower_case addr) j ≡ false
  Spares (bound_op addr _ _) j = same_text (to_lower_case addr) j ≡ false
  Spares (unbound_op addr _ _) j = same_text (to_lower_case addr) j ≡ false
  Spares (withdraw_op owner recipient _ _) j =
      (same_text (to_lower_case owner) j ≡ false) × (same_text (to_lower_case recipient) j ≡ false)

  module _ (a j : Text) (v : Option (Account BigNumber))
      (other : same_text (to_lower_case a) j ≡ false) where
    pub touch-Shows : (block : BlockConcise) → Preserves (Shows j v) (touch (to_lower_case a) block)
    unfolding touch
    touch-Shows block = update_acct-Shows (to_lower_case a) j v other _

    checked-Shows :
        (amount : Account BigNumber → BigNumber) (block : BlockConcise)
        → Preserves (Shows j v) (fix_if_negative amount (to_lower_case a) block)
    checked-Shows amount block =
        fix_if_negative-Shows (to_lower_case a) j v (rw to_lower_case_idem other) amount block
          (to_lower_case_idem a)

    write-Shows :
        (f : Account BigNumber → Account BigNumber)
        → Preserves (Shows j v) (update_acct (to_lower_case a) f)
    write-Shows = update_acct-Shows (to_lower_case a) j v other

    default-Shows : (block : BlockConcise) → Preserves (Shows j v) (set_default a block)
    default-Shows = set_default-Shows a j v other

  ruleset shows_rules = (preserves_rules, write-Shows, checked-Shows, default-Shows, touch-Shows)

  module _ (a j : Text) (v : Option (Account BigNumber))
      (other : same_text (to_lower_case a) j ≡ false) where
    minus_token-Shows :
        (token : Token) (x : BigNumber) (block : BlockConcise)
        → Preserves (Shows j v) (minus_token token (to_lower_case a) x block)
    unfolding minus_token
    minus_token-Shows mtr x block = search shows_rules
    minus_token-Shows mtrg x block = search shows_rules
    minus_token-Shows _ x block = search preserves_rules

    plus_token-Shows :
        (token : Token) (x : BigNumber) (block : BlockConcise)
        → Preserves (Shows j v) (plus_token token (to_lower_case a) x block)
    unfolding plus_token
    plus_token-Shows mtr x block = search shows_rules
    plus_token-Shows mtrg x block = search shows_rules
    plus_token-Shows _ x block = search preserves_rules

    bound_token-Shows :
        (token : Token) (x : BigNumber) (block : BlockConcise)
        → Preserves (Shows j v) (bound_token token (to_lower_case a) x block)
    unfolding bound_token
    bound_token-Shows mtr x block = search shows_rules
    bound_token-Shows mtrg x block = search shows_rules
    bound_token-Shows _ x block = search preserves_rules

    unbound_token-Shows :
        (token : Token) (x : BigNumber) (block : BlockConcise)
        → Preserves (Shows j v) (unbound_token token (to_lower_case a) x block)
    unfolding unbound_token
    unbound_token-Shows mtr x block = search shows_rules
    unbound_token-Shows mtrg x block = search shows_rules
    unbound_token-Shows _ x block = search preserves_rules

  module _ (a b j : Text) (v : Option (Account BigNumber))
      (other : same_text (to_lower_case a) j ≡ false)
      (other' : same_text (to_lower_case b) j ≡ false) where
    withdraw_token-Shows :
        (token : Token) (x : BigNumber) (block : BlockConcise)
        → Preserves (Shows j v) (withdraw_token token (to_lower_case a) (to_lower_case b) x block)
    unfolding withdraw_token
    withdraw_token-Shows mtr x block = search shows_rules
    withdraw_token-Shows mtrg x block = search shows_rules
    withdraw_token-Shows _ x block = search preserves_rules

  ruleset token_rules = (
    shows_rules, minus_token-Shows, plus_token-Shows, bound_token-Shows, unbound_token-Shows,
    withdraw_token-Shows,
  )

  run-Shows :
      (block : BlockConcise) (op : Operation) (j : Text) (v : Option (Account BigNumber))
      → Spares op j
      → Preserves (Shows j v) (run block op)
  unfolding run minus plus bound unbound withdraw
  run-Shows block (minus_op a token x) j v h = search token_rules
  run-Shows block (plus_op a token x) j v h = search token_rules
  run-Shows block (bound_op a token x) j v h = search token_rules
  run-Shows block (unbound_op a token x) j v h = search token_rules
  run-Shows block (withdraw_op a b token x) j v h = search token_rules

  -- A call of minus, plus, bound, unbound or withdraw, whether it returns or throws, does not change
  -- what the cache shows of an account that the call does not name.
  pub view-run :
      (block : BlockConcise) (op : Operation) (s : AccountCache) (j : Text)
      → Spares op j
      → view (run block op s).1 j ≡ view s j
  view-run block op s j h = (run-Shows block op j (view s j) h).from_state s refl
