-- ===== src/AccountCache/View.antt =====
-- What the cache shows of an account: its own copy, or else the document of the collection.
use scan_service.Prelude.{◌≡◌, false, Option, none, some, inl, inr, Option-cases, arith}
use scan_service.Prelude.Text.{Text, same_text, to_lower_case, to_lower_case_idem}
use scan_service.Prelude.Dict.{get, get-put}
use scan_service.Prelude.Exec.{Preserves}
use scan_service.Env.{Env}
use scan_service.Env.Model.{BlockConcise, Account}
use scan_service.AccountCache.{
  AccountCache, find_by_address, new_account, create, correct, update_acct, fix_account,
  set_default, fix_if_negative,
}

module _ ⦃e : Env⦄ where
  open e use {BigNumber}

  unfoldable pub view : AccountCache → Text → Option (Account BigNumber)
  view s k = elim (get k s.accts) [ none ↦ e.accounts.find_one k s.db | some a ↦ some a ]

  -- The view of the account `j` stays `v`.
  abbrev pub Shows : Text → Option (Account BigNumber) → AccountCache → Type 0
  Shows j v s = view s j ≡ v

  module _ (addr j : Text) (v : Option (Account BigNumber)) (other : same_text addr j ≡ false) where
    pub update_acct-Shows :
        (f : Account BigNumber → Account BigNumber) → Preserves (Shows j v) (update_acct addr f)
    unfolding view update_acct
    update_acct-Shows f = record { from_state = λ s h. grind (arith, get-put) }

  module _ (addr j : Text) (v : Option (Account BigNumber))
      (other : same_text (to_lower_case addr) j ≡ false) where
    pub fix_account-Shows : (block : BlockConcise) → Preserves (Shows j v) (fix_account addr block)
    unfolding fix_account
    fix_account-Shows block = record {
      from_state = λ s h. elim (Option-cases (e.get_account (to_lower_case addr) block.number)) [
        | inl failed ↦ rw (failed, fix_account) h
        | inr (c, found) ↦
            rw (found, fix_account)
              ((update_acct-Shows (to_lower_case addr) j v other (correct c block)).from_state s h)
      ];
    }

    pub set_default-Shows : (block : BlockConcise) → Preserves (Shows j v) (set_default addr block)
    unfolding set_default view find_by_address create new_account
    set_default-Shows block = record {
      from_state = λ s h.
          grind
            (arith, get-put, e.accounts.find_one-save, to_lower_case_idem addr, to_lower_case_idem);
    }

    pub fix_if_negative-Shows :
        (amount : Account BigNumber → BigNumber) (block : BlockConcise)
        → to_lower_case addr ≡ addr
        → Preserves (Shows j v) (fix_if_negative amount addr block)
    unfolding fix_if_negative
    fix_if_negative-Shows amount block low = record {
      from_state = λ s h. ground (arith, (fix_account-Shows block).from_state s h);
    }
