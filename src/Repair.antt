-- ===== src/Repair.antt =====
-- The corrections after an interruption in src/cmd/pos.cmd.ts: `fixAccount` and `fixTokenBalance`, and
-- the part of `cleanUpIncompleteData` that calls them.
mod OnChain
mod Tests
use scan_service.Prelude.{
  ℕ, not, Option, none, some, List, [], ◌∷◌, length, drop, ltb, if◌then◌else◌,
}
use scan_service.Prelude.Text.{Text, codes, same_text}
use scan_service.Prelude.Exec.{Exec, ok, err, pure, ◌>>=◌, ◌>>◌, node_failed}
use scan_service.Env.{Env}
use scan_service.Env.Model.{BlockConcise, Account, TokenBalance}
use scan_service.AccountCache
use scan_service.AccountCache.{is_off_chain}
use scan_service.TokenBalanceCache

module _ ⦃e : Env⦄ where
  open e use {BigNumber, is_equal_to}

  -- The collections that are read and written here.
  pub record Database : Type 0 where
    pub accounts : e.accounts.Store
    pub token_balances : e.token_balances.Store

  -- BlockRepo.findByNumber, and the documents that the queries `findLastUpdateAfter` and `findIncorrect`
  -- of the two collections give.
  pub record Queries : Type 0 where
    pub find_by_number : ℕ → Option BlockConcise
    pub accounts_after : ℕ → e.accounts.Store → List (Account BigNumber)
    pub incorrect_accounts : e.accounts.Store → List (Account BigNumber)
    pub balances_after : ℕ → e.token_balances.Store → List (TokenBalance BigNumber)
    pub incorrect_balances : e.token_balances.Store → List (TokenBalance BigNumber)

  module _ (queries : Queries) where
    open queries use {find_by_number}

    unfoldable pub fix_account : Account BigNumber → ℕ → Exec Database (Unit {0})
    fix_account acct block_num s = elim (find_by_number block_num) [
      | none ↦ (ok tt, s)
      | some blk ↦ elim (e.get_account acct.address block_num) [
        | none ↦ (err node_failed, s)
        | some chain_acc ↦
            if is_off_chain acct chain_acc
            then (
              ok tt,
              record s {
                accounts =
                    e.accounts.save acct.address (AccountCache.correct chain_acc blk acct)
                      s.accounts;
              },
            )
            else (ok tt, s)
      ]
    ]

    unfoldable pub fix_accounts : ℕ → List (Account BigNumber) → Exec Database (Unit {0})
    fix_accounts block_num [] = pure tt
    fix_accounts block_num (acct ∷ accts) =
        fix_account acct block_num >> fix_accounts block_num accts

    unfoldable pub fix_token_balance : TokenBalance BigNumber → ℕ → Exec Database (Unit {0})
    fix_token_balance bal block_num s = elim (find_by_number block_num) [
      | none ↦ (ok tt, s)
      | some blk ↦
          let chain_bal = e.get_erc20_balance_of bal.address bal.token_address block_num in
          if not (is_equal_to bal.balance chain_bal)
          then (
            ok tt,
            record s {
              token_balances =
                  e.token_balances.save (bal.address, bal.token_address)
                    (TokenBalanceCache.correct chain_bal blk bal) s.token_balances;
            },
          )
          else (ok tt, s)
    ]

    unfoldable pub fix_token_balances : ℕ → List (TokenBalance BigNumber) → Exec Database (Unit {0})
    fix_token_balances block_num [] = pure tt
    fix_token_balances block_num (bal ∷ bals) =
        fix_token_balance bal block_num >> fix_token_balances block_num bals

    -- Each list is read when its turn has come.
    unfoldable pub fix_all : ℕ → Exec Database (Unit {0})
    fix_all block_num =
        (λ s. fix_accounts block_num (queries.accounts_after block_num s.accounts) s)
        >> (λ s. fix_accounts block_num (queries.incorrect_accounts s.accounts) s)
        >> (λ s. fix_token_balances block_num (queries.balances_after block_num s.token_balances) s)
        >> (λ s. fix_token_balances block_num (queries.incorrect_balances s.token_balances) s)
