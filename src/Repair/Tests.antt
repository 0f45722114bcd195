-- ===== src/Repair/Tests.antt =====
-- An account that is corrected, and the theorem on it at a concrete input.
use scan_service.Prelude.{◌≡◌, refl, none, some, [], ◌∷◌, All, if◌then◌else◌}
use scan_service.Prelude.Text.{Text, codes, same_text}
use scan_service.Prelude.Exec.{ok, pure, ◌>>=◌}
use scan_service.Env.Model.{Account}
use scan_service.Samples.{sample, block_1, block_2, amount}
use scan_service.AccountCache.{is_off_chain, correct}
use scan_service.Repair.{Database, Queries, fix_account, fix_accounts}
use scan_service.Repair.OnChain.{IsOnChain, fix_accounts-IsOnChain}

-- An account of which the node reports other amounts.
abbrev alice : Account sample.BigNumber
alice = record {
  address = codes "0xaa";
  name = none;
  mtr_balance = amount 3;
  mtrg_balance = amount 70;
  mtr_bounded = amount 0;
  mtrg_bounded = amount 20;
  mtr_rank = 0;
  mtrg_rank = 0;
  first_seen = block_1;
  last_update = block_2;
}

abbrev queries : Queries ⦃e = sample⦄
queries = record {
  find_by_number = λ n. some block_1;
  accounts_after = λ n db. alice ∷ [];
  incorrect_accounts = λ db. [];
  balances_after = λ n db. [];
  incorrect_balances = λ db. [];
}

abbrev interrupted : Database ⦃e = sample⦄
interrupted = record {
  accounts = λ (k : Text). if same_text k (codes "0xaa") then some alice else none;
  token_balances = λ k. none;
}

-- The MTR of the node, and the block of the head.
fix_accounts_run :
    (fix_accounts queries 1 (alice ∷ []) interrupted).1.accounts (codes "0xaa")
    ≡ some (record alice { mtr_balance = amount 50; last_update = block_1 })
unfolding fix_accounts fix_account is_off_chain correct same_text pure ◌>>=◌
fix_accounts_run = refl

returned : (fix_accounts queries 1 (alice ∷ []) interrupted).0 ≡ ok tt
unfolding fix_accounts fix_account is_off_chain same_text pure ◌>>=◌
returned = refl

stored : interrupted.accounts (codes "0xaa") ≡ some alice
unfolding same_text
stored = refl

fix_accounts-IsOnChain_example :
    All
      (λ (a : Account sample.BigNumber).
        IsOnChain 1 (fix_accounts queries 1 (alice ∷ []) interrupted).1.accounts a.address)
      (alice ∷ [])
fix_accounts-IsOnChain_example =
    fix_accounts-IsOnChain queries 1 block_1 refl (alice ∷ []) interrupted (stored, tt) returned
