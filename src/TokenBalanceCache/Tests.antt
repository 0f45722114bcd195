-- ===== src/TokenBalanceCache/Tests.antt =====
-- Runs of the cache of token balances, and its theorems at concrete inputs.
use scan_service.Prelude.{◌≡◌, refl, Option, none, some, List, [], ◌∷◌, if◌then◌else◌}
use scan_service.Prelude.Int.{ℤ, pos, ◌+ℤ◌, ◌-ℤ◌}
use scan_service.Prelude.Number.{add_number, sub_number, to_number, round_ℕ}
use scan_service.Prelude.Text.{Text, codes, same_text, to_lower_case, array_index}
use scan_service.Prelude.Dict.{get, put}
use scan_service.Prelude.Exec.{ok, ◌>>=◌}
use scan_service.Const.{zero_address}
use scan_service.Env.Numeric.{lift₂}
use scan_service.Env.Model.{TokenBalance, NftBalance, Contract}
use scan_service.TokenBalanceCache.Counts.{update_counts-exact}
use scan_service.Samples.{sample, block_1, block_2, amount}
use scan_service.NftBalances.{load_origin, merge_one, merge_delta, collect, merge_nft_balances}
use scan_service.TokenBalanceCache.{
  TokenBalanceCache, key_of, minus, plus, plus_nft, minus_nft, clean, set_default, find_by_address,
  create, new_token_balance, save_bal, hold, update_bal, correct, fix_token_balance, fix_if_invalid,
  touch, merge_held,
}
use scan_service.TokenBalanceCache.Save.{
  save_to_db, attach_nfts, copied, is_spent, flush_one, flush_all, counted, update_counts,
  update_all_counts,
}
use scan_service.TokenBalanceCache.Keyed.{IsKeyed, perform, plus_op, plus_nft_op, perform-IsKeyed}
use scan_service.TokenBalanceCache.Amounts.{loaded, repaired, minus-balance}
use scan_service.TokenBalanceCache.Holdings.{listed}
use scan_service.TokenBalanceCache.Flush.{kept, save_to_db-own}

-- One name on an `unfolding` line for all that a run goes through.
opened : Unit {0}
unfolding minus plus plus_nft minus_nft clean set_default find_by_address create new_token_balance
    save_bal hold update_bal correct fix_token_balance fix_if_invalid touch merge_held save_to_db
    attach_nfts copied is_spent flush_one flush_all counted update_counts update_all_counts key_of
    merge_nft_balances load_origin merge_delta collect merge_one same_text to_lower_case array_index
    get put zero_address loaded listed perform ◌>>=◌ add_number sub_number to_number round_ℕ ◌+ℤ◌
    ◌-ℤ◌
opened = tt

abbrev empty : TokenBalanceCache ⦃e = sample⦄
empty = record { bals = []; nfts = []; db = λ k. none; contracts = λ k. none }

abbrev alice : Text
alice = codes "0xAa"

abbrev coin : Text
coin = codes "0xC0"

abbrev two_cats : List NftBalance
two_cats =
    record { token_id = codes "7"; value = pos 1 }
    ∷ record { token_id = codes "2"; value = pos 1 }
    ∷ []

abbrev one_cat : List NftBalance
one_cat = record { token_id = codes "7"; value = pos 1 } ∷ []

abbrev funded : TokenBalanceCache ⦃e = sample⦄
funded = (plus alice coin (amount 5) block_1 empty).1

abbrev owning : TokenBalanceCache ⦃e = sample⦄
owning = (plus_nft alice coin two_cats block_2 funded).1

abbrev coins : TokenBalanceCache ⦃e = sample⦄ → Option ℤ
coins s = elim (get (key_of alice coin) s.bals) [ none ↦ none | some b ↦ b.balance ]

-- The node reports 9 coins.
overdraft_run :
    let (r, s) = minus alice coin (amount 6) block_2 funded in
    (r ≡ ok tt) × (coins s ≡ some (pos 9))
unfolding opened
overdraft_run = (refl, refl)

empty-IsKeyed : IsKeyed empty
unfolding get
empty-IsKeyed = record {
  unique = tt;
  nfts_unique = tt;
  cached = λ k b h. cc;
  paired = λ k h. cc;
  stored = λ a t b h. cc;
}

funded-IsKeyed : IsKeyed funded
unfolding perform
funded-IsKeyed = perform-IsKeyed block_1 (plus_op alice coin (amount 5)) empty empty-IsKeyed

owning-IsKeyed : IsKeyed owning
unfolding perform
owning-IsKeyed = perform-IsKeyed block_2 (plus_nft_op alice coin two_cats) funded funded-IsKeyed

perform-IsKeyed_example : IsKeyed (perform block_1 (plus_op alice coin (amount 5)) empty).1
perform-IsKeyed_example =
    perform-IsKeyed block_1 (plus_op alice coin (amount 5)) empty empty-IsKeyed

minus-balance_example :
    ((minus alice coin (amount 6) block_2 funded).0 ≡ ok tt)
    × (b : TokenBalance (Option ℤ)) × (get
          (key_of alice coin)
          (minus alice coin (amount 6) block_2 funded).1.bals
        ≡ some b)
    × (b.balance
        ≡ repaired (amount 9) (lift₂ ◌-ℤ◌ (loaded alice coin block_2 funded).balance (amount 6)))
    × (b.last_update ≡ block_2)
unfolding same_text zero_address
minus-balance_example = minus-balance alice coin (amount 6) block_2 funded refl refl

-- The balance that stands in the cache under the key of alice and the coin.
abbrev coins_of_alice : TokenBalance (Option ℤ)
coins_of_alice = record {
  address = codes "0xaa";
  token_address = codes "0xc0";
  balance = amount 5;
  nft_balances = [];
  rank = 99999999;
  first_seen = block_1;
  last_update = block_2;
}

abbrev sorted_cats : List NftBalance
sorted_cats =
    record { token_id = codes "2"; value = pos 1 }
    ∷ record { token_id = codes "7"; value = pos 1 }
    ∷ []

save_to_db-own_example :
    (save_to_db owning).db (codes "0xaa", codes "0xc0")
    ≡ kept (record coins_of_alice { nft_balances = sorted_cats })
unfolding opened
save_to_db-own_example =
    save_to_db-own owning (key_of alice coin) coins_of_alice sorted_cats owning-IsKeyed refl refl

abbrev coin_contract : Contract (Option ℤ)
coin_contract = record {
  address = codes "0xc0";
  holders_count = amount 2;
  transfers_count = amount 4;
  tokens_count = none;
  impl_addr = none;
  prev_impl_addr = none;
  admin_addr = none;
  beacon_addr = none;
  deploy_status = none;
  destruct_tx_hash = none;
  destruct_block = none;
}

abbrev listed_coin : TokenBalanceCache ⦃e = sample⦄
listed_coin = record funded {
  contracts = λ k. if same_text (codes "0xc0") k then some coin_contract else none;
}

update_counts-exact_example :
    ((update_counts coin listed_coin).0 ≡ ok tt)
    × (c : Contract (Option ℤ)) × ((update_counts coin listed_coin).1.contracts (to_lower_case coin)
        ≡ some c)
    × (c.holders_count ≡ amount 3)
    × (c.transfers_count ≡ amount 8)
    × (c.tokens_count ≡ some (amount 0))
unfolding opened
update_counts-exact_example = update_counts-exact coin listed_coin coin_contract refl refl
