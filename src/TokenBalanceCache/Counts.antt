-- ===== src/TokenBalanceCache/Counts.antt =====
-- `updateCounts`: the counts that a contract ends with.
use scan_service.Prelude.{◌≡◌, refl, ap, ◌∙◌, Bool, true, some, arith, if◌then◌else◌}
use scan_service.Prelude.Int.{eq_of_parts}
use scan_service.Prelude.Text.{Text, to_lower_case, same_text, same_text_refl}
use scan_service.Prelude.Exec.{ok}
use scan_service.Env.{Env}
use scan_service.Env.Model.{Contract}
use scan_service.TokenBalanceCache.{TokenBalanceCache}
use scan_service.TokenBalanceCache.Save.{counted, update_counts}

module _ ⦃e : Env⦄ where
  open e use {BigNumber, value, is_equal_to, big_zero}

  counted_lem :
      (tokens_held own_transfers : BigNumber) (c : Contract BigNumber)
      → ((counted tokens_held own_transfers c).1 ≡ true)
        × (value (counted tokens_held own_transfers c).0.holders_count ≡ value tokens_held)
        × ((counted tokens_held own_transfers c).0.transfers_count ≡ own_transfers)
        × ((counted tokens_held own_transfers c).0.tokens_count ≡ some big_zero)
        × ((counted tokens_held own_transfers c).0.address ≡ c.address)
  unfolding counted
  counted_lem tokens_held own_transfers c =
      grind (arith, e.is_equal_to_lem c.holders_count tokens_held, eq_of_parts)

  -- Where the contract of a token stands in the collection under its address, updateCounts returns
  -- and the collection has the contract with two counts of what the contract's own address does: as
  -- the number of its holders that of countERC20ByAddress, which counts the ERC20 tokens that this
  -- address holds, as the number of its transfers that of countERC20TxsByAddress, which counts the
  -- ERC20 movements from it or to it, and no tokens.
  pub update_counts-exact :
      (address : Text) (s : TokenBalanceCache) (c : Contract BigNumber)
      → e.contracts.find_one (to_lower_case address) s.contracts ≡ some c
      → c.address ≡ to_lower_case address
      → let tokens_held = e.count_erc20 (to_lower_case c.address) s.db s.contracts in
        let own_transfers = e.count_erc20_txs (to_lower_case c.address) in
        ((update_counts address s).0 ≡ ok tt)
        × (c' : Contract BigNumber) × (e.contracts.find_one
              (to_lower_case address)
              (update_counts address s).1.contracts
            ≡ some c')
        × (value c'.holders_count ≡ value tokens_held)
        × (c'.transfers_count ≡ own_transfers)
        × (c'.tokens_count ≡ some big_zero)
  unfolding update_counts counted
  update_counts-exact address s c found at =
      let tokens_held = e.count_erc20 (to_lower_case c.address) s.db s.contracts in
      let own_transfers = e.count_erc20_txs (to_lower_case c.address) in
      let (_, h, t, n, same) = counted_lem tokens_held own_transfers c in
      (
        rw (found, update_counts) refl,
        (counted tokens_held own_transfers c).0,
        rw (found, update_counts)
            (e.contracts.find_one-save (counted tokens_held own_transfers c).0.address
                (to_lower_case address) (counted tokens_held own_transfers c).0 s.contracts
              ∙ ap
                  (λ (b : Bool).
                    if b
                    then some (counted tokens_held own_transfers c).0
                    else e.contracts.find_one (to_lower_case address) s.contracts)
                  (ap (λ k. same_text k (to_lower_case address)) (same ∙ at)
                    ∙ same_text_refl (to_lower_case address))),
        h,
        t,
        n,
      )
