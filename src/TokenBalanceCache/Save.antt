-- ===== src/TokenBalanceCache/Save.antt =====
-- src/types/tokenBalanceCache.ts: `saveToDB` and `updateCounts` of the class TokenBalanceCache.
use scan_service.Prelude.{
  Bool, true, false, none, some, List, [], ◌∷◌, not, ◌&&◌, ◌||◌, map, if◌then◌else◌,
}
use scan_service.Prelude.Text.{Text, to_lower_case}
use scan_service.Prelude.Dict.{Dict, get, put}
use scan_service.Prelude.Exec.{Exec, ok, err, type_error}
use scan_service.Env.{Env}
use scan_service.Env.Model.{NftBalance, TokenBalance, Contract}
use scan_service.TokenBalanceCache.{TokenBalanceCache, save_bal}

abbrev pub has_none {ℓ} : {A : Type ℓ} → List A → Bool
has_none [] = true
has_none (x ∷ l) = false

module _ ⦃e : Env⦄ where
  open e use {BigNumber, big_zero, is_less_than_or_equal_to, is_equal_to}

  -- `for (const key in this.nfts) if (key in this.bals) this.bals[key].nftBalances = this.nfts[key]`
  unfoldable pub attach_nfts :
      Dict (List NftBalance) → Dict (TokenBalance BigNumber) → Dict (TokenBalance BigNumber)
  attach_nfts [] bals = bals
  attach_nfts ((key, held) ∷ nfts) bals = attach_nfts nfts (elim (get key bals) [
    | none ↦ bals
    | some b ↦ put key (record b { nft_balances = held }) bals
  ])

  -- `b.nftBalances.map((b) => ({ tokenId: b.tokenId, value: b.value }))`
  unfoldable pub copied : TokenBalance BigNumber → TokenBalance BigNumber
  copied b = record b {
    nft_balances =
        map (λ (n : NftBalance). record { token_id = n.token_id; value = n.value }) b.nft_balances;
  }

  -- Is there nothing left to keep of a balance?
  unfoldable pub is_spent : TokenBalance BigNumber → Bool
  is_spent b = is_less_than_or_equal_to b.balance big_zero && has_none b.nft_balances

  -- A balance is deleted, or saved.
  unfoldable pub flush_one :
      TokenBalance BigNumber → e.token_balances.Store → e.token_balances.Store
  unfolding is_spent save_bal
  flush_one b db =
      if is_spent b
      then e.token_balances.delete_one (to_lower_case b.address, to_lower_case b.token_address) db
      else save_bal b db

  unfoldable pub flush_all :
      Dict (TokenBalance BigNumber) → e.token_balances.Store → e.token_balances.Store
  unfolding flush_one copied
  flush_all [] db = db
  flush_all ((_, b) ∷ bals) db = flush_all bals (flush_one (copied b) db)

  -- A count is a BigNumber, which is always true as a condition: the contract is always saved.
  unfoldable pub counted : BigNumber → BigNumber → Contract BigNumber → Contract BigNumber × Bool
  counted owner_count transfer_count c =
      let c1 =
        if not (is_equal_to c.holders_count owner_count)
        then record c { holders_count = owner_count }
        else c in
      let c2 = record c1 { tokens_count = some big_zero } in
      if true || not (is_equal_to c2.transfers_count transfer_count)
      then (record c2 { transfers_count = transfer_count }, true)
      else (c2, not (is_equal_to c.holders_count owner_count))

  unfoldable pub update_counts : Text → Exec TokenBalanceCache (Unit {0})
  unfolding counted
  update_counts address s = elim (e.contracts.find_one (to_lower_case address) s.contracts) [
    | none ↦ (err type_error, s)
    | some c ↦
        let owner_count = e.count_erc20 (to_lower_case c.address) s.db s.contracts in
        let transfer_count = e.count_erc20_txs (to_lower_case c.address) in
        let (c', updated) = counted owner_count transfer_count c in
        (
          ok tt,
          if updated
              then record s { contracts = e.contracts.save c'.address c' s.contracts }
              else s,
        )
  ]

  -- The pool collects what its tasks throw, and goes on.
  unfoldable pub update_all_counts :
      Dict (TokenBalance BigNumber) → TokenBalanceCache → TokenBalanceCache
  unfolding update_counts
  update_all_counts [] s = s
  update_all_counts ((_, b) ∷ bals) s = update_all_counts bals (update_counts b.token_address s).1

  abbrev pub copy_all : Dict (TokenBalance BigNumber) → Dict (TokenBalance BigNumber)
  copy_all [] = []
  copy_all ((key, b) ∷ bals) = (key, copied b) ∷ copy_all bals

  unfoldable pub save_to_db : TokenBalanceCache → TokenBalanceCache
  unfolding attach_nfts flush_all update_all_counts copied
  save_to_db s = elim s.bals [
    | [] ↦ s
    | _ ∷ _ ↦
        let bals = attach_nfts s.nfts s.bals in
        update_all_counts (copy_all bals)
          (record s { bals = copy_all bals; db = flush_all bals s.db })
  ]
