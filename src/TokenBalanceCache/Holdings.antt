-- ===== src/TokenBalanceCache/Holdings.antt =====
-- What `plusNFT` and `minusNFT` leave of the NFTs that an owner holds.
use scan_service.Prelude.{◌≡◌, Bool, true, false, none, some, List, [], arith}
use scan_service.Prelude.Int.{pos, ◌+ℤ◌, ◌-ℤ◌, ◌≤ℤ◌}
use scan_service.Prelude.Number.{limit}
use scan_service.Prelude.Text.{Text, same_text, same_text_refl}
use scan_service.Prelude.Dict.{get, get-put}
use scan_service.Prelude.Exec.{Exec, ok, ◌>>=◌, ◌>>◌}
use scan_service.Const.{zero_address}
use scan_service.Env.{Env}
use scan_service.Env.Model.{BlockConcise, NftBalance}
use scan_service.NftBalances.{merge_nft_balances}
use scan_service.NftBalances.Amounts.{
  AreCounts, last_value, total, holding, floored, holding-merge_plus, holding-merge_minus,
}
use scan_service.NftBalances.Holdings.{IsHolding, merge_nft_balances-IsHolding}
use scan_service.TokenBalanceCache.{
  TokenBalanceCache, key_of, find_by_address, new_token_balance, create, update_bal, hold,
  set_default, touch, merge_held, plus_nft, minus_nft,
}
use scan_service.TokenBalanceCache.Keyed.{IsKeyed}
use scan_service.TokenBalanceCache.Amounts.{set_default-ok, get-set_default}

module _ ⦃e : Env⦄ where
  open e use {BigNumber}

  -- The list of NFTs that a method finds for the pair: the one in the cache, or that of the document,
  -- merged, or none.
  unfoldable pub listed : Text → Text → TokenBalanceCache → List NftBalance
  listed a t s = elim (get (key_of a t) s.bals) [
    | some _ ↦ elim (get (key_of a t) s.nfts) [ none ↦ [] | some l ↦ l ]
    | none ↦ elim (find_by_address a t s.db) [
      | none ↦ merge_nft_balances [] [] true
      | some b ↦ merge_nft_balances b.nft_balances [] true
    ]
  ]

  module _ (a t : Text) (block : BlockConcise) (s : TokenBalanceCache) (keyed : IsKeyed s) where
    nfts-set_default : get (key_of a t) (set_default a t block s).1.nfts ≡ some (listed a t s)
    unfolding set_default listed create hold new_token_balance find_by_address
    nfts-set_default =
        grind (arith, get-put, same_text_refl (key_of a t), keyed.paired (key_of a t))

    abbrev change : Bool → List NftBalance → Exec TokenBalanceCache (Unit {0})
    change adds l =
        set_default a t block >> merge_held adds (key_of a t) l >> touch (key_of a t) block

    change_lem :
        (adds : Bool) (l : List NftBalance)
        → ((change adds l s).0 ≡ ok tt)
          × (get (key_of a t) (change adds l s).1.nfts
              ≡ some (merge_nft_balances (listed a t s) l adds))
    unfolding ◌>>=◌ merge_held touch update_bal
    change_lem adds l = grind (
      arith,
      set_default-ok a t block s,
      get-set_default a t block s,
      nfts-set_default,
      get-put,
      same_text_refl (key_of a t),
    )

    module _ (deltas : List NftBalance) (nonzero : same_text a zero_address ≡ false) where
      -- Adding NFTs for an owner other than the zero address returns. No token is listed twice then, nor
      -- with nothing. Of a token the owner holds what the cache or else the collection had and what
      -- the deltas bring, if no delta is below zero, nor what was there, and both together are at
      -- most 2 ^ 53.
      pub plus_nft-holding :
          ((plus_nft a t deltas block s).0 ≡ ok tt)
          × (l : List NftBalance) × (get (key_of a t) (plus_nft a t deltas block s).1.nfts ≡ some l)
          × IsHolding l
          × ((k : Text)
              → AreCounts deltas
              → pos 0 ≤ℤ holding k (listed a t s)
              → holding k (listed a t s) +ℤ total k deltas ≤ℤ pos limit
              → holding k l ≡ holding k (listed a t s) +ℤ total k deltas)
      unfolding plus_nft
      plus_nft-holding =
          let (result, after) = change_lem true deltas in
          (
            rw nonzero result,
            merge_nft_balances (listed a t s) deltas true,
            rw nonzero after,
            merge_nft_balances-IsHolding (listed a t s) deltas true,
            λ k c h bound. holding-merge_plus (listed a t s) deltas k c h bound,
          )

      -- Taking NFTs from an owner other than the zero address returns, also where the owner does not
      -- hold them. No token is listed twice then, nor with nothing. Of a token that the cache or else
      -- the collection lists the owner holds what was there less what the deltas take, or nothing
      -- if that is not above zero, and of other tokens nothing, if no delta is below zero and neither
      -- is beyond 2 ^ 53.
      pub minus_nft-holding :
          ((minus_nft a t deltas block s).0 ≡ ok tt)
          × (l : List NftBalance) × (get (key_of a t) (minus_nft a t deltas block s).1.nfts
              ≡ some l)
          × IsHolding l
          × ((k : Text)
              → AreCounts deltas
              → holding k (listed a t s) ≤ℤ pos limit
              → total k deltas ≤ℤ holding k (listed a t s) +ℤ pos limit
              → holding k l ≡ (elim (last_value k (listed a t s)) [
                | none ↦ pos 0
                | some v ↦ floored (v -ℤ total k deltas)
              ]))
      unfolding minus_nft
      minus_nft-holding =
          let (result, after) = change_lem false deltas in
          (
            rw nonzero result,
            merge_nft_balances (listed a t s) deltas false,
            rw nonzero after,
            merge_nft_balances-IsHolding (listed a t s) deltas false,
            λ k c h bound. holding-merge_minus (listed a t s) deltas k c h bound,
          )
