-- ===== src/NftBalances.antt =====
-- src/types/tokenBalanceCache.ts: `mergeNFTBalances`. A value is a JavaScript number: sums and
-- differences are rounded above 2 ^ 53.
pub mod Amounts
pub mod Holdings
mod Tests
use scan_service.Prelude.{Bool, true, false, Option, none, some, List, [], ◌∷◌, if◌then◌else◌}
use scan_service.Prelude.Int.{ℤ, pos, ltb_ℤ}
use scan_service.Prelude.Number.{add_number, sub_number}
use scan_service.Prelude.Text.{Text}
use scan_service.Prelude.Dict.{Dict, get, put}
use scan_service.Env.Model.{NftBalance}

-- `for (const i in origin) resultMap[tokenId] = value`
unfoldable pub load_origin : List NftBalance → Dict ℤ → Dict ℤ
load_origin [] result_map = result_map
load_origin (b ∷ origin) result_map = load_origin origin (put b.token_id b.value result_map)

-- One delta; to take from a token that is not there does nothing.
unfoldable pub merge_one : Bool → NftBalance → Dict ℤ → Dict ℤ
merge_one plus b result_map = elim (get b.token_id result_map) [
  | some v ↦ put b.token_id (if plus then add_number v b.value else sub_number v b.value) result_map
  | none ↦ if plus then put b.token_id b.value result_map else result_map
]

unfoldable pub merge_delta : Bool → List NftBalance → Dict ℤ → Dict ℤ
merge_delta plus [] result_map = result_map
merge_delta plus (b ∷ delta) result_map = merge_delta plus delta (merge_one plus b result_map)

-- `for (const tokenId in resultMap) if (value > 0) bals.push({ tokenId, value })`
unfoldable pub collect : Dict ℤ → List NftBalance
collect [] = []
collect ((k, v) ∷ result_map) =
    let rest = collect result_map in
    if ltb_ℤ (pos 0) v then record { token_id = k; value = v } ∷ rest else rest

unfoldable pub merge_nft_balances : List NftBalance → List NftBalance → Bool → List NftBalance
unfolding load_origin merge_delta collect
merge_nft_balances origin delta plus = collect (merge_delta plus delta (load_origin origin []))
