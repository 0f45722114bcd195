-- ===== src/NftAuditor.antt =====
-- src/types/tokenBalanceCache.ts: the class NFTBalanceAuditor, which replays the transfers of NFTs
-- and writes the balances to the collection `token_balance`.
pub mod Audited
mod Tests
use scan_service.Prelude.{
  Bool, true, false, Option, none, some, List, [], ◌∷◌, ◌++◌, ◌==◌, ltb, if◌then◌else◌, is_some,
}
use scan_service.Prelude.Int.{ℤ, pos, ltb_ℤ}
use scan_service.Prelude.Text.{Text, same_text, to_lower_case}
use scan_service.Prelude.Dict.{Dict, get, has, put}
use scan_service.Prelude.Exec.{Failure, Result, Exec, ok, err, type_error, negative_balance}
use scan_service.Const.{zero_address}
use scan_service.Env.{Env}
use scan_service.Env.Model.{BlockConcise, NftBalance, TokenBalance}
use scan_service.NftBalances.{merge_nft_balances}
use scan_service.TokenBalanceCache.{key_of, find_by_address, new_token_balance, save_bal}

-- `key.split('_')`, its first two parts; `none` where there is one part
unfoldable pub split_key : Text → Text × Option Text
split_key [] = ([], none)
split_key (c ∷ key) =
    let rest = split_key key in if c == b'_' then ([], some rest.0) else (c ∷ rest.0, rest.1)

module _ ⦃e : Env⦄ where
  open e use {BigNumber}

  pub record NftBalanceAuditor : Type 0 where
    pub bals : Dict (List NftBalance)
    pub last_updates : Dict BlockConcise
    pub db : e.token_balances.Store

  unfoldable pub set_default : Text → BlockConcise → NftBalanceAuditor → NftBalanceAuditor
  set_default key block s =
      if has key s.bals
      then s
      else record s { bals = put key [] s.bals; last_updates = put key block s.last_updates }

  -- `for (const { tokenId, value } of this.bals[key]) if (value < 0) throw …`
  unfoldable pub has_negative : List NftBalance → Bool
  has_negative [] = false
  has_negative (b ∷ l) = let rest = has_negative l in if ltb_ℤ b.value (pos 0) then true else rest

  -- The test is on the list from before the merge.
  unfoldable pub merge_tested :
      Bool → Text → List NftBalance → BlockConcise → Exec NftBalanceAuditor (Unit {0})
  unfolding has_negative
  merge_tested adds key nft_deltas block s = elim (get key s.bals) [
    | none ↦ (err type_error, s)
    | some held ↦ if has_negative held then (err negative_balance, s) else (
      ok tt,
      record s {
        bals = put key (merge_nft_balances held nft_deltas adds) s.bals;
        last_updates = put key block s.last_updates;
      },
    )
  ]

  unfoldable pub plus_nft :
      Text → Text → List NftBalance → BlockConcise → Exec NftBalanceAuditor (Unit {0})
  unfolding set_default merge_tested
  plus_nft addr_str token_addr nft_deltas block s =
      let key = key_of addr_str token_addr in
      merge_tested true key nft_deltas block (set_default key block s)

  unfoldable pub minus_nft :
      Text → Text → List NftBalance → BlockConcise → Exec NftBalanceAuditor (Unit {0})
  unfolding set_default merge_tested
  minus_nft addr_str token_addr nft_deltas block s =
      let key = key_of addr_str token_addr in
      if same_text addr_str zero_address
      then (ok tt, s)
      else merge_tested false key nft_deltas block (set_default key block s)

  -- One key of `updateDB`. A key always has a token address and a last update, which the method
  -- reads without a test. The document that `create` makes is saved again at once.
  unfoldable pub update_key :
      Text
      → List NftBalance
      → Dict BlockConcise
      → e.token_balances.Store
      → Result (e.token_balances.Store)
  unfolding split_key
  update_key key held last_updates db = elim (split_key key).1 [
    | none ↦ err type_error
    | some token_addr ↦ elim (get key last_updates) [
      | none ↦ err type_error
      | some last ↦
          let addr = (split_key key).0 in
          let tb : TokenBalance BigNumber = elim (find_by_address addr token_addr db) [
            | none ↦ new_token_balance addr token_addr last
            | some tb ↦ tb
          ] in
          let tb' = record tb { nft_balances = held } in
          ok (
            save_bal
              (if ltb tb'.last_update.number last.number
                then record tb' { last_update = last }
                else tb')
              db)
    ]
  ]

  unfoldable pub update_keys :
      Dict (List NftBalance)
      → Dict BlockConcise
      → e.token_balances.Store
      → Result (Unit {0}) × e.token_balances.Store
  unfolding update_key
  update_keys [] last_updates db = (ok tt, db)
  update_keys ((key, held) ∷ bals) last_updates db = elim (update_key key held last_updates db) [
    | err f ↦ (err f, db)
    | ok db' ↦ update_keys bals last_updates db'
  ]

  unfoldable pub update_db : Exec NftBalanceAuditor (Unit {0})
  unfolding update_keys
  update_db s = let (r, db) = update_keys s.bals s.last_updates s.db in (r, record s { db = db })
