-- ===== src/NftCache.antt =====
-- src/types/nftCache.ts: the class NFTCache, without the look-up of media and `saveToDB`. Objects
-- that two names share are told apart where the code changes one of them under the other name.
pub mod Transfers
pub mod Positive
mod Tests
use scan_service.Prelude.{
  Bool, true, false, Option, none, some, List, [], ◌∷◌, ◌++◌, not, ◌&&◌, if◌then◌else◌, is_some,
}
use scan_service.Prelude.Int.{ℤ, pos, ltb_ℤ, beq_ℤ}
use scan_service.Prelude.Number.{add_number, sub_number}
use scan_service.Prelude.Text.{Text, codes, same_text, to_lower_case}
use scan_service.Prelude.Dict.{Dict, get, has, put, remove}
use scan_service.Prelude.Exec.{Result, Exec, ok, err, not_enough_balance}
use scan_service.Env.{Env}
use scan_service.Env.Model.{Nft}

unfoldable pub key_721 : Text → Text → Text
key_721 token_address token_id = token_address ++ codes "[" ++ token_id ++ codes "]"

unfoldable pub key_1155 : Text → Text → Text → Text
key_1155 token_address token_id owner =
    token_address ++ codes "[" ++ token_id ++ codes "]_" ++ owner

module _ ⦃e : Env⦄ where
  pub record NftCache : Type 0 where
    pub minted : Dict Nft
    pub updated : Dict Nft
    pub db : e.nfts.Store

  -- NFTRepo.findByIDWithOwner
  unfoldable pub find_by_id_with_owner : Text → Text → Text → e.nfts.Store → Option Nft
  find_by_id_with_owner address token_id owner db =
      e.nfts.find_one (to_lower_case address, token_id, to_lower_case owner) db

  unfoldable pub mint_721 : Nft → NftCache → NftCache
  unfolding key_721
  mint_721 nft s =
      let key = key_721 nft.address nft.token_id in
      if not (same_text nft.type (codes "ERC721"))
      then s
      else if has key s.minted
      then s
      else if e.nft_exists (to_lower_case nft.address) nft.token_id s.db
      then s
      else record s { minted = put key nft s.minted }

  unfoldable pub mint_1155 : Nft → NftCache → NftCache
  unfolding key_1155 find_by_id_with_owner
  mint_1155 nft s =
      let key = key_1155 nft.address nft.token_id nft.owner in
      if not (same_text nft.type (codes "ERC1155")) then s else elim (get key s.minted) [
        | some existed ↦ record s {
          minted = put key (record existed { value = add_number existed.value nft.value }) s.minted;
        }
        | none ↦ elim (find_by_id_with_owner nft.address nft.token_id nft.owner s.db) [
          | some existed ↦ record s {
            updated =
                put key (record existed { value = add_number existed.value nft.value }) s.updated;
          }
          | none ↦ record s { minted = put key nft s.minted }
        ]
      ]

  -- `nft` as `transfer721` leaves it; `none` where the type is another
  unfoldable pub hand_over : Text → Nft → Result (Option Nft)
  hand_over to nft =
      if not (same_text nft.type (codes "ERC721"))
      then ok none
      else if ltb_ℤ nft.value (pos 1)
      then err not_enough_balance
      else ok (some (record nft { owner = to }))

  -- A result of `hand_over` is written by `write`.
  unfoldable pub handed :
      Result (Option Nft) → (Nft → NftCache) → NftCache → Result (Unit {0}) × NftCache
  handed (err f) write s = (err f, s)
  handed (ok none) write s = (ok tt, s)
  handed (ok (some nft)) write s = (ok tt, write nft)

  unfoldable pub transfer_721 : Text → Text → Text → Text → Exec NftCache (Unit {0})
  unfolding key_721 hand_over handed find_by_id_with_owner
  transfer_721 token_address token_id from to s =
      let key = key_721 token_address token_id in
      elim (get key s.updated) [
        | some nft ↦ handed (hand_over to nft) (λ x. record s { updated = put key x s.updated }) s
        | none ↦ elim (get key s.minted) [
          | some nft ↦ handed (hand_over to nft) (λ x. record s { minted = put key x s.minted }) s
          | none ↦ elim (find_by_id_with_owner token_address token_id from s.db) [
            | none ↦ (ok tt, s)
            | some nft ↦
                handed (hand_over to nft) (λ x. record s { updated = put key x s.updated }) s
          ]
        ]
      ]

  -- What the recipient gets: it is added to the document of the recipient, or to the minted NFT, or
  -- a copy of the sender's is minted.
  unfoldable pub receive : Text → Text → Text → ℤ → Nft → NftCache → NftCache
  unfolding key_1155 find_by_id_with_owner
  receive token_address token_id to value nft s =
      let to_key = key_1155 token_address token_id to in
      elim (find_by_id_with_owner token_address token_id to s.db) [
        | some stored ↦
            let to_nft : Nft = elim (get to_key s.updated) [ none ↦ stored | some u ↦ u ] in
            record s {
              updated =
                  put to_key (record to_nft { value = add_number to_nft.value value }) s.updated;
            }
        | none ↦
            let existed : ℤ = elim (get to_key s.minted) [ none ↦ pos 0 | some m ↦ m.value ] in
            record s {
              minted =
                  put to_key (record nft { owner = to; value = add_number value existed }) s.minted;
            }
      ]

  -- A transfer of an NFT in `minted`. Sent to the sender itself, the NFT that is changed at the end
  -- may be one that is no longer in `minted`.
  unfoldable pub transfer_minted : Text → Text → Text → Text → ℤ → Nft → Exec NftCache (Unit {0})
  unfolding key_1155 receive find_by_id_with_owner
  transfer_minted token_address token_id from to value nft s =
      let key = key_1155 token_address token_id from in
      let to_key = key_1155 token_address token_id to in
      if not (same_text nft.type (codes "ERC1155"))
      then (ok tt, s)
      else if ltb_ℤ nft.value value
      then (err not_enough_balance, s)
      else if beq_ℤ nft.value value
      then (ok tt, record s { minted = put key (record nft { owner = to }) s.minted })
      else (let s' = receive token_address token_id to value nft s in
          let is_replaced =
            same_text to_key key
            && not (is_some (find_by_id_with_owner token_address token_id to s.db)) in
          (
            ok tt,
            if is_replaced then s' else record s' {
              minted = put key (record nft { value = sub_number nft.value value }) s'.minted;
            },
          ))

  -- A transfer of an NFT in `updated` or in the collection. The whole value: the document of the
  -- sender is taken out of `updated` at the end. A part of it: sent to the sender itself, the
  -- document of the recipient is the sender's if it was in `updated`.
  unfoldable pub transfer_stored : Text → Text → Text → Text → ℤ → Nft → Exec NftCache (Unit {0})
  unfolding key_1155 receive find_by_id_with_owner
  transfer_stored token_address token_id from to value nft s =
      let key = key_1155 token_address token_id from in
      let to_key = key_1155 token_address token_id to in
      if not (same_text nft.type (codes "ERC1155"))
      then (ok tt, s)
      else if ltb_ℤ nft.value value
      then (err not_enough_balance, s)
      else if beq_ℤ nft.value value
      then (let sent = record nft { owner = to } in
          let s' =
            receive token_address token_id to value sent
              (record s { updated = put key sent s.updated }) in
          (ok tt, record s' { updated = remove key s'.updated }))
      else (let s' = receive token_address token_id to value nft s in
          let is_shared =
            same_text to_key key
            && is_some (find_by_id_with_owner token_address token_id to s.db)
            && has key s.updated in
          let rest = if is_shared then nft else record nft { value = sub_number nft.value value } in
          (ok tt, record s' { updated = put key rest s'.updated }))

  unfoldable pub transfer_1155 : Text → Text → Text → Text → ℤ → Exec NftCache (Unit {0})
  unfolding key_1155 find_by_id_with_owner transfer_minted transfer_stored
  transfer_1155 token_address token_id from to value s =
      let key = key_1155 token_address token_id from in
      elim (get key s.minted) [
        | some nft ↦ transfer_minted token_address token_id from to value nft s
        | none ↦ elim (get key s.updated) [
          | some nft ↦ transfer_stored token_address token_id from to value nft s
          | none ↦ elim (find_by_id_with_owner token_address token_id from s.db) [
            | none ↦ (ok tt, s)
            | some nft ↦ transfer_stored token_address token_id from to value nft s
          ]
        ]
      ]
