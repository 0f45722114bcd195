-- ===== src/Movements.antt =====
-- src/cmd/pos.cmd.ts: `parseERC20Movement`, `parseERC721Movement` and `parseERC1155Movement`, which
-- turn an event into a movement and, for ERC20, change the balances. The calls of minusNFT and
-- plusNFT are commented out in the code. The native transfers of `updateMovements` stand here too.
pub mod Recorded
pub mod Grown
pub mod Wrapped
pub mod Update
mod Tests
use scan_service.Prelude.{
  ℕ, suc, ◌==◌, Bool, true, false, Option, none, some, List, [], ◌∷◌, ◌++◌, not, ◌&&◌, ◌||◌,
  if◌then◌else◌,
}
use scan_service.Prelude.Int.{ℤ, pos}
use scan_service.Prelude.Number.{to_number}
use scan_service.Prelude.Text.{Text, same_text, to_lower_case}
use scan_service.Prelude.Exec.{Result, Exec, ok, err, type_error, pure, ◌>>=◌, ◌>>◌}
use scan_service.Env.{Env}
use scan_service.Env.Model.{Token, mtr, mtrg, erc20, erc721, erc1155, BlockConcise, NftBalance}
use scan_service.Env.Decoding.{Event, Transfer}
use scan_service.AccountCache
use scan_service.AccountCache.{AccountCache}
use scan_service.TokenBalanceCache
use scan_service.TokenBalanceCache.{TokenBalanceCache}

-- `decoded.values[i].toString()` throws where there are fewer values than ids
unfoldable pub batch_transfers : List Text → List ℤ → Result (List NftBalance)
batch_transfers [] values = ok []
batch_transfers (id ∷ ids) [] = err type_error
batch_transfers (id ∷ ids) (v ∷ values) = elim (batch_transfers ids values) [
  | err f ↦ err f
  | ok rest ↦ ok (record { token_id = id; value = to_number v } ∷ rest)
]

module _ ⦃e : Env⦄ where
  open e use {BigNumber, big_zero, to_fixed, devkit}

  -- model/movement.ts; `INFTTransfer` has the fields of `INFTBalance`
  pub record Movement : Type 0 where
    pub from : Text
    pub to : Text
    pub token : Token
    pub amount : BigNumber
    pub token_address : Text
    pub nft_transfers : List NftBalance
    pub tx_hash : Text
    pub block : BlockConcise
    pub clause_index : ℕ
    pub log_index : ℕ

  -- The parts of PosCMD that are read and written here.
  pub record Sync : Type 0 where
    pub account_cache : AccountCache
    pub token_balance_cache : TokenBalanceCache
    pub movements_cache : List Movement
    pub mtr_sys_token : Option Text
    pub mtrg_sys_token : Option Text
    pub mtrg_v2_sys_token : Option Text

  -- Where an event stands.
  pub record Place : Type 0 where
    pub log_index : ℕ
    pub clause_index : ℕ
    pub block : BlockConcise
    pub tx_hash : Text

  unfoldable pub on_accounts : Exec AccountCache (Unit {0}) → Exec Sync (Unit {0})
  on_accounts m s = let (r, c) = m s.account_cache in (r, record s { account_cache = c })

  unfoldable pub on_tokens : Exec TokenBalanceCache (Unit {0}) → Exec Sync (Unit {0})
  on_tokens m s = let (r, c) = m s.token_balance_cache in (r, record s { token_balance_cache = c })

  -- `this.movementsCache.push(movement)`
  unfoldable pub push_movement : Movement → Exec Sync (Unit {0})
  push_movement mv s = (ok tt, record s { movements_cache = s.movements_cache ++ mv ∷ [] })

  -- `!!token && evt.address.toLowerCase() === token.address`
  abbrev pub is_token : Option Text → Text → Bool
  is_token none address = false
  is_token (some token) address = same_text (to_lower_case address) token

  -- `evt.topics && evt.topics[0] === signature`
  abbrev pub has_signature : Text → Event → Bool
  has_signature signature evt = elim evt.topics [
    | [] ↦ false
    | topic ∷ _ ↦ same_text topic signature
  ]

  unfoldable pub movement :
      Text → Text → Token → BigNumber → Text → List NftBalance → Place → Movement
  movement from to token amount token_address nft_transfers p = record {
    from = to_lower_case from;
    to = to_lower_case to;
    token = token;
    amount = amount;
    token_address = token_address;
    nft_transfers = nft_transfers;
    tx_hash = p.tx_hash;
    block = p.block;
    clause_index = p.clause_index;
    log_index = p.log_index;
  }

  -- The balances that a transfer event of a token changes.
  unfoldable pub move_balances :
      Text → Text → Text → BigNumber → BlockConcise → Exec Sync (Unit {0})
  unfolding on_accounts on_tokens
  move_balances address from to amount block s =
      if is_token s.mtr_sys_token address
      then (on_accounts (AccountCache.minus from mtr amount block)
            >> on_accounts (AccountCache.plus to mtr amount block))
          s
      else if is_token s.mtrg_sys_token address || is_token s.mtrg_v2_sys_token address
      then (on_accounts (AccountCache.minus from mtrg amount block)
            >> on_accounts (AccountCache.plus to mtrg amount block))
          s
      else (on_tokens (TokenBalanceCache.minus from address amount block)
            >> on_tokens (TokenBalanceCache.plus to address amount block))
          s

  -- One native transfer of `updateMovements`: the movement is recorded first, then the balances of
  -- the accounts change.
  unfoldable pub native_transfer : Place → Transfer → Exec Sync (Unit {0})
  unfolding movement push_movement on_accounts
  native_transfer p tr =
      let token = if tr.token == 1 then mtrg else mtr in
      let amount = e.read_number tr.amount in
      push_movement (movement tr.sender tr.recipient token amount [] [] p)
      >> on_accounts (AccountCache.minus tr.sender token amount p.block)
      >> on_accounts (AccountCache.plus tr.recipient token amount p.block)

  -- `for (const [logIndex, tr] of o.transfers.entries())`
  unfoldable pub native_transfers : Place → List Transfer → Exec Sync (Unit {0})
  unfolding native_transfer
  native_transfers p [] = pure tt
  native_transfers p (tr ∷ transfers) =
      native_transfer p tr >> native_transfers (record p { log_index = suc p.log_index }) transfers

  unfoldable pub parse_erc20_movement : Place → Event → Exec Sync (Unit {0})
  unfolding movement move_balances push_movement
  parse_erc20_movement p evt =
      if has_signature devkit.erc20_transfer evt
      then elim (devkit.decode_erc20 evt) [
        | none ↦ pure tt
        | some (from, to, amount) ↦
            move_balances evt.address (to_lower_case from) (to_lower_case to) amount p.block
            >> push_movement (movement from to erc20 amount evt.address [] p)
      ]
      else pure tt

  unfoldable pub parse_erc721_movement : Place → Event → Exec Sync (Unit {0})
  unfolding movement push_movement
  parse_erc721_movement p evt =
      if has_signature devkit.erc721_transfer evt
      then elim (devkit.decode_erc721 evt) [
        | none ↦ pure tt
        | some (from, to, token_id) ↦ push_movement (
            movement from to erc721 big_zero evt.address
              (record { token_id = to_fixed token_id; value = pos 1 } ∷ []) p)
      ]
      else pure tt

  unfoldable pub parse_single : Place → Event → Exec Sync (Unit {0})
  unfolding movement push_movement
  parse_single p evt = elim (devkit.decode_single evt) [
    | none ↦ pure tt
    | some (from, to, id, value) ↦ push_movement (
        movement from to erc1155 big_zero evt.address
          (record { token_id = id; value = to_number value } ∷ []) p)
  ]

  unfoldable pub parse_batch : Place → Event → Exec Sync (Unit {0})
  unfolding movement push_movement batch_transfers
  parse_batch p evt s = elim (devkit.decode_batch evt) [
    | none ↦ (ok tt, s)
    | some (from, to, ids, values) ↦ elim (batch_transfers ids values) [
      | err f ↦ (err f, s)
      | ok nft_transfers ↦
          push_movement (movement from to erc1155 big_zero evt.address nft_transfers p) s
    ]
  ]

  -- A TransferSingle that cannot be decoded ends the method; its signature is not the other's.
  unfoldable pub parse_erc1155_movement : Place → Event → Exec Sync (Unit {0})
  unfolding parse_single parse_batch
  parse_erc1155_movement p evt =
      if has_signature devkit.erc1155_single evt && not (decodes evt)
      then pure tt
      else ((if has_signature devkit.erc1155_single evt then parse_single p evt else pure tt)
          >> (if has_signature devkit.erc1155_batch evt then parse_batch p evt else pure tt))
    where
      decodes : Event → Bool
      decodes evt = elim (devkit.decode_single evt) [ none ↦ false | some _ ↦ true ]
