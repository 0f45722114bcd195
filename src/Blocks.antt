-- ===== src/Blocks.antt =====
-- PosCMD.processBlock and updateCommitteeEndBlock of src/cmd/pos.cmd.ts: the transactions of a block,
-- their fees and rewards, the committee that the block brings, and the block that is kept.
pub mod Made
mod Tests
use scan_service.Prelude.{
  ℕ, zero, suc, ◌+◌, ◌==◌, ltb, Bool, true, false, ◌||◌, Option, none, some, List, [], ◌∷◌, ◌++◌,
  map, length, if◌then◌else◌,
}
use scan_service.Prelude.Int.{ℤ, pos, ◌-ℤ◌}
use scan_service.Prelude.Text.{Text, codes, same_text}
use scan_service.Prelude.Exec.{Result, Exec, ok, err, pure, ◌>>=◌, ◌>>◌, node_failed}
use scan_service.Const.{zero_address}
use scan_service.Const.Config.{NetworkConfig, get_network_config}
use scan_service.Env.{Env}
use scan_service.Env.Model.{Network, mtr, BlockConcise}
use scan_service.AccountCache
use scan_service.AccountCache.{AccountCache}
use scan_service.TxOutputs.{Tx}

-- model/block.ts and model/committee.ts
pub record CommitteeMember : Type 0 where
  pub index : ℕ
  pub net_addr : Text
  pub pub_key : Text

pub record Committee : Type 0 where
  pub epoch : ℕ
  pub kblock_height : ℕ
  pub members : List CommitteeMember
  pub start_block : BlockConcise
  pub end_block : Option BlockConcise

pub record PowInfo : Type 0 where
  pub hash : Text
  pub prev_block : Text
  pub beneficiary : Text
  pub height : ℕ

-- The block that the node gives, with its transactions.
pub record ChainBlock : Type 0 where
  pub id : Text
  pub number : ℕ
  pub timestamp : ℕ
  pub parent_id : Text
  pub total_score : ℕ
  pub gas_limit : ℕ
  pub beneficiary : Text
  pub is_kblock : Bool
  pub epoch : ℕ
  pub epoch_id : ℕ
  pub last_kblock_height : ℕ
  pub committee : List CommitteeMember
  pub pow_blocks : Option (List PowInfo)
  pub transactions : List Tx

-- The node: a block by its hash and by its number, and the PoW blocks of an epoch, none where it
-- lists none; `none` where a request fails. A hexadecimal key is told from another, and turned into
-- base64.
pub record Chain : Type 0 where
  pub get_block : Text → Option ChainBlock
  pub get_block_from_rest : ℕ → Option ChainBlock
  pub get_epoch_info : ℕ → Option (List PowInfo)
  pub is_hex : Text → Bool
  pub to_base64 : Text → Text

module _ ⦃e : Env⦄ where
  open e use {BigNumber, big_zero, plus, is_less_than, read_number}

  -- model/block.ts: `IBlock`, the node's block with what is computed
  pub record Block : Type 0 where
    pub source : ChainBlock
    pub tx_hashs : List Text
    pub reward : BigNumber
    pub actual_reward : BigNumber
    pub gas_changed : ℤ
    pub score : ℤ
    pub tx_count : ℕ
    pub epoch : ℕ
    pub committee : List CommitteeMember
    pub pow_blocks : List PowInfo

  -- What the loop over the transactions adds up.
  pub record Totals : Type 0 where
    pub tx_hashs : List Text
    pub reward : BigNumber
    pub actual_reward : BigNumber

  abbrev pub concise : ChainBlock → BlockConcise
  concise blk = record { hash = blk.id; number = blk.number; timestamp = blk.timestamp }

  -- `txHashs.push`, and the rewards: those of transactions from the zero address are not paid
  unfoldable pub add_tx : Tx → Totals → Totals
  add_tx tx t = record {
    tx_hashs = t.tx_hashs ++ tx.id ∷ [];
    reward = plus t.reward (read_number tx.reward);
    actual_reward =
        if same_text tx.origin zero_address
        then t.actual_reward
        else plus t.actual_reward (read_number tx.reward);
  }

  abbrev pub no_totals : Totals
  no_totals = record { tx_hashs = []; reward = big_zero; actual_reward = big_zero }

  -- `process_tx` is `processTx`, which changes the accounts and a state of its own.
  module _ (chain : Chain) (network : Network) (W : Type 0)
      (process_tx : ChainBlock → ℕ → Tx → Exec (AccountCache × W) (Unit {0})) where
    -- The parts of PosCMD that are read and written here; `committees` is the collection.
    pub record Produced : Type 0 where
      pub account_cache : AccountCache
      pub work : W
      pub beneficiary_cache : Text
      pub committees_cache : List Committee
      pub committees : List Committee
      pub blocks_cache : List Block

    unfoldable pub run_tx : ChainBlock → ℕ → Tx → Exec Produced (Unit {0})
    run_tx blk i tx s =
        let (r, (c, w)) = process_tx blk i tx (s.account_cache, s.work) in
        (r, record s { account_cache = c; work = w })

    unfoldable pub on_accounts : Exec AccountCache (Unit {0}) → Exec Produced (Unit {0})
    on_accounts m s = let (r, c) = m s.account_cache in (r, record s { account_cache = c })

    -- `for (const [txIndex, tx] of blk.transactions.entries())`, with the fee of each
    unfoldable pub process_txs : ChainBlock → ℕ → List Tx → Totals → Exec Produced Totals
    process_txs blk i [] t = pure t
    process_txs blk i (tx ∷ txs) t =
        run_tx blk i tx
        >> on_accounts (AccountCache.minus tx.gas_payer mtr (read_number tx.paid) (concise blk))
        >> process_txs blk (suc i) txs (add_tx tx t)

    -- `score` and `gasChanged`, zero for the first block
    unfoldable pub changes_of : ChainBlock → Exec Produced (ℤ × ℤ)
    changes_of blk s =
        if ltb 0 blk.number
        then elim (chain.get_block blk.parent_id) [
          | none ↦ (err node_failed, s)
          | some prev ↦ (
            ok (
              pos blk.total_score -ℤ pos prev.total_score,
              pos blk.gas_limit -ℤ pos prev.gas_limit,
            ),
            s,
          )
        ]
        else (ok (pos 0, pos 0), s)

    -- `actualReward.isGreaterThan(0)`: the reward goes to the block's beneficiary, unless another is set.
    unfoldable pub pay_reward : ChainBlock → BigNumber → Exec Produced (Unit {0})
    pay_reward blk actual s =
        if is_less_than big_zero actual
        then on_accounts
            (AccountCache.plus
              (if same_text s.beneficiary_cache zero_address
                  || same_text s.beneficiary_cache (codes "0x")
                then blk.beneficiary
                else s.beneficiary_cache)
              mtr actual (concise blk))
            s
        else (ok tt, s)

    unfoldable pub pow_blocks_of : ChainBlock → Exec Produced (List PowInfo)
    pow_blocks_of blk s = elim blk.pow_blocks [
      | some l ↦ (ok l, s)
      | none ↦
          if blk.is_kblock
          then (if (get_network_config network).pow_enabled
              then elim (chain.get_epoch_info blk.epoch_id) [
                | none ↦ (err node_failed, s)
                | some l ↦ (ok l, s)
              ]
              else (ok [], s))
          else (ok [], s)
    ]

    abbrev pub member_of : CommitteeMember → CommitteeMember
    member_of m =
        if chain.is_hex m.pub_key then record m { pub_key = chain.to_base64 m.pub_key } else m

    -- `none` where no committee is of the epoch
    unfoldable pub end_first : ℕ → BlockConcise → List Committee → Option (List Committee)
    end_first epoch end_block [] = none
    end_first epoch end_block (c ∷ l) =
        let rest = end_first epoch end_block l in
        if c.epoch == epoch
        then some (record c { end_block = some end_block } ∷ l)
        else elim rest [ none ↦ none | some l' ↦ some (c ∷ l') ]

    -- In the cache, or else in the collection.
    unfoldable pub update_committee_end_block : ℕ → BlockConcise → Exec Produced (Unit {0})
    update_committee_end_block epoch end_block s =
        elim (end_first epoch end_block s.committees_cache) [
          | some l ↦ (ok tt, record s { committees_cache = l })
          | none ↦ elim (end_first epoch end_block s.committees) [
            | some l ↦ (ok tt, record s { committees = l })
            | none ↦ (ok tt, s)
          ]
        ]

    -- A committee that is not empty begins with this block; the one before it ends with the last
    -- KBlock.
    unfoldable pub update_committee : ChainBlock → Exec Produced (Unit {0})
    update_committee blk s = elim blk.committee [
      | [] ↦ (ok tt, s)
      | _ ∷ _ ↦
          let s' : Produced = record s {
            committees_cache =
                s.committees_cache
                ++ record {
                  epoch = suc blk.epoch_id;
                  kblock_height = blk.last_kblock_height;
                  start_block = concise blk;
                  members = map member_of blk.committee;
                  end_block = none;
                }
                  ∷ [];
          } in
          if ltb 0 blk.epoch_id
          then elim (chain.get_block_from_rest blk.last_kblock_height) [
            | none ↦ (err node_failed, s')
            | some prev ↦ update_committee_end_block blk.epoch_id (concise prev) s'
          ]
          else (ok tt, s')
    ]

    -- the block that is kept
    unfoldable pub made_block : ChainBlock → ℤ × ℤ → Totals → List PowInfo → Block
    made_block blk (score, gas_changed) t pow_blocks = record {
      source = blk;
      tx_hashs = t.tx_hashs;
      reward = t.reward;
      actual_reward = t.actual_reward;
      gas_changed = gas_changed;
      score = score;
      tx_count = length blk.transactions;
      epoch = if blk.number == suc blk.last_kblock_height then blk.epoch else blk.epoch_id;
      committee = map member_of blk.committee;
      pow_blocks = pow_blocks;
    }

    unfoldable pub keep_block : Block → Exec Produced (Unit {0})
    keep_block b s = (ok tt, record s { blocks_cache = s.blocks_cache ++ b ∷ [] })

    unfoldable pub process_block : ChainBlock → Exec Produced (Unit {0})
    process_block blk = changes_of blk >>= λ changes.
        process_txs blk 0 blk.transactions no_totals >>= λ t.
        pay_reward blk t.actual_reward
        >> (pow_blocks_of blk >>= λ pow_blocks.
            update_committee blk >> keep_block (made_block blk changes t pow_blocks))
