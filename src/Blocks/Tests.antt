-- ===== src/Blocks/Tests.antt =====
-- A small block, and the theorem on it at a concrete input.
use scan_service.Prelude.{ℕ, ◌≡◌, refl, true, false, none, some, [], ◌∷◌, ◌++◌, map}
use scan_service.Prelude.Int.{◌+ℤ◌}
use scan_service.Prelude.Dict.{get, put}
use scan_service.Const.Config.{get_network_config}
use scan_service.Prelude.Text.{Text, codes, same_text, to_lower_case}
use scan_service.Prelude.Exec.{Exec, ok, pure, ◌>>=◌}
use scan_service.Const.{zero_address}
use scan_service.Env.Model.{main_net}
use scan_service.Samples.{sample}
use scan_service.AccountCache
use scan_service.AccountCache.{AccountCache}
use scan_service.TxOutputs.{Tx}
use scan_service.Blocks.{
  CommitteeMember, Chain, ChainBlock, Block, Produced, process_block, process_txs, changes_of,
  pay_reward, pow_blocks_of, update_committee, update_committee_end_block, end_first, keep_block,
  add_tx, run_tx, on_accounts,
}
use scan_service.Blocks.Made.{sum_of, reward_of, paid_for, process_block-made}

abbrev tx_from : Text → Text → Tx
tx_from id origin = record {
  id = id;
  origin = origin;
  gas_payer = zero_address;
  paid = codes "0x1";
  reward = codes "0x4";
  reverted = false;
  clauses = [];
  outputs = [];
}

abbrev member : CommitteeMember
member = record { index = 0; net_addr = codes "10.0.0.1"; pub_key = codes "04ab" }

abbrev sealed : ℕ → ChainBlock
sealed n = record {
  id = codes "0x09";
  number = n;
  timestamp = 90;
  parent_id = codes "0x08";
  total_score = n;
  gas_limit = 1000;
  beneficiary = codes "0xbb";
  is_kblock = true;
  epoch = 3;
  epoch_id = 2;
  last_kblock_height = 8;
  committee = member ∷ [];
  pow_blocks = none;
  transactions = tx_from (codes "0xf1") zero_address ∷ tx_from (codes "0xf2") (codes "0xcc") ∷ [];
}

abbrev chain : Chain
chain = record {
  get_block = λ id. some (sealed 7);
  get_block_from_rest = λ n. some (sealed n);
  get_epoch_info = λ n. some [];
  is_hex = λ k. true;
  to_base64 = λ k. codes "BKs=";
}

-- Transactions that change nothing.
abbrev idle_tx : ChainBlock → ℕ → Tx → Exec (AccountCache ⦃e = sample⦄ × ℕ) (Unit {0})
idle_tx blk i tx s = (ok tt, s)

abbrev before : Produced chain main_net ℕ idle_tx
before = record {
  account_cache = record { accts = []; db = λ k. none; network = main_net };
  work = 0;
  beneficiary_cache = codes "0x";
  committees_cache = [];
  committees = [];
  blocks_cache = [];
}

returned : (process_block chain main_net ℕ idle_tx (sealed 9) before).0 ≡ ok tt
unfolding process_block process_txs changes_of pay_reward pow_blocks_of update_committee
    update_committee_end_block end_first keep_block run_tx on_accounts add_tx pure ◌>>=◌ same_text
    AccountCache.minus AccountCache.plus zero_address AccountCache.set_default
    AccountCache.plus_token AccountCache.touch AccountCache.update_acct AccountCache.fix_if_negative
    AccountCache.create AccountCache.find_by_address AccountCache.new_account get put
    get_network_config to_lower_case ◌+ℤ◌
returned = refl

process_block-made_example :
    let s = (process_block chain main_net ℕ idle_tx (sealed 9) before).1 in
    let txs = (sealed 9).transactions in
    (b : Block ⦃e = sample⦄) × (s.blocks_cache ≡ [] ++ b ∷ [])
    × (b.source ≡ sealed 9)
    × (b.tx_hashs ≡ map (λ (tx : Tx). tx.id) txs)
    × (b.reward ≡ sum_of ⦃e = sample⦄ (reward_of ⦃e = sample⦄) txs)
    × (b.actual_reward ≡ sum_of ⦃e = sample⦄ (paid_for ⦃e = sample⦄) txs)
process_block-made_example = process_block-made chain main_net ℕ idle_tx (sealed 9) before returned
