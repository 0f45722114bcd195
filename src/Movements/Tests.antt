-- ===== src/Movements/Tests.antt =====
-- Runs of the parsers of movements, and their theorems at concrete inputs.
use scan_service.Prelude.{◌≡◌, refl, none, some, List, [], ◌∷◌, ◌++◌, ◌⊎◌, false, length, All}
use scan_service.Prelude.Int.{pos}
use scan_service.Prelude.Number.{to_number, round_ℕ}
use scan_service.Prelude.Text.{codes, same_text, to_lower_case}
use scan_service.Prelude.Exec.{Failure, ok, err, ◌>>=◌}
use scan_service.Env.Model.{erc20, erc1155, main_net}
use scan_service.Env.Decoding.{Event, Transfer}
use scan_service.Samples.{sample, block_1, amount}
use scan_service.Movements.{
  Movement, Sync, Place, movement, parse_erc20_movement, parse_erc1155_movement, parse_single,
  parse_batch, push_movement, batch_transfers,
}
use scan_service.TxOutputs.{Tx}
use scan_service.Movements.Update.{update_movements, update_wmtr}
use scan_service.Movements.Grown.{IsOf, update_movements-Grown}
use scan_service.Movements.Wrapped.{deposited, after, all_wraps, update_wmtr-after}
use scan_service.Movements.Recorded.{recorded, parse_erc20_movement-records}

abbrev empty : Sync ⦃e = sample⦄
empty = record {
  account_cache = record { accts = []; db = λ k. none; network = main_net };
  token_balance_cache = record { bals = []; nfts = []; db = λ k. none; contracts = λ k. none };
  movements_cache = [];
  mtr_sys_token = some (codes "0x01");
  mtrg_sys_token = some (codes "0x02");
  mtrg_v2_sys_token = none;
}

abbrev place : Place
place = record { log_index = 3; clause_index = 0; block = block_1; tx_hash = codes "0xff" }

abbrev sent : Event
sent = record { address = codes "0xC0"; topics = codes "0xdd" ∷ []; payload = [] }

abbrev sent_mtr : Event
sent_mtr = record sent { address = codes "0x01" }

abbrev batch : Event
batch = record sent { topics = codes "0x4a" ∷ [] }

-- A batch of one token is one movement with one transfer.
batch_run :
    (parse_erc1155_movement place batch empty).1.movements_cache
    ≡ movement
        (codes "0xaa")
        (codes "0xbb")
        erc1155
        (amount 0)
        (codes "0xC0")
        (record { token_id = codes "1"; value = pos 1 } ∷ [])
        place
      ∷ []
unfolding parse_erc1155_movement parse_single parse_batch push_movement batch_transfers movement
    same_text to_lower_case to_number round_ℕ ◌>>=◌
batch_run = refl

parse_erc20_movement-records_example :
    (parse_erc20_movement place sent_mtr empty).1.movements_cache
    ≡ recorded
        (parse_erc20_movement place sent_mtr empty).0
        (movement (codes "0xAA") (codes "0xBB") erc20 (amount 4) (codes "0x01") [] place)
        []
unfolding same_text
parse_erc20_movement-records_example =
    parse_erc20_movement-records place sent_mtr empty (codes "0xAA") (codes "0xBB") (amount 4) refl
      refl

abbrev wrapped : Event
wrapped = record {
  address = codes "0x160361ce13ec33c993b5cca8f62b6864943eb083";
  topics = codes "0xd0" ∷ [];
  payload = [];
}

abbrev tr : Transfer
tr = record { sender = codes "0xA1"; recipient = codes "0xA2"; amount = codes "0x4"; token = 0 }

abbrev tx : Tx
tx = record {
  id = codes "0xff";
  origin = codes "0xA1";
  gas_payer = codes "0xA1";
  paid = codes "0x1";
  reward = codes "0x1";
  reverted = false;
  clauses = [];
  outputs =
      record { contract_address = none; events = sent ∷ wrapped ∷ []; transfers = tr ∷ [] } ∷ [];
}

update_movements-Grown_example :
    let (r, s') = update_movements tx block_1 empty in
    (added : List Movement) × (s'.movements_cache ≡ [] ++ added)
    × All (IsOf (codes "0xff") block_1) added
    × ((r ≡ ok (length added)) ⊎ ((f : Failure) × (r ≡ err f)))
update_movements-Grown_example = update_movements-Grown tx block_1 empty

update_wmtr-after_example :
    let wmtr = codes "0x160361ce13ec33c993b5cca8f62b6864943eb083" in
    update_wmtr main_net tx block_1 empty.token_balance_cache
    ≡ (ok tt, after wmtr block_1 (all_wraps wmtr tx.outputs) empty.token_balance_cache)
unfolding same_text scan_service.Const.Config.get_network_config
update_wmtr-after_example =
    update_wmtr-after main_net tx block_1 empty.token_balance_cache refl refl refl refl

-- The deposit is credited.
update_wmtr_run :
    all_wraps (codes "0x160361ce13ec33c993b5cca8f62b6864943eb083") tx.outputs
    ≡ deposited (codes "0xaa") (amount 4) ∷ []
unfolding same_text to_lower_case
update_wmtr_run = refl
