-- ===== src/Contracts/Tests.antt =====
-- Contracts of a small cache, and the theorems on them at concrete inputs.
use scan_service.Prelude.{◌≡◌, refl, true, none, some, [], ◌∷◌, map}
use scan_service.Prelude.Text.{Text, codes, same_text, to_lower_case}
use scan_service.Prelude.Exec.{ok, err, contract_existed, ◌>>=◌}
use scan_service.Env.Decoding.{Event}
use scan_service.Env.Model.{Contract, self_destructed}
use scan_service.Env.Trace.{self_destruct, Call, leaf}
use scan_service.Samples.{sample, block_1, amount}
use scan_service.Contracts.{
  ContractCache, find_contract, update_first, change_contract, handle_selfdestruct, set_impl,
  on_event, handle_erc1967_events, delete_by_contract, redeployed, save_contract, save_each,
  save_contracts,
}
use scan_service.Contracts.Stored.{IsAddressed, saved_for, save_contracts-saved}
use scan_service.Contracts.Marked.{is_gone}
use scan_service.Contracts.Destructed.{handle_selfdestruct-gone}

abbrev contract : Text → Contract sample.BigNumber
contract address = record {
  address = address;
  holders_count = amount 0;
  transfers_count = amount 0;
  tokens_count = none;
  impl_addr = none;
  prev_impl_addr = none;
  admin_addr = none;
  beacon_addr = none;
  deploy_status = none;
  destruct_tx_hash = none;
  destruct_block = none;
}

abbrev cached : ContractCache ⦃e = sample⦄
cached = record {
  contracts_cache = contract (codes "0xc1") ∷ contract (codes "0xc2") ∷ [];
  db = λ k. none;
  files =
      record { address = codes "0xc1"; path = codes "a" }
      ∷ record { address = codes "0xc1"; path = codes "b" }
      ∷ [];
}

cached-IsAddressed : IsAddressed cached.db
cached-IsAddressed = record { at = λ k c found. absurd cc }

abbrev kill : Call
kill = leaf (record {
  call_type = self_destruct;
  from = codes "0xC2";
  to = codes "0xaa";
  value = [];
  input = none;
  gas_used = none;
  output = none;
  error = none;
})

-- A destructed contract of the same address is replaced, and one of its two files is deleted.
redeploy_run :
    let s = record cached {
      db = λ (k : Text). some (record (contract k) { deploy_status = some self_destructed });
    } in
    ((save_contract [] (contract (codes "0xc1")) [] s).1.files
      ≡ record { address = codes "0xc1"; path = codes "b" } ∷ [])
    × ((save_contract [] (contract (codes "0xc1")) [] s).1.db (codes "0xc1")
        ≡ some (redeployed (contract (codes "0xc1"))))
unfolding save_contract find_contract delete_by_contract same_text to_lower_case
redeploy_run = (refl, refl)

-- A contract that is still there ends the save.
existed_run :
    (save_contracts (record cached { db = λ k. some (contract k) })).0 ≡ err contract_existed
unfolding save_contracts save_each save_contract find_contract ◌>>=◌
existed_run = refl

abbrev upgrade : Event
upgrade = record { address = codes "0xc2"; topics = codes "0xf0" ∷ []; payload = [] }

upgrade_run :
    map
      (λ (c : Contract sample.BigNumber). c.impl_addr)
      (handle_erc1967_events upgrade cached).contracts_cache
    ≡ none ∷ some (codes "0xCC") ∷ []
unfolding handle_erc1967_events on_event change_contract update_first set_impl same_text
    to_lower_case ◌>>=◌
upgrade_run = refl

all_saved : (save_contracts cached).0 ≡ ok tt
unfolding save_contracts save_each save_contract find_contract same_text to_lower_case ◌>>=◌
all_saved = refl

save_contracts-saved_example :
    sample.contracts.find_one (codes "0xc2") (save_contracts cached).1.db
    ≡ saved_for cached.contracts_cache (codes "0xc2") cached.db
unfolding same_text to_lower_case
save_contracts-saved_example =
    save_contracts-saved cached (codes "0xc2") cached-IsAddressed (refl, (refl, tt), (refl, tt, tt))
      all_saved

handle_selfdestruct-gone_example :
    is_gone
      (to_lower_case (codes "0xC2"))
      (handle_selfdestruct (some kill) (codes "0xff") block_1 cached)
    ≡ true
unfolding same_text
handle_selfdestruct-gone_example =
    handle_selfdestruct-gone kill (codes "0xff") (codes "0xC2") block_1 cached cached-IsAddressed
      refl
