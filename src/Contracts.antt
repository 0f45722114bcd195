-- ===== src/Contracts.antt =====
-- The contracts that src/cmd/pos.cmd.ts keeps: `handleSelfdestruct`, `handleERC1967Events` and the part
-- of `saveCacheToDB` that saves the cache of contracts.
pub mod Stored
pub mod Marked
pub mod Destructed
mod Tests
use scan_service.Prelude.{
  ℕ, Bool, true, false, not, ◌&&◌, Option, none, some, List, [], ◌∷◌, ◌++◌, if◌then◌else◌,
}
use scan_service.Prelude.Text.{Text, same_text, to_lower_case}
use scan_service.Prelude.Dict.{Dict}
use scan_service.Prelude.Exec.{
  Result, ok, err, Exec, pure, throw, ◌>>=◌, ◌>>◌, decode_failed, contract_existed,
}
use scan_service.Env.{Env}
use scan_service.Env.Model.{BlockConcise, Contract, DeployStatus, self_destructed, re_deployed}
use scan_service.Env.Decoding.{Event, Abi}
use scan_service.Env.Trace.{Call}
use scan_service.Movements.{has_signature}
use scan_service.Traces.{find_destructed}
use scan_service.Traces.Searches.{frames}

-- model/contractFile.ts: a source file of a contract
pub record ContractFile : Type 0 where
  pub address : Text
  pub path : Text

module _ ⦃e : Env⦄ where
  open e use {BigNumber, devkit}

  -- The parts of PosCMD that are read and written here.
  pub record ContractCache : Type 0 where
    pub contracts_cache : List (Contract BigNumber)
    pub db : e.contracts.Store
    pub files : List ContractFile

  -- ContractRepo.findByAddress
  unfoldable pub find_contract : Text → e.contracts.Store → Option (Contract BigNumber)
  find_contract address db = e.contracts.find_one (to_lower_case address) db

  -- The first contract of the cache that passes is changed; `none` where no one does.
  unfoldable pub update_first :
      (Contract BigNumber → Bool)
      → (Contract BigNumber → Contract BigNumber)
      → List (Contract BigNumber)
      → Option (List (Contract BigNumber))
  update_first test f [] = none
  update_first test f (c ∷ l) =
      let rest = update_first test f l in
      if test c then some (f c ∷ l) else elim rest [ none ↦ none | some l' ↦ some (c ∷ l') ]

  -- A change of a contract: in the cache if one passes there, otherwise in the collection.
  unfoldable pub change_contract :
      Text
      → (Contract BigNumber → Bool)
      → (Contract BigNumber → Bool)
      → (Contract BigNumber → Contract BigNumber)
      → ContractCache
      → ContractCache
  change_contract address in_cache in_db f s =
      elim (update_first
        (λ c. same_text (to_lower_case c.address) (to_lower_case address) && in_cache c) f
        s.contracts_cache) [
          | some l ↦ record s { contracts_cache = l }
          | none ↦ elim (find_contract address s.db) [
            | none ↦ s
            | some c ↦
                if in_db c then record s { db = e.contracts.save (f c).address (f c) s.db } else s
          ]
        ]

  abbrev pub always : Contract BigNumber → Bool
  always c = true

  unfoldable pub mark_destructed : Text × BlockConcise → Contract BigNumber → Contract BigNumber
  mark_destructed (tx_hash, block) c = record c {
    deploy_status = some self_destructed;
    destruct_tx_hash = some tx_hash;
    destruct_block = some block;
  }

  -- `for (const addr in destructedContracts)`
  unfoldable pub mark_all : Dict (Text × BlockConcise) → ContractCache → ContractCache
  mark_all [] s = s
  mark_all ((addr, v) ∷ d) s = mark_all d (change_contract addr always always (mark_destructed v) s)

  -- The search has as many rounds as the trace has frames.
  unfoldable pub handle_selfdestruct :
      Option Call → Text → BlockConcise → ContractCache → ContractCache
  handle_selfdestruct none tx_hash block s = s
  handle_selfdestruct (some tracer) tx_hash block s =
      elim (find_destructed (frames tracer) (tx_hash, block) tracer) [
        | none ↦ s
        | some d ↦ mark_all d s
      ]

  -- `c.implAddr !== address`
  abbrev pub differs : Option Text → Text → Bool
  differs none address = true
  differs (some a) address = not (same_text a address)

  unfoldable pub set_impl : Text → Contract BigNumber → Contract BigNumber
  set_impl impl c = record c { prev_impl_addr = c.impl_addr; impl_addr = some impl }

  unfoldable pub set_beacon : Text → Contract BigNumber → Contract BigNumber
  set_beacon beacon c = record c { beacon_addr = some beacon }

  unfoldable pub set_admin : Text → Contract BigNumber → Contract BigNumber
  set_admin admin c = record c { admin_addr = some admin }

  -- One of the three events: `decode` may throw.
  unfoldable pub on_event :
      Abi Text → Event → (Text → ContractCache → ContractCache) → Exec ContractCache (Unit {0})
  on_event event evt change s =
      if has_signature event.signature evt
      then elim (event.decode evt) [ none ↦ (err decode_failed, s) | some a ↦ (ok tt, change a s) ]
      else (ok tt, s)

  unfoldable pub handle_erc1967_events : Event → ContractCache → ContractCache
  handle_erc1967_events evt s =
      ((on_event devkit.upgraded evt (λ a.
            change_contract evt.address (λ c. differs c.impl_addr a) (λ c. differs c.impl_addr a)
              (set_impl a))
          >> on_event devkit.beacon_upgraded evt (λ a.
            change_contract evt.address always (λ c. differs c.beacon_addr a) (set_beacon a))
          >> on_event devkit.admin_changed evt
              (λ a. change_contract evt.address always (λ c. differs c.admin_addr a) (set_admin a)))
        s).1

  abbrev pub is_destructed : Contract BigNumber → Bool
  is_destructed c = elim c.deploy_status [
    | none ↦ false
    | some status ↦ elim status [ self_destructed ↦ true | _ ↦ false ]
  ]

  -- ContractFileRepo.deleteByContract: `deleteOne`
  unfoldable pub delete_by_contract : Text → List ContractFile → List ContractFile
  delete_by_contract address [] = []
  delete_by_contract address (f ∷ files) =
      let rest = delete_by_contract address files in
      if same_text f.address (to_lower_case address) then files else f ∷ rest

  unfoldable pub redeployed : Contract BigNumber → Contract BigNumber
  redeployed c = record c { deploy_status = some re_deployed }

  -- A contract of the cache, between those before and after it. One that stands in the collection is
  -- replaced where it was destructed; what is saved is a change of the cached object too.
  unfoldable pub save_contract :
      List (Contract BigNumber)
      → Contract BigNumber
      → List (Contract BigNumber)
      → Exec ContractCache (Contract BigNumber)
  save_contract before c after s = elim (find_contract c.address s.db) [
    | none ↦ (ok c, record s { db = e.contracts.save c.address c s.db })
    | some ec ↦
        if is_destructed ec
        then (
          ok (redeployed c),
          record s {
            contracts_cache = before ++ redeployed c ∷ after;
            db = e.contracts.save c.address (redeployed c) (e.contracts.delete_one ec.address s.db);
            files = delete_by_contract c.address s.files;
          },
        )
        else (err contract_existed, s)
  ]

  -- `for (const c of this.contractsCache)`
  unfoldable pub save_each :
      List (Contract BigNumber) → List (Contract BigNumber) → Exec ContractCache (Unit {0})
  save_each before [] = pure tt
  save_each before (c ∷ l) =
      save_contract before c l >>= λ saved. save_each (before ++ saved ∷ []) l

  unfoldable pub save_contracts : Exec ContractCache (Unit {0})
  save_contracts s = save_each [] s.contracts_cache s
