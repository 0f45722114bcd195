-- ===== src/Movements/Update.antt =====
-- PosCMD.updateMovements and PosCMD.updateWMTR of src/cmd/pos.cmd.ts: the outputs of a transaction,
-- clause by clause, the native transfers of a clause before its events.
use scan_service.Prelude.{
  ℕ, suc, ◌-◌, Bool, true, false, not, ◌&&◌, none, some, List, [], ◌∷◌, if◌then◌else◌, length,
  is_some,
}
use scan_service.Prelude.Text.{Text, same_text, to_lower_case}
use scan_service.Prelude.Exec.{Exec, ok, err, pure, ◌>>◌}
use scan_service.Env.{Env}
use scan_service.Env.Model.{Network, BlockConcise}
use scan_service.Env.Decoding.{Event}
use scan_service.Const.Config.{get_network_config}
use scan_service.TokenBalanceCache
use scan_service.TokenBalanceCache.{TokenBalanceCache}
use scan_service.TxOutputs.{Output, Tx}
use scan_service.Movements.{
  Sync, Place, has_signature, native_transfers, parse_erc20_movement, parse_erc721_movement,
  parse_erc1155_movement,
}

module _ ⦃e : Env⦄ where
  open e use {BigNumber, devkit}

  -- One round of the loop over the events.
  unfoldable pub parse_event : Place → Event → Exec Sync (Unit {0})
  parse_event p evt =
      parse_erc20_movement p evt >> parse_erc721_movement p evt >> parse_erc1155_movement p evt

  -- `for (const [logIndex, evt] of o.events.entries())`
  unfoldable pub parse_events : Place → List Event → Exec Sync (Unit {0})
  unfolding parse_event
  parse_events p [] = pure tt
  parse_events p (evt ∷ events) =
      parse_event p evt >> parse_events (record p { log_index = suc p.log_index }) events

  -- `for (const [clauseIndex, o] of tx.outputs.entries())`
  unfoldable pub move_outputs : Text → BlockConcise → ℕ → List Output → Exec Sync (Unit {0})
  unfolding parse_events
  move_outputs tx_id block i [] = pure tt
  move_outputs tx_id block i (o ∷ outputs) =
      let p : Place = record { log_index = 0; clause_index = i; block = block; tx_hash = tx_id } in
      native_transfers p o.transfers
      >> parse_events p o.events
      >> move_outputs tx_id block (suc i) outputs

  -- The number of the movements that were added.
  unfoldable pub update_movements : Tx → BlockConcise → Exec Sync ℕ
  unfolding move_outputs
  update_movements tx block s =
      if tx.reverted
      then (ok 0, s)
      else (let (r, s') = move_outputs tx.id block 0 tx.outputs s in
          elim r [
            | err f ↦ (err f, s')
            | ok _ ↦ (ok (length s'.movements_cache - length s.movements_cache), s')
          ])

  -- `evt.topics[0] === signature && evt.address === config.wmtrAddress`
  abbrev pub is_wmtr_event : Text → Text → Event → Bool
  is_wmtr_event wmtr signature evt = has_signature signature evt && same_text evt.address wmtr

  unfoldable pub deposit_wmtr : BlockConcise → Event → Exec TokenBalanceCache (Unit {0})
  deposit_wmtr block evt = elim (devkit.wmtr_deposit.decode evt) [
    | none ↦ pure tt
    | some (from, amount) ↦ TokenBalanceCache.plus (to_lower_case from) evt.address amount block
  ]

  unfoldable pub withdraw_wmtr : BlockConcise → Event → Exec TokenBalanceCache (Unit {0})
  withdraw_wmtr block evt = elim (devkit.wmtr_withdrawal.decode evt) [
    | none ↦ pure tt
    | some (from, amount) ↦ TokenBalanceCache.minus (to_lower_case from) evt.address amount block
  ]

  -- A deposit that cannot be decoded ends the round by `continue`.
  unfoldable pub wrap_event : Text → BlockConcise → Event → Exec TokenBalanceCache (Unit {0})
  unfolding deposit_wmtr withdraw_wmtr
  wrap_event wmtr block evt =
      let is_deposit = is_wmtr_event wmtr devkit.wmtr_deposit.signature evt in
      let is_withdrawal = is_wmtr_event wmtr devkit.wmtr_withdrawal.signature evt in
      if is_deposit && not (is_some (devkit.wmtr_deposit.decode evt))
      then pure tt
      else ((if is_deposit then deposit_wmtr block evt else pure tt)
          >> (if is_withdrawal then withdraw_wmtr block evt else pure tt))

  unfoldable pub wrap_events : Text → BlockConcise → List Event → Exec TokenBalanceCache (Unit {0})
  unfolding wrap_event
  wrap_events wmtr block [] = pure tt
  wrap_events wmtr block (evt ∷ events) = wrap_event wmtr block evt >> wrap_events wmtr block events

  unfoldable pub wrap_outputs :
      Text → BlockConcise → List Output → Exec TokenBalanceCache (Unit {0})
  unfolding wrap_events
  wrap_outputs wmtr block [] = pure tt
  wrap_outputs wmtr block (o ∷ outputs) =
      wrap_events wmtr block o.events >> wrap_outputs wmtr block outputs

  abbrev pub is_empty : Text → Bool
  is_empty [] = true
  is_empty (c ∷ a) = false

  unfoldable pub update_wmtr : Network → Tx → BlockConcise → Exec TokenBalanceCache (Unit {0})
  unfolding wrap_outputs
  update_wmtr network tx block =
      let config = get_network_config network in
      if tx.reverted
      then pure tt
      else if not config.wmtr_enabled
      then pure tt
      else if is_empty config.wmtr_address
      then pure tt
      else wrap_outputs config.wmtr_address block tx.outputs
