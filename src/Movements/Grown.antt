-- ===== src/Movements/Grown.antt =====
-- Movements are only added, and name the transaction and the block that they are of.
use scan_service.Prelude.{
  ℕ, suc, ◌-◌, ◌⊎◌, ◌≡◌, refl, ap, sym, ◌∙◌, List, [], ◌∷◌, ◌++◌, inl, inr, arith, Bool-cases,
  Option-cases, length, length-append, All, All-append, append_assoc, append-nil, ◌||◌,
}
use scan_service.Prelude.Text.{Text}
use scan_service.Prelude.Exec.{
  Failure, Result-cases, Exec, ok, err, Preserves, Preserves-pure, Preserves-if, preserves_rules,
  ◌>>◌,
}
use scan_service.Env.{Env}
use scan_service.Env.Model.{BlockConcise}
use scan_service.Env.Decoding.{Event, Transfer}
use scan_service.AccountCache.{AccountCache}
use scan_service.TokenBalanceCache.{TokenBalanceCache}
use scan_service.TxOutputs.{Output, Tx}
use scan_service.Movements.{
  Movement, Sync, Place, on_accounts, on_tokens, push_movement, is_token, has_signature, movement,
  move_balances, native_transfer, native_transfers, parse_erc20_movement, parse_erc721_movement,
  parse_single, parse_batch, parse_erc1155_movement, batch_transfers,
}
use scan_service.Movements.Update.{parse_event, parse_events, move_outputs, update_movements}

module _ ⦃e : Env⦄ (tx_id : Text) (block : BlockConcise) where
  open e use {BigNumber, devkit}

  abbrev pub IsOf : Movement → Type 0
  IsOf mv = (mv.tx_hash ≡ tx_id) × (mv.block ≡ block)

  -- The movements are those of `l`, and behind them some of the transaction.
  pub record Grown (l : List Movement) (s : Sync) : Type 0 where
    pub added : List Movement
    pub grows : s.movements_cache ≡ l ++ added
    pub are_of : All IsOf added

  module _ (l : List Movement) where
    on_accounts-Grown : (m : Exec AccountCache (Unit {0})) → Preserves (Grown l) (on_accounts m)
    unfolding on_accounts
    on_accounts-Grown m = record {
      from_state = λ s h. record { added = h.added; grows = h.grows; are_of = h.are_of };
    }

    on_tokens-Grown : (m : Exec TokenBalanceCache (Unit {0})) → Preserves (Grown l) (on_tokens m)
    unfolding on_tokens
    on_tokens-Grown m = record {
      from_state = λ s h. record { added = h.added; grows = h.grows; are_of = h.are_of };
    }

    push_movement-Grown : (mv : Movement) → IsOf mv → Preserves (Grown l) (push_movement mv)
    unfolding push_movement
    push_movement-Grown mv of = record {
      from_state = λ s h. record {
        added = h.added ++ mv ∷ [];
        grows = ap (λ x. x ++ mv ∷ []) h.grows ∙ append_assoc l h.added (mv ∷ []);
        are_of = All-append IsOf h.added (mv ∷ []) h.are_of (of, tt);
      };
    }

    ruleset grown_rules = (preserves_rules, on_accounts-Grown, on_tokens-Grown, push_movement-Grown)

    two-Grown :
        (m k : Exec Sync (Unit {0}))
        → Preserves (Grown l) m
        → Preserves (Grown l) k
        → Preserves (Grown l) (m >> k)
    two-Grown m k hm hk = search grown_rules

    move_balances-Grown :
        (address from to : Text) (amount : BigNumber) (b : BlockConcise)
        → Preserves (Grown l) (move_balances address from to amount b)
    unfolding move_balances
    move_balances-Grown address from to amount b = record {
      from_state = λ s h. elim (Bool-cases (is_token s.mtr_sys_token address)) [
        | inl is_mtr ↦
            rw (is_mtr, move_balances)
              ((two-Grown _ _ (on_accounts-Grown _) (on_accounts-Grown _)).from_state s h)
        | inr other ↦
            elim (Bool-cases
              (is_token s.mtrg_sys_token address || is_token s.mtrg_v2_sys_token address)) [
                | inl is_mtrg ↦
                    rw (other, is_mtrg, move_balances)
                      ((two-Grown _ _ (on_accounts-Grown _) (on_accounts-Grown _)).from_state s h)
                | inr regular ↦
                    rw (other, regular, move_balances)
                      ((two-Grown _ _ (on_tokens-Grown _) (on_tokens-Grown _)).from_state s h)
              ]
      ];
    }

    abbrev IsAt : Place → Type 0
    IsAt p = (p.tx_hash ≡ tx_id) × (p.block ≡ block)

    native_transfer-Grown :
        (p : Place) (tr : Transfer) → IsAt p → Preserves (Grown l) (native_transfer p tr)
    unfolding native_transfer movement
    native_transfer-Grown p tr at =
        two-Grown _ _ (two-Grown _ _ (push_movement-Grown _ at) (on_accounts-Grown _))
          (on_accounts-Grown _)

    native_transfers-Grown :
        (p : Place) (transfers : List Transfer)
        → IsAt p
        → Preserves (Grown l) (native_transfers p transfers)
    unfolding native_transfers
    native_transfers-Grown p [] at = search grown_rules
    native_transfers-Grown p (tr ∷ transfers) at =
        two-Grown _ _ (native_transfer-Grown p tr at)
          (native_transfers-Grown (record p { log_index = suc p.log_index }) transfers at)

    parse_erc20-Grown :
        (p : Place) (evt : Event) → IsAt p → Preserves (Grown l) (parse_erc20_movement p evt)
    unfolding parse_erc20_movement movement
    parse_erc20-Grown p evt at = elim (Option-cases (devkit.decode_erc20 evt)) [
      | inl failed ↦
          Preserves-if (has_signature devkit.erc20_transfer evt) _ _ (rw failed (Preserves-pure tt))
            (Preserves-pure tt)
      | inr (d, decoded) ↦
          Preserves-if (has_signature devkit.erc20_transfer evt) _ _
            (rw decoded (two-Grown _ _ (move_balances-Grown _ _ _ _ _) (push_movement-Grown _ at)))
            (Preserves-pure tt)
    ]

    parse_erc721-Grown :
        (p : Place) (evt : Event) → IsAt p → Preserves (Grown l) (parse_erc721_movement p evt)
    unfolding parse_erc721_movement movement
    parse_erc721-Grown p evt at = elim (Option-cases (devkit.decode_erc721 evt)) [
      | inl failed ↦
          Preserves-if (has_signature devkit.erc721_transfer evt) _ _
            (rw failed (Preserves-pure tt)) (Preserves-pure tt)
      | inr (d, decoded) ↦
          Preserves-if (has_signature devkit.erc721_transfer evt) _ _
            (rw decoded (push_movement-Grown _ at)) (Preserves-pure tt)
    ]

    parse_single-Grown :
        (p : Place) (evt : Event) → IsAt p → Preserves (Grown l) (parse_single p evt)
    unfolding parse_single movement
    parse_single-Grown p evt at = elim (Option-cases (devkit.decode_single evt)) [
      | inl failed ↦ rw (failed, parse_single) (Preserves-pure tt)
      | inr (d, decoded) ↦ rw (decoded, parse_single) (push_movement-Grown _ at)
    ]

    parse_batch-Grown : (p : Place) (evt : Event) → IsAt p → Preserves (Grown l) (parse_batch p evt)
    unfolding parse_batch movement
    parse_batch-Grown p evt at = record {
      from_state = λ s h. elim (Option-cases (devkit.decode_batch evt)) [
        | inl failed ↦ rw (failed, parse_batch) h
        | inr ((from, to, ids, values), decoded) ↦
            elim (Result-cases (batch_transfers ids values)) [
              | inl (transfers, fits) ↦
                  rw (decoded, fits, parse_batch) ((push_movement-Grown _ at).from_state s h)
              | inr (f, short) ↦ rw (decoded, short, parse_batch) h
            ]
      ];
    }

    parse_erc1155-Grown :
        (p : Place) (evt : Event) → IsAt p → Preserves (Grown l) (parse_erc1155_movement p evt)
    unfolding parse_erc1155_movement
    parse_erc1155-Grown p evt at = Preserves-if _ _ _ (Preserves-pure tt) (
        two-Grown _ _ (Preserves-if _ _ _ (parse_single-Grown p evt at) (Preserves-pure tt))
          (Preserves-if _ _ _ (parse_batch-Grown p evt at) (Preserves-pure tt)))

    parse_event-Grown : (p : Place) (evt : Event) → IsAt p → Preserves (Grown l) (parse_event p evt)
    unfolding parse_event
    parse_event-Grown p evt at =
        two-Grown _ _ (two-Grown _ _ (parse_erc20-Grown p evt at) (parse_erc721-Grown p evt at))
          (parse_erc1155-Grown p evt at)

    parse_events-Grown :
        (p : Place) (events : List Event) → IsAt p → Preserves (Grown l) (parse_events p events)
    unfolding parse_events
    parse_events-Grown p [] at = Preserves-pure tt
    parse_events-Grown p (evt ∷ events) at =
        two-Grown _ _ (parse_event-Grown p evt at)
          (parse_events-Grown (record p { log_index = suc p.log_index }) events at)

    move_outputs-Grown :
        (i : ℕ) (outputs : List Output) → Preserves (Grown l) (move_outputs tx_id block i outputs)
    unfolding move_outputs
    move_outputs-Grown i [] = Preserves-pure tt
    move_outputs-Grown i (o ∷ outputs) =
        two-Grown _ _
          (two-Grown _ _ (native_transfers-Grown _ o.transfers (refl, refl))
            (parse_events-Grown _ o.events (refl, refl)))
          (move_outputs-Grown (suc i) outputs)

added_count :
    {A : Type 0} (l l' added : List A) → l' ≡ l ++ added → length l' - length l ≡ length added
added_count l l' added h = rw h (omega (arith, length-append l added))

module _ ⦃e : Env⦄ where
  -- What updateMovements adds stands behind the movements that were there, also where it throws, and
  -- all of it names the transaction and its block. Where it returns, the number that it returns is
  -- that of the movements that were added.
  pub update_movements-Grown :
      (tx : Tx) (block : BlockConcise) (s : Sync)
      → let (r, s') = update_movements tx block s in
        (added : List Movement) × (s'.movements_cache ≡ s.movements_cache ++ added)
        × All (IsOf tx.id block) added
        × ((r ≡ ok (length added)) ⊎ ((f : Failure) × (r ≡ err f)))
  unfolding update_movements
  update_movements-Grown tx block s = elim (Bool-cases tx.reverted) [
    | inl reverted ↦
        rw (reverted, update_movements) ([], sym (append-nil s.movements_cache), tt, inl refl)
    | inr done ↦
        let g =
          (move_outputs-Grown tx.id block s.movements_cache 0 tx.outputs).from_state s
            (record { added = []; grows = sym (append-nil s.movements_cache); are_of = tt }) in
        elim (Result-cases (move_outputs tx.id block 0 tx.outputs s).0) [
          | inl (u, returned) ↦
              rw (done, returned, update_movements)
                (
                  g.added,
                  g.grows,
                  g.are_of,
                  inl (ap (λ n. ok n) (added_count s.movements_cache _ g.added g.grows)),
                )
          | inr (f, thrown) ↦
              rw (done, thrown, update_movements) (g.added, g.grows, g.are_of, inr (f, refl))
        ]
  ]
