-- ===== src/Movements/Recorded.antt =====
-- Which movements are recorded, and whose balances change.
use scan_service.Prelude.{
  ◌≡◌, refl, ap, ◌≤◌, true, some, List, [], ◌∷◌, ◌++◌, ◌||◌, map, inl, inr, arith, Bool-cases,
  length, take,
}
use scan_service.Prelude.Int.{ℤ}
use scan_service.Prelude.Number.{to_number}
use scan_service.Prelude.Text.{Text}
use scan_service.Prelude.Exec.{Result, Exec, ok, err, Preserves, preserves_rules, ◌>>=◌, ◌>>◌}
use scan_service.Env.{Env}
use scan_service.Env.Model.{erc20, BlockConcise, NftBalance}
use scan_service.Env.Decoding.{Event}
use scan_service.AccountCache.{AccountCache}
use scan_service.TokenBalanceCache.{TokenBalanceCache}
use scan_service.Movements.{
  Movement, Sync, Place, on_accounts, on_tokens, push_movement, is_token, has_signature, movement,
  move_balances, parse_erc20_movement, batch_transfers,
}

module _ ⦃e : Env⦄ where
  open e use {BigNumber, devkit}

  -- The movements are `l`.
  record Has (l : List Movement) (s : Sync) : Type 0 where
    movements : s.movements_cache ≡ l

  on_accounts-Has :
      (l : List Movement) (m : Exec AccountCache (Unit {0})) → Preserves (Has l) (on_accounts m)
  unfolding on_accounts
  on_accounts-Has l m = record { from_state = λ s h. record { movements = h.movements } }

  on_tokens-Has :
      (l : List Movement) (m : Exec TokenBalanceCache (Unit {0})) → Preserves (Has l) (on_tokens m)
  unfolding on_tokens
  on_tokens-Has l m = record { from_state = λ s h. record { movements = h.movements } }

  ruleset has_rules = (preserves_rules, on_accounts-Has, on_tokens-Has)

  accounts-Has :
      (l : List Movement) (m k : Exec AccountCache (Unit {0}))
      → Preserves (Has l) (on_accounts m >> on_accounts k)
  accounts-Has l m k = search has_rules

  tokens-Has :
      (l : List Movement) (m k : Exec TokenBalanceCache (Unit {0}))
      → Preserves (Has l) (on_tokens m >> on_tokens k)
  tokens-Has l m k = search has_rules

  move_balances-Has :
      (l : List Movement) (address from to : Text) (amount : BigNumber) (block : BlockConcise)
      → Preserves (Has l) (move_balances address from to amount block)
  unfolding move_balances
  move_balances-Has l address from to amount block = record {
    from_state = λ s h. elim (Bool-cases (is_token s.mtr_sys_token address)) [
      | inl is_mtr ↦ rw (is_mtr, move_balances) ((accounts-Has l _ _).from_state s h)
      | inr other ↦
          elim (Bool-cases
            (is_token s.mtrg_sys_token address || is_token s.mtrg_v2_sys_token address)) [
              | inl is_mtrg ↦
                  rw (other, is_mtrg, move_balances) ((accounts-Has l _ _).from_state s h)
              | inr regular ↦ rw (other, regular, move_balances) ((tokens-Has l _ _).from_state s h)
            ]
    ];
  }

  abbrev pub recorded : Result (Unit {0}) → Movement → List Movement → List Movement
  recorded (ok _) mv l = l ++ mv ∷ []
  recorded (err _) mv l = l

  push_after :
      (m : Exec Sync (Unit {0})) (mv : Movement) (s : Sync)
      → Preserves (Has s.movements_cache) m
      → ((m >> push_movement mv) s).1.movements_cache
        ≡ recorded ((m >> push_movement mv) s).0 mv s.movements_cache
  unfolding ◌>>=◌ push_movement
  push_after m mv s h = by_result (m s).0 refl
    where
      by_result :
          (r : Result (Unit {0}))
          → (m s).0 ≡ r
          → ((m >> push_movement mv) s).1.movements_cache
            ≡ recorded ((m >> push_movement mv) s).0 mv s.movements_cache
      by_result (ok _) done =
          rw done (ap (λ l. l ++ mv ∷ []) (h.from_state s (record { movements = refl })).movements)
      by_result (err f) failed =
          rw failed ((h.from_state s (record { movements = refl })).movements)

  module _ (p : Place) (evt : Event) (s : Sync) (from to : Text) (amount : BigNumber)
      (signed : has_signature devkit.erc20_transfer evt ≡ true)
      (decoded : devkit.decode_erc20 evt ≡ some (from, to, amount)) where
    -- The movement of an ERC20 transfer event is recorded, once and after the others, where the
    -- method returns, and not where it throws.
    pub parse_erc20_movement-records :
        (parse_erc20_movement p evt s).1.movements_cache
        ≡ recorded
            (parse_erc20_movement p evt s).0
            (movement from to erc20 amount evt.address [] p)
            s.movements_cache
    unfolding parse_erc20_movement
    parse_erc20_movement-records =
        rw (signed, decoded)
          (push_after _ _ s (move_balances-Has s.movements_cache evt.address _ _ amount p.block))

-- Where a batch has a value for each of its ids the transfers are the ids with their values as
-- numbers, in their order.
pub batch_transfers-ok :
    (ids : List Text) (values : List ℤ)
    → length ids ≤ length values
    → (l : List NftBalance) × (batch_transfers ids values ≡ ok l)
      × (map (λ (n : NftBalance). n.token_id) l ≡ ids)
      × (map (λ (n : NftBalance). n.value) l ≡ map to_number (take (length ids) values))
unfolding batch_transfers
batch_transfers-ok [] values h = ([], refl, refl, refl)
batch_transfers-ok (id ∷ ids) [] h = elim h [ ]
batch_transfers-ok (id ∷ ids) (v ∷ values) h =
    let (l, result, same_ids, same_values) = batch_transfers-ok ids values (omega arith) in
    (
      record { token_id = id; value = to_number v } ∷ l,
      rw result refl,
      ap (λ r. id ∷ r) same_ids,
      ap (λ r. to_number v ∷ r) same_values,
    )
