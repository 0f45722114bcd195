-- ===== src/Movements/Wrapped.antt =====
-- updateWMTR as a fold over the wraps and unwraps of a transaction.
use scan_service.Prelude.{
  ◌≡◌, refl, sym, ◌∙◌, ap, true, false, none, some, List, [], ◌∷◌, ◌++◌, inl, inr, arith,
  Bool-cases, Option-cases, if◌then◌else◌,
}
use scan_service.Prelude.Text.{Text, same_text, same_text_iff, to_lower_case}
use scan_service.Prelude.Exec.{ok, pure, ◌>>=◌, >>=-step}
use scan_service.Env.{Env}
use scan_service.Env.Model.{Network, BlockConcise}
use scan_service.Env.Decoding.{Event}
use scan_service.Const.Config.{get_network_config}
use scan_service.TokenBalanceCache
use scan_service.TokenBalanceCache.{TokenBalanceCache}
use scan_service.TokenBalanceCache.Amounts.{minus-ok, plus-ok}
use scan_service.TxOutputs.{Output, Tx}
use scan_service.Movements.Update.{
  is_wmtr_event, deposit_wmtr, withdraw_wmtr, wrap_event, wrap_events, wrap_outputs, update_wmtr,
  is_empty,
}

module _ ⦃e : Env⦄ where
  open e use {BigNumber, devkit}

  -- What an owner does with wrapped MTR.
  pub data Wrap : Type 0 where
    deposited withdrawn : Text → BigNumber → Wrap

  -- The wraps that an event of the contract tells of.
  abbrev pub deposits_of : Event → List Wrap
  deposits_of evt = elim (devkit.wmtr_deposit.decode evt) [
    | none ↦ []
    | some (from, amount) ↦ deposited (to_lower_case from) amount ∷ []
  ]

  abbrev pub withdrawals_of : Event → List Wrap
  withdrawals_of evt = elim (devkit.wmtr_withdrawal.decode evt) [
    | none ↦ []
    | some (from, amount) ↦ withdrawn (to_lower_case from) amount ∷ []
  ]

  abbrev pub wraps_of : Text → Event → List Wrap
  wraps_of wmtr evt =
      if is_wmtr_event wmtr devkit.wmtr_deposit.signature evt
      then deposits_of evt
      else if is_wmtr_event wmtr devkit.wmtr_withdrawal.signature evt
      then withdrawals_of evt
      else []

  abbrev pub wraps_in : Text → List Event → List Wrap
  wraps_in wmtr [] = []
  wraps_in wmtr (evt ∷ events) = wraps_of wmtr evt ++ wraps_in wmtr events

  abbrev pub all_wraps : Text → List Output → List Wrap
  all_wraps wmtr [] = []
  all_wraps wmtr (o ∷ outputs) = wraps_in wmtr o.events ++ all_wraps wmtr outputs

  module _ (wmtr : Text) (block : BlockConcise) where
    -- The balances after some wraps.
    abbrev pub after : List Wrap → TokenBalanceCache → TokenBalanceCache
    after [] s = s
    after (deposited from amount ∷ l) s =
        after l (TokenBalanceCache.plus from wmtr amount block s).1
    after (withdrawn from amount ∷ l) s =
        after l (TokenBalanceCache.minus from wmtr amount block s).1

    after-append :
        (l k : List Wrap) (s : TokenBalanceCache) → after (l ++ k) s ≡ after k (after l s)
    after-append [] k s = refl
    after-append (deposited from amount ∷ l) k s = after-append l k _
    after-append (withdrawn from amount ∷ l) k s = after-append l k _

    deposit_wmtr-after :
        (evt : Event) (s : TokenBalanceCache)
        → evt.address ≡ wmtr
        → deposit_wmtr block evt s ≡ (ok tt, after (deposits_of evt) s)
    unfolding deposit_wmtr ◌>>=◌
    deposit_wmtr-after evt s at = elim (Option-cases (devkit.wmtr_deposit.decode evt)) [
      | inl failed ↦ rw (failed, deposit_wmtr, deposits_of) refl
      | inr ((from, amount), decoded) ↦
          rw (decoded, at, deposit_wmtr, deposits_of)
            (λ i. (
              plus-ok (to_lower_case from) wmtr amount block s i,
              (TokenBalanceCache.plus (to_lower_case from) wmtr amount block s).1,
            ))
    ]

    withdraw_wmtr-after :
        (evt : Event) (s : TokenBalanceCache)
        → evt.address ≡ wmtr
        → withdraw_wmtr block evt s ≡ (ok tt, after (withdrawals_of evt) s)
    unfolding withdraw_wmtr ◌>>=◌
    withdraw_wmtr-after evt s at = elim (Option-cases (devkit.wmtr_withdrawal.decode evt)) [
      | inl failed ↦ rw (failed, withdraw_wmtr, withdrawals_of) refl
      | inr ((from, amount), decoded) ↦
          rw (decoded, at, withdraw_wmtr, withdrawals_of)
            (λ i. (
              minus-ok (to_lower_case from) wmtr amount block s i,
              (TokenBalanceCache.minus (to_lower_case from) wmtr amount block s).1,
            ))
    ]

    wmtr_event-address :
        (signature : Text) (evt : Event)
        → is_wmtr_event wmtr signature evt ≡ true
        → evt.address ≡ wmtr
    wmtr_event-address signature evt h = ground (arith, same_text_iff evt.address wmtr)

    -- The two signatures are different texts.
    module _
        (distinct : same_text devkit.wmtr_deposit.signature devkit.wmtr_withdrawal.signature
          ≡ false) where
      not_both :
          (evt : Event)
          → is_wmtr_event wmtr devkit.wmtr_deposit.signature evt ≡ true
          → is_wmtr_event wmtr devkit.wmtr_withdrawal.signature evt ≡ false
      not_both evt h = ground (arith, first_topic _ _ evt.topics distinct)
        where
          first_topic :
              (a b : Text) (topics : List Text)
              → same_text a b ≡ false
              → (elim topics [ [] ↦ false | topic ∷ _ ↦ same_text topic a ]) ≡ true
              → (elim topics [ [] ↦ false | topic ∷ _ ↦ same_text topic b ]) ≡ false
          first_topic a b [] d k = refl
          first_topic a b (topic ∷ topics) d k =
              ground (arith, same_text_iff topic a, same_text_iff topic b, same_text_iff a b)

      wrap_event-after :
          (evt : Event) (s : TokenBalanceCache)
          → wrap_event wmtr block evt s ≡ (ok tt, after (wraps_of wmtr evt) s)
      unfolding wrap_event ◌>>=◌
      wrap_event-after evt s =
          elim (Bool-cases (is_wmtr_event wmtr devkit.wmtr_deposit.signature evt)) [
            | inl deposit ↦ elim (Option-cases (devkit.wmtr_deposit.decode evt)) [
              | inl failed ↦ rw (deposit, failed, deposits_of) refl
              | inr (d, decoded) ↦
                  let at = wmtr_event-address devkit.wmtr_deposit.signature evt deposit in
                  rw (deposit, not_both evt deposit, decoded)
                    (>>=-step (deposit_wmtr block evt) (λ _. pure tt) (deposit_wmtr-after evt s at))
            ]
            | inr other ↦
                elim (Bool-cases (is_wmtr_event wmtr devkit.wmtr_withdrawal.signature evt)) [
                  | inl withdrawal ↦
                      let at = wmtr_event-address devkit.wmtr_withdrawal.signature evt withdrawal in
                      rw (other, withdrawal) (withdraw_wmtr-after evt s at)
                  | inr neither ↦ rw (other, neither) refl
                ]
          ]

      wrap_events-after :
          (events : List Event) (s : TokenBalanceCache)
          → wrap_events wmtr block events s ≡ (ok tt, after (wraps_in wmtr events) s)
      unfolding wrap_events ◌>>=◌
      wrap_events-after [] s = refl
      wrap_events-after (evt ∷ events) s =
          >>=-step (wrap_event wmtr block evt) (λ _. wrap_events wmtr block events)
            (wrap_event-after evt s)
          ∙ wrap_events-after events _
          ∙ ap (λ x. (ok tt, x)) (sym (after-append (wraps_of wmtr evt) (wraps_in wmtr events) s))

      wrap_outputs-after :
          (outputs : List Output) (s : TokenBalanceCache)
          → wrap_outputs wmtr block outputs s ≡ (ok tt, after (all_wraps wmtr outputs) s)
      unfolding wrap_outputs ◌>>=◌
      wrap_outputs-after [] s = refl
      wrap_outputs-after (o ∷ outputs) s =
          >>=-step (wrap_events wmtr block o.events) (λ _. wrap_outputs wmtr block outputs)
            (wrap_events-after o.events s)
          ∙ wrap_outputs-after outputs _
          ∙ ap (λ x. (ok tt, x))
              (sym (after-append (wraps_in wmtr o.events) (all_wraps wmtr outputs) s))

  -- Where a transaction is not reverted, the network has a contract of wrapped MTR, and the two events
  -- of the contract have different signatures, updateWMTR always returns, and the balances are those
  -- after the deposits and withdrawals that the events of the contract tell of, one after the other.
  pub update_wmtr-after :
      (network : Network) (tx : Tx) (block : BlockConcise) (s : TokenBalanceCache)
      → same_text devkit.wmtr_deposit.signature devkit.wmtr_withdrawal.signature ≡ false
      → tx.reverted ≡ false
      → (get_network_config network).wmtr_enabled ≡ true
      → is_empty (get_network_config network).wmtr_address ≡ false
      → let wmtr = (get_network_config network).wmtr_address in
        update_wmtr network tx block s ≡ (ok tt, after wmtr block (all_wraps wmtr tx.outputs) s)
  unfolding update_wmtr
  update_wmtr-after network tx block s distinct done enabled address =
      rw (done, enabled, address)
        (wrap_outputs-after (get_network_config network).wmtr_address block distinct tx.outputs s)
