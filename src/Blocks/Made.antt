-- ===== src/Blocks/Made.antt =====
-- What the block that is kept says of its transactions.
use scan_service.Prelude.{
  ℕ, suc, ltb, arith, List-cases, Option-cases, ◌≡◌, refl, ap, sym, ◌∙◌, Option, some, List, [],
  ◌∷◌, ◌++◌, map, append-nil, append_assoc, inl, inr, if◌then◌else◌, Bool-cases,
}
use scan_service.Prelude.Int.{ℤ, pos}
use scan_service.Prelude.Text.{same_text}
use scan_service.Prelude.Exec.{Exec, ok, pure, ◌>>◌, >>=-ok, Preserves, Preserves-bind}
use scan_service.Const.{zero_address}
use scan_service.Env.{Env}
use scan_service.Env.Model.{Network, mtr, BlockConcise}
use scan_service.AccountCache
use scan_service.AccountCache.{AccountCache}
use scan_service.TxOutputs.{Tx}
use scan_service.TxDigests.Sums.{◌⊕◌, plus_assoc, plus_comm, plus_zero}
use scan_service.Blocks.{
  Chain, ChainBlock, Block, Totals, Produced, run_tx, on_accounts, concise, add_tx, process_txs,
  changes_of, pay_reward, pow_blocks_of, update_committee_end_block, update_committee, made_block,
  keep_block, no_totals, process_block,
}

module _ ⦃e : Env⦄ where
  open e use {BigNumber, big_zero, is_less_than, plus, value, read_number}

  -- The reward of a transaction, and the part of it that is paid.
  abbrev pub reward_of : Tx → Option ℤ
  reward_of tx = value (read_number tx.reward)

  abbrev pub paid_for : Tx → Option ℤ
  paid_for tx = if same_text tx.origin zero_address then some (pos 0) else reward_of tx

  abbrev pub sum_of : (Tx → Option ℤ) → List Tx → Option ℤ
  sum_of f [] = some (pos 0)
  sum_of f (tx ∷ txs) = f tx ⊕ sum_of f txs

  -- What the transactions add to the totals.
  record Added (txs : List Tx) (t t' : Totals) : Type 0 where
    pub hashes : t'.tx_hashs ≡ t.tx_hashs ++ map (λ (tx : Tx). tx.id) txs
    pub rewards : value t'.reward ≡ value t.reward ⊕ sum_of reward_of txs
    pub paid : value t'.actual_reward ≡ value t.actual_reward ⊕ sum_of paid_for txs

  add_tx-paid :
      (tx : Tx) (t : Totals)
      → value (add_tx tx t).actual_reward ≡ value t.actual_reward ⊕ paid_for tx
  unfolding add_tx
  add_tx-paid tx t = elim (Bool-cases (same_text tx.origin zero_address)) [
    | inl none_paid ↦ rw none_paid (sym (plus_zero (value t.actual_reward)))
    | inr other ↦ rw other (e.value-plus t.actual_reward (read_number tx.reward))
  ]

  from_zero : (x : Option ℤ) → value big_zero ⊕ x ≡ x
  from_zero x = ap (λ z. z ⊕ x) e.value-big_zero ∙ plus_comm (some (pos 0)) x ∙ plus_zero x

  Added-none : (t : Totals) → Added [] t t
  Added-none t = record {
    hashes = sym (append-nil t.tx_hashs);
    rewards = sym (plus_zero (value t.reward));
    paid = sym (plus_zero (value t.actual_reward));
  }

  Added-more :
      (tx : Tx) (txs : List Tx) (t t' : Totals) → Added txs (add_tx tx t) t' → Added (tx ∷ txs) t t'
  unfolding add_tx
  Added-more tx txs t t' h = record {
    hashes = h.hashes ∙ append_assoc t.tx_hashs (tx.id ∷ []) (map (λ (x : Tx). x.id) txs);
    rewards =
        h.rewards
        ∙ ap (λ x. x ⊕ sum_of reward_of txs) (e.value-plus t.reward (read_number tx.reward))
        ∙ plus_assoc (value t.reward) (reward_of tx) (sum_of reward_of txs);
    paid =
        h.paid
        ∙ ap (λ x. x ⊕ sum_of paid_for txs) (add_tx-paid tx t)
        ∙ plus_assoc (value t.actual_reward) (paid_for tx) (sum_of paid_for txs);
  }

  module _ (chain : Chain) (network : Network) (W : Type 0)
      (process_tx : ChainBlock → ℕ → Tx → Exec (AccountCache × W) (Unit {0})) where
    abbrev State : Type 0
    State = Produced chain network W process_tx

    process_txs-Added :
        (blk : ChainBlock) (i : ℕ) (txs : List Tx) (t : Totals) (s : State) {t' : Totals}
        → (process_txs chain network W process_tx blk i txs t s).0 ≡ ok t'
        → Added txs t t'
    unfolding process_txs pure
    process_txs-Added blk i [] t s {t' = t'} h = let is : t ≡ t' = cc in rw (← is) (Added-none t)
    process_txs-Added blk i (tx ∷ txs) t s {t' = t'} h =
        let pay =
          on_accounts chain network W process_tx
            (AccountCache.minus tx.gas_payer mtr (read_number tx.paid) (concise blk)) in
        let rest = process_txs chain network W process_tx blk (suc i) txs (add_tx tx t) in
        let first = run_tx chain network W process_tx blk i tx in
        let (_, both, after, _) = >>=-ok (first >> pay) (λ _. rest) s h in
        Added-more tx txs t t'
          (process_txs-Added blk (suc i) txs (add_tx tx t) ((first >> pay) s).1 after)

    -- The blocks that are kept are not changed.
    abbrev Keeps : {A : Type 0} → Exec State A → Type 0
    Keeps m = (l : List Block) → Preserves (λ (s : State). s.blocks_cache ≡ l) m

    process_txs-Keeps :
        (blk : ChainBlock) (i : ℕ) (txs : List Tx) (t : Totals)
        → Keeps (process_txs chain network W process_tx blk i txs t)
    unfolding process_txs pure run_tx on_accounts
    process_txs-Keeps blk i [] t l = record { from_state = λ s h. h }
    process_txs-Keeps blk i (tx ∷ txs) t l =
        Preserves-bind _ _
          (Preserves-bind _ _ (record { from_state = λ s h. h })
            (λ _. record { from_state = λ s h. h }))
          (λ _. process_txs-Keeps blk (suc i) txs (add_tx tx t) l)

    changes_of-Keeps : (blk : ChainBlock) → Keeps (changes_of chain network W process_tx blk)
    unfolding changes_of
    changes_of-Keeps blk l = record {
      from_state = λ s h. elim (Bool-cases (ltb 0 blk.number)) [
        | inl later ↦ elim (Option-cases (chain.get_block blk.parent_id)) [
          | inl failed ↦ rw (later, failed) h
          | inr (prev, got) ↦ rw (later, got) h
        ]
        | inr initial ↦ rw initial h
      ];
    }

    pay_reward-Keeps :
        (blk : ChainBlock) (actual : BigNumber)
        → Keeps (pay_reward chain network W process_tx blk actual)
    unfolding pay_reward on_accounts
    pay_reward-Keeps blk actual l = record {
      from_state = λ s h. elim (Bool-cases (is_less_than big_zero actual)) [
        | inl paid ↦ rw paid h
        | inr nothing ↦ rw nothing h
      ];
    }

    pow_blocks_of-Keeps : (blk : ChainBlock) → Keeps (pow_blocks_of chain network W process_tx blk)
    unfolding pow_blocks_of
    pow_blocks_of-Keeps blk l = record { from_state = λ s h. ground arith }

    update_committee_end_block-Keeps :
        (epoch : ℕ) (end_block : BlockConcise)
        → Keeps (update_committee_end_block chain network W process_tx epoch end_block)
    unfolding update_committee_end_block
    update_committee_end_block-Keeps epoch end_block l = record { from_state = λ s h. ground arith }

    update_committee-Keeps :
        (blk : ChainBlock) → Keeps (update_committee chain network W process_tx blk)
    unfolding update_committee
    update_committee-Keeps blk l = record {
      from_state = λ s h. elim (List-cases blk.committee) [
        | inl alone ↦ rw alone h
        | inr (m, ms, members) ↦ elim (Bool-cases (ltb 0 blk.epoch_id)) [
          | inl later ↦ elim (Option-cases (chain.get_block_from_rest blk.last_kblock_height)) [
            | inl failed ↦ rw (members, later, failed) h
            | inr (prev, got) ↦
                rw (members, later, got)
                  ((update_committee_end_block-Keeps blk.epoch_id (concise prev) l).from_state _ h)
          ]
          | inr initial ↦ rw (members, initial) h
        ]
      ];
    }

    -- If processBlock returns, then it has kept one more block, the one that it was given, with the
    -- identifiers of its transactions in their order, the sum of their rewards, and as the reward that
    -- is paid the sum of the rewards of those that do not come from the zero address.
    pub process_block-made :
        (blk : ChainBlock) (s : Produced chain network W process_tx)
        → (process_block chain network W process_tx blk s).0 ≡ ok tt
        → (b : Block) × ((process_block chain network W process_tx blk s).1.blocks_cache
            ≡ s.blocks_cache ++ b ∷ [])
          × (b.source ≡ blk)
          × (b.tx_hashs ≡ map (λ (tx : Tx). tx.id) blk.transactions)
          × (value b.reward ≡ sum_of reward_of blk.transactions)
          × (value b.actual_reward ≡ sum_of paid_for blk.transactions)
    unfolding process_block keep_block made_block
    process_block-made blk s h =
        let open_block = process_txs chain network W process_tx blk 0 blk.transactions no_totals in
        let (c, _, h₁, e₁) = >>=-ok (changes_of chain network W process_tx blk) _ s h in
        let (t, totals, h₂, e₂) = >>=-ok open_block _ _ h₁ in
        let (_, _, h₃, e₃) =
          >>=-ok (pay_reward chain network W process_tx blk t.actual_reward) _ _ h₂ in
        let (pow_blocks, _, h₄, e₄) =
          >>=-ok (pow_blocks_of chain network W process_tx blk) _ _ h₃ in
        let (_, _, _, e₅) = >>=-ok (update_committee chain network W process_tx blk) _ _ h₄ in
        let l = s.blocks_cache in
        let kept = (update_committee-Keeps blk l).from_state _ (
          (pow_blocks_of-Keeps blk l).from_state _ (
            (pay_reward-Keeps blk t.actual_reward l).from_state _ (
              (process_txs-Keeps blk 0 blk.transactions no_totals l).from_state _
                ((changes_of-Keeps blk l).from_state s refl)))) in
        let added = process_txs-Added blk 0 blk.transactions no_totals _ totals in
        let b : Block = made_block chain network W process_tx blk c t pow_blocks in
        (
          b,
          ap (λ (x : State). x.blocks_cache) (e₁ ∙ e₂ ∙ e₃ ∙ e₄ ∙ e₅) ∙ ap (λ x. x ++ b ∷ []) kept,
          refl,
          added.hashes,
          added.rewards ∙ from_zero (sum_of reward_of blk.transactions),
          added.paid ∙ from_zero (sum_of paid_for blk.transactions),
        )
