-- ===== src/TxDigests/Sums.antt =====
-- The digests of a KBlock transaction have what its transfers move.
use scan_service.Prelude.{
  ℕ, suc, ◌==◌, ◌≡◌, refl, ap, sym, ◌∙◌, Option, none, some, List, [], ◌∷◌, inl, inr, if◌then◌else◌,
  Bool-cases, Option-cases, get_elem?,
}
use scan_service.Prelude.Int.{ℤ, pos, ◌+ℤ◌, int_laws}
use scan_service.Prelude.Dict.{Dict, get, put}
use scan_service.Prelude.Dict.Sum.{sum, sum-put_new, sum-put_old}
use scan_service.Env.{Env}
use scan_service.Env.Numeric.{lift₂}
use scan_service.Env.Model.{BlockConcise}
use scan_service.Env.Decoding.{Transfer}
use scan_service.TxOutputs.{Output, Tx}
use scan_service.TxDigests.{
  Hashes, TxDigest, transfer_digest, merge_digest, add_transfer, add_transfers, is_kblock_clause,
  kblock_digests,
}

-- Sums of amounts, where NaN is absorbing.
infixl 65 ◌⊕◌
abbrev pub ◌⊕◌ : Option ℤ → Option ℤ → Option ℤ
a ⊕ b = lift₂ ◌+ℤ◌ a b

pub plus_assoc : (a b c : Option ℤ) → a ⊕ b ⊕ c ≡ a ⊕ (b ⊕ c)
plus_assoc (some a) (some b) (some c) =
    let h : a +ℤ b +ℤ c ≡ a +ℤ (b +ℤ c) = omega int_laws in ap (λ x. some x) h
plus_assoc (some a) (some b) none = refl
plus_assoc (some a) none (some c) = refl
plus_assoc (some a) none none = refl
plus_assoc none b c = refl

pub plus_comm : (a b : Option ℤ) → a ⊕ b ≡ b ⊕ a
plus_comm (some a) (some b) = let h : a +ℤ b ≡ b +ℤ a = omega int_laws in ap (λ x. some x) h
plus_comm (some a) none = refl
plus_comm none (some b) = refl
plus_comm none none = refl

plus_swap : (a b c : Option ℤ) → a ⊕ (b ⊕ c) ≡ b ⊕ a ⊕ c
plus_swap a b c = sym (plus_assoc a b c) ∙ ap (λ x. x ⊕ c) (plus_comm a b)

pub plus_zero : (a : Option ℤ) → a ⊕ some (pos 0) ≡ a
plus_zero (some a) = let h : a +ℤ pos 0 ≡ a = omega int_laws in ap (λ x. some x) h
plus_zero none = refl

module _ ⦃e : Env⦄ (hashes : Hashes) (tx : Tx) (block : BlockConcise) (tx_index : ℕ) where
  open e use {BigNumber, big_zero, plus, value, read_number}
  open hashes use {sha1_pair}

  -- The sum of one amount of the digests.
  abbrev pub total : (TxDigest hashes → BigNumber) → Dict (TxDigest hashes) → Option ℤ
  total amount m = sum ◌⊕◌ (some (pos 0)) (λ d. value (amount d)) m

  -- The sum of what the transfers give, and of those of the clauses that count.
  abbrev pub given_by : (Transfer → BigNumber) → List Transfer → Option ℤ
  given_by given [] = some (pos 0)
  given_by given (tr ∷ transfers) = value (given tr) ⊕ given_by given transfers

  abbrev pub given_in : (Transfer → BigNumber) → ℕ → List Output → Option ℤ
  given_in given i [] = some (pos 0)
  given_in given i (o ∷ outputs) =
      (if is_kblock_clause hashes tx block tx_index (get_elem? tx.clauses i)
        then given_by given o.transfers
        else some (pos 0))
      ⊕ given_in given (suc i) outputs

  module _ (amount : TxDigest hashes → BigNumber) (given : Transfer → BigNumber)
      (of_transfer : (i : ℕ) (tr : Transfer)
        → amount (transfer_digest hashes tx block tx_index i tr) ≡ given tr)
      (merges : (i : ℕ) (d old : TxDigest hashes)
        → amount (merge_digest hashes tx block tx_index i d old)
          ≡ plus (amount old) (amount d)) where
    add_transfer-total :
        (i : ℕ) (m : Dict (TxDigest hashes)) (tr : Transfer)
        → total amount (add_transfer hashes tx block tx_index i m tr)
          ≡ value (given tr) ⊕ total amount m
    unfolding add_transfer
    add_transfer-total i m tr =
        let d = transfer_digest hashes tx block tx_index i tr in
        let id = sha1_pair d.from d.to in
        elim (Option-cases (get id m)) [
          | inl new ↦
              let step : add_transfer hashes tx block tx_index i m tr ≡ put id d m =
                rw (new, add_transfer) refl in
              ap (total amount) step
              ∙ sum-put_new ◌⊕◌ (some (pos 0)) (λ x. value (amount x)) plus_assoc plus_comm id d m
                  new
              ∙ ap (λ x. value x ⊕ total amount m) (of_transfer i tr)
          | inr (old, found) ↦
              let merged = merge_digest hashes tx block tx_index i d old in
              let step : add_transfer hashes tx block tx_index i m tr ≡ put id merged m =
                rw (found, add_transfer) refl in
              ap (total amount) step
              ∙ sum-put_old ◌⊕◌ (some (pos 0)) (λ x. value (amount x)) plus_assoc plus_comm id
                  merged old (value (amount d)) m found
                  (ap value (merges i d old) ∙ e.value-plus (amount old) (amount d))
              ∙ ap (λ x. value x ⊕ total amount m) (of_transfer i tr)
        ]

    add_transfers-total :
        (i : ℕ) (transfers : List Transfer) (m : Dict (TxDigest hashes))
        → total amount (add_transfers hashes tx block tx_index i transfers m)
          ≡ given_by given transfers ⊕ total amount m
    unfolding add_transfers
    add_transfers-total i [] m = sym (plus_comm _ _ ∙ plus_zero (total amount m))
    add_transfers-total i (tr ∷ transfers) m =
        add_transfers-total i transfers (add_transfer hashes tx block tx_index i m tr)
        ∙ ap (λ x. given_by given transfers ⊕ x) (add_transfer-total i m tr)
        ∙ plus_swap (given_by given transfers) (value (given tr)) (total amount m)

    kblock_digests-total :
        (i : ℕ) (outputs : List Output) (m : Dict (TxDigest hashes))
        → total amount (kblock_digests hashes tx block tx_index i outputs m)
          ≡ given_in given i outputs ⊕ total amount m
    unfolding kblock_digests
    kblock_digests-total i [] m = sym (plus_comm _ _ ∙ plus_zero (total amount m))
    kblock_digests-total i (o ∷ outputs) m =
        elim (Bool-cases (is_kblock_clause hashes tx block tx_index (get_elem? tx.clauses i))) [
          | inl counts ↦ rw counts (
              kblock_digests-total (suc i) outputs
                (add_transfers hashes tx block tx_index i o.transfers m)
              ∙ ap (λ x. given_in given (suc i) outputs ⊕ x) (add_transfers-total i o.transfers m)
              ∙ plus_swap (given_in given (suc i) outputs) (given_by given o.transfers)
                  (total amount m))
          | inr passed ↦ rw passed (
              kblock_digests-total (suc i) outputs m
              ∙ ap (λ x. x ⊕ total amount m)
                  (sym (plus_comm _ _ ∙ plus_zero (given_in given (suc i) outputs))))
        ]

  -- What a transfer of a token gives.
  abbrev pub given_of : ℕ → Transfer → BigNumber
  given_of token tr = if tr.token == token then read_number tr.amount else big_zero

  -- The digests of a KBlock transaction have together as much MTR, and as much MTRG, as the transfers
  -- of those of its clauses that have script data: nothing is lost or counted twice where transfers
  -- of the same two accounts are put together.
  pub kblock_digests-conserves :
      (outputs : List Output)
      → let m = kblock_digests hashes tx block tx_index 0 outputs [] in
        (total (λ d. d.mtr) m ≡ given_in (given_of 0) 0 outputs)
        × (total (λ d. d.mtrg) m ≡ given_in (given_of 1) 0 outputs)
  unfolding transfer_digest merge_digest
  kblock_digests-conserves outputs = (
    kblock_digests-total (λ d. d.mtr) (given_of 0) (λ i tr. refl) (λ i d old. refl) 0 outputs []
        ∙ plus_zero _,
    kblock_digests-total (λ d. d.mtrg) (given_of 1) (λ i tr. refl) (λ i d old. refl) 0 outputs []
        ∙ plus_zero _,
  )
