-- ===== src/NftBalances/Holdings.antt =====
-- The lists that a merge returns, and a merge undone.
use scan_service.Prelude.{
  ◌≡◌, refl, ap, sym, subst, ◌∙◌, Bool, true, false, Option, none, some, List, [], ◌∷◌, arith,
}
use scan_service.Prelude.Int.{ℤ, pos, ◌+ℤ◌, ◌-ℤ◌, ◌≤ℤ◌, int_laws}
use scan_service.Prelude.Number.{limit}
use scan_service.Prelude.Text.{Text}
use scan_service.Prelude.Dict.{Dict, get, has, IsUnique}
use scan_service.Env.Model.{NftBalance}
use scan_service.NftBalances.{collect, merge_nft_balances}
use scan_service.NftBalances.Amounts.{
  AreCounts, total_nonneg, holding-merge_plus, last_value, holding, total, floored, positive,
  merged_IsUnique, last_value-merge_plus, holding-merge_minus,
}

-- Every value is above zero, and no token is listed twice.
abbrev pub IsHolding : List NftBalance → Type 0
IsHolding [] = Unit
IsHolding (b ∷ l) = (pos 1 ≤ℤ b.value) × (last_value b.token_id l ≡ none) × IsHolding l

absent-collect : (k : Text) (m : Dict ℤ) → has k m ≡ false → last_value k (collect m) ≡ none
unfolding last_value collect get
absent-collect k [] h = refl
absent-collect k ((j, v) ∷ m) h = ground (arith, absent-collect k m)

collect-IsHolding : (m : Dict ℤ) → IsUnique m → IsHolding (collect m)
unfolding collect
collect-IsHolding [] u = tt
collect-IsHolding ((j, v) ∷ m) u = ground (arith, collect-IsHolding m u.1, absent-collect j m u.0)

-- Whatever the lists are, a merge returns a list with values above zero in which no token is
-- listed twice.
pub merge_nft_balances-IsHolding :
    (origin delta : List NftBalance) (plus : Bool)
    → IsHolding (merge_nft_balances origin delta plus)
unfolding merge_nft_balances
merge_nft_balances-IsHolding origin delta plus =
    collect-IsHolding _ (merged_IsUnique origin delta plus)

holding_nonneg : (k : Text) (l : List NftBalance) → IsHolding l → pos 0 ≤ℤ holding k l
unfolding last_value
holding_nonneg k [] h = omega arith
holding_nonneg k (b ∷ l) h = ground (arith, holding_nonneg k l h.2)

undo :
    (h t : ℤ)
    → pos 0 ≤ℤ h
    → pos 0 ≤ℤ t
    → (elim (positive (h +ℤ t)) [ none ↦ pos 0 | some v ↦ floored (v -ℤ t) ]) ≡ h
unfolding positive
undo h t hh ht = grind int_laws

-- If a list has values above zero and no token twice, no delta is below zero, and what the list holds
-- of a token and what the deltas bring are together at most 2 ^ 53, then the deltas added and taken
-- again leave of the token what the list held.
pub holding-merge_undo :
    (origin delta : List NftBalance) (k : Text)
    → IsHolding origin
    → AreCounts delta
    → holding k origin +ℤ total k delta ≤ℤ pos limit
    → holding k (merge_nft_balances (merge_nft_balances origin delta true) delta false)
      ≡ holding k origin
holding-merge_undo origin delta k h d bound =
    let merged = merge_nft_balances origin delta true in
    let nonneg = holding_nonneg k origin h in
    let brought = total_nonneg k delta d in
    let both = holding-merge_plus origin delta k d nonneg bound in
    holding-merge_minus merged delta k d (subst (λ z. z ≤ℤ pos limit) (sym both) bound)
      (subst (λ z. total k delta ≤ℤ z +ℤ pos limit) (sym both) (omega int_laws))
    ∙ ap (λ (o : Option ℤ). elim o [ none ↦ pos 0 | some v ↦ floored (v -ℤ total k delta) ])
        (last_value-merge_plus origin delta k d nonneg bound)
    ∙ undo (holding k origin) (total k delta) nonneg brought
