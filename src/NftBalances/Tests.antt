-- ===== src/NftBalances/Tests.antt =====
-- Runs of `mergeNFTBalances`, and its theorems at concrete inputs.
use scan_service.Prelude.{◌≡◌, refl, true, false, List, [], ◌∷◌, arith}
use scan_service.Prelude.Int.{pos, ◌+ℤ◌, ◌-ℤ◌}
use scan_service.Prelude.Number.{limit, add_number, sub_number, to_number, round_ℕ}
use scan_service.Prelude.Text.{codes, same_text, array_index}
use scan_service.Prelude.Dict.{get, put}
use scan_service.Env.Model.{NftBalance}
use scan_service.NftBalances.{merge_nft_balances, merge_one}
use scan_service.NftBalances.Amounts.{last_value, total, holding, holding-merge_plus}
use scan_service.NftBalances.Holdings.{IsHolding, merge_nft_balances-IsHolding, holding-merge_undo}

abbrev seven_and_two : List NftBalance
seven_and_two =
    record { token_id = codes "7"; value = pos 3 }
    ∷ record { token_id = codes "2"; value = pos 1 }
    ∷ []

abbrev two_and_nine : List NftBalance
two_and_nine =
    record { token_id = codes "2"; value = pos 4 }
    ∷ record { token_id = codes "9"; value = pos 1 }
    ∷ []

-- The tokens come out in the order of their numbers.
merge_run :
    merge_nft_balances seven_and_two two_and_nine true
    ≡ record { token_id = codes "2"; value = pos 5 }
      ∷ record { token_id = codes "7"; value = pos 3 }
      ∷ record { token_id = codes "9"; value = pos 1 }
      ∷ []
unfolding merge_nft_balances merge_one get put same_text array_index add_number to_number round_ℕ
    ◌+ℤ◌
merge_run = refl

-- Taking more than is held, or of a token that is not held, is not an error.
take_run :
    merge_nft_balances seven_and_two two_and_nine false
    ≡ record { token_id = codes "7"; value = pos 3 } ∷ []
unfolding merge_nft_balances merge_one get put same_text array_index sub_number to_number round_ℕ
    ◌-ℤ◌
take_run = refl

holding-merge_plus_example :
    holding (codes "2") (merge_nft_balances seven_and_two two_and_nine true)
    ≡ holding (codes "2") seven_and_two +ℤ total (codes "2") two_and_nine
unfolding last_value total same_text ◌+ℤ◌
holding-merge_plus_example =
    holding-merge_plus seven_and_two two_and_nine (codes "2") (omega arith) (omega arith)
      (omega arith)

-- One more than 2 ^ 53 is lost.
rounded_run :
    holding (codes "2") (
      merge_nft_balances
        (record { token_id = codes "2"; value = pos limit } ∷ [])
        (record { token_id = codes "2"; value = pos 1 } ∷ [])
        true)
    ≡ pos limit
unfolding merge_nft_balances merge_one get put same_text array_index last_value add_number to_number
    round_ℕ ◌+ℤ◌
rounded_run = refl

merge_nft_balances-IsHolding_example :
    IsHolding (merge_nft_balances seven_and_two two_and_nine true)
merge_nft_balances-IsHolding_example = merge_nft_balances-IsHolding seven_and_two two_and_nine true

holding-merge_undo_example :
    holding
      (codes "2")
      (merge_nft_balances (merge_nft_balances seven_and_two two_and_nine true) two_and_nine false)
    ≡ holding (codes "2") seven_and_two
unfolding last_value total same_text ◌+ℤ◌
holding-merge_undo_example =
    holding-merge_undo seven_and_two two_and_nine (codes "2")
      (omega arith, refl, (omega arith, refl, tt)) (omega arith) (omega arith)
