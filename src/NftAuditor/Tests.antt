-- ===== src/NftAuditor/Tests.antt =====
-- Runs of the auditor, and its theorems at concrete inputs.
use scan_service.Prelude.{◌≡◌, refl, none, some, List, [], ◌∷◌}
use scan_service.Prelude.Int.{pos}
use scan_service.Prelude.Text.{codes}
use scan_service.Prelude.Dict.{get}
use scan_service.Prelude.Exec.{ok}
use scan_service.Env.Model.{NftBalance}
use scan_service.Samples.{sample, block_1}
use scan_service.NftAuditor.{NftBalanceAuditor, minus_nft, split_key}
use scan_service.NftAuditor.Audited.{IsAudited, auditor_minus_nft-IsAudited}

split_run : split_key (codes "0xaa_0xc0") ≡ (codes "0xaa", some (codes "0xc0"))
unfolding split_key
split_run = refl

abbrev empty : NftBalanceAuditor ⦃e = sample⦄
empty = record { bals = []; last_updates = []; db = λ k. none }

empty-IsAudited : IsAudited empty
unfolding get
empty-IsAudited = record { holding = λ k l h. cc }

abbrev one_cat : List NftBalance
one_cat = record { token_id = codes "7"; value = pos 1 } ∷ []

auditor_minus_nft-IsAudited_example :
    ((minus_nft (codes "a") (codes "c") one_cat block_1 empty).0 ≡ ok tt)
    × IsAudited (minus_nft (codes "a") (codes "c") one_cat block_1 empty).1
auditor_minus_nft-IsAudited_example =
    auditor_minus_nft-IsAudited (codes "a") (codes "c") one_cat block_1 empty empty-IsAudited
