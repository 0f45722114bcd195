-- ===== src/NftAuditor/Audited.antt =====
-- The test for negative balances never fails.
use scan_service.Prelude.{
  ◌≡◌, refl, subst, Bool, true, false, some, List, [], ◌∷◌, inl, inr, arith, Bool-cases,
  Option-cases,
}
use scan_service.Prelude.Text.{Text, same_text, same_text_refl}
use scan_service.Prelude.Dict.{get, has, get-put}
use scan_service.Prelude.Exec.{ok}
use scan_service.Const.{zero_address}
use scan_service.Env.{Env}
use scan_service.Env.Model.{BlockConcise, NftBalance}
use scan_service.NftBalances.{merge_nft_balances}
use scan_service.NftBalances.Holdings.{IsHolding, merge_nft_balances-IsHolding}
use scan_service.TokenBalanceCache.{key_of}
use scan_service.NftAuditor.{
  NftBalanceAuditor, set_default, has_negative, merge_tested, plus_nft, minus_nft,
}

module _ ⦃e : Env⦄ where
  -- Every list has values above zero only, and no token twice.
  pub record IsAudited (s : NftBalanceAuditor) : Type 0 where
    pub holding : (k : Text) (l : List NftBalance) → get k s.bals ≡ some l → IsHolding l

  holding-has_negative : (l : List NftBalance) → IsHolding l → has_negative l ≡ false
  unfolding has_negative
  holding-has_negative [] h = refl
  holding-has_negative (b ∷ l) h = ground (arith, holding-has_negative l h.2)

  set_default-IsAudited :
      (k : Text) (block : BlockConcise) (s : NftBalanceAuditor)
      → IsAudited s
      → IsAudited (set_default k block s)
  unfolding set_default
  set_default-IsAudited k block s h = elim (Bool-cases (has k s.bals)) [
    | inl old ↦ rw (old, set_default) h
    | inr new ↦
        rw (new, set_default)
          (record {
            holding = λ j l found. elim (Bool-cases (same_text k j)) [
              | inl same ↦
                  let empty : [] ≡ l = ground (arith, found, same, get-put k j [] s.bals) in
                  subst IsHolding empty tt
              | inr other ↦ h.holding j l (ground (arith, found, other, get-put k j [] s.bals))
            ];
          })
  ]

  module _ (adds : Bool) (k : Text) (deltas : List NftBalance) (block : BlockConcise) where
    merge_tested_lem :
        (s : NftBalanceAuditor)
        → IsAudited s
        → has k s.bals ≡ true
        → ((merge_tested adds k deltas block s).0 ≡ ok tt)
          × IsAudited (merge_tested adds k deltas block s).1
    unfolding merge_tested
    merge_tested_lem s h known = elim (Option-cases (get k s.bals)) [
      | inl missing ↦ ground (arith, missing, known)
      | inr (held, found) ↦
          rw (found, merge_tested)
            (rw (holding-has_negative held (h.holding k held found)) (
              refl,
              record {
                holding = λ j l p. elim (Bool-cases (same_text k j)) [
                  | inl same ↦
                      let merged : merge_nft_balances held deltas adds ≡ l = ground (
                        arith,
                        p,
                        same,
                        get-put k j (merge_nft_balances held deltas adds) s.bals,
                      ) in
                      subst IsHolding merged (merge_nft_balances-IsHolding held deltas adds)
                  | inr other ↦ h.holding j l (
                      ground
                        (arith, p, other, get-put k j (merge_nft_balances held deltas adds) s.bals))
                ];
              },
            ))
    ]

  has-set_default :
      (k : Text) (block : BlockConcise) (s : NftBalanceAuditor)
      → has k (set_default k block s).bals ≡ true
  unfolding set_default
  has-set_default k block s = ground (arith, get-put k k [] s.bals, same_text_refl k)

  module _ (a t : Text) (deltas : List NftBalance) (block : BlockConcise) (s : NftBalanceAuditor)
      (audited : IsAudited s) where
    -- Where every list has values above zero and no token twice, plusNFT returns, whatever the
    -- deltas are, and the lists are so afterwards: the test for negative balances cannot fail.
    pub auditor_plus_nft-IsAudited :
        ((plus_nft a t deltas block s).0 ≡ ok tt) × IsAudited (plus_nft a t deltas block s).1
    unfolding plus_nft
    auditor_plus_nft-IsAudited =
        merge_tested_lem true (key_of a t) deltas block (set_default (key_of a t) block s)
          (set_default-IsAudited (key_of a t) block s audited)
          (has-set_default (key_of a t) block s)

    -- Where every list has values above zero and no token twice, minusNFT returns, whatever the
    -- deltas are, and the lists are so afterwards: taking more than is held is not found.
    pub auditor_minus_nft-IsAudited :
        ((minus_nft a t deltas block s).0 ≡ ok tt) × IsAudited (minus_nft a t deltas block s).1
    unfolding minus_nft
    auditor_minus_nft-IsAudited = elim (Bool-cases (same_text a zero_address)) [
      | inl zero ↦ rw (zero, minus_nft) (refl, audited)
      | inr other ↦
          rw (other, minus_nft)
            (merge_tested_lem false (key_of a t) deltas block (set_default (key_of a t) block s)
              (set_default-IsAudited (key_of a t) block s audited)
              (has-set_default (key_of a t) block s))
    ]
