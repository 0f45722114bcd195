-- ===== src/AccountCache/Corrected.antt =====
-- `fixAccount` against the account of the node.
use scan_service.Prelude.{Bool-cases, inl, inr, ◌≡◌, refl, true, false, arith}
use scan_service.Prelude.Text.{same_text, same_text_iff}
use scan_service.Env.{Env}
use scan_service.Env.Model.{BlockConcise, Account, ChainAccount}
use scan_service.AccountCache.{is_off_chain, correct}

module _ ⦃e : Env⦄ where
  open e use {BigNumber, to_fixed, value}

  -- An account has the amounts of the chain.
  pub record Agrees (c : ChainAccount BigNumber) (a : Account BigNumber) : Type 0 where
    pub same_mtr : value a.mtr_balance ≡ value c.energy
    pub same_mtrg : value a.mtrg_balance ≡ value c.balance
    pub same_mtr_bounded : value a.mtr_bounded ≡ value c.bound_energy
    pub same_mtrg_bounded : value a.mtrg_bounded ≡ value c.bound_balance

  same_printed : (a b : BigNumber) → same_text (to_fixed a) (to_fixed b) ≡ true → value a ≡ value b
  same_printed a b h = e.to_fixed_injective a b ((same_text_iff (to_fixed a) (to_fixed b)).0 h)

  pub Agrees-on_chain :
      (c : ChainAccount BigNumber) (a : Account BigNumber) → is_off_chain a c ≡ false → Agrees c a
  unfolding is_off_chain
  Agrees-on_chain c a h = record {
    same_mtr = same_printed _ _ (ground arith);
    same_mtrg = same_printed _ _ (ground arith);
    same_mtr_bounded = same_printed _ _ (ground arith);
    same_mtrg_bounded = same_printed _ _ (ground arith);
  }

  pub Agrees-correct :
      (c : ChainAccount BigNumber) (block : BlockConcise) (a : Account BigNumber)
      → is_off_chain a c ≡ true
      → Agrees c (correct c block a)
  unfolding correct
  Agrees-correct c block a h = rw h (record {
    same_mtr = refl;
    same_mtrg = refl;
    same_mtr_bounded = refl;
    same_mtrg_bounded = refl;
  })

  pub Agrees-corrected :
      (c : ChainAccount BigNumber) (block : BlockConcise) (a : Account BigNumber)
      → Agrees c (correct c block a)
  unfolding correct
  Agrees-corrected c block a = elim (Bool-cases (is_off_chain a c)) [
    | inl off ↦ Agrees-correct c block a off
    | inr on ↦ rw (on, correct) (Agrees-on_chain c a on)
  ]
