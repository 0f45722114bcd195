-- ===== src/AccountCache/Withdraw.antt =====
-- withdraw of MTRG: what becomes of the owner's bounded amount.
use scan_service.Prelude.{◌≡◌, ◌≢◌, refl, false, Option, some, arith, ap, ◌∙◌}
use scan_service.Prelude.Int.{ℤ, pos_part, neg_part, ◌-ℤ◌, ◌≤ℤ◌, int_laws}
use scan_service.Prelude.Text.{Text, same_text, same_text_refl, same_text-false_comm, to_lower_case}
use scan_service.Prelude.Dict.{get, get-put}
use scan_service.Prelude.Exec.{ok, ◌>>◌, ◌>>=◌}
use scan_service.Env.{Env}
use scan_service.Env.Model.{mtrg, BlockConcise, Account}
use scan_service.AccountCache.{
  AccountCache, find_by_address, create, new_account, update_acct, set_default, fix_if_negative,
  touch, withdraw, withdraw_token,
}
use scan_service.AccountCache.View.{view}
use scan_service.AccountCache.Effects.{loaded, get-set_default, set_default-ok}
use scan_service.AccountCache.Transfer.{covered_of_value}

module _ ⦃e : Env⦄ where
  open e use {BigNumber, big_zero, is_less_than, value}

  module _ (addr j : Text) (block : BlockConcise) (s : AccountCache) where
    get-set_default_ne :
        same_text (to_lower_case addr) j ≡ false
        → get j (set_default addr block s).1.accts ≡ get j s.accts
    unfolding set_default find_by_address create new_account
    get-set_default_ne other = grind (arith, get-put)

  sub_cancel : (a b x : ℤ) {v : Option ℤ} → v ≡ some (a -ℤ x) → v ≡ some (b -ℤ x) → a ≡ b
  sub_cancel a b x h k =
      let p : a -ℤ x ≡ b -ℤ x = ground (arith, h, k) in
      omega (int_laws, ap pos_part p, ap neg_part p)

  module _ (own other : Text) (amount : BigNumber) (block : BlockConcise) (s : AccountCache)
      (a b : Account BigNumber) (found : get own s.accts ≡ some a)
      (found' : get other s.accts ≡ some b) (apart : same_text own other ≡ false)
      (fine : is_less_than (e.minus a.mtrg_balance amount) big_zero ≡ false) where
    withdraw_both :
        let (r, s') =
          (withdraw_token mtrg own other amount block >> touch own block >> touch other block) s in
        (r ≡ ok tt)
        × (get own s'.accts
            ≡ some (record a { mtrg_bounded = e.minus a.mtrg_balance amount; last_update = block }))
    unfolding withdraw_token touch fix_if_negative update_acct ◌>>=◌
    withdraw_both = grind (arith, get-put, same_text_refl, same_text-false_comm)

  withdraw_split :
      (owner recipient : Text) (amount : BigNumber) (block : BlockConcise) (s : AccountCache)
      → withdraw owner recipient mtrg amount block s
        ≡ (withdraw_token mtrg (to_lower_case owner) (to_lower_case recipient) amount block
              >> touch (to_lower_case owner) block
              >> touch (to_lower_case recipient) block)
            (set_default recipient block (set_default owner block s).1).1
  unfolding withdraw ◌>>=◌
  withdraw_split owner recipient amount block s =
      rw
        (set_default-ok owner block s, set_default-ok recipient block (set_default owner block s).1)

  -- A withdrawal of MTRG between two accounts that leaves the owner's new amount at zero or more
  -- returns, and the owner's bounded amount is then the *balance* less the amount. So where the
  -- balance and the bounded amount differ it is not the bounded amount less the amount.
  pub withdraw_takes_from_balance :
      (owner recipient : Text) (amount : BigNumber) (block : BlockConcise) (s : AccountCache)
      (balance bounded x : ℤ)
      → same_text (to_lower_case owner) (to_lower_case recipient) ≡ false
      → value (loaded owner block s).mtrg_balance ≡ some balance
      → value (loaded owner block s).mtrg_bounded ≡ some bounded
      → value amount ≡ some x
      → x ≤ℤ balance
      → balance ≢ bounded
      → let (r, s') = withdraw owner recipient mtrg amount block s in
        (r ≡ ok tt)
        × (a : Account BigNumber) × (view s' (to_lower_case owner) ≡ some a)
        × (value a.mtrg_bounded ≡ some (balance -ℤ x))
        × (value a.mtrg_bounded ≢ some (bounded -ℤ x))
  unfolding view
  withdraw_takes_from_balance owner recipient amount block s balance bounded x apart hb hd hx covers
        differ =
      let a = loaded owner block s in
      let after = e.minus a.mtrg_balance amount in
      let worth : value after ≡ some (balance -ℤ x) =
        rw (e.value-minus a.mtrg_balance amount, hb, hx) refl in
      let s1 = (set_default owner block s).1 in
      let s2 = (set_default recipient block s1).1 in
      let found : get (to_lower_case owner) s2.accts ≡ some a =
        get-set_default_ne recipient (to_lower_case owner) block s1 (same_text-false_comm _ _ apart)
        ∙ get-set_default owner block s in
      let found' = get-set_default recipient block s1 in
      let fine = covered_of_value after (balance -ℤ x) worth (omega int_laws) in
      let (r, shown) =
        withdraw_both (to_lower_case owner) (to_lower_case recipient) amount block s2 a
          (loaded recipient block s1) found found' apart fine in
      rw (withdraw_split owner recipient amount block s) (
        r,
        record a { mtrg_bounded = after; last_update = block },
        rw (shown, view) refl,
        worth,
        λ h. differ (sub_cancel balance bounded x worth h),
      )
