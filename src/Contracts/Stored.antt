-- ===== src/Contracts/Stored.antt =====
-- What a save of the cache of contracts leaves in the collection.
use scan_service.Prelude.{
  ◌≡◌, refl, ap, sym, ◌∙◌, false, Option, none, some, List, [], ◌∷◌, ◌++◌, All, inl, inr,
  Bool-cases, Option-cases, if◌then◌else◌,
}
use scan_service.Prelude.Text.{Text, same_text, same_text_iff, same_text-false_comm, to_lower_case}
use scan_service.Prelude.Exec.{ok, err, contract_existed, ◌>>=◌, >>=-ok}
use scan_service.Env.{Env}
use scan_service.Env.Model.{Contract}
use scan_service.Contracts.{
  ContractCache, find_contract, is_destructed, redeployed, save_contract, save_each, save_contracts,
}

module _ ⦃e : Env⦄ where
  open e use {BigNumber}

  -- Every document stands under its own address.
  pub record IsAddressed (db : e.contracts.Store) : Type 0 where
    pub at :
        (k : Text) (c : Contract BigNumber) → e.contracts.find_one k db ≡ some c → c.address ≡ k

  pub save-IsAddressed :
      (x : Contract BigNumber) (db : e.contracts.Store)
      → IsAddressed db
      → IsAddressed (e.contracts.save x.address x db)
  save-IsAddressed x db keyed = record {
    at = λ k c found. by_key k c (sym (e.contracts.find_one-save x.address k x db) ∙ found);
  }
    where
      by_key :
          (k : Text) (c : Contract BigNumber)
          → (if same_text x.address k then some x else e.contracts.find_one k db) ≡ some c
          → c.address ≡ k
      by_key k c written = elim (Bool-cases (same_text x.address k)) [
        | inl own ↦
            let is_x : some x ≡ some c =
              sym (ap (λ b. if b then some x else e.contracts.find_one k db) own) ∙ written in
            let same : x ≡ c = cc in
            ap (λ (y : Contract BigNumber). y.address) (sym same)
            ∙ (same_text_iff x.address k).0 own
        | inr other ↦
            keyed.at k c
              (sym (ap (λ b. if b then some x else e.contracts.find_one k db) other) ∙ written)
      ]

  -- The addresses of the contracts are in lower case, and no two are the same.
  abbrev pub IsApart : Text → List (Contract BigNumber) → Type 0
  IsApart k l = All (λ (c : Contract BigNumber). same_text c.address k ≡ false) l

  abbrev pub AreApart : List (Contract BigNumber) → Type 0
  AreApart [] = Unit
  AreApart (c ∷ l) = (to_lower_case c.address ≡ c.address) × IsApart c.address l × AreApart l

  -- How a contract is saved where a document stands, and where none does.
  abbrev pub saved_over : Option (Contract BigNumber) → Contract BigNumber → Contract BigNumber
  saved_over none c = c
  saved_over (some ec) c = redeployed c

  found_at :
      (c ec : Contract BigNumber) (db : e.contracts.Store)
      → IsAddressed db
      → to_lower_case c.address ≡ c.address
      → find_contract c.address db ≡ some ec
      → ec.address ≡ c.address
  unfolding find_contract
  found_at c ec db keyed lower found = keyed.at (to_lower_case c.address) ec found ∙ lower

  saved_over-address :
      (o : Option (Contract BigNumber)) (c : Contract BigNumber)
      → (saved_over o c).address ≡ c.address
  unfolding redeployed
  saved_over-address none c = refl
  saved_over-address (some ec) c = refl

  module _ (before : List (Contract BigNumber)) (c : Contract BigNumber)
      (after : List (Contract BigNumber)) (s : ContractCache) (keyed : IsAddressed s.db)
      (lower : to_lower_case c.address ≡ c.address) where
    -- What stands under an address after one contract is saved.
    abbrev stands : Text → Option (Contract BigNumber)
    stands k =
        if same_text c.address k
        then some (saved_over (find_contract c.address s.db) c)
        else e.contracts.find_one k s.db

    replaced :
        (k : Text) (ec : Contract BigNumber)
        → ec.address ≡ c.address
        → (if same_text c.address k
            then some (redeployed c)
            else e.contracts.find_one k (e.contracts.delete_one ec.address s.db))
          ≡ (if same_text c.address k then some (redeployed c) else e.contracts.find_one k s.db)
    replaced k ec same = elim (Bool-cases (same_text c.address k)) [
      | inl own ↦ rw own refl
      | inr other ↦ rw other (
          e.contracts.find_one-delete_one ec.address k s.db
          ∙ ap (λ b. if b then none else e.contracts.find_one k s.db)
              (ap (λ a. same_text a k) same ∙ other))
    ]

    find_one-save_contract :
        (k : Text) (saved : Contract BigNumber)
        → (save_contract before c after s).0 ≡ ok saved
        → e.contracts.find_one k (save_contract before c after s).1.db ≡ stands k
    unfolding save_contract
    find_one-save_contract k saved returned = elim (Option-cases (find_contract c.address s.db)) [
      | inl missing ↦ rw (missing, save_contract) (e.contracts.find_one-save c.address k c s.db)
      | inr (ec, found) ↦ elim (Bool-cases (is_destructed ec)) [
        | inl destructed ↦
            rw (found, destructed, save_contract)
              (e.contracts.find_one-save c.address k (redeployed c) _
                ∙ replaced k ec (found_at c ec s.db keyed lower found))
        | inr live ↦
            let stops : (save_contract before c after s).0 ≡ err contract_existed =
              rw (found, live, save_contract) refl in
            absurd cc
      ]
    ]

    save_contract-IsAddressed :
        (saved : Contract BigNumber)
        → (save_contract before c after s).0 ≡ ok saved
        → IsAddressed (save_contract before c after s).1.db
    save_contract-IsAddressed saved returned = record {
      at = λ k d found. by_key k d (sym (find_one-save_contract k saved returned) ∙ found);
    }
      where
        by_key : (k : Text) (d : Contract BigNumber) → stands k ≡ some d → d.address ≡ k
        by_key k d written = elim (Bool-cases (same_text c.address k)) [
          | inl own ↦
              let x : Contract BigNumber = saved_over (find_contract c.address s.db) c in
              let is_saved : some x ≡ some d =
                sym (ap (λ b. if b then some x else e.contracts.find_one k s.db) own) ∙ written in
              let same : x ≡ d = cc in
              ap (λ (y : Contract BigNumber). y.address) (sym same)
              ∙ saved_over-address (find_contract c.address s.db) c
              ∙ (same_text_iff c.address k).0 own
          | inr other ↦ keyed.at k d (
              sym (
                ap
                  (λ b.
                    if b
                    then some (saved_over (find_contract c.address s.db) c)
                    else e.contracts.find_one k s.db)
                  other)
              ∙ written)
        ]

  -- What stands under `k` after the contracts of a list are saved, each over what stood before.
  abbrev pub saved_for :
      List (Contract BigNumber) → Text → e.contracts.Store → Option (Contract BigNumber)
  saved_for [] k db = e.contracts.find_one k db
  saved_for (c ∷ l) k db =
      if same_text c.address k
      then some (saved_over (find_contract c.address db) c)
      else saved_for l k db

  module _ (address k : Text) (db db' : e.contracts.Store) where
    -- The address is none of the list's.
    saved_for-apart :
        (l : List (Contract BigNumber))
        → IsApart address l
        → address ≡ k
        → saved_for l k db ≡ e.contracts.find_one k db
    saved_for-apart [] apart at = refl
    saved_for-apart (c ∷ l) apart at =
        let other : same_text c.address k ≡ false = rw (← at) apart.0 in
        rw other (saved_for-apart l apart.1 at)

    -- Two collections that differ at one address only.
    saved_for-frame :
        (l : List (Contract BigNumber))
        → ((j : Text)
            → same_text address j ≡ false
            → e.contracts.find_one j db' ≡ e.contracts.find_one j db)
        → IsApart address l
        → AreApart l
        → same_text address k ≡ false
        → saved_for l k db' ≡ saved_for l k db
    unfolding find_contract
    saved_for-frame [] same apart lowers other = same k other
    saved_for-frame (c ∷ l) same apart lowers other =
        let elsewhere =
          same (to_lower_case c.address)
            (rw (lowers.0) (same_text-false_comm c.address address apart.0)) in
        λ i.
          if same_text c.address k
          then some (saved_over (elsewhere i) c)
          else saved_for-frame l same apart.1 lowers.2 other i

  save_each-saved :
      (before l : List (Contract BigNumber)) (s : ContractCache) (k : Text)
      → IsAddressed s.db
      → AreApart l
      → (save_each before l s).0 ≡ ok tt
      → e.contracts.find_one k (save_each before l s).1.db ≡ saved_for l k s.db
  unfolding save_each ◌>>=◌
  save_each-saved before [] s k keyed apart returned = refl
  save_each-saved before (c ∷ l) s k keyed apart returned =
      let (saved, first, second, after) =
        >>=-ok (save_contract before c l) (λ x. save_each (before ++ x ∷ []) l) s returned in
      let t = (save_contract before c l s).1 in
      let one = λ (j : Text). find_one-save_contract before c l s keyed apart.0 j saved first in
      let rest =
        save_each-saved (before ++ saved ∷ []) l t k
          (save_contract-IsAddressed before c l s keyed apart.0 saved first) apart.2 second in
      ap (λ (x : ContractCache). e.contracts.find_one k x.db) after ∙ rest ∙ then_rest t.db one
    where
      then_rest :
          (db' : e.contracts.Store)
          → ((j : Text) → e.contracts.find_one j db' ≡ stands before c l s keyed apart.0 j)
          → saved_for l k db' ≡ saved_for (c ∷ l) k s.db
      then_rest db' one = elim (Bool-cases (same_text c.address k)) [
        | inl own ↦
            saved_for-apart c.address k db' s.db l apart.1 ((same_text_iff c.address k).0 own)
            ∙ one k
            ∙ rw own refl
        | inr other ↦ rw other (
            saved_for-frame c.address k s.db db' l (λ j apart_from. one j ∙ rw apart_from refl)
              apart.1 apart.2 other)
      ]

  -- Where the save of the cache of contracts returns, the addresses in the cache are in lower case
  -- and no two of them the same, and documents stand under their own address, then every contract of
  -- the cache stands in the collection, marked as redeployed if it takes the place of another, and
  -- no other document has changed.
  pub save_contracts-saved :
      (s : ContractCache) (k : Text)
      → IsAddressed s.db
      → AreApart s.contracts_cache
      → (save_contracts s).0 ≡ ok tt
      → e.contracts.find_one k (save_contracts s).1.db ≡ saved_for s.contracts_cache k s.db
  unfolding save_contracts
  save_contracts-saved s k keyed apart returned =
      save_each-saved [] s.contracts_cache s k keyed apart returned
