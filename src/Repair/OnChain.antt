-- ===== src/Repair/OnChain.antt =====
-- Accounts that are corrected have the amounts that the node reports.
use scan_service.Prelude.{
  ℕ, ◌≡◌, refl, ap, sym, subst, ◌∙◌, true, false, some, List, [], ◌∷◌, All, inl, inr, ◌⊎◌,
  Bool-cases, Option-cases,
}
use scan_service.Prelude.Text.{Text, same_text, same_text_iff, same_text_refl}
use scan_service.Prelude.Exec.{ok, err, node_failed, pure, >>=-ok}
use scan_service.Env.{Env}
use scan_service.Env.Model.{BlockConcise, Account, ChainAccount}
use scan_service.AccountCache.{is_off_chain, correct}
use scan_service.AccountCache.Corrected.{Agrees, Agrees-on_chain, Agrees-correct}
use scan_service.Repair.{Database, Queries, fix_account, fix_accounts}

module _ ⦃e : Env⦄ where
  open e use {BigNumber, to_fixed, value}

  -- The account of an address stands in the collection with the amounts that the node reports.
  pub record IsOnChain (n : ℕ) (db : e.accounts.Store) (address : Text) : Type 0 where
    pub account : Account BigNumber
    pub chain : ChainAccount BigNumber
    pub stored : e.accounts.find_one address db ≡ some account
    pub reported : e.get_account address n ≡ some chain
    pub agrees : Agrees chain account

  module _ (queries : Queries) (n : ℕ) (block : BlockConcise)
      (found : queries.find_by_number n ≡ some block) where
    -- What a call that returns has done.
    record Fixed (a : Account BigNumber) (s s' : Database) : Type 0 where
      pub chain : ChainAccount BigNumber
      pub reported : e.get_account a.address n ≡ some chain
      pub done :
          ((is_off_chain a chain ≡ true)
            × (s'.accounts ≡ e.accounts.save a.address (correct chain block a) s.accounts))
          ⊎ ((is_off_chain a chain ≡ false) × (s'.accounts ≡ s.accounts))

    fix_account-Fixed :
        (a : Account BigNumber) (s : Database)
        → (fix_account queries a n s).0 ≡ ok tt
        → Fixed a s (fix_account queries a n s).1
    unfolding fix_account
    fix_account-Fixed a s h = elim (Option-cases (e.get_account a.address n)) [
      | inl failed ↦
          let thrown : (fix_account queries a n s).0 ≡ err node_failed =
            rw (found, failed, fix_account) refl in
          absurd cc
      | inr (c, reported) ↦ elim (Bool-cases (is_off_chain a c)) [
        | inl off ↦ record {
          chain = c;
          reported = reported;
          done = inl (off, rw (found, reported, off, fix_account) refl);
        }
        | inr on ↦ record {
          chain = c;
          reported = reported;
          done = inr (on, rw (found, reported, on, fix_account) refl);
        }
      ]
    ]

    -- Stored as it was read, or already as on the chain.
    Ready : e.accounts.Store → Account BigNumber → Type 0
    Ready db a = (e.accounts.find_one a.address db ≡ some a) ⊎ IsOnChain n db a.address

    IsOnChain-saved :
        (a : Account BigNumber) (c : ChainAccount BigNumber) (db : e.accounts.Store)
        → e.get_account a.address n ≡ some c
        → is_off_chain a c ≡ true
        → IsOnChain n (e.accounts.save a.address (correct c block a) db) a.address
    IsOnChain-saved a c db reported off = record {
      account = correct c block a;
      chain = c;
      stored =
          e.accounts.find_one-save a.address a.address (correct c block a) db
          ∙ rw (same_text_refl a.address) refl;
      reported = reported;
      agrees = Agrees-correct c block a off;
    }

    -- What a step does to the account of an address.
    step_at :
        (a : Account BigNumber) (s s' : Database) (address : Text)
        → Fixed a s s'
        → IsOnChain n s'.accounts address
          ⊎ (e.accounts.find_one address s'.accounts ≡ e.accounts.find_one address s.accounts)
    step_at a s s' address h = elim h.done [
      | inl (off, saved) ↦ elim (Bool-cases (same_text a.address address)) [
        | inl same ↦
            let at : a.address ≡ address = (same_text_iff a.address address).0 same in
            rw (saved, ← at) (inl (IsOnChain-saved a h.chain s.accounts h.reported off))
        | inr other ↦ rw saved (
            inr (
              e.accounts.find_one-save a.address address (correct h.chain block a) s.accounts
              ∙ rw other refl))
      ]
      | inr (on, unchanged) ↦ rw unchanged (inr refl)
    ]

    IsOnChain-kept :
        (a : Account BigNumber) (s s' : Database) (address : Text)
        → Fixed a s s'
        → IsOnChain n s.accounts address
        → IsOnChain n s'.accounts address
    IsOnChain-kept a s s' address h before = elim (step_at a s s' address h) [
      | inl after ↦ after
      | inr same ↦ record {
        account = before.account;
        chain = before.chain;
        stored = same ∙ before.stored;
        reported = before.reported;
        agrees = before.agrees;
      }
    ]

    Ready-kept :
        (a : Account BigNumber) (s s' : Database) (b : Account BigNumber)
        → Fixed a s s'
        → Ready s.accounts b
        → Ready s'.accounts b
    unfolding Ready
    Ready-kept a s s' b h (inl stored) = elim (step_at a s s' b.address h) [
      | inl after ↦ inr after
      | inr same ↦ inl (same ∙ stored)
    ]
    Ready-kept a s s' b h (inr before) = inr (IsOnChain-kept a s s' b.address h before)

    IsOnChain-Fixed :
        (a : Account BigNumber) (s s' : Database)
        → Fixed a s s'
        → Ready s.accounts a
        → IsOnChain n s'.accounts a.address
    unfolding Ready
    IsOnChain-Fixed a s s' h (inr before) = IsOnChain-kept a s s' a.address h before
    IsOnChain-Fixed a s s' h (inl stored) = elim h.done [
      | inl (off, saved) ↦ rw saved (IsOnChain-saved a h.chain s.accounts h.reported off)
      | inr (on, unchanged) ↦ record {
        account = a;
        chain = h.chain;
        stored = ap (λ db. e.accounts.find_one a.address db) unchanged ∙ stored;
        reported = h.reported;
        agrees = Agrees-on_chain h.chain a on;
      }
    ]

    All-Ready :
        (a : Account BigNumber) (s s' : Database) (l : List (Account BigNumber))
        → Fixed a s s'
        → All (Ready s.accounts) l
        → All (Ready s'.accounts) l
    All-Ready a s s' [] h all = tt
    All-Ready a s s' (b ∷ l) h (one, rest) = (Ready-kept a s s' b h one, All-Ready a s s' l h rest)

    fix_accounts-kept :
        (l : List (Account BigNumber)) (s : Database) (address : Text)
        → IsOnChain n s.accounts address
        → (fix_accounts queries n l s).0 ≡ ok tt
        → IsOnChain n (fix_accounts queries n l s).1.accounts address
    unfolding fix_accounts pure
    fix_accounts-kept [] s address h r = h
    fix_accounts-kept (a ∷ l) s address h r =
        let (_, one, rest, after) =
          >>=-ok (fix_account queries a n) (λ _. fix_accounts queries n l) s r in
        let s' = (fix_account queries a n s).1 in
        rw after (
          fix_accounts-kept l s' address
            (IsOnChain-kept a s s' address (fix_account-Fixed a s one) h) rest)

    fix_accounts-Ready :
        (l : List (Account BigNumber)) (s : Database)
        → All (Ready s.accounts) l
        → (fix_accounts queries n l s).0 ≡ ok tt
        → All
            (λ (a : Account BigNumber).
              IsOnChain n (fix_accounts queries n l s).1.accounts a.address)
            l
    unfolding fix_accounts pure
    fix_accounts-Ready [] s all r = tt
    fix_accounts-Ready (a ∷ l) s (ready, all) r =
        let (_, one, rest, after) =
          >>=-ok (fix_account queries a n) (λ _. fix_accounts queries n l) s r in
        let s' = (fix_account queries a n s).1 in
        let fixed = fix_account-Fixed a s one in
        subst
          (λ (t : Database).
            All (λ (b : Account BigNumber). IsOnChain n t.accounts b.address) (a ∷ l))
          (sym after)
          (
            fix_accounts-kept l s' a.address (IsOnChain-Fixed a s s' fixed ready) rest,
            fix_accounts-Ready l s' (All-Ready a s s' l fixed all) rest,
          )

    All-Ready_stored :
        (db : e.accounts.Store) (l : List (Account BigNumber))
        → All (λ (a : Account BigNumber). e.accounts.find_one a.address db ≡ some a) l
        → All (Ready db) l
    unfolding Ready
    All-Ready_stored db [] h = tt
    All-Ready_stored db (a ∷ l) (one, rest) = (inl one, All-Ready_stored db l rest)

    -- If there is a block of the number and the accounts of the list are those of the collection, then
    -- after the loop of fixAccount over the list, where it returns, every one of them stands in the
    -- collection with the four amounts that the node reports of its address at this number.
    pub fix_accounts-IsOnChain :
        (l : List (Account BigNumber)) (s : Database)
        → All (λ (a : Account BigNumber). e.accounts.find_one a.address s.accounts ≡ some a) l
        → (fix_accounts queries n l s).0 ≡ ok tt
        → All
            (λ (a : Account BigNumber).
              IsOnChain n (fix_accounts queries n l s).1.accounts a.address)
            l
    fix_accounts-IsOnChain l s stored r =
        fix_accounts-Ready l s (All-Ready_stored s.accounts l stored) r
