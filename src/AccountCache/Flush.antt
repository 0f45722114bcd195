-- ===== src/AccountCache/Flush.antt =====
-- `saveToDB` followed by `clean`: what the cache shows survives in the collection.
use scan_service.Prelude.{◌≡◌, refl, none, some, [], ◌∷◌, inl, inr, arith, Option-cases}
use scan_service.Prelude.Text.{
  Text, same_text_iff, same_text_refl, to_lower_case, to_lower_case_idem,
}
use scan_service.Prelude.Dict.{Dict, get, get-put, IsUnique, put-IsUnique}
use scan_service.Prelude.Exec.{Preserves, preserves_rules}
use scan_service.Env.{Env}
use scan_service.Env.Model.{Token, mtr, mtrg, BlockConcise, Account, ChainAccount}
use scan_service.AccountCache.{
  AccountCache, find_by_address, new_account, create, update_acct, correct, fix_account,
  set_default, fix_if_negative, touch, minus, minus_token, plus, plus_token, bound, bound_token,
  unbound, unbound_token, withdraw, withdraw_token, save_all, save_to_db, clean,
}
use scan_service.AccountCache.View.{view}
use scan_service.AccountCache.Frame.{
  Operation, minus_op, plus_op, bound_op, unbound_op, withdraw_op, run,
}

module _ ⦃e : Env⦄ where
  open e use {BigNumber}

  -- Every account stands under its own address, in the cache and in the collection.
  pub record IsKeyed (s : AccountCache) : Type 0 where
    pub unique : IsUnique s.accts
    pub cached : (k : Text) (a : Account BigNumber) → get k s.accts ≡ some a → a.address ≡ k
    pub stored :
        (k : Text) (a : Account BigNumber) → e.accounts.find_one k s.db ≡ some a → a.address ≡ k

  update_acct-IsKeyed :
      (addr : Text) (f : Account BigNumber → Account BigNumber)
      → ((a : Account BigNumber) → (f a).address ≡ a.address)
      → Preserves IsKeyed (update_acct addr f)
  unfolding update_acct
  update_acct-IsKeyed addr f keeps = record {
    from_state = λ s h. elim (Option-cases (get addr s.accts)) [
      | inl missing ↦ rw (missing, update_acct) h
      | inr (a, found) ↦
          rw (found, update_acct)
            (record {
              unique = put-IsUnique addr (f a) s.accts h.unique;
              cached = λ k b p. ground (
                arith,
                get-put addr k (f a) s.accts,
                same_text_iff addr k,
                h.cached k b,
                keeps a,
                h.cached addr a found,
              );
              stored = h.stored;
            })
    ];
  }

  correct-address :
      (c : ChainAccount BigNumber) (block : BlockConcise) (a : Account BigNumber)
      → (correct c block a).address ≡ a.address
  unfolding correct
  correct-address c block a = ground arith

  fix_account-IsKeyed :
      (addr : Text) (block : BlockConcise) → Preserves IsKeyed (fix_account addr block)
  unfolding fix_account
  fix_account-IsKeyed addr block = record {
    from_state = λ s h. elim (Option-cases (e.get_account (to_lower_case addr) block.number)) [
      | inl failed ↦ rw (failed, fix_account) h
      | inr (c, found) ↦
          rw (found, fix_account)
            ((update_acct-IsKeyed (to_lower_case addr) (correct c block)
                (correct-address c block)).from_state
              s h)
    ];
  }

  fix_if_negative-IsKeyed :
      (amount : Account BigNumber → BigNumber) (addr : Text) (block : BlockConcise)
      → Preserves IsKeyed (fix_if_negative amount addr block)
  unfolding fix_if_negative
  fix_if_negative-IsKeyed amount addr block = record {
    from_state = λ s h. ground (arith, (fix_account-IsKeyed addr block).from_state s h);
  }

  set_default-IsKeyed :
      (addr : Text) (block : BlockConcise) → Preserves IsKeyed (set_default addr block)
  unfolding set_default find_by_address create new_account
  set_default-IsKeyed addr block = record {
    from_state = λ s h. record {
      unique = grind (arith, put-IsUnique, h.unique);
      cached = λ k b p.
          grind (arith, get-put, same_text_iff, h.cached k b, h.stored k b, to_lower_case_idem);
      stored = λ k b p.
          grind (arith, e.accounts.find_one-save, same_text_iff, h.stored k b, to_lower_case_idem);
    };
  }

  touch-IsKeyed : (addr : Text) (block : BlockConcise) → Preserves IsKeyed (touch addr block)
  unfolding touch
  touch-IsKeyed addr block = update_acct-IsKeyed addr _ (λ a. refl)

  ruleset keyed_rules = (
    preserves_rules, update_acct-IsKeyed, fix_if_negative-IsKeyed, set_default-IsKeyed,
    touch-IsKeyed,
  )

  minus_token-IsKeyed :
      (token : Token) (addr : Text) (x : BigNumber) (block : BlockConcise)
      → Preserves IsKeyed (minus_token token addr x block)
  unfolding minus_token
  minus_token-IsKeyed mtr addr x block = search keyed_rules
  minus_token-IsKeyed mtrg addr x block = search keyed_rules
  minus_token-IsKeyed _ addr x block = search keyed_rules

  plus_token-IsKeyed :
      (token : Token) (addr : Text) (x : BigNumber) (block : BlockConcise)
      → Preserves IsKeyed (plus_token token addr x block)
  unfolding plus_token
  plus_token-IsKeyed mtr addr x block = search keyed_rules
  plus_token-IsKeyed mtrg addr x block = search keyed_rules
  plus_token-IsKeyed _ addr x block = search keyed_rules

  bound_token-IsKeyed :
      (token : Token) (addr : Text) (x : BigNumber) (block : BlockConcise)
      → Preserves IsKeyed (bound_token token addr x block)
  unfolding bound_token
  bound_token-IsKeyed mtr addr x block = search keyed_rules
  bound_token-IsKeyed mtrg addr x block = search keyed_rules
  bound_token-IsKeyed _ addr x block = search keyed_rules

  unbound_token-IsKeyed :
      (token : Token) (addr : Text) (x : BigNumber) (block : BlockConcise)
      → Preserves IsKeyed (unbound_token token addr x block)
  unfolding unbound_token
  unbound_token-IsKeyed mtr addr x block = search keyed_rules
  unbound_token-IsKeyed mtrg addr x block = search keyed_rules
  unbound_token-IsKeyed _ addr x block = search keyed_rules

  withdraw_token-IsKeyed :
      (token : Token) (a b : Text) (x : BigNumber) (block : BlockConcise)
      → Preserves IsKeyed (withdraw_token token a b x block)
  unfolding withdraw_token
  withdraw_token-IsKeyed mtr a b x block = search keyed_rules
  withdraw_token-IsKeyed mtrg a b x block = search keyed_rules
  withdraw_token-IsKeyed _ a b x block = search keyed_rules

  ruleset keyed_token_rules = (
    keyed_rules, minus_token-IsKeyed, plus_token-IsKeyed, bound_token-IsKeyed,
    unbound_token-IsKeyed, withdraw_token-IsKeyed,
  )

  run-keeps_IsKeyed : (block : BlockConcise) (op : Operation) → Preserves IsKeyed (run block op)
  unfolding run minus plus bound unbound withdraw
  run-keeps_IsKeyed block (minus_op a token x) = search keyed_token_rules
  run-keeps_IsKeyed block (plus_op a token x) = search keyed_token_rules
  run-keeps_IsKeyed block (bound_op a token x) = search keyed_token_rules
  run-keeps_IsKeyed block (unbound_op a token x) = search keyed_token_rules
  run-keeps_IsKeyed block (withdraw_op a b token x) = search keyed_token_rules

  -- A call of minus, plus, bound, unbound or withdraw, whether it returns or throws, leaves every
  -- account under its own address, and no address twice.
  pub run-IsKeyed :
      (block : BlockConcise) (op : Operation) (s : AccountCache)
      → IsKeyed s
      → IsKeyed (run block op s).1
  run-IsKeyed block op s = (run-keeps_IsKeyed block op).from_state s

  find_one-save_all :
      (d : Dict (Account BigNumber)) (db : e.accounts.Store) (k : Text)
      → IsUnique d
      → ((j : Text) (a : Account BigNumber) → get j d ≡ some a → a.address ≡ j)
      → e.accounts.find_one k (save_all d db)
        ≡ (elim (get k d) [ none ↦ e.accounts.find_one k db | some a ↦ some a ])
  unfolding save_all get
  find_one-save_all [] db k u h = refl
  find_one-save_all ((j, a) ∷ d) db k u h = ground (
    arith,
    find_one-save_all d (e.accounts.save a.address a db) k u.1
        (λ i b p. ground (arith, h i b, same_text_iff j i)),
    e.accounts.find_one-save a.address k a db,
    h j a,
    same_text_refl j,
    same_text_iff j k,
  )

  -- Saving the cache and cleaning it changes nothing that it shows, of any account.
  pub view-clean-save_to_db :
      (s : AccountCache) (k : Text) → IsKeyed s → view (clean (save_to_db s)) k ≡ view s k
  unfolding view clean save_to_db get
  view-clean-save_to_db s k h = find_one-save_all s.accts s.db k h.unique h.cached
