-- ===== src/TokenBalanceCache/Keyed.antt =====
-- Every balance of the cache stands under its own key, with a list of NFTs beside it.
use scan_service.Prelude.{
  ◌≡◌, refl, Bool, true, some, List, [], inl, inr, arith, Option-cases, Bool-cases,
}
use scan_service.Prelude.Text.{
  Text, same_text_iff, to_lower_case, to_lower_case_idem, to_lower_case-append,
}
use scan_service.Prelude.Dict.{get, has, get-put, IsUnique, put-IsUnique}
use scan_service.Prelude.Exec.{Exec, Preserves, preserves_rules}
use scan_service.Env.{Env}
use scan_service.Env.Model.{BlockConcise, NftBalance, TokenBalance}
use scan_service.NftBalances.{merge_nft_balances}
use scan_service.TokenBalanceCache.{
  TokenBalanceCache, key_of, find_by_address, save_bal, new_token_balance, create, update_bal,
  correct, fix_token_balance, hold, set_default, fix_if_invalid, touch, minus, plus, merge_held,
  plus_nft, minus_nft,
}

pub key_of-lower : (a t : Text) → key_of (to_lower_case a) (to_lower_case t) ≡ key_of a t
unfolding key_of
key_of-lower a t = simp (to_lower_case-append, to_lower_case_idem)

module _ ⦃e : Env⦄ where
  open e use {BigNumber}

  -- The balance is the one of the pair, and the pair is in lower case.
  pub record IsOf (a t : Text) (b : TokenBalance BigNumber) : Type 0 where
    pub same_address : b.address ≡ a
    pub same_token : b.token_address ≡ t

  pub record IsAt (k : Text) (b : TokenBalance BigNumber) : Type 0 where
    pub own_key : key_of b.address b.token_address ≡ k
    pub low_address : to_lower_case b.address ≡ b.address
    pub low_token : to_lower_case b.token_address ≡ b.token_address

  pub record IsKeyed (s : TokenBalanceCache) : Type 0 where
    pub unique : IsUnique s.bals
    pub nfts_unique : IsUnique s.nfts
    pub cached : (k : Text) (b : TokenBalance BigNumber) → get k s.bals ≡ some b → IsAt k b
    pub paired : (k : Text) → has k s.bals ≡ true → has k s.nfts ≡ true
    pub stored :
        (a t : Text) (b : TokenBalance BigNumber)
        → e.token_balances.find_one (a, t) s.db ≡ some b
        → IsOf a t b

  update_bal-IsKeyed :
      (key : Text) (f : TokenBalance BigNumber → TokenBalance BigNumber)
      → ((k : Text) (b : TokenBalance BigNumber) → IsAt k b → IsAt k (f b))
      → Preserves IsKeyed (update_bal key f)
  unfolding update_bal
  update_bal-IsKeyed key f keeps = record {
    from_state = λ s h. elim (Option-cases (get key s.bals)) [
      | inl missing ↦ rw (missing, update_bal) h
      | inr (b, found) ↦
          rw (found, update_bal)
            (record {
              unique = put-IsUnique key (f b) s.bals h.unique;
              nfts_unique = h.nfts_unique;
              cached = λ k c p. ground (
                arith,
                get-put key k (f b) s.bals,
                same_text_iff key k,
                h.cached k c,
                keeps key b (h.cached key b found),
              );
              paired = λ k p.
                  ground
                    (arith, get-put key k (f b) s.bals, same_text_iff key k, h.paired k, found);
              stored = h.stored;
            })
    ];
  }

  correct-IsAt :
      (chain : BigNumber) (block : BlockConcise) (k : Text) (b : TokenBalance BigNumber)
      → IsAt k b
      → IsAt k (correct chain block b)
  unfolding correct
  correct-IsAt chain block k b h = ground arith

  fix_if_invalid-IsKeyed :
      (a t : Text) (block : BlockConcise) → Preserves IsKeyed (fix_if_invalid a t block)
  unfolding fix_if_invalid fix_token_balance
  fix_if_invalid-IsKeyed a t block = record {
    from_state = λ s h. ground (
      arith,
      (update_bal-IsKeyed (key_of a t) (correct (e.get_erc20_balance_of a t block.number) block)
            (correct-IsAt (e.get_erc20_balance_of a t block.number) block)).from_state
          s h,
    );
  }

  hold-IsKeyed :
      (k : Text) (b : TokenBalance BigNumber) (s : TokenBalanceCache)
      → IsAt k b
      → IsKeyed s
      → IsKeyed (hold k b s)
  unfolding hold
  hold-IsKeyed k b s at h = record {
    unique = put-IsUnique k b s.bals h.unique;
    nfts_unique = put-IsUnique k (merge_nft_balances b.nft_balances [] true) s.nfts h.nfts_unique;
    cached = λ j c p. ground (arith, get-put k j b s.bals, same_text_iff k j, h.cached j c, at);
    paired = λ j p. ground (
      arith,
      get-put k j b s.bals,
      get-put k j (merge_nft_balances b.nft_balances [] true) s.nfts,
      h.paired j,
    );
    stored = h.stored;
  }

  IsOf-IsAt :
      (a t : Text) (b : TokenBalance BigNumber)
      → IsOf (to_lower_case a) (to_lower_case t) b
      → IsAt (key_of a t) b
  IsOf-IsAt a t b h = record {
    own_key = rw (h.same_address, h.same_token) (key_of-lower a t);
    low_address = rw (h.same_address, to_lower_case_idem) refl;
    low_token = rw (h.same_token, to_lower_case_idem) refl;
  }

  new_token_balance-IsOf :
      (a t : Text) (block : BlockConcise)
      → IsOf (to_lower_case a) (to_lower_case t) (new_token_balance a t block)
  unfolding new_token_balance
  new_token_balance-IsOf a t block = record { same_address = refl; same_token = refl }

  create-IsKeyed :
      (a t : Text) (block : BlockConcise) (s : TokenBalanceCache)
      → IsKeyed s
      → IsKeyed (create a t block s).1
  unfolding create save_bal new_token_balance
  create-IsKeyed a t block s h = record {
    unique = h.unique;
    nfts_unique = h.nfts_unique;
    cached = h.cached;
    paired = h.paired;
    stored = λ x y b p. grind (
      arith,
      e.token_balances.find_one-save (to_lower_case a, to_lower_case t) (x, y)
          (new_token_balance a t block) s.db,
      same_text_iff (to_lower_case a) x,
      same_text_iff (to_lower_case t) y,
      h.stored x y b,
      new_token_balance-IsOf a t block,
    );
  }

  set_default-IsKeyed :
      (a t : Text) (block : BlockConcise) → Preserves IsKeyed (set_default a t block)
  unfolding set_default find_by_address create
  set_default-IsKeyed a t block = record {
    from_state = λ s h. elim (Bool-cases (has (key_of a t) s.bals)) [
      | inl cached ↦ rw (cached, set_default) h
      | inr new ↦ elim (Option-cases (find_by_address a t s.db)) [
        | inl missing ↦
            rw (new, missing, set_default)
              (hold-IsKeyed (key_of a t) (new_token_balance a t block) (create a t block s).1
                (IsOf-IsAt a t _ (new_token_balance-IsOf a t block)) (create-IsKeyed a t block s h))
        | inr (b, found) ↦
            rw (new, found, set_default)
              (hold-IsKeyed (key_of a t) b s
                (IsOf-IsAt a t b (h.stored (to_lower_case a) (to_lower_case t) b found)) h)
      ]
    ];
  }

  merge_held-IsKeyed :
      (adds : Bool) (key : Text) (l : List NftBalance) → Preserves IsKeyed (merge_held adds key l)
  unfolding merge_held
  merge_held-IsKeyed adds key l = record {
    from_state = λ s h. elim (Option-cases (get key s.nfts)) [
      | inl missing ↦ rw (missing, merge_held) h
      | inr (held, found) ↦
          rw (found, merge_held)
            (record {
              unique = h.unique;
              nfts_unique = put-IsUnique key (merge_nft_balances held l adds) s.nfts h.nfts_unique;
              cached = h.cached;
              paired = λ k p.
                  ground (arith, get-put key k (merge_nft_balances held l adds) s.nfts, h.paired k);
              stored = h.stored;
            })
    ];
  }

  write-IsAt :
      (v : BigNumber) (k : Text) (b : TokenBalance BigNumber)
      → IsAt k b
      → IsAt k (record b { balance = v })
  write-IsAt v k b h = record {
    own_key = h.own_key;
    low_address = h.low_address;
    low_token = h.low_token;
  }

  debit-IsKeyed :
      (key : Text) (x : BigNumber)
      → Preserves IsKeyed (update_bal key (λ b. record b { balance = e.minus b.balance x }))
  debit-IsKeyed key x = update_bal-IsKeyed key _ (λ k b. write-IsAt (e.minus b.balance x) k b)

  credit-IsKeyed :
      (key : Text) (x : BigNumber)
      → Preserves IsKeyed (update_bal key (λ b. record b { balance = e.plus b.balance x }))
  credit-IsKeyed key x = update_bal-IsKeyed key _ (λ k b. write-IsAt (e.plus b.balance x) k b)

  touch-IsKeyed : (key : Text) (block : BlockConcise) → Preserves IsKeyed (touch key block)
  unfolding touch
  touch-IsKeyed key block = update_bal-IsKeyed key _ (λ k b h. record {
    own_key = h.own_key;
    low_address = h.low_address;
    low_token = h.low_token;
  })

  -- The methods that change a balance, or a list of NFTs.
  pub data Operation : Type 0 where
    minus_op plus_op : Text → Text → BigNumber → Operation
    minus_nft_op plus_nft_op : Text → Text → List NftBalance → Operation

  unfoldable pub perform : BlockConcise → Operation → Exec TokenBalanceCache (Unit {0})
  perform block (minus_op a t x) = minus a t x block
  perform block (plus_op a t x) = plus a t x block
  perform block (minus_nft_op a t l) = minus_nft a t l block
  perform block (plus_nft_op a t l) = plus_nft a t l block

  ruleset keyed_rules = (
    preserves_rules, set_default-IsKeyed, debit-IsKeyed, credit-IsKeyed, merge_held-IsKeyed,
    fix_if_invalid-IsKeyed, touch-IsKeyed,
  )

  perform-keeps_IsKeyed :
      (block : BlockConcise) (op : Operation) → Preserves IsKeyed (perform block op)
  unfolding perform minus plus minus_nft plus_nft
  perform-keeps_IsKeyed block (minus_op a t x) = search keyed_rules depth 8
  perform-keeps_IsKeyed block (plus_op a t x) = search keyed_rules depth 8
  perform-keeps_IsKeyed block (minus_nft_op a t l) = search keyed_rules depth 8
  perform-keeps_IsKeyed block (plus_nft_op a t l) = search keyed_rules depth 8

  -- A call of minus, plus, minusNFT or plusNFT, whether it returns or throws, leaves every balance
  -- under its own key, in the cache and in the collection, and a list of NFTs beside it.
  pub perform-IsKeyed :
      (block : BlockConcise) (op : Operation) (s : TokenBalanceCache)
      → IsKeyed s
      → IsKeyed (perform block op s).1
  perform-IsKeyed block op s = (perform-keeps_IsKeyed block op).from_state s
