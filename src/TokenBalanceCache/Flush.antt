-- ===== src/TokenBalanceCache/Flush.antt =====
-- `saveToDB`: what is in the collection afterwards.
use scan_service.Prelude.{
  ◌≡◌, ◌↔◌, refl, ap, subst, ◌∙◌, true, false, Option, none, some, List, [], ◌∷◌, inl, inr, arith,
  Option-cases, Bool-cases, if◌then◌else◌, map,
}
use scan_service.Prelude.Text.{Text, same_text, same_text_iff, same_text_refl}
use scan_service.Prelude.Dict.{Dict, get, put, get-put, IsUnique, put-IsUnique}
use scan_service.Env.{Env}
use scan_service.Env.Mongo.{same_pair}
use scan_service.Env.Model.{NftBalance, TokenBalance}
use scan_service.TokenBalanceCache.{TokenBalanceCache, key_of, save_bal}
use scan_service.TokenBalanceCache.Save.{
  attach_nfts, copied, is_spent, flush_one, flush_all, counted, update_counts, update_all_counts,
  copy_all, save_to_db,
}
use scan_service.TokenBalanceCache.Keyed.{IsAt, IsKeyed}

same_pair_iff : (a t x y : Text) → (same_pair (a, t) (x, y) ≡ true) ↔ ((a ≡ x) × (t ≡ y))
same_pair_iff a t x y = ground (arith, same_text_iff a x, same_text_iff t y)

same_nfts :
    (l : List NftBalance)
    → map (λ (n : NftBalance). record { token_id = n.token_id; value = n.value }) l ≡ l
same_nfts [] = refl
same_nfts (n ∷ l) = ap (λ r. n ∷ r) (same_nfts l)

module _ ⦃e : Env⦄ where
  open e use {BigNumber}

  copied_same : (b : TokenBalance BigNumber) → copied b ≡ b
  unfolding copied
  copied_same b = ap (λ l. record b { nft_balances = l }) (same_nfts b.nft_balances)

  -- The entry with its list of NFTs, where one is kept.
  abbrev with_nfts : Option (List NftBalance) → TokenBalance BigNumber → TokenBalance BigNumber
  with_nfts none b = b
  with_nfts (some held) b = record b { nft_balances = held }

  abbrev attached :
      Option (List NftBalance) → Option (TokenBalance BigNumber) → Option (TokenBalance BigNumber)
  attached held none = none
  attached held (some b) = some (with_nfts held b)

  get-attach_nfts :
      (nfts : Dict (List NftBalance)) (bals : Dict (TokenBalance BigNumber)) (k : Text)
      → IsUnique nfts
      → get k (attach_nfts nfts bals) ≡ attached (get k nfts) (get k bals)
  unfolding attach_nfts get
  get-attach_nfts [] bals k u = elim (Option-cases (get k bals)) [
    | inl missing ↦ rw missing refl
    | inr (b, found) ↦ rw found refl
  ]
  get-attach_nfts ((j, held) ∷ nfts) bals k u = elim (Option-cases (get j bals)) [
    | inl missing ↦ ground (arith, missing, get-attach_nfts nfts bals k u.1, same_text_iff j k, u.0)
    | inr (b, found) ↦ ground (
      arith,
      found,
      get-attach_nfts nfts (put j (record b { nft_balances = held }) bals) k u.1,
      get-put j k (record b { nft_balances = held }) bals,
      same_text_iff j k,
      u.0,
    )
  ]

  attach_nfts-IsUnique :
      (nfts : Dict (List NftBalance)) (bals : Dict (TokenBalance BigNumber))
      → IsUnique bals
      → IsUnique (attach_nfts nfts bals)
  unfolding attach_nfts
  attach_nfts-IsUnique [] bals u = u
  attach_nfts-IsUnique ((j, held) ∷ nfts) bals u = elim (Option-cases (get j bals)) [
    | inl missing ↦ rw (missing, attach_nfts) (attach_nfts-IsUnique nfts bals u)
    | inr (b, found) ↦
        rw (found, attach_nfts) (attach_nfts-IsUnique nfts _ (put-IsUnique j _ bals u))
  ]

  -- The entries stand under their own keys.
  abbrev IsPlaced : Dict (TokenBalance BigNumber) → Type 0
  IsPlaced d = (k : Text) (b : TokenBalance BigNumber) → get k d ≡ some b → IsAt k b

  own_pair-apart :
      (k : Text) (b : TokenBalance BigNumber) (a t : Text)
      → IsAt k b
      → same_text k (key_of a t) ≡ false
      → same_pair (b.address, b.token_address) (a, t) ≡ false
  own_pair-apart k b a t h other =
      elim (Bool-cases (same_pair (b.address, b.token_address) (a, t))) [
        | inl same ↦
            let (x, y) = (same_pair_iff b.address b.token_address a t).0 same in
            ground (arith, x, y, h.own_key, same_text_iff k (key_of a t))
        | inr apart ↦ apart
      ]

  tail_IsPlaced :
      (j : Text) (b : TokenBalance BigNumber) (d : Dict (TokenBalance BigNumber))
      → IsUnique ((j, b) ∷ d)
      → IsPlaced ((j, b) ∷ d)
      → IsPlaced d
  unfolding get
  tail_IsPlaced j b d u h k c found = ground (arith, h k c, u.0, found, same_text_iff j k)

  flush_one-other :
      (k : Text) (b : TokenBalance BigNumber) (db : e.token_balances.Store) (a t : Text)
      → IsAt k b
      → same_text k (key_of a t) ≡ false
      → e.token_balances.find_one (a, t) (flush_one b db) ≡ e.token_balances.find_one (a, t) db
  unfolding flush_one save_bal
  flush_one-other k b db a t h other =
      let apart : same_pair (b.address, b.token_address) (a, t) ≡ false =
        own_pair-apart k b a t h other in
      elim (Bool-cases (is_spent b)) [
        | inl spent ↦
            rw (spent, flush_one, h.low_address, h.low_token)
              (e.token_balances.find_one-delete_one (b.address, b.token_address) (a, t) db
                ∙ rw apart refl)
        | inr held ↦
            rw (held, flush_one)
              (e.token_balances.find_one-save (b.address, b.token_address) (a, t) b db
                ∙ rw apart refl)
      ]

  -- What is kept of a balance.
  abbrev pub kept : TokenBalance BigNumber → Option (TokenBalance BigNumber)
  kept b = if is_spent b then none else some b

  flush_one-own :
      (k : Text) (b : TokenBalance BigNumber) (db : e.token_balances.Store)
      → IsAt k b
      → e.token_balances.find_one (b.address, b.token_address) (flush_one b db) ≡ kept b
  unfolding flush_one save_bal
  flush_one-own k b db h =
      let own =
        (same_pair_iff b.address b.token_address b.address b.token_address).1 (refl, refl) in
      elim (Bool-cases (is_spent b)) [
        | inl spent ↦
            rw (spent, flush_one, h.low_address, h.low_token)
              (e.token_balances.find_one-delete_one (b.address, b.token_address)
                  (b.address, b.token_address) db
                ∙ rw own refl)
        | inr held ↦
            rw (held, flush_one)
              (e.token_balances.find_one-save (b.address, b.token_address)
                  (b.address, b.token_address) b db
                ∙ rw own refl)
      ]

  -- A balance that is not in the cache stays what it was.
  flush_all-other :
      (d : Dict (TokenBalance BigNumber)) (db : e.token_balances.Store) (a t : Text)
      → IsUnique d
      → IsPlaced d
      → get (key_of a t) d ≡ none
      → e.token_balances.find_one (a, t) (flush_all d db) ≡ e.token_balances.find_one (a, t) db
  unfolding flush_all get
  flush_all-other [] db a t u h missing = refl
  flush_all-other ((j, b) ∷ d) db a t u h missing = elim (Bool-cases (same_text j (key_of a t))) [
    | inl same ↦ ground (arith, missing, same)
    | inr other ↦
        flush_all-other d (flush_one (copied b) db) a t u.1 (tail_IsPlaced j b d u h)
          (ground (arith, missing, other))
        ∙ ap (λ c. e.token_balances.find_one (a, t) (flush_one c db)) (copied_same b)
        ∙ flush_one-other j b db a t (h j b (rw same_text_refl refl)) other
  ]

  flush_all-first :
      (j : Text) (b : TokenBalance BigNumber) (d : Dict (TokenBalance BigNumber))
      (db : e.token_balances.Store)
      → IsUnique ((j, b) ∷ d)
      → IsPlaced ((j, b) ∷ d)
      → e.token_balances.find_one
          (b.address, b.token_address)
          (flush_all d (flush_one (copied b) db))
        ≡ kept b
  unfolding get
  flush_all-first j b d db u h =
      let at : IsAt j b = h j b (rw same_text_refl refl) in
      let absent : get (key_of b.address b.token_address) d ≡ none =
        ground (arith, at.own_key, u.0) in
      flush_all-other d (flush_one (copied b) db) b.address b.token_address u.1
        (tail_IsPlaced j b d u h) absent
      ∙ ap (λ c. e.token_balances.find_one (b.address, b.token_address) (flush_one c db))
          (copied_same b)
      ∙ flush_one-own j b db at

  flush_all-own :
      (d : Dict (TokenBalance BigNumber)) (db : e.token_balances.Store) (k : Text)
      (b : TokenBalance BigNumber)
      → IsUnique d
      → IsPlaced d
      → get k d ≡ some b
      → e.token_balances.find_one (b.address, b.token_address) (flush_all d db) ≡ kept b
  unfolding flush_all get
  flush_all-own [] db k b u h found = cc
  flush_all-own ((j, c) ∷ d) db k b u h found = elim (Bool-cases (same_text j k)) [
    | inl same ↦
        let same_bal : c ≡ b = ground (arith, found, same) in
        subst
          (λ x.
            e.token_balances.find_one (x.address, x.token_address)
              (flush_all d (flush_one (copied c) db))
            ≡ kept x)
          same_bal (flush_all-first j c d db u h)
    | inr other ↦
        flush_all-own d (flush_one (copied c) db) k b u.1 (tail_IsPlaced j c d u h)
          (ground (arith, found, other))
  ]

  with_nfts-IsAt :
      (held : Option (List NftBalance)) (k : Text) (b : TokenBalance BigNumber)
      → IsAt k b
      → IsAt k (with_nfts held b)
  with_nfts-IsAt none k b h = h
  with_nfts-IsAt (some l) k b h = record {
    own_key = h.own_key;
    low_address = h.low_address;
    low_token = h.low_token;
  }

  update_counts-db : (a : Text) (s : TokenBalanceCache) → (update_counts a s).1.db ≡ s.db
  unfolding update_counts counted
  update_counts-db a s = ground arith

  attach_nfts-IsPlaced :
      (nfts : Dict (List NftBalance)) (bals : Dict (TokenBalance BigNumber))
      → IsUnique nfts
      → IsPlaced bals
      → IsPlaced (attach_nfts nfts bals)
  attach_nfts-IsPlaced nfts bals u h k b found = elim (Option-cases (get k bals)) [
    | inl missing ↦ ground (arith, missing, found, get-attach_nfts nfts bals k u)
    | inr (c, old) ↦ ground (
      arith,
      old,
      found,
      get-attach_nfts nfts bals k u,
      with_nfts-IsAt (get k nfts) k c (h k c old),
    )
  ]

  update_all_counts-db :
      (bals : Dict (TokenBalance BigNumber)) (s : TokenBalanceCache)
      → (update_all_counts bals s).db ≡ s.db
  unfolding update_all_counts
  update_all_counts-db [] s = refl
  update_all_counts-db ((_, b) ∷ bals) s =
      update_all_counts-db bals (update_counts b.token_address s).1
      ∙ update_counts-db b.token_address s

  attach_nfts-empty : (nfts : Dict (List NftBalance)) → attach_nfts nfts [] ≡ []
  unfolding attach_nfts get
  attach_nfts-empty [] = refl
  attach_nfts-empty ((j, held) ∷ nfts) = attach_nfts-empty nfts

  save_to_db-parts :
      (bals : Dict (TokenBalance BigNumber)) (nfts : Dict (List NftBalance))
      (db : e.token_balances.Store) (contracts : e.contracts.Store)
      → (save_to_db (record { bals = bals; nfts = nfts; db = db; contracts = contracts })).db
        ≡ flush_all (attach_nfts nfts bals) db
  unfolding save_to_db flush_all
  save_to_db-parts [] nfts db contracts = rw (attach_nfts-empty nfts) refl
  save_to_db-parts (x ∷ bals) nfts db contracts =
      let all = attach_nfts nfts (x ∷ bals) in
      update_all_counts-db (copy_all all)
        (record { bals = copy_all all; nfts = nfts; db = flush_all all db; contracts = contracts })

  save_to_db-db :
      (s : TokenBalanceCache) → (save_to_db s).db ≡ flush_all (attach_nfts s.nfts s.bals) s.db
  save_to_db-db s = save_to_db-parts s.bals s.nfts s.db s.contracts

  -- After saving, every balance of the cache is in the collection with the list of NFTs that the
  -- cache keeps beside it, or, if its amount is not above zero and that list is empty, it is not in
  -- the collection.
  pub save_to_db-own :
      (s : TokenBalanceCache) (k : Text) (b : TokenBalance BigNumber) (held : List NftBalance)
      → IsKeyed s
      → get k s.bals ≡ some b
      → get k s.nfts ≡ some held
      → e.token_balances.find_one (b.address, b.token_address) (save_to_db s).db
        ≡ kept (record b { nft_balances = held })
  save_to_db-own s k b held h found nfts_found = rw (save_to_db-db s) (
      flush_all-own (attach_nfts s.nfts s.bals) s.db k (record b { nft_balances = held })
        (attach_nfts-IsUnique s.nfts s.bals h.unique)
        (attach_nfts-IsPlaced s.nfts s.bals h.nfts_unique h.cached)
        (get-attach_nfts s.nfts s.bals k h.nfts_unique ∙ rw (found, nfts_found) refl))

  -- A balance that is not in the cache is saved or deleted by no one.
  save_to_db-other :
      (s : TokenBalanceCache) (a t : Text)
      → IsKeyed s
      → get (key_of a t) s.bals ≡ none
      → e.token_balances.find_one (a, t) (save_to_db s).db ≡ e.token_balances.find_one (a, t) s.db
  save_to_db-other s a t h missing = rw (save_to_db-db s) (
      flush_all-other (attach_nfts s.nfts s.bals) s.db a t
        (attach_nfts-IsUnique s.nfts s.bals h.unique)
        (attach_nfts-IsPlaced s.nfts s.bals h.nfts_unique h.cached)
        (get-attach_nfts s.nfts s.bals (key_of a t) h.nfts_unique ∙ rw missing refl))
