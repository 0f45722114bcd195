-- ===== src/NftCache/Positive.antt =====
-- No holding of nothing, or of less, comes into the cache.
use scan_service.Prelude.{
  ◌≡◌, Bool, true, false, none, some, inl, inr, arith, if◌then◌else◌, Bool-cases, Option-cases,
}
use scan_service.Prelude.Int.{ℤ, pos, ◌+ℤ◌, ◌-ℤ◌, ◌≤ℤ◌, ltb_ℤ, beq_ℤ, int_laws}
use scan_service.Prelude.Number.{add_number, sub_number, to_number_positive}
use scan_service.Prelude.Text.{Text, codes, same_text}
use scan_service.Prelude.Dict.{Dict, get, put, remove, get-put, get-remove}
use scan_service.Env.{Env}
use scan_service.Env.Model.{Nft}
use scan_service.NftCache.{
  NftCache, key_1155, find_by_id_with_owner, mint_1155, receive, transfer_minted, transfer_stored,
  transfer_1155,
}

if_positive :
    (b : Bool) (x y : Nft)
    → pos 1 ≤ℤ x.value
    → pos 1 ≤ℤ y.value
    → pos 1 ≤ℤ (if b then x else y).value
if_positive true x y hx hy = hx
if_positive false x y hx hy = hy

-- Every NFT of a list has a value above zero.
pub record ArePositive (d : Dict Nft) : Type 0 where
  pub each : (k : Text) (n : Nft) → get k d ≡ some n → pos 1 ≤ℤ n.value

add_positive : (a b : ℤ) → pos 1 ≤ℤ a → pos 0 ≤ℤ b → pos 1 ≤ℤ add_number a b
unfolding add_number
add_positive a b ha hb = to_number_positive (a +ℤ b) (omega int_laws)

sub_positive : (a b : ℤ) → ltb_ℤ a b ≡ false → beq_ℤ a b ≡ false → pos 1 ≤ℤ sub_number a b
unfolding sub_number
sub_positive a b covered partial =
    let apart : pos 1 ≤ℤ a -ℤ b = grind int_laws in to_number_positive (a -ℤ b) apart

put-ArePositive :
    (k : Text) (x : Nft) (d : Dict Nft) → pos 1 ≤ℤ x.value → ArePositive d → ArePositive (put k x d)
put-ArePositive k x d h rest = record {
  each = λ j n found. elim (Bool-cases (same_text k j)) [
    | inl same ↦
        let is : some x ≡ some n = grind (arith, found, get-put k j x d, same) in
        let this : x ≡ n = cc in rw (← this) h
    | inr other ↦
        let old : get j d ≡ some n = grind (arith, found, get-put k j x d, other) in
        rest.each j n old
  ];
}

remove-ArePositive : (k : Text) (d : Dict Nft) → ArePositive d → ArePositive (remove k d)
remove-ArePositive k d rest = record {
  each = λ j n found. elim (Bool-cases (same_text k j)) [
    | inl same ↦
        let gone : none ≡ some n = grind (arith, found, get-remove k j d, same) in absurd cc
    | inr other ↦
        let old : get j d ≡ some n = grind (arith, found, get-remove k j d, other) in
        rest.each j n old
  ];
}

module _ ⦃e : Env⦄ where
  -- Every NFT in the cache and in the collection has a value above zero.
  pub record IsPositive (s : NftCache) : Type 0 where
    pub minted : ArePositive s.minted
    pub updated : ArePositive s.updated
    pub stored :
        (a t o : Text) (n : Nft) → find_by_id_with_owner a t o s.db ≡ some n → pos 1 ≤ℤ n.value

  if-IsPositive :
      (b : Bool) (s t : NftCache) → IsPositive s → IsPositive t → IsPositive (if b then s else t)
  if-IsPositive true s t hs ht = hs
  if-IsPositive false s t hs ht = ht

  put_minted :
      (k : Text) (x : Nft) (s : NftCache)
      → pos 1 ≤ℤ x.value
      → IsPositive s
      → IsPositive (record s { minted = put k x s.minted })
  put_minted k x s hx h = record {
    minted = put-ArePositive k x s.minted hx h.minted;
    updated = h.updated;
    stored = h.stored;
  }

  put_updated :
      (k : Text) (x : Nft) (s : NftCache)
      → pos 1 ≤ℤ x.value
      → IsPositive s
      → IsPositive (record s { updated = put k x s.updated })
  put_updated k x s hx h = record {
    minted = h.minted;
    updated = put-ArePositive k x s.updated hx h.updated;
    stored = h.stored;
  }

  remove_updated :
      (k : Text) (s : NftCache)
      → IsPositive s
      → IsPositive (record s { updated = remove k s.updated })
  remove_updated k s h = record {
    minted = h.minted;
    updated = remove-ArePositive k s.updated h.updated;
    stored = h.stored;
  }

  module _ (token_address token_id from to : Text) (value : ℤ) (positive : pos 1 ≤ℤ value) where
    receive-IsPositive :
        (nft : Nft) (s : NftCache)
        → IsPositive s
        → IsPositive (receive token_address token_id to value nft s)
    unfolding receive
    receive-IsPositive nft s h =
        let to_key = key_1155 token_address token_id to in
        elim (Option-cases (find_by_id_with_owner token_address token_id to s.db)) [
          | inr (old, there) ↦
              let known = h.stored token_address token_id to old there in
              elim (Option-cases (get to_key s.updated)) [
                | inl fresh ↦
                    rw (there, fresh, receive)
                      (put_updated to_key (record old { value = add_number old.value value }) s
                        (add_positive old.value value known (omega (arith, positive))) h)
                | inr (u, changed) ↦
                    rw (there, changed, receive)
                      (put_updated to_key (record u { value = add_number u.value value }) s
                        (add_positive u.value value (h.updated.each to_key u changed)
                          (omega (arith, positive)))
                        h)
              ]
          | inl absent ↦ elim (Option-cases (get to_key s.minted)) [
            | inl fresh ↦
                rw (absent, fresh, receive)
                  (put_minted to_key (record nft { owner = to; value = add_number value (pos 0) }) s
                    (add_positive value (pos 0) positive (omega arith)) h)
            | inr (m, existed) ↦
                let known = h.minted.each to_key m existed in
                rw (absent, existed, receive)
                  (put_minted to_key (record nft { owner = to; value = add_number value m.value }) s
                    (add_positive value m.value positive (omega (arith, known))) h)
          ]
        ]

    transfer_minted-IsPositive :
        (nft : Nft) (s : NftCache)
        → pos 1 ≤ℤ nft.value
        → IsPositive s
        → IsPositive (transfer_minted token_address token_id from to value nft s).1
    unfolding transfer_minted
    transfer_minted-IsPositive nft s held h =
        let key = key_1155 token_address token_id from in
        let received = receive token_address token_id to value nft s in
        let after = receive-IsPositive nft s h in
        elim (Bool-cases (same_text nft.type (codes "ERC1155"))) [
          | inr other ↦ rw (other, transfer_minted) h
          | inl typed ↦ elim (Bool-cases (ltb_ℤ nft.value value)) [
            | inl over ↦ rw (typed, over, transfer_minted) h
            | inr covered ↦ elim (Bool-cases (beq_ℤ nft.value value)) [
              | inl whole ↦
                  rw (typed, covered, whole, transfer_minted)
                    (put_minted key (record nft { owner = to }) s held h)
              | inr partial ↦
                  rw (typed, covered, partial, transfer_minted)
                    (if-IsPositive _ received
                      (record received {
                        minted =
                            put key (record nft { value = sub_number nft.value value })
                              received.minted;
                      })
                      after
                      (put_minted key (record nft { value = sub_number nft.value value }) received
                        (sub_positive nft.value value covered partial) after))
            ]
          ]
        ]

    transfer_stored-IsPositive :
        (nft : Nft) (s : NftCache)
        → pos 1 ≤ℤ nft.value
        → IsPositive s
        → IsPositive (transfer_stored token_address token_id from to value nft s).1
    unfolding transfer_stored
    transfer_stored-IsPositive nft s held h =
        let key = key_1155 token_address token_id from in
        let sent = record nft { owner = to } in
        let before = record s { updated = put key sent s.updated } in
        let received = receive token_address token_id to value nft s in
        let after = receive-IsPositive nft s h in
        elim (Bool-cases (same_text nft.type (codes "ERC1155"))) [
          | inr other ↦ rw (other, transfer_stored) h
          | inl typed ↦ elim (Bool-cases (ltb_ℤ nft.value value)) [
            | inl over ↦ rw (typed, over, transfer_stored) h
            | inr covered ↦ elim (Bool-cases (beq_ℤ nft.value value)) [
              | inl whole ↦
                  rw (typed, covered, whole, transfer_stored)
                    (remove_updated key (receive token_address token_id to value sent before)
                      (receive-IsPositive sent before (put_updated key sent s held h)))
              | inr partial ↦
                  rw (typed, covered, partial, transfer_stored)
                    (put_updated key _ received
                      (if_positive _ nft (record nft { value = sub_number nft.value value }) held
                        (sub_positive nft.value value covered partial))
                      after)
            ]
          ]
        ]

    -- If every NFT in the cache and in the collection has a value above zero, then so it is after
    -- transfer1155 of a value above zero, whether it returns or throws: no one is left with an NFT
    -- of which nothing, or less than nothing, is held.
    pub transfer_1155-IsPositive :
        (s : NftCache)
        → IsPositive s
        → IsPositive (transfer_1155 token_address token_id from to value s).1
    unfolding transfer_1155
    transfer_1155-IsPositive s h =
        let key = key_1155 token_address token_id from in
        elim (Option-cases (get key s.minted)) [
          | inr (nft, found) ↦
              rw (found, transfer_1155)
                (transfer_minted-IsPositive nft s (h.minted.each key nft found) h)
          | inl unminted ↦ elim (Option-cases (get key s.updated)) [
            | inr (nft, found) ↦
                rw (unminted, found, transfer_1155)
                  (transfer_stored-IsPositive nft s (h.updated.each key nft found) h)
            | inl unchanged ↦
                elim (Option-cases (find_by_id_with_owner token_address token_id from s.db)) [
                  | inl missing ↦ rw (unminted, unchanged, missing, transfer_1155) h
                  | inr (nft, found) ↦
                      rw (unminted, unchanged, found, transfer_1155)
                        (transfer_stored-IsPositive nft s
                          (h.stored token_address token_id from nft found) h)
                ]
          ]
        ]

  pub mint_1155-IsPositive :
      (nft : Nft) (s : NftCache) → pos 1 ≤ℤ nft.value → IsPositive s → IsPositive (mint_1155 nft s)
  unfolding mint_1155
  mint_1155-IsPositive nft s positive h =
      let key = key_1155 nft.address nft.token_id nft.owner in
      elim (Bool-cases (same_text nft.type (codes "ERC1155"))) [
        | inr other ↦ rw (other, mint_1155) h
        | inl typed ↦ elim (Option-cases (get key s.minted)) [
          | inr (old, found) ↦
              let known = h.minted.each key old found in
              rw (typed, found, mint_1155)
                (put_minted key (record old { value = add_number old.value nft.value }) s
                  (add_positive old.value nft.value known (omega (arith, positive))) h)
          | inl unminted ↦
              elim (Option-cases (find_by_id_with_owner nft.address nft.token_id nft.owner s.db)) [
                | inl absent ↦
                    rw (typed, unminted, absent, mint_1155) (put_minted key nft s positive h)
                | inr (old, there) ↦
                    let known = h.stored nft.address nft.token_id nft.owner old there in
                    rw (typed, unminted, there, mint_1155)
                      (put_updated key (record old { value = add_number old.value nft.value }) s
                        (add_positive old.value nft.value known (omega (arith, positive))) h)
              ]
        ]
      ]
