-- ===== src/NftCache/Transfers.antt =====
-- What a transfer of an NFT leaves of the holdings.
use scan_service.Prelude.{◌≡◌, refl, true, false, none, some, arith, if◌then◌else◌}
use scan_service.Prelude.Int.{ℤ, pos, ltb_ℤ, beq_ℤ}
use scan_service.Prelude.Number.{add_number, sub_number}
use scan_service.Prelude.Text.{Text, codes, same_text, same_text-false_comm, same_text_refl}
use scan_service.Prelude.Dict.{Dict, get, put, get-put, get-remove}
use scan_service.Prelude.Exec.{ok, err, not_enough_balance}
use scan_service.Env.{Env}
use scan_service.Env.Model.{Nft}
use scan_service.NftCache.{
  NftCache, key_1155, find_by_id_with_owner, receive, transfer_minted, transfer_stored,
  transfer_1155,
}

-- The value that stands under a key.
unfoldable pub value_in : Text → Dict Nft → ℤ
value_in key d = elim (get key d) [ none ↦ pos 0 | some m ↦ m.value ]

value_in-put :
    (k j : Text) (x : Nft) (d : Dict Nft)
    → value_in j (put k x d) ≡ (if same_text k j then x.value else value_in j d)
unfolding value_in
value_in-put k j x d = ground (arith, get-put k j x d)

equal_refl : (v : ℤ) → beq_ℤ v v ≡ true
equal_refl v = ground arith

not_less : (v : ℤ) → ltb_ℤ v v ≡ false
not_less v = ground arith

module _ ⦃e : Env⦄ where
  module _ (token_address token_id from to : Text) (value : ℤ) (nft : Nft) (s : NftCache)
      (held : get (key_1155 token_address token_id from) s.minted ≡ some nft)
      (typed : same_text nft.type (codes "ERC1155") ≡ true) where
    -- To send more of a minted NFT than its value throws, and changes nothing.
    transfer_1155-overdraft :
        ltb_ℤ nft.value value ≡ true
        → transfer_1155 token_address token_id from to value s ≡ (err not_enough_balance, s)
    unfolding transfer_1155 transfer_minted
    transfer_1155-overdraft over = rw (held, transfer_1155) (rw (typed, over, transfer_minted) refl)

    -- To send a part of a minted NFT to another key, whose owner has no document, moves the amount:
    -- the sender's value goes down by it, the recipient's goes up by it.
    transfer_1155-part :
        ltb_ℤ nft.value value ≡ false
        → beq_ℤ nft.value value ≡ false
        → same_text (key_1155 token_address token_id to) (key_1155 token_address token_id from)
          ≡ false
        → find_by_id_with_owner token_address token_id to s.db ≡ none
        → let (r, s') = transfer_1155 token_address token_id from to value s in
          (r ≡ ok tt)
          × (value_in (key_1155 token_address token_id from) s'.minted ≡ sub_number nft.value value)
          × (value_in (key_1155 token_address token_id to) s'.minted
              ≡ add_number value (value_in (key_1155 token_address token_id to) s.minted))
    unfolding transfer_1155 transfer_minted receive value_in
    transfer_1155-part covered partial other absent =
        let key = key_1155 token_address token_id from in
        let to_key = key_1155 token_address token_id to in
        rw (held, transfer_1155)
          (rw (typed, covered, partial, other, transfer_minted)
            (rw (absent, receive)
              (
                refl,
                rw (value_in-put, same_text_refl) refl,
                rw
                    (
                      value_in-put,
                      same_text-false_comm to_key key other,
                      value_in-put,
                      same_text_refl,
                    )
                    refl,
              )))

  -- The whole of an NFT that stands in the collection alone, sent to another owner without a
  -- document, is minted for the recipient; but the document of the sender, with its value, stays in
  -- the collection, and no change of it is left to be saved.
  transfer_1155-keeps_sender :
      (token_address token_id from to : Text) (nft : Nft) (s : NftCache)
      → get (key_1155 token_address token_id from) s.minted ≡ none
      → get (key_1155 token_address token_id from) s.updated ≡ none
      → find_by_id_with_owner token_address token_id from s.db ≡ some nft
      → same_text nft.type (codes "ERC1155") ≡ true
      → find_by_id_with_owner token_address token_id to s.db ≡ none
      → let (r, s') = transfer_1155 token_address token_id from to nft.value s in
        (r ≡ ok tt)
        × (value_in (key_1155 token_address token_id to) s'.minted
            ≡ add_number nft.value (value_in (key_1155 token_address token_id to) s.minted))
        × (find_by_id_with_owner token_address token_id from s'.db ≡ some nft)
        × (get (key_1155 token_address token_id from) s'.updated ≡ none)
  unfolding transfer_1155 transfer_stored receive value_in
  transfer_1155-keeps_sender token_address token_id from to nft s unminted unchanged stored typed
        absent =
      let key = key_1155 token_address token_id from in
      let to_key = key_1155 token_address token_id to in
      rw (unminted, unchanged, stored, transfer_1155)
        (rw (typed, not_less nft.value, equal_refl nft.value, transfer_stored)
          (rw (absent, receive)
            (
              refl,
              rw (value_in-put, same_text_refl) refl,
              stored,
              rw (get-remove, same_text_refl) refl,
            )))
