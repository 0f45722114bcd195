-- ===== src/NftCache/Tests.antt =====
-- Runs of the NFT cache, and its theorems at concrete inputs.
use scan_service.Prelude.{arith, ◌≡◌, refl, none, some, [], if◌then◌else◌}
use scan_service.Prelude.Int.{pos, ◌+ℤ◌, ◌-ℤ◌}
use scan_service.Prelude.Number.{add_number, sub_number, to_number, round_ℕ}
use scan_service.Prelude.Text.{codes, same_text, to_lower_case, array_index}
use scan_service.Prelude.Dict.{get, put, remove}
use scan_service.Env.Mongo.{same_triple}
use scan_service.Env.Model.{Nft}
use scan_service.Samples.{sample, block_1}
use scan_service.NftCache.{
  NftCache, key_1155, key_721, find_by_id_with_owner, mint_721, mint_1155, hand_over, handed,
  transfer_721, receive, transfer_minted, transfer_stored, transfer_1155,
}
use scan_service.NftCache.Transfers.{value_in}
use scan_service.NftCache.Positive.{IsPositive, mint_1155-IsPositive, transfer_1155-IsPositive}

opened : Unit {0}
unfolding key_1155 key_721 find_by_id_with_owner mint_721 mint_1155 hand_over handed transfer_721
    receive transfer_minted transfer_stored transfer_1155 value_in get put remove same_text
    to_lower_case array_index add_number sub_number to_number round_ℕ ◌+ℤ◌ ◌-ℤ◌
opened = tt

abbrev of_a : Nft
of_a = record {
  address = codes "c";
  token_id = codes "7";
  value = pos 5;
  type = codes "ERC1155";
  minter = codes "a";
  creation_tx_hash = codes "0x01";
  block = block_1;
  owner = codes "a";
  status = codes "new";
}

abbrev minting : NftCache ⦃e = sample⦄
minting = mint_1155 of_a (record { minted = []; updated = []; db = λ k. none })

-- The collection has 5 of the token for a.
abbrev storing : NftCache ⦃e = sample⦄
storing = record {
  minted = [];
  updated = [];
  db = λ k. if same_triple (codes "c", codes "7", codes "a") k then some of_a else none;
}

-- The owner of an NFT in `minted` changes; to send it on from the new owner finds nothing.
abbrev picture : Nft
picture = record of_a { type = codes "ERC721"; value = pos 1 }

transfer_721_run :
    let s =
      (transfer_721
        (codes "c")
        (codes "7")
        (codes "a")
        (codes "b")
        (mint_721 picture (record minting { minted = [] }))).1 in
    get (key_721 (codes "c") (codes "7")) s.minted ≡ some (record picture { owner = codes "b" })
unfolding opened
transfer_721_run = refl

-- Sent to its owner, a part of a minted NFT is counted twice.
self_transfer_run :
    let s = (transfer_1155 (codes "c") (codes "7") (codes "a") (codes "a") (pos 2) minting).1 in
    value_in (key_1155 (codes "c") (codes "7") (codes "a")) s.minted ≡ pos 7
unfolding opened
self_transfer_run = refl

abbrev nothing : NftCache ⦃e = sample⦄
nothing = record { minted = []; updated = []; db = λ k. none }

nothing-IsPositive : IsPositive nothing
unfolding get find_by_id_with_owner
nothing-IsPositive = record {
  minted = record { each = λ k n found. absurd cc };
  updated = record { each = λ k n found. absurd cc };
  stored = λ a t o n found. absurd cc;
}

minting-IsPositive : IsPositive minting
minting-IsPositive = mint_1155-IsPositive of_a nothing (omega arith) nothing-IsPositive

transfer_1155-IsPositive_example :
    IsPositive (transfer_1155 (codes "c") (codes "7") (codes "a") (codes "b") (pos 2) minting).1
transfer_1155-IsPositive_example =
    transfer_1155-IsPositive (codes "c") (codes "7") (codes "a") (codes "b") (pos 2) (omega arith)
      minting minting-IsPositive
