-- ===== src/TxDigests/Tests.antt =====
-- Digests of small transactions, and the theorems on them at concrete inputs.
use scan_service.Prelude.{ℕ, ◌≡◌, refl, false, none, some, [], ◌∷◌, ◌++◌, map}
use scan_service.Prelude.Int.{pos, ◌+ℤ◌}
use scan_service.Prelude.Text.{Text, codes, same_text}
use scan_service.Prelude.Dict.{get, put}
use scan_service.Const.{zero_address}
use scan_service.Env.Decoding.{Transfer}
use scan_service.Samples.{sample, block_1}
use scan_service.TxOutputs.{Clause, Tx}
use scan_service.TxDigests.{
  Hashes, TxDigest, direct_digests, kblock_digests, add_transfers, add_transfer, transfer_digest,
  merge_digest,
}
use scan_service.TxDigests.Identity.{listed, of_clauses, direct_digests-of_clauses}
use scan_service.TxDigests.Sums.{total, given_in, given_of, kblock_digests-conserves}

abbrev hashes : Hashes
hashes = record { sha1_clause = λ from to i. i ∷ []; sha1_pair = λ from to. 44 ∷ from ++ to }

abbrev clause : ℕ → Clause
clause token = record {
  to = some (codes "c");
  value = codes "0x4";
  token = token;
  call_data = codes "0x";
}

abbrev paid_out : Transfer
paid_out = record { sender = codes "p"; recipient = codes "q"; amount = codes "0x4"; token = 1 }

abbrev tx : Tx
tx = record {
  id = codes "0xff";
  origin = zero_address;
  gas_payer = zero_address;
  paid = codes "0x0";
  reward = codes "0x0";
  reverted = false;
  clauses = clause 0 ∷ clause 1 ∷ [];
  outputs =
      record { contract_address = none; events = []; transfers = paid_out ∷ paid_out ∷ [] }
      ∷ record { contract_address = none; events = []; transfers = paid_out ∷ [] }
      ∷ [];
}

-- Two transfers of a clause between the same two accounts are one digest.
add_transfers_run :
    map
      (λ (d : Text × TxDigest hashes). d.1.mtrg)
      (add_transfers hashes tx block_1 0 3 (paid_out ∷ paid_out ∷ []) [])
    ≡ some (pos 8) ∷ []
unfolding add_transfers add_transfer transfer_digest merge_digest get put same_text ◌+ℤ◌
add_transfers_run = refl

direct_digests-of_clauses_example :
    listed hashes tx block_1 0
      (direct_digests hashes tx block_1 0 0 tx.clauses (record { digests = []; ids = [] }))
    ≡ of_clauses hashes tx block_1 0 0 tx.clauses
unfolding same_text
direct_digests-of_clauses_example =
    direct_digests-of_clauses hashes tx block_1 0 ((refl, tt), (tt, tt))

kblock_digests-conserves_example :
    let m = kblock_digests hashes tx block_1 0 0 tx.outputs [] in
    (total hashes tx block_1 0 (λ d. d.mtr) m
      ≡ given_in hashes tx block_1 0 (given_of hashes tx block_1 0 0) 0 tx.outputs)
    × (total hashes tx block_1 0 (λ d. d.mtrg) m
        ≡ given_in hashes tx block_1 0 (given_of hashes tx block_1 0 1) 0 tx.outputs)
kblock_digests-conserves_example = kblock_digests-conserves hashes tx block_1 0 tx.outputs
