-- ===== src/TxDigests.antt =====
-- PosCMD.updateTxDigests of src/cmd/pos.cmd.ts: one digest for each clause of a transaction, and one
-- for each pair of accounts that a KBlock transaction transfers between.
pub mod Identity
pub mod Sums
mod Tests
use scan_service.Prelude.{
  ℕ, suc, ◌==◌, leb, Bool, true, false, not, ◌&&◌, ◌||◌, Option, none, some, List, [], ◌∷◌, ◌++◌,
  if◌then◌else◌, length, take, get_elem?,
}
use scan_service.Prelude.Text.{Text, codes, same_text}
use scan_service.Prelude.Dict.{Dict, get, has, put}
use scan_service.Prelude.Exec.{Result, ok, err, decode_failed}
use scan_service.Env.{Env}
use scan_service.Env.Model.{BlockConcise}
use scan_service.Env.Decoding.{Transfer}
use scan_service.Const.{zero_address}
use scan_service.TxOutputs.{Output, Clause, Tx}

-- `clauseIndexs.includes(clauseIndex)`
abbrev pub includes : ℕ → List ℕ → Bool
includes i [] = false
includes i (j ∷ l) = j == i || includes i l

-- `sha1({ from, to, clauseIndex })` and `sha1({ from, to })` of object-hash
pub record Hashes : Type 0 where
  pub sha1_clause : Text → Text → ℕ → Text
  pub sha1_pair : Text → Text → Text

module _ ⦃e : Env⦄ (hashes : Hashes) where
  open e use {BigNumber, big_zero, plus, read_number, devkit}
  open hashes use {sha1_clause, sha1_pair}

  -- model/txDigest.ts
  pub record TxDigest : Type 0 where
    pub block : BlockConcise
    pub tx_hash : Text
    pub fee : BigNumber
    pub from : Text
    pub to : Text
    pub mtr : BigNumber
    pub mtrg : BigNumber
    pub method : Text
    pub reverted : Bool
    pub clause_indexs : List ℕ
    pub tx_index : ℕ
    pub seq : ℕ

  -- The digests of a transaction, and the ids that are taken.
  pub record Digests : Type 0 where
    pub digests : List TxDigest
    pub ids : Dict Bool

  -- `if (id in ids) continue; ids[id] = true; digests.push(d)`
  unfoldable pub push_digest : Text → TxDigest → Digests → Digests
  push_digest id d s =
      if has id s.ids then s else record { digests = s.digests ++ d ∷ []; ids = put id true s.ids }

  -- The method of a clause: a decoding that throws ends updateTxDigests.
  unfoldable pub signature_of : Clause → Result Text
  signature_of clause =
      if leb 10 (length clause.call_data)
      then (if devkit.is_script_engine_data clause.call_data
          then elim (devkit.decode_action clause.call_data) [
            | none ↦ err decode_failed
            | some action ↦ ok action
          ]
          else ok (take 10 clause.call_data))
      else ok (codes "Transfer")

  module _ (tx : Tx) (block : BlockConcise) (tx_index : ℕ) where
    abbrev pub recipient_of : Clause → Text
    recipient_of clause = elim clause.to [
      | none ↦ zero_address
      | some to ↦ elim to [ [] ↦ zero_address | c ∷ a ↦ c ∷ a ]
    ]

    -- the digest of a clause
    unfoldable pub clause_digest : ℕ → Clause → Text → TxDigest
    clause_digest i clause signature = record {
      block = block;
      tx_hash = tx.id;
      fee = read_number tx.paid;
      from = tx.origin;
      to = recipient_of clause;
      mtr = if clause.token == 0 then read_number clause.value else big_zero;
      mtrg = if clause.token == 1 then read_number clause.value else big_zero;
      method = signature;
      reverted = tx.reverted;
      clause_indexs = i ∷ [];
      tx_index = tx_index;
      seq = 0;
    }

    -- `for (const [clauseIndex, clause] of tx.clauses.entries())`
    unfoldable pub direct_digests : ℕ → List Clause → Digests → Result Digests
    direct_digests i [] s = ok s
    direct_digests i (clause ∷ clauses) s = elim (signature_of clause) [
      | err f ↦ err f
      | ok signature ↦
          let d = clause_digest i clause signature in
          direct_digests (suc i) clauses (push_digest (sha1_clause d.from d.to i) d s)
    ]

    -- the digest of a transfer
    unfoldable pub transfer_digest : ℕ → Transfer → TxDigest
    transfer_digest i tr = record {
      block = block;
      tx_hash = tx.id;
      fee = read_number tx.paid;
      from = tr.sender;
      to = tr.recipient;
      mtr = if tr.token == 0 then read_number tr.amount else big_zero;
      mtrg = if tr.token == 1 then read_number tr.amount else big_zero;
      method = codes "Transfer";
      reverted = tx.reverted;
      clause_indexs = i ∷ [];
      tx_index = tx_index;
      seq = 0;
    }

    -- `kblockDigestMap[id]` where it is there
    unfoldable pub merge_digest : ℕ → TxDigest → TxDigest → TxDigest
    merge_digest i d old = record old {
      clause_indexs =
          if includes i old.clause_indexs then old.clause_indexs else old.clause_indexs ++ i ∷ [];
      mtr = plus old.mtr d.mtr;
      mtrg = plus old.mtrg d.mtrg;
    }

    -- A transfer is added to the digest of its sender and recipient.
    unfoldable pub add_transfer : ℕ → Dict TxDigest → Transfer → Dict TxDigest
    add_transfer i m tr =
        let d = transfer_digest i tr in
        let id = sha1_pair d.from d.to in
        elim (get id m) [ none ↦ put id d m | some old ↦ put id (merge_digest i d old) m ]

    unfoldable pub add_transfers : ℕ → List Transfer → Dict TxDigest → Dict TxDigest
    add_transfers i [] m = m
    add_transfers i (tr ∷ transfers) m = add_transfers i transfers (add_transfer i m tr)

    -- `!tx.reverted && tx.origin === ZeroAddress && clause && IsScriptEngineData(clause.data)`
    unfoldable pub is_kblock_clause : Option Clause → Bool
    is_kblock_clause none = false
    is_kblock_clause (some clause) =
        not tx.reverted
        && same_text tx.origin zero_address
        && devkit.is_script_engine_data clause.call_data

    unfoldable pub kblock_digests : ℕ → List Output → Dict TxDigest → Dict TxDigest
    kblock_digests i [] m = m
    kblock_digests i (o ∷ outputs) m =
        kblock_digests (suc i) outputs
          (if is_kblock_clause (get_elem? tx.clauses i) then add_transfers i o.transfers m else m)

    -- `for (const id in kblockDigestMap)`
    unfoldable pub push_kblock : Dict TxDigest → Digests → Digests
    push_kblock [] s = s
    push_kblock ((id, d) ∷ m) s = push_kblock m (push_digest id d s)

    -- What is pushed to `txDigestsCache`.
    unfoldable pub update_tx_digests : List TxDigest → Result (List TxDigest)
    update_tx_digests cache =
        elim (direct_digests 0 tx.clauses (record { digests = []; ids = [] })) [
          | err f ↦ err f
          | ok s ↦ ok (cache ++ (push_kblock (kblock_digests 0 tx.outputs []) s).digests)
        ]
