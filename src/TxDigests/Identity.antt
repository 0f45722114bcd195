-- ===== src/TxDigests/Identity.antt =====
-- The direct digests against the clauses.
use scan_service.Prelude.{
  ℕ, suc, ◌==◌, ◌≡◌, refl, ap, sym, ◌∙◌, true, false, Option, none, some, List, [], ◌∷◌, ◌++◌,
  arith, inl, inr, append-nil, append_assoc, All, if◌then◌else◌, ltb, length, take,
}
use scan_service.Prelude.Text.{Text, codes, same_text}
use scan_service.Prelude.Dict.{get, has, get-put}
use scan_service.Prelude.Exec.{Result, Result-cases, ok, err, decode_failed}
use scan_service.Const.{zero_address}
use scan_service.Env.{Env}
use scan_service.Env.Model.{BlockConcise}
use scan_service.TxOutputs.{Clause, Tx}
use scan_service.TxDigests.{
  Hashes, TxDigest, Digests, push_digest, signature_of, clause_digest, direct_digests,
}

-- The account that a clause is sent to: the zero address, where it names none.
abbrev pub sent_to : Option Text → Text
sent_to none = zero_address
sent_to (some []) = zero_address
sent_to (some (c ∷ a)) = c ∷ a

module _ ⦃e : Env⦄ (hashes : Hashes) (tx : Tx) (block : BlockConcise) (tx_index : ℕ) where
  open e use {BigNumber, big_zero, read_number, devkit}
  open hashes use {sha1_clause}

  -- The method of a clause: a transfer where the data are shorter than a selector, the action of script
  -- data, and the selector of other data.
  abbrev pub method_of : Text → Result Text
  method_of call_data =
      if ltb (length call_data) 10
      then ok (codes "Transfer")
      else elim (devkit.is_script_engine_data call_data) [
        | false ↦ ok (take 10 call_data)
        | true ↦ elim (devkit.decode_action call_data) [ none ↦ err decode_failed | some a ↦ ok a ]
      ]

  -- The amount of a clause as an amount of one token, which is MTR at 0 and MTRG at 1.
  abbrev pub amount_in : ℕ → Clause → BigNumber
  amount_in token clause = if clause.token == token then read_number clause.value else big_zero

  -- One digest for each clause, in their order, unless the data of one cannot be decoded: from the origin
  -- of the transaction to the account that the clause is sent to, with its amount and position.
  abbrev pub due : ℕ → Clause → Text → TxDigest hashes
  due i clause method = record {
    block = block;
    tx_hash = tx.id;
    fee = read_number tx.paid;
    from = tx.origin;
    to = sent_to clause.to;
    mtr = amount_in 0 clause;
    mtrg = amount_in 1 clause;
    method = method;
    reverted = tx.reverted;
    clause_indexs = i ∷ [];
    tx_index = tx_index;
    seq = 0;
  }

  abbrev pub of_clauses : ℕ → List Clause → Result (List (TxDigest hashes))
  of_clauses i [] = ok []
  of_clauses i (clause ∷ clauses) = elim (method_of clause.call_data) [
    | err f ↦ err f
    | ok method ↦ elim (of_clauses (suc i) clauses) [
      | err f ↦ err f
      | ok rest ↦ ok (due i clause method ∷ rest)
    ]
  ]

  -- The ids of the clauses, and that no two of them are the same.
  abbrev pub ids_of : ℕ → List Clause → List Text
  ids_of i [] = []
  ids_of i (clause ∷ clauses) = sha1_clause tx.origin (sent_to clause.to) i ∷ ids_of (suc i) clauses

  abbrev pub AreDistinct : List Text → Type 0
  AreDistinct [] = Unit
  AreDistinct (id ∷ ids) = All (λ j. same_text id j ≡ false) ids × AreDistinct ids

  abbrev behind : Digests hashes → Result (List (TxDigest hashes)) → Result (List (TxDigest hashes))
  behind s (err f) = err f
  behind s (ok l) = ok (s.digests ++ l)

  abbrev pub listed : Result (Digests hashes) → Result (List (TxDigest hashes))
  listed (err f) = err f
  listed (ok s) = ok s.digests

  -- None of the ids is taken.
  abbrev AreFresh : Digests hashes → List Text → Type 0
  AreFresh s ids = All (λ id. has id s.ids ≡ false) ids

  AreFresh-push_digest :
      (id : Text) (d : TxDigest hashes) (s : Digests hashes) (ids : List Text)
      → All (λ j. same_text id j ≡ false) ids
      → AreFresh s ids
      → AreFresh (push_digest hashes id d s) ids
  unfolding push_digest
  AreFresh-push_digest id d s [] other fresh = tt
  AreFresh-push_digest id d s (j ∷ ids) other fresh = (
    ground (arith, other.0, fresh.0, get-put id j true s.ids),
    AreFresh-push_digest id d s ids other.1 fresh.1,
  )

  push_digest-digests :
      (id : Text) (d : TxDigest hashes) (s : Digests hashes)
      → has id s.ids ≡ false
      → (push_digest hashes id d s).digests ≡ s.digests ++ d ∷ []
  unfolding push_digest
  push_digest-digests id d s fresh = rw fresh refl

  behind-cons :
      (d : TxDigest hashes) (s s' : Digests hashes) (r : Result (List (TxDigest hashes)))
      → s'.digests ≡ s.digests ++ d ∷ []
      → behind s' r ≡ behind s (elim r [ err f ↦ err f | ok rest ↦ ok (d ∷ rest) ])
  behind-cons d s s' (err f) h = refl
  behind-cons d s s' (ok l) h = rw h (ap (λ x. ok x) (append_assoc s.digests (d ∷ []) l))

  signature_of-method_of :
      (clause : Clause) → signature_of hashes clause ≡ method_of clause.call_data
  unfolding signature_of
  signature_of-method_of clause = ground arith

  clause_digest-due :
      (i : ℕ) (clause : Clause) (method : Text)
      → clause_digest hashes tx block tx_index i clause method ≡ due i clause method
  unfolding clause_digest
  clause_digest-due i clause method = refl

  direct_digests-behind :
      (i : ℕ) (clauses : List Clause) (s : Digests hashes)
      → AreDistinct (ids_of i clauses)
      → AreFresh s (ids_of i clauses)
      → listed (direct_digests hashes tx block tx_index i clauses s)
        ≡ behind s (of_clauses i clauses)
  unfolding direct_digests
  direct_digests-behind i [] s distinct fresh = ap (λ l. ok l) (sym (append-nil s.digests))
  direct_digests-behind i (clause ∷ clauses) s distinct fresh =
      elim (Result-cases (method_of clause.call_data)) [
        | inr (f, failed) ↦
            let thrown : signature_of hashes clause ≡ err f =
              signature_of-method_of clause ∙ failed in
            rw (thrown, failed, listed, behind, of_clauses) refl
        | inl (method, decoded) ↦
            let read : signature_of hashes clause ≡ ok method =
              signature_of-method_of clause ∙ decoded in
            let id = sha1_clause tx.origin (sent_to clause.to) i in
            let d = due i clause method in
            let s' = push_digest hashes id d s in
            rw (read, decoded, clause_digest-due i clause method, listed, behind, of_clauses)
              (direct_digests-behind (suc i) clauses s' distinct.1
                  (AreFresh-push_digest id d s (ids_of (suc i) clauses) distinct.0 fresh.1)
                ∙ behind-cons d s s' (of_clauses (suc i) clauses)
                    (push_digest-digests id d s fresh.0))
      ]

  behind-empty :
      (r : Result (List (TxDigest hashes))) → behind (record { digests = []; ids = [] }) r ≡ r
  behind-empty (err f) = refl
  behind-empty (ok l) = refl

  none_taken : (ids : List Text) → AreFresh (record { digests = []; ids = [] }) ids
  unfolding get
  none_taken [] = tt
  none_taken (id ∷ ids) = (refl, none_taken ids)

  -- If no two clauses of the transaction have the same id, then there is one direct digest for each clause,
  -- in their order: from the origin of the transaction to the account that the clause is sent to, or
  -- the zero address where it names none, with the clause's amount as MTR or MTRG and the clause's
  -- position; or the data of a clause cannot be decoded, and there is none.
  pub direct_digests-of_clauses :
      AreDistinct (ids_of 0 tx.clauses)
      → listed
          (direct_digests hashes tx block tx_index 0 tx.clauses (record { digests = []; ids = [] }))
        ≡ of_clauses 0 tx.clauses
  direct_digests-of_clauses distinct =
      direct_digests-behind 0 tx.clauses (record { digests = []; ids = [] }) distinct
        (none_taken (ids_of 0 tx.clauses))
      ∙ behind-empty (of_clauses 0 tx.clauses)
