-- ===== src/Staking.antt =====
-- The staking events of src/cmd/pos.cmd.ts: `handleBound`, `handleUnbound` and
-- `handleNativeBucketEvent`.
pub mod Buckets
mod Tests
use scan_service.Prelude.{
  ℕ, ◌==◌, Bool, true, false, Option, none, some, List, [], ◌∷◌, ◌++◌, if◌then◌else◌,
}
use scan_service.Prelude.Text.{Text, same_text, to_lower_case}
use scan_service.Prelude.Exec.{
  Result, Exec, ok, err, pure, throw, ◌>>=◌, ◌>>◌, node_failed, decode_failed,
}
use scan_service.Env.{Env}
use scan_service.Env.Model.{Token, mtr, mtrg, BlockConcise}
use scan_service.Env.Mongo.{Collection}
use scan_service.Env.Decoding.{Event, Abi, BucketWithdraw}
use scan_service.AccountCache
use scan_service.AccountCache.{AccountCache}
use scan_service.Movements.{Place, has_signature}

-- The bucket that the node gives.
pub record ChainBucket : Type 0 where
  pub id : Text
  pub owner : Text
  pub value : Text
  pub token : ℕ
  pub nonce : ℕ
  pub create_time : ℕ
  pub unbounded : Bool
  pub candidate : Text
  pub rate : ℕ
  pub option : ℕ
  pub total_votes : Text
  pub mature_time : ℕ
  pub calc_last_time : ℕ
  pub autobid : Option ℕ

-- model/bucket.ts
pub record Bucket (BigNumber : Type 0) : Type 0 where
  pub id : Text
  pub owner : Text
  pub value : BigNumber
  pub token : Token
  pub nonce : ℕ
  pub create_time : ℕ
  pub unbounded : Bool
  pub candidate : Text
  pub rate : ℕ
  pub option : ℕ
  pub bonus_votes : BigNumber
  pub total_votes : BigNumber
  pub mature_time : ℕ
  pub calc_last_time : ℕ
  pub autobid : Option ℕ

-- The collection of buckets, and `pos.getBucketByID`; `none` where the request fails.
pub record BucketSource (BigNumber : Type 0) : Type 1 where
  pub buckets : Collection Text same_text (Bucket BigNumber)
  pub get_bucket_by_id : Text → Option ChainBucket

module _ ⦃e : Env⦄ where
  open e use {BigNumber, read_number, minus, devkit}

  -- model/bound.ts, model/unbound.ts and model/withdraw.ts
  pub record Bound : Type 0 where
    pub owner : Text
    pub amount : BigNumber
    pub token : Token
    pub place : Place

  pub record Withdraw : Type 0 where
    pub owner : Text
    pub recipient : Text
    pub amount : BigNumber
    pub token : Token
    pub place : Place

  module _ (source : BucketSource BigNumber) where
    open source use {buckets, get_bucket_by_id}

    -- The parts of PosCMD that are read and written here.
    pub record Staked : Type 0 where
      pub account_cache : AccountCache
      pub bounds_cache : List Bound
      pub unbounds_cache : List Bound
      pub withdraw_cache : List Withdraw
      pub db : buckets.Store

    -- `decoded.token == 1 ? Token.MTRG : Token.MTR`
    abbrev pub token_of : ℕ → Token
    token_of t = if t == 1 then mtrg else mtr

    unfoldable pub on_account : Exec AccountCache (Unit {0}) → Exec Staked (Unit {0})
    on_account m s = let (r, c) = m s.account_cache in (r, record s { account_cache = c })

    unfoldable pub handle_bound : Place → Event → Exec Staked (Unit {0})
    handle_bound p evt s =
        if has_signature devkit.bound_event.signature evt
        then elim (devkit.bound_event.decode evt) [
          | none ↦ (err decode_failed, s)
          | some (owner, token, amount) ↦
              on_account (AccountCache.bound (to_lower_case owner) (token_of token) amount p.block)
                (record s {
                  bounds_cache =
                      s.bounds_cache
                      ++ record {
                        owner = to_lower_case owner;
                        amount = amount;
                        token = token_of token;
                        place = p;
                      }
                        ∷ [];
                })
        ]
        else (ok tt, s)

    unfoldable pub handle_unbound : Place → Event → Exec Staked (Unit {0})
    handle_unbound p evt s =
        if has_signature devkit.unbound_event.signature evt
        then elim (devkit.unbound_event.decode evt) [
          | none ↦ (err decode_failed, s)
          | some (owner, token, amount) ↦
              on_account
                (AccountCache.unbound (to_lower_case owner) (token_of token) amount p.block)
                (record s {
                  unbounds_cache =
                      s.unbounds_cache
                      ++ record {
                        owner = to_lower_case owner;
                        amount = amount;
                        token = token_of token;
                        place = p;
                      }
                        ∷ [];
                })
        ]
        else (ok tt, s)

    -- The buckets that an event touches, if it is this one.
    unfoldable pub touched : {A : Type 0} → Abi A → (A → List Text) → Event → Result (List Text)
    touched event ids evt = elim (event.decode evt) [
      | none ↦ err decode_failed
      | some a ↦ ok (ids a)
    ]

    abbrev pub both_of : Text × Text → List Text
    both_of (from, to) = from ∷ to ∷ []

    -- `switch (evt.topics[0])`, but for what a withdrawal pushes
    unfoldable pub bucket_ids : Event → Result (List Text)
    bucket_ids evt =
        if has_signature devkit.bucket_open.signature evt
        then touched devkit.bucket_open (λ id. id ∷ []) evt
        else if has_signature devkit.bucket_close.signature evt
        then touched devkit.bucket_close (λ id. id ∷ []) evt
        else if has_signature devkit.bucket_deposit.signature evt
        then touched devkit.bucket_deposit (λ id. id ∷ []) evt
        else if has_signature devkit.bucket_withdraw.signature evt
        then touched devkit.bucket_withdraw (λ w. w.from_bucket ∷ w.to_bucket ∷ []) evt
        else if has_signature devkit.bucket_merge.signature evt
        then touched devkit.bucket_merge both_of evt
        else if has_signature devkit.bucket_transfer_fund.signature evt
        then touched devkit.bucket_transfer_fund both_of evt
        else if has_signature devkit.bucket_update_candidate.signature evt
        then touched devkit.bucket_update_candidate (λ id. id ∷ []) evt
        else ok []

    -- The case of a withdrawal is reached where no case before it matches.
    unfoldable pub is_withdrawal : Event → Bool
    is_withdrawal evt =
        if has_signature devkit.bucket_open.signature evt
        then false
        else if has_signature devkit.bucket_close.signature evt
        then false
        else if has_signature devkit.bucket_deposit.signature evt
        then false
        else has_signature devkit.bucket_withdraw.signature evt

    unfoldable pub push_withdraw : Place → Event → Staked → Staked
    push_withdraw p evt s =
        if is_withdrawal evt
        then elim (devkit.bucket_withdraw.decode evt) [
          | none ↦ s
          | some w ↦ record s {
            withdraw_cache =
                s.withdraw_cache
                ++ record {
                  owner = to_lower_case w.owner;
                  recipient = to_lower_case w.recipient;
                  amount = w.amount;
                  token = token_of w.token;
                  place = p;
                }
                  ∷ [];
          }
        ]
        else s

    -- `new BigNumber(b.totalVotes).minus(b.value)`
    abbrev pub bonus_of : ChainBucket → BigNumber
    bonus_of b = minus (read_number b.total_votes) (read_number b.value)

    unfoldable pub updated_bucket : ChainBucket → Bucket BigNumber → Bucket BigNumber
    updated_bucket b bkt = record bkt {
      value = read_number b.value;
      bonus_votes = bonus_of b;
      total_votes = read_number b.total_votes;
      candidate = b.candidate;
      autobid = b.autobid;
      unbounded = b.unbounded;
      mature_time = b.mature_time;
      calc_last_time = b.calc_last_time;
    }

    unfoldable pub new_bucket : ChainBucket → Bucket BigNumber
    new_bucket b = record {
      id = b.id;
      owner = b.owner;
      value = read_number b.value;
      token = if b.token == 0 then mtr else mtrg;
      nonce = b.nonce;
      create_time = b.create_time;
      unbounded = b.unbounded;
      candidate = b.candidate;
      rate = b.rate;
      option = b.option;
      bonus_votes = bonus_of b;
      total_votes = read_number b.total_votes;
      mature_time = b.mature_time;
      calc_last_time = b.calc_last_time;
      autobid = b.autobid;
    }

    -- A bucket is updated where it stands, and created otherwise.
    unfoldable pub update_bucket : Text → Exec buckets.Store (Unit {0})
    update_bucket id db = elim (get_bucket_by_id id) [
      | none ↦ (err node_failed, db)
      | some b ↦ elim (buckets.find_one b.id db) [
        | none ↦ (ok tt, buckets.save b.id (new_bucket b) db)
        | some bkt ↦ (ok tt, buckets.save bkt.id (updated_bucket b bkt) db)
      ]
    ]

    -- `for (const id of bucketIDs)`
    unfoldable pub update_buckets : List Text → Exec buckets.Store (Unit {0})
    update_buckets [] = pure tt
    update_buckets (id ∷ ids) = update_bucket id >> update_buckets ids

    -- All of it is in a `try` whose `catch` logs the error.
    unfoldable pub handle_native_bucket_event : Place → Event → Staked → Staked
    handle_native_bucket_event p evt s =
        let s' = push_withdraw p evt s in
        elim (bucket_ids evt) [
          | err f ↦ s'
          | ok ids ↦ record s' { db = (update_buckets ids s'.db).1 }
        ]
