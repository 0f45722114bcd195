-- ===== src/Staking/Buckets.antt =====
-- The buckets of an event are brought up to what the node says.
use scan_service.Prelude.{
  ◌≡◌, refl, ap, sym, subst, ◌∙◌, some, List, [], ◌∷◌, All, inl, inr, Bool-cases, Option-cases,
  if◌then◌else◌,
}
use scan_service.Prelude.Text.{Text, same_text, same_text_refl, same_text_iff}
use scan_service.Prelude.Exec.{ok, err, node_failed, ◌>>=◌, >>=-ok}
use scan_service.Env.{Env}
use scan_service.Staking.{
  ChainBucket, Bucket, BucketSource, bonus_of, updated_bucket, new_bucket, update_bucket,
  update_buckets,
}

module _ ⦃e : Env⦄ (source : BucketSource e.BigNumber) where
  open e use {BigNumber, read_number}
  open source use {buckets, get_bucket_by_id}

  -- A stored bucket has of the bucket of the node what an update brings.
  pub record Agrees (b : ChainBucket) (bkt : Bucket BigNumber) : Type 0 where
    pub same_value : bkt.value ≡ read_number b.value
    pub same_votes : bkt.total_votes ≡ read_number b.total_votes
    pub same_bonus : bkt.bonus_votes ≡ bonus_of source b
    pub same_candidate : bkt.candidate ≡ b.candidate
    pub same_autobid : bkt.autobid ≡ b.autobid
    pub same_unbounded : bkt.unbounded ≡ b.unbounded
    pub same_mature_time : bkt.mature_time ≡ b.mature_time
    pub same_calc_last_time : bkt.calc_last_time ≡ b.calc_last_time

  -- The bucket of an id stands in the collection with what the node says of these.
  pub record IsCurrent (db : buckets.Store) (id : Text) : Type 0 where
    pub chain : ChainBucket
    pub bucket : Bucket BigNumber
    pub given : get_bucket_by_id id ≡ some chain
    pub stored : buckets.find_one id db ≡ some bucket
    pub agrees : Agrees chain bucket

  -- The node gives a bucket under its id, and the collection has documents under theirs.
  pub record IsKeyed (db : buckets.Store) : Type 0 where
    pub gives : (id : Text) (b : ChainBucket) → get_bucket_by_id id ≡ some b → b.id ≡ id
    pub keyed : (k : Text) (bkt : Bucket BigNumber) → buckets.find_one k db ≡ some bkt → bkt.id ≡ k

  -- What an update writes.
  record Written (id : Text) (db : buckets.Store) : Type 0 where
    chain : ChainBucket
    bucket : Bucket BigNumber
    given : get_bucket_by_id id ≡ some chain
    named : bucket.id ≡ id
    agrees : Agrees chain bucket
    writes : (update_bucket source id db).1 ≡ buckets.save id bucket db

  update_bucket-Written :
      (id : Text) (db : buckets.Store)
      → IsKeyed db
      → (update_bucket source id db).0 ≡ ok tt
      → Written id db
  unfolding update_bucket new_bucket updated_bucket
  update_bucket-Written id db h returned = elim (Option-cases (get_bucket_by_id id)) [
    | inl failed ↦
        let stops : (update_bucket source id db).0 ≡ err node_failed =
          rw (failed, update_bucket) refl in
        absurd cc
    | inr (b, given) ↦ elim (Option-cases (buckets.find_one b.id db)) [
      | inl missing ↦ record {
        chain = b;
        bucket = new_bucket source b;
        given = given;
        named = h.gives id b given;
        agrees = record {
          same_value = refl;
          same_votes = refl;
          same_bonus = refl;
          same_candidate = refl;
          same_autobid = refl;
          same_unbounded = refl;
          same_mature_time = refl;
          same_calc_last_time = refl;
        };
        writes =
            rw (given, missing, update_bucket)
              (ap (λ k. buckets.save k (new_bucket source b) db) (h.gives id b given));
      }
      | inr (bkt, found) ↦ record {
        chain = b;
        bucket = updated_bucket source b bkt;
        given = given;
        named = h.keyed b.id bkt found ∙ h.gives id b given;
        agrees = record {
          same_value = refl;
          same_votes = refl;
          same_bonus = refl;
          same_candidate = refl;
          same_autobid = refl;
          same_unbounded = refl;
          same_mature_time = refl;
          same_calc_last_time = refl;
        };
        writes =
            rw (given, found, update_bucket)
              (ap (λ k. buckets.save k (updated_bucket source b bkt) db)
                (h.keyed b.id bkt found ∙ h.gives id b given));
      }
    ]
  ]

  module _ (id : Text) (db : buckets.Store) (w : Written id db) where
    abbrev written : buckets.Store
    written = (update_bucket source id db).1

    find_one-written :
        (k : Text)
        → buckets.find_one k written
          ≡ (if same_text id k then some w.bucket else buckets.find_one k db)
    find_one-written k = ap (buckets.find_one k) w.writes ∙ buckets.find_one-save id k w.bucket db

    Written-IsCurrent : IsCurrent written id
    Written-IsCurrent = record {
      chain = w.chain;
      bucket = w.bucket;
      given = w.given;
      stored =
          find_one-written id
          ∙ ap (λ b. if b then some w.bucket else buckets.find_one id db) (same_text_refl id);
      agrees = w.agrees;
    }

    -- What was current stays current.
    IsCurrent-written : (k : Text) → IsCurrent db k → IsCurrent written k
    IsCurrent-written k c = elim (Bool-cases (same_text id k)) [
      | inl own ↦ rw (← (same_text_iff id k).0 own) Written-IsCurrent
      | inr other ↦ record {
        chain = c.chain;
        bucket = c.bucket;
        given = c.given;
        stored =
            find_one-written k
            ∙ ap (λ b. if b then some w.bucket else buckets.find_one k db) other
            ∙ c.stored;
        agrees = c.agrees;
      }
    ]

    IsKeyed-written : IsKeyed db → IsKeyed written
    IsKeyed-written h = record {
      gives = h.gives;
      keyed = λ k bkt found. by_key k bkt (sym (find_one-written k) ∙ found);
    }
      where
        by_key :
            (k : Text) (bkt : Bucket BigNumber)
            → (if same_text id k then some w.bucket else buckets.find_one k db) ≡ some bkt
            → bkt.id ≡ k
        by_key k bkt found = elim (Bool-cases (same_text id k)) [
          | inl own ↦
              let is_written : some w.bucket ≡ some bkt =
                sym (ap (λ b. if b then some w.bucket else buckets.find_one k db) own) ∙ found in
              let same : w.bucket ≡ bkt = cc in
              ap (λ (x : Bucket BigNumber). x.id) (sym same) ∙ w.named ∙ (same_text_iff id k).0 own
          | inr other ↦
              h.keyed k bkt
                (sym (ap (λ b. if b then some w.bucket else buckets.find_one k db) other) ∙ found)
        ]

  update_buckets-keeps :
      (ids : List Text) (db : buckets.Store) (k : Text)
      → IsKeyed db
      → (update_buckets source ids db).0 ≡ ok tt
      → IsCurrent db k
      → IsCurrent (update_buckets source ids db).1 k
  unfolding update_buckets ◌>>=◌
  update_buckets-keeps [] db k h returned c = c
  update_buckets-keeps (id ∷ ids) db k h returned c =
      let (_, first, second, after) =
        >>=-ok (update_bucket source id) (λ _. update_buckets source ids) db returned in
      let w = update_bucket-Written id db h first in
      rw after (
        update_buckets-keeps ids _ k (IsKeyed-written id db w h) second
          (IsCurrent-written id db w k c))

  -- If the node gives each bucket under its id, and the collection has each document under its own,
  -- then after an update that returns every bucket of the list stands in the collection with the
  -- value, the total votes, the candidate, the autobid, the unbounded flag, the mature time and the last
  -- calculation that the node gives, its bonus votes being the rest of its votes over its value.
  pub update_buckets-IsCurrent :
      (ids : List Text) (db : buckets.Store)
      → IsKeyed db
      → (update_buckets source ids db).0 ≡ ok tt
      → All (IsCurrent (update_buckets source ids db).1) ids
  unfolding update_buckets ◌>>=◌
  update_buckets-IsCurrent [] db h returned = tt
  update_buckets-IsCurrent (id ∷ ids) db h returned =
      let (_, first, second, after) =
        >>=-ok (update_bucket source id) (λ _. update_buckets source ids) db returned in
      let w = update_bucket-Written id db h first in
      let h' = IsKeyed-written id db w h in
      subst (λ x. All (IsCurrent x) (id ∷ ids)) (sym after)
        (
          update_buckets-keeps ids _ id h' second (Written-IsCurrent id db w),
          update_buckets-IsCurrent ids _ h' second,
        )
