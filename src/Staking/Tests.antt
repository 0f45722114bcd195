-- ===== src/Staking/Tests.antt =====
-- Staking events of a small state, and the theorem on buckets at a concrete input.
use scan_service.Prelude.{◌≡◌, refl, ap, sym, false, none, some, [], ◌∷◌, All}
use scan_service.Prelude.Text.{Text, codes, same_text, to_lower_case}
use scan_service.Prelude.Exec.{ok, ◌>>=◌}
use scan_service.Env.Decoding.{Event}
use scan_service.Env.Model.{main_net, mtrg}
use scan_service.Samples.{sample, table, block_1, amount}
use scan_service.Movements.{Place}
use scan_service.Staking.{
  ChainBucket, Bucket, BucketSource, Staked, bucket_ids, touched, is_withdrawal, push_withdraw,
  new_bucket, update_bucket, update_buckets, handle_native_bucket_event,
}
use scan_service.Staking.Buckets.{IsCurrent, IsKeyed, update_buckets-IsCurrent}

abbrev on_chain : Text → ChainBucket
on_chain id = record {
  id = id;
  owner = codes "0xaa";
  value = codes "4";
  token = 1;
  nonce = 7;
  create_time = 1;
  unbounded = false;
  candidate = codes "0xcc";
  rate = 10;
  option = 1;
  total_votes = codes "5";
  mature_time = 0;
  calc_last_time = 2;
  autobid = none;
}

abbrev source : BucketSource sample.BigNumber
source = record {
  buckets = table Text same_text (Bucket sample.BigNumber);
  get_bucket_by_id = λ id. some (on_chain id);
}

abbrev idle : Staked ⦃e = sample⦄ source
idle = record {
  account_cache = record { accts = []; db = λ k. none; network = main_net };
  bounds_cache = [];
  unbounds_cache = [];
  withdraw_cache = [];
  db = λ k. none;
}

abbrev place : Place
place = record { log_index = 3; clause_index = 0; block = block_1; tx_hash = codes "0xff" }

abbrev withdrawn : Event
withdrawn = record { address = codes "0xC0"; topics = codes "0xe3" ∷ []; payload = [] }

-- A withdrawal is recorded, and both of its buckets are created.
withdrawn_run :
    let s = handle_native_bucket_event source place withdrawn idle in
    (s.withdraw_cache
      ≡ record {
        owner = codes "0xaa";
        recipient = codes "0xbb";
        amount = amount 4;
        token = mtrg;
        place = place;
      }
        ∷ [])
    × (s.db (codes "b1") ≡ some (new_bucket source (on_chain (codes "b1"))))
    × (s.db (codes "b2") ≡ some (new_bucket source (on_chain (codes "b2"))))
unfolding handle_native_bucket_event push_withdraw is_withdrawal bucket_ids touched update_buckets
    update_bucket same_text to_lower_case ◌>>=◌
withdrawn_run = (refl, refl, refl)

idle-IsKeyed : IsKeyed source idle.db
idle-IsKeyed = record {
  gives = λ id b given. let is : on_chain id ≡ b = cc in ap (λ (x : ChainBucket). x.id) (sym is);
  keyed = λ k bkt found. absurd cc;
}

both_returned : (update_buckets source (codes "b1" ∷ codes "b2" ∷ []) idle.db).0 ≡ ok tt
unfolding update_buckets update_bucket same_text ◌>>=◌
both_returned = refl

update_buckets-IsCurrent_example :
    All
      (IsCurrent source (update_buckets source (codes "b1" ∷ codes "b2" ∷ []) idle.db).1)
      (codes "b1" ∷ codes "b2" ∷ [])
update_buckets-IsCurrent_example =
    update_buckets-IsCurrent source (codes "b1" ∷ codes "b2" ∷ []) idle.db idle-IsKeyed
      both_returned
