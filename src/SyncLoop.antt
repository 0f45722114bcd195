-- ===== src/SyncLoop.antt =====
-- PosCMD.loop of src/cmd/pos.cmd.ts, with saveCacheToDB, updateHead, cleanCache and the clean-up after
-- an error as far as they change the head, the collection of blocks and the cache of blocks. What
-- they do to the other caches and collections is behind the interface `Work`.
pub mod Saved
pub mod Import
pub mod Rounds
pub mod Complete
pub mod CatchUp
mod Tests
use scan_service.Prelude.{
  ℕ, zero, suc, ◌+◌, ◌-◌, ltb, leb, ◌≡◌, Bool, true, false, not, Option, none, some, List, [], ◌∷◌,
  ◌++◌, if◌then◌else◌,
}
use scan_service.Prelude.Text.{Text}
use scan_service.Prelude.Exec.{
  Failure, interrupted, node_failed, Result, ok, err, Exec, pure, throw, ◌>>=◌, ◌>>◌,
}

-- model/head.ts, and the parts of a block that are read here
pub record Head : Type 0 where
  pub num : ℕ
  pub hash : Text

pub record Block : Type 0 where
  pub number : ℕ
  pub hash : Text

-- `getBlockFromREST`: the request fails, or gives nothing, or a block
pub data Fetched : Type 0 where
  failed empty : Fetched
  fetched : Block → Fetched

-- What a round meets: whether `stop` was called, the best number (`none`: the request fails), and the
-- answers of the node.
pub record Round : Type 0 where
  pub shutdown : Bool
  pub best : Option ℕ
  pub fetch : ℕ → Fetched

-- What the other parts of PosCMD do, on a state of their own.
pub record Work : Type 1 where
  pub State : Type 0
  -- processBlock up to `blocksCache.push`
  pub process : Block → Exec State (Unit {0})
  pub process_genesis : Exec State (Unit {0})
  pub update_tx_fee_beneficiary : Head → Exec State (Unit {0})
  pub reset_beneficiary : State → State
  -- saveCacheToDB before the blocks, and `handleRebasing` after them
  pub save : Exec State (Unit {0})
  pub handle_rebasing : Exec State (Unit {0})
  -- cleanCache and cleanUpIncompleteData but for the blocks
  pub clean : State → State
  pub clean_up : Head → Exec State (Unit {0})
  -- `blockRepo.bulkInsert` into a collection; where it returns, all are there
  pub bulk_insert : List Block → List Block → Result (Unit {0}) × List Block
  pub bulk_insert-ok :
      (new old : List Block)
      → (bulk_insert new old).0 ≡ ok tt
      → (bulk_insert new old).1 ≡ old ++ new

abbrev pub loop_window : ℕ
loop_window = 100

module _ (w : Work) where
  pub record Sync : Type 0 where
    pub head : Option Head
    pub blocks : List Block
    pub blocks_cache : List Block
    pub work : w.State

  unfoldable pub on_work : Exec w.State (Unit {0}) → Exec Sync (Unit {0})
  on_work m s = let (r, x) = m s.work in (r, record s { work = x })

  -- `this.blocksCache.push(block)`
  unfoldable pub push_block : Block → Exec Sync (Unit {0})
  push_block b s = (ok tt, record s { blocks_cache = s.blocks_cache ++ b ∷ [] })

  unfoldable pub process_block : Block → Exec Sync (Unit {0})
  process_block b = on_work (w.process b) >> push_block b

  -- The head is created, or its number and hash are set.
  unfoldable pub update_head : ℕ → Text → Option Head → Option Head
  update_head num hash none = some (record { num = num; hash = hash })
  update_head num hash (some h) = some (record h { num = num; hash = hash })

  abbrev pub last : Block → List Block → Block
  last b [] = b
  last b (c ∷ l) = last c l

  -- The blocks of the cache are inserted, and the last of them becomes the head.
  unfoldable pub save_list : List Block → Exec Sync (Unit {0})
  save_list [] s = (ok tt, s)
  save_list (b ∷ l) s =
      let (r, stored) = w.bulk_insert (b ∷ l) s.blocks in
      elim r [
        | err f ↦ (err f, record s { blocks = stored })
        | ok _ ↦ (
          ok tt,
          record s { blocks = stored; head = update_head (last b l).number (last b l).hash s.head },
        )
      ]

  unfoldable pub save_blocks : Exec Sync (Unit {0})
  save_blocks s = save_list s.blocks_cache s

  unfoldable pub save_cache_to_db : Exec Sync (Unit {0})
  save_cache_to_db = on_work w.save >> save_blocks >> on_work w.handle_rebasing

  unfoldable pub clean_cache : Exec Sync (Unit {0})
  clean_cache s = (ok tt, record s { blocks_cache = []; work = w.clean s.work })

  -- An error of processBlock becomes an InterruptedError.
  unfoldable pub interrupting : Exec Sync (Unit {0}) → Exec Sync (Unit {0})
  interrupting m s =
      let (r, s') = m s in elim r [ ok _ ↦ (ok tt, s') | err f ↦ (err interrupted, s') ]

  -- One number of the window, with the rest of the loop.
  unfoldable pub import_one : Bool → Fetched → Exec Sync (Unit {0}) → Exec Sync (Unit {0})
  import_one fastforward failed rest = throw node_failed
  import_one fastforward empty rest = rest
  import_one fastforward (fetched b) rest =
      interrupting (process_block b)
      >> (if fastforward then pure tt else save_cache_to_db >> clean_cache)
      >> rest

  -- `for (let num = headNum + 1; num <= endNum; num++)`, by the number of rounds that are left
  unfoldable pub import_blocks : (ℕ → Fetched) → Bool → ℕ → ℕ → Exec Sync (Unit {0})
  import_blocks fetch fastforward zero num = pure tt
  import_blocks fetch fastforward (suc n) num =
      import_one fastforward (fetch num) (import_blocks fetch fastforward n (suc num))

  -- `headNum + 1`, where no head is -1
  abbrev pub next_num : Option Head → ℕ
  next_num none = 0
  next_num (some h) = suc h.num

  -- `endNum + 1`
  abbrev pub end_num : ℕ → ℕ → ℕ
  end_num next best = if ltb best (next + loop_window - 1) then suc best else next + loop_window

  unfoldable pub finish : Bool → Exec Sync (Unit {0})
  finish true =
      save_cache_to_db
      >> clean_cache
      >> (λ s. (ok tt, record s { work = w.reset_beneficiary s.work }))
  finish false = pure tt

  -- A round is skipped, or it imports `n` blocks.
  unfoldable pub import_window : (ℕ → Fetched) → Bool → Bool → ℕ → ℕ → Exec Sync (Unit {0})
  import_window fetch true fastforward n next = pure tt
  import_window fetch false fastforward n next =
      import_blocks fetch fastforward n next >> finish fastforward

  -- The round from the best number on: `endNum <= headNum` skips it.
  unfoldable pub import_round : (ℕ → Fetched) → ℕ → Option ℕ → Exec Sync (Unit {0})
  import_round fetch next none = throw node_failed
  import_round fetch next (some best) =
      let end = end_num next best in
      import_window fetch (leb end next) (ltb end (suc best)) (end - next) next

  unfoldable pub prepare : Option Head → Exec Sync (Unit {0})
  prepare none = on_work w.process_genesis
  prepare (some h) = on_work (w.update_tx_fee_beneficiary h)

  -- The body of the loop's `try`.
  unfoldable pub round : Round → Exec Sync (Unit {0})
  round r s =
      if r.shutdown
      then (err interrupted, s)
      else (prepare s.head >> import_round r.fetch (next_num s.head) r.best) s

  -- `blockRepo.deleteAfter`
  unfoldable pub delete_after : ℕ → List Block → List Block
  delete_after num [] = []
  delete_after num (b ∷ l) =
      let rest = delete_after num l in if leb b.number num then b ∷ rest else rest

  unfoldable pub clean_up_incomplete_data : Head → Exec Sync (Unit {0})
  clean_up_incomplete_data head s =
      on_work (w.clean_up head) (record s { blocks = delete_after head.num s.blocks })

  unfoldable pub clean_up_to_head : Exec Sync (Unit {0})
  clean_up_to_head s = elim s.head [ none ↦ (ok tt, s) | some h ↦ clean_up_incomplete_data h s ]

  -- How an iteration of the loop ends: it goes on, it quits, or the clean-up throws.
  pub data Outcome : Type 0 where
    continued quit : Sync → Outcome
    thrown : Failure → Sync → Outcome

  abbrev pub is_interrupted : Failure → Bool
  is_interrupted interrupted = true
  is_interrupted _ = false

  unfoldable pub recovered : Result (Unit {0}) × Sync → Outcome
  recovered (ok _, s) = continued s
  recovered (err f, s) = thrown f s

  unfoldable pub iterate : Round → Sync → Outcome
  iterate r s =
      let (result, s') = round r s in
      elim result [
        | ok _ ↦ continued s'
        | err f ↦ if is_interrupted f then quit s' else recovered (clean_up_to_head s')
      ]

  -- The iterations of the loop, as long as there are rounds.
  unfoldable pub iterations : List Round → Sync → Outcome
  iterations [] s = continued s
  iterations (r ∷ rounds) s = elim (iterate r s) [
    | continued s' ↦ iterations rounds s'
    | quit s' ↦ quit s'
    | thrown f s' ↦ thrown f s'
  ]

  -- The loop starts with a clean-up, if there is a head.
  unfoldable pub loop : List Round → Sync → Outcome
  loop rounds s = elim (recovered (clean_up_to_head s)) [
    | continued s' ↦ iterations rounds s'
    | quit s' ↦ quit s'
    | thrown f s' ↦ thrown f s'
  ]
