-- ===== src/SyncLoop/Tests.antt =====
-- Runs of the loop over a node with a few blocks, and its theorems at concrete inputs.
use scan_service.Prelude.{
  ◌≤◌, arith, ℕ, ◌+◌, ◌-◌, ◌==◌, ◌≡◌, refl, false, none, some, List, [], ◌∷◌, ◌++◌, if◌then◌else◌,
}
use scan_service.Prelude.Text.{codes}
use scan_service.Prelude.Exec.{ok, ◌>>=◌}
use scan_service.SyncLoop.{
  Block, failed, empty, fetched, Round, Work, Sync, Outcome, continued, on_work, push_block,
  process_block, update_head, save_list, save_blocks, save_cache_to_db, clean_cache, interrupting,
  import_one, import_blocks, next_num, end_num, finish, import_window, import_round, prepare, round,
  clean_up_to_head, recovered, iterate, iterations, loop,
}
use scan_service.SyncLoop.Saved.{HasSaved}
use scan_service.SyncLoop.Rounds.{round-HasSaved}
use scan_service.SyncLoop.Complete.{numbers, IsHonest, IsComplete, round-IsComplete}
use scan_service.SyncLoop.CatchUp.{AllReturn, iterations-reach}

-- Other caches that hold nothing, and a collection that takes every block.
abbrev idle : Work
idle = record {
  State = Unit {0};
  process = λ b s. (ok tt, s);
  process_genesis = λ s. (ok tt, s);
  update_tx_fee_beneficiary = λ h s. (ok tt, s);
  reset_beneficiary = λ s. s;
  save = λ s. (ok tt, s);
  handle_rebasing = λ s. (ok tt, s);
  clean = λ s. s;
  clean_up = λ h s. (ok tt, s);
  bulk_insert = λ new old. (ok tt, old ++ new);
  bulk_insert-ok = λ new old h. refl;
}

abbrev start : Sync idle
start = record { head = none; blocks = []; blocks_cache = []; work = tt }

abbrev block : ℕ → Block
block n = record { number = n; hash = codes "0x" ++ n ∷ [] }

abbrev up_to : ℕ → Round
up_to n = record { shutdown = false; best = some n; fetch = λ i. fetched (block i) }

abbrev honest_up_to : (n : ℕ) → IsHonest (up_to n)
honest_up_to n = record { best = n; is_best = refl; gives = λ i h. (block i, refl, refl) }

-- A node that has nothing at number 1 yet: the number is left out for good.
abbrev with_gap : Round
with_gap = record (up_to 2) { fetch = λ i. if i == 1 then empty else fetched (block i) }

abbrev blocks_of : Outcome idle → List ℕ
blocks_of (continued s) = numbers s.blocks
blocks_of _ = []

with_gap_run : blocks_of (loop idle (with_gap ∷ up_to 3 ∷ []) start) ≡ 0 ∷ 2 ∷ 3 ∷ []
unfolding loop iterations iterate recovered clean_up_to_head round prepare import_round
    import_window import_blocks import_one interrupting process_block push_block save_cache_to_db
    save_blocks save_list update_head clean_cache finish on_work ◌>>=◌
with_gap_run = refl

-- In a fast-forward round a request fails after block 0 is processed. The cache is not cleaned, and
-- the block is saved twice by the next round.
abbrev breaks_off : Round
breaks_off = record (up_to 200) { fetch = λ i. if i == 0 then fetched (block i) else failed }

breaks_off_run : blocks_of (loop idle (breaks_off ∷ up_to 0 ∷ []) start) ≡ 0 ∷ 0 ∷ []
unfolding loop iterations iterate recovered clean_up_to_head round prepare import_round
    import_window import_blocks import_one interrupting process_block push_block save_cache_to_db
    save_blocks save_list update_head clean_cache finish on_work ◌>>=◌
breaks_off_run = refl

first_returns : (round idle (up_to 1) start).0 ≡ ok tt
unfolding round prepare import_round import_window import_blocks import_one interrupting
    process_block push_block save_cache_to_db save_blocks save_list update_head clean_cache finish
    on_work ◌>>=◌
first_returns = refl

start-IsComplete : IsComplete idle start
start-IsComplete = record { stored = refl; is_clean = refl }

round-HasSaved_example :
    HasSaved idle (block 0 ∷ block 1 ∷ []) [] start (round idle (up_to 1) start).1
round-HasSaved_example = round-HasSaved idle (up_to 1) start refl first_returns

round-IsComplete_example :
    IsComplete idle (round idle (up_to 1) start).1
    × (next_num idle (round idle (up_to 1) start).1.head ≡ 0 + (end_num idle 0 1 - 0))
round-IsComplete_example =
    round-IsComplete idle (up_to 1) start (honest_up_to 1) start-IsComplete first_returns

-- From nothing to block 1 in one round.
one_returns : AllReturn idle 1 (up_to 1 ∷ []) start
one_returns = (honest_up_to 1, le, first_returns, tt)
  where
    le : 1 ≤ 1
    le = omega arith

iterations-reach_example :
    (t : Sync idle) × (iterations idle (up_to 1 ∷ []) start ≡ continued t)
    × IsComplete idle t
    × (2 ≤ next_num idle t.head)
iterations-reach_example =
    iterations-reach idle 1 (up_to 1 ∷ []) start start-IsComplete one_returns (omega arith)
