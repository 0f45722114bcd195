-- ===== src/SyncLoop/CatchUp.antt =====
-- The loop reaches the node.
use scan_service.Prelude.{ℕ, suc, ◌+◌, ◌-◌, ◌*◌, ◌≤◌, ◌≡◌, refl, ◌∙◌, List, [], ◌∷◌, arith, length}
use scan_service.Prelude.Exec.{ok}
use scan_service.SyncLoop.{
  Work, Sync, Round, continued, round, iterate, iterations, next_num, end_num, loop_window,
}
use scan_service.SyncLoop.Complete.{IsHonest, IsComplete, round-IsComplete}

module _ (w : Work) (target : ℕ) where
  -- Rounds return one after the other, and the best number of the node is never below the target.
  abbrev pub AllReturn : List Round → Sync w → Type 0
  AllReturn [] s = Unit
  AllReturn (r ∷ rounds) s =
      (honest : IsHonest r) × (target ≤ honest.best)
      × ((round w r s).0 ≡ ok tt)
      × AllReturn rounds (round w r s).1

  iterate-continued :
      (r : Round) (s : Sync w) → (round w r s).0 ≡ ok tt → iterate w r s ≡ continued (round w r s).1
  unfolding iterate
  iterate-continued r s returned = rw (returned, iterate) refl

  iterations-continued :
      (r : Round) (rounds : List Round) (s s' : Sync w)
      → iterate w r s ≡ continued s'
      → iterations w (r ∷ rounds) s ≡ iterations w rounds s'
  unfolding iterations
  iterations-continued r rounds s s' h = rw (h, iterations) refl

  left_after :
      (next best n : ℕ)
      → target ≤ best
      → suc target ≤ next + loop_window * suc n
      → suc target ≤ next + (end_num w next best - next) + loop_window * n
  left_after next best n above bound = ground arith

  -- If the collection has every number up to the head once and in order, no block waits in the cache,
  -- and rounds return one after the other, with a node that has a block of every number up to its best
  -- one, which is never below a target, and there are rounds enough for the blocks up to the target at
  -- 100 to a round, then the iterations of the loop end by going on, the collection has every number
  -- up to the head once and in order, no block waits, and the head has reached the target.
  pub iterations-reach :
      (rounds : List Round) (s : Sync w)
      → IsComplete w s
      → AllReturn rounds s
      → suc target ≤ next_num w s.head + loop_window * length rounds
      → (t : Sync w) × (iterations w rounds s ≡ continued t)
        × IsComplete w t
        × (suc target ≤ next_num w t.head)
  unfolding iterations
  iterations-reach [] s h returned bound = (s, refl, h, omega arith)
  iterations-reach (r ∷ rounds) s h (honest, above, returned, rest) bound =
      let (complete, moved) = round-IsComplete w r s honest h returned in
      let s' = (round w r s).1 in
      let bound' : suc target ≤ next_num w s'.head + loop_window * length rounds =
        omega
          (arith, moved, left_after (next_num w s.head) honest.best (length rounds) above bound) in
      let (t, goes_on, result, reached) = iterations-reach rounds s' complete rest bound' in
      (
        t,
        iterations-continued r rounds s s' (iterate-continued r s returned) ∙ goes_on,
        result,
        reached,
      )
