-- ===== src/SyncLoop/Rounds.antt =====
-- What a round that returns has saved.
use scan_service.SyncLoop.Saved.{
  HasSaved, HasSaved-trans, save_and_clean-HasSaved, on_work-HasSaved,
}
use scan_service.SyncLoop.Import.{
  fetched_from, at_once, kept, HasSaved-cast, import_blocks-HasSaved, not_returned,
}
use scan_service.Prelude.{
  ℕ, ◌-◌, ◌≡◌, refl, ap, sym, ◌∙◌, Bool, true, false, Option, none, some, List, [], ◌++◌,
  append-nil, inl, inr, Bool-cases, arith, leb→le,
}
use scan_service.Prelude.Exec.{ok, err, ◌>>=◌, ◌>>◌, >>=-ok, interrupted}
use scan_service.SyncLoop.{
  Head, Block, Fetched, Round, Work, Sync, save_cache_to_db, clean_cache, import_blocks, next_num,
  end_num, finish, import_window, import_round, prepare, round,
}

module _ (w : Work) where
  -- The blocks of the window of a round.
  abbrev pub window_from : (ℕ → Fetched) → ℕ → Option ℕ → List Block
  window_from fetch next none = []
  window_from fetch next (some best) = fetched_from fetch (end_num w next best - next) next

  prepare-HasSaved :
      (h : Option Head) (s : Sync w) → HasSaved w [] s.blocks_cache s (prepare w h s).1
  unfolding prepare
  prepare-HasSaved none s = on_work-HasSaved w w.process_genesis s
  prepare-HasSaved (some h) s = on_work-HasSaved w (w.update_tx_fee_beneficiary h) s

  finish-HasSaved :
      (fastforward : Bool) (l : List Block) (s t : Sync w)
      → HasSaved w (at_once fastforward l) (kept fastforward l) s t
      → (finish w fastforward t).0 ≡ ok tt
      → HasSaved w l [] s (finish w fastforward t).1
  unfolding finish ◌>>=◌
  finish-HasSaved false l s t h returned = h
  finish-HasSaved true l s t h returned =
      let (_, first, _, after) =
        >>=-ok (save_cache_to_db w >> clean_cache w)
          (λ _ x. (ok tt, record x { work = w.reset_beneficiary x.work })) t returned in
      let k = save_and_clean-HasSaved w t first in
      let both = HasSaved-trans w [] t.blocks_cache l [] s t _ h k in
      rw after (
        HasSaved-cast w {l = t.blocks_cache} {c = []} h.cached refl
          (record { saved = both.saved; moved = both.moved; cached = both.cached }))

  import_window-HasSaved :
      (fetch : ℕ → Fetched) (skips fastforward : Bool) (n next : ℕ) (s : Sync w)
      → (skips ≡ true → n ≡ 0)
      → s.blocks_cache ≡ []
      → (import_window w fetch skips fastforward n next s).0 ≡ ok tt
      → HasSaved w
          (fetched_from fetch n next)
          []
          s
          (import_window w fetch skips fastforward n next s).1
  unfolding import_window ◌>>=◌
  import_window-HasSaved fetch true fastforward n next s skipped clean returned =
      rw (skipped refl) (record { saved = sym (append-nil s.blocks); moved = refl; cached = clean })
  import_window-HasSaved fetch false fastforward n next s skipped clean returned =
      let (_, first, second, after) =
        >>=-ok (import_blocks w fetch fastforward n next) (λ _. finish w fastforward) s returned in
      let l = fetched_from fetch n next in
      let imported =
        import_blocks-HasSaved w fetch fastforward n next s (kept_nil fastforward) first in
      rw after (
        finish-HasSaved fastforward l s _
          (HasSaved-cast w refl (ap (λ c. kept fastforward (c ++ l)) clean) imported) second)
    where
      kept_nil : (f : Bool) → kept f s.blocks_cache ≡ s.blocks_cache
      kept_nil true = refl
      kept_nil false = sym clean

  import_round-HasSaved :
      (fetch : ℕ → Fetched) (next : ℕ) (best : Option ℕ) (s : Sync w)
      → s.blocks_cache ≡ []
      → (import_round w fetch next best s).0 ≡ ok tt
      → HasSaved w (window_from fetch next best) [] s (import_round w fetch next best s).1
  unfolding import_round ◌>>=◌
  import_round-HasSaved fetch next none s clean returned = absurd (not_returned w s returned)
  import_round-HasSaved fetch next (some best) s clean returned =
      import_window-HasSaved fetch _ _ (end_num w next best - next) next s
        (λ h. ground (arith, leb→le (end_num w next best) next h)) clean returned

  -- A round that returns, begun with no block in the cache, ends with none. In either mode the
  -- blocks of its window are added to the collection, behind those that were there and in the order
  -- of their numbers, and the head moves along them to the last one.
  pub round-HasSaved :
      (r : Round) (s : Sync w)
      → s.blocks_cache ≡ []
      → (round w r s).0 ≡ ok tt
      → HasSaved w (window_from r.fetch (next_num w s.head) r.best) [] s (round w r s).1
  unfolding round
  round-HasSaved r s clean returned = elim (Bool-cases r.shutdown) [
    | inl stops ↦
        let thrown : (round w r s).0 ≡ err interrupted = rw (stops, round) refl in absurd cc
    | inr runs ↦
        let body = import_round w r.fetch (next_num w s.head) r.best in
        let goes_on : (round w r s) ≡ (prepare w s.head >> body) s = rw (runs, round) refl in
        let (_, _, second, after) =
          >>=-ok (prepare w s.head) (λ _. body) s (ap (λ x. x.0) (sym goes_on) ∙ returned) in
        let p = prepare-HasSaved s.head s in
        let t = (prepare w s.head s).1 in
        let k =
          import_round-HasSaved r.fetch (next_num w s.head) r.best t (p.cached ∙ clean) second in
        rw (goes_on, after) (HasSaved-trans w [] _ s.blocks_cache [] s t _ p k)
  ]
