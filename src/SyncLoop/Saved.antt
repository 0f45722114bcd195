-- ===== src/SyncLoop/Saved.antt =====
-- What a round that returns has saved, in either of the two modes.
use scan_service.Prelude.{
  ◌≡◌, refl, ap, sym, ◌∙◌, Option, none, some, List, [], ◌∷◌, ◌++◌, append-nil, append_assoc, inl,
  inr,
}
use scan_service.Prelude.Exec.{Result-cases, ok, err, Exec, ◌>>◌, >>=-ok}
use scan_service.SyncLoop.{
  Head, Block, Work, Sync, on_work, update_head, last, save_list, save_blocks, save_cache_to_db,
  clean_cache,
}

-- The head after some blocks.
abbrev pub advance : Option Head → List Block → Option Head
advance h [] = h
advance h (b ∷ l) = advance (some (record { num = b.number; hash = b.hash })) l

advance-append : (h : Option Head) (l k : List Block) → advance h (l ++ k) ≡ advance (advance h l) k
advance-append h [] k = refl
advance-append h (b ∷ l) k = advance-append _ l k

module _ (w : Work) where
  advance-last :
      (h : Option Head) (b : Block) (l : List Block)
      → update_head w (last w b l).number (last w b l).hash h ≡ advance h (b ∷ l)
  unfolding update_head
  advance-last none b [] = refl
  advance-last (some h) b [] = refl
  advance-last h b (c ∷ l) = advance-last h c l

  -- How a state stands to one before: blocks were added, and the head moved along them.
  pub record HasSaved (l cache : List Block) (s s' : Sync w) : Type 0 where
    pub saved : s'.blocks ≡ s.blocks ++ l
    pub moved : s'.head ≡ advance s.head l
    pub cached : s'.blocks_cache ≡ cache

  pub on_work-HasSaved :
      (m : Exec w.State (Unit {0})) (s : Sync w) → HasSaved [] s.blocks_cache s (on_work w m s).1
  unfolding on_work
  on_work-HasSaved m s = record { saved = sym (append-nil s.blocks); moved = refl; cached = refl }

  pub HasSaved-trans :
      (l k c d : List Block) (s t u : Sync w)
      → HasSaved l c s t
      → HasSaved k d t u
      → HasSaved (l ++ k) d s u
  HasSaved-trans l k c d s t u a b = record {
    saved = b.saved ∙ ap (λ x. x ++ k) a.saved ∙ append_assoc s.blocks l k;
    moved = b.moved ∙ ap (λ h. advance h k) a.moved ∙ sym (advance-append s.head l k);
    cached = b.cached;
  }

  save_list-HasSaved :
      (l : List Block) (s : Sync w)
      → (save_list w l s).0 ≡ ok tt
      → HasSaved l s.blocks_cache s (save_list w l s).1
  unfolding save_list
  save_list-HasSaved [] s returned = record {
    saved = sym (append-nil s.blocks);
    moved = refl;
    cached = refl;
  }
  save_list-HasSaved (b ∷ l) s returned = elim (Result-cases (w.bulk_insert (b ∷ l) s.blocks).0) [
    | inl (u, inserted) ↦
        rw (inserted, save_list)
          (record {
            saved = w.bulk_insert-ok (b ∷ l) s.blocks inserted;
            moved = advance-last s.head b l;
            cached = refl;
          })
    | inr (f, refused) ↦
        let thrown : (save_list w (b ∷ l) s).0 ≡ err f = rw (refused, save_list) refl in absurd cc
  ]

  save_cache_to_db-HasSaved :
      (s : Sync w)
      → (save_cache_to_db w s).0 ≡ ok tt
      → HasSaved s.blocks_cache s.blocks_cache s (save_cache_to_db w s).1
  unfolding save_cache_to_db save_blocks on_work
  save_cache_to_db-HasSaved s returned =
      let (_, first, _, after) =
        >>=-ok (on_work w w.save >> save_blocks w) (λ _. on_work w w.handle_rebasing) s returned in
      let (_, _, listed, after') = >>=-ok (on_work w w.save) (λ _. save_blocks w) s first in
      let t = (on_work w w.save s).1 in
      let h = save_list-HasSaved t.blocks_cache t listed in
      rw (after, after') (record { saved = h.saved; moved = h.moved; cached = h.cached })

  -- One block after the other: what is saved is what the cache had, and the cache is cleaned.
  pub save_and_clean-HasSaved :
      (s : Sync w)
      → ((save_cache_to_db w >> clean_cache w) s).0 ≡ ok tt
      → HasSaved s.blocks_cache [] s ((save_cache_to_db w >> clean_cache w) s).1
  unfolding clean_cache
  save_and_clean-HasSaved s returned =
      let (_, first, _, after) = >>=-ok (save_cache_to_db w) (λ _. clean_cache w) s returned in
      let h = save_cache_to_db-HasSaved s first in
      rw after (record { saved = h.saved; moved = h.moved; cached = refl })
