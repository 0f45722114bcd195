-- ===== src/SyncLoop/Import.antt =====
-- The loop over the numbers of a window, in either of the two modes.
use scan_service.SyncLoop.Saved.{HasSaved, HasSaved-trans, save_and_clean-HasSaved}
use scan_service.Prelude.{
  ℕ, zero, suc, ◌≡◌, ◌≢◌, refl, ap, sym, subst, ◌∙◌, Bool, true, false, List, [], ◌∷◌, ◌++◌,
  if◌then◌else◌, append-nil, append_assoc, inl, inr,
}
use scan_service.Prelude.Exec.{
  Result-cases, ok, err, Exec, pure, throw, ◌>>=◌, ◌>>◌, >>=-ok, node_failed, interrupted,
}
use scan_service.SyncLoop.{
  Block, Fetched, failed, empty, fetched, Work, Sync, on_work, push_block, process_block,
  save_cache_to_db, clean_cache, interrupting, import_one, import_blocks,
}

abbrev pub and_block : Fetched → List Block → List Block
and_block failed l = l
and_block empty l = l
and_block (fetched b) l = b ∷ l

-- The blocks that the node gives for `n` numbers from `num` on.
abbrev pub fetched_from : (ℕ → Fetched) → ℕ → ℕ → List Block
fetched_from fetch zero num = []
fetched_from fetch (suc n) num = and_block (fetch num) (fetched_from fetch n (suc num))

-- What is saved right away, and what the cache has in the end.
abbrev pub at_once : Bool → List Block → List Block
at_once true l = []
at_once false l = l

abbrev pub kept : Bool → List Block → List Block
kept true l = l
kept false l = []

module _ (w : Work) where
  interrupting-ok :
      (m : Exec (Sync w) (Unit {0})) (s : Sync w)
      → (interrupting w m s).0 ≡ ok tt
      → ((m s).0 ≡ ok tt) × ((interrupting w m s).1 ≡ (m s).1)
  unfolding interrupting
  interrupting-ok m s returned = elim (Result-cases (m s).0) [
    | inl (u, inner) ↦ (inner, rw (inner, interrupting) refl)
    | inr (f, thrown) ↦
        let stops : (interrupting w m s).0 ≡ err interrupted = rw (thrown, interrupting) refl in
        absurd cc
  ]

  process_block-HasSaved :
      (b : Block) (s : Sync w)
      → (interrupting w (process_block w b) s).0 ≡ ok tt
      → HasSaved w [] (s.blocks_cache ++ b ∷ []) s (interrupting w (process_block w b) s).1
  unfolding process_block push_block on_work
  process_block-HasSaved b s returned =
      let (inner, same) = interrupting-ok (process_block w b) s returned in
      let (_, _, _, after) = >>=-ok (on_work w (w.process b)) (λ _. push_block w b) s inner in
      rw (same, after) (record { saved = sym (append-nil s.blocks); moved = refl; cached = refl })

  at_once-append : (f : Bool) (l k : List Block) → at_once f l ++ at_once f k ≡ at_once f (l ++ k)
  at_once-append true l k = refl
  at_once-append false l k = refl

  kept_idem : (f : Bool) (l : List Block) → kept f (kept f l) ≡ kept f l
  kept_idem true l = refl
  kept_idem false l = refl

  kept-append :
      (f : Bool) (c l k : List Block) → kept f (kept f (c ++ l) ++ k) ≡ kept f (c ++ (l ++ k))
  kept-append true c l k = append_assoc c l k
  kept-append false c l k = refl

  pub HasSaved-cast :
      {l k c d : List Block} {s t : Sync w}
      → l ≡ k
      → c ≡ d
      → HasSaved w l c s t
      → HasSaved w k d s t
  HasSaved-cast {s = s} {t} p q h =
      subst (λ (x : List Block × List Block). HasSaved w x.0 x.1 s t) (λ i. (p i, q i)) h

  abbrev pub and_save : Bool → Exec (Sync w) (Unit {0})
  and_save fastforward = if fastforward then pure tt else save_cache_to_db w >> clean_cache w

  one_block-HasSaved :
      (fastforward : Bool) (b : Block) (s : Sync w)
      → kept fastforward s.blocks_cache ≡ s.blocks_cache
      → ((interrupting w (process_block w b) >> and_save fastforward) s).0 ≡ ok tt
      → HasSaved w
          (at_once fastforward (b ∷ []))
          (kept fastforward (s.blocks_cache ++ b ∷ []))
          s
          ((interrupting w (process_block w b) >> and_save fastforward) s).1
  unfolding ◌>>=◌
  one_block-HasSaved true b s clean returned =
      let (_, first, _, after) =
        >>=-ok (interrupting w (process_block w b)) (λ _. pure tt) s returned in
      rw after (process_block-HasSaved b s first)
  one_block-HasSaved false b s clean returned =
      let (_, first, second, after) =
        >>=-ok (interrupting w (process_block w b)) (λ _. save_cache_to_db w >> clean_cache w) s
          returned in
      let p = process_block-HasSaved b s first in
      let t = (interrupting w (process_block w b) s).1 in
      rw after (
        HasSaved-cast {l = [] ++ t.blocks_cache} {c = []}
          (p.cached ∙ ap (λ c. c ++ b ∷ []) (sym clean)) refl
          (HasSaved-trans w [] t.blocks_cache (s.blocks_cache ++ b ∷ []) [] s t _ p
            (save_and_clean-HasSaved w t second)))

  pub not_returned : (s : Sync w) → (throw {S = Sync w} {A = Unit {0}} node_failed s).0 ≢ ok tt
  unfolding ◌>>=◌
  not_returned s h = absurd cc

  import_one-HasSaved :
      (fastforward : Bool) (a : Fetched) (rest : Exec (Sync w) (Unit {0})) (l : List Block)
      → ((t : Sync w)
          → kept fastforward t.blocks_cache ≡ t.blocks_cache
          → (rest t).0 ≡ ok tt
          → HasSaved w
              (at_once fastforward l)
              (kept fastforward (t.blocks_cache ++ l))
              t
              (rest t).1)
      → (s : Sync w) → kept fastforward s.blocks_cache ≡ s.blocks_cache
      → (import_one w fastforward a rest s).0 ≡ ok tt
      → HasSaved w
          (at_once fastforward (and_block a l))
          (kept fastforward (s.blocks_cache ++ and_block a l))
          s
          (import_one w fastforward a rest s).1
  unfolding import_one
  import_one-HasSaved fastforward failed rest l continues s clean returned =
      absurd (not_returned s returned)
  import_one-HasSaved fastforward empty rest l continues s clean returned =
      continues s clean returned
  import_one-HasSaved fastforward (fetched b) rest l continues s clean returned =
      let m = interrupting w (process_block w b) >> and_save fastforward in
      let (_, first, second, after) = >>=-ok m (λ _. rest) s returned in
      let p = one_block-HasSaved fastforward b s clean first in
      let t = (m s).1 in
      let clean' =
        ap (kept fastforward) p.cached
        ∙ kept_idem fastforward (s.blocks_cache ++ b ∷ [])
        ∙ sym p.cached in
      rw after (
        HasSaved-cast (at_once-append fastforward (b ∷ []) l)
          (ap (λ c. kept fastforward (c ++ l)) p.cached
            ∙ kept-append fastforward s.blocks_cache (b ∷ []) l)
          (HasSaved-trans w _ _ _ _ s t _ p (continues t clean' second)))

  pub import_blocks-HasSaved :
      (fetch : ℕ → Fetched) (fastforward : Bool) (n num : ℕ) (s : Sync w)
      → kept fastforward s.blocks_cache ≡ s.blocks_cache
      → (import_blocks w fetch fastforward n num s).0 ≡ ok tt
      → let l = fetched_from fetch n num in
        HasSaved w
          (at_once fastforward l)
          (kept fastforward (s.blocks_cache ++ l))
          s
          (import_blocks w fetch fastforward n num s).1
  unfolding import_blocks ◌>>=◌
  import_blocks-HasSaved fetch fastforward zero num s clean returned =
      HasSaved-cast (at_once_nil fastforward)
        (sym clean ∙ ap (kept fastforward) (sym (append-nil s.blocks_cache)))
        (record { saved = sym (append-nil s.blocks); moved = refl; cached = refl })
    where
      at_once_nil : (f : Bool) → [] ≡ at_once f []
      at_once_nil true = refl
      at_once_nil false = refl
  import_blocks-HasSaved fetch fastforward (suc n) num s clean returned =
      import_one-HasSaved fastforward (fetch num) (import_blocks w fetch fastforward n (suc num))
        (fetched_from fetch n (suc num)) (import_blocks-HasSaved fetch fastforward n (suc num)) s
        clean returned
