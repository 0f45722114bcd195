-- ===== src/SyncLoop/Complete.antt =====
-- The collection of blocks is complete up to the head.
use scan_service.Prelude.{
  ℕ, zero, suc, ◌+◌, ◌-◌, ◌≤◌, ◌<◌, ◌≡◌, refl, ap, sym, subst, ◌∙◌, Option, some, List, [], ◌∷◌,
  ◌++◌, map, map-append, arith,
}
use scan_service.Prelude.Exec.{ok}
use scan_service.SyncLoop.{Head, Block, fetched, Round, Work, Sync, next_num, end_num, round}
use scan_service.SyncLoop.Saved.{HasSaved, advance}
use scan_service.SyncLoop.Import.{fetched_from}
use scan_service.SyncLoop.Rounds.{window_from, round-HasSaved}

-- `n` numbers from `a` on
abbrev pub upfrom : ℕ → ℕ → List ℕ
upfrom a zero = []
upfrom a (suc n) = a ∷ upfrom (suc a) n

zero_plus : (n : ℕ) → 0 + n ≡ n
zero_plus n = omega arith

upfrom-append : (a n m b k : ℕ) → a + n ≡ b → n + m ≡ k → upfrom a n ++ upfrom b m ≡ upfrom a k
upfrom-append a zero m b k h e =
    let h' : b ≡ a = omega arith in let e' : m ≡ k = omega arith in λ i. upfrom (h' i) (e' i)
upfrom-append a (suc n) m b zero h e = absurd (omega arith)
upfrom-append a (suc n) m b (suc k) h e =
    ap (λ x. a ∷ x) (upfrom-append (suc a) n m b k (omega arith) (omega arith))

abbrev pub numbers : List Block → List ℕ
numbers = map (λ b. b.number)

-- The node has a block of each number up to the best one, and it bears this number.
pub record IsHonest (r : Round) : Type 0 where
  pub best : ℕ
  pub is_best : r.best ≡ some best
  pub gives : (num : ℕ) → num ≤ best → (b : Block) × (r.fetch num ≡ fetched b) × (b.number ≡ num)

module _ (w : Work) where
  -- Every number up to the head is stored once, in order, and no block waits in the cache.
  pub record IsComplete (s : Sync w) : Type 0 where
    pub stored : numbers s.blocks ≡ upfrom 0 (next_num w s.head)
    pub is_clean : s.blocks_cache ≡ []

  module _ (r : Round) (honest : IsHonest r) where
    fetched_from-numbers :
        (n num : ℕ)
        → (0 < n → num + n ≤ suc honest.best)
        → numbers (fetched_from r.fetch n num) ≡ upfrom num n
    fetched_from-numbers zero num h = refl
    fetched_from-numbers (suc n) num h =
        let (b, given, numbered) = honest.gives num (omega (arith, h (omega arith))) in
        rw (given, fetched_from)
          (λ i.
            numbered i ∷ fetched_from-numbers n (suc num) (λ _. omega (arith, h (omega arith))) i)

  next_num-advance :
      (h : Option Head) (l : List Block) (n : ℕ)
      → numbers l ≡ upfrom (next_num w h) n
      → next_num w (advance h l) ≡ next_num w h + n
  next_num-advance h [] zero e = omega arith
  next_num-advance h [] (suc n) e = absurd cc
  next_num-advance h (b ∷ l) zero e = absurd cc
  next_num-advance h (b ∷ l) (suc n) e =
      let first : b.number ≡ next_num w h = cc in
      let rest : numbers l ≡ upfrom (suc (next_num w h)) n = cc in
      let step =
        next_num-advance (some (record { num = b.number; hash = b.hash })) l n
          (rest ∙ ap (λ x. upfrom (suc x) n) (sym first)) in
      omega (arith, step, first)

  -- If the collection has every number up to the head once and in order, no block waits in the cache,
  -- and the node has a block of every number up to its best one, then after a round that returns the
  -- collection has every number up to the new head once and in order and no block waits, and the
  -- head is where it was or has moved up by as many blocks as the window has.
  pub round-IsComplete :
      (r : Round) (s : Sync w) (honest : IsHonest r)
      → IsComplete s
      → (round w r s).0 ≡ ok tt
      → let next = next_num w s.head in
        IsComplete (round w r s).1
        × (next_num w (round w r s).1.head ≡ next + (end_num w next honest.best - next))
  round-IsComplete r s honest h returned =
      let next : ℕ = next_num w s.head in
      let n : ℕ = end_num w next honest.best - next in
      let l = fetched_from r.fetch n next in
      let saved : HasSaved w l [] s (round w r s).1 =
        subst (λ b. HasSaved w (window_from w r.fetch next b) [] s (round w r s).1) honest.is_best
          (round-HasSaved w r s h.is_clean returned) in
      let added : numbers l ≡ upfrom next n =
        fetched_from-numbers r honest n next (λ some_left. ground arith) in
      let moved : next_num w (round w r s).1.head ≡ next + n =
        ap (next_num w) saved.moved ∙ next_num-advance s.head l n added in
      (
        record {
          stored =
              ap numbers saved.saved
              ∙ map-append (λ b. b.number) s.blocks l
              ∙ (λ i. h.stored i ++ added i)
              ∙ upfrom-append 0 next n next (next + n) (zero_plus next) refl
              ∙ ap (upfrom 0) (sym moved);
          is_clean = saved.cached;
        },
        moved,
      )
