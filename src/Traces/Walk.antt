-- ===== src/Traces/Walk.antt =====
-- The loops with a queue of frames: enough fuel, and what does not depend on the order of the queue.
use mathlib.Core.List.{Perm, perm_append_comm, perm-append_left_iff}
use mathlib.Core.List.Perm
use scan_service.Prelude.{
  ℕ, zero, suc, ◌+◌, ◌≤◌, ◌≡◌, refl, ap, sym, ◌∙◌, Bool, false, ◌||◌, some, List, [], ◌∷◌, ◌++◌,
  append_assoc, append-nil, arith,
}
use scan_service.Traces.{walk}

-- The sum of the sizes, what the items give, and whether one of them passes.
module _ {N : Type 0} where
  abbrev pub total : (N → ℕ) → List N → ℕ
  total size [] = 0
  total size (n ∷ q) = size n + total size q

  abbrev pub all_of : {A : Type 0} → (N → List A) → List N → List A
  all_of flat [] = []
  all_of flat (n ∷ q) = flat n ++ all_of flat q

  abbrev pub any_of : (N → Bool) → List N → Bool
  any_of test [] = false
  any_of test (n ∷ q) = test n || any_of test q

  pub total-append :
      (size : N → ℕ) (p q : List N) → total size (p ++ q) ≡ total size p + total size q
  total-append size [] q = omega arith
  total-append size (n ∷ p) q = omega (arith, total-append size p q)

  pub all_of-append :
      {A : Type 0} (flat : N → List A) (p q : List N)
      → all_of flat (p ++ q) ≡ all_of flat p ++ all_of flat q
  all_of-append flat [] q = refl
  all_of-append flat (n ∷ p) q =
      rw (all_of-append flat p q) (sym (append_assoc (flat n) (all_of flat p) (all_of flat q)))

  pub any_of-append :
      (test : N → Bool) (p q : List N) → any_of test (p ++ q) ≡ (any_of test p || any_of test q)
  any_of-append test [] q = refl
  any_of-append test (n ∷ p) q = ground (arith, any_of-append test p q)

module _ {N : Type 0} (children : N → List N) (size : N → ℕ)
    (measured : (n : N) → size n ≡ suc (total size (children n))) where
  smaller :
      (n : N) (q : List N) (fuel : ℕ)
      → total size (n ∷ q) ≤ suc fuel
      → total size (q ++ children n) ≤ fuel
  smaller n q fuel h = omega (arith, measured n, total-append size q (children n))

  -- A loop that collects gives, in some order, what the items of the queue give.
  pub walk-collects :
      {A : Type 0} (emits flat : N → List A)
      → ((n : N) → flat n ≡ emits n ++ all_of flat (children n))
      → (fuel : ℕ) (q : List N) (l : List A) → total size q ≤ fuel
      → (r : List A) × (walk children (λ n s. s ++ emits n) fuel q l ≡ some (l ++ r))
        × Perm r (all_of flat q)
  unfolding walk
  walk-collects emits flat split fuel [] l h =
      ([], ap (λ x. some x) (sym (append-nil l)), Perm.refl [])
  walk-collects emits flat split zero (n ∷ q) l h = absurd (omega (arith, measured n))
  walk-collects emits flat split (suc fuel) (n ∷ q) l h =
      let (r, ends, perm) =
        walk-collects emits flat split fuel (q ++ children n) (l ++ emits n) (smaller n q fuel h) in
      (
        emits n ++ r,
        ends ∙ ap (λ x. some x) (append_assoc l (emits n) r),
        rw (split n, append_assoc (emits n) (all_of flat (children n)) (all_of flat q))
            ((perm-append_left_iff (emits n)).1 (
              Perm.trans (rw (← all_of-append flat q (children n)) perm)
                (perm_append_comm (all_of flat q) (all_of flat (children n))))),
      )

  -- A loop that notes whether an item passed ends with the answer for the whole queue.
  pub walk-notes :
      {S : Type 0} (visit : N → S → S) (noted : S → Bool) (test found : N → Bool)
      → ((n : N) (s : S) → noted (visit n s) ≡ (noted s || test n))
      → ((n : N) → found n ≡ (test n || any_of found (children n)))
      → (fuel : ℕ) (q : List N) (s : S) → total size q ≤ fuel
      → (s' : S) × (walk children visit fuel q s ≡ some s')
        × (noted s' ≡ (noted s || any_of found q))
  unfolding walk
  walk-notes visit noted test found note split fuel [] s h = (s, refl, ground arith)
  walk-notes visit noted test found note split zero (n ∷ q) s h = absurd (omega (arith, measured n))
  walk-notes visit noted test found note split (suc fuel) (n ∷ q) s h =
      let (s', ends, result) =
        walk-notes visit noted test found note split fuel (q ++ children n) (visit n s)
          (smaller n q fuel h) in
      (s', ends, ground (arith, result, note n s, split n, any_of-append found q (children n)))
