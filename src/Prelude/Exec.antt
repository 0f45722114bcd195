-- ===== src/Prelude/Exec.antt =====
-- An asynchronous method that changes an object and may throw. What was written before the throw
-- stays written, so the state comes back beside the error.

use mathlib.Core.Path.{◌≡◌, refl, ap, sym, ◌∙◌}
use mathlib.Core.Logic.{◌⊎◌, inl, inr}
use mathlib.Core.Bool.{Bool, true, false}
use scan_service.Prelude.Tests.{if◌then◌else◌}

-- What the methods throw.
pub data Failure : Type 0 where
  -- a request to the node failed
  node_failed : Failure
  -- a property of `undefined` was read
  type_error : Failure
  -- a log or call data could not be decoded
  decode_failed : Failure
  -- log-traverser
  create_transfer_mismatch call_transfer_mismatch master_mismatch new_master_mismatch : Failure
  unknown_call index_mismatch : Failure
  -- nftCache
  not_enough_balance : Failure
  -- pos.cmd
  contract_existed interrupted : Failure
  -- tokenBalanceCache
  negative_balance : Failure

pub data Result {ℓ} (A : Type ℓ) : Type ℓ where
  ok : A → Result A
  err : Failure → Result A

pub Result-cases {ℓ} :
    {A : Type ℓ} (r : Result A) → ((a : A) × (r ≡ ok a)) ⊎ ((f : Failure) × (r ≡ err f))
Result-cases (ok a) = inl (a, refl)
Result-cases (err f) = inr (f, refl)

abbrev pub Exec {ℓ κ} : Type ℓ → Type κ → Type (ℓ ⊔ κ)
Exec S A = S → Result A × S

module _ {ℓ κ} {S : Type ℓ} {A : Type κ} where
  unfoldable pub pure : A → Exec S A
  pure a s = (ok a, s)

  pub throw : Failure → Exec S A
  throw e s = (err e, s)

module _ {ℓ κ μ} {S : Type ℓ} {A : Type κ} {B : Type μ} where
  abbrev pub and_then : Result A → (A → Exec S B) → Exec S B
  and_then (ok a) f s = f a s
  and_then (err e) f s = (err e, s)

  infixl 5 ◌>>=◌ ◌>>◌
  -- opening this opens `pure` and `throw` too
  unfoldable pub ◌>>=◌ : Exec S A → (A → Exec S B) → Exec S B
  unfolding pure throw
  ◌>>=◌ m f s = let (r, s') = m s in and_then r f s'

  abbrev pub ◌>>◌ : Exec S A → Exec S B → Exec S B
  m >> k = m >>= λ _. k

-- `m` keeps `P`, whether it returns or throws.
pub record Preserves {ℓ κ μ} {S : Type ℓ} {A : Type κ} (P : S → Type μ) (m : Exec S A)
    : Type (ℓ ⊔ μ) where
  pub from_state : (s : S) → P s → P (m s).1

module _ {ℓ κ μ} {S : Type ℓ} {A : Type κ} {P : S → Type μ} where
  pub Preserves-pure : (a : A) → Preserves P (pure a)
  unfolding pure
  Preserves-pure a = record { from_state = λ s h. h }

  pub Preserves-throw : (e : Failure) → Preserves P (throw {A = A} e)
  unfolding throw
  Preserves-throw e = record { from_state = λ s h. h }

  pub Preserves-if :
      (b : Bool) (m n : Exec S A) → Preserves P m → Preserves P n → Preserves P (if b then m else n)
  Preserves-if true m n hm hn = hm
  Preserves-if false m n hm hn = hn

module _ {ℓ κ μ ν} {S : Type ℓ} {A : Type κ} {B : Type μ} {P : S → Type ν} where
  preserves_and_then :
      (r : Result A) (f : A → Exec S B) (s : S)
      → ((a : A) → Preserves P (f a))
      → P s
      → P (and_then r f s).1
  preserves_and_then (ok a) f s hf h = (hf a).from_state s h
  preserves_and_then (err e) f s hf h = h

  pub Preserves-bind :
      (m : Exec S A) (f : A → Exec S B)
      → Preserves P m
      → ((a : A) → Preserves P (f a))
      → Preserves P (m >>= f)
  unfolding ◌>>=◌
  Preserves-bind m f hm hf = record {
    from_state = λ s h. preserves_and_then (m s).0 f (m s).1 hf (hm.from_state s h);
  }

pub ruleset preserves_rules = (Preserves-pure, Preserves-throw, Preserves-if, Preserves-bind)

-- A first step that returns goes on from the state that it leaves.
pub >>=-step {ℓ κ μ} :
    {S : Type ℓ} {A : Type κ} {B : Type μ} (m : Exec S A) (f : A → Exec S B) {s s' : S} {a : A}
    → m s ≡ (ok a, s')
    → (m >>= f) s ≡ f a s'
unfolding ◌>>=◌
>>=-step m f h = rw h

-- A sequence returns only where both of its steps do.
pub >>=-ok {ℓ κ μ} :
    {S : Type ℓ} {A : Type κ} {B : Type μ} (m : Exec S A) (f : A → Exec S B) (s : S) {b : B}
    → ((m >>= f) s).0 ≡ ok b
    → (a : A) × ((m s).0 ≡ ok a) × ((f a (m s).1).0 ≡ ok b) × (((m >>= f) s).1 ≡ (f a (m s).1).1)
unfolding ◌>>=◌
>>=-ok m f s {b = b} h = elim (Result-cases (m s).0) [
  | inl (a, returned) ↦
      (a, returned, ap (λ r. (and_then r f (m s).1).0) (sym returned) ∙ h, rw returned refl)
  | inr (e, thrown) ↦
      let failed : err e ≡ ok b = ap (λ r. (and_then r f (m s).1).0) (sym thrown) ∙ h in absurd cc
]
