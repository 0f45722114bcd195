-- ===== src/Prelude/Dict/Sum.antt =====
-- A sum over the values of an object, and what a write does to it.
use scan_service.Prelude.Tests.{Bool-cases, if◌then◌else◌}
use scan_service.Prelude.Text.{Text, same_text}
use scan_service.Prelude.Dict.{Dict, get, put, replace, insert, comes_before}
use mathlib.Core.Path.{◌≡◌, refl, ap, sym, ◌∙◌}
use mathlib.Core.Logic.{inl, inr}
use mathlib.Core.Option.{none, some}
use mathlib.Core.List.{[], ◌∷◌}

module _ {ℓ κ} {V : Type ℓ} {B : Type κ} (plus : B → B → B) (zero : B) (f : V → B) where
  abbrev pub sum : Dict V → B
  sum [] = zero
  sum ((k, v) ∷ d) = plus (f v) (sum d)

module _ {ℓ κ} {V : Type ℓ} {B : Type κ} (plus : B → B → B) (zero : B) (f : V → B)
    (plus_assoc : (a b c : B) → plus (plus a b) c ≡ plus a (plus b c))
    (plus_comm : (a b : B) → plus a b ≡ plus b a) where
  plus_swap : (a b c : B) → plus a (plus b c) ≡ plus b (plus a c)
  plus_swap a b c = sym (plus_assoc a b c) ∙ ap (λ x. plus x c) (plus_comm a b) ∙ plus_assoc b a c

  sum-insert :
      (k : Text) (v : V) (d : Dict V)
      → sum plus zero f (insert k v d) ≡ plus (f v) (sum plus zero f d)
  unfolding insert
  sum-insert k v [] = refl
  sum-insert k v ((j, w) ∷ d) = elim (Bool-cases (comes_before k j)) [
    | inl first ↦ rw first refl
    | inr later ↦
        rw later
          (ap (λ x. plus (f w) x) (sum-insert k v d) ∙ plus_swap (f w) (f v) (sum plus zero f d))
  ]

  sum-replace :
      (k : Text) (v old : V) (x : B) (d : Dict V)
      → get k d ≡ some old
      → f v ≡ plus (f old) x
      → sum plus zero f (replace k v d) ≡ plus x (sum plus zero f d)
  unfolding replace get
  sum-replace k v old x [] h e = absurd cc
  sum-replace k v old x ((j, w) ∷ d) h e = elim (Bool-cases (same_text j k)) [
    | inl same ↦
        let first : some w ≡ some old = sym (ap (λ b. if b then some w else get k d) same) ∙ h in
        let old_is : w ≡ old = cc in
        rw (same, e, old_is)
          (ap (λ y. plus y (sum plus zero f d)) (plus_comm (f old) x)
            ∙ plus_assoc x (f old) (sum plus zero f d))
    | inr other ↦
        let later = sym (ap (λ b. if b then some w else get k d) other) ∙ h in
        rw other (
          ap (λ y. plus (f w) y) (sum-replace k v old x d later e)
          ∙ plus_swap (f w) x (sum plus zero f d))
  ]

  -- A new key adds its value.
  pub sum-put_new :
      (k : Text) (v : V) (d : Dict V)
      → get k d ≡ none
      → sum plus zero f (put k v d) ≡ plus (f v) (sum plus zero f d)
  unfolding put
  sum-put_new k v d h = rw h (sum-insert k v d)

  -- A value that grows by `x` adds `x`.
  pub sum-put_old :
      (k : Text) (v old : V) (x : B) (d : Dict V)
      → get k d ≡ some old
      → f v ≡ plus (f old) x
      → sum plus zero f (put k v d) ≡ plus x (sum plus zero f d)
  unfolding put
  sum-put_old k v old x d h e = rw h (sum-replace k v old x d h e)
