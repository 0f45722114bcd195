-- ===== src/Prelude/Dict.antt =====
-- A JavaScript object used as a map: own properties with their values, in the order in which the
-- language enumerates them (array indices upwards, then the other keys as they were added).
pub mod Sum
use scan_service.Prelude.Tests.{ltb, is_some, Bool-cases, if◌then◌else◌}
use scan_service.Prelude.Text.{Text, same_text, same_text_iff, array_index}
use Prim.Native.Nat.{ℕ}
use mathlib.Core.Path.{◌≡◌, refl}
use mathlib.Core.Logic.{inl, inr}
use mathlib.Core.Bool.{Bool, true, false}
use mathlib.Core.Option.{Option, none, some}
use mathlib.Core.List.{List, [], ◌∷◌}
use native.Mathlib.Omega.{arith}

abbrev pub Dict {ℓ} : Type ℓ → Type ℓ
Dict V = List (Text × V)

-- Does a new key `k` come before the key `j`?
index_before : Option ℕ → Option ℕ → Bool
index_before none j = false
index_before (some m) none = true
index_before (some m) (some n) = ltb m n

comes_before : Text → Text → Bool
unfolding index_before
comes_before k j = index_before (array_index k) (array_index j)

module _ {ℓ} {V : Type ℓ} where
  unfoldable pub get : Text → Dict V → Option V
  get k [] = none
  get k ((j, v) ∷ d) = if same_text j k then some v else get k d

  -- `k in d`, `d.hasOwnProperty(k)`
  abbrev pub has : Text → Dict V → Bool
  has k d = is_some (get k d)

  -- `d[k] = v` where `k` is there, and where it is new
  replace : Text → V → Dict V → Dict V
  replace k v [] = []
  replace k v ((j, w) ∷ d) = if same_text j k then (k, v) ∷ d else (j, w) ∷ replace k v d

  insert : Text → V → Dict V → Dict V
  unfolding comes_before
  insert k v [] = (k, v) ∷ []
  insert k v ((j, w) ∷ d) = if comes_before k j then (k, v) ∷ (j, w) ∷ d else (j, w) ∷ insert k v d

  unfoldable pub put : Text → V → Dict V → Dict V
  unfolding replace insert
  put k v d = if has k d then replace k v d else insert k v d

  -- `delete d[k]`
  unfoldable pub remove : Text → Dict V → Dict V
  remove k [] = []
  remove k ((j, v) ∷ d) = let rest = remove k d in if same_text j k then rest else (j, v) ∷ rest

  get-replace :
      (k j : Text) (v : V) (d : Dict V)
      → has k d ≡ true
      → get j (replace k v d) ≡ (if same_text k j then some v else get j d)
  unfolding get replace
  get-replace k j v [] h = cc
  get-replace k j v ((i, w) ∷ d) h =
      ground (arith, get-replace k j v d, same_text_iff i k, same_text_iff i j, same_text_iff k j)

  get-insert :
      (k j : Text) (v : V) (d : Dict V)
      → has k d ≡ false
      → get j (insert k v d) ≡ (if same_text k j then some v else get j d)
  unfolding get insert
  get-insert k j v [] h = refl
  get-insert k j v ((i, w) ∷ d) h =
      ground (arith, get-insert k j v d, same_text_iff i k, same_text_iff i j, same_text_iff k j)

  -- A write is read back under its key, and no other key changes.
  pub get-put :
      (k j : Text) (v : V) (d : Dict V)
      → get j (put k v d) ≡ (if same_text k j then some v else get j d)
  unfolding put
  get-put k j v d = elim (Bool-cases (has k d)) [
    | inl old ↦ rw old (get-replace k j v d old)
    | inr new ↦ rw new (get-insert k j v d new)
  ]

  pub get-remove :
      (k j : Text) (d : Dict V) → get j (remove k d) ≡ (if same_text k j then none else get j d)
  unfolding get remove
  get-remove k j [] = ground arith
  get-remove k j ((i, w) ∷ d) =
      ground (arith, get-remove k j d, same_text_iff i k, same_text_iff i j, same_text_iff k j)

pub get-empty {ℓ} : {V : Type ℓ} (k : Text) → get {V = V} k [] ≡ none
unfolding get
get-empty k = refl

pub ruleset dict_laws = (get-empty, get-put, get-remove)

-- No key is listed twice.
abbrev pub IsUnique {ℓ} : {V : Type ℓ} → Dict V → Type 0
IsUnique [] = Unit
IsUnique ((k, v) ∷ d) = (has k d ≡ false) × IsUnique d

module _ {ℓ} {V : Type ℓ} where
  has-replace : (k j : Text) (v : V) (d : Dict V) → has j (replace k v d) ≡ has j d
  unfolding get replace
  has-replace k j v [] = refl
  has-replace k j v ((i, w) ∷ d) =
      ground (arith, has-replace k j v d, same_text_iff i k, same_text_iff i j, same_text_iff k j)

  replace-IsUnique : (k : Text) (v : V) (d : Dict V) → IsUnique d → IsUnique (replace k v d)
  unfolding replace
  replace-IsUnique k v [] u = tt
  replace-IsUnique k v ((j, w) ∷ d) u =
      ground (arith, replace-IsUnique k v d u.1, has-replace k j v d, same_text_iff j k)

  insert-IsUnique :
      (k : Text) (v : V) (d : Dict V) → has k d ≡ false → IsUnique d → IsUnique (insert k v d)
  unfolding insert get
  insert-IsUnique k v [] h u = (refl, tt)
  insert-IsUnique k v ((j, w) ∷ d) h u =
      ground
        (arith, insert-IsUnique k v d, get-insert k j v d, same_text_iff j k, same_text_iff k j)

  pub put-IsUnique : (k : Text) (v : V) (d : Dict V) → IsUnique d → IsUnique (put k v d)
  unfolding put
  put-IsUnique k v d u = elim (Bool-cases (has k d)) [
    | inl old ↦ rw old (replace-IsUnique k v d u)
    | inr new ↦ rw new (insert-IsUnique k v d new u)
  ]
