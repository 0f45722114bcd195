-- ===== src/NftBalances/Amounts.antt =====
-- How much of a token a list holds, before and after a merge.
use scan_service.Prelude.{
  ◌≡◌, refl, ap, subst, Bool, true, false, Option, none, some, List, [], ◌∷◌, inl, inr, arith,
  if◌then◌else◌, Option-cases, All, Bool-cases, sym, ◌∙◌,
}
use scan_service.Prelude.Int.{ℤ, pos, ◌+ℤ◌, ◌-ℤ◌, ◌≤ℤ◌, ltb_ℤ, int_laws, eq_of_parts}
use scan_service.Prelude.Number.{limit, IsExact, to_number, to_number_exact, add_number, sub_number}
use scan_service.Prelude.Text.{Text, same_text, same_text_iff, same_text_refl}
use scan_service.Prelude.Dict.{Dict, get, put, get-put, get-empty, IsUnique, put-IsUnique}
use scan_service.Env.Model.{NftBalance}
use scan_service.NftBalances.{load_origin, merge_one, merge_delta, collect, merge_nft_balances}

-- The value of the last entry of a token.
unfoldable pub last_value : Text → List NftBalance → Option ℤ
last_value k [] = none
last_value k (b ∷ l) = elim (last_value k l) [
  | some v ↦ some v
  | none ↦ if same_text b.token_id k then some b.value else none
]

abbrev pub or_zero : Option ℤ → ℤ
or_zero none = pos 0
or_zero (some v) = v

-- What a list holds of a token.
abbrev pub holding : Text → List NftBalance → ℤ
holding k l = or_zero (last_value k l)

-- The sum of the entries of a token.
unfoldable pub total : Text → List NftBalance → ℤ
total k [] = pos 0
total k (b ∷ l) = if same_text b.token_id k then b.value +ℤ total k l else total k l

-- An amount above zero, or else nothing.
abbrev pub floored : ℤ → ℤ
floored v = if ltb_ℤ (pos 0) v then v else pos 0

get-load_origin :
    (k : Text) (l : List NftBalance) (m : Dict ℤ)
    → get k (load_origin l m) ≡ (elim (last_value k l) [ none ↦ get k m | some v ↦ some v ])
unfolding load_origin last_value
get-load_origin k [] m = refl
get-load_origin k (b ∷ l) m =
    ground (arith, get-load_origin k l (put b.token_id b.value m), get-put b.token_id k b.value m)

load_origin-IsUnique : (l : List NftBalance) (m : Dict ℤ) → IsUnique m → IsUnique (load_origin l m)
unfolding load_origin
load_origin-IsUnique [] m u = u
load_origin-IsUnique (b ∷ l) m u =
    load_origin-IsUnique l (put b.token_id b.value m) (put-IsUnique b.token_id b.value m u)

merge_one-IsUnique :
    (plus : Bool) (b : NftBalance) (m : Dict ℤ) → IsUnique m → IsUnique (merge_one plus b m)
unfolding merge_one
merge_one-IsUnique plus b m u = grind (arith, put-IsUnique)

merge_delta-IsUnique :
    (plus : Bool) (l : List NftBalance) (m : Dict ℤ) → IsUnique m → IsUnique (merge_delta plus l m)
unfolding merge_delta
merge_delta-IsUnique plus [] m u = u
merge_delta-IsUnique plus (b ∷ l) m u =
    merge_delta-IsUnique plus l (merge_one plus b m) (merge_one-IsUnique plus b m u)

-- Nothing is below zero.
abbrev pub AreCounts : List NftBalance → Type 0
AreCounts l = All (λ b. pos 0 ≤ℤ b.value) l

pub total_nonneg : (k : Text) (l : List NftBalance) → AreCounts l → pos 0 ≤ℤ total k l
unfolding total
total_nonneg k [] h = omega arith
total_nonneg k (b ∷ l) h = grind (int_laws, total_nonneg k l h.1)

-- What a delta brings of a token.
unfoldable share : Text → NftBalance → ℤ
share k b = if same_text b.token_id k then b.value else pos 0

total-nil : (k : Text) → total k [] ≡ pos 0
unfolding total
total-nil k = refl

total-cons :
    (k : Text) (b : NftBalance) (l : List NftBalance) → total k (b ∷ l) ≡ share k b +ℤ total k l
unfolding total share
total-cons k b l = grind int_laws

share_nonneg : (k : Text) (b : NftBalance) → pos 0 ≤ℤ b.value → pos 0 ≤ℤ share k b
unfolding share
share_nonneg k b h = ground arith

plus_one :
    (k : Text) (b : NftBalance) (m : Dict ℤ)
    → IsExact (or_zero (get k m) +ℤ share k b)
    → or_zero (get k (merge_one true b m)) ≡ or_zero (get k m) +ℤ share k b
unfolding merge_one add_number share
plus_one k b m exact = elim (Bool-cases (same_text b.token_id k)) [
  | inr other ↦ grind (int_laws, get-put, other)
  | inl same ↦
      let at : b.token_id ≡ k = (same_text_iff b.token_id k).0 same in
      elim (Option-cases (get k m)) [
        | inl absent ↦ rw (same, at, absent) (grind (int_laws, get-put, same_text_refl k))
        | inr (v, present) ↦
            let sum : to_number (v +ℤ b.value) ≡ v +ℤ b.value =
              to_number_exact _ (grind (int_laws, present, same, exact)) in
            rw (same, at, present) (grind (int_laws, get-put, same_text_refl k, sum))
      ]
]

plus_bounds :
    (v x t : ℤ)
    → pos 0 ≤ℤ v
    → pos 0 ≤ℤ x
    → pos 0 ≤ℤ t
    → v +ℤ (x +ℤ t) ≤ℤ pos limit
    → IsExact (v +ℤ x)
      × (pos 0 ≤ℤ v +ℤ x)
      × (v +ℤ x +ℤ t ≤ℤ pos limit)
      × (v +ℤ x +ℤ t ≡ v +ℤ (x +ℤ t))
plus_bounds v x t hv hx ht h =
    ((omega int_laws, omega int_laws), omega int_laws, omega int_laws, omega int_laws)

plus_zero : (v : ℤ) → v ≡ v +ℤ pos 0
plus_zero v = omega int_laws

-- After deltas have been added, a token has what it had and all that they bring of it, where this
-- is at most 2 ^ 53.
plus_delta :
    (k : Text) (l : List NftBalance) (m : Dict ℤ)
    → pos 0 ≤ℤ or_zero (get k m)
    → AreCounts l
    → or_zero (get k m) +ℤ total k l ≤ℤ pos limit
    → or_zero (get k (merge_delta true l m)) ≡ or_zero (get k m) +ℤ total k l
unfolding merge_delta
plus_delta k [] m h c bound =
    plus_zero (or_zero (get k m)) ∙ ap (λ z. or_zero (get k m) +ℤ z) (sym (total-nil k))
plus_delta k (b ∷ l) m h c bound =
    let now = or_zero (get k m) in
    let cons = total-cons k b l in
    let (exact, h', bound', sum) =
      plus_bounds now (share k b) (total k l) h (share_nonneg k b c.0) (total_nonneg k l c.1)
        (subst (λ z. now +ℤ z ≤ℤ pos limit) cons bound) in
    let step = plus_one k b m exact in
    plus_delta k l (merge_one true b m) (subst (λ z. pos 0 ≤ℤ z) (sym step) h') c.1
      (subst (λ z. z +ℤ total k l ≤ℤ pos limit) (sym step) bound')
    ∙ ap (λ z. z +ℤ total k l) step
    ∙ sum
    ∙ ap (λ z. now +ℤ z) (sym cons)

minus_one_absent :
    (k : Text) (b : NftBalance) (m : Dict ℤ) → get k m ≡ none → get k (merge_one false b m) ≡ none
unfolding merge_one
minus_one_absent k b m absent = grind (arith, get-put, same_text_iff)

minus_one :
    (k : Text) (b : NftBalance) (m : Dict ℤ) (v : ℤ)
    → get k m ≡ some v
    → IsExact (v -ℤ share k b)
    → get k (merge_one false b m) ≡ some (v -ℤ share k b)
unfolding merge_one sub_number share
minus_one k b m v present exact = elim (Bool-cases (same_text b.token_id k)) [
  | inr other ↦
      let all : v ≡ v -ℤ pos 0 = omega int_laws in
      rw other (grind (int_laws, get-put, other) ∙ ap (λ z. some z) all)
  | inl same ↦
      let at : b.token_id ≡ k = (same_text_iff b.token_id k).0 same in
      let rest : to_number (v -ℤ b.value) ≡ v -ℤ b.value =
        to_number_exact _
          (subst (λ (c : Bool). IsExact (v -ℤ (if c then b.value else pos 0))) same exact) in
      let found : get b.token_id m ≡ some v = subst (λ j. get j m ≡ some v) (sym at) present in
      rw same (grind (int_laws, get-put, same, found, rest))
]

minus_delta_absent :
    (k : Text) (l : List NftBalance) (m : Dict ℤ)
    → get k m ≡ none
    → get k (merge_delta false l m) ≡ none
unfolding merge_delta
minus_delta_absent k [] m h = h
minus_delta_absent k (b ∷ l) m h =
    minus_delta_absent k l (merge_one false b m) (minus_one_absent k b m h)

minus_bounds :
    (v x t : ℤ)
    → v ≤ℤ pos limit
    → pos 0 ≤ℤ x
    → pos 0 ≤ℤ t
    → x +ℤ t ≤ℤ v +ℤ pos limit
    → IsExact (v -ℤ x)
      × (v -ℤ x ≤ℤ pos limit)
      × (t ≤ℤ v -ℤ x +ℤ pos limit)
      × (v -ℤ x -ℤ t ≡ v -ℤ (x +ℤ t))
minus_bounds v x t hv hx ht h =
    ((omega int_laws, omega int_laws), omega int_laws, omega int_laws, omega int_laws)

minus_zero : (v : ℤ) → v ≡ v -ℤ pos 0
minus_zero v = omega int_laws

-- After deltas have been taken, a token that was there has what it had less all that they bring of
-- it, where neither is beyond 2 ^ 53.
minus_delta :
    (k : Text) (l : List NftBalance) (m : Dict ℤ) (v : ℤ)
    → get k m ≡ some v
    → v ≤ℤ pos limit
    → AreCounts l
    → total k l ≤ℤ v +ℤ pos limit
    → get k (merge_delta false l m) ≡ some (v -ℤ total k l)
unfolding merge_delta
minus_delta k [] m v present h c bound =
    present ∙ ap (λ z. some z) (minus_zero v ∙ ap (λ z. v -ℤ z) (sym (total-nil k)))
minus_delta k (b ∷ l) m v present h c bound =
    let cons = total-cons k b l in
    let (exact, h', bound', rest) =
      minus_bounds v (share k b) (total k l) h (share_nonneg k b c.0) (total_nonneg k l c.1)
        (subst (λ z. z ≤ℤ v +ℤ pos limit) cons bound) in
    minus_delta k l (merge_one false b m) (v -ℤ share k b) (minus_one k b m v present exact) h' c.1
      bound'
    ∙ ap (λ z. some z) (rest ∙ ap (λ z. v -ℤ z) (sym cons))

unfoldable pub positive : ℤ → Option ℤ
positive v = if ltb_ℤ (pos 0) v then some v else none

or_zero-positive : (v : ℤ) → pos 0 ≤ℤ v → or_zero (positive v) ≡ v
unfolding positive
or_zero-positive v h = grind (arith, eq_of_parts)

last_value-collect :
    (k : Text) (m : Dict ℤ)
    → IsUnique m
    → last_value k (collect m) ≡ (elim (get k m) [ none ↦ none | some v ↦ positive v ])
unfolding last_value collect get positive
last_value-collect k [] u = refl
last_value-collect k ((j, v) ∷ m) u = ground (arith, last_value-collect k m u.1, same_text_iff j k)

pub merged_IsUnique :
    (origin delta : List NftBalance) (plus : Bool)
    → IsUnique (merge_delta plus delta (load_origin origin []))
merged_IsUnique origin delta plus =
    merge_delta-IsUnique plus delta _ (load_origin-IsUnique origin [] tt)

module _ (origin delta : List NftBalance) (k : Text) where
  module _ (counts : AreCounts delta) where
    module _ (nonneg : pos 0 ≤ℤ holding k origin)
        (bound : holding k origin +ℤ total k delta ≤ℤ pos limit) where
      plus_loaded :
          or_zero (get k (merge_delta true delta (load_origin origin [])))
          ≡ holding k origin +ℤ total k delta
      plus_loaded =
          let m = load_origin origin [] in
          let loaded : or_zero (get k m) ≡ holding k origin =
            grind (arith, get-load_origin k origin [], get-empty {V = ℤ} k) in
          plus_delta k delta m (subst (λ z. pos 0 ≤ℤ z) (sym loaded) nonneg) counts
            (subst (λ z. z +ℤ total k delta ≤ℤ pos limit) (sym loaded) bound)
          ∙ ap (λ z. z +ℤ total k delta) loaded

      pub last_value-merge_plus :
          last_value k (merge_nft_balances origin delta true)
          ≡ positive (holding k origin +ℤ total k delta)
      unfolding merge_nft_balances positive
      last_value-merge_plus = grind (
        arith,
        last_value-collect k (merge_delta true delta (load_origin origin []))
            (merged_IsUnique origin delta true),
        plus_loaded,
      )

      -- Adding deltas to a list: if no delta is below zero, nor what the list holds of a token, and
      -- both together are at most 2 ^ 53, then the result holds of the token what the list held and
      -- all that the deltas bring.
      pub holding-merge_plus :
          holding k (merge_nft_balances origin delta true) ≡ holding k origin +ℤ total k delta
      unfolding positive
      holding-merge_plus =
          let some_left = total_nonneg k delta counts in
          ap or_zero last_value-merge_plus
          ∙ or_zero-positive (holding k origin +ℤ total k delta) (omega int_laws)

    -- Taking deltas from a list: if no delta is below zero, then of a token that the list names the
    -- result holds what the list held less all that the deltas bring, or nothing if that is not above
    -- zero, where neither is beyond 2 ^ 53. Of a token that the list does not name it holds nothing.
    pub holding-merge_minus :
        holding k origin ≤ℤ pos limit
        → total k delta ≤ℤ holding k origin +ℤ pos limit
        → holding k (merge_nft_balances origin delta false)
          ≡ (elim (last_value k origin) [ none ↦ pos 0 | some v ↦ floored (v -ℤ total k delta) ])
    unfolding merge_nft_balances positive
    holding-merge_minus h bound = elim (Option-cases (last_value k origin)) [
      | inl absent ↦
          let gone : get k (load_origin origin []) ≡ none =
            grind (arith, get-load_origin k origin [], get-empty {V = ℤ} k, absent) in
          grind (
            arith,
            last_value-collect k (merge_delta false delta (load_origin origin []))
                (merged_IsUnique origin delta false),
            minus_delta_absent k delta (load_origin origin []) gone,
            absent,
          )
      | inr (v, present) ↦
          let held : holding k origin ≡ v = ap or_zero present in
          let there : get k (load_origin origin []) ≡ some v =
            grind (arith, get-load_origin k origin [], present) in
          grind (
            arith,
            last_value-collect k (merge_delta false delta (load_origin origin []))
                (merged_IsUnique origin delta false),
            minus_delta k delta (load_origin origin []) v there (subst (λ z. z ≤ℤ pos limit) held h)
                counts (subst (λ z. total k delta ≤ℤ z +ℤ pos limit) held bound),
            present,
          )
    ]
