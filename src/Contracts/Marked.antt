-- ===== src/Contracts/Marked.antt =====
-- The mark of one destructed contract: what the cache and the collection show then.
use scan_service.Prelude.{
  ◌≡◌, refl, ap, sym, ◌∙◌, Bool, true, false, ◌&&◌, ◌||◌, Option, none, some, List, [], ◌∷◌, inl,
  inr, arith, Bool-cases, Option-cases, if◌then◌else◌, is_some,
}
use scan_service.Prelude.Text.{Text, same_text, same_text_iff, to_lower_case}
use scan_service.Env.{Env}
use scan_service.Env.Model.{BlockConcise, Contract}
use scan_service.Contracts.{
  ContractCache, find_contract, update_first, change_contract, always, mark_destructed,
  is_destructed,
}
use scan_service.Contracts.Stored.{IsAddressed, save-IsAddressed}

module _ ⦃e : Env⦄ where
  open e use {BigNumber}

  -- The contract that the cache has under an address in lower case, or else the collection.
  abbrev pub find_cached : Text → List (Contract BigNumber) → Option (Contract BigNumber)
  find_cached k [] = none
  find_cached k (c ∷ l) = if same_text (to_lower_case c.address) k then some c else find_cached k l

  abbrev pub shown_of :
      Option (Contract BigNumber) → Option (Contract BigNumber) → Option (Contract BigNumber)
  shown_of none stored = stored
  shown_of (some c) stored = some c

  abbrev pub shown : Text → ContractCache → Option (Contract BigNumber)
  shown k s = shown_of (find_cached k s.contracts_cache) (e.contracts.find_one k s.db)

  -- No contract is shown, or one that is destructed.
  abbrev pub gone_in : Option (Contract BigNumber) → Bool
  gone_in none = true
  gone_in (some c) = is_destructed c

  abbrev pub is_gone : Text → ContractCache → Bool
  is_gone k s = gone_in (shown k s)

  module _ (addr k : Text) (v : Text × BlockConcise) where
    abbrev marks : List (Contract BigNumber) → Option (List (Contract BigNumber))
    marks =
        update_first (λ c. same_text (to_lower_case c.address) (to_lower_case addr) && always c)
          (mark_destructed v)

    abbrev marked_if : Bool → Option (Contract BigNumber) → Option (Contract BigNumber)
    marked_if b none = none
    marked_if b (some c) = if b then some (mark_destructed v c) else some c

    unmarked_if : (o : Option (Contract BigNumber)) → o ≡ marked_if false o
    unmarked_if none = refl
    unmarked_if (some c) = refl

    find_cached-marks :
        (l l' : List (Contract BigNumber))
        → marks l ≡ some l'
        → find_cached k l' ≡ marked_if (same_text (to_lower_case addr) k) (find_cached k l)
    unfolding update_first mark_destructed
    find_cached-marks [] l' h = absurd cc
    find_cached-marks (c ∷ l) l' h =
        elim (Bool-cases (same_text (to_lower_case c.address) (to_lower_case addr))) [
          | inl here ↦
              let step : marks (c ∷ l) ≡ some (mark_destructed v c ∷ l) =
                rw (here, update_first) refl in
              let is : mark_destructed v c ∷ l ≡ l' = cc in
              let at = (same_text_iff (to_lower_case c.address) (to_lower_case addr)).0 here in
              rw (← is, ← at) (own (same_text (to_lower_case c.address) k))
          | inr there ↦ elim (Option-cases (marks l)) [
            | inl missing ↦
                let step : marks (c ∷ l) ≡ none = rw (there, missing, update_first) refl in
                absurd cc
            | inr (rest, found) ↦
                let step : marks (c ∷ l) ≡ some (c ∷ rest) = rw (there, found, update_first) refl in
                let is : c ∷ rest ≡ l' = cc in
                rw (← is, find_cached-marks l rest found)
                  (elim (Bool-cases (same_text (to_lower_case c.address) k)) [
                    | inl shows ↦
                        let elsewhere : same_text (to_lower_case addr) k ≡ false = ground (
                          arith,
                          same_text_iff (to_lower_case c.address) (to_lower_case addr),
                          same_text_iff (to_lower_case addr) k,
                          same_text_iff (to_lower_case c.address) k,
                        ) in
                        rw (shows, elsewhere) refl
                    | inr hidden ↦ rw hidden refl
                  ])
          ]
        ]
      where
        own :
            (b : Bool)
            → (if b then some (mark_destructed v c) else find_cached k l)
              ≡ marked_if b (if b then some c else find_cached k l)
        own true = refl
        own false = unmarked_if (find_cached k l)

    find_cached-unmarked :
        (l : List (Contract BigNumber))
        → marks l ≡ none
        → same_text (to_lower_case addr) k ≡ true
        → find_cached k l ≡ none
    unfolding update_first
    find_cached-unmarked [] h same = refl
    find_cached-unmarked (c ∷ l) h same = ground (
      arith,
      find_cached-unmarked l,
      same_text_iff (to_lower_case c.address) (to_lower_case addr),
      same_text_iff (to_lower_case addr) k,
      same_text_iff (to_lower_case c.address) k,
    )

    find_cached-is_some :
        (l l' : List (Contract BigNumber))
        → marks l ≡ some l'
        → same_text (to_lower_case addr) k ≡ true
        → is_some (find_cached k l) ≡ true
    unfolding update_first
    find_cached-is_some [] l' h same = absurd cc
    find_cached-is_some (c ∷ l) l' h same = elim (Option-cases (marks l)) [
      | inl missing ↦ ground (
        arith,
        missing,
        same_text_iff (to_lower_case c.address) (to_lower_case addr),
        same_text_iff (to_lower_case addr) k,
        same_text_iff (to_lower_case c.address) k,
      )
      | inr (rest, found) ↦ ground (arith, find_cached-is_some l rest found same)
    ]

    is_destructed-marked : (c : Contract BigNumber) → is_destructed (mark_destructed v c) ≡ true
    unfolding mark_destructed
    is_destructed-marked c = refl

    -- The three ways in which a change is written.
    gone_in-cached :
        (b : Bool) (o p : Option (Contract BigNumber))
        → (b ≡ true → is_some o ≡ true)
        → gone_in (shown_of (marked_if b o) p) ≡ (b || gone_in (shown_of o p))
    gone_in-cached true none p h = absurd (ground (arith, h refl))
    gone_in-cached true (some c) p h = is_destructed-marked c
    gone_in-cached false none p h = refl
    gone_in-cached false (some c) p h = refl

    gone_in-unknown :
        (b : Bool) (o p : Option (Contract BigNumber))
        → (b ≡ true → o ≡ none)
        → (b ≡ true → p ≡ none)
        → gone_in (shown_of o p) ≡ (b || gone_in (shown_of o p))
    gone_in-unknown true o p h k = rw (h refl, k refl) refl
    gone_in-unknown false o p h k = refl

    gone_in-stored :
        (b : Bool) (c : Contract BigNumber) (o p : Option (Contract BigNumber))
        → (b ≡ true → o ≡ none)
        → gone_in (shown_of o (if b then some (mark_destructed v c) else p))
          ≡ (b || gone_in (shown_of o p))
    gone_in-stored true c o p h = rw (h refl) (is_destructed-marked c)
    gone_in-stored false c o p h = refl

    abbrev pub marked : ContractCache → ContractCache
    marked = change_contract addr always always (mark_destructed v)

    stored_address :
        (c : Contract BigNumber) (db : e.contracts.Store)
        → IsAddressed db
        → find_contract addr db ≡ some c
        → (mark_destructed v c).address ≡ to_lower_case addr
    unfolding find_contract mark_destructed
    stored_address c db keyed found = keyed.at (to_lower_case addr) c found

    find_one-unknown :
        (db : e.contracts.Store)
        → find_contract addr db ≡ none
        → same_text (to_lower_case addr) k ≡ true
        → e.contracts.find_one k db ≡ none
    unfolding find_contract
    find_one-unknown db unknown same =
        ap (λ j. e.contracts.find_one j db) (sym ((same_text_iff (to_lower_case addr) k).0 same))
        ∙ unknown

    pub is_gone-marked :
        (s : ContractCache)
        → IsAddressed s.db
        → is_gone k (marked s) ≡ (same_text (to_lower_case addr) k || is_gone k s)
    unfolding change_contract
    is_gone-marked s keyed =
        let b = same_text (to_lower_case addr) k in
        let o = find_cached k s.contracts_cache in
        let p = e.contracts.find_one k s.db in
        elim (Option-cases (marks s.contracts_cache)) [
          | inr (l', cached) ↦
              let step : marked s ≡ record s { contracts_cache = l' } =
                rw (cached, change_contract) refl in
              ap (is_gone k) step
              ∙ ap (λ x. gone_in (shown_of x p)) (find_cached-marks s.contracts_cache l' cached)
              ∙ gone_in-cached b o p (find_cached-is_some s.contracts_cache l' cached)
          | inl missing ↦ elim (Option-cases (find_contract addr s.db)) [
            | inl unknown ↦
                let step : marked s ≡ s = rw (missing, unknown, change_contract) refl in
                ap (is_gone k) step
                ∙ gone_in-unknown b o p (find_cached-unmarked s.contracts_cache missing)
                    (find_one-unknown s.db unknown)
            | inr (c, stored) ↦
                let c' = mark_destructed v c in
                let step : marked s ≡ record s { db = e.contracts.save c'.address c' s.db } =
                  rw (missing, stored, change_contract) refl in
                ap (is_gone k) step
                ∙ ap (λ x. gone_in (shown_of o x))
                    (e.contracts.find_one-save c'.address k c' s.db
                      ∙ ap (λ a. if same_text a k then some c' else p)
                          (stored_address c s.db keyed stored))
                ∙ gone_in-stored b c o p (find_cached-unmarked s.contracts_cache missing)
          ]
        ]

    pub marked-IsAddressed : (s : ContractCache) → IsAddressed s.db → IsAddressed (marked s).db
    unfolding change_contract
    marked-IsAddressed s keyed = elim (Option-cases (marks s.contracts_cache)) [
      | inr (l', cached) ↦ rw (cached, change_contract) keyed
      | inl missing ↦ elim (Option-cases (find_contract addr s.db)) [
        | inl unknown ↦ rw (missing, unknown, change_contract) keyed
        | inr (c, stored) ↦
            rw (missing, stored, change_contract)
              (save-IsAddressed (mark_destructed v c) s.db keyed)
      ]
    ]
