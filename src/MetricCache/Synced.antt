-- ===== src/MetricCache/Synced.antt =====
-- The values of the cache are those of the collection.
use scan_service.Prelude.{
  ◌≡◌, ◌≢◌, refl, ◌∙◌, Bool, true, false, Option, none, some, List, [], ◌∷◌, ◌&&◌, ◌||◌, map, inl,
  inr, arith, if◌then◌else◌, Bool-cases, Option-cases, is_some,
}
use scan_service.Prelude.Text.{Text, same_text, same_text_iff, same_text_refl}
use scan_service.Prelude.Dict.{Dict, get, has, put, get-put}
use scan_service.Env.{Env}
use scan_service.Env.Model.{Metric}
use scan_service.MetricCache.{
  MetricCache, find_default, find_by_keys, create, update_one, load, add_defaults, init, update,
}
use scan_service.MetricCache.Defs.{MetricDef, metric_defs}

module _ ⦃e : Env⦄ where
  -- Every document stands under its key.
  abbrev pub IsKeyed : e.metrics.Store → Type 0
  IsKeyed db = (k : Text) (m : Metric) → e.metrics.find_one k db ≡ some m → m.key ≡ k

  -- Every value of the cache is that of the document with its key.
  pub record IsSynced (s : MetricCache) : Type 0 where
    pub same_value :
        (k v : Text)
        → get k s.values ≡ some v
        → (m : Metric) × (e.metrics.find_one k s.db ≡ some m) × (m.value ≡ v)

  abbrev is_one_of : Text → List Text → Bool
  is_one_of k [] = false
  is_one_of k (j ∷ keys) = same_text j k || is_one_of k keys

  abbrev keys_of : List MetricDef → List Text
  keys_of defs = map (λ (m : MetricDef). m.key) defs

  is_one_of-keys_of :
      (k : Text) (defs : List MetricDef)
      → is_one_of k (keys_of defs) ≡ is_some (find_default defs k)
  unfolding find_default
  is_one_of-keys_of k [] = refl
  is_one_of-keys_of k (m ∷ defs) = ground (arith, is_one_of-keys_of k defs)

  abbrev stored_or : Option Metric → Option Text → Option Text
  stored_or none v = v
  stored_or (some m) v = some m.value

  get-load :
      (db : e.metrics.Store) (k : Text) (keys : List Text) (values : Dict Text)
      → IsKeyed db
      → get k (load (find_by_keys keys db) values) ≡ (
          if is_one_of k keys
          then stored_or (e.metrics.find_one k db) (get k values)
          else get k values)
  unfolding load find_by_keys
  get-load db k [] values h = refl
  get-load db k (j ∷ keys) values h = elim (Option-cases (e.metrics.find_one j db)) [
    | inl missing ↦ ground (arith, missing, get-load db k keys values h, same_text_iff j k)
    | inr (m, found) ↦ ground (
      arith,
      found,
      h j m found,
      get-load db k keys (put m.key m.value values) h,
      get-put m.key k m.value values,
      same_text_iff j k,
    )
  ]

  get-add_defaults :
      (k : Text) (defs : List MetricDef) (s : MetricCache)
      → get k (add_defaults defs s).values
        ≡ (elim (get k s.values) [ some v ↦ some v | none ↦ find_default defs k ])
  unfolding add_defaults find_default
  get-add_defaults k [] s = ground arith
  get-add_defaults k (m ∷ defs) s = elim (Bool-cases (has m.key s.values)) [
    | inl old ↦ ground (arith, old, get-add_defaults k defs s, same_text_iff m.key k)
    | inr new ↦ ground (
      arith,
      new,
      get-add_defaults k defs (record {
        values = put m.key m.default s.values;
        db = create m.key m.default m.type s.db;
      }),
      get-put m.key k m.default s.values,
      same_text_iff m.key k,
    )
  ]

  -- From an empty cache `init` gives each metric of the definitions the value that the collection
  -- has for it, or its default if the collection has none, and gives no other key a value.
  pub init-values :
      (s : MetricCache) (k : Text)
      → IsKeyed s.db
      → s.values ≡ []
      → get k (init s).values ≡ (elim (find_default metric_defs k) [
        | none ↦ none
        | some d ↦ stored_or (e.metrics.find_one k s.db) (some d)
      ])
  unfolding init get
  init-values s k h fresh = ground (
    arith,
    fresh,
    get-add_defaults k metric_defs
        (record s { values = load (find_by_keys (keys_of metric_defs) s.db) s.values }),
    get-load s.db k (keys_of metric_defs) s.values h,
    is_one_of-keys_of k metric_defs,
  )

  add_default-IsSynced :
      (d : MetricDef) (s : MetricCache)
      → IsSynced s
      → IsSynced (record {
        values = put d.key d.default s.values;
        db = create d.key d.default d.type s.db;
      })
  unfolding create
  add_default-IsSynced d s h = record {
    same_value = λ k v found. elim (Bool-cases (same_text d.key k)) [
      | inl same ↦ (
        record { key = d.key; value = d.default; type = d.type },
        e.metrics.find_one-save d.key k _ s.db ∙ rw same refl,
        ground (arith, found, same, get-put d.key k d.default s.values),
      )
      | inr other ↦
          let (m, stored, value) =
            h.same_value k v (ground (arith, found, other, get-put d.key k d.default s.values)) in
          (m, e.metrics.find_one-save d.key k _ s.db ∙ rw other stored, value)
    ];
  }

  add_defaults-IsSynced :
      (defs : List MetricDef) (s : MetricCache) → IsSynced s → IsSynced (add_defaults defs s)
  unfolding add_defaults
  add_defaults-IsSynced [] s h = h
  add_defaults-IsSynced (d ∷ defs) s h = elim (Bool-cases (has d.key s.values)) [
    | inl old ↦ rw (old, add_defaults) (add_defaults-IsSynced defs s h)
    | inr new ↦ rw (new, add_defaults) (add_defaults-IsSynced defs _ (add_default-IsSynced d s h))
  ]

  load-IsSynced :
      (keys : List Text) (db : e.metrics.Store)
      → IsKeyed db
      → IsSynced (record { values = load (find_by_keys keys db) []; db = db })
  unfolding get
  load-IsSynced keys db h = record {
    same_value = λ k v found. elim (Option-cases (e.metrics.find_one k db)) [
      | inl missing ↦ ground (arith, found, missing, get-load db k keys [] h)
      | inr (m, stored) ↦ (m, stored, ground (arith, found, stored, get-load db k keys [] h))
    ];
  }

  -- From an empty cache `init` leaves every value in the collection too.
  pub init-IsSynced : (s : MetricCache) → IsKeyed s.db → s.values ≡ [] → IsSynced (init s)
  unfolding init
  init-IsSynced s h fresh =
      rw (fresh, init)
        (add_defaults-IsSynced metric_defs _ (load-IsSynced (keys_of metric_defs) s.db h))

  written_IsSynced :
      (key value old : Text) (s : MetricCache)
      → IsSynced s
      → get key s.values ≡ some old
      → IsSynced (record { values = put key value s.values; db = update_one key value s.db })
  unfolding update_one
  written_IsSynced key value old s h known =
      let (m, stored, _) = h.same_value key old known in
      rw (stored, update_one)
        (record {
          same_value = λ k v found. elim (Bool-cases (same_text key k)) [
            | inl same ↦ (
              record m { value = value },
              e.metrics.find_one-save key k _ s.db ∙ rw same refl,
              ground (arith, found, same, get-put key k value s.values),
            )
            | inr other ↦
                let (m', stored', v') =
                  h.same_value k v (ground (arith, found, other, get-put key k value s.values)) in
                (m', e.metrics.find_one-save key k _ s.db ∙ rw other stored', v')
          ];
        })

  -- An update, refused or not, leaves every value of the cache in the collection too.
  pub update-IsSynced :
      (key : Text) (value : Option Text) (s : MetricCache)
      → IsSynced s
      → IsSynced (update key value s).1
  unfolding update
  update-IsSynced key none s h = h
  update-IsSynced key (some value) s h = elim (Option-cases (get key s.values)) [
    | inl missing ↦ rw (missing, update) h
    | inr (old, found) ↦ elim (Bool-cases (same_text value old)) [
      | inl same ↦ rw (found, same, update) h
      | inr other ↦ rw (found, other, update) (written_IsSynced key value old s h found)
    ]
  ]

  -- After an update a known key has the value that was given, if one was given, and all else is as
  -- before.
  update-values :
      (key : Text) (value : Option Text) (s : MetricCache) (j : Text)
      → get j (update key value s).1.values ≡ (elim value [
        | none ↦ get j s.values
        | some v ↦ if has key s.values && same_text key j then some v else get j s.values
      ])
  unfolding update
  update-values key none s j = refl
  update-values key (some v) s j = elim (Option-cases (get key s.values)) [
    | inl missing ↦ ground (arith, missing)
    | inr (old, found) ↦
        ground (arith, found, get-put key j v s.values, same_text_iff key j, same_text_iff v old)
  ]

  -- An update that reports no change has changed nothing.
  pub update-unchanged :
      (key : Text) (value : Option Text) (s : MetricCache)
      → (update key value s).0 ≡ false
      → (update key value s).1 ≡ s
  unfolding update
  update-unchanged key none s = λ h. refl
  update-unchanged key (some v) s = elim (Option-cases (get key s.values)) [
    | inl missing ↦ rw (missing, update) (λ h. refl)
    | inr (old, found) ↦ elim (Bool-cases (same_text v old)) [
      | inl same ↦ rw (found, same, update) (λ h. refl)
      | inr other ↦ rw (found, other, update) (λ h. cc)
    ]
  ]

  -- An update that reports a change has given the key another value.
  pub update-changed :
      (key : Text) (value : Option Text) (s : MetricCache)
      → (update key value s).0 ≡ true
      → get key (update key value s).1.values ≢ get key s.values
  unfolding update
  update-changed key none s = λ h p. cc
  update-changed key (some v) s = elim (Option-cases (get key s.values)) [
    | inl missing ↦ rw (missing, update) (λ h p. cc)
    | inr (old, found) ↦ elim (Bool-cases (same_text v old)) [
      | inl same ↦ rw (found, same, update) (λ h p. cc)
      | inr other ↦
          rw (found, other, update)
            (λ h p. ground (
              arith,
              p,
              other,
              get-put key key v s.values,
              same_text_refl key,
              same_text_iff v old,
            ))
    ]
  ]
