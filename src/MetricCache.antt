-- ===== src/MetricCache.antt =====
-- src/types/metricCache.ts: the class MetricCache, the named values that the metrics command keeps,
-- over the collection `metric` (src/repo/metric.repo.ts).
pub mod Defs
pub mod Synced
mod Tests
use scan_service.Prelude.{
  Bool, true, false, Option, none, some, List, [], ◌∷◌, not, map, if◌then◌else◌,
}
use scan_service.Prelude.Text.{Text, same_text}
use scan_service.Prelude.Dict.{Dict, get, has, put}
use scan_service.Env.{Env}
use scan_service.Env.Model.{Metric, MetricType}
use Defs.{MetricDef, metric_defs}

-- The default of the first definition with the key.
unfoldable pub find_default : List MetricDef → Text → Option Text
find_default [] key = none
find_default (m ∷ defs) key =
    let rest = find_default defs key in if same_text m.key key then some m.default else rest

module _ ⦃e : Env⦄ where
  pub record MetricCache : Type 0 where
    pub values : Dict Text
    pub db : e.metrics.Store

  -- MetricRepo.findByKeys; a key has one document, so that the order is of no account
  unfoldable pub find_by_keys : List Text → e.metrics.Store → List Metric
  find_by_keys [] db = []
  find_by_keys (key ∷ keys) db =
      let rest = find_by_keys keys db in
      elim (e.metrics.find_one key db) [ none ↦ rest | some m ↦ m ∷ rest ]

  -- MetricRepo.create
  unfoldable pub create : Text → Text → MetricType → e.metrics.Store → e.metrics.Store
  create key value type db =
      e.metrics.save key (record { key = key; value = value; type = type }) db

  -- MetricRepo.update: `updateOne({ key }, { $set: { value } })`
  unfoldable pub update_one : Text → Text → e.metrics.Store → e.metrics.Store
  update_one key value db = elim (e.metrics.find_one key db) [
    | none ↦ db
    | some m ↦ e.metrics.save key (record m { value = value }) db
  ]

  -- `for (const m of metrics) this.map[m.key] = m.value`
  unfoldable pub load : List Metric → Dict Text → Dict Text
  load [] values = values
  load (m ∷ metrics) values = load metrics (put m.key m.value values)

  -- `for (const m of METRIC_DEFS) if (!(m.key in this.map)) …`
  unfoldable pub add_defaults : List MetricDef → MetricCache → MetricCache
  unfolding create
  add_defaults [] s = s
  add_defaults (m ∷ defs) s = add_defaults defs (
      if not (has m.key s.values)
      then record { values = put m.key m.default s.values; db = create m.key m.default m.type s.db }
      else s)

  unfoldable pub init : MetricCache → MetricCache
  unfolding find_by_keys load add_defaults
  init s =
      let metrics = find_by_keys (map (λ (m : MetricDef). m.key) metric_defs) s.db in
      add_defaults metric_defs (record s { values = load metrics s.values })

  -- Does the value change? `none` is undefined.
  unfoldable pub update : Text → Option Text → MetricCache → Bool × MetricCache
  unfolding update_one
  update key none s = (false, s)
  update key (some value) s = elim (get key s.values) [
    | none ↦ (false, s)
    | some old ↦
        if not (same_text value old)
        then (true, record { values = put key value s.values; db = update_one key value s.db })
        else (false, s)
  ]

  unfoldable pub get_metric : Text → MetricCache → Text
  unfolding find_default
  get_metric key s = elim (get key s.values) [
    | some value ↦ value
    | none ↦ elim (find_default metric_defs key) [ none ↦ [] | some value ↦ value ]
  ]
