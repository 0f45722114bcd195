-- ===== src/MetricCache/Tests.antt =====
-- Runs of the metric cache, and its theorems at concrete inputs.
use scan_service.Prelude.{◌≡◌, refl, none, some, [], if◌then◌else◌, arith, inl, inr, Bool-cases}
use scan_service.Prelude.Text.{codes, same_text, same_text_iff, array_index}
use scan_service.Prelude.Dict.{get, put}
use scan_service.Env.Model.{Metric, num}
use scan_service.Samples.{sample}
use scan_service.MetricCache.{
  MetricCache, find_default, init, update, get_metric, find_by_keys, load, add_defaults, create,
  update_one,
}
use scan_service.MetricCache.Defs.{metric_defs, metric_def, metric_key}
use scan_service.MetricCache.Synced.{IsKeyed, IsSynced, init-values, init-IsSynced, update-IsSynced}

opened : Unit {0}
unfolding init update get_metric find_by_keys load add_defaults create update_one find_default
    metric_defs metric_def metric_key get put same_text array_index
opened = tt

abbrev epoch_7 : Metric
epoch_7 = record { key = codes "epoch"; value = codes "7"; type = num }

-- A collection with one metric.
abbrev fresh : MetricCache ⦃e = sample⦄
fresh = record { values = []; db = λ k. if same_text (codes "epoch") k then some epoch_7 else none }

fresh-IsKeyed : IsKeyed fresh.db
fresh-IsKeyed k m h = elim (Bool-cases (same_text (codes "epoch") k)) [
  | inl same ↦ ground (arith, h, same, same_text_iff (codes "epoch") k)
  | inr other ↦ ground (arith, h, other)
]

epoch_run : get_metric (codes "epoch") (init fresh) ≡ codes "7"
unfolding opened
epoch_run = refl

coef_run : get_metric (codes "coef") (init fresh) ≡ codes "0.053"
unfolding opened
coef_run = refl

init-values_example :
    get (codes "epoch") (init fresh).values
    ≡ (elim (find_default metric_defs (codes "epoch")) [ none ↦ none | some d ↦ some (codes "7") ])
unfolding same_text
init-values_example = init-values fresh (codes "epoch") fresh-IsKeyed refl

init-IsSynced_example : IsSynced (init fresh)
init-IsSynced_example = init-IsSynced fresh fresh-IsKeyed refl

loaded_IsSynced : IsSynced (init fresh)
loaded_IsSynced = init-IsSynced fresh fresh-IsKeyed refl

update-IsSynced_example : IsSynced (update (codes "epoch") (some (codes "8")) (init fresh)).1
update-IsSynced_example =
    update-IsSynced (codes "epoch") (some (codes "8")) (init fresh) loaded_IsSynced
