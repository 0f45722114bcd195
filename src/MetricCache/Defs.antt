-- ===== src/MetricCache/Defs.antt =====
-- The metrics of src/const/model.ts and their defaults, METRIC_DEFS of src/types/metricCache.ts.
use scan_service.Prelude.{List, [], ◌∷◌}
use scan_service.Prelude.Text.{Text, codes}
use scan_service.Env.Model.{MetricType, num, bignum, string}

pub data MetricName : Type 0 where
  difficulty hashrate epoch seq kblock pos_best pow_best cost_parity reward_per_day : MetricName
  mtrg_price mtrg_price_change mtr_price mtr_price_change candidates delegates buckets : MetricName
  jailed candidate_count delegate_count bucket_count jailed_count stakeholder_count : MetricName
  stakeholders mtr_circulation mtrg_circulation present_auction auction_summaries : MetricName
  validator_rewards btc_hashrate btc_price coef stats invalid_nodes invalid_nodes_count : MetricName
  mtrg_staked mtrg_staked_locked tx_fee_beneficiary mtrg_totalsupply mtr_totalsupply : MetricName
  address_count tx_max_count : MetricName

-- The text of a member of the enumeration.
unfoldable pub metric_key : MetricName → Text
metric_key difficulty = codes "difficulty"
metric_key hashrate = codes "networkhashps"
metric_key epoch = codes "epoch"
metric_key seq = codes "seq"
metric_key kblock = codes "kblock"
metric_key pos_best = codes "pos_best"
metric_key pow_best = codes "pow_best"
metric_key cost_parity = codes "cost_parity"
metric_key reward_per_day = codes "reward_per_day"
metric_key mtrg_price = codes "mtrg_price"
metric_key mtrg_price_change = codes "mtrg_price_change"
metric_key mtr_price = codes "mtr_price"
metric_key mtr_price_change = codes "mtr_price_change"
metric_key candidates = codes "candidates"
metric_key delegates = codes "delegates"
metric_key buckets = codes "buckets"
metric_key jailed = codes "jailed"
metric_key candidate_count = codes "candidate_count"
metric_key delegate_count = codes "delegate_count"
metric_key bucket_count = codes "bucket_count"
metric_key jailed_count = codes "jailed_count"
metric_key stakeholder_count = codes "stakehodler_count"
metric_key stakeholders = codes "stakeholders"
metric_key mtr_circulation = codes "mtr_circulation"
metric_key mtrg_circulation = codes "mtrg_circulation"
metric_key present_auction = codes "present_auction"
metric_key auction_summaries = codes "auction_summaries"
metric_key validator_rewards = codes "validator_rewards"
metric_key btc_hashrate = codes "btc_hashrate"
metric_key btc_price = codes "btc_price"
metric_key coef = codes "coef"
metric_key stats = codes "stats"
metric_key invalid_nodes = codes "invalid_nodes"
metric_key invalid_nodes_count = codes "invalid_nodes_count"
metric_key mtrg_staked = codes "mtrg_staked"
metric_key mtrg_staked_locked = codes "mtrg_staked_locked"
metric_key tx_fee_beneficiary = codes "tx_fee_beneficiary"
metric_key mtrg_totalsupply = codes "mtrg_totalsupply"
metric_key mtr_totalsupply = codes "mtr_totalsupply"
metric_key address_count = codes "address_count"
metric_key tx_max_count = codes "tx_max_count"

pub record MetricDef : Type 0 where
  pub key : Text
  pub type : MetricType
  pub default : Text

unfoldable pub metric_def : MetricName → MetricType → Text → MetricDef
unfolding metric_key
metric_def name type default = record { key = metric_key name; type = type; default = default }

unfoldable pub metric_defs : List MetricDef
unfolding metric_def
metric_defs =
    metric_def difficulty bignum (codes "1")
    ∷ metric_def hashrate bignum (codes "0")
    ∷ metric_def epoch num (codes "0")
    ∷ metric_def seq num (codes "0")
    ∷ metric_def kblock num (codes "0")
    ∷ metric_def pos_best num (codes "0")
    ∷ metric_def pow_best num (codes "0")
    ∷ metric_def cost_parity num (codes "0")
    ∷ metric_def reward_per_day num (codes "0")
    ∷ metric_def coef num (codes "0.053")
    ∷ metric_def mtrg_price num (codes "1")
    ∷ metric_def mtrg_price_change string (codes "0%")
    ∷ metric_def mtr_price num (codes "0.5")
    ∷ metric_def mtr_price_change string (codes "0%")
    ∷ metric_def btc_price num (codes "1")
    ∷ metric_def btc_hashrate num (codes "1")
    ∷ metric_def mtr_circulation string (codes "0")
    ∷ metric_def mtrg_circulation string (codes "0")
    ∷ metric_def mtrg_totalsupply string (codes "0")
    ∷ metric_def mtr_totalsupply string (codes "0")
    ∷ metric_def candidates string (codes "[]")
    ∷ metric_def delegates string (codes "[]")
    ∷ metric_def buckets string (codes "[]")
    ∷ metric_def jailed string (codes "[]")
    ∷ metric_def candidate_count num (codes "0")
    ∷ metric_def delegate_count num (codes "0")
    ∷ metric_def bucket_count num (codes "0")
    ∷ metric_def jailed_count num (codes "0")
    ∷ metric_def validator_rewards string (codes "[]")
    ∷ metric_def stakeholder_count num (codes "0")
    ∷ metric_def stakeholders string (codes "0")
    ∷ metric_def present_auction string (codes "{}")
    ∷ metric_def auction_summaries string (codes "[]")
    ∷ metric_def stats string (codes "[]")
    ∷ metric_def invalid_nodes string (codes "[]")
    ∷ metric_def invalid_nodes_count num (codes "0")
    ∷ metric_def mtrg_staked string (codes "0")
    ∷ metric_def mtrg_staked_locked string (codes "0")
    ∷ metric_def tx_fee_beneficiary string (codes "0x")
    ∷ metric_def address_count string (codes "0")
    ∷ metric_def tx_max_count string (codes "0")
    ∷ []
