-- ===== src/Env/Model.antt =====
-- The documents of src/model and the enumerations of src/const/types.ts. A document is generic in
-- the type of its amounts.
use scan_service.Prelude.{ℕ, Option, List}
use scan_service.Prelude.Text.{Text}
use scan_service.Prelude.Int.{ℤ}

-- const/types.ts
pub data Network : Type 0 where
  main_net test_net verse_main verse_test : Network

pub data Token : Type 0 where
  mtr mtrg erc20 erc721 erc1155 mtrg_v2 : Token

-- model/blockConcise.ts
pub record BlockConcise : Type 0 where
  pub hash : Text
  pub number : ℕ
  pub timestamp : ℕ

-- model/account.ts; `name` is not required, and an account is made with no alias
pub record Account (BigNumber : Type 0) : Type 0 where
  pub address : Text
  pub name : Option Text
  pub mtr_balance : BigNumber
  pub mtrg_balance : BigNumber
  pub mtr_bounded : BigNumber
  pub mtrg_bounded : BigNumber
  pub mtr_rank : ℕ
  pub mtrg_rank : ℕ
  pub first_seen : BlockConcise
  pub last_update : BlockConcise

-- model/tokenBalance.ts: `INFTBalance`; its value is a JavaScript number
pub record NftBalance : Type 0 where
  pub token_id : Text
  pub value : ℤ

-- model/tokenBalance.ts: `ITokenBalance`
pub record TokenBalance (BigNumber : Type 0) : Type 0 where
  pub address : Text
  pub token_address : Text
  pub balance : BigNumber
  pub nft_balances : List NftBalance
  pub rank : ℕ
  pub first_seen : BlockConcise
  pub last_update : BlockConcise

-- `Pos.Account`, as `fixAccount` reads it
pub record ChainAccount (BigNumber : Type 0) : Type 0 where
  pub balance : BigNumber
  pub energy : BigNumber
  pub bound_balance : BigNumber
  pub bound_energy : BigNumber

-- const/types.ts
pub data DeployStatus : Type 0 where
  new self_destructed re_deployed : DeployStatus

-- model/contract.ts: `IContract`, the fields that are read here; both counts are required
pub record Contract (BigNumber : Type 0) : Type 0 where
  pub address : Text
  pub holders_count : BigNumber
  pub transfers_count : BigNumber
  pub tokens_count : Option BigNumber
  pub impl_addr : Option Text
  pub prev_impl_addr : Option Text
  pub admin_addr : Option Text
  pub beacon_addr : Option Text
  pub deploy_status : Option DeployStatus
  pub destruct_tx_hash : Option Text
  pub destruct_block : Option BlockConcise

-- const/types.ts: `MetricType`
pub data MetricType : Type 0 where
  num bignum string : MetricType

-- model/metric.ts: `IMetric`
pub record Metric : Type 0 where
  pub key : Text
  pub value : Text
  pub type : MetricType

-- model/nft.ts: `INFT`, without the media; its value is a JavaScript number too
pub record Nft : Type 0 where
  pub address : Text
  pub token_id : Text
  pub value : ℤ
  pub type : Text
  pub minter : Text
  pub creation_tx_hash : Text
  pub block : BlockConcise
  pub owner : Text
  pub status : Text
