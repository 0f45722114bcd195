-- ===== src/Env/Decoding.antt =====
-- The types of @meterio/flex and @meterio/devkit that the program reads, and the decoding of logs
-- and call data, which these packages do.
use scan_service.Prelude.{ℕ, Bool, Option, List}
use scan_service.Prelude.Text.{Text}
use scan_service.Prelude.Int.{ℤ}

-- `Flex.Meter.Event` and `Flex.Meter.Transfer`
pub record Event : Type 0 where
  pub address : Text
  pub topics : List Text
  pub payload : Text

pub record Transfer : Type 0 where
  pub sender : Text
  pub recipient : Text
  pub amount : Text
  pub token : ℕ

-- An event of an ABI: its signature, and what `decode` reads; `none` where it throws.
pub record Abi (A : Type 0) : Type 0 where
  pub signature : Text
  pub decode : Event → Option A

pub record BucketWithdraw (BigNumber : Type 0) : Type 0 where
  pub from_bucket : Text
  pub to_bucket : Text
  pub owner : Text
  pub recipient : Text
  pub token : ℕ
  pub amount : BigNumber

pub record DevKit (BigNumber : Type 0) : Type 0 where
  -- `prototype.$Master.signature`, and the `newMaster` that `decode` reads; `none` where it throws
  pub master_signature : Text
  pub new_master : Event → Option Text
  -- `abi.decodeParameter('address', …)`; `none` where it throws
  pub decode_address : Text → Option Text
  -- `ScriptEngine.IsScriptEngineData`
  pub is_script_engine_data : Text → Bool
  -- `ERC20.Transfer`, `ERC721.Transfer`, `ERC1155.TransferSingle` and `ERC1155.TransferBatch`: the
  -- signature, and what `decode` reads; `none` where it throws
  pub erc20_transfer : Text
  pub decode_erc20 : Event → Option (Text × Text × BigNumber)
  pub erc721_transfer : Text
  pub decode_erc721 : Event → Option (Text × Text × BigNumber)
  pub erc1155_single : Text
  pub decode_single : Event → Option (Text × Text × Text × ℤ)
  pub erc1155_batch : Text
  pub decode_batch : Event → Option (Text × Text × List Text × List ℤ)
  -- `ScriptEngine.decodeScriptData(data).action`; `none` where it throws
  pub decode_action : Text → Option Text
  -- `WMTRDeposit` and `WMTRWithdrawal`: an address and an amount
  pub wmtr_deposit : Abi (Text × BigNumber)
  pub wmtr_withdrawal : Abi (Text × BigNumber)
  -- `BoundEvent` and `UnboundEvent`: the owner, the token and the amount
  pub bound_event : Abi (Text × ℕ × BigNumber)
  pub unbound_event : Abi (Text × ℕ × BigNumber)
  -- the bucket events of `ScriptEngine`: a bucket, or the two buckets that it moves between
  pub bucket_open : Abi Text
  pub bucket_close : Abi Text
  pub bucket_deposit : Abi Text
  pub bucket_withdraw : Abi (BucketWithdraw BigNumber)
  pub bucket_merge : Abi (Text × Text)
  pub bucket_transfer_fund : Abi (Text × Text)
  pub bucket_update_candidate : Abi Text
  -- the events of ERC-1967
  pub upgraded : Abi Text
  pub beacon_upgraded : Abi Text
  pub admin_changed : Abi Text
  -- the first bytes of revert data, and `abi.decodeParameter` of 'string' and of 'uint256'
  pub revert_reason_selector : Text
  pub panic_error_selector : Text
  pub decode_string : Text → Option Text
  pub decode_uint256 : Text → Option Text
