-- ===== src/Env.antt =====
-- What the program takes from outside of its repository, as records of operations with their
-- documented laws: the arithmetic of bignumber.js, a MongoDB collection, the full node's REST
-- interface. Every model takes one `Env` as an instance argument.
pub mod Numeric
pub mod Mongo
pub mod Model
pub mod Decoding
pub mod Trace
use scan_service.Prelude.{ℕ, Bool, Option}
use scan_service.Prelude.Text.{Text, same_text}
use Numeric.{BigNumbers}
use Mongo.{Collection, same_pair, same_triple}
use Trace.{Call}
use Decoding.{DevKit}
use Model.{Account, TokenBalance, Contract, Metric, Nft, ChainAccount}

pub record Env : Type 1 where
  pub numbers : BigNumbers
  pub open numbers use *
  -- `new BigNumber(text)`
  pub read_number : Text → BigNumber
  -- the collections `account` (by address) and `token_balance` (by address and token address)
  pub accounts : Collection Text same_text (Account BigNumber)
  pub token_balances : Collection (Text × Text) same_pair (TokenBalance BigNumber)
  -- the collection `contract` (by address)
  pub contracts : Collection Text same_text (Contract BigNumber)
  -- the collection `metric` (by key)
  pub metrics : Collection Text same_text Metric
  -- the collection `nft`, by address, token and owner, and whether NFTRepo.findByTokenId finds a
  -- document of an address in lower case and a token
  pub nfts : Collection (Text × Text × Text) same_triple Nft
  pub nft_exists : Text → Text → nfts.Store → Bool
  -- the aggregation of TokenBalanceRepo.countERC20ByAddress, the number of ERC20 tokens that an
  -- address in lower case holds, and the count of MovementRepo.countERC20TxsByAddress, the number of
  -- ERC20 movements from it or to it
  pub count_erc20 : Text → token_balances.Store → contracts.Store → BigNumber
  pub count_erc20_txs : Text → BigNumber
  -- `pos.getAccount(addr, revision)` at a block number; `none` where the request fails
  pub get_account : Text → ℕ → Option (ChainAccount BigNumber)
  -- `pos.getERC20BalanceOf(addr, token, revision)`, read by `new BigNumber`; it never throws
  pub get_erc20_balance_of : Text → Text → ℕ → BigNumber
  pub devkit : DevKit BigNumber
  -- `pos.newTraceClause(txId, clauseIndex)`; `none` where the request fails
  pub trace_clause : Text → ℕ → Option Call
