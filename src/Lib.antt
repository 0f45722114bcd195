-- ===== src/Lib.antt =====
-- The indexer of the Meter blockchain (scan-service), as a model of its parts in src/.
--
-- The service reads the blocks of a Meter node one after the other and keeps a MongoDB database of
-- accounts, token balances, contracts, transactions and movements, which its API shows. The command
-- `pos` (src/cmd/pos.cmd.ts) is the core: for every transaction it places the logs of each clause
-- (getTxOutputs, which walks a call trace by src/utils/log-traverser.ts), turns them into movements,
-- digests, contracts, buckets and internal transactions, and adds them to caches (src/types/), which
-- its loop saves at the end of a window of blocks.
--
-- Files and the code that they model:
--   Prelude, Prelude/*: what the modules share. Integers over the native numbers, JavaScript numbers as
--     integers that are rounded above 2 ^ 53, text as lists of character codes, objects of JavaScript as
--     association lists in their order of enumeration, and asynchronous methods that change a state and
--     may throw (`Exec`).
--   Env, Env/*: what the program takes from outside and the model leaves open, with the laws that
--     are relied on: BigNumber (with a NaN), the collections of MongoDB, the answers of the node, and
--     the decoding of logs. The records of src/model/ stand there too.
--   Const: the names of known accounts (src/const/index.ts); Const/Config has the configuration of the
--     networks, Const/Tokens the tokens of src/const/token.ts.
--   SyncLoop: PosCMD.loop with saveCacheToDB, cleanCache, updateHead and the recovery after an error
--     (src/cmd/pos.cmd.ts), in windows of LOOP_WINDOW = 100 blocks. What a block changes besides the
--     list of blocks is an interface, `Work`.
--   Repair: fixAccount and fixTokenBalance of PosCMD, and the part of cleanUpIncompleteData that calls
--     them.
--   Blocks: PosCMD.processBlock and updateCommitteeEndBlock; processTx is a parameter of it.
--   AccountCache: the class AccountCache (src/types/accountCache.ts) and the queries of
--     src/repo/account.repo.ts that it uses.
--   NftBalances: mergeNFTBalances (src/types/tokenBalanceCache.ts).
--   TokenBalanceCache: the class TokenBalanceCache (src/types/tokenBalanceCache.ts) and the queries of
--     src/repo/tokenBalance.repo.ts that it uses; TokenBalanceCache/Save has saveToDB and updateCounts.
--   MetricCache: the class MetricCache (src/types/metricCache.ts) over src/repo/metric.repo.ts, with the
--     table of the metrics in MetricCache/Defs.
--   LogTraverser: newIterator (src/utils/log-traverser.ts).
--   TxOutputs: PosCMD.getTxOutputs (src/cmd/pos.cmd.ts) and isTraceable (src/utils/utils.ts).
--   Movements: parseERC20Movement, parseERC721Movement and parseERC1155Movement (src/cmd/pos.cmd.ts) over
--     both caches and the list of movements, with the native transfers; Movements/Update has
--     updateMovements and updateWMTR.
--   TxDigests: PosCMD.updateTxDigests (src/cmd/pos.cmd.ts).
--   Traces: the searches of a call trace in src/cmd/pos.cmd.ts: for destructed and created contracts,
--     and the internal transactions that processTx extracts.
--   Contracts: handleERC1967Events, handleSelfdestruct and the saving of the cache of contracts.
--   VmErrors: PosCMD.getVMError.
--   Staking: handleBound, handleUnbound and handleNativeBucketEvent.
--   NftCache: mint and transfer of the class NFTCache (src/types/nftCache.ts).
--   NftAuditor: the class NFTBalanceAuditor (src/types/tokenBalanceCache.ts).
--   TxLogs: PosCMD.updateLogs (src/cmd/pos.cmd.ts).
--   Samples: concrete values of what is taken from outside, for tests and examples.
--
-- A method keeps the name that it has in the code, in snake case. A method of a class is a function
-- of the state of the class, which holds the collections that it writes too; what was written before
-- an exception stays written. Loops are structural recursion on the list or the trace that they run
-- over, but for two. The searches of Traces keep a queue of frames, and run on fuel, the number of
-- frames of the trace: every step takes one frame off the queue, so that it is enough. The import of
-- SyncLoop counts the numbers of its window, and its loop runs over the list of rounds that the node
-- and the clock give it.
--
-- Not modelled: handleContractCreation, the composition of the handlers in processTx, the genesis
-- block and the rebasing of tokens; the save of the class NFTCache; the other commands; console output
-- and logging, the clients of the node, the schemas and the listings of the database, the HTTP
-- interface, and scripts that no part of the service calls. Asynchronous calls are taken in the order
-- in which they are awaited, and `Promise.all` in the order of its list.
pub mod AccountCache
pub mod Blocks
pub mod Const
pub mod Contracts
pub mod Env
pub mod LogTraverser
pub mod MetricCache
pub mod Movements
pub mod NftAuditor
pub mod NftBalances
pub mod NftCache
pub mod Prelude
pub mod Repair
pub mod Samples
pub mod Staking
pub mod SyncLoop
pub mod TokenBalanceCache
pub mod Traces
pub mod TxDigests
pub mod TxLogs
pub mod TxOutputs
pub mod VmErrors
