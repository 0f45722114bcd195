-- ===== src/TokenBalanceCache.antt =====
-- src/types/tokenBalanceCache.ts: the class TokenBalanceCache, the balances of tokens that a round
-- of the synchronisation has touched, over the collections `token_balance` and `contract`. The
-- console output is left out.
pub mod Save
pub mod Keyed
pub mod Flush
pub mod Counts
pub mod Amounts
pub mod Holdings
mod Tests
use scan_service.Prelude.{
  Bool, true, false, Option, none, some, List, [], ◌∷◌, ◌++◌, not, ◌&&◌, ◌||◌, if◌then◌else◌,
  is_some,
}
use scan_service.Prelude.Text.{Text, codes, same_text, to_lower_case}
use scan_service.Prelude.Dict.{Dict, get, has, put}
use scan_service.Prelude.Exec.{Result, Exec, ok, err, type_error, pure, ◌>>◌}
use scan_service.Const.{zero_address}
use scan_service.Env.{Env}
use scan_service.Env.Model.{BlockConcise, NftBalance, TokenBalance, Contract}
use scan_service.NftBalances.{merge_nft_balances}

-- `${addrStr}_${tokenAddr}`.toLowerCase()
pub key_of : Text → Text → Text
key_of addr_str token_addr = to_lower_case (addr_str ++ codes "_" ++ token_addr)

module _ ⦃e : Env⦄ where
  open e use {BigNumber, big_zero, is_less_than, is_less_than_or_equal_to, is_equal_to, is_nan}

  pub record TokenBalanceCache : Type 0 where
    pub bals : Dict (TokenBalance BigNumber)
    pub nfts : Dict (List NftBalance)
    pub db : e.token_balances.Store
    pub contracts : e.contracts.Store

  -- TokenBalanceRepo.findByAddress
  pub find_by_address : Text → Text → e.token_balances.Store → Option (TokenBalance BigNumber)
  find_by_address address token_address db =
      e.token_balances.find_one (to_lower_case address, to_lower_case token_address) db

  -- `save` of a document
  unfoldable pub save_bal : TokenBalance BigNumber → e.token_balances.Store → e.token_balances.Store
  save_bal b db = e.token_balances.save (b.address, b.token_address) b db

  -- the document that TokenBalanceRepo.create makes
  pub new_token_balance : Text → Text → BlockConcise → TokenBalance BigNumber
  new_token_balance address token_address first_seen = record {
    address = to_lower_case address;
    token_address = to_lower_case token_address;
    balance = big_zero;
    nft_balances = [];
    rank = 99999999;
    first_seen = first_seen;
    last_update = first_seen;
  }

  -- TokenBalanceRepo.create
  pub create :
      Text → Text → BlockConcise → TokenBalanceCache → TokenBalance BigNumber × TokenBalanceCache
  unfolding new_token_balance save_bal
  create address token_address first_seen s =
      let b = new_token_balance address token_address first_seen in
      (b, record s { db = save_bal b s.db })

  -- `this.bals[key]` is changed in place; where it is undefined the access throws
  pub update_bal :
      Text → (TokenBalance BigNumber → TokenBalance BigNumber) → Exec TokenBalanceCache (Unit {0})
  update_bal key f s = elim (get key s.bals) [
    | none ↦ (err type_error, s)
    | some b ↦ (ok tt, record s { bals = put key (f b) s.bals })
  ]

  unfoldable pub correct :
      BigNumber → BlockConcise → TokenBalance BigNumber → TokenBalance BigNumber
  correct chain_bal block b =
      if not (is_equal_to b.balance chain_bal)
      then record b { balance = chain_bal; last_update = block }
      else b

  pub fix_token_balance : Text → Text → BlockConcise → Exec TokenBalanceCache (Unit {0})
  unfolding update_bal
  fix_token_balance addr_str token_addr block =
      update_bal (key_of addr_str token_addr)
        (correct (e.get_erc20_balance_of addr_str token_addr block.number) block)

  -- The document that is found or made, with its NFT balances merged into a list of its own.
  pub hold : Text → TokenBalance BigNumber → TokenBalanceCache → TokenBalanceCache
  hold key b s = record s {
    bals = put key b s.bals;
    nfts = put key (merge_nft_balances b.nft_balances [] true) s.nfts;
  }

  pub set_default : Text → Text → BlockConcise → Exec TokenBalanceCache (Unit {0})
  unfolding find_by_address create hold
  set_default addr_str token_addr block s =
      let key = key_of addr_str token_addr in
      if has key s.bals then (ok tt, s) else elim (find_by_address addr_str token_addr s.db) [
        | none ↦ let (b, s') = create addr_str token_addr block s in (ok tt, hold key b s')
        | some b ↦ (ok tt, hold key b s)
      ]

  -- `if (balance.isLessThan(0) || Number.isNaN(balance.toNumber())) await this.fixTokenBalance(…)`
  pub fix_if_invalid : Text → Text → BlockConcise → Exec TokenBalanceCache (Unit {0})
  fix_if_invalid addr_str token_addr block s = elim (get (key_of addr_str token_addr) s.bals) [
    | none ↦ (err type_error, s)
    | some b ↦ elim (is_less_than b.balance big_zero || is_nan b.balance) [
      | true ↦ fix_token_balance addr_str token_addr block s
      | false ↦ (ok tt, s)
    ]
  ]

  pub touch : Text → BlockConcise → Exec TokenBalanceCache (Unit {0})
  touch key block = update_bal key (λ b. record b { last_update = block })

  unfoldable pub minus : Text → Text → BigNumber → BlockConcise → Exec TokenBalanceCache (Unit {0})
  minus addr_str token_addr amount block =
      if same_text addr_str zero_address || is_less_than_or_equal_to amount big_zero
      then pure tt
      else (set_default addr_str token_addr block
          >> update_bal (key_of addr_str token_addr)
              (λ b. record b { balance = e.minus b.balance amount })
          >> fix_if_invalid addr_str token_addr block
          >> touch (key_of addr_str token_addr) block)

  unfoldable pub plus : Text → Text → BigNumber → BlockConcise → Exec TokenBalanceCache (Unit {0})
  plus addr_str token_addr amount block =
      if same_text addr_str zero_address || is_less_than_or_equal_to amount big_zero
      then pure tt
      else (set_default addr_str token_addr block
          >> update_bal (key_of addr_str token_addr)
              (λ b. record b { balance = e.plus b.balance amount })
          >> fix_if_invalid addr_str token_addr block
          >> touch (key_of addr_str token_addr) block)

  -- `this.nfts[key] = mergeNFTBalances(this.nfts[key], nftDeltas, plus)`; merging into undefined is
  -- merging into an empty list, but the output before it reads the length of undefined
  pub merge_held : Bool → Text → List NftBalance → Exec TokenBalanceCache (Unit {0})
  merge_held adds key nft_deltas s = elim (get key s.nfts) [
    | none ↦ (err type_error, s)
    | some held ↦
        (ok tt, record s { nfts = put key (merge_nft_balances held nft_deltas adds) s.nfts })
  ]

  unfoldable pub plus_nft :
      Text → Text → List NftBalance → BlockConcise → Exec TokenBalanceCache (Unit {0})
  plus_nft addr_str token_addr nft_deltas block =
      if same_text addr_str zero_address
      then pure tt
      else (set_default addr_str token_addr block
          >> merge_held true (key_of addr_str token_addr) nft_deltas
          >> touch (key_of addr_str token_addr) block)

  unfoldable pub minus_nft :
      Text → Text → List NftBalance → BlockConcise → Exec TokenBalanceCache (Unit {0})
  minus_nft addr_str token_addr nft_deltas block =
      if same_text addr_str zero_address
      then pure tt
      else (set_default addr_str token_addr block
          >> merge_held false (key_of addr_str token_addr) nft_deltas
          >> touch (key_of addr_str token_addr) block)

  unfoldable pub clean : TokenBalanceCache → TokenBalanceCache
  clean s = record s { bals = [] }
