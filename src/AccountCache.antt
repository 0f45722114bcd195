-- ===== src/AccountCache.antt =====
-- src/types/accountCache.ts: the accounts that a round of the synchronisation has touched, over the
-- collection `account`. A method is an action on the cache and the collection; the console output
-- is left out.
pub mod View
pub mod Frame
mod Tests
pub mod Withdraw
pub mod Transfer
pub mod Solvency
pub mod Effects
pub mod Corrected
pub mod Debited
pub mod Flush
use scan_service.Prelude.{Bool, true, false, Option, none, some, [], ◌∷◌, not, ◌||◌, if◌then◌else◌}
use scan_service.Prelude.Text.{Text, same_text, to_lower_case}
use scan_service.Prelude.Dict.{Dict, get, has, put}
use scan_service.Prelude.Exec.{Exec, ok, err, type_error, node_failed, pure, ◌>>◌}
use scan_service.Const.{zero_address, get_account_name}
use scan_service.Env.{Env}
use scan_service.Env.Model.{Network, Token, mtr, mtrg, BlockConcise, Account, ChainAccount}

module _ ⦃e : Env⦄ where
  open e use {BigNumber, big_zero, is_less_than, is_less_than_or_equal_to, to_fixed}

  pub record AccountCache : Type 0 where
    pub accts : Dict (Account BigNumber)
    pub db : e.accounts.Store
    pub network : Network

  -- AccountRepo.findByAddress
  unfoldable pub find_by_address : Text → e.accounts.Store → Option (Account BigNumber)
  find_by_address address db = e.accounts.find_one (to_lower_case address) db

  -- the document that AccountRepo.create makes
  unfoldable pub new_account : Option Text → Text → BlockConcise → Account BigNumber
  new_account name address first_seen = record {
    address = to_lower_case address;
    name = name;
    mtr_balance = big_zero;
    mtrg_balance = big_zero;
    mtr_bounded = big_zero;
    mtrg_bounded = big_zero;
    mtr_rank = 99999999;
    mtrg_rank = 99999999;
    first_seen = first_seen;
    last_update = first_seen;
  }

  -- AccountRepo.create; the document is returned and is in the collection
  unfoldable pub create :
      Option Text → Text → BlockConcise → AccountCache → Account BigNumber × AccountCache
  unfolding new_account
  create name address first_seen s =
      let a = new_account name address first_seen in
      (a, record s { db = e.accounts.save a.address a s.db })

  -- `this.accts[addr]` is changed in place; where it is undefined the access throws
  unfoldable pub update_acct :
      Text → (Account BigNumber → Account BigNumber) → Exec AccountCache (Unit {0})
  update_acct addr f s = elim (get addr s.accts) [
    | none ↦ (err type_error, s)
    | some a ↦ (ok tt, record s { accts = put addr (f a) s.accts })
  ]

  -- Does one of the four amounts print otherwise than on the chain?
  unfoldable pub is_off_chain : Account BigNumber → ChainAccount BigNumber → Bool
  is_off_chain a c =
      not (same_text (to_fixed a.mtrg_balance) (to_fixed c.balance))
      || not (same_text (to_fixed a.mtr_balance) (to_fixed c.energy))
      || not (same_text (to_fixed a.mtrg_bounded) (to_fixed c.bound_balance))
      || not (same_text (to_fixed a.mtr_bounded) (to_fixed c.bound_energy))

  unfoldable pub correct :
      ChainAccount BigNumber → BlockConcise → Account BigNumber → Account BigNumber
  unfolding is_off_chain
  correct c block a =
      if is_off_chain a c
      then record a {
        mtr_balance = c.energy;
        mtrg_balance = c.balance;
        mtr_bounded = c.bound_energy;
        mtrg_bounded = c.bound_balance;
        last_update = block;
      }
      else a

  pub fix_account : Text → BlockConcise → Exec AccountCache (Unit {0})
  unfolding update_acct
  fix_account addr_str block s =
      let addr = to_lower_case addr_str in
      elim (e.get_account addr block.number) [
        | none ↦ (err node_failed, s)
        | some c ↦ update_acct addr (correct c block) s
      ]

  unfoldable pub set_default : Text → BlockConcise → Exec AccountCache (Unit {0})
  unfolding find_by_address create
  set_default addr_str block s =
      let address = to_lower_case addr_str in
      if has address s.accts then (ok tt, s) else elim (find_by_address address s.db) [
        | none ↦
            let (a, s') = create (get_account_name s.network address) address block s in
            (ok tt, record s' { accts = put address a s'.accts })
        | some a ↦ (ok tt, record s { accts = put address a s.accts })
      ]

  -- `if (this.accts[addr].<amount>.isLessThan(0)) await this.fixAccount(addr, blockConcise)`
  unfoldable pub fix_if_negative :
      (Account BigNumber → BigNumber) → Text → BlockConcise → Exec AccountCache (Unit {0})
  fix_if_negative amount addr block s = elim (get addr s.accts) [
    | none ↦ (err type_error, s)
    | some a ↦ elim (is_less_than (amount a) big_zero) [
      | true ↦ fix_account addr block s
      | false ↦ (ok tt, s)
    ]
  ]

  unfoldable pub touch : Text → BlockConcise → Exec AccountCache (Unit {0})
  touch addr block = update_acct addr (λ a. record a { last_update = block })

  pub minus_token : Token → Text → BigNumber → BlockConcise → Exec AccountCache (Unit {0})
  minus_token mtr addr amount block = do
    update_acct addr (λ a. record a { mtr_balance = e.minus a.mtr_balance amount })
    fix_if_negative (λ a. a.mtr_balance) addr block
  minus_token mtrg addr amount block = do
    update_acct addr (λ a. record a { mtrg_balance = e.minus a.mtrg_balance amount })
    fix_if_negative (λ a. a.mtrg_balance) addr block
  minus_token _ addr amount block = pure tt

  unfoldable pub minus : Text → Token → BigNumber → BlockConcise → Exec AccountCache (Unit {0})
  minus addr_str token amount block =
      if same_text addr_str zero_address || is_less_than_or_equal_to amount big_zero
      then pure tt
      else (set_default addr_str block
          >> minus_token token (to_lower_case addr_str) amount block
          >> touch (to_lower_case addr_str) block)

  unfoldable pub plus_token : Token → Text → BigNumber → BlockConcise → Exec AccountCache (Unit {0})
  plus_token mtr addr amount block = do
    update_acct addr (λ a. record a { mtr_balance = e.plus a.mtr_balance amount })
    fix_if_negative (λ a. a.mtr_balance) addr block
  plus_token mtrg addr amount block = do
    update_acct addr (λ a. record a { mtrg_balance = e.plus a.mtrg_balance amount })
    fix_if_negative (λ a. a.mtrg_balance) addr block
  plus_token _ addr amount block = pure tt

  unfoldable pub plus : Text → Token → BigNumber → BlockConcise → Exec AccountCache (Unit {0})
  plus addr_str token amount block =
      if is_less_than_or_equal_to amount big_zero
      then pure tt
      else (set_default addr_str block
          >> plus_token token (to_lower_case addr_str) amount block
          >> touch (to_lower_case addr_str) block)

  -- the MTR branch has no test of the balance
  pub bound_token : Token → Text → BigNumber → BlockConcise → Exec AccountCache (Unit {0})
  bound_token mtr addr amount block = update_acct addr (λ a. record a {
    mtr_balance = e.minus a.mtr_balance amount;
    mtr_bounded = e.plus a.mtr_bounded amount;
  })
  bound_token mtrg addr amount block = do
    update_acct addr (λ a. record a {
      mtrg_balance = e.minus a.mtrg_balance amount;
      mtrg_bounded = e.plus a.mtrg_bounded amount;
    })
    fix_if_negative (λ a. a.mtrg_balance) addr block
  bound_token _ addr amount block = pure tt

  unfoldable pub bound : Text → Token → BigNumber → BlockConcise → Exec AccountCache (Unit {0})
  bound addr_str token amount block =
      set_default addr_str block
      >> bound_token token (to_lower_case addr_str) amount block
      >> touch (to_lower_case addr_str) block

  pub unbound_token : Token → Text → BigNumber → BlockConcise → Exec AccountCache (Unit {0})
  unbound_token mtr addr amount block = update_acct addr (λ a. record a {
    mtr_balance = e.plus a.mtr_balance amount;
    mtr_bounded = e.minus a.mtr_bounded amount;
  })
  unbound_token mtrg addr amount block = do
    update_acct addr (λ a. record a {
      mtrg_balance = e.plus a.mtrg_balance amount;
      mtrg_bounded = e.minus a.mtrg_bounded amount;
    })
    fix_if_negative (λ a. a.mtrg_bounded) addr block
  unbound_token _ addr amount block = pure tt

  unfoldable pub unbound : Text → Token → BigNumber → BlockConcise → Exec AccountCache (Unit {0})
  unbound addr_str token amount block =
      set_default addr_str block
      >> unbound_token token (to_lower_case addr_str) amount block
      >> touch (to_lower_case addr_str) block

  -- the MTRG branch takes the owner's new bounded amount from the balance
  pub withdraw_token : Token → Text → Text → BigNumber → BlockConcise → Exec AccountCache (Unit {0})
  withdraw_token mtr owner recipient amount block = do
    update_acct owner (λ a. record a { mtr_bounded = e.minus a.mtr_bounded amount })
    update_acct recipient (λ a. record a { mtr_bounded = e.plus a.mtr_bounded amount })
  withdraw_token mtrg owner recipient amount block = do
    update_acct owner (λ a. record a { mtrg_bounded = e.minus a.mtrg_balance amount })
    update_acct recipient (λ a. record a { mtrg_bounded = e.plus a.mtrg_bounded amount })
    fix_if_negative (λ a. a.mtrg_bounded) owner block
  withdraw_token _ owner recipient amount block = pure tt

  unfoldable pub withdraw :
      Text → Text → Token → BigNumber → BlockConcise → Exec AccountCache (Unit {0})
  withdraw owner_str recipient_str token amount block =
      set_default owner_str block
      >> set_default recipient_str block
      >> withdraw_token token (to_lower_case owner_str) (to_lower_case recipient_str) amount block
      >> touch (to_lower_case owner_str) block
      >> touch (to_lower_case recipient_str) block

  -- `a.save()` for every account of the cache
  pub save_all : Dict (Account BigNumber) → e.accounts.Store → e.accounts.Store
  save_all [] db = db
  save_all ((_, a) ∷ accts) db = save_all accts (e.accounts.save a.address a db)

  unfoldable pub save_to_db : AccountCache → AccountCache
  unfolding save_all
  save_to_db s = record s { db = save_all s.accts s.db }

  unfoldable pub clean : AccountCache → AccountCache
  clean s = record s { accts = [] }
