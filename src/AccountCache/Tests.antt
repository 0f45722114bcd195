-- ===== src/AccountCache/Tests.antt =====
-- Runs of the cache, and its theorems at concrete inputs.
use scan_service.Prelude.{true, false, ◌⊎◌, ◌≡◌, ◌≢◌, refl, Option, none, some, [], arith}
use scan_service.Prelude.Int.{ℤ, pos, ◌+ℤ◌, ◌-ℤ◌}
use scan_service.Prelude.Text.{Text, codes, same_text, to_lower_case, array_index}
use scan_service.Prelude.Dict.{get, put}
use scan_service.Prelude.Exec.{ok, err, node_failed, ◌>>=◌}
use scan_service.Const.{zero_address, get_account_name}
use scan_service.Env.Model.{main_net, mtr, mtrg, Account, ChainAccount}
use scan_service.Samples.{sample, block_1, block_2, amount}
use scan_service.AccountCache.{
  AccountCache, minus, plus, bound, unbound, withdraw, set_default, minus_token, plus_token,
  bound_token, unbound_token, withdraw_token, update_acct, fix_if_negative, fix_account, correct,
  is_off_chain, touch, create, new_account, find_by_address, save_to_db, save_all, clean,
}
use scan_service.AccountCache.Effects.{loaded, outcome, balance_of}
use scan_service.AccountCache.Corrected.{Agrees}
use scan_service.AccountCache.Debited.{is_overdrawn, rest, minus-value}
use scan_service.AccountCache.View.{view}
use scan_service.AccountCache.Frame.{run, minus_op, plus_op, view-run}
use scan_service.AccountCache.Flush.{IsKeyed, run-IsKeyed, view-clean-save_to_db}
use scan_service.AccountCache.Solvency.{NodeIsSolvent, ShowsSolvent, minus-ShowsSolvent}
use scan_service.AccountCache.Withdraw.{withdraw_takes_from_balance}
use scan_service.AccountCache.Transfer.{held, transfer, transfer_moves}

-- One name on an `unfolding` line for all that a run goes through.
opened : Unit {0}
unfolding minus plus bound unbound withdraw set_default minus_token plus_token bound_token
    unbound_token withdraw_token update_acct fix_if_negative fix_account correct is_off_chain touch
    create new_account find_by_address save_to_db save_all clean transfer loaded outcome view run
    get put array_index same_text to_lower_case zero_address get_account_name ◌>>=◌ ◌+ℤ◌ ◌-ℤ◌
opened = tt

-- An empty cache over an empty collection.
abbrev empty : AccountCache ⦃e = sample⦄
empty = record { accts = []; db = λ k. none; network = main_net }

abbrev alice : Text
alice = codes "0xAa"

abbrev bob : Text
bob = codes "0xbb"

-- 30 MTR for 0xAa, then 12 of them to 0xbb.
abbrev funded : AccountCache ⦃e = sample⦄
funded = (plus alice mtr (amount 30) block_1 empty).1

transfer_run :
    let (r, s) = transfer alice bob mtr (amount 12) block_2 funded in
    (r ≡ ok tt) × (held mtr s (codes "0xaa") ≡ some (pos 18)) × (held mtr s bob ≡ some (pos 12))
unfolding opened
transfer_run = (refl, refl, refl)

-- An overdraft is repaired from the chain, where the account has 50 MTR.
overdraft_run :
    let (r, s) = minus bob mtr (amount 12) block_2 funded in
    (r ≡ ok tt) × (held mtr s bob ≡ some (pos 50)) × (held mtrg s bob ≡ some (pos 70))
unfolding opened
overdraft_run = (refl, refl, refl)

view-run_example :
    view (run block_2 (minus_op alice mtr (amount 12)) funded).1 bob ≡ view funded bob
unfolding opened
view-run_example = view-run block_2 (minus_op alice mtr (amount 12)) funded bob refl

empty-IsKeyed : IsKeyed empty
unfolding get
empty-IsKeyed = record { unique = tt; cached = λ k a h. cc; stored = λ k a h. cc }

run-IsKeyed_example : IsKeyed (run block_1 (plus_op alice mtr (amount 30)) empty).1
run-IsKeyed_example = run-IsKeyed block_1 (plus_op alice mtr (amount 30)) empty empty-IsKeyed

saved_IsKeyed : IsKeyed (run block_1 (plus_op alice mtr (amount 30)) empty).1
saved_IsKeyed = run-IsKeyed block_1 (plus_op alice mtr (amount 30)) empty empty-IsKeyed

view-clean-save_to_db_example :
    view (clean (save_to_db (run block_1 (plus_op alice mtr (amount 30)) empty).1)) (codes "0xaa")
    ≡ view (run block_1 (plus_op alice mtr (amount 30)) empty).1 (codes "0xaa")
view-clean-save_to_db_example =
    view-clean-save_to_db (run block_1 (plus_op alice mtr (amount 30)) empty).1 (codes "0xaa")
      saved_IsKeyed

sample_is_solvent : NodeIsSolvent
sample_is_solvent addr n c h = ground arith

empty-ShowsSolvent : ShowsSolvent empty
unfolding view get
empty-ShowsSolvent k a h = cc

minus-value_example :
    let (r, s) = minus bob mtr (amount 12) block_2 funded in
    let node = sample.get_account (to_lower_case bob) block_2.number in
    let left = rest bob mtr (amount 12) block_2 funded in
    ((is_overdrawn left ≡ false)
      × (r ≡ ok tt)
      × (a : Account (Option ℤ)) × (view s (to_lower_case bob) ≡ some a)
      × (balance_of mtr a ≡ left)
      × (a.last_update ≡ block_2))
    ⊎ ((is_overdrawn left ≡ true)
        × (c : ChainAccount (Option ℤ)) × (node ≡ some c)
        × (r ≡ ok tt)
        × (a : Account (Option ℤ)) × (view s (to_lower_case bob) ≡ some a)
        × Agrees c a
        × (a.last_update ≡ block_2))
    ⊎ ((is_overdrawn left ≡ true) × (node ≡ none) × (r ≡ err node_failed))
unfolding same_text zero_address
minus-value_example = minus-value bob mtr (amount 12) block_2 funded tt refl refl

minus-ShowsSolvent_example : ShowsSolvent (minus bob mtr (amount 12) block_2 empty).1
unfolding opened
minus-ShowsSolvent_example =
    minus-ShowsSolvent sample_is_solvent bob mtr (amount 12) block_2 empty tt empty-ShowsSolvent
      refl

transfer_moves_example :
    let (r, s) = transfer alice bob mtr (amount 12) block_2 funded in
    (r ≡ ok tt)
    × (held mtr s (to_lower_case alice) ≡ some (pos 30 -ℤ pos 12))
    × (held mtr s (to_lower_case bob) ≡ some (pos 0 +ℤ pos 12))
    × (view s (codes "0xcc") ≡ view funded (codes "0xcc"))
unfolding opened
transfer_moves_example =
    transfer_moves alice bob mtr (amount 12) block_2 funded (pos 30) (pos 0) (pos 12) (codes "0xcc")
      tt refl refl refl refl refl (omega arith) (omega arith) (omega arith) refl refl

-- 40 MTRG, of which 10 are bounded.
abbrev staked : AccountCache ⦃e = sample⦄
staked = (bound alice mtrg (amount 10) block_1 (plus alice mtrg (amount 50) block_1 empty).1).1

withdraw_takes_from_balance_example :
    let (r, s) = withdraw alice bob mtrg (amount 4) block_2 staked in
    (r ≡ ok tt)
    × (a : Account (Option ℤ)) × (view s (to_lower_case alice) ≡ some a)
    × (a.mtrg_bounded ≡ some (pos 40 -ℤ pos 4))
    × (a.mtrg_bounded ≢ some (pos 10 -ℤ pos 4))
unfolding opened
withdraw_takes_from_balance_example =
    withdraw_takes_from_balance alice bob (amount 4) block_2 staked (pos 40) (pos 10) (pos 4) refl
      refl refl refl (omega arith) (λ h. cc)
