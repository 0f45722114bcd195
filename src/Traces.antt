-- ===== src/Traces.antt =====
-- The searches of src/cmd/pos.cmd.ts along a call trace, each with a queue of frames: the internal
-- transactions of `processTx`, the contracts that `handleSelfdestruct` finds, and the creation input
-- of `handleContractCreation`.
pub mod Walk
pub mod Searches
mod Tests
use scan_service.Prelude.{
  ℕ, zero, suc, Bool, true, false, ◌&&◌, Option, none, some, List, [], ◌∷◌, ◌++◌, if◌then◌else◌,
  take,
}
use scan_service.Prelude.Text.{Text, codes, same_text, to_lower_case, decimal}
use scan_service.Prelude.Dict.{Dict, put}
use scan_service.Env.{Env}
use scan_service.Env.Model.{BlockConcise}
use scan_service.Env.Trace.{
  CallType, create, create2, call, call_code, delegate_call, static_call, self_destruct, unknown,
  Frame, Call, frame_of, calls_of,
}
use scan_service.Const.{zero_address}

-- `while (q.length) { const node = q.shift(); … }`, where every round pushes the calls of the frame
-- behind the others; `none` where the fuel runs out
module _ {N : Type 0} {S : Type 0} (children : N → List N) (visit : N → S → S) where
  unfoldable pub walk : ℕ → List N → S → Option S
  walk fuel [] s = some s
  walk zero (n ∷ q) s = none
  walk (suc fuel) (n ∷ q) s = walk fuel (q ++ children n) (visit n s)

abbrev pub is_self_destruct : Frame → Bool
is_self_destruct f = elim f.call_type [ self_destruct ↦ true | _ ↦ false ]

-- `destructedContracts[node.from] = { txHash, block }`
unfoldable pub note_destructed :
    Text × BlockConcise → Call → Dict (Text × BlockConcise) → Dict (Text × BlockConcise)
note_destructed v c d = if is_self_destruct (frame_of c) then put (frame_of c).from v d else d

unfoldable pub find_destructed :
    ℕ → Text × BlockConcise → Call → Option (Dict (Text × BlockConcise))
unfolding walk note_destructed
find_destructed fuel v tracer = walk calls_of (note_destructed v) fuel (tracer ∷ []) []

abbrev pub is_creation : Text → Frame → Bool
is_creation address f = elim f.call_type [
  | create ↦ same_text f.to address
  | create2 ↦ same_text f.to address
  | _ ↦ false
]

-- The search for the frame that creates a contract ends at the first one; the outer `none` is lack
-- of fuel.
unfoldable pub find_creation : ℕ → Text → List Call → Option (Option Frame)
find_creation fuel address [] = some none
find_creation zero address (c ∷ q) = none
find_creation (suc fuel) address (c ∷ q) =
    let rest = find_creation fuel address (q ++ calls_of c) in
    if is_creation address (frame_of c) then some (some (frame_of c)) else rest

abbrev pub type_name : CallType → Text
type_name create = codes "create"
type_name create2 = codes "create2"
type_name call = codes "call"
type_name call_code = codes "callcode"
type_name delegate_call = codes "delegatecall"
type_name static_call = codes "staticcall"
type_name self_destruct = codes "selfdestruct"
type_name (unknown t) = to_lower_case t

abbrev pub is_recorded : Frame → Bool
is_recorded f = elim f.call_type [ create ↦ true | create2 ↦ true | call ↦ true | _ ↦ false ]

-- `node.calls.entries()` with the suffix of each call
unfoldable pub suffixed : Text → ℕ → List Call → List (Call × Text)
suffixed suffix i [] = []
suffixed suffix i (c ∷ calls) =
    (c, suffix ++ codes "_" ++ decimal i) ∷ suffixed suffix (suc i) calls

abbrev pub calls_with_suffix : Call × Text → List (Call × Text)
calls_with_suffix (c, suffix) = suffixed suffix 0 (calls_of c)

module _ ⦃e : Env⦄ where
  open e use {BigNumber, big_zero, read_number}

  -- model/internalTx.ts; gasUsed is a JavaScript number, which is read as a BigNumber first
  pub record InternalTx : Type 0 where
    pub tx_hash : Text
    pub block : BlockConcise
    pub tx_index : ℕ
    pub name : Text
    pub from : Text
    pub to : Text
    pub value : BigNumber
    pub fee : BigNumber
    pub gas_used : BigNumber
    pub clause_index : ℕ
    pub reverted : Bool
    pub signature : Text

  -- The transaction that the traces belong to.
  pub record Traced : Type 0 where
    pub id : Text
    pub block : BlockConcise
    pub tx_index : ℕ
    pub paid : Text
    pub reverted : Bool

  -- `x ? new BigNumber(x) : new BigNumber(0)`
  abbrev pub number_or_zero : Option Text → BigNumber
  number_or_zero none = big_zero
  number_or_zero (some []) = big_zero
  number_or_zero (some (c ∷ a)) = read_number (c ∷ a)

  unfoldable pub internal_tx : Traced → ℕ → Call × Text → InternalTx
  internal_tx tx clause_index (c, suffix) =
      let f = frame_of c in
      record {
        tx_hash = tx.id;
        block = tx.block;
        tx_index = tx.tx_index;
        name = type_name f.call_type ++ codes "_" ++ suffix;
        from = f.from;
        to = elim f.to [ [] ↦ zero_address | x ∷ a ↦ x ∷ a ];
        value = number_or_zero (some f.value);
        fee = read_number tx.paid;
        gas_used = number_or_zero f.gas_used;
        clause_index = clause_index;
        reverted = tx.reverted;
        signature = elim f.input [ none ↦ [] | some input ↦ take 10 input ];
      }

  -- What one round pushes to `internalTxCache`.
  unfoldable pub emitted : Traced → ℕ → Call × Text → List InternalTx
  unfolding internal_tx
  emitted tx clause_index item =
      if is_recorded (frame_of item.0) then internal_tx tx clause_index item ∷ [] else []

  unfoldable pub extract : ℕ → Traced → ℕ → Call → List InternalTx → Option (List InternalTx)
  unfolding walk emitted suffixed
  extract fuel tx clause_index trace cache =
      walk calls_with_suffix (λ item l. l ++ emitted tx clause_index item) fuel
        ((trace, codes "0") ∷ []) cache
