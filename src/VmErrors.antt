-- ===== src/VmErrors.antt =====
-- PosCMD.getVMError of src/cmd/pos.cmd.ts: the traces of a reverted transaction, and why it reverted.
pub mod First
mod Tests
use scan_service.Prelude.{
  ℕ, suc, Bool, true, false, Option, none, some, List, [], ◌∷◌, ◌++◌, if◌then◌else◌, drop,
}
use scan_service.Prelude.Text.{Text, codes, same_text, starts_with}
use scan_service.Env.{Env}
use scan_service.Env.Trace.{Frame, frame_of}
use scan_service.TxOutputs.{Clause, TraceOutput}

-- model/tx.ts: `IVMError`
pub record VmError : Type 0 where
  pub error : Text
  pub clause_index : ℕ
  pub reason : Option Text

-- A text that is missing or empty is false.
abbrev pub truthy : Option Text → Option Text
truthy none = none
truthy (some []) = none
truthy (some (c ∷ a)) = some (c ∷ a)

module _ ⦃e : Env⦄ where
  open e use {devkit}

  -- The reason that the revert data gives: a string, or a panic code.
  unfoldable pub reason_of : Text → Option Text
  reason_of output =
      if starts_with devkit.revert_reason_selector output
      then truthy (devkit.decode_string (codes "0x" ++ drop 10 output))
      else if starts_with devkit.panic_error_selector output
      then truthy (devkit.decode_uint256 (codes "0x" ++ drop 10 output))
      else none

  unfoldable pub vm_error : ℕ → Text → Frame → VmError
  vm_error i error f = record {
    error = error;
    clause_index = i;
    reason =
        if same_text error (codes "execution reverted")
        then elim (truthy f.output) [ none ↦ none | some output ↦ reason_of output ]
        else none;
  }

  -- The traces and the error so far.
  pub record Found : Type 0 where
    pub vm_error : Option VmError
    pub traces : List TraceOutput

  -- `for (const [clauseIndex, _] of tx.clauses.entries())`: a request that fails is noted, and the
  -- next clause may replace the note; an error in a trace ends the loop.
  unfoldable pub vm_errors_from : Text → ℕ → List Clause → Found → Found
  vm_errors_from tx_id i [] s = s
  vm_errors_from tx_id i (clause ∷ clauses) s = elim (e.trace_clause tx_id i) [
    | none ↦ vm_errors_from tx_id (suc i) clauses (record s {
      vm_error =
          some (record {
            error = codes "could not get tracing error";
            clause_index = i;
            reason = none;
          });
    })
    | some tracer ↦
        let traces = s.traces ++ record { trace = tracer; clause_index = i } ∷ [] in
        elim (truthy (frame_of tracer).error) [
          | none ↦ vm_errors_from tx_id (suc i) clauses (record s { traces = traces })
          | some error ↦ record {
            vm_error = some (vm_error i error (frame_of tracer));
            traces = traces;
          }
        ]
  ]

  unfoldable pub get_vm_error : Text → List Clause → Found
  get_vm_error tx_id clauses =
      vm_errors_from tx_id 0 clauses (record { vm_error = none; traces = [] })
