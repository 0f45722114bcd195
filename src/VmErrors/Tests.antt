-- ===== src/VmErrors/Tests.antt =====
-- The error of a small reverted transaction, and the theorem on it at a concrete input.
use scan_service.Prelude.{◌≡◌, refl, none, some, [], ◌∷◌}
use scan_service.Prelude.Text.{codes, same_text, starts_with}
use scan_service.Env.{Env}
use scan_service.Env.Trace.{call, Call, leaf}
use scan_service.Samples.{sample}
use scan_service.TxOutputs.{Clause}
use scan_service.VmErrors.{vm_errors_from, get_vm_error, vm_error, reason_of}
use scan_service.VmErrors.First.{up_to_error, get_vm_error-up_to_error}

abbrev reverted : Call
reverted = leaf (record {
  call_type = call;
  from = codes "a";
  to = codes "c";
  value = [];
  input = none;
  gas_used = none;
  output = some (codes "0x08c379a0ff");
  error = some (codes "execution reverted");
})

-- A node that has the same trace of every clause.
abbrev traced : Env
traced = record sample { trace_clause = λ tx_id i. some reverted }

abbrev clause : Clause
clause = record { to = none; value = codes "0x0"; token = 0; call_data = codes "0x" }

-- The second clause is not looked at.
get_vm_error_run : get_vm_error ⦃e = traced⦄ (codes "0xff") (clause ∷ clause ∷ []) ≡ record {
  vm_error = some (record {
    error = codes "execution reverted";
    clause_index = 0;
    reason = some (codes "why");
  });
  traces = record { trace = reverted; clause_index = 0 } ∷ [];
}
unfolding get_vm_error vm_errors_from vm_error reason_of same_text starts_with
get_vm_error_run = refl

get_vm_error-up_to_error_example :
    get_vm_error ⦃e = traced⦄ (codes "0xff") (clause ∷ [])
    ≡ up_to_error ⦃e = traced⦄ (record { trace = reverted; clause_index = 0 } ∷ [])
get_vm_error-up_to_error_example =
    get_vm_error-up_to_error ⦃e = traced⦄ (codes "0xff") (clause ∷ [])
      (record { trace = reverted; clause_index = 0 } ∷ []) refl
