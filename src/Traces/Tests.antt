-- ===== src/Traces/Tests.antt =====
-- Searches along a small trace, and the theorems on them at concrete inputs.
use mathlib.Core.List.{Perm}
use scan_service.Prelude.{◌≡◌, refl, false, none, some, List, [], ◌∷◌, ◌++◌, arith}
use scan_service.Prelude.Text.{Text, codes, same_text, decimal}
use scan_service.Prelude.Dict.{Dict, has, put}
use scan_service.Env.Model.{BlockConcise}
use scan_service.Env.Trace.{
  call, create, static_call, self_destruct, CallType, Frame, Call, leaf, node, nil, cons,
}
use scan_service.Samples.{sample, block_1}
use scan_service.Traces.{
  walk, note_destructed, find_destructed, find_creation, suffixed, Traced, InternalTx, internal_tx,
  emitted, extract,
}
use scan_service.Traces.Searches.{destructs, find_destructed-finds, internal_txs, extract-collects}

abbrev frame : CallType → Text → Text → Frame
frame t from to = record {
  call_type = t;
  from = from;
  to = to;
  value = [];
  input = none;
  gas_used = none;
  output = none;
  error = none;
}

-- A call that creates "n", reads "r", which destructs "d" below, and then destructs "c".
abbrev trace : Call
trace = node (frame call (codes "a") (codes "c")) (
    cons (leaf (frame create (codes "c") (codes "n"))) (
      cons
        (node (frame static_call (codes "c") (codes "r"))
          (cons (leaf (frame self_destruct (codes "d") (codes "a"))) nil))
        (cons (leaf (frame self_destruct (codes "c") (codes "a"))) nil)))

abbrev traced : Traced ⦃e = sample⦄
traced = record {
  id = codes "0xff";
  block = block_1;
  tx_index = 0;
  paid = codes "9";
  reverted = false;
}

decimal_run : decimal 1207 ≡ codes "1207"
unfolding decimal
decimal_run = refl

-- The deeper contract is found last.
find_destructed_run :
    find_destructed 9 (codes "0xff", block_1) trace
    ≡ some ((codes "c", (codes "0xff", block_1)) ∷ (codes "d", (codes "0xff", block_1)) ∷ [])
unfolding find_destructed walk note_destructed put same_text scan_service.Prelude.Dict.get
    scan_service.Prelude.Text.array_index
find_destructed_run = refl

find_creation_run :
    find_creation 9 (codes "n") (trace ∷ []) ≡ some (some (frame create (codes "c") (codes "n")))
unfolding find_creation same_text
find_creation_run = refl

extract_run :
    extract 5 traced 0 trace []
    ≡ some (
        internal_tx traced 0 (trace, codes "0")
        ∷ internal_tx traced 0 (leaf (frame create (codes "c") (codes "n")), codes "0_0")
        ∷ [])
unfolding extract walk emitted suffixed internal_tx decimal
extract_run = refl

find_destructed-finds_example :
    (d : Dict (Text × BlockConcise)) × (find_destructed 5 (codes "0xff", block_1) trace ≡ some d)
    × (has (codes "d") d ≡ destructs (codes "d") trace)
find_destructed-finds_example =
    find_destructed-finds 5 (codes "0xff", block_1) trace (codes "d") (omega arith)

extract-collects_example :
    (added : List InternalTx) × (extract 5 traced 0 trace [] ≡ some ([] ++ added))
    × Perm added (internal_txs traced 0 (codes "0") trace)
extract-collects_example = extract-collects traced 0 5 trace [] (omega arith)
