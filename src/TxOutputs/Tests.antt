-- ===== src/TxOutputs/Tests.antt =====
-- Outputs of small transactions, and the theorems on them at concrete inputs.
use scan_service.Prelude.{◌≡◌, none, some, List, [], ◌∷◌, arith}
use scan_service.Prelude.Text.{Text, codes}
use scan_service.Prelude.Exec.{ok}
use scan_service.Env.Decoding.{Event, Transfer}
use scan_service.Samples.{sample}
use scan_service.TxOutputs.{Output, Clause, TxOutput, TraceOutput, get_tx_outputs}
use scan_service.TxOutputs.Numbering.{ArePlaced, get_tx_outputs-ok}

abbrev ev : Event
ev = record { address = codes "c"; topics = []; payload = [] }

abbrev tr : Transfer
tr = record { sender = codes "a"; recipient = codes "c"; amount = codes "0x5"; token = 0 }

abbrev both : Output
both = record { contract_address = none; events = ev ∷ ev ∷ []; transfers = tr ∷ [] }

abbrev no_transfer : Output
no_transfer = record { contract_address = some (codes "c"); events = ev ∷ []; transfers = [] }

abbrev clause : Text → Clause
clause input = record { to = some (codes "c"); value = codes "0x0"; token = 0; call_data = input }

abbrev calls : List Clause
calls = clause (codes "0xa9059cbb") ∷ clause (codes "0x") ∷ []

get_tx_outputs-ok_example :
    (outs : List TxOutput) × (traces : List TraceOutput) × (get_tx_outputs
        (codes "0xff")
        calls
        (both ∷ no_transfer ∷ [])
      ≡ ok (outs, traces))
    × ArePlaced (both ∷ no_transfer ∷ []) outs
get_tx_outputs-ok_example =
    get_tx_outputs-ok (codes "0xff") calls (both ∷ no_transfer ∷ []) (omega arith)
