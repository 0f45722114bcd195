-- ===== src/TxOutputs.antt =====
-- PosCMD.getTxOutputs of src/cmd/pos.cmd.ts: the outputs of a transaction, with the position that
-- each event and each transfer has among all of its clause.
pub mod Numbering
mod Tests
use scan_service.Prelude.{
  ℕ, suc, ◌+◌, Bool, true, false, not, ◌&&◌, Option, none, some, List, [], ◌∷◌, ◌++◌, if◌then◌else◌,
  length, get_elem?,
}
use scan_service.Prelude.Text.{Text, codes, same_text, starts_with}
use scan_service.Prelude.Exec.{Result, ok, err, type_error}
use scan_service.Env.{Env}
use scan_service.Env.Decoding.{Event, Transfer}
use scan_service.Env.Trace.{Call}
use scan_service.LogTraverser.{LogItem, event_item, transfer_item, new_iterator}

-- The parts of a receipt's output, of a clause and of a transaction that are read here.
pub record Output : Type 0 where
  pub contract_address : Option Text
  pub events : List Event
  pub transfers : List Transfer

pub record Clause : Type 0 where
  pub to : Option Text
  pub value : Text
  pub token : ℕ
  pub call_data : Text

pub record Tx : Type 0 where
  pub id : Text
  pub origin : Text
  pub gas_payer : Text
  pub paid : Text
  pub reward : Text
  pub reverted : Bool
  pub clauses : List Clause
  pub outputs : List Output

-- `{ ...event, overallIndex }` and `{ ...transfer, overallIndex }` are pairs with the index.
pub record TxOutput : Type 0 where
  pub contract_address : Option Text
  pub events : List (Event × ℕ)
  pub transfers : List (Transfer × ℕ)

pub record TraceOutput : Type 0 where
  pub trace : Call
  pub clause_index : ℕ

pub record Logs : Type 0 where
  pub events : List (Event × ℕ)
  pub transfers : List (Transfer × ℕ)

pub number_events : ℕ → List Event → List (Event × ℕ)
number_events i [] = []
number_events i (ev ∷ l) = (ev, i) ∷ number_events (suc i) l

pub number_transfers : ℕ → List Transfer → List (Transfer × ℕ)
number_transfers i [] = []
number_transfers i (tr ∷ l) = (tr, i) ∷ number_transfers (suc i) l

-- `for (const item of newIterator(…))` with `logIndex++`
pub number_items : ℕ → List LogItem → Logs
number_items i [] = record { events = []; transfers = [] }
number_items i (event_item ev ∷ l) =
    let rest = number_items (suc i) l in record rest { events = (ev, i) ∷ rest.events }
number_items i (transfer_item tr ∷ l) =
    let rest = number_items (suc i) l in record rest { transfers = (tr, i) ∷ rest.transfers }

-- utils/utils.ts: `isTraceable`
is_traceable : ⦃e : Env⦄ → Text → Bool
is_traceable ⦃e⦄ call_data =
    not (same_text call_data [])
    && not (same_text call_data (codes "0x"))
    && not (e.devkit.is_script_engine_data call_data)
    && not (starts_with (codes "0x64617461") call_data)

abbrev is_empty {ℓ} : {A : Type ℓ} → List A → Bool
is_empty [] = true
is_empty (x ∷ l) = false

module _ ⦃e : Env⦄ where
  -- What the iterator yields is numbered; if it throws, the transfers come first.
  pub reorganize : Option Call → Output → Logs
  reorganize tracer o =
      let (r, items) = new_iterator tracer o.events o.transfers in
      elim r [
        | ok _ ↦ number_items 0 items
        | err _ ↦ record {
          events = number_events (length o.transfers) o.events;
          transfers = number_transfers 0 o.transfers;
        }
      ]

  pub place_logs : Option Call → Output → Logs
  place_logs tracer o =
      if not (is_empty o.events) && not (is_empty o.transfers)
      then reorganize tracer o
      else if not (is_empty o.events)
      then record { events = number_events 0 o.events; transfers = [] }
      else record { events = []; transfers = number_transfers 0 o.transfers }

  -- The trace of a clause. `tracer` is declared by `var`: where no trace is asked for, or the request
  -- fails, it keeps the value that it had for the clause before.
  pub next_tracer :
      Text → ℕ → Text → Option Call → List TraceOutput → Option Call × List TraceOutput
  unfolding is_traceable
  next_tracer tx_id clause_index call_data tracer traces =
      if is_traceable call_data
      then elim (e.trace_clause tx_id clause_index) [
        | none ↦ (tracer, traces)
        | some t ↦ (some t, traces ++ record { trace = t; clause_index = clause_index } ∷ [])
      ]
      else (tracer, traces)

  pub outputs_from :
      Text
      → List Clause
      → ℕ
      → Option Call
      → List TraceOutput
      → List Output
      → Result (List TxOutput × List TraceOutput)
  outputs_from tx_id clauses i tracer traces [] = ok ([], traces)
  outputs_from tx_id clauses i tracer traces (o ∷ l) = elim (get_elem? clauses i) [
    | none ↦ err type_error
    | some clause ↦
        let (tracer', traces') = next_tracer tx_id i clause.call_data tracer traces in
        let logs = place_logs tracer' o in
        elim (outputs_from tx_id clauses (suc i) tracer' traces' l) [
          | err f ↦ err f
          | ok (rest, all) ↦ ok (
            record {
              contract_address = o.contract_address;
              events = logs.events;
              transfers = logs.transfers;
            }
                ∷ rest,
            all,
          )
        ]
  ]

  pub get_tx_outputs : Text → List Clause → List Output → Result (List TxOutput × List TraceOutput)
  unfolding outputs_from
  get_tx_outputs tx_id clauses outputs = outputs_from tx_id clauses 0 none [] outputs
