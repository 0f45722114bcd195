-- ===== src/TxOutputs/Numbering.antt =====
-- Every log of a clause gets a position of its own.
use scan_service.Prelude.{
  ℕ, zero, suc, ◌+◌, ◌≤◌, ◌<◌, ◌≡◌, refl, ap, subst, sym, ◌∙◌, true, Option, none, some, List, [],
  ◌∷◌, ◌++◌, inl, inr, arith, length, get_elem?, Bool-cases, append-nil,
}
use native.Mathlib.Nat.{add-zero, zero-add}
use scan_service.Prelude.Text.{Text}
use scan_service.Prelude.Exec.{Result, ok, err}
use scan_service.Env.{Env}
use scan_service.Env.Decoding.{Event, Transfer}
use scan_service.Env.Trace.{Call}
use scan_service.LogTraverser.{LogItem, event_item, transfer_item, new_iterator}
use scan_service.LogTraverser.Order.{events_of, transfers_of, new_iterator-ok}
use scan_service.TxOutputs.{
  Output, Clause, TxOutput, TraceOutput, Logs, number_events, number_transfers, number_items,
  is_empty, reorganize, place_logs, next_tracer, outputs_from, get_tx_outputs,
}

-- The logs are those of the output, numbered from 0 on along some order of all of them that keeps
-- the order of the events and the order of the transfers.
pub record IsPlaced (o : Output) (logs : Logs) : Type 0 where
  pub order : List LogItem
  pub same_events : events_of order ≡ o.events
  pub same_transfers : transfers_of order ≡ o.transfers
  pub numbered : logs ≡ number_items 0 order

events_then : List Event → List LogItem
events_then [] = []
events_then (ev ∷ l) = event_item ev ∷ events_then l

transfers_then : List Transfer → List LogItem → List LogItem
transfers_then [] m = m
transfers_then (tr ∷ l) m = transfer_item tr ∷ transfers_then l m

events_of-events_then : (l : List Event) → events_of (events_then l) ≡ l
unfolding events_then
events_of-events_then [] = refl
events_of-events_then (ev ∷ l) = ap (λ r. ev ∷ r) (events_of-events_then l)

transfers_of-events_then : (l : List Event) → transfers_of (events_then l) ≡ []
unfolding events_then
transfers_of-events_then [] = refl
transfers_of-events_then (ev ∷ l) = transfers_of-events_then l

events_of-transfers_then :
    (l : List Transfer) (m : List LogItem) → events_of (transfers_then l m) ≡ events_of m
unfolding transfers_then
events_of-transfers_then [] m = refl
events_of-transfers_then (tr ∷ l) m = events_of-transfers_then l m

transfers_of-transfers_then :
    (l : List Transfer) (m : List LogItem) → transfers_of (transfers_then l m) ≡ l ++ transfers_of m
unfolding transfers_then
transfers_of-transfers_then [] m = refl
transfers_of-transfers_then (tr ∷ l) m = ap (λ r. tr ∷ r) (transfers_of-transfers_then l m)

number_items-events_then :
    (i : ℕ) (l : List Event)
    → number_items i (events_then l) ≡ record { events = number_events i l; transfers = [] }
unfolding number_items number_events events_then
number_items-events_then i [] = refl
number_items-events_then i (ev ∷ l) = rw (number_items-events_then (suc i) l)

number_items-transfers_then :
    (i : ℕ) (l : List Transfer) (evs : List Event)
    → number_items i (transfers_then l (events_then evs))
      ≡ record { events = number_events (i + length l) evs; transfers = number_transfers i l }
unfolding number_items number_transfers transfers_then
number_items-transfers_then i [] evs = rw add-zero (number_items-events_then i evs)
number_items-transfers_then i (tr ∷ l) evs =
    let shift : suc i + length l ≡ i + suc (length l) = omega arith in
    rw (number_items-transfers_then (suc i) l evs, shift)

-- The events alone, and the transfers before the events.
events_alone :
    (o : Output)
    → o.transfers ≡ []
    → IsPlaced o (record { events = number_events 0 o.events; transfers = [] })
events_alone o none_left = record {
  order = events_then o.events;
  same_events = events_of-events_then o.events;
  same_transfers = transfers_of-events_then o.events ∙ sym none_left;
  numbered = sym (number_items-events_then 0 o.events);
}

transfers_first :
    (o : Output)
    → IsPlaced o (record {
      events = number_events (length o.transfers) o.events;
      transfers = number_transfers 0 o.transfers;
    })
transfers_first o = record {
  order = transfers_then o.transfers (events_then o.events);
  same_events =
      events_of-transfers_then o.transfers (events_then o.events) ∙ events_of-events_then o.events;
  same_transfers =
      transfers_of-transfers_then o.transfers (events_then o.events)
      ∙ ap (λ m. o.transfers ++ m) (transfers_of-events_then o.events)
      ∙ append-nil o.transfers;
  numbered = sym (rw zero-add at (number_items-transfers_then 0 o.transfers o.events));
}

transfers_alone :
    (o : Output)
    → o.events ≡ []
    → IsPlaced o (record { events = []; transfers = number_transfers 0 o.transfers })
unfolding number_events
transfers_alone o no_events =
    subst
      (λ l. IsPlaced o (record {
        events = number_events (length o.transfers) l;
        transfers = number_transfers 0 o.transfers;
      }))
      no_events (transfers_first o)

empty_eq {ℓ} : {A : Type ℓ} (l : List A) → is_empty l ≡ true → l ≡ []
empty_eq [] h = refl
empty_eq (x ∷ l) h = cc

get_elem?-lt {ℓ} :
    {A : Type ℓ} (l : List A) (i : ℕ) → i < length l → (x : A) × (get_elem? l i ≡ some x)
get_elem?-lt [] i h = elim h [ ]
get_elem?-lt (x ∷ l) zero h = (x, refl)
get_elem?-lt (x ∷ l) (suc i) h = get_elem?-lt l i (omega arith)

module _ ⦃e : Env⦄ where
  reorganize-IsPlaced : (tracer : Option Call) (o : Output) → IsPlaced o (reorganize tracer o)
  unfolding reorganize
  reorganize-IsPlaced tracer o = by_result (new_iterator tracer o.events o.transfers).0 refl
    where
      by_result :
          (r : Result (Unit {0}))
          → (new_iterator tracer o.events o.transfers).0 ≡ r
          → IsPlaced o (reorganize tracer o)
      by_result (ok u) h =
          let (same_events, same_transfers) = new_iterator-ok o.events o.transfers tracer h in
          record {
            order = (new_iterator tracer o.events o.transfers).1;
            same_events = same_events;
            same_transfers = same_transfers;
            numbered = rw (h, reorganize) refl;
          }
      by_result (err f) h = rw (h, reorganize) (transfers_first o)

  -- With or without a trace, and whether or not the walk along it throws, the logs of an output are
  -- its events and its transfers, each in its order, numbered from 0 on along one order of all.
  pub place_logs-IsPlaced : (tracer : Option Call) (o : Output) → IsPlaced o (place_logs tracer o)
  unfolding place_logs number_events
  place_logs-IsPlaced tracer o = elim (Bool-cases (is_empty o.events)) [
    | inl no_events ↦ rw (no_events, place_logs) (transfers_alone o (empty_eq o.events no_events))
    | inr events ↦ elim (Bool-cases (is_empty o.transfers)) [
      | inl no_transfers ↦
          rw (events, no_transfers, place_logs) (events_alone o (empty_eq o.transfers no_transfers))
      | inr transfers ↦ rw (events, transfers, place_logs) (reorganize-IsPlaced tracer o)
    ]
  ]

  -- The outputs of a transaction, one for one.
  abbrev pub ArePlaced : List Output → List TxOutput → Type 0
  ArePlaced [] [] = Unit
  ArePlaced (o ∷ l) (out ∷ outs) =
      (out.contract_address ≡ o.contract_address)
      × IsPlaced o (record { events = out.events; transfers = out.transfers })
      × ArePlaced l outs
  ArePlaced _ _ = ⊥

  outputs_from-ok :
      (tx_id : Text) (clauses : List Clause) (i : ℕ) (tracer : Option Call)
      (traces : List TraceOutput) (l : List Output)
      → i + length l ≤ length clauses
      → (outs : List TxOutput) × (all : List TraceOutput) × (outputs_from tx_id clauses i tracer
            traces l
          ≡ ok (outs, all))
        × ArePlaced l outs
  unfolding outputs_from
  outputs_from-ok tx_id clauses i tracer traces [] h = ([], traces, refl, tt)
  outputs_from-ok tx_id clauses i tracer traces (o ∷ l) h =
      let (clause, found) = get_elem?-lt clauses i (omega arith) in
      let (tracer', traces') = next_tracer tx_id i clause.call_data tracer traces in
      let (outs, all, rest, placed) =
        outputs_from-ok tx_id clauses (suc i) tracer' traces' l (omega arith) in
      (
        record {
          contract_address = o.contract_address;
          events = (place_logs tracer' o).events;
          transfers = (place_logs tracer' o).transfers;
        }
            ∷ outs,
        all,
        rw (found, outputs_from) (rw (rest, outputs_from) refl),
        (refl, place_logs-IsPlaced tracer' o, placed),
      )

  -- Of a transaction with a clause for each of its outputs the outputs are returned, one for one and
  -- with their contract addresses, and the logs of each are its events and its transfers, each in
  -- its order, numbered from 0 on along one order of all. The traces may come or fail.
  pub get_tx_outputs-ok :
      (tx_id : Text) (clauses : List Clause) (l : List Output)
      → length l ≤ length clauses
      → (outs : List TxOutput) × (traces : List TraceOutput) × (get_tx_outputs tx_id clauses l
          ≡ ok (outs, traces))
        × ArePlaced l outs
  unfolding get_tx_outputs
  get_tx_outputs-ok tx_id clauses l h = outputs_from-ok tx_id clauses 0 none [] l (omega arith)
