-- ===== src/TxLogs/Read.antt =====
-- The logs of a transaction read back.
use scan_service.Prelude.{
  ℕ, suc, ◌≡◌, refl, ap, sym, ◌∙◌, List, [], ◌∷◌, ◌++◌, map, map-append, append_assoc, append-nil,
}
use scan_service.Prelude.Text.{Text}
use scan_service.Env.Model.{BlockConcise}
use scan_service.Env.Decoding.{Event, Transfer}
use scan_service.TxOutputs.{Output}
use scan_service.TxLogs.{
  LogEvent, LogCaches, push_events, push_transfers, push_outputs, update_logs,
}

-- An event with its place: the clause, and the position in the clause.
abbrev pub placed_event : LogEvent → Event × ℕ × ℕ
placed_event l = (l.event, l.clause_index, l.log_index)

-- The events of a clause with their places, and those of all clauses.
abbrev pub places : ℕ → ℕ → List Event → List (Event × ℕ × ℕ)
places i j [] = []
places i j (ev ∷ events) = (ev, i, j) ∷ places i (suc j) events

abbrev pub all_places : ℕ → List Output → List (Event × ℕ × ℕ)
all_places i [] = []
all_places i (o ∷ outputs) = places i 0 o.events ++ all_places (suc i) outputs

module _ (tx_id : Text) (block : BlockConcise) where
  push_events-places :
      (i j : ℕ) (events : List Event) (s : LogCaches)
      → map placed_event (push_events tx_id block i j events s).log_events
        ≡ map placed_event s.log_events ++ places i j events
  unfolding push_events
  push_events-places i j [] s = sym (append-nil (map placed_event s.log_events))
  push_events-places i j (ev ∷ events) s =
      push_events-places i (suc j) events _
      ∙ ap (λ l. l ++ places i (suc j) events) (map-append placed_event s.log_events _)
      ∙ append_assoc (map placed_event s.log_events) ((ev, i, j) ∷ []) (places i (suc j) events)

  push_transfers-log_events :
      (i j : ℕ) (transfers : List Transfer) (s : LogCaches)
      → (push_transfers tx_id block i j transfers s).log_events ≡ s.log_events
  unfolding push_transfers
  push_transfers-log_events i j [] s = refl
  push_transfers-log_events i j (tr ∷ transfers) s = push_transfers-log_events i (suc j) transfers _

  push_outputs-places :
      (i : ℕ) (outputs : List Output) (s : LogCaches)
      → map placed_event (push_outputs tx_id block i outputs s).log_events
        ≡ map placed_event s.log_events ++ all_places i outputs
  unfolding push_outputs
  push_outputs-places i [] s = sym (append-nil (map placed_event s.log_events))
  push_outputs-places i (o ∷ outputs) s =
      push_outputs-places (suc i) outputs _
      ∙ ap (λ l. map placed_event l ++ all_places (suc i) outputs)
          (push_transfers-log_events i 0 o.transfers (push_events tx_id block i 0 o.events s))
      ∙ ap (λ l. l ++ all_places (suc i) outputs) (push_events-places i 0 o.events s)
      ∙ append_assoc (map placed_event s.log_events) (places i 0 o.events)
          (all_places (suc i) outputs)

  -- The events that updateLogs adds are those of the outputs, in their order and none twice, each
  -- with the number of its clause and its position in the clause; what was there before stays.
  pub update_logs-places :
      (outputs : List Output) (s : LogCaches)
      → map placed_event (update_logs tx_id block outputs s).log_events
        ≡ map placed_event s.log_events ++ all_places 0 outputs
  unfolding update_logs
  update_logs-places outputs s = push_outputs-places 0 outputs s
