-- ===== src/TxLogs/Tests.antt =====
-- The logs of a small transaction.
use scan_service.Prelude.{◌≡◌, none, [], ◌∷◌, map}
use scan_service.Prelude.Text.{codes}
use scan_service.Env.Decoding.{Event, Transfer}
use scan_service.Samples.{block_1}
use scan_service.TxOutputs.{Output}
use scan_service.TxLogs.{LogCaches, update_logs}
use scan_service.TxLogs.Read.{placed_event, update_logs-places}

abbrev ev : Event
ev = record { address = codes "c"; topics = []; payload = [] }

abbrev tr : Transfer
tr = record { sender = codes "a"; recipient = codes "c"; amount = codes "0x5"; token = 0 }

abbrev both : Output
both = record { contract_address = none; events = ev ∷ ev ∷ []; transfers = tr ∷ [] }

abbrev empty : LogCaches
empty = record { log_events = []; log_transfers = [] }

update_logs-places_example :
    map placed_event (update_logs (codes "0xff") block_1 (both ∷ both ∷ []) empty).log_events
    ≡ (ev, 0, 0) ∷ (ev, 0, 1) ∷ (ev, 1, 0) ∷ (ev, 1, 1) ∷ []
update_logs-places_example = update_logs-places (codes "0xff") block_1 (both ∷ both ∷ []) empty
