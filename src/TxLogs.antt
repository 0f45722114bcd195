-- ===== src/TxLogs.antt =====
-- PosCMD.updateLogs of src/cmd/pos.cmd.ts: the events and the transfers of a transaction, each with
-- the place where it stands.
pub mod Read
mod Tests
use scan_service.Prelude.{ℕ, suc, List, [], ◌∷◌, ◌++◌}
use scan_service.Prelude.Text.{Text}
use scan_service.Env.Model.{BlockConcise}
use scan_service.Env.Decoding.{Event, Transfer}
use scan_service.TxOutputs.{Output}

-- model/logEvent.ts and model/logTransfer.ts
pub record LogEvent : Type 0 where
  pub event : Event
  pub block : BlockConcise
  pub tx_hash : Text
  pub clause_index : ℕ
  pub log_index : ℕ

pub record LogTransfer : Type 0 where
  pub transfer : Transfer
  pub block : BlockConcise
  pub tx_hash : Text
  pub clause_index : ℕ
  pub log_index : ℕ

pub record LogCaches : Type 0 where
  pub log_events : List LogEvent
  pub log_transfers : List LogTransfer

module _ (tx_id : Text) (block : BlockConcise) where
  -- `for (const [logIndex, e] of o.events.entries()) this.logEventCache.push(…)`
  unfoldable pub push_events : ℕ → ℕ → List Event → LogCaches → LogCaches
  push_events clause_index log_index [] s = s
  push_events clause_index log_index (ev ∷ events) s =
      push_events clause_index (suc log_index) events (record s {
        log_events =
            s.log_events
            ++ record {
              event = ev;
              block = block;
              tx_hash = tx_id;
              clause_index = clause_index;
              log_index = log_index;
            }
              ∷ [];
      })

  unfoldable pub push_transfers : ℕ → ℕ → List Transfer → LogCaches → LogCaches
  push_transfers clause_index log_index [] s = s
  push_transfers clause_index log_index (tr ∷ transfers) s =
      push_transfers clause_index (suc log_index) transfers (record s {
        log_transfers =
            s.log_transfers
            ++ record {
              transfer = tr;
              block = block;
              tx_hash = tx_id;
              clause_index = clause_index;
              log_index = log_index;
            }
              ∷ [];
      })

  unfoldable pub push_outputs : ℕ → List Output → LogCaches → LogCaches
  unfolding push_events push_transfers
  push_outputs clause_index [] s = s
  push_outputs clause_index (o ∷ outputs) s =
      push_outputs (suc clause_index) outputs
        (push_transfers clause_index 0 o.transfers (push_events clause_index 0 o.events s))

  unfoldable pub update_logs : List Output → LogCaches → LogCaches
  unfolding push_outputs
  update_logs outputs s = push_outputs 0 outputs s
