-- ===== src/LogTraverser/Tests.antt =====
-- Walks along a small trace, and the theorems on walks at concrete inputs.
use scan_service.Prelude.{◌≡◌, refl, none, some, List, [], ◌∷◌}
use scan_service.Prelude.Text.{codes, same_text}
use scan_service.Prelude.Exec.{ok, err, index_mismatch, ◌>>=◌}
use scan_service.Env.Decoding.{Event, Transfer}
use scan_service.Env.Trace.{call, Call, leaf, node, nil, cons}
use scan_service.Samples.{sample}
use scan_service.LogTraverser.{
  event_item, transfer_item, yield_event, yield_transfer, drain_rest, drain, next_transfer,
  call_contract, enter, enter_frame, unless_skipped, traverse, traverse_calls, check_done,
  traverse_root, new_iterator, prototype_address,
}
use scan_service.LogTraverser.Order.{events_of, transfers_of, new_iterator-ok}

abbrev at_c : Event
at_c = record { address = codes "c"; topics = codes "t" ∷ []; payload = [] }

abbrev at_d : Event
at_d = record { address = codes "d"; topics = codes "u" ∷ []; payload = [] }

abbrev at_x : Event
at_x = record { address = codes "x"; topics = []; payload = [] }

abbrev a_to_c : Transfer
a_to_c = record { sender = codes "a"; recipient = codes "c"; amount = codes "0x5"; token = 0 }

abbrev c_to_d : Transfer
c_to_d = record { sender = codes "c"; recipient = codes "d"; amount = codes "0x2"; token = 1 }

-- A call of c, which sends to d and writes an event after that.
abbrev pub trace_c : Call
trace_c =
    node
      (record {
        call_type = call;
        from = codes "a";
        to = codes "c";
        value = codes "0x5";
        input = none;
        gas_used = none;
        output = none;
        error = none;
      })
      (cons
        (leaf (record {
          call_type = call;
          from = codes "c";
          to = codes "d";
          value = codes "0x2";
          input = none;
          gas_used = none;
          output = none;
          error = none;
        }))
        nil)

abbrev events_c : List Event
events_c = at_d ∷ at_c ∷ []

abbrev transfers_c : List Transfer
transfers_c = a_to_c ∷ c_to_d ∷ []

walk_c :
    new_iterator (some trace_c) events_c transfers_c
    ≡ (ok tt, transfer_item a_to_c ∷ transfer_item c_to_d ∷ event_item at_d ∷ event_item at_c ∷ [])
unfolding new_iterator traverse_root traverse traverse_calls enter_frame enter unless_skipped
    next_transfer call_contract drain drain_rest yield_event yield_transfer check_done same_text
    prototype_address ◌>>=◌
walk_c = refl

-- An event of a contract that no frame calls is left over.
walk_short : (new_iterator (some trace_c) (at_c ∷ at_x ∷ []) transfers_c).0 ≡ err index_mismatch
unfolding new_iterator traverse_root traverse traverse_calls enter_frame enter unless_skipped
    next_transfer call_contract drain drain_rest yield_event yield_transfer check_done same_text
    prototype_address ◌>>=◌
walk_short = refl

walk_c_returns : (new_iterator (some trace_c) events_c transfers_c).0 ≡ ok tt
walk_c_returns = rw walk_c refl

new_iterator-ok_example :
    (events_of (new_iterator (some trace_c) events_c transfers_c).1 ≡ events_c)
    × (transfers_of (new_iterator (some trace_c) events_c transfers_c).1 ≡ transfers_c)
new_iterator-ok_example = new_iterator-ok events_c transfers_c (some trace_c) walk_c_returns
