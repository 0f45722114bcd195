-- ===== src/LogTraverser.antt =====
-- src/utils/log-traverser.ts: `newIterator` walks a call trace and yields the events and the
-- transfers of a clause in the order in which they happened. What has been yielded is part of the
-- state of the walk, since a walk that throws has yielded some items before.
pub mod Order
mod Tests
use scan_service.Prelude.{
  ℕ, ◌+◌, Bool, false, not, ◌&&◌, ◌||◌, Option, none, some, List, [], ◌∷◌, ◌++◌, ◌==◌, leb,
  if◌then◌else◌, length, get_elem?, drop,
}
use scan_service.Prelude.Text.{Text, codes, same_text}
use scan_service.Prelude.Exec.{
  Failure, Exec, Result, ok, err, type_error, decode_failed, create_transfer_mismatch,
  call_transfer_mismatch, master_mismatch, new_master_mismatch, unknown_call, index_mismatch, pure,
  throw, ◌>>=◌, ◌>>◌,
}
use scan_service.Env.{Env}
use scan_service.Env.Decoding.{Event, Transfer}
use scan_service.Env.Trace.{
  CallType, create, create2, call, call_code, delegate_call, static_call, Frame, Call, leaf, node,
  Calls, nil, cons,
}

pub data LogItem : Type 0 where
  event_item : Event → LogItem
  transfer_item : Transfer → LogItem

pub record Walk : Type 0 where
  pub events : List Event
  pub transfers : List Transfer
  pub event : ℕ
  pub transfer : ℕ
  pub yielded : List LogItem

pub prototype_address : Text
prototype_address = codes "0x000000000000000000000050726f746f74797065"

-- `yield { type: 'event', data: events[event++] }`
pub yield_event : Event → Walk → Walk
yield_event ev s = record s { event = s.event + 1; yielded = s.yielded ++ event_item ev ∷ [] }

pub yield_transfer : Transfer → Walk → Walk
yield_transfer tr s = record s {
  transfer = s.transfer + 1;
  yielded = s.yielded ++ transfer_item tr ∷ [];
}

-- `for (; event < events.length; )`: yields the events of the contract that stand next
pub drain_rest : Text → List Event → Walk → Walk
drain_rest contract [] s = s
drain_rest contract (ev ∷ rest) s =
    if same_text ev.address contract then drain_rest contract rest (yield_event ev s) else s

pub drain : Text → Exec Walk (Unit {0})
unfolding drain_rest
drain contract s = (ok tt, drain_rest contract (drop s.event s.events) s)

-- The transfer of a frame with a value: the next one, which has to be the frame's.
pub next_transfer : Failure → Frame → Exec Walk (Unit {0})
next_transfer mismatch t s =
    if same_text t.value (codes "0x0")
    then (ok tt, s)
    else elim (get_elem? s.transfers s.transfer) [
      | none ↦ (err type_error, s)
      | some tr ↦
          if not (same_text tr.sender t.from)
            || not (same_text tr.recipient t.to)
            || not (same_text tr.amount t.value)
          then (err mismatch, s)
          else (ok tt, yield_transfer tr s)
    ]

-- `ev.topics[0] !== signature`
abbrev first_topic_is : Text → List Text → Bool
first_topic_is signature [] = false
first_topic_is signature (topic ∷ _) = same_text topic signature

module _ ⦃e : Env⦄ where
  open e use {devkit}

  -- The `$Master` event of a created contract.
  pub next_master : Frame → Exec Walk (Unit {0})
  next_master t s = elim (get_elem? s.events s.event) [
    | none ↦ (err type_error, s)
    | some ev ↦
        if not (same_text ev.address t.to) || not (first_topic_is devkit.master_signature ev.topics)
        then (err master_mismatch, s)
        else elim (devkit.new_master ev) [
          | none ↦ (err decode_failed, s)
          | some master ↦
              if not (same_text master t.from)
              then (err new_master_mismatch, s)
              else (ok tt, yield_event ev s)
        ]
  ]

  -- The contract that a CALL writes its events for: for the prototype it is the contract that the
  -- input names (0x, a selector of 4 bytes and one word).
  pub call_contract : Frame → Exec Walk Text
  call_contract t = if not (same_text t.to prototype_address) then pure t.to else elim t.input [
    | none ↦ pure t.to
    | some input ↦
        if not (leb 74 (length input))
        then pure t.to
        else elim (devkit.decode_address (codes "0x" ++ drop 10 input)) [
          | none ↦ throw decode_failed
          | some self ↦ pure (elim self [ [] ↦ t.to | c ∷ r ↦ c ∷ r ])
        ]
  ]

  -- A frame up to its inner calls: the contract whose events follow, or nothing for a frame that is
  -- skipped.
  pub enter : CallType → Frame → Exec Walk (Option Text)
  enter create t = do
    next_transfer create_transfer_mismatch t
    next_master t
    drain t.to
    pure (some t.to)
  enter create2 t = do
    next_transfer create_transfer_mismatch t
    next_master t
    drain t.to
    pure (some t.to)
  enter call t = do
    next_transfer call_transfer_mismatch t
    contract ← call_contract t
    drain contract
    pure (some contract)
  enter call_code t = do drain t.from; pure (some t.from)
  enter delegate_call t = do drain t.from; pure (some t.from)
  enter static_call t = pure none
  enter _ t = throw unknown_call

  -- `events.length === event && transfers.length === transfer`
  abbrev pub is_done : Walk → Bool
  is_done s = length s.events == s.event && length s.transfers == s.transfer

  pub enter_frame : Frame → Exec Walk (Option Text)
  enter_frame t s = if is_done s then (ok none, s) else enter t.call_type t s

  -- A frame that is skipped has its inner calls skipped too.
  pub unless_skipped : Option Text → (Text → Exec Walk (Unit {0})) → Exec Walk (Unit {0})
  unless_skipped none inner = pure tt
  unless_skipped (some contract) inner = inner contract

  mutual
    pub traverse : Call → Exec Walk (Unit {0})
    traverse (leaf t) = enter_frame t >> pure tt
    traverse (node t calls) = enter_frame t >>= λ found.
        unless_skipped found (λ contract. traverse_calls contract calls >> drain contract)

    pub traverse_calls : Text → Calls → Exec Walk (Unit {0})
    traverse_calls contract nil = pure tt
    traverse_calls contract (cons t calls) =
        traverse t >> drain contract >> traverse_calls contract calls

  pub check_done : Exec Walk (Unit {0})
  check_done s = if is_done s then (ok tt, s) else (err index_mismatch, s)

  -- `undefined` has no type to read.
  pub traverse_root : Option Call → Exec Walk (Unit {0})
  traverse_root none s = if is_done s then (ok tt, s) else (err type_error, s)
  traverse_root (some t) s = traverse t s

  pub new_iterator : Option Call → List Event → List Transfer → Result (Unit {0}) × List LogItem
  new_iterator tracer events transfers =
      let start : Walk = record {
        events = events;
        transfers = transfers;
        event = 0;
        transfer = 0;
        yielded = [];
      } in
      let (r, s) = (traverse_root tracer >> check_done) start in (r, s.yielded)
