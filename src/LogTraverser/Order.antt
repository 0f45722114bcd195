-- ===== src/LogTraverser/Order.antt =====
-- What has been yielded is always a merge of a beginning of the events and a beginning of the
-- transfers, each in its own order.
use scan_service.Prelude.{
  ℕ, zero, suc, ◌≡◌, refl, ap, sym, ◌∙◌, Option, none, some, List, [], ◌∷◌, ◌++◌, inl, inr, arith,
  length, get_elem?, take, drop, Bool-cases, append-nil,
}
use native.Mathlib.Numerals.{add-one}
use scan_service.Prelude.Text.{Text, same_text}
use scan_service.Prelude.Exec.{
  Failure, Exec, Result, ok, err, and_then, Preserves, Preserves-bind, preserves_rules, ◌>>=◌, ◌>>◌,
}
use scan_service.Env.{Env}
use scan_service.Env.Decoding.{Event, Transfer}
use scan_service.Env.Trace.{
  CallType, create, create2, call, call_code, delegate_call, static_call, Frame, Call, leaf, node,
  Calls, nil, cons,
}
use scan_service.LogTraverser.{
  LogItem, event_item, transfer_item, Walk, yield_event, yield_transfer, drain_rest, drain,
  next_transfer, next_master, call_contract, enter, enter_frame, unless_skipped, traverse,
  traverse_calls, check_done, traverse_root, new_iterator,
}

abbrev pub events_of : List LogItem → List Event
events_of [] = []
events_of (event_item ev ∷ l) = ev ∷ events_of l
events_of (transfer_item tr ∷ l) = events_of l

abbrev pub transfers_of : List LogItem → List Transfer
transfers_of [] = []
transfers_of (event_item ev ∷ l) = transfers_of l
transfers_of (transfer_item tr ∷ l) = tr ∷ transfers_of l

events_of-append : (l m : List LogItem) → events_of (l ++ m) ≡ events_of l ++ events_of m
events_of-append [] m = refl
events_of-append (event_item ev ∷ l) m = ap (λ r. ev ∷ r) (events_of-append l m)
events_of-append (transfer_item tr ∷ l) m = events_of-append l m

transfers_of-append :
    (l m : List LogItem) → transfers_of (l ++ m) ≡ transfers_of l ++ transfers_of m
transfers_of-append [] m = refl
transfers_of-append (event_item ev ∷ l) m = transfers_of-append l m
transfers_of-append (transfer_item tr ∷ l) m = ap (λ r. tr ∷ r) (transfers_of-append l m)

take-suc {ℓ} :
    {A : Type ℓ} (l : List A) (i : ℕ) {x : A}
    → get_elem? l i ≡ some x
    → take (suc i) l ≡ take i l ++ x ∷ []
take-suc [] i h = cc
take-suc (y ∷ l) zero h = ground arith
take-suc (y ∷ l) (suc i) h = ap (λ r. y ∷ r) (take-suc l i h)

drop-eq-cons {ℓ} :
    {A : Type ℓ} (l : List A) (i : ℕ) {x : A} {r : List A}
    → drop i l ≡ x ∷ r
    → (get_elem? l i ≡ some x) × (drop (suc i) l ≡ r)
drop-eq-cons [] zero h = cc
drop-eq-cons [] (suc i) h = cc
drop-eq-cons (y ∷ l) zero h = ground arith
drop-eq-cons (y ∷ l) (suc i) h = drop-eq-cons l i h

take-length {ℓ} : {A : Type ℓ} (l : List A) → take (length l) l ≡ l
take-length [] = refl
take-length (x ∷ l) = ap (λ r. x ∷ r) (take-length l)

module _ (evs : List Event) (trs : List Transfer) where
  -- The walk is over `evs` and `trs`, and has yielded a beginning of each.
  pub record IsMerging (s : Walk) : Type 0 where
    pub events_fixed : s.events ≡ evs
    pub transfers_fixed : s.transfers ≡ trs
    pub events_yielded : events_of s.yielded ≡ take s.event evs
    pub transfers_yielded : transfers_of s.yielded ≡ take s.transfer trs

  yield_event-IsMerging :
      (ev : Event) (s : Walk)
      → get_elem? s.events s.event ≡ some ev
      → IsMerging s
      → IsMerging (yield_event ev s)
  unfolding yield_event
  yield_event-IsMerging ev s next h = record {
    events_fixed = h.events_fixed;
    transfers_fixed = h.transfers_fixed;
    events_yielded =
        events_of-append s.yielded (event_item ev ∷ [])
        ∙ ap (λ l. l ++ ev ∷ []) h.events_yielded
        ∙ sym (
            rw add-one
              (take-suc evs s.event (ap (λ l. get_elem? l s.event) (sym h.events_fixed) ∙ next)));
    transfers_yielded =
        transfers_of-append s.yielded (event_item ev ∷ [])
        ∙ append-nil (transfers_of s.yielded)
        ∙ h.transfers_yielded;
  }

  yield_transfer-IsMerging :
      (tr : Transfer) (s : Walk)
      → get_elem? s.transfers s.transfer ≡ some tr
      → IsMerging s
      → IsMerging (yield_transfer tr s)
  unfolding yield_transfer
  yield_transfer-IsMerging tr s next h = record {
    events_fixed = h.events_fixed;
    transfers_fixed = h.transfers_fixed;
    events_yielded =
        events_of-append s.yielded (transfer_item tr ∷ [])
        ∙ append-nil (events_of s.yielded)
        ∙ h.events_yielded;
    transfers_yielded =
        transfers_of-append s.yielded (transfer_item tr ∷ [])
        ∙ ap (λ l. l ++ tr ∷ []) h.transfers_yielded
        ∙ sym (
            rw add-one (
              take-suc trs s.transfer
                (ap (λ l. get_elem? l s.transfer) (sym h.transfers_fixed) ∙ next)));
  }

  drain_rest-IsMerging :
      (contract : Text) (rest : List Event) (s : Walk)
      → drop s.event s.events ≡ rest
      → IsMerging s
      → IsMerging (drain_rest contract rest s)
  unfolding drain_rest
  drain_rest-IsMerging contract [] s e h = h
  drain_rest-IsMerging contract (ev ∷ rest) s e h =
      elim (Bool-cases (same_text ev.address contract)) [
        | inl same ↦
            let (next, tail) = drop-eq-cons s.events s.event e in
            rw same (
              drain_rest-IsMerging contract rest (yield_event ev s)
                (unfold yield_event in rw add-one tail) (yield_event-IsMerging ev s next h))
        | inr other ↦ rw other h
      ]

  drain-IsMerging : (contract : Text) → Preserves IsMerging (drain contract)
  unfolding drain
  drain-IsMerging contract = record {
    from_state = λ s h. drain_rest-IsMerging contract (drop s.event s.events) s refl h;
  }

  next_transfer-IsMerging :
      (mismatch : Failure) (t : Frame) → Preserves IsMerging (next_transfer mismatch t)
  unfolding next_transfer
  next_transfer-IsMerging mismatch t = record {
    from_state = λ s h. grind (arith, yield_transfer-IsMerging);
  }

  module _ ⦃e : Env⦄ where
    next_master-IsMerging : (t : Frame) → Preserves IsMerging (next_master t)
    unfolding next_master
    next_master-IsMerging t = record { from_state = λ s h. grind (arith, yield_event-IsMerging) }

    call_contract-IsMerging : (t : Frame) → Preserves IsMerging (call_contract t)
    unfolding call_contract ◌>>=◌
    call_contract-IsMerging t = record { from_state = λ s h. ground arith }

    ruleset merging_rules = (
      preserves_rules, drain-IsMerging, next_transfer-IsMerging, next_master-IsMerging,
      call_contract-IsMerging,
    )

    enter-IsMerging : (c : CallType) (t : Frame) → Preserves IsMerging (enter c t)
    unfolding enter
    enter-IsMerging create t = search merging_rules depth 8
    enter-IsMerging create2 t = search merging_rules depth 8
    enter-IsMerging call t = search merging_rules depth 8
    enter-IsMerging call_code t = search merging_rules
    enter-IsMerging delegate_call t = search merging_rules
    enter-IsMerging static_call t = search merging_rules
    enter-IsMerging _ t = search merging_rules

    enter_frame-IsMerging : (t : Frame) → Preserves IsMerging (enter_frame t)
    unfolding enter_frame
    enter_frame-IsMerging t = record {
      from_state = λ s h. ground (arith, (enter-IsMerging t.call_type t).from_state s h);
    }

    unless_skipped-IsMerging :
        (found : Option Text) (inner : Text → Exec Walk (Unit {0}))
        → ((contract : Text) → Preserves IsMerging (inner contract))
        → Preserves IsMerging (unless_skipped found inner)
    unfolding unless_skipped
    unless_skipped-IsMerging none inner h = search preserves_rules
    unless_skipped-IsMerging (some contract) inner h = h contract

    mutual
      unfolding traverse traverse_calls

      traverse-IsMerging : (t : Call) → Preserves IsMerging (traverse t)
      traverse-IsMerging (leaf t) = search (preserves_rules, enter_frame-IsMerging)
      traverse-IsMerging (node t calls) =
          Preserves-bind (enter_frame t) _ (enter_frame-IsMerging t) λ found.
            unless_skipped-IsMerging found _ λ contract.
              Preserves-bind (traverse_calls contract calls) _
                (traverse_calls-IsMerging contract calls) (λ _. drain-IsMerging contract)

      traverse_calls-IsMerging :
          (contract : Text) (calls : Calls) → Preserves IsMerging (traverse_calls contract calls)
      traverse_calls-IsMerging contract nil = search preserves_rules
      traverse_calls-IsMerging contract (cons t calls) =
          Preserves-bind (traverse t >> drain contract) _
            (Preserves-bind (traverse t) _ (traverse-IsMerging t) (λ _. drain-IsMerging contract))
            (λ _. traverse_calls-IsMerging contract calls)

    traverse_root-IsMerging : (t : Option Call) → Preserves IsMerging (traverse_root t)
    unfolding traverse_root
    traverse_root-IsMerging none = record { from_state = λ s h. ground arith }
    traverse_root-IsMerging (some t) = record { from_state = (traverse-IsMerging t).from_state }

    done_counts :
        (s : Walk)
        → (check_done s).0 ≡ ok tt
        → (length s.events ≡ s.event) × (length s.transfers ≡ s.transfer)
    unfolding check_done
    done_counts s r = ground arith

    -- A walk that returns has yielded all.
    check_done-ok :
        (s : Walk)
        → IsMerging s
        → (check_done s).0 ≡ ok tt
        → (events_of s.yielded ≡ evs) × (transfers_of s.yielded ≡ trs)
    unfolding check_done
    check_done-ok s h r =
        let (i, j) = done_counts s r in
        (
          h.events_yielded
              ∙ ap (λ n. take n evs) (sym i ∙ ap length h.events_fixed)
              ∙ take-length evs,
          h.transfers_yielded
              ∙ ap (λ n. take n trs) (sym j ∙ ap length h.transfers_fixed)
              ∙ take-length trs,
        )

    start : Walk
    start = record { events = evs; transfers = trs; event = 0; transfer = 0; yielded = [] }

    start-IsMerging : IsMerging start
    unfolding start
    start-IsMerging = record {
      events_fixed = refl;
      transfers_fixed = refl;
      events_yielded = refl;
      transfers_yielded = refl;
    }

    check_done-IsMerging : Preserves IsMerging check_done
    unfolding check_done
    check_done-IsMerging = record { from_state = λ s h. ground arith }

    check_done-state : (s : Walk) → (check_done s).1 ≡ s
    unfolding check_done
    check_done-state s = ground arith

    -- The walk's end.
    finish-ok :
        (r : Result (Unit {0})) (s : Walk)
        → IsMerging s
        → (and_then r (λ _. check_done) s).0 ≡ ok tt
        → let l = (and_then r (λ _. check_done) s).1.yielded in
          (events_of l ≡ evs) × (transfers_of l ≡ trs)
    finish-ok (err f) s h r = cc
    finish-ok (ok u) s h r = rw (check_done-state s) (check_done-ok s h r)

    -- A walk over the events and the transfers of a clause that returns has yielded all the events
    -- in their order and all the transfers in their order, merged.
    pub new_iterator-ok :
        (tracer : Option Call)
        → (new_iterator tracer evs trs).0 ≡ ok tt
        → (events_of (new_iterator tracer evs trs).1 ≡ evs)
          × (transfers_of (new_iterator tracer evs trs).1 ≡ trs)
    unfolding new_iterator start ◌>>=◌
    new_iterator-ok tracer r =
        finish-ok (traverse_root tracer start).0 (traverse_root tracer start).1
          ((traverse_root-IsMerging tracer).from_state start start-IsMerging) r

    -- Whether it returns or throws, a walk has yielded a beginning of the events and a beginning of
    -- the transfers, each in its order and nothing twice.
    pub new_iterator-prefix :
        (tracer : Option Call)
        → (i : ℕ) × (j : ℕ) × (events_of (new_iterator tracer evs trs).1 ≡ take i evs)
          × (transfers_of (new_iterator tracer evs trs).1 ≡ take j trs)
    unfolding new_iterator start ◌>>=◌
    new_iterator-prefix tracer =
        let s = ((traverse_root tracer >> check_done) start).1 in
        let h =
          (Preserves-bind (traverse_root tracer) _ (traverse_root-IsMerging tracer)
              (λ _. check_done-IsMerging)).from_state
            start start-IsMerging in
        (s.event, s.transfer, h.events_yielded, h.transfers_yielded)
