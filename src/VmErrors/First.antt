-- ===== src/VmErrors/First.antt =====
-- The error of a reverted transaction is that of the first clause whose trace has one.
use scan_service.Prelude.{
  ℕ, suc, ◌≡◌, refl, ap, sym, ◌∙◌, none, some, Option, List, [], ◌∷◌, ◌++◌, append-nil,
  append_assoc, true, false, drop, if◌then◌else◌, Bool-cases, inl, inr, Option-cases,
}
use scan_service.Prelude.Text.{Text, codes, same_text, starts_with}
use scan_service.Env.{Env}
use scan_service.Env.Trace.{Frame, frame_of}
use scan_service.TxOutputs.{Clause, TraceOutput}
use scan_service.VmErrors.{
  VmError, truthy, vm_error, reason_of, Found, vm_errors_from, get_vm_error,
}

module _ ⦃e : Env⦄ where
  open e use {devkit}

  -- The traces of the clauses, if every request for one succeeds.
  abbrev pub traces_of : Text → ℕ → List Clause → Option (List TraceOutput)
  traces_of tx_id i [] = some []
  traces_of tx_id i (clause ∷ clauses) = elim (e.trace_clause tx_id i) [
    | none ↦ none
    | some t ↦ elim (traces_of tx_id (suc i) clauses) [
      | none ↦ none
      | some l ↦ some (record { trace = t; clause_index = i } ∷ l)
    ]
  ]

  -- Why an execution reverted, by its output: the text of a revert, or the number of a panic.
  abbrev pub told : Option Text → Option Text
  told none = none
  told (some []) = none
  told (some (c ∷ a)) = some (c ∷ a)

  abbrev pub explained : Option Text → Option Text
  explained none = none
  explained (some []) = none
  explained (some (c ∷ output)) =
      let arguments = codes "0x" ++ drop 9 output in
      elim (starts_with devkit.revert_reason_selector (c ∷ output)) [
        | true ↦ told (devkit.decode_string arguments)
        | false ↦ elim (starts_with devkit.panic_error_selector (c ∷ output)) [
          | true ↦ told (devkit.decode_uint256 arguments)
          | false ↦ none
        ]
      ]

  -- The error of a clause: its text, the position of the clause, and why, if it is that the
  -- execution reverted.
  abbrev pub expected : ℕ → Text → Option Text → VmError
  expected i error output = record {
    error = error;
    clause_index = i;
    reason = if same_text error (codes "execution reverted") then explained output else none;
  }

  -- Up to the first trace with an error, and this error.
  abbrev pub up_to_error : List TraceOutput → Found
  up_to_error [] = record { vm_error = none; traces = [] }
  up_to_error (t ∷ l) = elim (told (frame_of t.trace).error) [
    | none ↦ record (up_to_error l) { traces = t ∷ (up_to_error l).traces }
    | some error ↦ record {
      vm_error = some (expected t.clause_index error (frame_of t.trace).output);
      traces = t ∷ [];
    }
  ]

  truthy-told : (a : Option Text) → truthy a ≡ told a
  truthy-told none = refl
  truthy-told (some []) = refl
  truthy-told (some (c ∷ a)) = refl

  reason_of-explained :
      (o : Option Text)
      → (elim (truthy o) [ none ↦ none | some output ↦ reason_of output ]) ≡ explained o
  unfolding reason_of
  reason_of-explained none = refl
  reason_of-explained (some []) = refl
  reason_of-explained (some (c ∷ output)) =
      let arguments = codes "0x" ++ drop 9 output in
      elim (Bool-cases (starts_with devkit.revert_reason_selector (c ∷ output))) [
        | inl text ↦ rw (text, explained) (truthy-told (devkit.decode_string arguments))
        | inr other ↦ elim (Bool-cases (starts_with devkit.panic_error_selector (c ∷ output))) [
          | inl panic ↦ rw (other, panic, explained) (truthy-told (devkit.decode_uint256 arguments))
          | inr unknown ↦ rw (other, unknown, explained) refl
        ]
      ]

  vm_error-expected :
      (i : ℕ) (error : Text) (f : Frame) → vm_error i error f ≡ expected i error f.output
  unfolding vm_error
  vm_error-expected i error f =
      ap
        (λ (r : Option Text). record {
          error = error;
          clause_index = i;
          reason = if same_text error (codes "execution reverted") then r else none;
        })
        (reason_of-explained f.output)

  abbrev at_end : Option VmError → List TraceOutput → Found
  at_end error traces = record { vm_error = error; traces = traces }

  vm_errors_from-up_to_error :
      (tx_id : Text) (i : ℕ) (clauses : List Clause) (l ts : List TraceOutput)
      → traces_of tx_id i clauses ≡ some l
      → vm_errors_from tx_id i clauses (record { vm_error = none; traces = ts })
        ≡ record { vm_error = (up_to_error l).vm_error; traces = ts ++ (up_to_error l).traces }
  unfolding vm_errors_from
  vm_errors_from-up_to_error tx_id i [] l ts h =
      let is : [] ≡ l = cc in rw (← is) (ap (λ x. at_end none x) (sym (append-nil ts)))
  vm_errors_from-up_to_error tx_id i (clause ∷ clauses) l ts h =
      elim (Option-cases (e.trace_clause tx_id i)) [
        | inl failed ↦
            let missing : traces_of tx_id i (clause ∷ clauses) ≡ none =
              rw (failed, traces_of) refl in
            absurd cc
        | inr (t, given) ↦ elim (Option-cases (traces_of tx_id (suc i) clauses)) [
          | inl short ↦
              let missing : traces_of tx_id i (clause ∷ clauses) ≡ none =
                rw (given, short, traces_of) refl in
              absurd cc
          | inr (rest, all) ↦
              let first : TraceOutput = record { trace = t; clause_index = i } in
              let whole : traces_of tx_id i (clause ∷ clauses) ≡ some (first ∷ rest) =
                rw (given, all, traces_of) refl in
              let is : first ∷ rest ≡ l = cc in
              elim (Option-cases (truthy (frame_of t).error)) [
                | inl fine ↦
                    let told_fine : told (frame_of t).error ≡ none =
                      sym (truthy-told (frame_of t).error) ∙ fine in
                    let step : vm_errors_from tx_id i (clause ∷ clauses) (at_end none ts)
                        ≡ vm_errors_from tx_id (suc i) clauses (at_end none (ts ++ first ∷ [])) =
                      rw (given, fine, vm_errors_from) refl in
                    let up : up_to_error (first ∷ rest)
                        ≡ at_end (up_to_error rest).vm_error (first ∷ (up_to_error rest).traces) =
                      rw (told_fine, up_to_error) refl in
                    rw (← is, up)
                      (step
                        ∙ vm_errors_from-up_to_error tx_id (suc i) clauses rest (ts ++ first ∷ [])
                            all
                        ∙ ap (at_end (up_to_error rest).vm_error)
                            (append_assoc ts (first ∷ []) (up_to_error rest).traces))
                | inr (error, wrong) ↦
                    let found = some (expected i error (frame_of t).output) in
                    let told_wrong : told (frame_of t).error ≡ some error =
                      sym (truthy-told (frame_of t).error) ∙ wrong in
                    let step : vm_errors_from tx_id i (clause ∷ clauses) (at_end none ts)
                        ≡ at_end found (ts ++ first ∷ []) =
                      rw (given, wrong, vm_errors_from)
                        (ap (λ x. at_end (some x) (ts ++ first ∷ []))
                          (vm_error-expected i error (frame_of t))) in
                    let up : up_to_error (first ∷ rest) ≡ at_end found (first ∷ []) =
                      rw (told_wrong, up_to_error) refl in
                    rw (← is, up) step
              ]
        ]
      ]

  -- If every request for a trace succeeds, then getVMError returns the traces of the clauses up to the
  -- first one with an error, and this error with the position of its clause and what its output says
  -- of the reason, or all of them and no error.
  pub get_vm_error-up_to_error :
      (tx_id : Text) (clauses : List Clause) (l : List TraceOutput)
      → traces_of tx_id 0 clauses ≡ some l
      → get_vm_error tx_id clauses ≡ up_to_error l
  unfolding get_vm_error
  get_vm_error-up_to_error tx_id clauses l h = vm_errors_from-up_to_error tx_id 0 clauses l [] h
