-- ===== src/Contracts/Destructed.antt =====
-- `handleSelfdestruct`: every contract that a trace destructs is marked.
use scan_service.Prelude.{◌≡◌, refl, ap, ◌∙◌, Bool, true, false, ◌||◌, some, [], ◌∷◌, arith}
use scan_service.Prelude.Text.{Text, same_text, same_text_iff, to_lower_case}
use scan_service.Prelude.Dict.{Dict, get, has}
use scan_service.Env.{Env}
use scan_service.Env.Model.{BlockConcise}
use scan_service.Env.Trace.{Call}
use scan_service.Contracts.{ContractCache, mark_all, handle_selfdestruct}
use scan_service.Contracts.Stored.{IsAddressed}
use scan_service.Traces.Searches.{frames, destructs, find_destructed-finds}
use scan_service.Contracts.Marked.{is_gone, marked, is_gone-marked, marked-IsAddressed}

module _ ⦃e : Env⦄ where
  -- Is an address, in lower case, one of the keys?
  abbrev pub names : Text → Dict (Text × BlockConcise) → Bool
  names k [] = false
  names k ((addr, v) ∷ d) = same_text (to_lower_case addr) k || names k d

  is_gone-mark_all :
      (k : Text) (d : Dict (Text × BlockConcise)) (s : ContractCache)
      → IsAddressed s.db
      → is_gone k (mark_all d s) ≡ (names k d || is_gone k s)
  unfolding mark_all
  is_gone-mark_all k [] s keyed = refl
  is_gone-mark_all k ((addr, v) ∷ d) s keyed =
      is_gone-mark_all k d (marked addr k v s) (marked-IsAddressed addr k v s keyed)
      ∙ ap (λ b. names k d || b) (is_gone-marked addr k v s keyed)
      ∙ ground arith

  names-has :
      (addr : Text) (d : Dict (Text × BlockConcise))
      → has addr d ≡ true
      → names (to_lower_case addr) d ≡ true
  unfolding get
  names-has addr [] h = absurd cc
  names-has addr ((j, v) ∷ d) h = ground (
    arith,
    names-has addr d,
    same_text_iff j addr,
    same_text_iff (to_lower_case j) (to_lower_case addr),
    ap to_lower_case {x = j} {y = addr},
  )

  -- After handleSelfdestruct a contract whose address a frame of the trace destructs, at any depth,
  -- is shown as destructed by the cache, or by the collection where the cache does not have it,
  -- if there is one at all and documents stand under their own address.
  pub handle_selfdestruct-gone :
      (tracer : Call) (tx_hash addr : Text) (block : BlockConcise) (s : ContractCache)
      → IsAddressed s.db
      → destructs addr tracer ≡ true
      → is_gone (to_lower_case addr) (handle_selfdestruct (some tracer) tx_hash block s) ≡ true
  unfolding handle_selfdestruct
  handle_selfdestruct-gone tracer tx_hash addr block s keyed destructed =
      let (d, ends, found) =
        find_destructed-finds (frames tracer) (tx_hash, block) tracer addr (omega arith) in
      let step : handle_selfdestruct (some tracer) tx_hash block s ≡ mark_all d s =
        rw (ends, handle_selfdestruct) refl in
      ap (is_gone (to_lower_case addr)) step
      ∙ is_gone-mark_all (to_lower_case addr) d s keyed
      ∙ ap (λ b. b || is_gone (to_lower_case addr) s) (names-has addr d (found ∙ destructed))
