-- ===== src/Traces/Searches.antt =====
-- What the searches along a trace find, against the same questions asked of the trace itself.
use mathlib.Core.List.{Perm}
use scan_service.Prelude.{
  ℕ, suc, ◌+◌, ◌≤◌, ◌≡◌, refl, ap, sym, Bool, false, ◌&&◌, ◌||◌, some, List, [], ◌∷◌, ◌++◌, arith,
  append-nil,
}
use scan_service.Prelude.Text.{Text, codes, same_text, decimal}
use scan_service.Prelude.Dict.{Dict, has, get-put, get-empty}
use scan_service.Env.{Env}
use scan_service.Env.Model.{BlockConcise}
use scan_service.Env.Trace.{Call, Calls, leaf, node, nil, cons, frame_of, calls_of, listed}
use scan_service.Traces.{
  is_self_destruct, note_destructed, find_destructed, suffixed, calls_with_suffix, Traced,
  InternalTx, emitted, extract,
}
use scan_service.Traces.Walk.{total, all_of, any_of, walk-collects, walk-notes}

-- How many frames a trace has.
abbrev mutual
  pub frames : Call → ℕ
  frames (leaf f) = 1
  frames (node f calls) = suc (frames_in calls)

  pub frames_in : Calls → ℕ
  frames_in nil = 0
  frames_in (cons c calls) = frames c + frames_in calls

frames_in_lem : (calls : Calls) → frames_in calls ≡ total frames (listed calls)
frames_in_lem nil = refl
frames_in_lem (cons c calls) = omega (arith, frames_in_lem calls)

frames_lem : (c : Call) → frames c ≡ suc (total frames (calls_of c))
frames_lem (leaf f) = refl
frames_lem (node f calls) = omega (arith, frames_in_lem calls)

-- Does a frame of the trace destruct the contract?
abbrev mutual
  pub destructs : Text → Call → Bool
  destructs k (leaf f) = is_self_destruct f && same_text f.from k
  destructs k (node f calls) = is_self_destruct f && same_text f.from k || destructs_in k calls

  pub destructs_in : Text → Calls → Bool
  destructs_in k nil = false
  destructs_in k (cons c calls) = destructs k c || destructs_in k calls

destructs_in_lem :
    (k : Text) (calls : Calls) → destructs_in k calls ≡ any_of (destructs k) (listed calls)
destructs_in_lem k nil = refl
destructs_in_lem k (cons c calls) = ground (arith, destructs_in_lem k calls)

destructs_lem :
    (k : Text) (c : Call)
    → destructs k c ≡ (
        is_self_destruct (frame_of c) && same_text (frame_of c).from k
        || any_of (destructs k) (calls_of c))
destructs_lem k (leaf f) = ground arith
destructs_lem k (node f calls) = ground (arith, destructs_in_lem k calls)

has-note_destructed :
    (k : Text) (v : Text × BlockConcise) (c : Call) (d : Dict (Text × BlockConcise))
    → has k (note_destructed v c d)
      ≡ (has k d || is_self_destruct (frame_of c) && same_text (frame_of c).from k)
unfolding note_destructed
has-note_destructed k v c d = ground (arith, get-put (frame_of c).from k v d)

-- With as much fuel as the trace has frames the search for destructed contracts ends, and an address
-- is found if and only if it is that of a frame of the trace, at any depth, which destructs itself.
pub find_destructed-finds :
    (fuel : ℕ) (v : Text × BlockConcise) (tracer : Call) (k : Text)
    → frames tracer ≤ fuel
    → (d : Dict (Text × BlockConcise)) × (find_destructed fuel v tracer ≡ some d)
      × (has k d ≡ destructs k tracer)
unfolding find_destructed
find_destructed-finds fuel v tracer k enough =
    let (d, ends, found) =
      walk-notes calls_of frames frames_lem (note_destructed v) (has k)
        (λ c. is_self_destruct (frame_of c) && same_text (frame_of c).from k) (destructs k)
        (has-note_destructed k v) (destructs_lem k) fuel (tracer ∷ []) [] (omega arith) in
    (d, ends, ground (arith, found, get-empty {V = Text × BlockConcise} k))

size_of : Call × Text → ℕ
size_of (c, suffix) = frames c

total-suffixed :
    (suffix : Text) (i : ℕ) (calls : List Call)
    → total size_of (suffixed suffix i calls) ≡ total frames calls
unfolding suffixed size_of
total-suffixed suffix i [] = refl
total-suffixed suffix i (c ∷ calls) = omega (arith, total-suffixed suffix (suc i) calls)

size_of_lem : (item : Call × Text) → size_of item ≡ suc (total size_of (calls_with_suffix item))
unfolding size_of
size_of_lem (c, suffix) = omega (arith, frames_lem c, total-suffixed suffix 0 (calls_of c))

module _ ⦃e : Env⦄ (tx : Traced) (clause_index : ℕ) where
  -- The internal transactions of a trace in the order of the trace, a frame before its calls: each
  -- frame has the path to it as its suffix.
  abbrev mutual
    pub internal_txs : Text → Call → List InternalTx
    internal_txs suffix (leaf f) = emitted tx clause_index (leaf f, suffix)
    internal_txs suffix (node f calls) =
        emitted tx clause_index (node f calls, suffix) ++ internal_txs_in suffix 0 calls

    pub internal_txs_in : Text → ℕ → Calls → List InternalTx
    internal_txs_in suffix i nil = []
    internal_txs_in suffix i (cons c calls) =
        internal_txs (suffix ++ codes "_" ++ decimal i) c ++ internal_txs_in suffix (suc i) calls

  of_item : Call × Text → List InternalTx
  of_item (c, suffix) = internal_txs suffix c

  internal_txs_in_lem :
      (suffix : Text) (i : ℕ) (calls : Calls)
      → internal_txs_in suffix i calls ≡ all_of of_item (suffixed suffix i (listed calls))
  unfolding suffixed of_item
  internal_txs_in_lem suffix i nil = refl
  internal_txs_in_lem suffix i (cons c calls) =
      ap (λ l. internal_txs (suffix ++ codes "_" ++ decimal i) c ++ l)
        (internal_txs_in_lem suffix (suc i) calls)

  of_item_lem :
      (item : Call × Text)
      → of_item item ≡ emitted tx clause_index item ++ all_of of_item (calls_with_suffix item)
  unfolding of_item suffixed
  of_item_lem (leaf f, suffix) = sym (append-nil (emitted tx clause_index (leaf f, suffix)))
  of_item_lem (node f calls, suffix) =
      ap (λ l. emitted tx clause_index (node f calls, suffix) ++ l)
        (internal_txs_in_lem suffix 0 calls)

  -- With as much fuel as the trace has frames the loop ends, and what it adds to the cache, behind
  -- what stood there, is each internal transaction of the trace once, in some order.
  pub extract-collects :
      (fuel : ℕ) (trace : Call) (cache : List InternalTx)
      → frames trace ≤ fuel
      → (added : List InternalTx) × (extract fuel tx clause_index trace cache
          ≡ some (cache ++ added))
        × Perm added (internal_txs (codes "0") trace)
  unfolding extract of_item size_of
  extract-collects fuel trace cache enough =
      let (added, ends, perm) =
        walk-collects calls_with_suffix size_of size_of_lem (emitted tx clause_index) of_item
          of_item_lem fuel ((trace, codes "0") ∷ []) cache (omega arith) in
      (added, ends, rw (← append-nil (internal_txs (codes "0") trace)) perm)
