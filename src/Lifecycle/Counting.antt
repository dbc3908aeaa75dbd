-- ===== src/Lifecycle/Counting.antt =====
-- The counters of the gate tell the acquisitions that are under way.
use runner_engine.Prelude.{
  ℕ, ◌+◌, ◌-◌, ◌≡◌, ap, String, string_eq, none, some, List, ◌∷◌, leb, count, erase, count-erase,
  eq→≡, arith, if◌then◌else◌,
}
use runner_engine.Dict.{Dict, get, get-put, get-pop}
use runner_engine.Lifecycle.Gate.{acquiring_of, count_acquisition, uncount_acquisition}

-- A counter for each runtime with an acquisition under way, and no other entry.
abbrev pub Counts : Dict String ℕ → List String → Type 0
Counts counters pending =
    (runtime_id : String)
    → get runtime_id counters
      ≡ (if leb (count runtime_id pending) 0 then none else some (count runtime_id pending))

module _ (counters : Dict String ℕ) (pending : List String) (h : Counts counters pending) where
  pub acquiring_of-count :
      (runtime_id : String) → acquiring_of counters runtime_id ≡ count runtime_id pending
  acquiring_of-count runtime_id = rw (h runtime_id) (ground arith)

  pub count_acquisition-Counts :
      (runtime_id : String) → Counts (count_acquisition runtime_id counters) (runtime_id ∷ pending)
  count_acquisition-Counts runtime_id k = ground (
    arith,
    get-put runtime_id k (acquiring_of counters runtime_id + 1) counters,
    acquiring_of-count runtime_id,
    h k,
    eq→≡ runtime_id k,
    ap (λ x. count x pending) {x = runtime_id} {y = k},
  )

  pub uncount_acquisition-Counts :
      (runtime_id : String)
      → Counts (uncount_acquisition runtime_id counters) (erase runtime_id pending)
  uncount_acquisition-Counts runtime_id k = ground (
    arith,
    get-put runtime_id k (acquiring_of counters runtime_id - 1) counters,
    get-pop runtime_id k counters,
    acquiring_of-count runtime_id,
    count-erase k runtime_id pending,
    h k,
    eq→≡ runtime_id k,
    ap (λ x. count x pending) {x = runtime_id} {y = k},
  )
