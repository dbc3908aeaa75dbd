-- ===== src/Pool/Sweep.antt =====
-- The passes over all idle buckets: `WorkerPool.reap`, and `retire_runtime` and `retire_idle_worker`
-- of runner_engine/lifecycle_runtime.py. A pass visits each entry of the dictionary once and writes
-- back what it keeps of the bucket.
use runner_engine.Prelude.{
  ℕ, String, string_eq, nat_eq, Bool, true, false, List, [], ◌∷◌, ◌++◌, Option, none, some,
  if◌then◌else◌, ◌==◌, is_empty, length, map,
}
use runner_engine.Errors.{ok}
use runner_engine.Exec.{Exec, pure, ◌>>◌}
use runner_engine.Dict.{Dict}
use runner_engine.Model.{Worker, Ref}
use runner_engine.Backend.{Backend}
use runner_engine.Pool.{Pool, Key, idle_expired, destroy, destroy_all}

-- The workers of a bucket that the test picks, first to last, and the others.
unfoldable pub picked : (Ref → Bool) → List Ref → List Ref
picked test [] = []
picked test (r ∷ rs) = picked test rs ++ (if test r then r ∷ [] else [])

unfoldable pub kept : (Ref → Bool) → List Ref → List Ref
kept test [] = []
kept test (r ∷ rs) = let rest = kept test rs in if test r then rest else r ∷ rest

-- An entry whose bucket is empty is dropped.
abbrev pub keep_entry : Key → List Ref → Dict Key (List Ref) → Dict Key (List Ref)
keep_entry k rs d = if is_empty rs then d else (k, rs) ∷ d

unfoldable pub sweep : (Key → Ref → Bool) → Dict Key (List Ref) → List Ref × Dict Key (List Ref)
sweep test [] = ([], [])
sweep test ((k, rs) ∷ d) =
    let (out, rest) = sweep test d in
    (picked (test k) rs ++ out, keep_entry k (kept (test k) rs) rest)

-- The first worker with the identifier, in the order of the pass.
unfoldable pub first_with : (Ref → Worker) → String → Dict Key (List Ref) → Option Ref
first_with ws id [] = none
first_with ws id ((k, rs) ∷ d) = elim (picked (λ r. (ws r).id == id) rs) [
  | [] ↦ first_with ws id d
  | r ∷ _ ↦ some r
]

abbrev pub is_target : Option Ref → Ref → Bool
is_target none r = false
is_target (some t) r = t == r

module _ {W : Type 0} (backend : Backend W) where
  unfoldable pub take_out : (Key → Ref → Bool) → Pool W → List Ref × Pool W
  take_out test p = let (out, rest) = sweep test p.idle in (out, record p { idle = rest })

  -- WorkerPool.reap
  unfoldable pub reap : Exec (Pool W) ℕ
  reap p =
      let (stale, q) = take_out (λ _ r. idle_expired backend p (p.workers r)) p in
      (destroy_all backend stale >> pure (length stale)) q

  -- LifecycleWorkerPool.retire_runtime
  unfoldable pub retire_runtime : String → Exec (Pool W) (List String)
  retire_runtime runtime_id p =
      let (retired, q) = take_out (λ k _. k.runtime_id == runtime_id) p in
      (destroy_all backend retired >> λ s. (ok (map (λ r. (s.workers r).id) retired), s)) q

  abbrev pub retire_target : Option Ref → Exec (Pool W) Bool
  retire_target none = pure false
  retire_target (some r) = do destroy backend r; pure true

  -- LifecycleWorkerPool.retire_idle_worker
  unfoldable pub retire_idle_worker : String → Exec (Pool W) Bool
  retire_idle_worker worker_id p =
      let target = first_with p.workers worker_id p.idle in
      retire_target target (take_out (λ _ r. is_target target r) p).1
