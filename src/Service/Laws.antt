-- ===== src/Service/Laws.antt =====
-- The service's guards and its start.
use runner_engine.Prelude.{
  ℕ, ◌≡◌, ◌≢◌, ◌⊎◌, inl, inr, refl, ◌∙◌, String, string_eq, true, false, none, some, List, [], ◌∷◌,
  contains, if◌then◌else◌, arith, nat_beq_iff,
}
use runner_engine.Errors.{Exn, Result-cases, ok, err, failure, text_of}
use runner_engine.Exec.{logged}
use runner_engine.Pool.Retire.{destroy_marks}
use runner_engine.Dict.{Dict, get, get-restrict}
use runner_engine.Table.{count_where}
use runner_engine.Model.{Value, Lease, ActiveRun, Ref}
use runner_engine.Backend.{Backend}
use runner_engine.Pool.{Pool, reset_after_restart, invalidate, destroy, assign, mark_unhealthy}
use runner_engine.State.{Clocks}
use runner_engine.State.Leases.{require_lease, purge_expired_leases}
use runner_engine.State.Runs.{reset_running, purge_expired_idempotency, any_running_run}
use runner_engine.State.Restarts.{
  reset_running_ends_all, reset_running-IsLedger, purge_expired_idempotency-IsLedger,
}
use runner_engine.State.Ledger.{IsLedger}
use runner_engine.Service.{
  filter_attributes, Service, startup, cancel, cancel_found, cancel_worker, foreign,
}

-- A key of the filtered attributes reads as in the attributes if it is allowed, and is missing
-- otherwise.
pub get-filter_attributes :
    (key : String) (values : Dict String Value) (allowed : List String)
    → get key (filter_attributes values allowed)
      ≡ (if contains key allowed then get key values else none)
unfolding filter_attributes get
get-filter_attributes key values [] = refl
get-filter_attributes key values (a ∷ others) = get-restrict (a ∷ others) key values

module _ {W : Type 0} (backend : Backend W) where
  destroy_healthy :
      (r : Ref) (p : Pool W) → ((destroy backend r p).1.workers r).healthy ≡ (p.workers r).healthy
  unfolding destroy
  destroy_healthy r p = ground (arith, nat_beq_iff r r)

  invalidated :
      (r : Ref) (p : Pool W)
      → (((invalidate backend r p).1.workers r).destroyed ≡ true)
        × (((invalidate backend r p).1.workers r).healthy ≡ false)
  unfolding invalidate
  invalidated r p = (
    destroy_marks backend [] r (assign r mark_unhealthy p),
    destroy_healthy r (assign r mark_unhealthy p) ∙ rw ((nat_beq_iff r r).1 refl) refl,
  )

  -- A startup that returns, from tables that are a ledger, leaves no idle worker, no RUNNING
  -- execution, and a ledger.
  pub startup_lem :
      (c : Clocks) (s : Service W) (n : ℕ)
      → (startup backend c s).0 ≡ ok n
      → IsLedger s.db
      → ((startup backend c s).1.pool.idle ≡ [])
        × (count_where any_running_run (startup backend c s).1.db.runs ≡ 0)
        × IsLedger (startup backend c s).1.db
  unfolding startup reset_after_restart reset_running purge_expired_leases purge_expired_idempotency
  startup_lem c s n h v = elim (Result-cases (backend.cleanup_managed s.pool.world).0) [
    | inr (e, raised) ↦ cc (rw raised at h)
    | inl (m, done) ↦
        let w =
          purge_expired_idempotency-IsLedger c (reset_running c s.db).1
            (reset_running-IsLedger c s.db v) in
        rw done (
          refl,
          (reset_running_ends_all c s.db).0,
          record {
            unique_keys = w.unique_keys;
            unique_runs = w.unique_runs;
            claim_runs = w.claim_runs;
            run_claimed = w.run_claimed;
          },
        )
  ]

  module _ (c : Clocks) (tenant_id lease_id invocation_id : String) (s : Service W) (l : Lease)
      (granted : (require_lease c lease_id tenant_id none s.db).0 ≡ ok l) (run : ActiveRun)
      (found : get invocation_id s.active ≡ some run) where
    cancel_state :
        cancel backend c tenant_id lease_id invocation_id s
        ≡ cancel_found backend tenant_id lease_id invocation_id (some run) s
    unfolding cancel require_lease
    cancel_state = rw (granted, found) refl

    -- If the lease may be used by the tenant but the active invocation is of another tenant or
    -- lease, cancel raises CANCEL_FORBIDDEN and changes nothing.
    pub cancel_refuses :
        (run.tenant_id ≢ tenant_id) ⊎ (run.lease_id ≢ lease_id)
        → cancel backend c tenant_id lease_id invocation_id s ≡ (
          err (failure "CANCEL_FORBIDDEN" "invocation does not belong to this tenant/lease" false),
          s,
        )
    cancel_refuses other =
        let no : foreign tenant_id lease_id run ≡ true = ground (
          arith,
          other,
          string_eq.is_same_iff run.tenant_id tenant_id,
          string_eq.is_same_iff run.lease_id lease_id,
        ) in
        cancel_state ∙ rw no refl

    -- If the lease may be used by the tenant, the active invocation is theirs, and the backend
    -- raises when it is asked to cancel, then cancel raises a retryable CANCEL_FAILED with the
    -- text of what was raised, and the worker is destroyed and unhealthy, also where its
    -- destruction raises; the table of active invocations is as it was.
    pub cancel_retires :
        (e : Exn)
        → run.tenant_id ≡ tenant_id
        → run.lease_id ≡ lease_id
        → (backend.cancel (s.pool.workers run.worker) invocation_id s.pool.world).0 ≡ err e
        → let s' = (cancel backend c tenant_id lease_id invocation_id s).1 in
          ((cancel backend c tenant_id lease_id invocation_id s).0
            ≡ err (failure "CANCEL_FAILED" (text_of e) true))
          × ((s'.pool.workers run.worker).destroyed ≡ true)
          × ((s'.pool.workers run.worker).healthy ≡ false)
          × (s'.active ≡ s.active)
    unfolding cancel_worker
    cancel_retires e own_tenant own_lease raised =
        let yes : foreign tenant_id lease_id run ≡ false = ground (
          arith,
          own_tenant,
          own_lease,
          string_eq.is_same_iff run.tenant_id tenant_id,
          string_eq.is_same_iff run.lease_id lease_id,
        ) in
        let world = (backend.cancel (s.pool.workers run.worker) invocation_id s.pool.world).1 in
        let m = invalidated run.worker (record s.pool { world = world }) in
        rw cancel_state (rw (yes, raised, logged) (refl, m.0, m.1, refl))
