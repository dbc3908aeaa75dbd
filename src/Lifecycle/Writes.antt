-- ===== src/Lifecycle/Writes.antt =====
-- What the calls of the controller write: rows of the store, the pool, and no counter.
use runner_engine.Prelude.{
  ◌≡◌, refl, ◌⊎◌, String, string_eq, Bool, true, false, List, is_empty, arith, Bool-cases, inl, inr,
}
use runner_engine.Errors.{Exn, Result, Result-cases, ok, err}
use runner_engine.Backend.{Backend}
use runner_engine.Pool.Sweep
use runner_engine.Lifecycle.{
  is_retired, get_by_runtime_id, get_by_image, begin_retirement, cancel_retirement,
  finalize_retirement,
}
use runner_engine.Lifecycle.Gate.{Host, acquiring_of}
use runner_engine.Lifecycle.Controller.{
  not_drained, Surroundings, state_of, is_retiring, active_of, idle_of, status_of,
  runtime_image_status, retire_unless, begin_runtime_retirement, check_reactivable,
  cancel_runtime_retirement, finalized_status, finalize_runtime_retirement,
}

module _ {W : Type 0} (x : Surroundings W) (image_ref : String) where
  -- The store and the counters are as in another host.
  abbrev pub SameBooks : Host W → Host W → Type 0
  SameBooks h h' = (h'.lifecycle ≡ h.lifecycle) × (h'.acquiring ≡ h.acquiring)

  pub status-SameBooks : (h : Host W) → SameBooks h (runtime_image_status x image_ref h).1
  unfolding runtime_image_status
  status-SameBooks h = ground arith

  module _ (backend : Backend W) where
    retire-SameBooks :
        (b : Bool) (h : Host W) → SameBooks h (retire_unless x backend b image_ref h).1
    retire-SameBooks true h = elim (Result-cases (runtime_image_status x image_ref h).0) [
      | inl (status, done) ↦ rw done (status-SameBooks h)
      | inr (e, raised) ↦ rw raised (status-SameBooks h)
    ]
    retire-SameBooks false h =
        elim (Result-cases
          (Sweep.retire_runtime backend (x.runtime_id_for_image image_ref) h.service.pool).0) [
            | inr (e, raised) ↦ rw raised (refl, refl)
            | inl (ids, done) ↦
                let h' = record h {
                  service = record h.service {
                    pool =
                        (Sweep.retire_runtime backend (x.runtime_id_for_image image_ref)
                          h.service.pool).1;
                  };
                } in
                rw done (elim (Result-cases (runtime_image_status x image_ref h').0) [
                  | inl (status, done') ↦ rw done' (status-SameBooks h')
                  | inr (e, raised) ↦ rw raised (status-SameBooks h')
                ])
          ]

    pub begin-writes :
        (reason : String) (h : Host W)
        → let h' = (begin_runtime_retirement x backend image_ref reason h).1 in
          (h'.lifecycle
            ≡ (begin_retirement x.runtime_id_for_image x.db_now image_ref reason h.lifecycle).1)
          × (h'.acquiring ≡ h.acquiring)
    unfolding begin_runtime_retirement
    begin-writes reason h =
        let b = begin_retirement x.runtime_id_for_image x.db_now image_ref reason h.lifecycle in
        elim (Result-cases b.0) [
          | inr (e, raised) ↦ rw raised (refl, refl)
          | inl (row, done) ↦
              rw done (retire-SameBooks (is_retired row.state) (record h { lifecycle = b.1 }))
        ]

  pub cancel-writes :
      (h : Host W)
      → let h' = (cancel_runtime_retirement x image_ref h).1 in
        ((h' ≡ h) ⊎ (h' ≡ record h { lifecycle = (cancel_retirement image_ref h.lifecycle).1 }))
  unfolding cancel_runtime_retirement
  cancel-writes h = elim (Result-cases (check_reactivable x (get_by_image image_ref h.lifecycle))) [
    | inr (e, raised) ↦ inl (rw raised refl)
    | inl (u, done) ↦ inr (rw done refl)
  ]

  -- What the answer that deletion is safe rests on.
  pub record IsDrained (h : Host W) (managed : List String) : Type 0 where
    pub is_retiring_now :
        is_retiring (state_of (get_by_runtime_id (x.runtime_id_for_image image_ref) h.lifecycle))
        ≡ true
    pub none_active : is_empty (active_of x (x.runtime_id_for_image image_ref) h) ≡ true
    pub none_idle : is_empty (idle_of x (x.runtime_id_for_image image_ref) h) ≡ true
    pub none_acquiring : acquiring_of h.acquiring (x.runtime_id_for_image image_ref) ≡ 0
    pub none_managed : is_empty managed ≡ true

  safe-IsDrained :
      (h : Host W) (managed : List String)
      → (status_of x image_ref managed h).safe_for_artifact_deletion ≡ true
      → IsDrained h managed
  safe-IsDrained h managed safe = record {
    is_retiring_now = ground (arith, safe);
    none_active = ground (arith, safe);
    none_idle = ground (arith, safe);
    none_acquiring = ground (arith, safe);
    none_managed = ground (arith, safe);
  }

  abbrev pub listed : Host W → Result (List String) × W
  listed h = x.list_managed (x.runtime_id_for_image image_ref) h.service.pool.world

  -- The world after the backend listed its sandboxes.
  abbrev pub seen : Host W → Host W
  seen h = record h {
    service = record h.service { pool = record h.service.pool { world = (listed h).1 } };
  }

  abbrev pub Refused : Host W → Type 0
  Refused h = (e : Exn) × (finalize_runtime_retirement x image_ref h ≡ (err e, seen h))

  abbrev pub Done : Host W → Type 0
  Done h =
      let written = finalize_retirement x.db_now image_ref (seen h).lifecycle in
      (managed : List String) × ((listed h).0 ≡ ok managed)
      × IsDrained (seen h) managed
      × (finalize_runtime_retirement x image_ref h ≡ (
        finalized_status x (status_of x image_ref managed (seen h))
            (get_by_image image_ref written.1),
        record (seen h) { lifecycle = written.1 },
      ))

  -- finalize_runtime_retirement refuses, or everything is drained and the rows of the image are written.
  pub finalize-cases : (h : Host W) → Refused h ⊎ Done h
  unfolding finalize_runtime_retirement runtime_image_status finalize_retirement
  finalize-cases h = elim (Result-cases (listed h).0) [
    | inr (e, raised) ↦ inl (e, rw raised refl)
    | inl (managed, given) ↦
        elim (Bool-cases (status_of x image_ref managed (seen h)).safe_for_artifact_deletion) [
          | inr unsafe ↦ inl (not_drained, rw (given, unsafe) refl)
          | inl safe ↦
              inr (managed, given, safe-IsDrained (seen h) managed safe, rw (given, safe) refl)
        ]
  ]
