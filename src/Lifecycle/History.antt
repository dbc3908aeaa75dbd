-- ===== src/Lifecycle/History.antt =====
-- Acquisitions, retirements and the service's own calls in any order. An acquisition is two steps, so
-- that a retirement may begin between them.
use runner_engine.Prelude.{
  ◌<◌, ◌≡◌, sym, ap, ◌∙◌, String, string_eq, List, ◌∷◌, All, count, erase, Bool-cases, inl, inr,
}
use runner_engine.Errors.{ok}
use runner_engine.Backend.{Backend}
use runner_engine.Service.{Service}
use runner_engine.Lifecycle.{is_blocked_runtime}
use runner_engine.Lifecycle.Gate.{Host, enter, leave}
use runner_engine.Lifecycle.Controller.{
  Surroundings, begin_runtime_retirement, cancel_runtime_retirement, finalize_runtime_retirement,
}
use runner_engine.Lifecycle.Writes.{begin-writes, cancel-writes, finalize-cases}
use runner_engine.Lifecycle.Counting.{
  Counts, acquiring_of-count, count_acquisition-Counts, uncount_acquisition-Counts,
}
use runner_engine.Lifecycle.Guarded.{
  IsGuarded, begin_retirement-IsGuarded, cancel_retirement-IsGuarded, finalize_retirement-IsGuarded,
  entered-IsGuarded, left-IsGuarded,
}

-- The host with the runtimes of the acquisitions that passed the gate and are not over.
pub record Busy (W : Type 0) : Type 0 where
  pub host : Host W
  pub pending : List String

module _ {W : Type 0} (backend : Backend W) (hash : String → String) where
  pub data Step (s : Busy W) : Busy W → Type 0 where
    enters :
        (runtime_id : String)
        → (enter runtime_id s.host).0 ≡ ok tt
        → Step s (record { host = (enter runtime_id s.host).1; pending = runtime_id ∷ s.pending })
    leaves :
        (runtime_id : String)
        → 0 < count runtime_id s.pending
        → Step s
            (record { host = (leave runtime_id s.host).1; pending = erase runtime_id s.pending })
    -- A call of the service or of the pool.
    works : (service : Service W) → Step s (record s { host = record s.host { service = service } })
    begins :
        (x : Surroundings W) (image_ref reason : String)
        → x.runtime_id_for_image ≡ hash
        → Step s
            (record s { host = (begin_runtime_retirement x backend image_ref reason s.host).1 })
    cancels :
        (x : Surroundings W) (image_ref : String)
        → Step s (record s { host = (cancel_runtime_retirement x image_ref s.host).1 })
    finalizes :
        (x : Surroundings W) (image_ref : String)
        → x.runtime_id_for_image ≡ hash
        → Step s (record s { host = (finalize_runtime_retirement x image_ref s.host).1 })

  pub data Reach (s : Busy W) : Busy W → Type 0 where
    here : Reach s s
    next : {t u : Busy W} → Reach s t → Step t u → Reach s u

  -- The counters tell the acquisitions under way, and none is of a RETIRED runtime.
  pub record IsConsistent (s : Busy W) : Type 0 where
    pub counts : Counts s.host.acquiring s.pending
    pub guarded : All (IsGuarded hash s.pending) s.host.lifecycle

  begun-IsConsistent :
      (x : Surroundings W) (image_ref reason : String) (s : Busy W)
      → x.runtime_id_for_image ≡ hash
      → IsConsistent s
      → IsConsistent
          (record s { host = (begin_runtime_retirement x backend image_ref reason s.host).1 })
  begun-IsConsistent x image_ref reason s same v =
      let w = begin-writes x image_ref backend reason s.host in
      record {
        counts = rw w.1 v.counts;
        guarded =
            rw (w.0, same)
              (begin_retirement-IsGuarded hash s.pending x.db_now image_ref reason s.host.lifecycle
                v.guarded);
      }

  cancelled-IsConsistent :
      (x : Surroundings W) (image_ref : String) (s : Busy W)
      → IsConsistent s
      → IsConsistent (record s { host = (cancel_runtime_retirement x image_ref s.host).1 })
  cancelled-IsConsistent x image_ref s v = elim (cancel-writes x image_ref s.host) [
    | inl nothing ↦ rw nothing v
    | inr rows ↦ rw rows (record {
      counts = v.counts;
      guarded = cancel_retirement-IsGuarded hash s.pending image_ref s.host.lifecycle v.guarded;
    })
  ]

  finalized-IsConsistent :
      (x : Surroundings W) (image_ref : String) (s : Busy W)
      → x.runtime_id_for_image ≡ hash
      → IsConsistent s
      → IsConsistent (record s { host = (finalize_runtime_retirement x image_ref s.host).1 })
  finalized-IsConsistent x image_ref s same v = elim (finalize-cases x image_ref s.host) [
    | inl (e, f) ↦ rw (ap (λ y. y.1) f) (record { counts = v.counts; guarded = v.guarded })
    | inr (managed, given, drained, f) ↦
        let none_pending : count (hash image_ref) s.pending ≡ 0 =
          sym (acquiring_of-count s.host.acquiring s.pending v.counts (hash image_ref))
          ∙ rw same at drained.none_acquiring in
        rw (ap (λ y. y.1) f) (record {
          counts = v.counts;
          guarded =
              finalize_retirement-IsGuarded hash s.pending x.db_now image_ref s.host.lifecycle
                none_pending v.guarded;
        })
  ]

  entered-IsConsistent :
      (runtime_id : String) (s : Busy W)
      → (enter runtime_id s.host).0 ≡ ok tt
      → IsConsistent s
      → IsConsistent
          (record { host = (enter runtime_id s.host).1; pending = runtime_id ∷ s.pending })
  unfolding enter
  entered-IsConsistent runtime_id s passed v =
      elim (Bool-cases (is_blocked_runtime runtime_id s.host.lifecycle)) [
        | inl blocked ↦ cc (rw blocked at passed)
        | inr free ↦ rw free (record {
          counts = count_acquisition-Counts s.host.acquiring s.pending v.counts runtime_id;
          guarded = entered-IsGuarded hash s.pending runtime_id s.host.lifecycle free v.guarded;
        })
      ]

  Step-IsConsistent : {s t : Busy W} → Step s t → IsConsistent s → IsConsistent t
  unfolding leave
  Step-IsConsistent {s} (enters runtime_id passed) v = entered-IsConsistent runtime_id s passed v
  Step-IsConsistent {s} (leaves runtime_id under_way) v = record {
    counts = uncount_acquisition-Counts s.host.acquiring s.pending v.counts runtime_id;
    guarded = left-IsGuarded hash s.pending runtime_id s.host.lifecycle v.guarded;
  }
  Step-IsConsistent (works service) v = record { counts = v.counts; guarded = v.guarded }
  Step-IsConsistent {s} (begins x image_ref reason same) v =
      begun-IsConsistent x image_ref reason s same v
  Step-IsConsistent {s} (cancels x image_ref) v = cancelled-IsConsistent x image_ref s v
  Step-IsConsistent {s} (finalizes x image_ref same) v = finalized-IsConsistent x image_ref s same v

  -- If the counters of the gate tell the acquisitions under way, every retirement row is named by
  -- the hash of its image, and no acquisition of a RETIRED runtime is under way, this stays so
  -- after any sequence of acquisitions that pass the gate, acquisitions that end, other calls of
  -- the service, and begin, cancel and finalize of a retirement.
  pub Reach-IsConsistent : {s t : Busy W} → IsConsistent s → Reach s t → IsConsistent t
  Reach-IsConsistent v here = v
  Reach-IsConsistent v (next r step) = Step-IsConsistent step (Reach-IsConsistent v r)
