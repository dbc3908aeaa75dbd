-- ===== src/Service/Granting.antt =====
-- The leases that the service grants.
use runner_engine.Prelude.{
  ◌+◌, ◌<◌, ◌≡◌, sym, ◌∙◌, ap, String, string_eq, true, false, none, some, leb, arith, Bool-cases,
  inl, inr,
}
use runner_engine.Errors.{Result, Result-cases, ok}
use runner_engine.Dict.{get}
use runner_engine.Model.{Lease, OperatorRelease}
use runner_engine.State.{Clocks}
use runner_engine.State.Leases.{create_lease, require_lease, milliseconds}
use runner_engine.State.LeaseLaws.{lease_row, require-create_lease}
use runner_engine.Backend.{Backend}
use runner_engine.Service.{Service, acquire_lease, is_known}

module _ {W : Type 0} (backend : Backend W) (catalog : String → Result OperatorRelease)
    (c c' : Clocks) (id tenant_id project_id processor_id release_id : String) (s : Service W)
    (unused : lease_row id s.db ≡ none) where
  abbrev granted : Result Lease × Service W
  granted = acquire_lease backend catalog c id tenant_id project_id processor_id release_id s

  usable :
      c'.now < c.now + milliseconds s.lease_ttl_ms
      → let db' =
          (create_lease c id tenant_id project_id processor_id release_id s.lease_ttl_ms s.db).1 in
        (require_lease c' id tenant_id (some release_id) db').0
        ≡ (create_lease c id tenant_id project_id processor_id release_id s.lease_ttl_ms s.db).0
  usable early =
      let t =
        require-create_lease c c' id tenant_id project_id processor_id release_id s.lease_ttl_ms
          s.db unused in
      let open_ : leb (c.now + milliseconds s.lease_ttl_ms) c'.now ≡ false =
        ground (arith, early) in
      ap (λ x. x.0) (t.1) ∙ rw open_ (sym t.0)

  -- If acquire_lease returns a lease under an identifier that no lease had, the catalog knows the
  -- release, its profile has a policy, and require_lease gives the tenant that lease for that
  -- release at any moment before the time to live is over.
  pub require-acquire_lease :
      (l : Lease)
      → granted.0 ≡ ok l
      → c'.now < c.now + milliseconds s.lease_ttl_ms
      → (release : OperatorRelease) × (catalog release_id ≡ ok release)
        × (is_known (get release.profile s.policies) ≡ true)
        × ((require_lease c' id tenant_id (some release_id) granted.1.db).0 ≡ ok l)
  unfolding acquire_lease
  require-acquire_lease l h early = elim (Result-cases (catalog release_id)) [
    | inr (e, missing) ↦ cc (rw missing at h)
    | inl (release, there) ↦ elim (Bool-cases (is_known (get release.profile s.policies))) [
      | inr unknown ↦ cc (rw (there, unknown) at h)
      | inl known ↦
          (release, there, known, rw (there, known) (usable early ∙ rw (there, known) at h))
    ]
  ]
