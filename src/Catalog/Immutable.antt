-- ===== src/Catalog/Immutable.antt =====
-- Releases are immutable.
use runner_engine.Prelude.{
  ℕ, ◌≡◌, refl, sym, ◌∙◌, ap, String, string_eq, some, List, ◌==◌, Bool-cases, Option-cases, inl,
  inr, eq→≡, eq_self,
}
use runner_engine.Errors.{Result, Result-cases, ok, err}
use runner_engine.Dict.{get, get-put}
use runner_engine.Model.{OperatorRelease}
use runner_engine.Catalog.{Manifest, Catalog, get_release, save, release_of, written}

abbrev sha_or : Result OperatorRelease → String
sha_or (ok r) = r.artifact_sha256
sha_or (err e) = ""

module _ (manifest : Manifest) (artifact : List ℕ) (c : Catalog) where
  -- A release that the catalog knows reads the same after any save, of the same identifier or
  -- another, whether the save returns or raises.
  pub save_keeps :
      (id : String) (release : OperatorRelease)
      → get_release id c ≡ ok release
      → get_release id (save manifest artifact c).1 ≡ ok release
  unfolding save get_release
  save_keeps id release h = elim (Option-cases (get manifest.id c.dirs)) [
    | inr (d, there) ↦ rw there h
    | inl missing ↦ elim (Bool-cases (manifest.id == id)) [
      | inl same ↦
          let e : manifest.id ≡ id = eq→≡ manifest.id id same in
          cc (rw (sym (ap (λ i. get i c.dirs) e) ∙ missing) at h)
      | inr other ↦
          let kept =
            get-put manifest.id id (record { metadata = some manifest; artifact = some artifact })
              c.dirs in
          rw (missing, kept, other) h
    ]
  ]

  fresh_release :
      get_release manifest.id (written manifest artifact c)
      ≡ ok (release_of c.root manifest.id manifest)
  unfolding get_release
  fresh_release =
      let kept =
        get-put manifest.id manifest.id
          (record { metadata = some manifest; artifact = some artifact }) c.dirs in
      rw (kept, eq_self manifest.id) refl

  -- A save that returns a release returns what the catalog then reads under the manifest's
  -- identifier, and this release has the digest of the manifest.
  pub get-save :
      (release : OperatorRelease)
      → (save manifest artifact c).0 ≡ ok release
      → (get_release manifest.id (save manifest artifact c).1 ≡ ok release)
        × (release.artifact_sha256 ≡ manifest.artifact_sha256)
  unfolding save
  get-save release h = elim (Option-cases (get manifest.id c.dirs)) [
    | inr (d, there) ↦ elim (Result-cases (get_release manifest.id c)) [
      | inr (e, bad) ↦ cc (rw (there, bad) at h)
      | inl (x, good) ↦ elim (Bool-cases (x.artifact_sha256 == manifest.artifact_sha256)) [
        | inr differ ↦ cc (rw (there, good, differ) at h)
        | inl match ↦
            let same : ok x ≡ ok release = rw (there, good, match) at h in
            (
              rw there (good ∙ same),
              ap sha_or (sym same) ∙ eq→≡ x.artifact_sha256 manifest.artifact_sha256 match,
            )
      ]
    ]
    | inl missing ↦
        let read : get_release manifest.id (written manifest artifact c) ≡ ok release =
          rw missing at h in
        (rw missing read, ap sha_or (sym read) ∙ ap sha_or fresh_release)
  ]
