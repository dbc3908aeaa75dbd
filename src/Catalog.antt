-- ===== src/Catalog.antt =====
-- runner_engine/catalog.py, `Catalog`: the releases on disk, a directory for each. A manifest is the
-- JSON object of release.json, which is read as it was written.
pub mod Immutable
pub mod Tests
use runner_engine.Prelude.{
  ℕ, String, string_eq, Bool, true, false, not, Option, none, some, List, [], if◌then◌else◌, ◌==◌,
}
use Prim.Native.String.{◌++◌}
use runner_engine.Errors.{Result, ok, err, failure}
use runner_engine.Exec.{Exec}
use runner_engine.Dict.{Dict, get, put}
use runner_engine.Model.{RuntimeEnv, OperatorRelease}
use runner_engine.State.Results.{get_or}

pub record Manifest : Type 0 where
  pub id : String
  pub artifact_sha256 : String
  pub runtime_id : String
  pub runtime_image : String
  pub runtime_python : Option String
  pub entrypoint : String
  pub profile : Option String
  pub input_attributes : Option (List String)
  pub output_attributes : Option (List String)

-- release.json and operator.tar.gz of a directory, where they exist.
pub record ReleaseDir : Type 0 where
  pub metadata : Option Manifest
  pub artifact : Option (List ℕ)

pub record Catalog : Type 0 where
  pub root : String
  pub dirs : Dict String ReleaseDir

abbrev pub artifact_path : String → String → String
artifact_path root id = root ++ ("/" ++ (id ++ "/operator.tar.gz"))

abbrev pub release_of : String → String → Manifest → OperatorRelease
release_of root id raw = record {
  id = raw.id;
  artifact_path = artifact_path root id;
  artifact_sha256 = raw.artifact_sha256;
  runtime = record {
    id = raw.runtime_id;
    image = raw.runtime_image;
    python = get_or raw.runtime_python "3.12";
  };
  entrypoint = raw.entrypoint;
  profile = get_or raw.profile "standard";
  input_attributes = get_or raw.input_attributes [];
  output_attributes = get_or raw.output_attributes [];
}

abbrev pub read_dir : String → String → Option ReleaseDir → Result OperatorRelease
read_dir root id none = err (failure "RELEASE_NOT_FOUND" ("unknown release " ++ id) false)
read_dir root id (some d) = elim d.metadata [
  | none ↦ err (failure "RELEASE_NOT_FOUND" ("unknown release " ++ id) false)
  | some raw ↦ elim d.artifact [
    | none ↦ err (failure "ARTIFACT_NOT_FOUND" ("artifact missing for " ++ id) false)
    | some bytes ↦ ok (release_of root id raw)
  ]
]

-- Catalog.get
unfoldable pub get_release : String → Catalog → Result OperatorRelease
get_release id c = read_dir c.root id (get id c.dirs)

abbrev pub same_bits : Manifest → Result OperatorRelease → Result OperatorRelease
same_bits manifest (err e) = err e
same_bits manifest (ok existing) =
    if not (existing.artifact_sha256 == manifest.artifact_sha256)
    then err (
        failure "CATALOG_CONFLICT"
          ("release " ++ (manifest.id ++ " already exists with different bits")) false)
    else ok existing

abbrev pub written : Manifest → List ℕ → Catalog → Catalog
written manifest artifact c = record c {
  dirs = put manifest.id (record { metadata = some manifest; artifact = some artifact }) c.dirs;
}

abbrev pub save_at : Option ReleaseDir → Manifest → List ℕ → Exec Catalog OperatorRelease
save_at (some d) manifest artifact c = (same_bits manifest (get_release manifest.id c), c)
save_at none manifest artifact c =
    (get_release manifest.id (written manifest artifact c), written manifest artifact c)

-- Catalog.save
unfoldable pub save : Manifest → List ℕ → Exec Catalog OperatorRelease
save manifest artifact c = save_at (get manifest.id c.dirs) manifest artifact c
