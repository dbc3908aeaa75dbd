-- ===== src/Catalog/Tests.antt =====
-- A release that is saved, and saved again.
use runner_engine.Prelude.{◌≡◌, refl, String, string_eq, none, [], ◌∷◌}
use runner_engine.Errors.{ok}
use runner_engine.Dict.{get, put}
use runner_engine.Model.{OperatorRelease}
use runner_engine.Catalog.{Manifest, Catalog, get_release, save, release_of}
use runner_engine.Catalog.Immutable.{save_keeps, get-save}

abbrev manifest : String → Manifest
manifest sha = record {
  id = "op@1";
  artifact_sha256 = sha;
  runtime_id = "py311";
  runtime_image = "img";
  runtime_python = none;
  entrypoint = "op:run";
  profile = none;
  input_attributes = none;
  output_attributes = none;
}

abbrev empty : Catalog
empty = record { root = "/catalog"; dirs = [] }

abbrev saved : Catalog
saved = (save (manifest "00") (1 ∷ 2 ∷ []) empty).1

abbrev first : OperatorRelease
first = release_of "/catalog" "op@1" (manifest "00")

get-save_example :
    (get_release "op@1" saved ≡ ok first)
    × (first.artifact_sha256 ≡ (manifest "00").artifact_sha256)
unfolding save get_release get put
get-save_example = get-save (manifest "00") (1 ∷ 2 ∷ []) empty first refl

save_keeps_example : get_release "op@1" (save (manifest "ff") (3 ∷ []) saved).1 ≡ ok first
unfolding save get_release get put
save_keeps_example = save_keeps (manifest "ff") (3 ∷ []) saved "op@1" first refl
