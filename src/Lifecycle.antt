-- ===== src/Lifecycle.antt =====
-- runner_engine/lifecycle_store.py, `RuntimeLifecycleStore`: the retirement of runtime images, one row
-- for each runtime that is no longer active. The hash that names a runtime by its image is an argument.
pub mod Gate
pub mod Controller
pub mod Front
pub mod Counting
pub mod Guarded
pub mod History
pub mod Writes
pub mod Retiring
pub mod Draining
pub mod Tests
use runner_engine.Prelude.{
  ℕ, String, string_eq, Bool, true, false, not, ◌&&◌, Option, none, some, List, [], ◌∷◌, ◌++◌,
  if◌then◌else◌, ◌==◌, first_chars,
}
use runner_engine.Errors.{ok, err, exception}
use runner_engine.Exec.{Exec, pure}
use runner_engine.Table.{find_where, update_where, delete_where, exists_where}

pub data LifecycleState : Type 0 where
  retiring : LifecycleState
  retired : LifecycleState

abbrev pub is_retired : LifecycleState → Bool
is_retired retiring = false
is_retired retired = true

pub record LifecycleRow : Type 0 where
  pub runtime_id : String
  pub image_ref : String
  pub state : LifecycleState
  pub reason : String
  pub cleanup_error : Option String
  pub updated_at : ℕ
  pub retired_at : Option ℕ

abbrev pub has_runtime : String → LifecycleRow → Bool
has_runtime runtime_id row = row.runtime_id == runtime_id

abbrev pub has_image : String → LifecycleRow → Bool
has_image image_ref row = row.image_ref == image_ref

abbrev pub get_by_runtime_id : String → List LifecycleRow → Option LifecycleRow
get_by_runtime_id runtime_id rows = find_where (has_runtime runtime_id) rows

abbrev pub get_by_image : String → List LifecycleRow → Option LifecycleRow
get_by_image image_ref rows = find_where (has_image image_ref) rows

abbrev pub is_blocked_runtime : String → List LifecycleRow → Bool
is_blocked_runtime runtime_id rows = exists_where (has_runtime runtime_id) rows

abbrev new_row : String → String → String → ℕ → LifecycleRow
new_row runtime_id image_ref reason db_now = record {
  runtime_id = runtime_id;
  image_ref = image_ref;
  state = retiring;
  reason = reason;
  cleanup_error = none;
  updated_at = db_now;
  retired_at = none;
}

-- DO UPDATE SET …: a RETIRED row stays RETIRED.
abbrev pub begun_again : String → String → ℕ → LifecycleRow → LifecycleRow
begun_again image_ref reason db_now row = record row {
  image_ref = image_ref;
  reason = reason;
  state = if is_retired row.state then retired else retiring;
  cleanup_error = none;
  updated_at = db_now;
}

-- INSERT … ON CONFLICT (runtime_id) DO UPDATE … RETURNING *, for the row that is there.
abbrev pub upsert :
    String
    → String
    → String
    → ℕ
    → Option LifecycleRow
    → List LifecycleRow
    → LifecycleRow × List LifecycleRow
upsert runtime_id image_ref reason db_now none rows =
    let row = new_row runtime_id image_ref reason db_now in (row, rows ++ row ∷ [])
upsert runtime_id image_ref reason db_now (some row) rows = (
  begun_again image_ref reason db_now row,
  update_where (has_runtime runtime_id) (begun_again image_ref reason db_now) rows,
)

module _ (runtime_id_for_image : String → String) (db_now : ℕ) where
  -- image_ref is UNIQUE too.
  unfoldable pub begin_retirement : String → String → Exec (List LifecycleRow) LifecycleRow
  begin_retirement image_ref reason rows =
      let runtime_id = runtime_id_for_image image_ref in
      if exists_where (λ row. has_image image_ref row && not (has_runtime runtime_id row)) rows
      then (err (exception "UniqueViolation"), rows)
      else (let (row, written) =
            upsert runtime_id image_ref (first_chars 1000 reason) db_now
              (get_by_runtime_id runtime_id rows) rows in
          (ok row, written))

abbrev pub is_cancellable : String → LifecycleRow → Bool
is_cancellable image_ref row = has_image image_ref row && not (is_retired row.state)

unfoldable pub cancel_retirement : String → Exec (List LifecycleRow) Bool
cancel_retirement image_ref rows = (
  ok (exists_where (is_cancellable image_ref) rows),
  delete_where (is_cancellable image_ref) rows,
)

abbrev or_now : Option ℕ → ℕ → Option ℕ
or_now none db_now = some db_now
or_now (some t) db_now = some t

abbrev pub finalized : ℕ → LifecycleRow → LifecycleRow
finalized db_now row = record row {
  state = retired;
  retired_at = or_now row.retired_at db_now;
  cleanup_error = none;
  updated_at = db_now;
}

-- The row that is written, if there is one.
unfoldable pub finalize_retirement : ℕ → String → Exec (List LifecycleRow) (Option LifecycleRow)
finalize_retirement db_now image_ref rows =
    let written = update_where (has_image image_ref) (finalized db_now) rows in
    (ok (get_by_image image_ref written), written)
