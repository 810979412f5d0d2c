-- ===== src/PlatformDeployments/Rows.antt =====
-- The rows of src/db/schema/platformDeployments.ts with their unique index, and the helpers of
-- src/services/operations/platformDeploymentService.ts.
use qubit_hosting_panel.Common.{
  ◌≡◌, arith, ℕ, ◌-◌, Bool, not, ◌&&◌, Option, none, some, List, [], ◌==◌, any, length, drop,
  or_else, if◌then◌else◌,
}
use qubit_hosting_panel.Common.Text.{Text, text_eq, trim, is_empty}
use qubit_hosting_panel.Common.Table.{update_where}
use qubit_hosting_panel.PlatformDeployments.Status.{PlatformStatus, is_active}

pub record PlatformDeployment : Type 0 where
  pub id : ℕ
  pub target_application_uuid : Text
  pub provider_deployment_id : Option Text
  pub requested_by_user_id : ℕ
  pub status : PlatformStatus
  pub provider_status : Option Text
  pub commit_sha : Option Text
  pub commit_message : Option Text
  pub logs : Text
  pub failure_message : Option Text
  pub last_poll_error : Option Text
  pub started_at : Option ℕ
  pub completed_at : Option ℕ
  pub created_at : ℕ
  pub updated_at : ℕ
  pub deleted : Bool

-- `PlatformDeploymentView`
pub record PlatformDeploymentView : Type 0 where
  pub commit_message : Option Text
  pub commit_sha : Option Text
  pub completed_at : Option ℕ
  pub created_at : ℕ
  pub failure_message : Option Text
  pub id : ℕ
  pub last_poll_error : Option Text
  pub logs : Text
  pub provider_status : Option Text
  pub started_at : Option ℕ
  pub status : PlatformStatus
  pub updated_at : ℕ

unfoldable pub to_platform_deployment_view : PlatformDeployment → PlatformDeploymentView
to_platform_deployment_view d = record {
  commit_message = d.commit_message;
  commit_sha = d.commit_sha;
  completed_at = d.completed_at;
  created_at = d.created_at;
  failure_message = d.failure_message;
  id = d.id;
  last_poll_error = d.last_poll_error;
  logs = d.logs;
  provider_status = d.provider_status;
  started_at = d.started_at;
  status = d.status;
  updated_at = d.updated_at;
}

-- `targetApplicationUuid`: `none` is the error.
unfoldable pub target_application_uuid_of : Option Text → Option Text
target_application_uuid_of none = none
target_application_uuid_of (some value) = if is_empty (trim value) then none else some (trim value)

abbrev pub max_log_characters : ℕ
max_log_characters = 1000000

-- `boundedLogs`: the last units of what the sanitizer leaves.
unfoldable pub bounded_logs : (Text → Text) → Option Text → Text
bounded_logs sanitize value =
    let sanitized = sanitize (or_else value []) in
    drop (length sanitized - max_log_characters) sanitized

-- The live rows that the index on the target counts; the select before an insert reads them too.
abbrev pub holds_target : Text → PlatformDeployment → Bool
holds_target target d =
    text_eq d.target_application_uuid target && is_active d.status && not d.deleted

-- Whether a row other than `id` has the target.
abbrev pub blocked : ℕ → Text → List PlatformDeployment → Bool
blocked id target = any (λ e. not (e.id == id) && holds_target target e)

-- An update of one row: `none` where it makes the row active and the index has another.
unfoldable pub update_row :
    ℕ
    → (PlatformDeployment → PlatformDeployment)
    → Bool
    → List PlatformDeployment
    → Option (List PlatformDeployment)
update_row id f active rows =
    if active
      && any (λ e. e.id == id && not e.deleted && blocked id e.target_application_uuid rows) rows
    then none
    else some (update_where (λ e. e.id == id) f rows)

pub update_row-made :
    (i : ℕ) (f : PlatformDeployment → PlatformDeployment) (active : Bool)
    (rows rows' : List PlatformDeployment)
    → update_row i f active rows ≡ some rows'
    → update_where (λ e. e.id == i) f rows ≡ rows'
unfolding update_row
update_row-made i f active rows rows' e = ground arith
