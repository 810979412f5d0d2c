-- ===== src/Transfers/Model.antt =====
-- src/db/schema/databaseTransfers.ts: the rows of the transfer jobs.
use qubit_hosting_panel.Common.{
  ℕ, Bool, true, false, not, ◌&&◌, ◌||◌, Option, none, some, List, [], ◌∷◌, ◌++◌, ◌==◌, leb, any,
  if◌then◌else◌,
}
use qubit_hosting_panel.Common.Text.{Text}
use qubit_hosting_panel.Common.Table.{find, update_where}

pub data Direction : Type 0 where
  import_direction export_direction : Direction

pub data Format : Type 0 where
  csv json native : Format

pub data Scope : Type 0 where
  database_scope table_scope : Scope

pub data TransferStatus : Type 0 where
  queued running cancel_requested cancelled completed failed : TransferStatus

pub record TransferJob : Type 0 where
  pub id : ℕ
  pub workspace_id : ℕ
  pub logical_database_id : ℕ
  pub requested_by_user_id : ℕ
  pub direction : Direction
  pub format : Format
  pub scope : Scope
  pub status : TransferStatus
  pub schema_name : Option Text
  pub table_name : Option Text
  pub source_ciphertext : Option Text
  pub output_storage_key : Option Text
  pub progress_percent : ℕ
  pub processed_rows : ℕ
  pub total_rows : Option ℕ
  pub attempt_count : ℕ
  pub maximum_attempts : ℕ
  pub pre_import_backup_id : Option ℕ
  pub failure_reason : Option Text
  pub started_at : Option ℕ
  pub completed_at : Option ℕ
  pub expires_at : Option ℕ
  pub created_at : ℕ
  pub deleted : Bool

abbrev pub is_queued : TransferStatus → Bool
is_queued TransferStatus.queued = true
is_queued _ = false

abbrev pub is_cancel_requested : TransferStatus → Bool
is_cancel_requested TransferStatus.cancel_requested = true
is_cancel_requested _ = false

abbrev pub is_completed : TransferStatus → Bool
is_completed TransferStatus.completed = true
is_completed _ = false

-- What may be cancelled, and what may be tried again.
abbrev pub is_cancellable : TransferStatus → Bool
is_cancellable TransferStatus.queued = true
is_cancellable TransferStatus.running = true
is_cancellable _ = false

abbrev pub is_retryable : TransferStatus → Bool
is_retryable TransferStatus.failed = true
is_retryable TransferStatus.cancelled = true
is_retryable _ = false

-- The statuses of the unique index on the database.
abbrev pub is_active : TransferStatus → Bool
is_active TransferStatus.queued = true
is_active TransferStatus.running = true
is_active TransferStatus.cancel_requested = true
is_active _ = false

abbrev pub holds_database : ℕ → TransferJob → Bool
holds_database database j = j.logical_database_id == database && is_active j.status && not j.deleted

abbrev pub has_id : ℕ → TransferJob → Bool
has_id id j = j.id == id

-- The insert of enqueueDatabaseImport and enqueueDatabaseExport, which meets the primary key and the
-- unique index; `none` is a thrown error.
unfoldable pub insert_job : TransferJob → List TransferJob → Option (List TransferJob)
insert_job j rows =
    if any (has_id j.id) rows || any (holds_database j.logical_database_id) rows
    then none
    else some (rows ++ j ∷ [])

-- What a user asks for, with the values that the server adds.
pub record TransferRequest : Type 0 where
  pub id : ℕ
  pub workspace_id : ℕ
  pub database_id : ℕ
  pub actor_user_id : ℕ
  pub format : Format
  pub scope : Scope
  pub schema_name : Option Text
  pub table_name : Option Text
  pub source : Text
  pub now : ℕ

abbrev pub new_job : Direction → Scope → Option Text → TransferRequest → TransferJob
new_job direction scope source r = record {
  id = r.id;
  workspace_id = r.workspace_id;
  logical_database_id = r.database_id;
  requested_by_user_id = r.actor_user_id;
  direction = direction;
  format = r.format;
  scope = scope;
  status = TransferStatus.queued;
  schema_name = r.schema_name;
  table_name = r.table_name;
  source_ciphertext = source;
  output_storage_key = none;
  progress_percent = 0;
  processed_rows = 0;
  total_rows = none;
  attempt_count = 0;
  maximum_attempts = 3;
  pre_import_backup_id = none;
  failure_reason = none;
  started_at = none;
  completed_at = none;
  expires_at = none;
  created_at = r.now;
  deleted = false;
}

abbrev pub is_tabular : Format → Bool
is_tabular Format.native = false
is_tabular _ = true

-- A text that is there and not empty.
abbrev pub is_given : Option Text → Bool
is_given (some (c ∷ s)) = true
is_given _ = false

-- `enqueueDatabaseImport`, for the format of the upload that was inspected; `none` is a thrown error.
unfoldable pub enqueue_database_import :
    (Text → Text) → TransferRequest → List TransferJob → Option (List TransferJob)
enqueue_database_import encrypt r rows =
    let tabular = is_tabular r.format in
    if tabular && (not (is_given r.schema_name) || not (is_given r.table_name))
    then none
    else (if not tabular && (is_given r.schema_name || is_given r.table_name)
        then none
        else insert_job
            (new_job Direction.import_direction
              (if tabular then Scope.table_scope else Scope.database_scope)
              (some (encrypt r.source)) r)
            rows)

-- `enqueueDatabaseExport`
unfoldable pub enqueue_database_export :
    TransferRequest → List TransferJob → Option (List TransferJob)
enqueue_database_export r rows = insert_job (new_job Direction.export_direction r.scope none r) rows

-- `requestTransferAction`: the request names the job, its workspace, its database and its user.
pub record ActionRequest : Type 0 where
  pub job_id : ℕ
  pub workspace_id : ℕ
  pub database_id : ℕ
  pub actor_user_id : ℕ

abbrev pub is_own_job : ActionRequest → TransferJob → Bool
is_own_job a j =
    j.id == a.job_id
    && j.workspace_id == a.workspace_id
    && j.logical_database_id == a.database_id
    && j.requested_by_user_id == a.actor_user_id

unfoldable pub set_cancel_requested : TransferJob → TransferJob
set_cancel_requested j = record j { status = TransferStatus.cancel_requested }

abbrev pub is_own_cancellable : ActionRequest → TransferJob → Bool
is_own_cancellable a j = is_own_job a j && is_cancellable j.status

unfoldable pub cancel_transfer : ActionRequest → List TransferJob → List TransferJob
cancel_transfer a rows = update_where (is_own_cancellable a) set_cancel_requested rows

abbrev pub is_import : Direction → Bool
is_import Direction.import_direction = true
is_import Direction.export_direction = false

unfoldable pub set_queued : TransferJob → TransferJob
set_queued j = record j {
  status = TransferStatus.queued;
  progress_percent = 0;
  processed_rows = 0;
  total_rows = none;
  failure_reason = none;
  started_at = none;
  completed_at = none;
}

-- The update by the id, which meets the unique index.
unfoldable pub requeue : TransferJob → List TransferJob → List TransferJob
requeue j rows =
    if any (λ k. holds_database j.logical_database_id k && not (k.id == j.id)) rows
    then rows
    else update_where (has_id j.id) set_queued rows

unfoldable pub retry_found : Option TransferJob → List TransferJob → List TransferJob
retry_found none rows = rows
retry_found (some j) rows =
    if leb j.maximum_attempts j.attempt_count
      || (is_import j.direction && not (is_given j.source_ciphertext))
    then rows
    else requeue j rows

unfoldable pub retry_transfer : ActionRequest → List TransferJob → List TransferJob
retry_transfer a rows =
    retry_found (find (λ j. is_own_job a j && is_retryable j.status && not j.deleted) rows) rows
