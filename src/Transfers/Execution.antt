-- ===== src/Transfers/Execution.antt =====
-- src/services/databases/databaseTransferJobService.ts, executeJob: what happens to a job that runs.
-- The database engines and the storage of artifacts answer by the replies that are given.
use qubit_hosting_panel.Common.{
  ◌++◌, ℕ, ◌+◌, ◌*◌, ◌/◌, Bool, true, false, ◌&&◌, Option, none, some, List, [], ◌∷◌, ◌==◌, min,
  max, if◌then◌else◌,
}
use qubit_hosting_panel.Common.Text.{Text, codes}
use qubit_hosting_panel.Common.Table.{find, update_where}
use qubit_hosting_panel.Provisioning.Pass.Actions.{Reply, Thrown, an_error, ok, threw}
use qubit_hosting_panel.Transfers.Model.{
  Scope, TransferStatus, TransferJob, is_cancel_requested, has_id, is_given, is_tabular, is_import,
}

-- What is asked of the engines.
pub data Call : Type 0 where
  backup_call import_call export_call store_call : Call

-- How the world answers one execution.
pub record Answers : Type 0 where
  -- `connectionFor`
  pub connection : Reply (Unit {0})
  -- `createBackup`, with the id of the backup, if it has one
  pub backup : Reply (Option ℕ)
  pub source : Reply (Unit {0})
  -- the rows that the hook reports, and the rows of the result
  pub progress : List (ℕ × ℕ)
  pub imported : Reply (Option ℕ)
  pub exported : Reply ℕ
  pub storage_key : Text
  pub stored : Reply (Unit {0})
  -- `recordAuditLog`
  pub audited : Reply (Unit {0})
  pub expires_at : ℕ
  pub now : ℕ

-- The outcome with the calls that were made, and the rows.
pub record Executed : Type 0 where
  pub outcome : Reply (Unit {0})
  pub calls : List Call
  pub rows : List TransferJob

-- A call is recorded where it is made.
abbrev pub asked : Call → List Call → List Call
asked c calls = calls ++ c ∷ []

abbrev pub stop : Text → List Call → List TransferJob → Executed
stop why calls rows = record { outcome = threw (an_error why); calls = calls; rows = rows }

abbrev pub stop_with : Thrown → List Call → List TransferJob → Executed
stop_with t calls rows = record { outcome = threw t; calls = calls; rows = rows }

abbrev pub finish : Answers → List Call → List TransferJob → Executed
finish a calls rows = record { outcome = a.audited; calls = calls; rows = rows }

abbrev pub set_progress : ℕ → TransferJob → TransferJob
set_progress n j = record j { progress_percent = n }

abbrev pub set_backup : ℕ → TransferJob → TransferJob
set_backup b j = record j { pre_import_backup_id = some b; progress_percent = 25 }

-- `Math.min(90, 30 + Math.round((processed / Math.max(1, total)) * 60))`
unfoldable pub progress_of : ℕ → ℕ → ℕ
progress_of processed total = let t = max 1 total in min 90 (30 + (120 * processed + t) / (2 * t))

abbrev pub set_reported : ℕ × ℕ → TransferJob → TransferJob
set_reported p j = record j {
  processed_rows = p.0;
  total_rows = some p.1;
  progress_percent = progress_of p.0 p.1;
}

unfoldable pub report_all : ℕ → List (ℕ × ℕ) → List TransferJob → List TransferJob
report_all id [] rows = rows
report_all id (p ∷ ps) rows = report_all id ps (update_where (has_id id) (set_reported p) rows)

abbrev pub or_zero : Option ℕ → ℕ
or_zero none = 0
or_zero (some n) = n

abbrev pub set_imported : Option ℕ → ℕ → TransferJob → TransferJob
set_imported n now j = record j {
  processed_rows = or_zero n;
  total_rows = n;
  progress_percent = 100;
  status = TransferStatus.completed;
  completed_at = some now;
}

-- `rows || null`
abbrev pub nonzero : ℕ → Option ℕ
nonzero n = if n == 0 then none else some n

abbrev pub set_exported : Answers → ℕ → TransferJob → TransferJob
set_exported a n j = record j {
  output_storage_key = some a.storage_key;
  processed_rows = n;
  total_rows = nonzero n;
  progress_percent = 100;
  status = TransferStatus.completed;
  completed_at = some a.now;
  expires_at = some a.expires_at;
}

-- `cancelled(jobId)`
unfoldable pub is_cancelled : ℕ → List TransferJob → Bool
is_cancelled id rows = elim (find (has_id id) rows) [
  | none ↦ false
  | some j ↦ is_cancel_requested j.status
]

unfoldable pub after_import :
    Answers → TransferJob → List Call → List TransferJob → Reply (Option ℕ) → Executed
after_import a j calls rows (threw t) = stop_with t calls rows
after_import a j calls rows (ok n) =
    finish a calls (update_where (has_id j.id) (set_imported n a.now) rows)

unfoldable pub after_source :
    Answers → TransferJob → List Call → List TransferJob → Reply (Unit {0}) → Executed
after_source a j calls rows (threw t) = stop_with t calls rows
after_source a j calls rows (ok u) =
    after_import a j (asked import_call calls) (report_all j.id a.progress rows) a.imported

unfoldable pub after_backup :
    Answers → TransferJob → List Call → List TransferJob → Reply (Option ℕ) → Executed
after_backup a j calls rows (threw t) = stop_with t calls rows
after_backup a j calls rows (ok none) =
    stop (codes "Pre-import safety backup failed. Import was not started.") calls rows
after_backup a j calls rows (ok (some b)) =
    let rows' = update_where (has_id j.id) (set_backup b) rows in
    if is_given j.source_ciphertext
    then after_source a j calls rows' a.source
    else stop (codes "Import source is unavailable.") calls rows'

unfoldable pub execute_import : Answers → TransferJob → List Call → List TransferJob → Executed
execute_import a j calls rows =
    let rows' = update_where (has_id j.id) (set_progress 5) rows in
    after_backup a j (asked backup_call calls) rows' a.backup

unfoldable pub after_store :
    Answers → TransferJob → ℕ → List Call → List TransferJob → Reply (Unit {0}) → Executed
after_store a j n calls rows (threw t) = stop_with t calls rows
after_store a j n calls rows (ok u) =
    finish a calls (update_where (has_id j.id) (set_exported a n) rows)

unfoldable pub after_export :
    Answers → TransferJob → List Call → List TransferJob → Reply ℕ → Executed
after_export a j calls rows (threw t) = stop_with t calls rows
after_export a j calls rows (ok n) =
    if is_cancelled j.id rows
    then stop (codes "Transfer cancelled.") calls rows
    else after_store a j n (asked store_call calls) rows a.stored

abbrev pub is_database_scope : Scope → Bool
is_database_scope Scope.database_scope = true
is_database_scope Scope.table_scope = false

unfoldable pub execute_export : Answers → TransferJob → List Call → List TransferJob → Executed
execute_export a j calls rows =
    if is_cancelled j.id rows
    then stop (codes "Transfer cancelled.") calls rows
    else (if is_database_scope j.scope
        then after_export a j (asked export_call calls) rows a.exported
        else (if is_given j.schema_name && is_given j.table_name && is_tabular j.format
            then after_export a j (asked export_call calls) (report_all j.id a.progress rows)
                a.exported
            else stop (codes "Table export configuration is invalid.") calls rows))

unfoldable pub execute_connected :
    Answers → TransferJob → List Call → List TransferJob → Reply (Unit {0}) → Executed
execute_connected a j calls rows (threw t) = stop_with t calls rows
execute_connected a j calls rows (ok u) =
    if is_import j.direction then execute_import a j calls rows else execute_export a j calls rows

-- `executeJob`
unfoldable pub execute_job : Answers → TransferJob → List TransferJob → Executed
execute_job a j rows = execute_connected a j [] rows a.connection
