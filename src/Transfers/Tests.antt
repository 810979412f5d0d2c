-- ===== src/Transfers/Tests.antt =====
-- One import into a database, its execution, its cancellation, and a retry.
use qubit_hosting_panel.Common.{◌≡◌, refl, true, Option, none, some, List, [], ◌∷◌, arith}
use qubit_hosting_panel.Common.Text.{codes, text_eq}
use qubit_hosting_panel.Common.Table.{find}
use qubit_hosting_panel.Provisioning.Pass.Actions.{an_error, ok, threw}
use qubit_hosting_panel.Transfers.Model.{
  Direction, Format, Scope, TransferStatus, TransferJob, TransferRequest, ActionRequest, has_id,
  new_job, insert_job, enqueue_database_import, enqueue_database_export, set_cancel_requested,
  cancel_transfer, set_queued, requeue, retry_found, retry_transfer,
}
use qubit_hosting_panel.Transfers.Execution.{
  Answers, Call, progress_of, report_all, is_cancelled, after_import, after_source, after_backup,
  execute_import, execute_connected, execute_job,
}
use qubit_hosting_panel.Transfers.Worker.{
  oldest_candidate, claim_job, was_cancelled, settle, run_job, run_claimed, run_candidate, work,
  clean_all, process_database_transfer_jobs,
}
use qubit_hosting_panel.Transfers.Blocked.{
  TransferStep, take_transfer_steps, cancelled_blocks_database,
}
use qubit_hosting_panel.Transfers.Drained.{waiting, process_database_transfer_jobs-drained}
use qubit_hosting_panel.Transfers.Backups.{Guarded, execute_job-Guarded}

abbrev request : TransferRequest
request = record {
  id = 1;
  workspace_id = 9;
  database_id = 4;
  actor_user_id = 7;
  format = Format.csv;
  scope = Scope.table_scope;
  schema_name = some (codes "public");
  table_name = some (codes "users");
  source = codes "id";
  now = 100;
}

abbrev other_request : TransferRequest
other_request = record request { id = 2; schema_name = none; table_name = none }

abbrev action : ActionRequest
action = record { job_id = 1; workspace_id = 9; database_id = 4; actor_user_id = 7 }

abbrev job : TransferJob
job = new_job Direction.import_direction Scope.table_scope (some (codes "id")) request

abbrev answers : Answers
answers = record {
  connection = ok tt;
  backup = ok (some 5);
  source = ok tt;
  progress = (1, 2) ∷ [];
  imported = ok (some 2);
  exported = ok 0;
  storage_key = codes "k";
  stored = ok tt;
  audited = ok tt;
  expires_at = 900;
  now = 120;
}

enqueued : enqueue_database_import (λ t. t) request [] ≡ some (job ∷ [])
unfolding enqueue_database_import insert_job
enqueued = refl

second_refused : enqueue_database_export other_request (job ∷ []) ≡ none
unfolding enqueue_database_export insert_job
second_refused = refl

table_required : enqueue_database_import (λ t. t) other_request [] ≡ none
unfolding enqueue_database_import insert_job
table_required = refl

imported_calls :
    (execute_job answers job (job ∷ [])).calls ≡ Call.backup_call ∷ Call.import_call ∷ []
unfolding execute_job execute_connected execute_import after_backup after_source after_import
    report_all
imported_calls = refl

no_backup_no_import :
    (execute_job (record answers { backup = ok none }) job (job ∷ [])).calls ≡ Call.backup_call ∷ []
unfolding execute_job execute_connected execute_import after_backup
no_backup_no_import = refl

half_way : progress_of 1 2 ≡ 60
unfolding progress_of
half_way = refl

abbrev status_of : Option TransferJob → Option TransferStatus
status_of none = none
status_of (some j) = some j.status

cancelled :
    status_of (find (has_id 1) (cancel_transfer action (job ∷ [])))
    ≡ some TransferStatus.cancel_requested
unfolding cancel_transfer set_cancel_requested
cancelled = refl

abbrev failed_job : TransferJob
failed_job = record job {
  status = TransferStatus.failed;
  attempt_count = 1;
  failure_reason = some (codes "x");
}

retried :
    retry_transfer action (failed_job ∷ [])
    ≡ (record failed_job { status = TransferStatus.queued; failure_reason = none }) ∷ []
unfolding retry_transfer retry_found requeue set_queued
retried = refl

exhausted :
    retry_transfer action (record failed_job { attempt_count = 3 } ∷ [])
    ≡ record failed_job { attempt_count = 3 } ∷ []
unfolding retry_transfer retry_found requeue set_queued
exhausted = refl

passed :
    (process_database_transfer_jobs (λ j. answers) (λ j. true) 110 5 (job ∷ [])).0.succeeded ≡ 1
unfolding process_database_transfer_jobs work oldest_candidate run_candidate claim_job run_claimed
    run_job settle execute_job execute_connected execute_import after_backup after_source
    after_import report_all clean_all
passed = refl

-- An import whose audit entry fails is complete, and is recorded as failed.
unaudited :
    status_of (
      find
        (has_id 1)
        (process_database_transfer_jobs
          (λ j. record answers { audited = threw (an_error (codes "x")) })
          (λ j. true)
          110
          5
          (job ∷ [])).1)
    ≡ some TransferStatus.failed
unfolding process_database_transfer_jobs work oldest_candidate run_candidate claim_job run_claimed
    run_job settle execute_job execute_connected execute_import after_backup after_source
    after_import report_all clean_all was_cancelled is_cancelled text_eq
unaudited = refl

process_database_transfer_jobs-drained_example :
    waiting (process_database_transfer_jobs (λ j. answers) (λ j. true) 110 5 (job ∷ [])).1 ≡ 0
process_database_transfer_jobs-drained_example =
    process_database_transfer_jobs-drained (λ j. answers) (λ j. true) 110 5 (job ∷ []) (omega arith)

execute_job-Guarded_example : Guarded answers job (execute_job answers job (job ∷ []))
execute_job-Guarded_example = execute_job-Guarded answers job (job ∷ [])

abbrev steps : List TransferStep
steps =
    TransferStep.pass_step (λ j. answers) (λ j. true) 110 5 ∷ TransferStep.retry_step action ∷ []

cancelled_blocks_database_example :
    (enqueue_database_import
        (λ t. t)
        other_request
        (take_transfer_steps (λ t. t) steps (cancel_transfer action (job ∷ [])))
      ≡ none)
    × (enqueue_database_export other_request
          (take_transfer_steps (λ t. t) steps (cancel_transfer action (job ∷ [])))
        ≡ none)
cancelled_blocks_database_example =
    cancelled_blocks_database (λ t. t) action (job ∷ []) steps other_request refl (omega arith) refl
