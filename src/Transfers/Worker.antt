-- ===== src/Transfers/Worker.antt =====
-- src/services/databases/databaseTransferJobService.ts, processDatabaseTransferJobs: the worker's pass.
use qubit_hosting_panel.Common.{
  ℕ, zero, suc, ◌+◌, Bool, true, false, not, ◌&&◌, ◌||◌, Option, none, some, List, [], ◌∷◌, ◌==◌,
  leb, any, take, if◌then◌else◌,
}
use qubit_hosting_panel.Common.Text.{Text, codes, text_eq}
use qubit_hosting_panel.Common.Table.{find, update_where}
use qubit_hosting_panel.Provisioning.Pass.Actions.{Reply, Thrown, an_error, a_value, ok, threw}
use qubit_hosting_panel.Transfers.Model.{
  TransferStatus, TransferJob, is_queued, is_completed, has_id, is_given,
}
use qubit_hosting_panel.Transfers.Execution.{Answers, execute_job, is_cancelled}

pub record Tally : Type 0 where
  pub processed : ℕ
  pub succeeded : ℕ
  pub failed : ℕ
  pub cancelled : ℕ
  pub cleaned : ℕ

abbrev pub is_candidate : TransferJob → Bool
is_candidate j = is_queued j.status && not j.deleted

-- `order by created_at asc limit 1`; of rows of one time the first.
abbrev pub earlier : TransferJob → Option TransferJob → TransferJob
earlier j none = j
earlier j (some k) = if leb j.created_at k.created_at then j else k

unfoldable pub oldest_candidate : List TransferJob → Option TransferJob
oldest_candidate [] = none
oldest_candidate (j ∷ rows) =
    let later = oldest_candidate rows in if is_candidate j then some (earlier j later) else later

abbrev pub set_running : ℕ → TransferJob → TransferJob → TransferJob
set_running now c j = record j {
  status = TransferStatus.running;
  started_at = some now;
  progress_percent = 1;
  attempt_count = c.attempt_count + 1;
  failure_reason = none;
}

abbrev pub is_claimable : ℕ → TransferJob → Bool
is_claimable id j = j.id == id && is_queued j.status

unfoldable pub claim_job : ℕ → TransferJob → List TransferJob → List TransferJob
claim_job now c rows = update_where (is_claimable c.id) (set_running now c) rows

abbrev pub reason_of : Thrown → Text
reason_of (an_error m) = m
reason_of a_value = codes "Database transfer failed."

abbrev pub set_stopped : Bool → Text → ℕ → TransferJob → TransferJob
set_stopped cancelled reason now j = record j {
  status = if cancelled then TransferStatus.cancelled else TransferStatus.failed;
  failure_reason = some reason;
  completed_at = some now;
}

unfoldable pub was_cancelled : ℕ → Text → List TransferJob → Bool
was_cancelled id reason rows = text_eq reason (codes "Transfer cancelled.") || is_cancelled id rows

abbrev pub count_stopped : Bool → Tally → Tally
count_stopped true t = record t { cancelled = t.cancelled + 1 }
count_stopped false t = record t { failed = t.failed + 1 }

-- The end of one execution.
unfoldable pub settle :
    ℕ → TransferJob → Reply (Unit {0}) → Tally → List TransferJob → Tally × List TransferJob
settle now j (ok u) t rows = (record t { succeeded = t.succeeded + 1 }, rows)
settle now j (threw e) t rows =
    let cancelled = was_cancelled j.id (reason_of e) rows in
    (
      count_stopped cancelled t,
      update_where (has_id j.id) (set_stopped cancelled (reason_of e) now) rows,
    )

-- The job that the claim returned: the candidate with the columns of the claim.
unfoldable pub run_job :
    (TransferJob → Answers) → TransferJob → Tally → List TransferJob → Tally × List TransferJob
run_job world j t rows =
    let executed = execute_job (world j) j rows in
    settle (world j).now j executed.outcome (record t { processed = t.processed + 1 }) executed.rows

unfoldable pub run_claimed :
    (TransferJob → Answers)
    → Option TransferJob
    → Tally
    → List TransferJob
    → Tally × List TransferJob
run_claimed world none t rows = (t, rows)
run_claimed world (some j) t rows = run_job world j t rows

unfoldable pub run_candidate :
    (TransferJob → Answers) → ℕ → TransferJob → Tally → List TransferJob → Tally × List TransferJob
run_candidate world now c t rows =
    let claimed = claim_job now c rows in
    run_claimed world (if any (is_claimable c.id) rows then find (has_id c.id) claimed else none) t
      claimed

-- The loop: it ends where no job waits, and goes on where the claim was lost.
unfoldable pub work :
    (TransferJob → Answers) → ℕ → ℕ → Tally → List TransferJob → Tally × List TransferJob
work world now zero t rows = (t, rows)
work world now (suc limit) t rows = elim (oldest_candidate rows) [
  | none ↦ (t, rows)
  | some c ↦ let next = run_candidate world now c t rows in work world now limit next.0 next.1
]

abbrev pub is_due : ℕ → Option ℕ → Bool
is_due now none = false
is_due now (some e) = leb e now

abbrev pub is_expired : ℕ → TransferJob → Bool
is_expired now j = is_completed j.status && is_due now j.expires_at && not j.deleted

abbrev pub filter_rows : (TransferJob → Bool) → List TransferJob → List TransferJob
filter_rows p [] = []
filter_rows p (j ∷ rows) = let rest = filter_rows p rows in if p j then j ∷ rest else rest

abbrev pub set_cleaned : TransferJob → TransferJob
set_cleaned j = record j { output_storage_key = none }

-- The artifacts of expired jobs are deleted, as far as the storage does.
unfoldable pub clean_all :
    (TransferJob → Bool) → List TransferJob → Tally → List TransferJob → Tally × List TransferJob
clean_all deletes [] t rows = (t, rows)
clean_all deletes (j ∷ js) t rows =
    if is_given j.output_storage_key && deletes j
    then clean_all deletes js (record t { cleaned = t.cleaned + 1 })
        (update_where (has_id j.id) set_cleaned rows)
    else clean_all deletes js t rows

abbrev pub no_work : Tally
no_work = record { processed = 0; succeeded = 0; failed = 0; cancelled = 0; cleaned = 0 }

-- `processDatabaseTransferJobs`
unfoldable pub process_database_transfer_jobs :
    (TransferJob → Answers)
    → (TransferJob → Bool)
    → ℕ
    → ℕ
    → List TransferJob
    → Tally × List TransferJob
process_database_transfer_jobs world deletes now limit rows =
    let (t, rows') = work world now limit no_work rows in
    clean_all deletes (take 25 (filter_rows (is_expired now) rows')) t rows'
