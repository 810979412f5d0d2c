-- ===== src/Provisioning/Claim.antt =====
-- The choice and the claim of a job, of `processProvisioningJobs` in
-- src/services/provisioning/provisioningService.ts.
pub mod Exclusion
pub mod Selection
use qubit_hosting_panel.Common.{
  ℕ, ◌+◌, Bool, true, false, not, ◌&&◌, ◌||◌, Option, none, some, List, [], ◌∷◌, ◌==◌, ltb, leb,
  is_some, if◌then◌else◌,
}
use qubit_hosting_panel.Common.Text.{trim, is_empty}
use qubit_hosting_panel.Common.Table.{find, update_where}
use qubit_hosting_panel.Provisioning.Model.{JobStatus, JobResult, Job, Db}

-- `isProviderReconciliationPoll`
unfoldable pub is_provider_reconciliation_poll : JobResult → Bool
is_provider_reconciliation_poll r = elim r.provider_resource_id [
  | none ↦ false
  | some p ↦ not (is_empty (trim p))
]

-- `nextProvisioningAttemptCount`
unfoldable pub next_provisioning_attempt_count : ℕ → JobResult → ℕ
next_provisioning_attempt_count attempt_count r =
    if is_provider_reconciliation_poll r then attempt_count else attempt_count + 1

-- `inArray(status, ["queued", "failed"])`
abbrev pub is_open : JobStatus → Bool
is_open JobStatus.queued = true
is_open JobStatus.failed = true
is_open _ = false

-- The `where` of the select.
unfoldable pub claimable : ℕ → Job → Bool
claimable now j =
    is_open j.status
    && (ltb j.attempt_count j.maximum_attempts || is_some j.result.provider_resource_id)
    && leb j.next_attempt_at now
    && not j.deleted

-- `orderBy(asc(createdAt)).limit(1)`; of rows with one time the first.
unfoldable pub earliest : (Job → Bool) → List Job → Option Job
earliest p [] = none
earliest p (j ∷ js) = elim (earliest p js) [
  | none ↦ if p j then some j else none
  | some k ↦ if p j && leb j.created_at k.created_at then some j else some k
]

unfoldable pub select_candidate : ℕ → Db → Option Job
select_candidate now db = earliest (claimable now) db.jobs

-- The `where` of the update, which looks at the row again.
abbrev pub claims : Job → Job → Bool
claims candidate j = j.id == candidate.id && is_open j.status

unfoldable pub set_claimed : ℕ → Job → Job → Job
set_claimed now candidate j = record j {
  status = JobStatus.processing;
  locked_at = some now;
  attempt_count = next_provisioning_attempt_count candidate.attempt_count candidate.result;
}

-- `update ... returning`: the claimed row, if the update met one.
unfoldable pub claim : ℕ → Job → Db → Option Job × Db
claim now candidate db = (
  elim (find (claims candidate) db.jobs) [
    | none ↦ none
    | some j ↦ some (set_claimed now candidate j)
  ],
  record db { jobs = update_where (claims candidate) (set_claimed now candidate) db.jobs },
)
