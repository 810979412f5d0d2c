-- ===== src/Provisioning/Pass/Retries.antt =====
-- The `catch` of a pass: back-off, bounded messages, and terminal failures.
use native.Mathlib.Nat.{pow-suc}
use qubit_hosting_panel.Common.{
  ℕ, zero, suc, ◌+◌, ◌*◌, ◌^◌, ◌≤◌, ◌≡◌, refl, Bool, true, false, none, some, arith, ◌==◌, All,
  is_id, length, length-take,
}
use qubit_hosting_panel.Common.Text.{Text, codes}
use qubit_hosting_panel.Common.Table.{update_where, All-updated, All-updated_from}
use qubit_hosting_panel.Provisioning.Model.{
  JobStatus, ProviderJobStatus, Job, Resource, BuildStatus, DeploymentStatus, Db,
}
use qubit_hosting_panel.Provisioning.Claim.{claimable}
use qubit_hosting_panel.Provisioning.Pass.Actions.{
  ok, message_of, Outcome, done, failed, gave_up, Answers,
}
use qubit_hosting_panel.Provisioning.Pass.Records.{
  record_failure, delay_minutes, has_submission, bounded_message,
}
use qubit_hosting_panel.Provisioning.Pass.{
  Verdict, configured_application, existing_resource, follow, poll_provider, route, attempt, settle,
  process_job,
}
use qubit_hosting_panel.Provisioning.Pass.Calls.{dispatch_submitted}

pow_pos : (n : ℕ) → 1 ≤ 2 ^ n
pow_pos zero = omega arith
pow_pos (suc n) = rw pow-suc (omega (arith, pow_pos n))

-- Between a minute and an hour.
delay_minutes_bounds : (n : ℕ) → (1 ≤ delay_minutes n) × (delay_minutes n ≤ 60)
unfolding delay_minutes
delay_minutes_bounds n = omega (arith, pow_pos n)

-- A row of a failed job: open to a retry between a minute and an hour later.
pub record FailedJob (now : ℕ) (m : Text) (j : Job) : Type 0 where
  pub status : j.status ≡ JobStatus.failed
  pub unlocked : j.locked_at ≡ none
  pub last_error : j.last_error ≡ some m
  pub not_before : now + 60000 ≤ j.next_attempt_at
  pub not_after : j.next_attempt_at ≤ now + 3600000

-- One message of at most 2000 units stands in the job, its build and its deployment.
pub record IsFailed (now : ℕ) (job : Job) (m : Text) (db : Db) : Type 0 where
  pub bounded : length m ≤ 2000
  pub job_failed : All (λ j. (j.id == job.id) ≡ true → FailedJob now m j) db.jobs
  pub build_failed :
      All
        (λ b.
          is_id job.input.application_build_id b.id ≡ true
          → (b.status ≡ BuildStatus.failed) × (b.failure_reason ≡ some m))
        db.builds
  pub deployment_failed :
      All
        (λ d.
          is_id job.input.deployment_id d.id ≡ true
          → (d.status ≡ DeploymentStatus.failed) × (d.failure_reason ≡ some m))
        db.deployments

failure-IsFailed :
    (now : ℕ) (job : Job) (terminal : Bool) (m : Text) (db : Db)
    → IsFailed now job (bounded_message m) (record_failure now job terminal m db)
unfolding record_failure
failure-IsFailed now job terminal m db = record {
  bounded = omega (arith, length-take 2000 m);
  job_failed =
      All-updated (FailedJob now (bounded_message m)) (λ j. j.id == job.id) _ _ db.jobs
        (λ j _. record {
          status = refl;
          unlocked = refl;
          last_error = refl;
          not_before = omega (arith, delay_minutes_bounds job.attempt_count);
          not_after = omega (arith, delay_minutes_bounds job.attempt_count);
        })
        (λ j e. e);
  build_failed =
      All-updated
        (λ b. (b.status ≡ BuildStatus.failed) × (b.failure_reason ≡ some (bounded_message m)))
        (λ b. is_id job.input.application_build_id b.id) _ _ db.builds (λ b _. (refl, refl))
        (λ b e. e);
  deployment_failed =
      All-updated
        (λ d. (d.status ≡ DeploymentStatus.failed) × (d.failure_reason ≡ some (bounded_message m)))
        (λ d. is_id job.input.deployment_id d.id) _ _ db.deployments (λ d _. (refl, refl))
        (λ d e. e);
}

settle-IsFailed :
    (a : Answers) (job : Job) (o : Outcome Verdict × Db)
    → (settle a job o).0 ≡ none
    → (m : Text) × IsFailed a.now job m (settle a job o).1
unfolding settle
settle-IsFailed a job (done v, db) h = cc
settle-IsFailed a job (failed t, db) h =
    (bounded_message (message_of t), failure-IsFailed a.now job false (message_of t) db)
settle-IsFailed a job (gave_up m, db) h = (bounded_message m, failure-IsFailed a.now job true m db)

-- A pass that throws, whatever threw, leaves the job failed, unlocked and due again between a minute
-- and an hour later, its build and its deployment failed, all with one message of at most 2000 units.
pub process_job-IsFailed :
    (a : Answers) (job : Job) (db : Db)
    → (process_job a job db).0 ≡ none
    → (m : Text) × IsFailed a.now job m (process_job a job db).1
unfolding process_job
process_job-IsFailed a job db h = settle-IsFailed a job (attempt a job db) h

-- The row that the `catch` of a terminal error leaves of the claimed row.
abbrev refused_row : ℕ → Job → Job → Job
refused_row now job j = record j {
  status = JobStatus.failed;
  attempt_count = job.maximum_attempts;
  completed_at = some now;
  locked_at = none;
  last_error = some (bounded_message (codes "The provider reports that deployment failed."));
  next_attempt_at = now + delay_minutes job.attempt_count * 60000;
}

jobs-refused :
    (a : Answers) (job : Job) (r : Resource) (db : Db)
    → a.polled ≡ ok ProviderJobStatus.failed
    → (settle a job (poll_provider a job r db)).1.jobs
      ≡ update_where (λ j. j.id == job.id) (refused_row a.now job) db.jobs
unfolding settle poll_provider follow record_failure
jobs-refused a job r db p = simp p

-- The provider's "failed" ends a pass as a terminal error.
process_job-refused :
    (a : Answers) (job : Job) (r : Resource) (db : Db)
    → has_submission job.result ≡ true
    → existing_resource job (configured_application job db) db ≡ some r
    → a.connect ≡ ok tt
    → process_job a job db ≡ settle a job (poll_provider a job r db)
unfolding process_job attempt route
process_job-refused a job r db h e c =
    simp c (rw (e, dispatch_submitted a job (configured_application job db) r db h))

refused_row-claimable :
    (now later : ℕ) (job : Job)
    → has_submission job.result ≡ true
    → job.deleted ≡ false
    → now + 3600000 ≤ later
    → claimable later (refused_row now job job) ≡ true
unfolding claimable
refused_row-claimable now later job h alive due =
    ground (arith, delay_minutes_bounds job.attempt_count)

-- A job that is marked failed for good, attempts used up and completion time set, is selected again
-- by every worker that runs an hour later: its provider id alone makes it claimable.
pub refused_job-claimable :
    (a : Answers) (job : Job) (r : Resource) (db : Db) (later : ℕ)
    → has_submission job.result ≡ true
    → job.deleted ≡ false
    → existing_resource job (configured_application job db) db ≡ some r
    → a.connect ≡ ok tt
    → a.polled ≡ ok ProviderJobStatus.failed
    → All (λ j. (j.id == job.id) ≡ true → j ≡ job) db.jobs
    → a.now + 3600000 ≤ later
    → All
        (λ j.
          (j.id == job.id) ≡ true
          → (j.status ≡ JobStatus.failed)
            × (j.attempt_count ≡ job.maximum_attempts)
            × (j.completed_at ≡ some a.now)
            × (claimable later j ≡ true))
        (process_job a job db).1.jobs
refused_job-claimable a job r db later h alive e c p key due =
    rw (process_job-refused a job r db h e c, jobs-refused a job r db p)
      (All-updated_from (λ j. j ≡ job)
        (λ j.
          (j.status ≡ JobStatus.failed)
          × (j.attempt_count ≡ job.maximum_attempts)
          × (j.completed_at ≡ some a.now)
          × (claimable later j ≡ true))
        (λ j. j.id == job.id) (refused_row a.now job) db.jobs
        (λ j _ same. rw same (refl, refl, refl, refused_row-claimable a.now later job h alive due))
        (λ j x. x) key)
