-- ===== src/Provisioning/Queue.antt =====
-- `queueInitialProvisioning` of src/services/provisioning/provisioningService.ts.
pub mod Once
use qubit_hosting_panel.Common.{
  ℕ, Bool, false, not, ◌&&◌, Option, none, some, [], ◌∷◌, ◌++◌, ◌==◌, if◌then◌else◌, any,
}
use qubit_hosting_panel.Common.Text.{Text}
use qubit_hosting_panel.Common.Table.{find}
use qubit_hosting_panel.Provisioning.Model.{
  HostingProvider, JobStatus, JobKey, initial_application, other_key, JobResult, Job, Db,
}

abbrev pub is_initial : ℕ → JobKey → Bool
is_initial s (initial_application t) = t == s
is_initial s (other_key k) = false

-- The unique index on the key counts the rows that are not deleted.
abbrev pub holds_key : ℕ → Job → Bool
holds_key subscription j = is_initial subscription j.idempotency_key && not j.deleted

abbrev pub no_result : JobResult
no_result = record { provider_resource_id = none; provider_status = none; public_url = none }

-- What a call is given, and what the database generates for a new row.
pub record QueueRequest : Type 0 where
  pub workspace_id : ℕ
  pub subscription_id : ℕ
  pub checkout_id : ℕ
  pub workspace_name : Text
  pub provider : HostingProvider
  pub new_id : ℕ
  pub now : ℕ

abbrev pub initial_job : QueueRequest → Job
initial_job q = record {
  id = q.new_id;
  workspace_id = q.workspace_id;
  subscription_id = q.subscription_id;
  provider = q.provider;
  status = JobStatus.queued;
  idempotency_key = initial_application q.subscription_id;
  attempt_count = 0;
  maximum_attempts = 5;
  next_attempt_at = q.now;
  locked_at = none;
  completed_at = none;
  last_error = none;
  input = record {
    application_build_id = none;
    checkout_id = some q.checkout_id;
    deployment_id = none;
    workspace_name = some q.workspace_name;
  };
  result = no_result;
  created_at = q.now;
  deleted = false;
}

abbrev pub job_id : Job → ℕ
job_id j = j.id

-- `insert ... on conflict do nothing returning id`, and the select of the row that was there;
-- `none` is the error "Unable to queue provisioning.".
unfoldable pub queue_initial_provisioning : QueueRequest → Db → Option ℕ × Db
queue_initial_provisioning q db =
    if any (holds_key q.subscription_id) db.jobs
    then (
      elim (find (holds_key q.subscription_id) db.jobs) [ none ↦ none | some j ↦ some j.id ],
      db,
    )
    else (some q.new_id, record db { jobs = db.jobs ++ initial_job q ∷ [] })
