-- ===== src/Provisioning/Pass/Records.antt =====
-- The writes of one pass, each the transaction of one branch of `processProvisioningJobs` in
-- src/services/provisioning/provisioningService.ts.
mod Updates
use qubit_hosting_panel.Common.{
  ℕ, ◌+◌, ◌*◌, ◌^◌, min, Bool, true, false, not, ◌&&◌, Option, none, some, [], ◌∷◌, ◌++◌, ◌==◌,
  if◌then◌else◌, any, is_id, take, coalesce,
}
use qubit_hosting_panel.Common.Text.{Text, text_eq, is_empty}
use qubit_hosting_panel.Common.Table.{update_where}
use qubit_hosting_panel.Provisioning.Model.{
  HostingProvider, JobStatus, ProviderJobStatus, JobResult, Job, ResourceStatus, Resource,
  BuildStatus, Build, DeploymentStatus, Deployment, CheckoutStatus, Db,
}
use qubit_hosting_panel.Provisioning.Pass.Actions.{ProviderJob, Answers}
use qubit_hosting_panel.Provisioning.Pass.Name.{resource_name}
pub use Updates.*

-- The build and the deployment of an attempt that starts.
unfoldable pub mark_started : ℕ → Job → Build → Db → Db
mark_started now job b db =
    update_deployment job.input.deployment_id
      (λ d. record d {
        status = DeploymentStatus.deploying;
        started_at = some now;
        failure_reason = none;
      })
      (update_build (some b.id)
        (λ c. record c {
          status = BuildStatus.building;
          started_at = some now;
          failure_reason = none;
        })
        db)

-- The job waits for the provider: queued, unlocked, due in thirty seconds.
abbrev pub requeue : ℕ → JobResult → Job → Job
requeue now result j = record j {
  status = JobStatus.queued;
  locked_at = none;
  next_attempt_at = now + poll_delay;
  result = result;
}

unfoldable pub record_redeployment : ℕ → Job → Resource → ProviderJob → Db → Db
record_redeployment now job r answer db =
    let url = coalesce answer.public_url r.public_url in
    let result : JobResult = record {
      provider_resource_id = some r.provider_resource_id;
      provider_status = some answer.status;
      public_url = url;
    } in
    update_deployment job.input.deployment_id
      (λ d. record d {
        status = DeploymentStatus.deploying;
        resource_id = some r.id;
        provider_deployment_id = some r.provider_resource_id;
        public_url = url;
        failure_reason = none;
      })
      (update_build job.input.application_build_id
        (λ b. record b { status = BuildStatus.building; failure_reason = none })
        (update_job job.id (λ j. record (requeue now result j) { last_error = none })
          (update_resource r.id
            (λ s. record s { status = ResourceStatus.provisioning; public_url = url }) db)))

-- The provider has neither failed nor succeeded.
unfoldable pub record_pending : ℕ → Job → Resource → ProviderJobStatus → Db → Db
record_pending now job r status db =
    let result : JobResult = record {
      provider_resource_id = some r.provider_resource_id;
      provider_status = some status;
      public_url = none;
    } in
    update_job job.id (requeue now result) (set_resource_status r.id ResourceStatus.provisioning db)

unfoldable pub record_success : ℕ → Job → Resource → Db → Db
record_success now job r db = update_checkout job.input.checkout_id CheckoutStatus.active (
    update_deployment job.input.deployment_id
      (λ d. record d {
        status = DeploymentStatus.running;
        resource_id = some r.id;
        provider_deployment_id = some r.provider_resource_id;
        public_url = r.public_url;
        completed_at = some now;
        failure_reason = none;
      })
      (update_build job.input.application_build_id
        (λ b. record b {
          status = BuildStatus.succeeded;
          completed_at = some now;
          failure_reason = none;
        })
        (update_job job.id
          (λ j. record j {
            status = JobStatus.succeeded;
            completed_at = some now;
            locked_at = none;
            result = record {
              provider_resource_id = some r.provider_resource_id;
              provider_status = some ProviderJobStatus.succeeded;
              public_url = none;
            };
            last_error = none;
          })
          (set_resource_status r.id ResourceStatus.running db))))

abbrev pub same_provider : HostingProvider → HostingProvider → Bool
same_provider HostingProvider.mock HostingProvider.mock = true
same_provider HostingProvider.coolify HostingProvider.coolify = true
same_provider _ _ = false

-- The unique index on provider and provider id, of the rows that are not deleted.
abbrev pub conflicts : Job → Text → Resource → Bool
conflicts job id r =
    same_provider r.provider job.provider && text_eq r.provider_resource_id id && not r.deleted

abbrev pub new_resource : Answers → Job → Option Build → ProviderJob → Resource
new_resource a job app answer = record {
  id = a.new_id;
  workspace_id = job.workspace_id;
  provisioning_job_id = some job.id;
  provider = job.provider;
  name =
      resource_name (elim app [ none ↦ none | some b ↦ b.name ]) job.input.workspace_name
        (a.uuid job.workspace_id);
  provider_resource_id = answer.id;
  status =
      if is_succeeded answer.status then ResourceStatus.running else ResourceStatus.provisioning;
  public_url = answer.public_url;
  deleted = false;
}

-- `completedAt: result.status === "succeeded" ? new Date() : null`
abbrev pub completion : ℕ → ProviderJobStatus → Option ℕ
completion now status = if is_succeeded status then some now else none

-- `insert ... on conflict do nothing returning`, and what depends on the new row.
unfoldable pub add_resource : Answers → Job → Option Build → ProviderJob → Db → Db
add_resource a job app answer db =
    if any (conflicts job answer.id) db.resources
    then db
    else update_deployment job.input.deployment_id
        (λ d. record d {
          resource_id = some a.new_id;
          provider_deployment_id = some answer.id;
          status =
              if is_succeeded answer.status
              then DeploymentStatus.running
              else DeploymentStatus.deploying;
          public_url = answer.public_url;
          completed_at = completion a.now answer.status;
        })
        (update_build job.input.application_build_id
          (λ b. record b {
            resource_id = some a.new_id;
            provider_build_id = some answer.id;
            status =
                if is_succeeded answer.status then BuildStatus.succeeded else BuildStatus.building;
            completed_at = completion a.now answer.status;
          })
          (record db { resources = db.resources ++ new_resource a job app answer ∷ [] }))

unfoldable pub record_provision : Answers → Job → Option Build → ProviderJob → Db → Db
unfolding add_resource
record_provision a job app answer db =
    let result : JobResult = record {
      provider_resource_id = some answer.id;
      provider_status = some answer.status;
      public_url = answer.public_url;
    } in
    update_checkout (if is_succeeded answer.status then job.input.checkout_id else none)
      CheckoutStatus.active
      (update_job job.id
        (λ j. record (requeue a.now result j) {
          status = if is_succeeded answer.status then JobStatus.succeeded else JobStatus.queued;
          completed_at = completion a.now answer.status;
          last_error = none;
        })
        (add_resource a job app answer db))

-- `Math.min(60, 2 ** claimed.attemptCount)`
unfoldable pub delay_minutes : ℕ → ℕ
delay_minutes attempt_count = min 60 (2 ^ attempt_count)

-- `error.message.slice(0, 2000)`
abbrev pub bounded_message : Text → Text
bounded_message m = take 2000 m

-- The `catch`: `terminal` says that the error is a `TerminalProvisioningError`.
unfoldable pub record_failure : ℕ → Job → Bool → Text → Db → Db
unfolding delay_minutes
record_failure now job terminal message db =
    update_deployment job.input.deployment_id
      (λ d. record d {
        status = DeploymentStatus.failed;
        failure_reason = some (bounded_message message);
      })
      (update_build job.input.application_build_id
        (λ b. record b {
          status = BuildStatus.failed;
          failure_reason = some (bounded_message message);
        })
        (update_job job.id
          (λ j. record j {
            status = JobStatus.failed;
            attempt_count = if terminal then job.maximum_attempts else job.attempt_count;
            completed_at = if terminal then some now else none;
            locked_at = none;
            last_error = some (bounded_message message);
            next_attempt_at = now + delay_minutes job.attempt_count * 60000;
          })
          db))
