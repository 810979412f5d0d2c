-- ===== src/Provisioning/Pass.antt =====
-- One pass over a claimed job: the `try` block of `processProvisioningJobs` in
-- src/services/provisioning/provisioningService.ts, and its `catch`.
pub mod Actions
pub mod Name
pub mod Records
pub mod Calls
pub mod Success
pub mod Retries
pub mod Bounds
pub mod Kept
pub mod Names
use qubit_hosting_panel.Common.{
  ℕ, Bool, true, false, not, ◌&&◌, ◌||◌, Option, none, some, List, [], ◌∷◌, ◌++◌, ◌==◌, is_id,
  if◌then◌else◌, any,
}
use qubit_hosting_panel.Common.Text.{Text, text_eq, is_empty}
use qubit_hosting_panel.Common.Table.{find, update_where}
use qubit_hosting_panel.Provisioning.Model.{
  ProviderJobStatus, JobResult, Job, Resource, RuntimeImage, Build, Deployment, ResourceStatus,
  BuildStatus, DeploymentStatus, Effect, Db,
}
use Actions.{
  Thrown, message_of, Reply, ok, threw, Outcome, done, failed, gave_up, Work, ◌>>=◌, ◌>>◌, ask,
  change, pure, give_up, emit, ProviderJob, Answers,
}
use Records.{
  mark_started, record_redeployment, record_pending, record_success, record_provision,
  record_failure, set_resource_status, has_submission,
}

-- Whether the pass ended the job (`succeeded += 1`) or left it to later passes.
pub data Verdict : Type 0 where
  waiting finished : Verdict

-- `configuredApplication`: the build of the job's input, joined with its runtime image.
unfoldable pub configured_application : Job → Db → Option Build
configured_application job db = elim job.input.application_build_id [
  | none ↦ none
  | some id ↦
      find
        (λ b.
          b.id == id
          && b.workspace_id == job.workspace_id
          && not b.deleted
          && any (λ r. r.id == b.runtime_image_id) db.runtimes)
        db.builds
]

-- `configuredApplication?.build.resourceId ? eq(id, ...) : eq(provisioningJobId, claimed.id)`
abbrev pub names_resource : Job → Option Build → Resource → Bool
names_resource job none r = is_id r.provisioning_job_id job.id
names_resource job (some b) r = elim b.resource_id [
  | none ↦ is_id r.provisioning_job_id job.id
  | some id ↦ r.id == id
]

-- `existingResource`
unfoldable pub existing_resource : Job → Option Build → Db → Option Resource
existing_resource job app db =
    find (λ r. names_resource job app r && r.workspace_id == job.workspace_id && not r.deleted)
      db.resources

module _ (a : Answers) (claimed : Job) where
  -- The effects of `deploymentInput`: the credentials of the bindings are read, the build and the
  -- deployment are marked, and then the variables are decrypted. Its value goes to the provider.
  unfoldable pub deployment_input : Option Build → Work (Unit {0})
  deployment_input none = pure tt
  deployment_input (some b) = do
    ask a.bindings
    change (mark_started a.now claimed b)
    ask a.variables

  -- `provider.provisionApplication(await deploymentInput())`
  unfoldable pub submit_application : Option Build → Work ProviderJob
  submit_application app = do deployment_input app; emit (Effect.submit claimed.id); ask a.submitted

  -- The notifications of a redeployment.
  unfoldable pub notify : Resource → Work (Unit {0})
  notify r = elim claimed.input.application_build_id [
    | none ↦ pure tt
    | some b ↦ do emit (Effect.publish b); emit (Effect.track b r.provider_resource_id)
  ]

  unfoldable pub redeploy : Build → Resource → Work Verdict
  redeploy b r = do
    job ← submit_application (some b)
    change (record_redeployment a.now claimed r job)
    notify r
    pure waiting

  -- The branches on `providerStatus`.
  unfoldable pub follow : Resource → ProviderJobStatus → Work Verdict
  follow r ProviderJobStatus.failed = do
    change (set_resource_status r.id ResourceStatus.failed)
    give_up
  follow r ProviderJobStatus.succeeded = do change (record_success a.now claimed r); pure finished
  follow r status = do change (record_pending a.now claimed r status); pure waiting

  unfoldable pub poll_provider : Resource → Work Verdict
  poll_provider r = do
    emit (Effect.poll claimed.id r.provider_resource_id)
    status ← ask a.polled
    follow r status

  unfoldable pub provision : Option Build → Work Verdict
  provision app = do
    job ← submit_application app
    change (record_provision a claimed app job)
    pure (elim job.status [ ProviderJobStatus.succeeded ↦ finished | _ ↦ waiting ])

  -- `if (existingResource)`, and in it `if (!previousResult.providerResourceId && configured...)`.
  unfoldable pub dispatch : Option Build → Option Resource → Work Verdict
  dispatch app none = provision app
  dispatch none (some r) = poll_provider r
  dispatch (some b) (some r) =
      if has_submission claimed.result then poll_provider r else redeploy b r

  unfoldable pub route : Work Verdict
  route db =
      let app = configured_application claimed db in
      dispatch app (existing_resource claimed app db) db

  unfoldable pub attempt : Work Verdict
  attempt = do ask a.connect; route

  -- The `try` with its `catch`: `none` counts as failed.
  unfoldable pub settle : Outcome Verdict × Db → Option Verdict × Db
  settle (done v, db) = (some v, db)
  settle (failed t, db) = (none, record_failure a.now claimed false (message_of t) db)
  settle (gave_up m, db) = (none, record_failure a.now claimed true m db)

  unfoldable pub process_job : Db → Option Verdict × Db
  process_job db = settle (attempt db)
