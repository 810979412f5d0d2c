-- ===== src/Provisioning/Pass/Records/Updates.antt =====
-- The updates that the writes of a pass are made of (src/services/provisioning/provisioningService.ts).
use qubit_hosting_panel.Common.{ℕ, Bool, true, false, not, Option, none, some, ◌==◌, is_id}
use qubit_hosting_panel.Common.Text.{is_empty}
use qubit_hosting_panel.Common.Table.{update_where}
use qubit_hosting_panel.Provisioning.Model.{
  ProviderJobStatus, JobResult, Job, ResourceStatus, Resource, Build, Deployment, CheckoutStatus,
  Db,
}

-- `eq(table.id, id)` for the id that the job's input holds, if it holds one.
abbrev pub update_job : ℕ → (Job → Job) → Db → Db
update_job id f db = record db { jobs = update_where (λ j. j.id == id) f db.jobs }

abbrev pub update_resource : ℕ → (Resource → Resource) → Db → Db
update_resource id f db = record db { resources = update_where (λ r. r.id == id) f db.resources }

abbrev pub update_build : Option ℕ → (Build → Build) → Db → Db
update_build id f db = record db { builds = update_where (λ b. is_id id b.id) f db.builds }

abbrev pub update_deployment : Option ℕ → (Deployment → Deployment) → Db → Db
update_deployment id f db = record db {
  deployments = update_where (λ d. is_id id d.id) f db.deployments;
}

abbrev pub update_checkout : Option ℕ → CheckoutStatus → Db → Db
update_checkout id status db = record db {
  checkouts = update_where (λ c. is_id id c.id) (λ c. record c { status = status }) db.checkouts;
}

-- `previousResult.providerResourceId` is truthy.
abbrev pub has_submission : JobResult → Bool
has_submission r = elim r.provider_resource_id [ none ↦ false | some p ↦ not (is_empty p) ]

-- `nextAttemptAt: new Date(Date.now() + 30_000)`
abbrev pub poll_delay : ℕ
poll_delay = 30000

abbrev pub is_succeeded : ProviderJobStatus → Bool
is_succeeded ProviderJobStatus.succeeded = true
is_succeeded _ = false

abbrev pub set_resource_status : ℕ → ResourceStatus → Db → Db
set_resource_status id status = update_resource id (λ r. record r { status = status })
