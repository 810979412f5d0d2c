-- ===== src/Provisioning/Model.antt =====
-- The rows that the worker reads and writes (src/db/schema/provisioning.ts, sharedPlatform.ts and
-- subscriptions.ts), with the columns that src/services/provisioning/provisioningService.ts uses.
-- A uuid is a number, a timestamp the milliseconds since the epoch, `deletedAt` a flag.
use qubit_hosting_panel.Common.{ℕ, Bool, Option, List}
use qubit_hosting_panel.Common.Text.{Text}

pub data HostingProvider : Type 0 where
  mock coolify : HostingProvider

pub data JobStatus : Type 0 where
  queued processing succeeded failed cancelled : JobStatus

-- What a provider says of a submitted job.
pub data ProviderJobStatus : Type 0 where
  pending running succeeded failed : ProviderJobStatus

-- An application's job is keyed by its subscription, any other by the text of its request.
pub data JobKey : Type 0 where
  initial_application : ℕ → JobKey
  other_key : Text → JobKey

-- The json column `input`.
pub record JobInput : Type 0 where
  pub application_build_id : Option ℕ
  pub checkout_id : Option ℕ
  pub deployment_id : Option ℕ
  pub workspace_name : Option Text

-- The json column `result`, `{}` at first.
pub record JobResult : Type 0 where
  pub provider_resource_id : Option Text
  pub provider_status : Option ProviderJobStatus
  pub public_url : Option Text

pub record Job : Type 0 where
  pub id : ℕ
  pub workspace_id : ℕ
  pub subscription_id : ℕ
  pub provider : HostingProvider
  pub status : JobStatus
  pub idempotency_key : JobKey
  pub attempt_count : ℕ
  pub maximum_attempts : ℕ
  pub next_attempt_at : ℕ
  pub locked_at : Option ℕ
  pub completed_at : Option ℕ
  pub last_error : Option Text
  pub input : JobInput
  pub result : JobResult
  pub created_at : ℕ
  pub deleted : Bool

pub data ResourceStatus : Type 0 where
  provisioning running stopped failed unknown : ResourceStatus

pub record Resource : Type 0 where
  pub id : ℕ
  pub workspace_id : ℕ
  pub provisioning_job_id : Option ℕ
  pub provider : HostingProvider
  pub name : Text
  pub provider_resource_id : Text
  pub status : ResourceStatus
  pub public_url : Option Text
  pub deleted : Bool

pub record RuntimeImage : Type 0 where
  pub id : ℕ
  pub language : Text
  pub version : Text

pub data BuildStatus : Type 0 where
  queued building succeeded failed cancelled : BuildStatus

pub record Build : Type 0 where
  pub id : ℕ
  pub workspace_id : ℕ
  pub runtime_image_id : ℕ
  pub name : Option Text
  pub resource_id : Option ℕ
  pub provider_build_id : Option Text
  pub status : BuildStatus
  pub failure_reason : Option Text
  pub started_at : Option ℕ
  pub completed_at : Option ℕ
  pub deleted : Bool

pub data DeploymentStatus : Type 0 where
  queued deploying running failed stopped : DeploymentStatus

pub record Deployment : Type 0 where
  pub id : ℕ
  pub application_build_id : ℕ
  pub status : DeploymentStatus
  pub resource_id : Option ℕ
  pub provider_deployment_id : Option Text
  pub public_url : Option Text
  pub failure_reason : Option Text
  pub started_at : Option ℕ
  pub completed_at : Option ℕ
  pub deleted : Bool

pub data CheckoutStatus : Type 0 where
  awaiting_payment payment_pending paid workspace_setup_pending provisioning : CheckoutStatus
  active payment_failed provisioning_failed cancelled expired : CheckoutStatus

pub record Checkout : Type 0 where
  pub id : ℕ
  pub status : CheckoutStatus

-- What leaves the process: calls of the provider, each with the job whose pass makes it, and the
-- realtime notifications.
pub data Effect : Type 0 where
  submit : ℕ → Effect
  poll : ℕ → Text → Effect
  publish : ℕ → Effect
  track : ℕ → Text → Effect

pub record Db : Type 0 where
  pub jobs : List Job
  pub resources : List Resource
  pub runtimes : List RuntimeImage
  pub builds : List Build
  pub deployments : List Deployment
  pub checkouts : List Checkout
  pub effects : List Effect
