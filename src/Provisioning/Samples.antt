-- ===== src/Provisioning/Samples.antt =====
-- A small database of the worker, and rounds on it.
use qubit_hosting_panel.Common.{ℕ, false, none, some, [], ◌∷◌}
use qubit_hosting_panel.Common.Text.{codes}
use qubit_hosting_panel.Provisioning.Model.{
  HostingProvider, JobStatus, ProviderJobStatus, initial_application, Job, ResourceStatus, Resource,
  BuildStatus, Build, DeploymentStatus, Deployment, CheckoutStatus, Db,
}
use qubit_hosting_panel.Provisioning.Queue.{QueueRequest}
use qubit_hosting_panel.Provisioning.Pass.Actions.{ok, ProviderJob, Answers}

abbrev pub request : QueueRequest
request = record {
  workspace_id = 3;
  subscription_id = 5;
  checkout_id = 9;
  workspace_name = codes "My Shop";
  provider = HostingProvider.coolify;
  new_id = 1;
  now = 1000;
}

abbrev pub empty_db : Db
empty_db = record {
  jobs = [];
  resources = [];
  runtimes = [];
  builds = [];
  deployments = [];
  checkouts = record { id = 9; status = CheckoutStatus.provisioning } ∷ [];
  effects = [];
}

abbrev pub accepted_job : ProviderJob
accepted_job = record {
  id = codes "app-1";
  public_url = some (codes "https://shop.example");
  status = ProviderJobStatus.pending;
}

abbrev pub round_at : ℕ → ProviderJobStatus → Answers
round_at t status = record {
  now = t;
  meanwhile = λ db. db;
  connect = ok tt;
  bindings = ok tt;
  variables = ok tt;
  submitted = ok accepted_job;
  polled = ok status;
  new_id = 70;
  uuid = λ _. codes "0a1b2c3d-4e5f";
}

-- The row of a job whose submission was accepted and that is processed again.
abbrev pub followed : Job
followed = record {
  id = 1;
  workspace_id = 3;
  subscription_id = 5;
  provider = HostingProvider.coolify;
  status = JobStatus.processing;
  idempotency_key = initial_application 5;
  attempt_count = 1;
  maximum_attempts = 5;
  next_attempt_at = 31000;
  locked_at = some 40000;
  completed_at = none;
  last_error = none;
  input = record {
    application_build_id = some 7;
    checkout_id = some 9;
    deployment_id = some 8;
    workspace_name = some (codes "My Shop");
  };
  result = record {
    provider_resource_id = some (codes "app-1");
    provider_status = some ProviderJobStatus.pending;
    public_url = none;
  };
  created_at = 1000;
  deleted = false;
}

abbrev pub resource : Resource
resource = record {
  id = 70;
  workspace_id = 3;
  provisioning_job_id = some 1;
  provider = HostingProvider.coolify;
  name = codes "my-shop-0a1b2c3d";
  provider_resource_id = codes "app-1";
  status = ResourceStatus.provisioning;
  public_url = none;
  deleted = false;
}

abbrev pub build : Build
build = record {
  id = 7;
  workspace_id = 3;
  runtime_image_id = 4;
  name = none;
  resource_id = some 70;
  provider_build_id = some (codes "app-1");
  status = BuildStatus.building;
  failure_reason = none;
  started_at = some 1000;
  completed_at = none;
  deleted = false;
}

abbrev pub deployment : Deployment
deployment = record {
  id = 8;
  application_build_id = 7;
  deleted = false;
  status = DeploymentStatus.deploying;
  resource_id = some 70;
  provider_deployment_id = some (codes "app-1");
  public_url = none;
  failure_reason = none;
  started_at = some 1000;
  completed_at = none;
}

abbrev pub followed_db : Db
followed_db = record {
  jobs = followed ∷ [];
  resources = resource ∷ [];
  runtimes = record { id = 4; language = codes "node"; version = codes "22" } ∷ [];
  builds = build ∷ [];
  deployments = deployment ∷ [];
  checkouts = record { id = 9; status = CheckoutStatus.provisioning } ∷ [];
  effects = [];
}

abbrev pub waiting_db : Db
waiting_db = record followed_db { jobs = record followed { status = JobStatus.queued } ∷ [] }
