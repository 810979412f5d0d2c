-- ===== src/Webhook/Tests.antt =====
-- A deployment that succeeds, notified with the configured secret.
use qubit_hosting_panel.Common.{◌≡◌, ◌≢◌, refl, true, false, Option, none, some, [], ◌∷◌, or_else}
use qubit_hosting_panel.Common.Text.{Text, codes, text_eq}
use qubit_hosting_panel.Provisioning.Model.{
  HostingProvider, ResourceStatus, Resource, BuildStatus, Build, Db,
}
use qubit_hosting_panel.Webhook.{
  CoolifyEvent, CoolifyWebhookRequest, WebhookResponse, valid_secret, is_authentic,
  find_application, reconcile_event, receive_application, receive,
}
use qubit_hosting_panel.Webhook.Authentic.{receive-authentic}
use qubit_hosting_panel.Webhook.Writes.{Joined, Reconciled, receive-Reconciled}

abbrev resource : Resource
resource = record {
  id = 70;
  workspace_id = 3;
  provisioning_job_id = some 1;
  provider = HostingProvider.coolify;
  name = codes "shop";
  provider_resource_id = codes "app-1";
  status = ResourceStatus.provisioning;
  public_url = none;
  deleted = false;
}

abbrev build : Build
build = record {
  id = 7;
  workspace_id = 3;
  runtime_image_id = 4;
  name = none;
  resource_id = some 70;
  provider_build_id = none;
  status = BuildStatus.building;
  failure_reason = none;
  started_at = none;
  completed_at = none;
  deleted = false;
}

abbrev db : Db
db = record {
  jobs = [];
  resources = resource ∷ [];
  runtimes = [];
  builds = build ∷ [];
  deployments = [];
  checkouts = [];
  effects = [];
}

abbrev success : CoolifyWebhookRequest
success = record {
  application_uuid = some (codes "app-1");
  deployment_uuid = none;
  event = CoolifyEvent.deployment_success;
  message = codes "ok";
  success = true;
}

abbrev secret : Option Text
secret = some (codes "s3cret")

receive-authentic_example :
    ((receive secret (some (codes "guess")) 5 success db).0 ≡ WebhookResponse.not_found
      → (receive secret (some (codes "guess")) 5 success db).1 ≡ db)
    × ((receive secret (some (codes "guess")) 5 success db).0 ≢ WebhookResponse.not_found
        → secret ≡ some (or_else (some (codes "guess")) []))
receive-authentic_example = receive-authentic secret (some (codes "guess")) 5 success db

processed_test : (receive secret secret 5 success db).0 ≡ WebhookResponse.processed
unfolding receive is_authentic valid_secret text_eq receive_application find_application
    reconcile_event
processed_test = refl

receive-Reconciled_example :
    (uuid : Text) × (b : Build) × (r : Resource) × (success.application_uuid ≡ some uuid)
    × Joined uuid (b, r)
    × Reconciled 5 success b r db (receive secret secret 5 success db).1
receive-Reconciled_example = receive-Reconciled secret secret 5 success db processed_test
