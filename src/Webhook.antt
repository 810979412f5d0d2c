-- ===== src/Webhook.antt =====
-- src/controllers/CoolifyWebhookController.ts: notifications of the provider. It writes the tables of
-- the provisioning worker.
pub mod Authentic
pub mod Writes
mod Tests
use qubit_hosting_panel.Common.{
  ℕ, Bool, true, false, not, ◌&&◌, ◌||◌, Option, none, some, List, [], ◌∷◌, ◌++◌, ◌==◌, is_id,
  or_else, length, if◌then◌else◌,
}
use qubit_hosting_panel.Common.Text.{Text, text_eq, is_empty}
use qubit_hosting_panel.Common.Table.{find, update_where}
use qubit_hosting_panel.Provisioning.Model.{
  ResourceStatus, Resource, BuildStatus, Build, DeploymentStatus, Deployment, Effect, Db,
}
use qubit_hosting_panel.Provisioning.Pass.Records.{update_build, set_resource_status}

pub data CoolifyEvent : Type 0 where
  deployment_success deployment_failed status_changed test : CoolifyEvent

pub record CoolifyWebhookRequest : Type 0 where
  pub application_uuid : Option Text
  pub deployment_uuid : Option Text
  pub event : CoolifyEvent
  pub message : Text
  pub success : Bool

pub data WebhookResponse : Type 0 where
  not_found verified invalid acknowledged processed : WebhookResponse

-- The texts are the bytes of the two secrets.
unfoldable pub valid_secret : Text → Text → Bool
valid_secret actual expected = length actual == length expected && text_eq actual expected

-- `!expected || !validSecret(actual, expected)`, negated.
unfoldable pub is_authentic : Option Text → Option Text → Bool
is_authentic none actual = false
is_authentic (some expected) actual =
    not (is_empty expected) && valid_secret (or_else actual []) expected

abbrev pub is_test : CoolifyEvent → Bool
is_test CoolifyEvent.test = true
is_test _ = false

abbrev pub is_success_event : CoolifyEvent → Bool
is_success_event CoolifyEvent.deployment_success = true
is_success_event _ = false

abbrev pub is_failure_event : CoolifyEvent → Bool
is_failure_event CoolifyEvent.deployment_failed = true
is_failure_event _ = false

-- `failed`
unfoldable pub has_failed : CoolifyWebhookRequest → Bool
has_failed q = is_failure_event q.event || not q.success

unfoldable pub resource_status_of : CoolifyWebhookRequest → ResourceStatus
resource_status_of q =
    if has_failed q
    then ResourceStatus.failed
    else (if is_success_event q.event then ResourceStatus.running else ResourceStatus.stopped)

-- `undefined` for a change of status without a deployment.
unfoldable pub build_status_of : CoolifyWebhookRequest → Option BuildStatus
build_status_of q =
    if has_failed q
    then some BuildStatus.failed
    else (if is_success_event q.event then some BuildStatus.succeeded else none)

-- `failed ? input.message : null`
abbrev pub failure_reason_of : CoolifyWebhookRequest → Option Text
failure_reason_of q = if has_failed q then some q.message else none

abbrev pub is_resource : Text → Resource → Bool
is_resource uuid r = text_eq r.provider_resource_id uuid && not r.deleted

abbrev pub builds_resource : Resource → Build → Bool
builds_resource r b = is_id b.resource_id r.id && not b.deleted

-- The first row of the join.
unfoldable pub find_application : Text → List Build → List Resource → Option (Build × Resource)
find_application uuid builds [] = none
find_application uuid builds (r ∷ rs) =
    let later = find_application uuid builds rs in
    if is_resource uuid r
    then elim (find (builds_resource r) builds) [ none ↦ later | some b ↦ some (b, r) ]
    else later

abbrev pub is_deployment : ℕ → Text → Deployment → Bool
is_deployment build uuid d =
    d.application_build_id == build
    && elim d.provider_deployment_id [ none ↦ false | some p ↦ text_eq p uuid ]
    && not d.deleted

unfoldable pub set_deployment : ℕ → CoolifyWebhookRequest → Deployment → Deployment
set_deployment now q d = record d {
  status = if has_failed q then DeploymentStatus.failed else DeploymentStatus.running;
  failure_reason = failure_reason_of q;
  completed_at = some now;
}

unfoldable pub write_build : CoolifyWebhookRequest → ℕ → Option BuildStatus → Db → Db
write_build q build none db = db
write_build q build (some status) db =
    update_build (some build)
      (λ b. record b { status = status; failure_reason = failure_reason_of q }) db

unfoldable pub write_deployment : ℕ → CoolifyWebhookRequest → ℕ → Option Text → Db → Db
write_deployment now q build none db = db
write_deployment now q build (some uuid) db = record db {
  deployments = update_where (is_deployment build uuid) (set_deployment now q) db.deployments;
}

-- The transaction, and the event that is published after it.
unfoldable pub apply_event : ℕ → CoolifyWebhookRequest → Build → Resource → Db → Db
apply_event now q b r db =
    let written = write_deployment now q b.id q.deployment_uuid (
      write_build q b.id (build_status_of q)
        (set_resource_status r.id (resource_status_of q) db)) in
    record written { effects = written.effects ++ Effect.publish b.id ∷ [] }

unfoldable pub reconcile_event :
    ℕ → CoolifyWebhookRequest → Option (Build × Resource) → Db → WebhookResponse × Db
reconcile_event now q none db = (WebhookResponse.acknowledged, db)
reconcile_event now q (some (b, r)) db = (WebhookResponse.processed, apply_event now q b r db)

unfoldable pub receive_application :
    ℕ → CoolifyWebhookRequest → Option Text → Db → WebhookResponse × Db
receive_application now q none db = (WebhookResponse.invalid, db)
receive_application now q (some uuid) db =
    reconcile_event now q (find_application uuid db.builds db.resources) db

unfoldable pub receive :
    Option Text → Option Text → ℕ → CoolifyWebhookRequest → Db → WebhookResponse × Db
receive expected actual now q db =
    if is_authentic expected actual
    then (if is_test q.event
        then (WebhookResponse.verified, db)
        else receive_application now q q.application_uuid db)
    else (WebhookResponse.not_found, db)
