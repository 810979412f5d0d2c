-- ===== src/PlatformDeployments/Start.antt =====
-- `startPlatformDeployment` of src/services/operations/platformDeploymentService.ts.
use qubit_hosting_panel.Common.{
  ℕ, true, false, Option, none, some, List, [], ◌∷◌, ◌++◌, ◌==◌, any, take, if◌then◌else◌,
}
use qubit_hosting_panel.Common.Text.{Text, codes}
use qubit_hosting_panel.Common.Table.{find, update_where}
use qubit_hosting_panel.Provisioning.Pass.Actions.{Reply, ok, threw, Thrown, an_error, a_value}
use qubit_hosting_panel.PlatformDeployments.Status.{PlatformStatus}
use qubit_hosting_panel.PlatformDeployments.Rows.{
  PlatformDeployment, target_application_uuid_of, bounded_logs, holds_target, update_row,
}

-- What a call gets from outside: the setting, the answers of the database and of the provider, and
-- the writes of other processes between the select, the insert and the update.
pub record StartAnswers : Type 0 where
  pub configured : Option Text
  pub requested_by : ℕ
  pub now : ℕ
  pub new_id : ℕ
  pub before_insert : List PlatformDeployment → List PlatformDeployment
  pub inserted : Reply (Unit {0})
  pub before_update : List PlatformDeployment → List PlatformDeployment
  pub requested : Reply (Option Text)

pub data StartResult : Type 0 where
  started : Option PlatformDeployment → StartResult
  refused : Text → StartResult
  insert_failed : Thrown → StartResult
  request_failed : Text → Option PlatformDeployment → StartResult

abbrev pub new_deployment : StartAnswers → Text → PlatformDeployment
new_deployment a target = record {
  id = a.new_id;
  target_application_uuid = target;
  provider_deployment_id = none;
  requested_by_user_id = a.requested_by;
  status = PlatformStatus.queued;
  provider_status = none;
  commit_sha = none;
  commit_message = none;
  logs = [];
  failure_message = none;
  last_poll_error = none;
  started_at = none;
  completed_at = none;
  created_at = a.now;
  updated_at = a.now;
  deleted = false;
}

abbrev pub set_requested : ℕ → Option Text → PlatformDeployment → PlatformDeployment
set_requested now id d = record d {
  provider_deployment_id = id;
  provider_status = some (codes "requested");
  started_at = some now;
  status = PlatformStatus.running;
  updated_at = now;
}

abbrev pub set_request_failed : ℕ → Text → PlatformDeployment → PlatformDeployment
set_request_failed now message d = record d {
  completed_at = some now;
  failure_message = some message;
  provider_status = some (codes "request_failed");
  status = PlatformStatus.failed;
  updated_at = now;
}

-- `error instanceof Error ? error.message : 'Deployment request failed.'`, sanitized and cut.
unfoldable pub failure_of : (Text → Text) → Thrown → Text
failure_of sanitize (an_error m) = take 500 (bounded_logs sanitize (some m))
failure_of sanitize a_value =
    take 500 (bounded_logs sanitize (some (codes "Deployment request failed.")))

module _ (sanitize : Text → Text) (a : StartAnswers) where
  -- The `catch` around the request.
  unfoldable pub fail_request :
      Thrown → List PlatformDeployment → StartResult × List PlatformDeployment
  fail_request t rows =
      let message = failure_of sanitize t in
      let rows' = update_where (λ e. e.id == a.new_id) (set_request_failed a.now message) rows in
      (request_failed message (find (λ e. e.id == a.new_id) rows'), rows')

  -- The update, which the index may refuse.
  unfoldable pub store_request :
      Option (List PlatformDeployment)
      → List PlatformDeployment
      → StartResult × List PlatformDeployment
  store_request none rows = fail_request (an_error (codes "duplicate key")) rows
  store_request (some rows') rows = (started (find (λ e. e.id == a.new_id) rows'), rows')

  -- The request of a row that is inserted, with the provider's answer.
  unfoldable pub request_deployment :
      Reply (Option Text) → List PlatformDeployment → StartResult × List PlatformDeployment
  request_deployment (threw t) rows = fail_request t rows
  request_deployment (ok id) rows =
      store_request (update_row a.new_id (set_requested a.now id) true rows) rows

  -- The insert, whose unique violation has the message of the select.
  unfoldable pub insert_deployment :
      Text → Reply (Unit {0}) → List PlatformDeployment → StartResult × List PlatformDeployment
  insert_deployment target (threw t) rows = (insert_failed t, rows)
  insert_deployment target (ok u) rows =
      if any (holds_target target) rows
      then (refused (codes "A platform deployment is already active."), rows)
      else request_deployment a.requested (a.before_update (rows ++ new_deployment a target ∷ []))

  unfoldable pub start_target :
      Option Text → List PlatformDeployment → StartResult × List PlatformDeployment
  start_target none rows = (refused (codes "Platform deployment target is not configured."), rows)
  start_target (some target) rows =
      if any (holds_target target) rows
      then (refused (codes "A platform deployment is already active."), rows)
      else insert_deployment target a.inserted (a.before_insert rows)

  unfoldable pub start_platform_deployment :
      List PlatformDeployment → StartResult × List PlatformDeployment
  start_platform_deployment = start_target (target_application_uuid_of a.configured)
