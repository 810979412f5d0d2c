-- ===== src/PlatformDeployments/Tests.antt =====
-- A deployment that is started, polled and ends.
use qubit_hosting_panel.Common.{ℕ, ◌≡◌, refl, true, false, none, some, [], ◌∷◌, arith, All}
use qubit_hosting_panel.Common.Text.{Text, codes, contains, to_lower, trim}
use qubit_hosting_panel.Provisioning.Pass.Actions.{Reply, ok, threw, an_error}
use qubit_hosting_panel.PlatformDeployments.Status.{
  PlatformStatus, is_completed, normalize_platform_deployment_status,
}
use qubit_hosting_panel.PlatformDeployments.Rows.{
  PlatformDeployment, target_application_uuid_of, update_row,
}
use qubit_hosting_panel.PlatformDeployments.Start.{
  StartAnswers, start_target, insert_deployment, request_deployment, store_request,
  start_platform_deployment,
}
use qubit_hosting_panel.PlatformDeployments.Refresh.{
  ProviderDeployment, RefreshAnswers, Platform, refresh_platform_deployment, is_earlier,
  fetch_deployment,
}
use qubit_hosting_panel.PlatformDeployments.Exclusive.{IsExclusive}
use qubit_hosting_panel.PlatformDeployments.History.{
  start, refresh, perform_calls, perform_calls-IsExclusive,
}
use qubit_hosting_panel.PlatformDeployments.Polls.{IsSound, refresh-IsSound}

abbrev unchanged : Text → Text
unchanged s = s

abbrev start_at : ℕ → ℕ → StartAnswers
start_at n id = record {
  configured = some (codes " panel-1 ");
  requested_by = 7;
  now = n;
  new_id = id;
  before_insert = λ rows. rows;
  inserted = ok tt;
  before_update = λ rows. rows;
  requested = ok (some (codes "dep-1"));
}

abbrev row : PlatformDeployment
row = record {
  id = 1;
  target_application_uuid = codes "panel-1";
  provider_deployment_id = some (codes "dep-1");
  requested_by_user_id = 7;
  status = PlatformStatus.running;
  provider_status = some (codes "requested");
  commit_sha = none;
  commit_message = none;
  logs = [];
  failure_message = none;
  last_poll_error = none;
  started_at = some 1000;
  completed_at = none;
  created_at = 1000;
  updated_at = 1000;
  deleted = false;
}

abbrev ended_deployment : ProviderDeployment
ended_deployment = record {
  id = codes "dep-1";
  status = codes "Finished";
  logs = some (codes "done");
  commit_sha = none;
  commit_message = none;
  created_at = some 1500;
  finished_at = some 9000;
  diagnostic_title = none;
}

abbrev poll_with : Reply (Unit {0}) → RefreshAnswers
poll_with audited = record {
  now = 10000;
  connect = ok tt;
  fetched = λ id. ok ended_deployment;
  listed = λ target. ok none;
  meanwhile = λ rows. rows;
  audited = audited;
}

abbrev empty_platform : Platform
empty_platform = record { rows = []; audits = [] }

start_test : (start_platform_deployment unchanged (start_at 1000 1) []).1 ≡ row ∷ []
unfolding start_platform_deployment start_target target_application_uuid_of trim insert_deployment
    request_deployment store_request update_row
start_test = refl

normalize_test :
    normalize_platform_deployment_status (codes "Build FAILED with success") ≡ PlatformStatus.failed
unfolding normalize_platform_deployment_status contains to_lower
normalize_test = refl

perform_calls-IsExclusive_example :
    IsExclusive
      (perform_calls unchanged
        (start (start_at 1000 1) ∷ refresh (poll_with (ok tt)) row ∷ start (start_at 20000 2) ∷ [])
        empty_platform).rows
perform_calls-IsExclusive_example =
    perform_calls-IsExclusive unchanged
      (start (start_at 1000 1) ∷ refresh (poll_with (ok tt)) row ∷ start (start_at 20000 2) ∷ [])
      empty_platform ((λ rows h. h, λ rows h. h), (λ rows h. h, ((λ rows h. h, λ rows h. h), tt)))
      (record { owner = λ t. (0, tt) })

refresh-IsSound_example :
    All IsSound
      (refresh_platform_deployment unchanged
        (poll_with (ok tt))
        row
        (record { rows = row ∷ []; audits = [] })).1.rows
refresh-IsSound_example =
    refresh-IsSound unchanged (poll_with (ok tt)) row (record { rows = row ∷ []; audits = [] })
      (λ rows h. h) (record { short = omega arith; ended = refl; explained = λ e. cc }, tt)

ended_test : is_completed (normalize_platform_deployment_status (codes "Finished")) ≡ true
unfolding normalize_platform_deployment_status contains to_lower
ended_test = refl

fetch_test :
    fetch_deployment (poll_with (threw (an_error (codes "full")))) row ≡ ok (some ended_deployment)
unfolding fetch_deployment
fetch_test = refl

newer_test : is_earlier row ended_deployment ≡ false
unfolding is_earlier
newer_test = refl
