-- ===== src/PlatformDeployments/Refresh.antt =====
-- `refreshPlatformDeployment`, `listPlatformDeployments` and `getPlatformDeployment` of
-- src/services/operations/platformDeploymentService.ts.
use qubit_hosting_panel.Common.{
  ℕ, ◌+◌, Bool, true, false, not, ◌&&◌, Option, none, some, List, [], ◌∷◌, ◌++◌, ◌==◌, ltb, leb,
  or_else, coalesce, map, take, is_some, if◌then◌else◌,
}
use qubit_hosting_panel.Common.Text.{Text, codes, is_empty}
use qubit_hosting_panel.Common.Table.{find, update_where}
use qubit_hosting_panel.Provisioning.Pass.Actions.{Reply, ok, threw}
use qubit_hosting_panel.PlatformDeployments.Status.{
  PlatformStatus, is_active, is_completed, normalize_platform_deployment_status,
}
use qubit_hosting_panel.PlatformDeployments.Rows.{PlatformDeployment, bounded_logs, update_row}

-- What the provider says of a deployment; its dates are read as times.
pub record ProviderDeployment : Type 0 where
  pub id : Text
  pub status : Text
  pub logs : Option Text
  pub commit_sha : Option Text
  pub commit_message : Option Text
  pub created_at : Option ℕ
  pub finished_at : Option ℕ
  pub diagnostic_title : Option Text

pub record RefreshAnswers : Type 0 where
  pub now : ℕ
  pub connect : Reply (Unit {0})
  pub fetched : Text → Reply ProviderDeployment
  pub listed : Text → Reply (Option ProviderDeployment)
  pub meanwhile : List PlatformDeployment → List PlatformDeployment
  pub audited : Reply (Unit {0})

-- The action `admin.platform_deployment.${status}`, on the deployment.
pub record Audit : Type 0 where
  pub action : PlatformStatus
  pub resource_id : ℕ
  pub provider_status : Text

pub record Platform : Type 0 where
  pub rows : List PlatformDeployment
  pub audits : List Audit

abbrev pub is_failed : PlatformStatus → Bool
is_failed PlatformStatus.failed = true
is_failed _ = false

abbrev pub by_id : ℕ → PlatformDeployment → Bool
by_id id e = e.id == id

-- `deployment.providerDeploymentId`, which is falsy when it is empty.
abbrev pub known_id : PlatformDeployment → Option Text
known_id d = elim d.provider_deployment_id [
  | none ↦ none
  | some id ↦ if is_empty id then none else some id
]

-- `providerDeployment`
unfoldable pub fetch_deployment :
    RefreshAnswers → PlatformDeployment → Reply (Option ProviderDeployment)
fetch_deployment a d = elim a.connect [
  | threw t ↦ threw t
  | ok u ↦ elim (known_id d) [
    | none ↦ a.listed d.target_application_uuid
    | some id ↦ elim (a.fetched id) [ threw t ↦ threw t | ok p ↦ ok (some p) ]
  ]
]

-- A listed deployment that began more than thirty seconds before the row is another one.
unfoldable pub is_earlier : PlatformDeployment → ProviderDeployment → Bool
is_earlier d p =
    not (is_some (known_id d))
    && elim p.created_at [ none ↦ false | some t ↦ ltb (t + 30000) d.created_at ]

unfoldable pub set_polled :
    (Text → Text)
    → ℕ
    → PlatformDeployment
    → ProviderDeployment
    → PlatformDeployment
    → PlatformDeployment
set_polled sanitize now d p e =
    let status = normalize_platform_deployment_status p.status in
    record e {
      commit_message = p.commit_message;
      commit_sha = p.commit_sha;
      completed_at = if is_completed status then some (or_else p.finished_at now) else none;
      failure_message =
          if is_failed status
          then some (or_else p.diagnostic_title (codes "Deployment failed."))
          else none;
      last_poll_error = none;
      logs = bounded_logs sanitize p.logs;
      provider_deployment_id = some p.id;
      provider_status = some p.status;
      started_at = some (or_else (coalesce d.started_at p.created_at) now);
      status = status;
      updated_at = now;
    }

abbrev pub poll_error : Text
poll_error = codes "Hosting provider status is temporarily unavailable."

abbrev pub set_poll_error : ℕ → PlatformDeployment → PlatformDeployment
set_poll_error now e = record e { last_poll_error = some poll_error; updated_at = now }

module _ (sanitize : Text → Text) (a : RefreshAnswers) where
  -- The `catch`.
  unfoldable pub fail_poll : PlatformDeployment → Platform → Option PlatformDeployment × Platform
  fail_poll d s =
      let rows = update_where (by_id d.id) (set_poll_error a.now) s.rows in
      (find (by_id d.id) rows, record s { rows = rows })

  -- `recordRequiredAdminAuditLog`, awaited in the `try`.
  unfoldable pub audit_deployment :
      Reply (Unit {0})
      → PlatformDeployment
      → ProviderDeployment
      → Platform
      → Option PlatformDeployment × Platform
  audit_deployment (threw t) d p s = fail_poll d s
  audit_deployment (ok u) d p s = (
    find (by_id d.id) s.rows,
    record s {
      audits =
          s.audits
          ++ record {
            action = normalize_platform_deployment_status p.status;
            resource_id = d.id;
            provider_status = p.status;
          }
            ∷ [];
    },
  )

  -- The update, which the index may refuse, and `if (completed)`.
  unfoldable pub store_poll :
      Option (List PlatformDeployment)
      → PlatformDeployment
      → ProviderDeployment
      → Platform
      → Option PlatformDeployment × Platform
  store_poll none d p s = fail_poll d s
  store_poll (some rows) d p s =
      let stored : Platform = record s { rows = rows } in
      if is_completed (normalize_platform_deployment_status p.status)
      then audit_deployment a.audited d p stored
      else (find (by_id d.id) rows, stored)

  unfoldable pub record_poll :
      PlatformDeployment → ProviderDeployment → Platform → Option PlatformDeployment × Platform
  record_poll d p s =
      store_poll
        (update_row d.id (set_polled sanitize a.now d p)
          (is_active (normalize_platform_deployment_status p.status)) s.rows)
        d p s

  -- What follows the provider's answer.
  unfoldable pub apply_poll :
      Reply (Option ProviderDeployment)
      → PlatformDeployment
      → Platform
      → Option PlatformDeployment × Platform
  apply_poll (threw t) d s = fail_poll d s
  apply_poll (ok none) d s = (some d, s)
  apply_poll (ok (some p)) d s = if is_earlier d p then (some d, s) else record_poll d p s

  unfoldable pub refresh_platform_deployment :
      PlatformDeployment → Platform → Option PlatformDeployment × Platform
  refresh_platform_deployment d s =
      if is_active d.status
      then apply_poll (fetch_deployment a d) d (record s { rows = a.meanwhile s.rows })
      else (some d, s)

  -- `if (!rows[0] || !ACTIVE_STATUSES.includes(...)) return rows`, else the first row refreshed.
  unfoldable pub refresh_first :
      List PlatformDeployment → Platform → List (Option PlatformDeployment) × Platform
  refresh_first [] s = ([], s)
  refresh_first (d ∷ rest) s =
      let (refreshed, s') = refresh_platform_deployment d s in
      (refreshed ∷ map (λ e. some e) rest, s')

  unfoldable pub get_row :
      Option PlatformDeployment → Platform → Option PlatformDeployment × Platform
  get_row none s = (none, s)
  get_row (some d) s = refresh_platform_deployment d s

  unfoldable pub get_platform_deployment : ℕ → Platform → Option PlatformDeployment × Platform
  get_platform_deployment id s = get_row (find (λ e. e.id == id && not e.deleted) s.rows) s

-- `orderBy(desc(createdAt))`: insertion, of rows with one time the first before the others.
unfoldable pub insert_newest :
    PlatformDeployment → List PlatformDeployment → List PlatformDeployment
insert_newest d [] = d ∷ []
insert_newest d (e ∷ rows) =
    let later = e ∷ insert_newest d rows in
    if leb e.created_at d.created_at then d ∷ e ∷ rows else later

unfoldable pub newest_first : List PlatformDeployment → List PlatformDeployment
newest_first [] = []
newest_first (d ∷ rows) = insert_newest d (newest_first rows)

abbrev pub live_rows : List PlatformDeployment → List PlatformDeployment
live_rows [] = []
live_rows (d ∷ rows) = if d.deleted then live_rows rows else d ∷ live_rows rows

unfoldable pub list_platform_deployments :
    (Text → Text) → RefreshAnswers → Platform → List (Option PlatformDeployment) × Platform
list_platform_deployments sanitize a s =
    refresh_first sanitize a (take 25 (newest_first (live_rows s.rows))) s
