-- ===== src/Reconciliation/Tests.antt =====
-- One application of a provider, and a provider that cannot be reached.
use qubit_hosting_panel.Common.{
  ◌≡◌, refl, true, false, Option, none, some, List, [], ◌∷◌, All, length,
}
use qubit_hosting_panel.Common.Text.{
  Text, codes, trim, trim_start, trim_end, is_space, to_lower, contains, starts_with,
}
use qubit_hosting_panel.Provisioning.Model.{HostingProvider, ResourceStatus, Resource}
use qubit_hosting_panel.Provisioning.Pass.Actions.{Reply, an_error, ok, threw}
use qubit_hosting_panel.Reconciliation.Snapshot.{
  Json, string, object, no_fields, field, provider_workspace_resource_status,
}
use qubit_hosting_panel.Reconciliation.Inventory.{ImportKind, Inventory, import_items}
use qubit_hosting_panel.Reconciliation.Runs.{
  ConnectionStatus, ProviderConnection, ClientOf, environment, managed_coolify_provider,
  finish_kind, reconcile_kind, reconcile_kinds, import_kinds, Reconciled, finished_run,
  reconcile_provider_connection,
}
use qubit_hosting_panel.Reconciliation.Owned.{
  Follows, progress_of, reconcile_provider_connection-Follows,
}
use qubit_hosting_panel.Reconciliation.Fallback.{failed_run_uses_environment}
use qubit_hosting_panel.Reconciliation.Missing.{Current, finish_kind-Current}

abbrev payload : Json
payload = object (
    field (codes "uuid") (string (codes "u1")) (
      field (codes "status") (string (codes "exited:unhealthy"))
        (field (codes "api_token") (string (codes "x")) no_fields)))

abbrev hash : Json → Text
hash j = []

abbrev shown : Json → Text
shown (string s) = s
shown _ = []

abbrev application : Resource
application = record {
  id = 3;
  workspace_id = 9;
  provisioning_job_id = none;
  provider = HostingProvider.coolify;
  name = codes "app";
  provider_resource_id = codes "u1";
  status = ResourceStatus.running;
  public_url = none;
  deleted = false;
}

abbrev inventory : Inventory
inventory = record { resources = application ∷ []; imported = []; changes = [] }

abbrev connection : ProviderConnection
connection = record {
  id = 1;
  is_default = true;
  status = ConnectionStatus.active;
  last_error = none;
  last_healthy_at = none;
  has_active_token = true;
  deleted = false;
}

abbrev lists : ClientOf → ImportKind → Reply (List Json)
lists client ImportKind.application = ok (payload ∷ [])
lists client _ = ok []

abbrev unreachable : ClientOf → ImportKind → Reply (List Json)
unreachable client kind = threw (an_error (codes "no"))

abbrev run : Option Reconciled
run = reconcile_provider_connection hash shown (λ n. true) 1 1000 lists (connection ∷ []) inventory

abbrev failed_run : Option Reconciled
failed_run =
    reconcile_provider_connection hash shown (λ n. true) 1 1000 unreachable (connection ∷ [])
      inventory

abbrev finished : (ClientOf → ImportKind → Reply (List Json)) → Reconciled
finished list =
    finished_run 1 1000 (connection ∷ [])
      (progress_of hash shown 1 1000 list (connection ∷ []) inventory)

run_test : run ≡ some (finished lists)
unfolding reconcile_provider_connection managed_coolify_provider
run_test = refl

failed_run_test : failed_run ≡ some (finished unreachable)
unfolding reconcile_provider_connection managed_coolify_provider
failed_run_test = refl

failures_test : length (finished unreachable).progress.failures ≡ length import_kinds
unfolding reconcile_kinds reconcile_kind managed_coolify_provider
failures_test = refl

status_test :
    (provider_workspace_resource_status (codes " Running:healthy ") ≡ ResourceStatus.running)
    × (provider_workspace_resource_status (codes "running:unhealthy") ≡ ResourceStatus.failed)
unfolding provider_workspace_resource_status trim trim_start trim_end is_space to_lower contains
    starts_with
status_test = (refl, refl)

reconcile_provider_connection-Follows_example :
    Follows inventory (finished lists).progress.inventory
reconcile_provider_connection-Follows_example =
    reconcile_provider_connection-Follows hash shown (λ n. true) 1 1000 lists (connection ∷ [])
      inventory (finished lists) run_test

failed_run_uses_environment_example :
    reconcile_provider_connection hash shown
      (λ n. true)
      1
      2000
      lists
      (finished unreachable).connections
      inventory
    ≡ reconcile_provider_connection hash shown
        (λ n. true)
        1
        2000
        (λ _. lists environment)
        (finished unreachable).connections
        inventory
failed_run_uses_environment_example =
    failed_run_uses_environment hash shown (λ n. true) 1 1000 2000 unreachable lists
      (connection ∷ []) inventory inventory (finished unreachable) failed_run_test failures_test

finish_kind-Current_example :
    All
      (Current 1 ImportKind.application
        (import_items hash shown 1 ImportKind.application 1000 (payload ∷ []) [] inventory).0)
      (finish_kind hash shown 1 ImportKind.application 1000 (
        import_items hash shown 1 ImportKind.application 1000 (payload ∷ []) [] inventory)).imported
finish_kind-Current_example =
    finish_kind-Current hash shown 1 ImportKind.application 1000 (payload ∷ []) inventory
