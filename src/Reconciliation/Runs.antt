-- ===== src/Reconciliation/Runs.antt =====
-- src/services/hosting/providerReconciliationService.ts, reconcileProviderConnection, and
-- managedCoolifyProvider of src/services/hosting/providerConnectionService.ts: a run over all kinds.
use qubit_hosting_panel.Common.{
  ℕ, Bool, true, false, not, ◌&&◌, Option, none, some, List, [], ◌∷◌, ◌++◌, ◌==◌, any, length, take,
  if◌then◌else◌,
}
use qubit_hosting_panel.Common.Text.{Text, codes}
use qubit_hosting_panel.Common.Table.{find, update_where}
use qubit_hosting_panel.Provisioning.Pass.Actions.{Reply, Thrown, an_error, a_value, ok, threw}
use qubit_hosting_panel.Reconciliation.Snapshot.{Json}
use qubit_hosting_panel.Reconciliation.Inventory.{
  ImportKind, Inventory, is_application, import_items, missing_resources, mark_unknown,
  mark_missing,
}

pub data ConnectionStatus : Type 0 where
  active disabled unhealthy : ConnectionStatus

pub record ProviderConnection : Type 0 where
  pub id : ℕ
  pub is_default : Bool
  pub status : ConnectionStatus
  pub last_error : Option Text
  pub last_healthy_at : Option ℕ
  pub has_active_token : Bool
  pub deleted : Bool

abbrev pub is_active_connection : ConnectionStatus → Bool
is_active_connection ConnectionStatus.active = true
is_active_connection _ = false

-- The `where` of managedCoolifyProvider, with the join of the active token.
abbrev pub is_managed : Option ℕ → ProviderConnection → Bool
is_managed (some id) c =
    not c.deleted && is_active_connection c.status && c.id == id && c.has_active_token
is_managed none c =
    not c.deleted && is_active_connection c.status && c.is_default && c.has_active_token

-- Whose credentials a provider client has.
pub data ClientOf : Type 0 where
  environment : ClientOf
  connection_client : ℕ → ClientOf

abbrev pub client_of : Option ProviderConnection → ClientOf
client_of none = environment
client_of (some c) = connection_client c.id

-- `managedCoolifyProvider`
unfoldable pub managed_coolify_provider : Option ℕ → List ProviderConnection → ClientOf
managed_coolify_provider id rows = client_of (find (is_managed id) rows)

-- Whether decryptCredential reads the token of the client's connection; else it throws.
abbrev pub is_opened : (ℕ → Bool) → ClientOf → Bool
is_opened opens environment = true
is_opened opens (connection_client id) = opens id

pub record Failure : Type 0 where
  pub kind : ImportKind
  pub message : Text

pub data RunStatus : Type 0 where
  run_succeeded run_failed run_partial : RunStatus

-- What a run has done so far.
pub record Progress : Type 0 where
  pub inventory : Inventory
  pub imported_counts : List (ImportKind × ℕ)
  pub failures : List Failure

abbrev pub import_kinds : List ImportKind
import_kinds =
    ImportKind.server ∷ ImportKind.application ∷ ImportKind.database ∷ ImportKind.service
    ∷ ImportKind.deployment ∷ []

-- `error instanceof Error ? error.message : 'Import failed.'`
abbrev pub import_message : Thrown → Text
import_message (an_error m) = m
import_message a_value = codes "Import failed."

module _ (sha256 : Json → Text) (string_of : Json → Text) where
  -- After the items: the resources of missing applications, then the missing rows.
  unfoldable pub finish_kind : ℕ → ImportKind → ℕ → List Text × Inventory → Inventory
  finish_kind connection kind now (observed, inv) = mark_missing connection kind now observed (
      if is_application kind
      then mark_unknown connection
          (missing_resources connection kind observed inv.imported inv.resources) inv
      else inv)

  -- One kind, whose listing may throw.
  unfoldable pub reconcile_kind : ℕ → ImportKind → ℕ → Reply (List Json) → Progress → Progress
  reconcile_kind connection kind now (threw message) p =
      let failure : Failure = record { kind = kind; message = import_message message } in
      record p { failures = p.failures ++ failure ∷ [] }
  reconcile_kind connection kind now (ok items) p =
      let imported = import_items sha256 string_of connection kind now items [] p.inventory in
      record p {
        inventory = finish_kind connection kind now imported;
        imported_counts = p.imported_counts ++ (kind, length imported.0) ∷ [];
      }

  unfoldable pub reconcile_kinds :
      ℕ → List ImportKind → ℕ → (ImportKind → Reply (List Json)) → Progress → Progress
  reconcile_kinds connection [] now list p = p
  reconcile_kinds connection (kind ∷ kinds) now list p =
      reconcile_kinds connection kinds now list (reconcile_kind connection kind now (list kind) p)

unfoldable pub run_status : ℕ → RunStatus
run_status failures =
    if failures == 0
    then run_succeeded
    else (if failures == length import_kinds then run_failed else run_partial)

abbrev pub kind_name : ImportKind → Text
kind_name ImportKind.server = codes "server"
kind_name ImportKind.application = codes "application"
kind_name ImportKind.database = codes "database"
kind_name ImportKind.service = codes "service"
kind_name ImportKind.deployment = codes "deployment"

-- `failures.map(...).join('; ')`
abbrev pub failure_text : List Failure → Text
failure_text [] = []
failure_text (f ∷ []) = kind_name f.kind ++ codes ": " ++ f.message
failure_text (f ∷ g ∷ fs) =
    kind_name f.kind ++ codes ": " ++ f.message ++ codes "; " ++ failure_text (g ∷ fs)

-- The update of the connection at the end.
unfoldable pub set_health : ℕ → List Failure → ProviderConnection → ProviderConnection
set_health now failures c = record c {
  last_error = if length failures == 0 then none else some (take 2000 (failure_text failures));
  last_healthy_at = if length failures == 0 then some now else c.last_healthy_at;
  status =
      if length failures == length import_kinds
      then ConnectionStatus.unhealthy
      else ConnectionStatus.active;
}

pub record Reconciled : Type 0 where
  pub run : RunStatus
  pub progress : Progress
  pub connections : List ProviderConnection

-- The updates of the run and of the connection.
abbrev pub finished_run : ℕ → ℕ → List ProviderConnection → Progress → Reconciled
finished_run id now rows done = record {
  run = run_status (length done.failures);
  progress = done;
  connections = update_where (λ c. c.id == id) (set_health now done.failures) rows;
}

module _ (sha256 : Json → Text) (string_of : Json → Text) where
  -- `reconcileProviderConnection`, where `list` is the inventory that a client is given and `opens` tells
  -- whose token is read; `none` is a thrown error.
  unfoldable pub reconcile_provider_connection :
      (ℕ → Bool)
      → ℕ
      → ℕ
      → (ClientOf → ImportKind → Reply (List Json))
      → List ProviderConnection
      → Inventory
      → Option Reconciled
  reconcile_provider_connection opens id now list rows inv =
      let client = managed_coolify_provider (some id) rows in
      let start : Progress = record { inventory = inv; imported_counts = []; failures = [] } in
      let done = reconcile_kinds sha256 string_of id import_kinds now (list client) start in
      if any (λ c. c.id == id && not c.deleted) rows && is_opened opens client
      then some (finished_run id now rows done)
      else none
