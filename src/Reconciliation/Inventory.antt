-- ===== src/Reconciliation/Inventory.antt =====
-- src/services/hosting/providerReconciliationService.ts: the resources of one kind are imported, and
-- those that the provider no longer lists are marked.
use qubit_hosting_panel.Common.{
  ℕ, Bool, true, false, not, ◌&&◌, Option, none, some, List, [], ◌∷◌, ◌++◌, ◌==◌, any, is_some,
  if◌then◌else◌,
}
use qubit_hosting_panel.Common.Text.{Text, codes, text_eq, trim, is_empty}
use qubit_hosting_panel.Common.Table.{find, update_where}
use qubit_hosting_panel.Provisioning.Model.{ResourceStatus, Resource}
use qubit_hosting_panel.Reconciliation.Snapshot.{
  Json, string, sanitize, property, identity, present_identity, as_string,
  provider_workspace_resource_status,
}

pub data ImportKind : Type 0 where
  server application database service deployment : ImportKind

abbrev pub kind_eq : ImportKind → ImportKind → Bool
kind_eq ImportKind.server ImportKind.server = true
kind_eq ImportKind.application ImportKind.application = true
kind_eq ImportKind.database ImportKind.database = true
kind_eq ImportKind.service ImportKind.service = true
kind_eq ImportKind.deployment ImportKind.deployment = true
kind_eq _ _ = false

abbrev pub is_application : ImportKind → Bool
is_application ImportKind.application = true
is_application _ = false

pub record ImportedResource : Type 0 where
  pub connection_id : ℕ
  pub kind : ImportKind
  pub provider_resource_id : Text
  pub name : Text
  pub status : Option Text
  pub payload_hash : Text
  pub snapshot : Json
  pub matched_workspace_resource_id : Option ℕ
  pub last_observed_at : ℕ
  pub missing_since : Option ℕ
  pub deleted : Bool

-- The audit entry of a change of status.
pub record StatusChange : Type 0 where
  pub connection_id : ℕ
  pub resource_id : ℕ
  pub provider_resource_id : Text
  pub previous_status : ResourceStatus
  pub new_status : ResourceStatus

pub record Inventory : Type 0 where
  pub resources : List Resource
  pub imported : List ImportedResource
  pub changes : List StatusChange

abbrev pub status_eq : ResourceStatus → ResourceStatus → Bool
status_eq ResourceStatus.provisioning ResourceStatus.provisioning = true
status_eq ResourceStatus.running ResourceStatus.running = true
status_eq ResourceStatus.stopped ResourceStatus.stopped = true
status_eq ResourceStatus.failed ResourceStatus.failed = true
status_eq ResourceStatus.unknown ResourceStatus.unknown = true
status_eq _ _ = false

abbrev pub set_status : ResourceStatus → Resource → Resource
set_status status r = record r { status = status }

-- `reconcileMatchedResourceStatus`
unfoldable pub reconcile_matched_resource_status :
    ℕ → Text → Resource → ResourceStatus → Inventory → Inventory
reconcile_matched_resource_status connection provider_id r status inv =
    let change : StatusChange = record {
      connection_id = connection;
      resource_id = r.id;
      provider_resource_id = provider_id;
      previous_status = r.status;
      new_status = status;
    } in
    record inv {
      resources = update_where (λ x. x.id == r.id) (set_status status) inv.resources;
      changes = if status_eq status r.status then inv.changes else inv.changes ++ change ∷ [];
    }

abbrev pub is_matched : Text → Resource → Bool
is_matched provider_id r = text_eq r.provider_resource_id provider_id && not r.deleted

-- The target of the upsert.
abbrev pub is_import_of : ℕ → ImportKind → Text → ImportedResource → Bool
is_import_of connection kind provider_id i =
    i.connection_id == connection
    && kind_eq i.kind kind
    && text_eq i.provider_resource_id provider_id
    && not i.deleted

abbrev pub matched_id : Option Resource → Option ℕ
matched_id none = none
matched_id (some r) = some r.id

-- The `set` of the upsert.
abbrev pub set_observed : ImportedResource → ImportedResource → ImportedResource
set_observed i x = record x {
  name = i.name;
  status = i.status;
  payload_hash = i.payload_hash;
  snapshot = i.snapshot;
  matched_workspace_resource_id = i.matched_workspace_resource_id;
  last_observed_at = i.last_observed_at;
  missing_since = none;
}

-- `String(item.name ?? item.fqdn ?? providerResourceId)`, where a null is absent.
abbrev pub present : Option Json → Option Json
present (some Json.null) = none
present o = o

abbrev pub name_json : Option Json → Option Json → Text → Json
name_json (some j) o id = j
name_json none (some j) id = j
name_json none none id = string id

module _ (sha256 : Json → Text) (string_of : Json → Text) where
  abbrev pub observed_row : ℕ → ImportKind → Text → Json → Option Resource → ℕ → ImportedResource
  observed_row connection kind provider_id item matched now = record {
    connection_id = connection;
    kind = kind;
    provider_resource_id = provider_id;
    name = string_of (
        name_json (present (property (codes "name") item)) (present (property (codes "fqdn") item))
          provider_id);
    status = as_string (property (codes "status") item);
    payload_hash = sha256 (sanitize item);
    snapshot = sanitize item;
    matched_workspace_resource_id = matched_id matched;
    last_observed_at = now;
    missing_since = none;
    deleted = false;
  }

  -- `insert ... on conflict do update`
  unfoldable pub upsert_import : ImportedResource → List ImportedResource → List ImportedResource
  upsert_import i rows =
      if any (is_import_of i.connection_id i.kind i.provider_resource_id) rows
      then update_where (is_import_of i.connection_id i.kind i.provider_resource_id)
          (set_observed i) rows
      else rows ++ i ∷ []

  -- The status of an application is taken over where the item has one.
  unfoldable pub take_status :
      ℕ → ImportKind → Text → Option Text → Option Resource → Inventory → Inventory
  take_status connection kind provider_id (some status) (some r) inv =
      if is_application kind && not (is_empty (trim status))
      then reconcile_matched_resource_status connection provider_id r
          (provider_workspace_resource_status status) inv
      else inv
  take_status connection kind provider_id none matched inv = inv
  take_status connection kind provider_id (some status) none inv = inv

  unfoldable pub import_identified :
      ℕ → ImportKind → ℕ → Text → Json → Option Resource → Inventory → Inventory
  import_identified connection kind now provider_id item matched inv =
      take_status connection kind provider_id (as_string (property (codes "status") item)) matched
        (record inv {
          imported =
              upsert_import (observed_row connection kind provider_id item matched now)
                inv.imported;
        })

  -- One item of the list; one without an identity is skipped.
  unfoldable pub import_item :
      ℕ → ImportKind → ℕ → Option Text → Json → List Text → Inventory → List Text × Inventory
  import_item connection kind now none item observed inv = (observed, inv)
  import_item connection kind now (some provider_id) item observed inv = (
    observed ++ provider_id ∷ [],
    import_identified connection kind now provider_id item
        (find (is_matched provider_id) inv.resources) inv,
  )

  unfoldable pub import_items :
      ℕ → ImportKind → ℕ → List Json → List Text → Inventory → List Text × Inventory
  import_items connection kind now [] observed inv = (observed, inv)
  import_items connection kind now (item ∷ items) observed inv =
      let (observed', inv') =
        import_item connection kind now (present_identity (identity item)) item observed inv in
      import_items connection kind now items observed' inv'

-- `baseMissing`, and not among the observed.
abbrev pub is_missing : ℕ → ImportKind → List Text → ImportedResource → Bool
is_missing connection kind observed i =
    i.connection_id == connection
    && kind_eq i.kind kind
    && not i.deleted
    && not (is_some i.missing_since)
    && not (any (λ t. text_eq t i.provider_resource_id) observed)

-- The inner join with the resources.
abbrev pub joined : ImportedResource → List Resource → Option Resource
joined i rows = elim i.matched_workspace_resource_id [
  | none ↦ none
  | some id ↦ find (λ r. r.id == id && not r.deleted) rows
]

-- The rows that the select finds: an import with its resource.
unfoldable pub missing_resources :
    ℕ → ImportKind → List Text → List ImportedResource → List Resource → List (Text × Resource)
missing_resources connection kind observed [] rows = []
missing_resources connection kind observed (i ∷ is) rows =
    let rest = missing_resources connection kind observed is rows in
    if is_missing connection kind observed i
    then elim (joined i rows) [ none ↦ rest | some r ↦ (i.provider_resource_id, r) ∷ rest ]
    else rest

unfoldable pub mark_unknown : ℕ → List (Text × Resource) → Inventory → Inventory
mark_unknown connection [] inv = inv
mark_unknown connection (m ∷ ms) inv =
    mark_unknown connection ms
      (reconcile_matched_resource_status connection m.0 m.1 ResourceStatus.unknown inv)

unfoldable pub mark_missing : ℕ → ImportKind → ℕ → List Text → Inventory → Inventory
mark_missing connection kind now observed inv = record inv {
  imported =
      update_where (is_missing connection kind observed)
        (λ i. record i { missing_since = some now }) inv.imported;
}
