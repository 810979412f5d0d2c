-- ===== src/Reconciliation/Owned.antt =====
-- What a run changes of the resources.
use qubit_hosting_panel.Common.{
  Bool, ℕ, ◌≡◌, refl, ap, subst, ◌∙◌, true, not, ◌&&◌, Option, none, some, List, [], ◌∷◌, arith,
  ◌==◌, any, All, All-append, Pointwise, Pointwise-refl, Pointwise-trans, Bool-cases, inl, inr,
}
use qubit_hosting_panel.Common.Text.{Text, trim, is_empty}
use qubit_hosting_panel.Common.Table.{Pointwise-update_where, All-update_rows}
use qubit_hosting_panel.Provisioning.Model.{ResourceStatus, Resource}
use qubit_hosting_panel.Provisioning.Pass.Actions.{Reply, ok, threw}
use qubit_hosting_panel.Reconciliation.Snapshot.{Json, is_clean, identity, present_identity}
use qubit_hosting_panel.Reconciliation.Clean.{sanitize-IsClean}
use qubit_hosting_panel.Reconciliation.Inventory.{
  ImportKind, ImportedResource, Inventory, is_application, set_status,
  reconcile_matched_resource_status, is_import_of, set_observed, observed_row, upsert_import,
  take_status, import_identified, import_item, import_items, is_missing, missing_resources,
  mark_unknown, mark_missing,
}
use qubit_hosting_panel.Reconciliation.Runs.{
  ProviderConnection, ClientOf, Progress, import_kinds, managed_coolify_provider, finish_kind,
  is_opened, reconcile_kind, reconcile_kinds, Reconciled, finished_run,
  reconcile_provider_connection,
}

-- The same resource, of the same workspace and at the same provider, up to its status.
abbrev pub SameOwner : Resource → Resource → Type 0
SameOwner r s = s ≡ record r { status = s.status }

-- A later state of the tables: the resources are the same, and the stored payloads are clean.
pub record Follows (before after : Inventory) : Type 0 where
  pub owned : Pointwise SameOwner before.resources after.resources
  pub clean :
      All (λ i. is_clean i.snapshot ≡ true) before.imported
      → All (λ i. is_clean i.snapshot ≡ true) after.imported

owner-trans : (r s t : Resource) → SameOwner r s → SameOwner s t → SameOwner r t
owner-trans r s t h k = k ∙ ap {A = Resource} (λ x. record x { status = t.status }) h

Follows-refl : (inv : Inventory) → Follows inv inv
Follows-refl inv = record {
  owned = Pointwise-refl SameOwner (λ r. refl) inv.resources;
  clean = λ h. h;
}

Follows-trans : (a b c : Inventory) → Follows a b → Follows b c → Follows a c
Follows-trans a b c h k = record {
  owned = Pointwise-trans SameOwner owner-trans a.resources b.resources c.resources h.owned k.owned;
  clean = λ x. k.clean (h.clean x);
}

reconcile_status-Follows :
    (connection : ℕ) (id : Text) (r : Resource) (status : ResourceStatus) (inv : Inventory)
    → Follows inv (reconcile_matched_resource_status connection id r status inv)
unfolding reconcile_matched_resource_status
reconcile_status-Follows connection id r status inv = record {
  owned =
      Pointwise-update_where SameOwner (λ x. x.id == r.id) (set_status status) inv.resources
        (λ x e. refl) (λ x. refl);
  clean = λ h. h;
}

module _ (sha256 : Json → Text) (string_of : Json → Text) where
  upsert_import-clean :
      (i : ImportedResource) (rows : List ImportedResource)
      → is_clean i.snapshot ≡ true
      → All (λ x. is_clean x.snapshot ≡ true) rows
      → All (λ x. is_clean x.snapshot ≡ true) (upsert_import sha256 string_of i rows)
  unfolding upsert_import
  upsert_import-clean i rows c h =
      elim (Bool-cases (any (is_import_of i.connection_id i.kind i.provider_resource_id) rows)) [
        | inl e ↦ rw e (
            All-update_rows (λ x. is_clean x.snapshot ≡ true) (λ x. is_clean x.snapshot ≡ true)
              (is_import_of i.connection_id i.kind i.provider_resource_id) (set_observed i) rows
              (λ x _ _. c) (λ x _ k. k) h)
        | inr e ↦ rw e (All-append (λ x. is_clean x.snapshot ≡ true) rows (i ∷ []) h (c, tt))
      ]

  take_status-Follows :
      (connection : ℕ) (kind : ImportKind) (id : Text) (o : Option Text) (m : Option Resource)
      (inv : Inventory)
      → Follows inv (take_status sha256 string_of connection kind id o m inv)
  unfolding take_status
  take_status-Follows connection kind id none m inv = Follows-refl inv
  take_status-Follows connection kind id (some status) none inv = Follows-refl inv
  take_status-Follows connection kind id (some status) (some r) inv =
      elim (Bool-cases (is_application kind && not (is_empty (trim status)))) [
        | inl e ↦ rw e (reconcile_status-Follows connection id r _ inv)
        | inr e ↦ rw e (Follows-refl inv)
      ]

  import_identified-Follows :
      (connection : ℕ) (kind : ImportKind) (now : ℕ) (id : Text) (item : Json) (m : Option Resource)
      (inv : Inventory)
      → Follows inv (import_identified sha256 string_of connection kind now id item m inv)
  unfolding import_identified
  import_identified-Follows connection kind now id item m inv =
      let row = observed_row sha256 string_of connection kind id item m now in
      let middle : Inventory = record inv {
        imported = upsert_import sha256 string_of row inv.imported;
      } in
      let first : Follows inv middle = record {
        owned = Pointwise-refl SameOwner (λ r. refl) inv.resources;
        clean = λ h. upsert_import-clean row inv.imported (sanitize-IsClean item).0 h;
      } in
      Follows-trans inv middle _ first (take_status-Follows connection kind id _ m middle)

  import_item-Follows :
      (connection : ℕ) (kind : ImportKind) (now : ℕ) (o : Option Text) (item : Json)
      (observed : List Text) (inv : Inventory)
      → Follows inv (import_item sha256 string_of connection kind now o item observed inv).1
  unfolding import_item
  import_item-Follows connection kind now none item observed inv = Follows-refl inv
  import_item-Follows connection kind now (some id) item observed inv =
      import_identified-Follows connection kind now id item _ inv

  import_items-Follows :
      (connection : ℕ) (kind : ImportKind) (now : ℕ) (items : List Json) (observed : List Text)
      (inv : Inventory)
      → Follows inv (import_items sha256 string_of connection kind now items observed inv).1
  unfolding import_items
  import_items-Follows connection kind now [] observed inv = Follows-refl inv
  import_items-Follows connection kind now (item ∷ items) observed inv =
      let (observed', inv') =
        import_item sha256 string_of connection kind now (present_identity (identity item)) item
          observed inv in
      Follows-trans inv inv' _ (import_item-Follows connection kind now _ item observed inv)
        (import_items-Follows connection kind now items observed' inv')

mark_unknown-Follows :
    (connection : ℕ) (ms : List (Text × Resource)) (inv : Inventory)
    → Follows inv (mark_unknown connection ms inv)
unfolding mark_unknown
mark_unknown-Follows connection [] inv = Follows-refl inv
mark_unknown-Follows connection (m ∷ ms) inv =
    let inv' = reconcile_matched_resource_status connection m.0 m.1 ResourceStatus.unknown inv in
    Follows-trans inv inv' _
      (reconcile_status-Follows connection m.0 m.1 ResourceStatus.unknown inv)
      (mark_unknown-Follows connection ms inv')

mark_missing-Follows :
    (connection : ℕ) (kind : ImportKind) (now : ℕ) (observed : List Text) (inv : Inventory)
    → Follows inv (mark_missing connection kind now observed inv)
unfolding mark_missing
mark_missing-Follows connection kind now observed inv = record {
  owned = Pointwise-refl SameOwner (λ r. refl) inv.resources;
  clean = λ h.
      All-update_rows (λ x. is_clean x.snapshot ≡ true) (λ x. is_clean x.snapshot ≡ true)
        (is_missing connection kind observed) (λ i. record i { missing_since = some now })
        inv.imported (λ x _ k. k) (λ x _ k. k) h;
}

module _ (sha256 : Json → Text) (string_of : Json → Text) where
  finish_kind-Follows :
      (connection : ℕ) (kind : ImportKind) (now : ℕ) (observed : List Text) (inv : Inventory)
      → Follows inv (finish_kind sha256 string_of connection kind now (observed, inv))
  unfolding finish_kind
  finish_kind-Follows connection kind now observed inv = elim (Bool-cases (is_application kind)) [
    | inl e ↦
        let ms = missing_resources connection kind observed inv.imported inv.resources in
        rw e (
          Follows-trans inv (mark_unknown connection ms inv) _
            (mark_unknown-Follows connection ms inv)
            (mark_missing-Follows connection kind now observed (mark_unknown connection ms inv)))
    | inr e ↦ rw e (mark_missing-Follows connection kind now observed inv)
  ]

  reconcile_kind-Follows :
      (connection : ℕ) (kind : ImportKind) (now : ℕ) (reply : Reply (List Json)) (p : Progress)
      → Follows p.inventory (reconcile_kind sha256 string_of connection kind now reply p).inventory
  unfolding reconcile_kind
  reconcile_kind-Follows connection kind now (threw t) p = Follows-refl p.inventory
  reconcile_kind-Follows connection kind now (ok items) p =
      let (observed, inv) =
        import_items sha256 string_of connection kind now items [] p.inventory in
      Follows-trans p.inventory inv _
        (import_items-Follows sha256 string_of connection kind now items [] p.inventory)
        (finish_kind-Follows connection kind now observed inv)

  reconcile_kinds-Follows :
      (connection : ℕ) (kinds : List ImportKind) (now : ℕ) (list : ImportKind → Reply (List Json))
      (p : Progress)
      → Follows p.inventory (reconcile_kinds sha256 string_of connection kinds now list p).inventory
  unfolding reconcile_kinds
  reconcile_kinds-Follows connection [] now list p = Follows-refl p.inventory
  reconcile_kinds-Follows connection (kind ∷ kinds) now list p =
      let p' = reconcile_kind sha256 string_of connection kind now (list kind) p in
      Follows-trans p.inventory p'.inventory _
        (reconcile_kind-Follows connection kind now (list kind) p)
        (reconcile_kinds-Follows connection kinds now list p')

-- The progress of the run of a connection that is there.
abbrev pub progress_of :
    (Json → Text)
    → (Json → Text)
    → ℕ
    → ℕ
    → (ClientOf → ImportKind → Reply (List Json))
    → List ProviderConnection
    → Inventory
    → Progress
progress_of sha256 string_of id now list rows inv =
    reconcile_kinds sha256 string_of id import_kinds now
      (list (managed_coolify_provider (some id) rows))
      (record { inventory = inv; imported_counts = []; failures = [] })

pub reconciled-finished :
    (sha256 string_of : Json → Text) (opens : ℕ → Bool) (id now : ℕ)
    (list : ClientOf → ImportKind → Reply (List Json)) (rows : List ProviderConnection)
    (inv : Inventory) (r : Reconciled)
    → reconcile_provider_connection sha256 string_of opens id now list rows inv ≡ some r
    → finished_run id now rows (progress_of sha256 string_of id now list rows inv) ≡ r
unfolding reconcile_provider_connection
reconciled-finished sha256 string_of opens id now list rows inv r e =
    elim (Bool-cases (
      any (λ c. c.id == id && not c.deleted) rows
      && is_opened opens (managed_coolify_provider (some id) rows))) [
        | inl b ↦ ground (arith, rw b at e)
        | inr b ↦ cc (rw b at e)
      ]

-- A run of the reconciliation adds no resource and removes none, and changes nothing of a resource
-- but its status: neither its workspace nor its place at the provider. The payloads that it stores
-- stay free of keys that name secrets.
pub reconcile_provider_connection-Follows :
    (sha256 string_of : Json → Text) (opens : ℕ → Bool) (id now : ℕ)
    (list : ClientOf → ImportKind → Reply (List Json)) (rows : List ProviderConnection)
    (inv : Inventory) (r : Reconciled)
    → reconcile_provider_connection sha256 string_of opens id now list rows inv ≡ some r
    → Follows inv r.progress.inventory
reconcile_provider_connection-Follows sha256 string_of opens id now list rows inv r e =
    subst (λ x. Follows inv x.progress.inventory)
      (reconciled-finished sha256 string_of opens id now list rows inv r e)
      (reconcile_kinds-Follows sha256 string_of id import_kinds now
        (list (managed_coolify_provider (some id) rows))
        (record { inventory = inv; imported_counts = []; failures = [] }))
