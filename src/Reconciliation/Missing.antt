-- ===== src/Reconciliation/Missing.antt =====
-- Which imports are marked as missing.
use qubit_hosting_panel.Common.{
  ℕ, ◌≡◌, refl, sym, ◌∙◌, subst, Bool, true, false, not, ◌&&◌, Option, none, some, List, [], ◌∷◌,
  ◌++◌, arith, ◌==◌, any, All, All-append, is_some, Bool-cases, inl, inr,
}
use qubit_hosting_panel.Common.Text.{Text, text_eq, text_eq_sym, trim, is_empty}
use qubit_hosting_panel.Common.Table.{All-update_rows, any-append}
use qubit_hosting_panel.Provisioning.Model.{ResourceStatus, Resource}
use qubit_hosting_panel.Reconciliation.Snapshot.{Json, identity, present_identity}
use qubit_hosting_panel.Reconciliation.Inventory.{
  ImportKind, kind_eq, ImportedResource, Inventory, is_application, is_import_of, set_observed,
  observed_row, upsert_import, take_status, reconcile_matched_resource_status, import_identified,
  import_item, import_items, is_missing, missing_resources, mark_unknown, mark_missing,
}
use qubit_hosting_panel.Reconciliation.Runs.{finish_kind}

abbrev pub in_scope : ℕ → ImportKind → ImportedResource → Bool
in_scope connection kind i = i.connection_id == connection && kind_eq i.kind kind && not i.deleted

abbrev pub is_observed : List Text → ImportedResource → Bool
is_observed observed i = any (λ t. text_eq t i.provider_resource_id) observed

-- A row that the list has is not missing.
abbrev pub Seen : ℕ → ImportKind → List Text → ImportedResource → Type 0
Seen connection kind observed i =
    in_scope connection kind i ≡ true
    → is_observed observed i ≡ true
    → is_some i.missing_since ≡ false

-- A row is missing exactly where the list lacks it.
abbrev pub Current : ℕ → ImportKind → List Text → ImportedResource → Type 0
Current connection kind observed i =
    in_scope connection kind i ≡ true → is_some i.missing_since ≡ not (is_observed observed i)

mark_missing-Current :
    (connection : ℕ) (kind : ImportKind) (now : ℕ) (observed : List Text) (inv : Inventory)
    → All (Seen connection kind observed) inv.imported
    → All
        (Current connection kind observed)
        (mark_missing connection kind now observed inv).imported
unfolding mark_missing
mark_missing-Current connection kind now observed inv h =
    All-update_rows (Seen connection kind observed) (Current connection kind observed)
      (is_missing connection kind observed) (λ i. record i { missing_since = some now })
      inv.imported (λ i m s e. ground (arith, m)) (λ i m s e. ground (arith, m, s, e)) h

module _ (connection : ℕ) (kind : ImportKind) (id : Text) (observed : List Text) where
  -- A row of another identity, when the identity joins the list.
  other-Seen :
      (i : ImportedResource)
      → is_import_of connection kind id i ≡ false
      → Seen connection kind observed i
      → Seen connection kind (observed ++ id ∷ []) i
  other-Seen i n s e o = s e (
      ground (
        arith,
        n,
        e,
        o,
        text_eq_sym i.provider_resource_id id,
        any-append (λ t. text_eq t i.provider_resource_id) observed (id ∷ []),
      ))

  others-Seen :
      (rows : List ImportedResource)
      → any (is_import_of connection kind id) rows ≡ false
      → All (Seen connection kind observed) rows
      → All (Seen connection kind (observed ++ id ∷ [])) rows
  others-Seen [] n h = tt
  others-Seen (i ∷ rows) n h =
      (other-Seen i (ground (arith, n)) h.0, others-Seen rows (ground (arith, n)) h.1)

module _ (sha256 : Json → Text) (string_of : Json → Text) (connection : ℕ) (kind : ImportKind) where
  upsert-Seen :
      (item : Json) (m : Option Resource) (now : ℕ) (id : Text) (observed : List Text)
      (rows : List ImportedResource)
      → All (Seen connection kind observed) rows
      → All (Seen connection kind (observed ++ id ∷ [])) (
          upsert_import sha256 string_of
            (observed_row sha256 string_of connection kind id item m now)
            rows)
  unfolding upsert_import
  upsert-Seen item m now id observed rows h =
      elim (Bool-cases (any (is_import_of connection kind id) rows)) [
        | inl x ↦ rw x (
            All-update_rows (Seen connection kind observed)
              (Seen connection kind (observed ++ id ∷ [])) (is_import_of connection kind id)
              (set_observed (observed_row sha256 string_of connection kind id item m now)) rows
              (λ i _ _ _ _. refl) (λ i n s. other-Seen connection kind id observed i n s) h)
        | inr x ↦ rw x (
            All-append (Seen connection kind (observed ++ id ∷ [])) rows _
              (others-Seen connection kind id observed rows x h) (λ _ _. refl, tt))
      ]

reconciled-imported :
    (connection : ℕ) (id : Text) (r : Resource) (status : ResourceStatus) (inv : Inventory)
    → (reconcile_matched_resource_status connection id r status inv).imported ≡ inv.imported
unfolding reconcile_matched_resource_status
reconciled-imported connection id r status inv = refl

module _ (sha256 : Json → Text) (string_of : Json → Text) (connection : ℕ) (kind : ImportKind) where
  take_status-imported :
      (id : Text) (o : Option Text) (m : Option Resource) (inv : Inventory)
      → (take_status sha256 string_of connection kind id o m inv).imported ≡ inv.imported
  unfolding take_status
  take_status-imported id none m inv = refl
  take_status-imported id (some status) none inv = refl
  take_status-imported id (some status) (some r) inv =
      elim (Bool-cases (is_application kind && not (is_empty (trim status)))) [
        | inl e ↦ rw e (reconciled-imported connection id r _ inv)
        | inr e ↦ rw e refl
      ]

  import_item-Seen :
      (now : ℕ) (o : Option Text) (item : Json) (observed : List Text) (inv : Inventory)
      → All (Seen connection kind observed) inv.imported
      → All
          (Seen connection kind
            (import_item sha256 string_of connection kind now o item observed inv).0)
          (import_item sha256 string_of connection kind now o item observed inv).1.imported
  unfolding import_item import_identified
  import_item-Seen now none item observed inv h = h
  import_item-Seen now (some id) item observed inv h =
      subst (All (Seen connection kind (observed ++ id ∷ []))) (sym (take_status-imported id _ _ _))
        (upsert-Seen sha256 string_of connection kind item _ now id observed inv.imported h)

  import_items-Seen :
      (now : ℕ) (items : List Json) (observed : List Text) (inv : Inventory)
      → All (Seen connection kind observed) inv.imported
      → All
          (Seen connection kind
            (import_items sha256 string_of connection kind now items observed inv).0)
          (import_items sha256 string_of connection kind now items observed inv).1.imported
  unfolding import_items
  import_items-Seen now [] observed inv h = h
  import_items-Seen now (item ∷ items) observed inv h =
      let next =
        import_item sha256 string_of connection kind now (present_identity (identity item)) item
          observed inv in
      import_items-Seen now items next.0 next.1
        (import_item-Seen now (present_identity (identity item)) item observed inv h)

mark_unknown-imported :
    (connection : ℕ) (ms : List (Text × Resource)) (inv : Inventory)
    → (mark_unknown connection ms inv).imported ≡ inv.imported
unfolding mark_unknown
mark_unknown-imported connection [] inv = refl
mark_unknown-imported connection (m ∷ ms) inv =
    mark_unknown-imported connection ms _
    ∙ reconciled-imported connection m.0 m.1 ResourceStatus.unknown inv

unseen :
    (connection : ℕ) (kind : ImportKind) (rows : List ImportedResource)
    → All (Seen connection kind []) rows
unseen connection kind [] = tt
unseen connection kind (i ∷ rows) = (λ e o. cc o, unseen connection kind rows)

finished-Current :
    (sha256 string_of : Json → Text) (connection : ℕ) (kind : ImportKind) (now : ℕ)
    (observed : List Text) (inv : Inventory)
    → All (Seen connection kind observed) inv.imported
    → All
        (Current connection kind observed)
        (finish_kind sha256 string_of connection kind now (observed, inv)).imported
unfolding finish_kind
finished-Current sha256 string_of connection kind now observed inv h =
    elim (Bool-cases (is_application kind)) [
      | inl e ↦
          let ms = missing_resources connection kind observed inv.imported inv.resources in
          rw e (
            mark_missing-Current connection kind now observed (mark_unknown connection ms inv) (
              subst (All (Seen connection kind observed))
                (sym (mark_unknown-imported connection ms inv)) h))
      | inr e ↦ rw e (mark_missing-Current connection kind now observed inv h)
    ]

-- Once the listing of a kind has been imported, an import of the kind is marked as missing exactly
-- where the listing does not have it, whatever was marked before.
pub finish_kind-Current :
    (sha256 string_of : Json → Text) (connection : ℕ) (kind : ImportKind) (now : ℕ)
    (items : List Json) (inv : Inventory)
    → All
        (Current connection kind (import_items sha256 string_of connection kind now items [] inv).0)
        (finish_kind sha256 string_of connection kind now
          (import_items sha256 string_of connection kind now items [] inv)).imported
finish_kind-Current sha256 string_of connection kind now items inv =
    let next = import_items sha256 string_of connection kind now items [] inv in
    finished-Current sha256 string_of connection kind now next.0 next.1 (
      import_items-Seen sha256 string_of connection kind now items [] inv
        (unseen connection kind inv.imported))
