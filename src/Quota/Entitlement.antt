-- ===== src/Quota/Entitlement.antt =====
-- `effectiveEntitlement` of src/services/usage/quotaEngine.ts, after its queries: the newest live
-- subscription, the definition of the code, the newest active override, the active add-ons.
pub mod Laws
use Prim.Native.String.{String}
use text.Mathlib.Text.{◌==◌ as str_eq}
use qubit_hosting_panel.Common.{
  ℕ, ◌+◌, ◌*◌, Bool, true, false, Option, none, some, List, [], ◌∷◌, or_else, coalesce,
  if◌then◌else◌,
}
use qubit_hosting_panel.Common.Table.{find}
use qubit_hosting_panel.Quota.Decision.{EnforcementMode}

-- One entry of an entitlement snapshot, with what may be missing in its json.
pub record SnapshotItem : Type 0 where
  pub code : String
  pub numeric_value : Option ℕ
  pub boolean_value : Option Bool
  pub is_unlimited : Bool
  pub enforcement_mode : Option EnforcementMode

pub record Override : Type 0 where
  pub numeric_value : Option ℕ
  pub boolean_value : Option Bool
  pub is_unlimited : Bool
  pub enforcement_mode : Option EnforcementMode

-- An active subscription item, with how often it was bought.
pub record AddOn : Type 0 where
  pub snapshot : List SnapshotItem
  pub quantity : ℕ

pub record Subscription : Type 0 where
  pub id : ℕ
  pub snapshot : List SnapshotItem

pub record Entitlement : Type 0 where
  pub boolean_value : Option Bool
  pub is_unlimited : Bool
  pub limit : ℕ
  pub mode : EnforcementMode
  pub subscription_id : ℕ

unfoldable pub matching : List SnapshotItem → String → Option SnapshotItem
matching snapshot code = find (λ i. str_eq i.code code) snapshot

unfoldable pub number_value : Option SnapshotItem → ℕ
number_value none = 0
number_value (some i) = or_else i.numeric_value 0

-- `items.reduce(...)`
unfoldable pub add_on_total : ℕ → List AddOn → String → ℕ
add_on_total total [] code = total
add_on_total total (a ∷ items) code =
    add_on_total (total + number_value (matching a.snapshot code) * a.quantity) items code

-- The fields of the active override, missing where there is none.
abbrev pub of_override {ℓ} : {A : Type ℓ} → (Override → Option A) → Option Override → Option A
of_override f none = none
of_override f (some o) = f o

abbrev pub of_item {ℓ} : {A : Type ℓ} → (SnapshotItem → Option A) → Option SnapshotItem → Option A
of_item f none = none
of_item f (some i) = f i

-- `none` is the error "Active workspace subscription not found.".
unfoldable pub effective_entitlement :
    Option Subscription
    → Option EnforcementMode
    → Option Override
    → List AddOn
    → String
    → Option Entitlement
effective_entitlement none definition override items code = none
effective_entitlement (some s) definition override items code =
    let base = matching s.snapshot code in
    some (record {
      subscription_id = s.id;
      is_unlimited =
          or_else (of_override (λ o. some o.is_unlimited) override)
            (or_else (of_item (λ i. some i.is_unlimited) base) false);
      limit =
          or_else (of_override (λ o. o.numeric_value) override)
            (number_value base + add_on_total 0 items code);
      boolean_value =
          coalesce (of_override (λ o. o.boolean_value) override)
            (of_item (λ i. i.boolean_value) base);
      mode =
          or_else
            (coalesce (of_override (λ o. o.enforcement_mode) override)
              (coalesce (of_item (λ i. i.enforcement_mode) base) definition))
            EnforcementMode.hard;
    })
