-- ===== src/Backfill.antt =====
-- src/services/subscriptions/subscriptionEntitlementBackfillService.ts: approved features are added to
-- the snapshots of purchased subscriptions.
pub mod Merge
pub mod Runs
mod Tests
use Prim.Native.String.{String}
use text.Mathlib.Text.{◌==◌ as str_eq}
use qubit_hosting_panel.Common.{
  ℕ, ◌+◌, Bool, true, false, not, ◌&&◌, Option, List, [], ◌∷◌, ◌++◌, ◌==◌, any, length, map,
  if◌then◌else◌,
}
use qubit_hosting_panel.Common.Table.{update_where}
use qubit_hosting_panel.Quota.Entitlement.{SnapshotItem}

pub data SubscriptionStatus : Type 0 where
  trialing active cancelled expired : SubscriptionStatus

pub record WorkspaceSubscription : Type 0 where
  pub id : ℕ
  pub package_id : ℕ
  pub status : SubscriptionStatus
  pub snapshot : List SnapshotItem
  pub deleted : Bool

-- A row of the join of packageEntitlements and entitlementDefinitions.
pub record PackageGrant : Type 0 where
  pub package_id : ℕ
  pub item : SnapshotItem
  pub deleted : Bool
  pub definition_deleted : Bool

pub record BackfillAudit : Type 0 where
  pub resource_id : ℕ
  pub added_codes : List String
  pub new_count : ℕ
  pub previous_count : ℕ

pub record BackfillDb : Type 0 where
  pub subscriptions : List WorkspaceSubscription
  pub audits : List BackfillAudit

pub record BackfillTally : Type 0 where
  pub changed_subscriptions : ℕ
  pub granted_entitlements : ℕ

abbrev pub rollout_entitlement_codes : List String
rollout_entitlement_codes = "applications.custom_system_pages" ∷ []

abbrev pub keep_if : {A : Type 0} → (A → Bool) → List A → List A
keep_if p [] = []
keep_if p (x ∷ xs) = if p x then x ∷ keep_if p xs else keep_if p xs

-- `existingCodes.has(code)`
abbrev pub has_item : String → List SnapshotItem → Bool
has_item code = any (λ i. str_eq i.code code)

pub record Merged : Type 0 where
  pub added_codes : List String
  pub snapshot : List SnapshotItem

abbrev pub additions : List SnapshotItem → List SnapshotItem → List SnapshotItem
additions snapshot = keep_if (λ c. not (has_item c.code snapshot))

unfoldable pub merge_missing_entitlements : List SnapshotItem → List SnapshotItem → Merged
merge_missing_entitlements snapshot candidates = record {
  added_codes = map (λ i. i.code) (additions snapshot candidates);
  snapshot = snapshot ++ additions snapshot candidates;
}

abbrev pub is_live : SubscriptionStatus → Bool
is_live SubscriptionStatus.active = true
is_live SubscriptionStatus.trialing = true
is_live _ = false

-- The first query.
abbrev pub is_scanned : WorkspaceSubscription → Bool
is_scanned s = is_live s.status && not s.deleted

-- The second query, of one package, in its order: `candidatesByPackage.get(packageId) ?? []`.
unfoldable pub candidates_of : ℕ → List PackageGrant → List SnapshotItem
candidates_of id [] = []
candidates_of id (g ∷ gs) =
    let rest = candidates_of id gs in
    if g.package_id == id
      && any (λ c. str_eq c g.item.code) rollout_entitlement_codes
      && not g.deleted
      && not g.definition_deleted
    then g.item ∷ rest
    else rest

-- The transaction of one changed subscription.
unfoldable pub store_merged : WorkspaceSubscription → Merged → BackfillDb → BackfillDb
store_merged s m db = record {
  subscriptions =
      update_where (λ t. t.id == s.id && not t.deleted) (λ t. record t { snapshot = m.snapshot })
        db.subscriptions;
  audits =
      db.audits
      ++ record {
        resource_id = s.id;
        added_codes = m.added_codes;
        new_count = length m.snapshot;
        previous_count = length s.snapshot;
      }
        ∷ [];
}

abbrev pub has_any : {A : Type 0} → List A → Bool
has_any [] = false
has_any (x ∷ xs) = true

-- One round of the loop: `if (!merged.addedCodes.length) continue`, and `if (dryRun) continue`.
unfoldable pub backfill_one :
    Bool
    → List PackageGrant
    → WorkspaceSubscription
    → BackfillTally × BackfillDb
    → BackfillTally × BackfillDb
backfill_one dry_run grants s (t, db) =
    let m = merge_missing_entitlements s.snapshot (candidates_of s.package_id grants) in
    if has_any m.added_codes
    then (
      record {
        changed_subscriptions = t.changed_subscriptions + 1;
        granted_entitlements = t.granted_entitlements + length m.added_codes;
      },
      if dry_run then db else store_merged s m db,
    )
    else (t, db)

unfoldable pub backfill_each :
    Bool
    → List PackageGrant
    → List WorkspaceSubscription
    → BackfillTally × BackfillDb
    → BackfillTally × BackfillDb
backfill_each dry_run grants [] s = s
backfill_each dry_run grants (x ∷ xs) s =
    backfill_each dry_run grants xs (backfill_one dry_run grants x s)

unfoldable pub backfill_subscription_entitlements :
    Bool → List PackageGrant → BackfillDb → BackfillTally × BackfillDb
backfill_subscription_entitlements dry_run grants db =
    backfill_each dry_run grants (keep_if is_scanned db.subscriptions)
      (record { changed_subscriptions = 0; granted_entitlements = 0 }, db)
