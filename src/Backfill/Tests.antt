-- ===== src/Backfill/Tests.antt =====
-- A subscription whose package has the approved feature.
use Prim.Native.String.{String}
use qubit_hosting_panel.Common.{ℕ, ◌≡◌, refl, true, false, none, some, List, [], ◌∷◌}
use qubit_hosting_panel.Quota.Entitlement.{SnapshotItem}
use qubit_hosting_panel.Backfill.{
  SubscriptionStatus, PackageGrant, BackfillDb, candidates_of, merge_missing_entitlements,
  backfill_one, backfill_each, backfill_subscription_entitlements,
}
use qubit_hosting_panel.Backfill.Runs.{Agrees, backfill-Agrees}

abbrev item : String → ℕ → SnapshotItem
item code n = record {
  code = code;
  numeric_value = some n;
  boolean_value = none;
  is_unlimited = false;
  enforcement_mode = none;
}

abbrev bought : List SnapshotItem
bought = item "applications.count" 3 ∷ []

abbrev grants : List PackageGrant
grants =
    record {
      package_id = 5;
      item = item "applications.custom_system_pages" 1;
      deleted = false;
      definition_deleted = false;
    }
    ∷ []

abbrev db : BackfillDb
db = record {
  subscriptions =
      record {
        id = 1;
        package_id = 5;
        status = SubscriptionStatus.active;
        snapshot = bought;
        deleted = false;
      }
      ∷ [];
  audits = [];
}

run_test :
    (backfill_subscription_entitlements false grants db).0
    ≡ record { changed_subscriptions = 1; granted_entitlements = 1 }
unfolding backfill_subscription_entitlements backfill_each backfill_one candidates_of
    merge_missing_entitlements
run_test = refl

backfill-Agrees_example :
    Agrees db
      (backfill_subscription_entitlements true grants db)
      (backfill_subscription_entitlements false grants db)
backfill-Agrees_example = backfill-Agrees grants db
