-- ===== src/Quota/Tests.antt =====
-- Quota decisions and reservations on small inputs.

use qubit_hosting_panel.Common.{
  ℕ, ◌+◌, ◌≤◌, ◌≡◌, refl, true, false, none, some, List, [], ◌∷◌, arith,
}
use qubit_hosting_panel.Quota.Decision.{EnforcementMode, evaluate_quota}
use qubit_hosting_panel.Quota.Entitlement.{
  SnapshotItem, AddOn, Subscription, effective_entitlement, matching, number_value, add_on_total,
}
use qubit_hosting_panel.Quota.Reservations.{Request, pending_sum, reserve_workspace_usage}
use qubit_hosting_panel.Quota.Reservations.Capacity.{reserve_within_limit}
use qubit_hosting_panel.Quota.Reservations.History.{Operation, reserve, commit, release}

abbrev item : ℕ → SnapshotItem
item n = record {
  code = "applications.count";
  numeric_value = some n;
  boolean_value = none;
  is_unlimited = false;
  enforcement_mode = none;
}

abbrev plan : Subscription
plan = record { id = 2; snapshot = item 3 ∷ [] }

abbrev small : AddOn
small = record { snapshot = item 1 ∷ []; quantity = 2 }

abbrev big : AddOn
big = record { snapshot = item 5 ∷ []; quantity = 1 }

entitlement_test :
    effective_entitlement (some plan) none none (small ∷ big ∷ []) "applications.count"
    ≡ some (record {
      boolean_value = none;
      is_unlimited = false;
      limit = 10;
      mode = EnforcementMode.hard;
      subscription_id = 2;
    })
unfolding effective_entitlement matching number_value add_on_total
entitlement_test = refl

abbrev ask_for : ℕ → ℕ → Request
ask_for now n = record {
  code = "applications.count";
  current = 1;
  idempotency_key = "create-1";
  quantity = n;
  ttl = 300000;
  workspace_id = 3;
  entitlement = record {
    boolean_value = none;
    is_unlimited = false;
    limit = 4;
    mode = EnforcementMode.hard;
    subscription_id = 2;
  };
  now = now;
  new_id = 11;
}

granted :
    ((reserve_workspace_usage (ask_for 1000 2) []).0.allowed ≡ true)
    × ((reserve_workspace_usage (ask_for 1000 2) []).0.reused ≡ false)
    × ((reserve_workspace_usage (ask_for 1000 2) []).0.reservation_id ≡ some 11)
unfolding reserve_workspace_usage evaluate_quota pending_sum
granted = (refl, refl, refl)

reserve_within_limit_example :
    (pending_sum (ask_for 1000 2) (reserve_workspace_usage (ask_for 1000 2) []).1
      ≡ pending_sum (ask_for 1000 2) [] + 2)
    × (1 + pending_sum (ask_for 1000 2) (reserve_workspace_usage (ask_for 1000 2) []).1 ≤ 4)
reserve_within_limit_example =
    reserve_within_limit (ask_for 1000 2) [] refl refl (omega arith) granted.0 granted.1

abbrev script : List Operation
script = reserve (ask_for 1000 2) ∷ commit 11 40 ∷ release 11 [] ∷ []
