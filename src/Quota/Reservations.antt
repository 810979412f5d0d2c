-- ===== src/Quota/Reservations.antt =====
-- `reserveWorkspaceUsage`, `commitUsageReservation` and `releaseUsageReservation` of
-- src/services/usage/quotaEngine.ts. The advisory lock makes a reserve one step.
pub mod Capacity
pub mod Status
pub mod History
use Prim.Native.String.{String}
use text.Mathlib.Text.{◌==◌ as str_eq}
use qubit_hosting_panel.Common.{
  ℕ, ◌+◌, Bool, true, false, not, ◌&&◌, Option, none, some, List, [], ◌∷◌, ◌++◌, ◌==◌, ltb, leb,
  if◌then◌else◌,
}
use qubit_hosting_panel.Common.Text.{Text, codes}
use qubit_hosting_panel.Common.Table.{find, update_where}
use qubit_hosting_panel.Quota.Decision.{QuotaInput, QuotaDecision, evaluate_quota}
use qubit_hosting_panel.Quota.Entitlement.{Entitlement}

pub data ReservationStatus : Type 0 where
  pending committed released expired : ReservationStatus

pub record Reservation : Type 0 where
  pub id : ℕ
  pub workspace_id : ℕ
  pub subscription_id : ℕ
  pub entitlement_code : String
  pub quantity : ℕ
  pub idempotency_key : String
  pub status : ReservationStatus
  pub expires_at : ℕ
  pub resource_id : Option ℕ
  pub release_reason : Option Text
  pub deleted : Bool

abbrev pub is_pending : ReservationStatus → Bool
is_pending ReservationStatus.pending = true
is_pending _ = false

-- `status !== 'released' && status !== 'expired'`
abbrev pub still_holds : ReservationStatus → Bool
still_holds ReservationStatus.released = false
still_holds ReservationStatus.expired = false
still_holds _ = true

-- The input of a reserve, the entitlement of its workspace, the time, and the id of a new row.
pub record Request : Type 0 where
  pub code : String
  pub current : ℕ
  pub idempotency_key : String
  pub quantity : ℕ
  pub ttl : ℕ
  pub workspace_id : ℕ
  pub entitlement : Entitlement
  pub now : ℕ
  pub new_id : ℕ

abbrev pub of_request : Request → Reservation → Bool
of_request q r =
    r.workspace_id == q.workspace_id && str_eq r.idempotency_key q.idempotency_key && not r.deleted

-- Pending rows of the workspace and the code.
abbrev pub competes : Request → Reservation → Bool
competes q r =
    r.workspace_id == q.workspace_id
    && str_eq r.entitlement_code q.code
    && is_pending r.status
    && not r.deleted

-- `expiresAt <= now()`
abbrev pub overdue : Request → Reservation → Bool
overdue q r = competes q r && leb r.expires_at q.now

abbrev pub expire : Reservation → Reservation
expire r = record r {
  status = ReservationStatus.expired;
  release_reason = some (codes "Reservation TTL elapsed.");
}

-- `gt(expiresAt, new Date())`
abbrev pub counts : Request → Reservation → Bool
counts q r = competes q r && ltb q.now r.expires_at

-- `coalesce(sum(quantity), 0)`
unfoldable pub pending_sum : Request → List Reservation → ℕ
pending_sum q [] = 0
pending_sum q (r ∷ rs) = if counts q r then r.quantity + pending_sum q rs else pending_sum q rs

abbrev pub new_reservation : Request → Reservation
new_reservation q = record {
  id = q.new_id;
  workspace_id = q.workspace_id;
  subscription_id = q.entitlement.subscription_id;
  entitlement_code = q.code;
  quantity = q.quantity;
  idempotency_key = q.idempotency_key;
  status = ReservationStatus.pending;
  expires_at = q.now + q.ttl;
  resource_id = none;
  release_reason = none;
  deleted = false;
}

abbrev pub decide_request : Request → ℕ → QuotaDecision
decide_request q waiting = evaluate_quota (record {
  current = q.current;
  limit = some q.entitlement.limit;
  mode = q.entitlement.mode;
  pending = waiting;
  quantity = q.quantity;
  unlimited = q.entitlement.is_unlimited;
})

pub record ReservationResult : Type 0 where
  pub decision : QuotaDecision
  pub allowed : Bool
  pub reservation_id : Option ℕ
  pub reused : Bool

-- The branches after the decision: `existing` was read before anything expired.
unfoldable pub answer :
    Request
    → Option Reservation
    → QuotaDecision
    → List Reservation
    → ReservationResult × List Reservation
answer q (some r) d rs = (
  record {
    decision = d;
    allowed = still_holds r.status;
    reservation_id = some r.id;
    reused = true;
  },
  rs,
)
answer q none d rs =
    if d.allowed
    then (
      record { decision = d; allowed = true; reservation_id = some q.new_id; reused = false },
      rs ++ new_reservation q ∷ [],
    )
    else (record { decision = d; allowed = false; reservation_id = none; reused = false }, rs)

unfoldable pub reserve_workspace_usage :
    Request → List Reservation → ReservationResult × List Reservation
unfolding answer
reserve_workspace_usage q rs =
    let existing = find (of_request q) rs in
    let rs' = update_where (overdue q) expire rs in
    answer q existing (decide_request q (pending_sum q rs')) rs'

abbrev pub pending_row : ℕ → Reservation → Bool
pending_row id r = r.id == id && is_pending r.status && not r.deleted

unfoldable pub commit_usage_reservation : ℕ → ℕ → List Reservation → List Reservation
commit_usage_reservation id resource =
    update_where (pending_row id)
      (λ r. record r { status = ReservationStatus.committed; resource_id = some resource })

unfoldable pub release_usage_reservation : ℕ → Text → List Reservation → List Reservation
release_usage_reservation id reason =
    update_where (pending_row id)
      (λ r. record r { status = ReservationStatus.released; release_reason = some reason })
