-- ===== src/Quota/Reservations/Capacity.antt =====
-- Reservations and a hard limit.
use text.Mathlib.TextPositions.{eq_refl}
use qubit_hosting_panel.Common.{
  ℕ, ◌+◌, ◌≤◌, ◌≡◌, refl, true, false, Option, List, [], ◌∷◌, ◌++◌, arith, ==_refl, if◌then◌else◌,
}
use qubit_hosting_panel.Common.Table.{find, update_where}
use qubit_hosting_panel.Quota.Decision.{EnforcementMode, QuotaDecision, evaluate_quota}
use qubit_hosting_panel.Quota.Reservations.{
  Reservation, Request, counts, overdue, expire, pending_sum, new_reservation, decide_request,
  answer, of_request, reserve_workspace_usage,
}

pending_sum-append :
    (q : Request) (rs : List Reservation) (r : Reservation)
    → pending_sum q (rs ++ r ∷ []) ≡ pending_sum q rs + (if counts q r then r.quantity else 0)
unfolding pending_sum
pending_sum-append q [] r = ground arith
pending_sum-append q (s ∷ rs) r = ground (arith, pending_sum-append q rs r)

-- Expiring the overdue rows leaves what counts.
pending_sum-expire :
    (q : Request) (rs : List Reservation)
    → pending_sum q (update_where (overdue q) expire rs) ≡ pending_sum q rs
unfolding pending_sum
pending_sum-expire q [] = refl
pending_sum-expire q (r ∷ rs) = ground (arith, pending_sum-expire q rs)

counts-new : (q : Request) → 1 ≤ q.ttl → counts q (new_reservation q) ≡ true
counts-new q h = rw (==_refl q.workspace_id, eq_refl q.code) (ground arith)

decide-within :
    (q : Request) (waiting : ℕ)
    → q.entitlement.mode ≡ EnforcementMode.hard
    → q.entitlement.is_unlimited ≡ false
    → (decide_request q waiting).allowed ≡ true
    → q.current + waiting + q.quantity ≤ q.entitlement.limit
unfolding evaluate_quota
decide-within q waiting h l a = ground arith

-- A new reservation is one that the decision allowed.
answer-new :
    (q : Request) (o : Option Reservation) (d : QuotaDecision) (rs : List Reservation)
    → (answer q o d rs).0.allowed ≡ true
    → (answer q o d rs).0.reused ≡ false
    → (d.allowed ≡ true) × ((answer q o d rs).1 ≡ rs ++ new_reservation q ∷ [])
unfolding answer
answer-new q o d rs a n = ground arith

-- Under a hard and limited entitlement, a reserve that makes a new reservation leaves the current use
-- and all that is pending, the new reservation included, within the limit, for any positive lifetime.
pub reserve_within_limit :
    (q : Request) (rs : List Reservation)
    → q.entitlement.mode ≡ EnforcementMode.hard
    → q.entitlement.is_unlimited ≡ false
    → 1 ≤ q.ttl
    → (reserve_workspace_usage q rs).0.allowed ≡ true
    → (reserve_workspace_usage q rs).0.reused ≡ false
    → (pending_sum q (reserve_workspace_usage q rs).1 ≡ pending_sum q rs + q.quantity)
      × (q.current + pending_sum q (reserve_workspace_usage q rs).1 ≤ q.entitlement.limit)
unfolding reserve_workspace_usage
reserve_within_limit q rs hard limited ttl allowed new =
    let rs' = update_where (overdue q) expire rs in
    let made =
      answer-new q (find (of_request q) rs) (decide_request q (pending_sum q rs')) rs' allowed
        new in
    let total = pending_sum-append q rs' (new_reservation q) in
    let fits = decide-within q (pending_sum q rs') hard limited made.0 in
    let same = pending_sum-expire q rs in
    rw (made.1, total, counts-new q ttl, same) (refl, omega (arith, fits, same))
