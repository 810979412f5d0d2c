-- ===== src/Quota/Reservations/Status.antt =====
-- Retries of a reserve, and the end of its time to live.
use text.Mathlib.TextPositions.{eq_refl}
use text.Mathlib.TextEquality.{eq_iff}
use text.Mathlib.Text.{◌==◌ as str_eq}
use Prim.Native.String.{String}
use mathlib.Core.Path.{ap₂}
use mathlib.Core.Option
use mathlib.Core.Option.{Option}
use qubit_hosting_panel.Common.{
  ℕ, ◌≤◌, ◌≡◌, refl, ap, ◌∙◌, inl, inr, Bool, true, none, some, List, [], ◌∷◌, ◌++◌, arith, ◌==◌,
  ==_refl, if◌then◌else◌, Option-cases, Bool-cases, length, ◌&&◌, not,
}
use qubit_hosting_panel.Common.Table.{
  find, update_where, find-update_where, find_sound, length-update_where,
}
use qubit_hosting_panel.Quota.Decision.{QuotaDecision}
use qubit_hosting_panel.Quota.Reservations.{
  ReservationStatus, Reservation, Request, still_holds, overdue, expire, pending_sum,
  new_reservation, decide_request, answer, of_request, reserve_workspace_usage,
}

find-expire :
    (p q : Request) (rs : List Reservation)
    → find (of_request p) (update_where (overdue q) expire rs)
      ≡ Option.map (λ r. if overdue q r then expire r else r) (find (of_request p) rs)
find-expire p q rs = find-update_where (of_request p) (overdue q) expire rs (λ r. refl)

find-append_last :
    (p : Reservation → Bool) (rs : List Reservation) (r : Reservation)
    → find p rs ≡ none
    → p r ≡ true
    → find p (rs ++ r ∷ []) ≡ some r
find-append_last p [] r n h = rw h
find-append_last p (s ∷ rs) r n h = ground (arith, find-append_last p rs r)

-- The answer to a request whose key is taken.
reserve-existing :
    (q : Request) (rs : List Reservation) (r : Reservation)
    → find (of_request q) rs ≡ some r
    → ((reserve_workspace_usage q rs).0.reservation_id ≡ some r.id)
      × ((reserve_workspace_usage q rs).0.allowed ≡ still_holds r.status)
      × ((reserve_workspace_usage q rs).0.reused ≡ true)
      × ((reserve_workspace_usage q rs).1 ≡ update_where (overdue q) expire rs)
unfolding reserve_workspace_usage
reserve-existing q rs r e = rw e (refl, refl, refl, refl)

reserve-new :
    (q : Request) (rs : List Reservation)
    → find (of_request q) rs ≡ none
    → reserve_workspace_usage q rs
      ≡ answer q none
          (decide_request q (pending_sum q (update_where (overdue q) expire rs)))
          (update_where (overdue q) expire rs)
unfolding reserve_workspace_usage
reserve-new q rs e = rw e

find-answer :
    (q : Request) (d : QuotaDecision) (rs : List Reservation) {i : ℕ}
    → find (of_request q) rs ≡ none
    → (answer q none d rs).0.reservation_id ≡ some i
    → (r : Reservation) × (r.id ≡ i) × (find (of_request q) (answer q none d rs).1 ≡ some r)
unfolding answer
find-answer q d rs e h = elim (Bool-cases d.allowed) [
  | inl granted ↦ (
    new_reservation q,
    ground arith,
    rw granted (
        find-append_last (of_request q) rs (new_reservation q) e
          (rw (==_refl q.workspace_id, eq_refl q.idempotency_key))),
  )
  | inr refused ↦ absurd (ground arith)
]

-- After a reserve that returned a reservation, its key finds that reservation.
find-reserve :
    (q : Request) (rs : List Reservation) {i : ℕ}
    → (reserve_workspace_usage q rs).0.reservation_id ≡ some i
    → (r : Reservation) × (r.id ≡ i)
      × (find (of_request q) (reserve_workspace_usage q rs).1 ≡ some r)
find-reserve q rs {i} h = elim (Option-cases (find (of_request q) rs)) [
  | inr (r, e) ↦
      let known = reserve-existing q rs r e in
      (if overdue q r then expire r else r, ground arith, rw (known.3) (find-expire q q rs ∙ rw e))
  | inl e ↦
      let gone = find-expire q q rs ∙ rw e in
      rw (reserve-new q rs e)
        (find-answer q _ (update_where (overdue q) expire rs) gone (rw (reserve-new q rs e) at h))
]

find-same :
    (p q : Request) (rs : List Reservation)
    → p.workspace_id ≡ q.workspace_id
    → p.idempotency_key ≡ q.idempotency_key
    → find (of_request p) rs ≡ find (of_request q) rs
find-same p q rs w k =
    ap₂
      (λ (o : ℕ) (i : String).
        find (λ r. r.workspace_id == o && str_eq r.idempotency_key i && not r.deleted) rs)
      w k

-- A retry with the key of a reserve that returned a reservation returns the same reservation,
-- whatever else it asks, and adds no row.
pub reserve-reserve :
    (p q : Request) (rs : List Reservation) (i : ℕ)
    → p.workspace_id ≡ q.workspace_id
    → p.idempotency_key ≡ q.idempotency_key
    → (reserve_workspace_usage q rs).0.reservation_id ≡ some i
    → ((reserve_workspace_usage p (reserve_workspace_usage q rs).1).0.reservation_id ≡ some i)
      × (length (reserve_workspace_usage p (reserve_workspace_usage q rs).1).1
          ≡ length (reserve_workspace_usage q rs).1)
reserve-reserve p q rs i w k h =
    let rs' = (reserve_workspace_usage q rs).1 in
    let (r, same, there) = find-reserve q rs h in
    let again = reserve-existing p rs' r (find-same p q rs' w k ∙ there) in
    (again.0 ∙ ap some same, ap length again.3 ∙ length-update_where (overdue p) expire rs')

-- A retry after the reservation's time to live is told that it holds the reservation, though the same
-- transaction has marked the row as expired.
pub stale_reuse :
    (q : Request) (rs : List Reservation) (r : Reservation)
    → find (of_request q) rs ≡ some r
    → r.status ≡ ReservationStatus.pending
    → r.entitlement_code ≡ q.code
    → r.expires_at ≤ q.now
    → ((reserve_workspace_usage q rs).0.allowed ≡ true)
      × ((reserve_workspace_usage q rs).0.reservation_id ≡ some r.id)
      × (find (of_request q) (reserve_workspace_usage q rs).1 ≡ some (expire r))
stale_reuse q rs r e s c late =
    let known = reserve-existing q rs r e in
    let late_too : overdue q r ≡ true =
      ground (arith, find_sound (of_request q) rs e, eq_iff r.entitlement_code q.code) in
    (
      known.1 ∙ rw s,
      known.0,
      ap (find (of_request q)) known.3 ∙ find-expire q q rs ∙ rw (e, late_too),
    )
