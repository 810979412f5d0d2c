-- ===== src/Quota/Reservations/History.antt =====
-- What happens to the rows through a sequence of operations.
use mathlib.Core.Option.{Option}
use qubit_hosting_panel.Common.{ℕ, ◌≡◌, false, List, [], ◌∷◌}
use qubit_hosting_panel.Common.Text.{Text}
use qubit_hosting_panel.Quota.Reservations.{
  Reservation, Request, is_pending, reserve_workspace_usage, commit_usage_reservation,
  release_usage_reservation,
}

-- A row and what becomes of it: a row that is not pending is final, and identity, owner and quantity
-- never change.
pub record Follows (r s : Reservation) : Type 0 where
  pub final : is_pending r.status ≡ false → s ≡ r
  pub id : s.id ≡ r.id
  pub owner : s.workspace_id ≡ r.workspace_id
  pub quantity : s.quantity ≡ r.quantity

-- The rows of a table stay in their places, and new ones come behind them.
abbrev pub Advances : List Reservation → List Reservation → Type 0
Advances [] ss = Unit
Advances (r ∷ rs) [] = ⊥
Advances (r ∷ rs) (s ∷ ss) = Follows r s × Advances rs ss

-- The operations of the service, one after the other.
pub data Operation : Type 0 where
  reserve : Request → Operation
  commit : ℕ → ℕ → Operation
  release : ℕ → Text → Operation

abbrev pub perform : Operation → List Reservation → List Reservation
perform (reserve q) rs = (reserve_workspace_usage q rs).1
perform (commit id resource) rs = commit_usage_reservation id resource rs
perform (release id reason) rs = release_usage_reservation id reason rs

abbrev pub perform_all : List Operation → List Reservation → List Reservation
perform_all [] rs = rs
perform_all (o ∷ os) rs = perform_all os (perform o rs)
