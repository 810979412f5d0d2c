-- ===== src/Provisioning/Worker/Tallies.antt =====
-- The counts of a run.
use qubit_hosting_panel.Common.{◌+◌, ◌≤◌, List, [], ◌∷◌, arith, length, Option-cases, inl, inr}
use qubit_hosting_panel.Provisioning.Model.{Job, Db}
use qubit_hosting_panel.Provisioning.Claim.{select_candidate}
use qubit_hosting_panel.Provisioning.Pass.Actions.{Answers}
use qubit_hosting_panel.Provisioning.Worker.{
  Tally, no_tally, take_turn, rounds, process_provisioning_jobs,
}

-- One more job at most, and no job counted as failed and as succeeded.
record Grows (t u : Tally) : Type 0 where
  one : u.processed ≤ t.processed + 1
  apart : t.failed + t.succeeded ≤ t.processed → u.failed + u.succeeded ≤ u.processed

take_turn-Grows : (a : Answers) (c : Job) (s : Tally × Db) → Grows s.0 (take_turn a c s).0
unfolding take_turn
take_turn-Grows a c (t, db) = ground arith

rounds-bounds :
    (answers : List Answers) (s : Tally × Db)
    → s.0.failed + s.0.succeeded ≤ s.0.processed
    → ((rounds answers s).0.processed ≤ s.0.processed + length answers)
      × ((rounds answers s).0.failed + (rounds answers s).0.succeeded
          ≤ (rounds answers s).0.processed)
unfolding rounds
rounds-bounds [] s h = omega arith
rounds-bounds (a ∷ later) s h = elim (Option-cases (select_candidate a.now s.1)) [
  | inl e ↦ rw (e, rounds) (omega arith, omega arith)
  | inr (c, e) ↦
      let g = take_turn-Grows a c s in
      let r = rounds-bounds later (take_turn a c s) (g.apart h) in
      rw (e, rounds) (omega (arith, g.one, r.0), r.1)
]

-- A run processes at most as many jobs as its limit, and counts none of them twice.
pub processed_bounds :
    (answers : List Answers) (db : Db)
    → ((process_provisioning_jobs answers db).0.processed ≤ length answers)
      × ((process_provisioning_jobs answers db).0.failed
            + (process_provisioning_jobs answers db).0.succeeded
          ≤ (process_provisioning_jobs answers db).0.processed)
unfolding process_provisioning_jobs
processed_bounds answers db = omega (arith, rounds-bounds answers (no_tally, db) (omega arith))
