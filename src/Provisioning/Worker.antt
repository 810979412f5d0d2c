-- ===== src/Provisioning/Worker.antt =====
-- The loop of `processProvisioningJobs` in src/services/provisioning/provisioningService.ts.
pub mod Tallies
pub mod Attempts
use qubit_hosting_panel.Common.{ℕ, ◌+◌, Option, none, some, List, [], ◌∷◌}
use qubit_hosting_panel.Provisioning.Model.{Job, Db}
use qubit_hosting_panel.Provisioning.Claim.{select_candidate, claim}
use qubit_hosting_panel.Provisioning.Pass.{Verdict, waiting, finished, process_job}
use qubit_hosting_panel.Provisioning.Pass.Actions.{Answers}

-- The counts that the source returns.
pub record Tally : Type 0 where
  pub failed : ℕ
  pub processed : ℕ
  pub succeeded : ℕ

abbrev pub no_tally : Tally
no_tally = record { failed = 0; processed = 0; succeeded = 0 }

abbrev pub count : Option Verdict → Tally → Tally
count none t = record t { failed = t.failed + 1; processed = t.processed + 1 }
count (some waiting) t = record t { processed = t.processed + 1 }
count (some finished) t = record t { processed = t.processed + 1; succeeded = t.succeeded + 1 }

-- One round with its candidate: the other processes write, the claim looks again, and a claimed job
-- is processed; `if (!claimed) continue`.
unfoldable pub take_turn : Answers → Job → Tally × Db → Tally × Db
take_turn a candidate (t, db) =
    let (claimed, db') = claim a.now candidate (a.meanwhile db) in
    elim claimed [
      | none ↦ (t, db')
      | some job ↦ let (v, db'') = process_job a job db' in (count v t, db'')
    ]

-- The rounds left are the answers that are left: `limit` is their number. `break` without a
-- candidate.
unfoldable pub rounds : List Answers → Tally × Db → Tally × Db
rounds [] s = s
rounds (a ∷ later) s = elim (select_candidate a.now s.1) [
  | none ↦ s
  | some candidate ↦ rounds later (take_turn a candidate s)
]

unfoldable pub process_provisioning_jobs : List Answers → Db → Tally × Db
process_provisioning_jobs answers db = rounds answers (no_tally, db)
