-- ===== src/Transfers/Stuck.antt =====
-- A job whose cancellation was requested, and what an execution of another does to it.
use qubit_hosting_panel.Common.{ℕ, ◌≡◌, Bool, true, false, not, ◌&&◌, List, arith, ◌==◌, any, All}
use qubit_hosting_panel.Common.Table.{update_where, any-update_mono, All-update_rows}
use qubit_hosting_panel.Transfers.Model.{TransferJob, is_cancel_requested, has_id}
use qubit_hosting_panel.Transfers.Execution.{Answers, execute_job}
use qubit_hosting_panel.Transfers.Harmless.{execute_job-keeps}

abbrev pub is_stuck_row : ℕ → ℕ → TransferJob → Bool
is_stuck_row id database j =
    j.id == id && is_cancel_requested j.status && j.logical_database_id == database && not j.deleted

-- The rows of the id are waiting for their cancellation.
abbrev pub Waits : ℕ → TransferJob → Type 0
Waits id j = (j.id == id) ≡ true → is_cancel_requested j.status ≡ true

pub record IsStuck (id database : ℕ) (rows : List TransferJob) : Type 0 where
  pub there : any (is_stuck_row id database) rows ≡ true
  pub waits : All (Waits id) rows

module _ (id database : ℕ) where
  pub update-IsStuck :
      (p : TransferJob → Bool) (f : TransferJob → TransferJob) (rows : List TransferJob)
      → ((j : TransferJob)
          → p j ≡ true
          → is_stuck_row id database j ≡ true
          → is_stuck_row id database (f j) ≡ true)
      → ((j : TransferJob) → p j ≡ true → Waits id j → Waits id (f j))
      → IsStuck id database rows
      → IsStuck id database (update_where p f rows)
  update-IsStuck p f rows k l s = record {
    there = any-update_mono (is_stuck_row id database) p f rows k s.there;
    waits = All-update_rows (Waits id) (Waits id) p f rows l (λ j _ w. w) s.waits;
  }

  -- An update of another job.
  pub other-IsStuck :
      (n : ℕ) (f : TransferJob → TransferJob) (rows : List TransferJob)
      → (n == id) ≡ false
      → ((j : TransferJob) → (f j).id ≡ j.id)
      → IsStuck id database rows
      → IsStuck id database (update_where (has_id n) f rows)
  other-IsStuck n f rows e k s =
      update-IsStuck (has_id n) f rows (λ j p q. absurd (ground (arith, e, p, q)))
        (λ j p w g. absurd (ground (arith, e, p, g, k j))) s

  pub execute_job-IsStuck :
      (a : Answers) (j : TransferJob) (rows : List TransferJob)
      → (j.id == id) ≡ false
      → IsStuck id database rows
      → IsStuck id database (execute_job a j rows).rows
  execute_job-IsStuck a j rows e s =
      execute_job-keeps (IsStuck id database) a j (λ f rs h t. other-IsStuck j.id f rs e h.id t)
        rows s
