-- ===== src/Transfers/Blocked.antt =====
-- What becomes of a database whose waiting transfer was cancelled.
use qubit_hosting_panel.Common.{
  ℕ, ◌≤◌, ◌≡◌, refl, Bool, true, not, ◌&&◌, ◌||◌, Option, none, some, List, [], ◌∷◌, arith, ◌==◌,
  any, any_imp, Bool-cases, inl, inr,
}
use qubit_hosting_panel.Common.Text.{Text}
use qubit_hosting_panel.Common.Table.{count_where, only_one, any-updated, All-update_rows}
use qubit_hosting_panel.Transfers.Model.{
  Direction, TransferJob, is_queued, is_cancel_requested, is_given, is_tabular, holds_database,
  has_id, TransferRequest, new_job, insert_job, enqueue_database_import, enqueue_database_export,
  ActionRequest, is_own_job, is_own_cancellable, set_cancel_requested, cancel_transfer,
  retry_transfer,
}
use qubit_hosting_panel.Transfers.Execution.{Answers}
use qubit_hosting_panel.Transfers.Worker.{process_database_transfer_jobs}
use qubit_hosting_panel.Transfers.Stuck.{is_stuck_row, Waits, IsStuck}
use qubit_hosting_panel.Transfers.Passes.{pass-IsStuck}
use qubit_hosting_panel.Transfers.Requests.{cancel-IsStuck, retry-IsStuck, insert_job-IsStuck}

-- What happens to the jobs: requests of users and passes of the worker, with the answers of the world.
pub data TransferStep : Type 0 where
  import_step export_step : TransferRequest → TransferStep
  cancel_step retry_step : ActionRequest → TransferStep
  pass_step : (TransferJob → Answers) → (TransferJob → Bool) → ℕ → ℕ → TransferStep

abbrev pub kept_rows : List TransferJob → Option (List TransferJob) → List TransferJob
kept_rows rows none = rows
kept_rows rows (some rows') = rows'

unfoldable pub take_transfer_step :
    (Text → Text) → TransferStep → List TransferJob → List TransferJob
take_transfer_step encrypt (import_step r) rows =
    kept_rows rows (enqueue_database_import encrypt r rows)
take_transfer_step encrypt (export_step r) rows = kept_rows rows (enqueue_database_export r rows)
take_transfer_step encrypt (cancel_step a) rows = cancel_transfer a rows
take_transfer_step encrypt (retry_step a) rows = retry_transfer a rows
take_transfer_step encrypt (pass_step world deletes now limit) rows =
    (process_database_transfer_jobs world deletes now limit rows).1

unfoldable pub take_transfer_steps :
    (Text → Text) → List TransferStep → List TransferJob → List TransferJob
take_transfer_steps encrypt [] rows = rows
take_transfer_steps encrypt (s ∷ ss) rows =
    take_transfer_steps encrypt ss (take_transfer_step encrypt s rows)

module _ (id database : ℕ) (encrypt : Text → Text) where
  kept-IsStuck :
      (rows : List TransferJob) (o : Option (List TransferJob))
      → IsStuck id database rows
      → ((rows' : List TransferJob) → o ≡ some rows' → IsStuck id database rows')
      → IsStuck id database (kept_rows rows o)
  kept-IsStuck rows none s k = s
  kept-IsStuck rows (some rows') s k = k rows' refl

  import-IsStuck :
      (r : TransferRequest) (rows rows' : List TransferJob)
      → IsStuck id database rows
      → enqueue_database_import encrypt r rows ≡ some rows'
      → IsStuck id database rows'
  unfolding enqueue_database_import
  import-IsStuck r rows rows' s e =
      elim (Bool-cases
        (is_tabular r.format && (not (is_given r.schema_name) || not (is_given r.table_name)))) [
          | inl x ↦ cc (rw x at e)
          | inr x ↦
              elim (Bool-cases
                (not (is_tabular r.format) && (is_given r.schema_name || is_given r.table_name))) [
                  | inl y ↦ cc (rw (x, y) at e)
                  | inr y ↦ insert_job-IsStuck id database _ rows rows' (rw (x, y) at e) s
                ]
        ]

  step-IsStuck :
      (x : TransferStep) (rows : List TransferJob)
      → IsStuck id database rows
      → IsStuck id database (take_transfer_step encrypt x rows)
  unfolding take_transfer_step enqueue_database_export
  step-IsStuck (import_step r) rows s =
      kept-IsStuck rows (enqueue_database_import encrypt r rows) s
        (λ rows' e. import-IsStuck r rows rows' s e)
  step-IsStuck (export_step r) rows s =
      kept-IsStuck rows (enqueue_database_export r rows) s (λ rows' e.
        insert_job-IsStuck id database (new_job Direction.export_direction r.scope none r) rows
          rows' e s)
  step-IsStuck (cancel_step a) rows s = cancel-IsStuck id database a rows s
  step-IsStuck (retry_step a) rows s = retry-IsStuck id database a rows s
  step-IsStuck (pass_step world deletes now limit) rows s =
      pass-IsStuck id database world deletes now limit rows s

  steps-IsStuck :
      (xs : List TransferStep) (rows : List TransferJob)
      → IsStuck id database rows
      → IsStuck id database (take_transfer_steps encrypt xs rows)
  unfolding take_transfer_steps
  steps-IsStuck [] rows s = s
  steps-IsStuck (x ∷ xs) rows s = steps-IsStuck xs _ (step-IsStuck x rows s)

  -- No job of the database is accepted.
  stuck-refused :
      (j : TransferJob) (rows : List TransferJob)
      → j.logical_database_id ≡ database
      → IsStuck id database rows
      → insert_job j rows ≡ none
  unfolding insert_job
  stuck-refused j rows e s =
      let held : any (holds_database database) rows ≡ true =
        any_imp (is_stuck_row id database) (holds_database database) rows
          (λ k q. holds k (ground (arith, q)) (ground (arith, q)) (ground (arith, q))) s.there in
      rw e (ground (arith, held))
    where
      holds :
          (k : TransferJob)
          → is_cancel_requested k.status ≡ true
          → (k.logical_database_id == database) ≡ true
          → not k.deleted ≡ true
          → holds_database database k ≡ true
      holds k c d n = ground arith

-- The waiting job that the request names, which may be cancelled.
abbrev pub is_waiting : ActionRequest → TransferJob → Bool
is_waiting a j = is_own_job a j && is_queued j.status && not j.deleted

cancelled-IsStuck :
    (a : ActionRequest) (rows : List TransferJob)
    → any (is_waiting a) rows ≡ true
    → count_where (has_id a.job_id) rows ≤ 1
    → IsStuck a.job_id a.database_id (cancel_transfer a rows)
unfolding cancel_transfer set_cancel_requested
cancelled-IsStuck a rows w one =
    let met = only_one (has_id a.job_id) (is_waiting a) rows (λ j m. ground (arith, m)) one w in
    record {
      there =
          any-updated (is_waiting a) (is_own_cancellable a) (is_stuck_row a.job_id a.database_id)
            set_cancel_requested rows (λ j m. cancellable j m) (λ j m. ground (arith, m)) w;
      waits =
          All-update_rows (λ j. has_id a.job_id j ≡ true → is_waiting a j ≡ true) (Waits a.job_id)
            (is_own_cancellable a) set_cancel_requested rows (λ j _ _ _. refl)
            (λ j n m g. cc (n, cancellable j (m g))) met;
    }
  where
    cancellable : (j : TransferJob) → is_waiting a j ≡ true → is_own_cancellable a j ≡ true
    cancellable j m = ground (arith, m)

refused_import :
    (id database : ℕ) (encrypt : Text → Text) (r : TransferRequest) (rows : List TransferJob)
    → r.database_id ≡ database
    → IsStuck id database rows
    → enqueue_database_import encrypt r rows ≡ none
unfolding enqueue_database_import
refused_import id database encrypt r rows e s =
    elim (Bool-cases
      (is_tabular r.format && (not (is_given r.schema_name) || not (is_given r.table_name)))) [
        | inl x ↦ rw x refl
        | inr x ↦
            elim (Bool-cases
              (not (is_tabular r.format) && (is_given r.schema_name || is_given r.table_name))) [
                | inl y ↦ rw (x, y) refl
                | inr y ↦ rw (x, y) (stuck-refused id database encrypt _ rows e s)
              ]
      ]

-- A transfer that is cancelled before the worker takes it up keeps its place for ever: whatever its
-- users ask for and however often the worker passes, one after the other, the database accepts no
-- import and no export.
pub cancelled_blocks_database :
    (encrypt : Text → Text) (a : ActionRequest) (rows : List TransferJob) (xs : List TransferStep)
    (r : TransferRequest)
    → any (is_waiting a) rows ≡ true
    → count_where (has_id a.job_id) rows ≤ 1
    → r.database_id ≡ a.database_id
    → (enqueue_database_import encrypt r (take_transfer_steps encrypt xs (cancel_transfer a rows))
        ≡ none)
      × (enqueue_database_export r (take_transfer_steps encrypt xs (cancel_transfer a rows)) ≡ none)
unfolding enqueue_database_export
cancelled_blocks_database encrypt a rows xs r w one e =
    let stuck =
      steps-IsStuck a.job_id a.database_id encrypt xs (cancel_transfer a rows)
        (cancelled-IsStuck a rows w one) in
    let after = take_transfer_steps encrypt xs (cancel_transfer a rows) in
    (
      refused_import a.job_id a.database_id encrypt r after e stuck,
      stuck-refused a.job_id a.database_id encrypt
          (new_job Direction.export_direction r.scope none r) after e stuck,
    )
