-- ===== src/Transfers/Drained.antt =====
-- The jobs that wait, through a pass of the worker.
use qubit_hosting_panel.Common.{
  ℕ, zero, suc, ◌+◌, ◌≤◌, ◌≡◌, refl, subst, Bool, true, false, ◌&&◌, Option, none, some, List, [],
  ◌∷◌, arith, ==_refl, leb, any, take, Bool-cases, Option-cases, inl, inr,
}
use qubit_hosting_panel.Common.Text.{Text}
use qubit_hosting_panel.Common.Table.{update_where, count_where, count-update_where, count-taken}
use qubit_hosting_panel.Provisioning.Pass.Actions.{Reply, ok, threw}
use qubit_hosting_panel.Transfers.Model.{TransferJob, has_id, is_given}
use qubit_hosting_panel.Transfers.Execution.{Answers}
use qubit_hosting_panel.Transfers.Worker.{
  Tally, is_candidate, earlier, oldest_candidate, set_running, is_claimable, claim_job, set_stopped,
  was_cancelled, reason_of, settle, run_job, run_claimed, run_candidate, work, is_expired,
  filter_rows, set_cleaned, clean_all, no_work, process_database_transfer_jobs,
}
use qubit_hosting_panel.Transfers.Harmless.{execute_job-keeps}

-- The jobs that wait for a worker.
abbrev pub waiting : List TransferJob → ℕ
waiting rows = count_where is_candidate rows

-- At most `n` jobs wait.
record AtMost (n : ℕ) (rows : List TransferJob) : Type 0 where
  pub few : waiting rows ≤ n

-- The candidate that is taken, as a row.
abbrev taken : TransferJob → TransferJob → Bool
taken c j = is_candidate j && is_claimable c.id j

earlier-taken :
    (j : TransferJob) (o : Option TransferJob) (rows : List TransferJob) (c : TransferJob)
    → is_candidate j ≡ true
    → ((k : TransferJob) → o ≡ some k → any (taken k) rows ≡ true)
    → earlier j o ≡ c
    → any (taken c) (j ∷ rows) ≡ true
earlier-taken j none rows c b k h =
    subst (λ x. any (taken x) (j ∷ rows) ≡ true) h (ground (arith, b, ==_refl j.id))
earlier-taken j (some d) rows c b k h = elim (Bool-cases (leb j.created_at d.created_at)) [
  | inl e ↦
      subst (λ x. any (taken x) (j ∷ rows) ≡ true) (rw e at h) (ground (arith, b, ==_refl j.id))
  | inr e ↦ subst (λ x. any (taken x) (j ∷ rows) ≡ true) (rw e at h) (ground (arith, k d refl))
]

oldest-taken :
    (rows : List TransferJob) (c : TransferJob)
    → oldest_candidate rows ≡ some c
    → any (taken c) rows ≡ true
unfolding oldest_candidate
oldest-taken [] c e = cc
oldest-taken (j ∷ rows) c e = elim (Bool-cases (is_candidate j)) [
  | inl b ↦
      let same : earlier j (oldest_candidate rows) ≡ c = ground (arith, rw b at e) in
      earlier-taken j (oldest_candidate rows) rows c b (λ k x. oldest-taken rows k x) same
  | inr b ↦ ground (arith, oldest-taken rows c (rw b at e))
]

oldest_none-waiting : (rows : List TransferJob) → oldest_candidate rows ≡ none → waiting rows ≡ 0
unfolding oldest_candidate
oldest_none-waiting [] e = refl
oldest_none-waiting (j ∷ rows) e = elim (Bool-cases (is_candidate j)) [
  | inl b ↦ cc (rw b at e)
  | inr b ↦ rw b (oldest_none-waiting rows (rw b at e))
]

-- A claim takes its job off.
claim_job-fewer :
    (now : ℕ) (c : TransferJob) (rows : List TransferJob)
    → oldest_candidate rows ≡ some c
    → waiting (claim_job now c rows) + 1 ≤ waiting rows
unfolding claim_job
claim_job-fewer now c rows e =
    count-taken is_candidate (is_claimable c.id) (set_running now c) rows (λ j _. refl)
      (oldest-taken rows c e)

module _ (n : ℕ) where
  update-AtMost :
      (p : TransferJob → Bool) (f : TransferJob → TransferJob) (rows : List TransferJob)
      → ((j : TransferJob) → is_candidate (f j) ≡ true → is_candidate j ≡ true)
      → AtMost n rows
      → AtMost n (update_where p f rows)
  update-AtMost p f rows k h = record {
    few = omega (arith, h.few, count-update_where is_candidate p f rows (λ j _ c. k j c));
  }

  stopped_never_waits :
      (cancelled : Bool) (why : Text) (now : ℕ) (j : TransferJob)
      → is_candidate (set_stopped cancelled why now j) ≡ false
  stopped_never_waits true why now j = refl
  stopped_never_waits false why now j = refl

  settle-AtMost :
      (now : ℕ) (j : TransferJob) (r : Reply (Unit {0})) (t : Tally) (rows : List TransferJob)
      → AtMost n rows
      → AtMost n (settle now j r t rows).1
  unfolding settle
  settle-AtMost now j (ok u) t rows h = h
  settle-AtMost now j (threw x) t rows h =
      update-AtMost (has_id j.id)
        (set_stopped (was_cancelled j.id (reason_of x) rows) (reason_of x) now) rows
        (λ k c.
          cc (c, stopped_never_waits (was_cancelled j.id (reason_of x) rows) (reason_of x) now k))
        h

  run_claimed-AtMost :
      (world : TransferJob → Answers) (o : Option TransferJob) (t : Tally) (rows : List TransferJob)
      → AtMost n rows
      → AtMost n (run_claimed world o t rows).1
  unfolding run_claimed run_job
  run_claimed-AtMost world none t rows h = h
  run_claimed-AtMost world (some j) t rows h = settle-AtMost (world j).now j _ _ _ (
      execute_job-keeps (AtMost n) (world j) j
        (λ f rs x.
          update-AtMost (has_id j.id) f rs (λ k c. ground (arith, x.queued k, x.deleted k, c)))
        rows h)

  clean_all-AtMost :
      (deletes : TransferJob → Bool) (js : List TransferJob) (t : Tally) (rows : List TransferJob)
      → AtMost n rows
      → AtMost n (clean_all deletes js t rows).1
  unfolding clean_all
  clean_all-AtMost deletes [] t rows h = h
  clean_all-AtMost deletes (j ∷ js) t rows h =
      elim (Bool-cases (is_given j.output_storage_key && deletes j)) [
        | inl e ↦ rw e (
            clean_all-AtMost deletes js _ _
              (update-AtMost (has_id j.id) set_cleaned rows (λ k c. c) h))
        | inr e ↦ rw e (clean_all-AtMost deletes js t rows h)
      ]

run_candidate-fewer :
    (world : TransferJob → Answers) (now limit : ℕ) (c : TransferJob) (t : Tally)
    (rows : List TransferJob)
    → oldest_candidate rows ≡ some c
    → waiting rows ≤ limit + 1
    → waiting (run_candidate world now c t rows).1 ≤ limit
unfolding run_candidate
run_candidate-fewer world now limit c t rows e few =
    (run_claimed-AtMost limit world _ t (claim_job now c rows)
      (record { few = omega (arith, few, claim_job-fewer now c rows e) })).few

work-drained :
    (world : TransferJob → Answers) (now limit : ℕ) (t : Tally) (rows : List TransferJob)
    → waiting rows ≤ limit
    → waiting (work world now limit t rows).1 ≤ 0
unfolding work
work-drained world now zero t rows few = few
work-drained world now (suc limit) t rows few = elim (Option-cases (oldest_candidate rows)) [
  | inl e ↦ rw (e, work) (omega (arith, oldest_none-waiting rows e))
  | inr (c, e) ↦
      let next = run_candidate world now c t rows in
      rw (e, work)
        (work-drained world now limit next.0 next.1
          (run_candidate-fewer world now limit c t rows e (omega (arith, few))))
]

-- A pass whose limit is at least the number of the jobs that wait leaves none waiting, whatever the
-- engines, the backup, the storage and the audit log answer to the jobs that it takes up.
pub process_database_transfer_jobs-drained :
    (world : TransferJob → Answers) (deletes : TransferJob → Bool) (now limit : ℕ)
    (rows : List TransferJob)
    → waiting rows ≤ limit
    → waiting (process_database_transfer_jobs world deletes now limit rows).1 ≡ 0
unfolding process_database_transfer_jobs
process_database_transfer_jobs-drained world deletes now limit rows few =
    let done = work world now limit no_work rows in
    omega (
      arith,
      (clean_all-AtMost 0 deletes (take 25 (filter_rows (is_expired now) done.1)) done.0 done.1
          (record { few = work-drained world now limit no_work rows few })).few,
    )
