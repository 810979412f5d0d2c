-- ===== src/Transfers/Passes.antt =====
-- What the worker does to a job whose cancellation was requested.
use qubit_hosting_panel.Common.{
  ℕ, zero, suc, ◌≡◌, refl, subst, Bool, true, false, ◌&&◌, Option, none, some, List, [], ◌∷◌, arith,
  ◌==◌, any, leb, take, All, All-take, Bool-cases, Option-cases, inl, inr,
}
use qubit_hosting_panel.Common.Table.{find_sound}
use qubit_hosting_panel.Provisioning.Pass.Actions.{Reply, ok, threw}
use qubit_hosting_panel.Transfers.Model.{
  TransferStatus, TransferJob, is_cancel_requested, is_completed, has_id, is_given,
}
use qubit_hosting_panel.Transfers.Execution.{Answers}
use qubit_hosting_panel.Transfers.Worker.{
  Tally, is_candidate, earlier, oldest_candidate, set_running, is_claimable, claim_job, set_stopped,
  was_cancelled, reason_of, settle, run_job, run_claimed, run_candidate, work, is_expired,
  filter_rows, set_cleaned, clean_all, no_work, process_database_transfer_jobs,
}
use qubit_hosting_panel.Transfers.Stuck.{
  Waits, IsStuck, update-IsStuck, other-IsStuck, execute_job-IsStuck,
}

module _ (id database : ℕ) where
  -- A row with another status than the requested cancellation is another row.
  pub other_row :
      (j : TransferJob) → Waits id j → is_cancel_requested j.status ≡ false → (j.id == id) ≡ false
  other_row j w n = elim (Bool-cases (j.id == id)) [ inl e ↦ cc (w e, n) | inr e ↦ e ]

  earlier-other :
      (j : TransferJob) (o : Option TransferJob) (c : TransferJob)
      → (j.id == id) ≡ false
      → ((k : TransferJob) → o ≡ some k → (k.id == id) ≡ false)
      → earlier j o ≡ c
      → (c.id == id) ≡ false
  earlier-other j none c e k h = subst (λ x. (x.id == id) ≡ false) h e
  earlier-other j (some d) c e k h = elim (Bool-cases (leb j.created_at d.created_at)) [
    | inl b ↦ subst (λ x. (x.id == id) ≡ false) (rw b at h) e
    | inr b ↦ subst (λ x. (x.id == id) ≡ false) (rw b at h) (k d refl)
  ]

  oldest-other :
      (rows : List TransferJob) (c : TransferJob)
      → All (Waits id) rows
      → oldest_candidate rows ≡ some c
      → (c.id == id) ≡ false
  unfolding oldest_candidate
  oldest-other [] c w e = cc
  oldest-other (j ∷ rows) c w e = elim (Bool-cases (is_candidate j)) [
    | inl b ↦
        let same : earlier j (oldest_candidate rows) ≡ c = ground (arith, rw b at e) in
        earlier-other j (oldest_candidate rows) c (other_row j w.0 (ground (arith, b)))
          (λ k x. oldest-other rows k w.1 x) same
    | inr b ↦ oldest-other rows c w.1 (rw b at e)
  ]

  claim_job-IsStuck :
      (now : ℕ) (c : TransferJob) (rows : List TransferJob)
      → (c.id == id) ≡ false
      → IsStuck id database rows
      → IsStuck id database (claim_job now c rows)
  unfolding claim_job
  claim_job-IsStuck now c rows e s =
      update-IsStuck id database (is_claimable c.id) (set_running now c) rows
        (λ j p q. absurd (ground (arith, e, p, q))) (λ j p w g. absurd (ground (arith, e, p, g))) s

  settle-IsStuck :
      (now : ℕ) (j : TransferJob) (r : Reply (Unit {0})) (t : Tally) (rows : List TransferJob)
      → (j.id == id) ≡ false
      → IsStuck id database rows
      → IsStuck id database (settle now j r t rows).1
  unfolding settle
  settle-IsStuck now j (ok u) t rows e s = s
  settle-IsStuck now j (threw x) t rows e s =
      other-IsStuck id database j.id
        (set_stopped (was_cancelled j.id (reason_of x) rows) (reason_of x) now) rows e (λ k. refl) s

  module _ (world : TransferJob → Answers) where
    run_claimed-IsStuck :
        (o : Option TransferJob) (t : Tally) (rows : List TransferJob)
        → ((j : TransferJob) → o ≡ some j → (j.id == id) ≡ false)
        → IsStuck id database rows
        → IsStuck id database (run_claimed world o t rows).1
    unfolding run_claimed run_job
    run_claimed-IsStuck none t rows k s = s
    run_claimed-IsStuck (some j) t rows k s =
        settle-IsStuck (world j).now j _ _ _ (k j refl)
          (execute_job-IsStuck id database (world j) j rows (k j refl) s)

    run_candidate-IsStuck :
        (now : ℕ) (c : TransferJob) (t : Tally) (rows : List TransferJob)
        → (c.id == id) ≡ false
        → IsStuck id database rows
        → IsStuck id database (run_candidate world now c t rows).1
    unfolding run_candidate
    run_candidate-IsStuck now c t rows e s =
        run_claimed-IsStuck _ t (claim_job now c rows)
          (λ j x. elim (Bool-cases (any (is_claimable c.id) rows)) [
            | inl b ↦
                let met = find_sound (has_id c.id) (claim_job now c rows) (rw b at x) in
                ground (arith, met, e)
            | inr b ↦ cc (rw b at x)
          ])
          (claim_job-IsStuck now c rows e s)

    work-IsStuck :
        (now limit : ℕ) (t : Tally) (rows : List TransferJob)
        → IsStuck id database rows
        → IsStuck id database (work world now limit t rows).1
    unfolding work
    work-IsStuck now zero t rows s = s
    work-IsStuck now (suc limit) t rows s = elim (Option-cases (oldest_candidate rows)) [
      | inl e ↦ rw (e, work) s
      | inr (c, e) ↦
          let next = run_candidate world now c t rows in
          rw (e, work)
            (work-IsStuck now limit next.0 next.1
              (run_candidate-IsStuck now c t rows (oldest-other rows c s.waits e) s))
    ]

  clean_all-IsStuck :
      (deletes : TransferJob → Bool) (js : List TransferJob) (t : Tally) (rows : List TransferJob)
      → All (λ j. (j.id == id) ≡ false) js
      → IsStuck id database rows
      → IsStuck id database (clean_all deletes js t rows).1
  unfolding clean_all
  clean_all-IsStuck deletes [] t rows h s = s
  clean_all-IsStuck deletes (j ∷ js) t rows h s =
      elim (Bool-cases (is_given j.output_storage_key && deletes j)) [
        | inl e ↦ rw e (
            clean_all-IsStuck deletes js _ _ h.1
              (other-IsStuck id database j.id set_cleaned rows h.0 (λ k. refl) s))
        | inr e ↦ rw e (clean_all-IsStuck deletes js t rows h.1 s)
      ]

  expired-other :
      (now : ℕ) (rows : List TransferJob)
      → All (Waits id) rows
      → All (λ j. (j.id == id) ≡ false) (filter_rows (is_expired now) rows)
  expired-other now [] w = tt
  expired-other now (j ∷ rows) w = elim (Bool-cases (is_expired now j)) [
    | inl e ↦
        rw e (other_row j w.0 (completed j.status (ground (arith, e))), expired-other now rows w.1)
    | inr e ↦ rw e (expired-other now rows w.1)
  ]
    where
      completed : (st : TransferStatus) → is_completed st ≡ true → is_cancel_requested st ≡ false
      completed st h = ground arith

  pub pass-IsStuck :
      (world : TransferJob → Answers) (deletes : TransferJob → Bool) (now limit : ℕ)
      (rows : List TransferJob)
      → IsStuck id database rows
      → IsStuck id database (process_database_transfer_jobs world deletes now limit rows).1
  unfolding process_database_transfer_jobs
  pass-IsStuck world deletes now limit rows s =
      let done = work world now limit no_work rows in
      let s' = work-IsStuck world now limit no_work rows s in
      clean_all-IsStuck deletes (take 25 (filter_rows (is_expired now) done.1)) done.0 done.1
        (All-take (λ j. (j.id == id) ≡ false) 25 _ (expired-other now done.1 s'.waits)) s'
