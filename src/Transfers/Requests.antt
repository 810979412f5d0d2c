-- ===== src/Transfers/Requests.antt =====
-- What the requests of users do to a job whose cancellation was requested.
use qubit_hosting_panel.Common.{
  ℕ, ◌≡◌, refl, subst, Bool, true, false, not, ◌&&◌, ◌||◌, Option, none, some, List, [], ◌∷◌, ◌++◌,
  arith, ◌==◌, any, any_imp, leb, All-append, Bool-cases, inl, inr,
}
use qubit_hosting_panel.Common.Table.{find, find_sound, All-find, any-append}
use qubit_hosting_panel.Transfers.Model.{
  TransferStatus, TransferJob, is_cancel_requested, is_retryable, holds_database, has_id,
  insert_job, is_given, is_import, ActionRequest, is_own_job, is_own_cancellable,
  set_cancel_requested, cancel_transfer, set_queued, requeue, retry_found, retry_transfer,
}
use qubit_hosting_panel.Transfers.Passes.{other_row}
use qubit_hosting_panel.Transfers.Stuck.{
  is_stuck_row, Waits, IsStuck, update-IsStuck, other-IsStuck,
}

module _ (id database : ℕ) where
  pub cancel-IsStuck :
      (a : ActionRequest) (rows : List TransferJob)
      → IsStuck id database rows
      → IsStuck id database (cancel_transfer a rows)
  unfolding cancel_transfer set_cancel_requested
  cancel-IsStuck a rows s =
      update-IsStuck id database (is_own_cancellable a) set_cancel_requested rows
        (λ j p q. ground (arith, q)) (λ j p w g. refl) s

  retry_found-IsStuck :
      (o : Option TransferJob) (rows : List TransferJob)
      → ((j : TransferJob) → o ≡ some j → (j.id == id) ≡ false)
      → IsStuck id database rows
      → IsStuck id database (retry_found o rows)
  unfolding retry_found requeue set_queued
  retry_found-IsStuck none rows k s = s
  retry_found-IsStuck (some j) rows k s =
      elim (Bool-cases (
        leb j.maximum_attempts j.attempt_count
        || (is_import j.direction && not (is_given j.source_ciphertext)))) [
          | inl e ↦ rw e s
          | inr e ↦
              elim (Bool-cases
                (any (λ x. holds_database j.logical_database_id x && not (x.id == j.id)) rows)) [
                  | inl f ↦ rw (e, f) s
                  | inr f ↦
                      rw (e, f)
                        (other-IsStuck id database j.id set_queued rows (k j refl) (λ x. refl) s)
                ]
        ]

  pub retry-IsStuck :
      (a : ActionRequest) (rows : List TransferJob)
      → IsStuck id database rows
      → IsStuck id database (retry_transfer a rows)
  unfolding retry_transfer
  retry-IsStuck a rows s =
      let p : TransferJob → Bool = λ j. is_own_job a j && is_retryable j.status && not j.deleted in
      retry_found-IsStuck (find p rows) rows
        (λ j e.
          other_row id database j (All-find (Waits id) p rows s.waits e)
            (retryable j.status (ground (arith, find_sound p rows e))))
        s
    where
      retryable : (st : TransferStatus) → is_retryable st ≡ true → is_cancel_requested st ≡ false
      retryable st h = ground arith

  pub insert_job-IsStuck :
      (j : TransferJob) (rows rows' : List TransferJob)
      → insert_job j rows ≡ some rows'
      → IsStuck id database rows
      → IsStuck id database rows'
  unfolding insert_job
  insert_job-IsStuck j rows rows' e s =
      elim (Bool-cases
        (any (has_id j.id) rows || any (holds_database j.logical_database_id) rows)) [
          | inl b ↦ cc (rw b at e)
          | inr b ↦
              let same : rows ++ j ∷ [] ≡ rows' = ground (arith, rw b at e) in
              let appended : IsStuck id database (rows ++ j ∷ []) = record {
                there =
                    ground (arith, s.there, any-append (is_stuck_row id database) rows (j ∷ []));
                waits =
                    All-append (Waits id) rows (j ∷ []) s.waits
                      (λ g. absurd (taken (ground (arith, b)) g), tt);
              } in
              subst (IsStuck id database) same appended
        ]
    where
      taken : any (has_id j.id) rows ≡ false → (j.id == id) ≡ true → ⊥
      taken n g =
          let known : any (has_id j.id) rows ≡ true =
            any_imp (is_stuck_row id database) (has_id j.id) rows (λ k q. ground (arith, q, g))
              s.there in
          cc (n, known)
