-- ===== src/Transfers/Harmless.antt =====
-- Invariants of the rows through an execution, by the updates that it is made of.
use qubit_hosting_panel.Common.{
  ℕ, ◌≡◌, refl, true, ◌&&◌, Option, none, some, List, [], ◌∷◌, Bool-cases, inl, inr,
}
use qubit_hosting_panel.Common.Table.{update_where}
use qubit_hosting_panel.Provisioning.Pass.Actions.{Reply, ok, threw}
use qubit_hosting_panel.Transfers.Model.{
  TransferJob, is_queued, has_id, is_given, is_tabular, is_import,
}
use qubit_hosting_panel.Transfers.Execution.{
  Answers, Call, set_progress, set_backup, set_reported, report_all, set_imported, set_exported,
  is_cancelled, after_import, after_source, after_backup, execute_import, after_store, after_export,
  execute_export, is_database_scope, execute_connected, execute_job,
}

-- A change of a job that keeps its id and its deletion and does not queue it.
pub record Harmless (f : TransferJob → TransferJob) : Type 0 where
  pub id : (j : TransferJob) → (f j).id ≡ j.id
  pub deleted : (j : TransferJob) → (f j).deleted ≡ j.deleted
  pub queued : (j : TransferJob) → is_queued (f j).status ≡ true → is_queued j.status ≡ true

module _ (I : List TransferJob → Type 0) (a : Answers) (j : TransferJob)
    (keep : (f : TransferJob → TransferJob) (rows : List TransferJob)
      → Harmless f
      → I rows
      → I (update_where (has_id j.id) f rows)) where
  report_all-keeps :
      (ps : List (ℕ × ℕ)) (rows : List TransferJob) → I rows → I (report_all j.id ps rows)
  unfolding report_all
  report_all-keeps [] rows s = s
  report_all-keeps (p ∷ ps) rows s = report_all-keeps ps _ (
      keep (set_reported p) rows (record { id = λ k. refl; deleted = λ k. refl; queued = λ k q. q })
        s)

  after_import-keeps :
      (calls : List Call) (rows : List TransferJob) (r : Reply (Option ℕ))
      → I rows
      → I (after_import a j calls rows r).rows
  unfolding after_import
  after_import-keeps calls rows (threw t) s = s
  after_import-keeps calls rows (ok n) s =
      keep (set_imported n a.now) rows
        (record { id = λ k. refl; deleted = λ k. refl; queued = λ k q. cc q }) s

  after_source-keeps :
      (calls : List Call) (rows : List TransferJob) (r : Reply (Unit {0}))
      → I rows
      → I (after_source a j calls rows r).rows
  unfolding after_source
  after_source-keeps calls rows (threw t) s = s
  after_source-keeps calls rows (ok u) s =
      after_import-keeps _ _ a.imported (report_all-keeps a.progress rows s)

  after_backup-keeps :
      (calls : List Call) (rows : List TransferJob) (r : Reply (Option ℕ))
      → I rows
      → I (after_backup a j calls rows r).rows
  unfolding after_backup
  after_backup-keeps calls rows (threw t) s = s
  after_backup-keeps calls rows (ok none) s = s
  after_backup-keeps calls rows (ok (some b)) s =
      let s' =
        keep (set_backup b) rows (record { id = λ k. refl; deleted = λ k. refl; queued = λ k q. q })
          s in
      elim (Bool-cases (is_given j.source_ciphertext)) [
        | inl x ↦ rw x (after_source-keeps calls _ a.source s')
        | inr x ↦ rw x s'
      ]

  after_store-keeps :
      (n : ℕ) (calls : List Call) (rows : List TransferJob) (r : Reply (Unit {0}))
      → I rows
      → I (after_store a j n calls rows r).rows
  unfolding after_store
  after_store-keeps n calls rows (threw t) s = s
  after_store-keeps n calls rows (ok u) s =
      keep (set_exported a n) rows
        (record { id = λ k. refl; deleted = λ k. refl; queued = λ k q. cc q }) s

  after_export-keeps :
      (calls : List Call) (rows : List TransferJob) (r : Reply ℕ)
      → I rows
      → I (after_export a j calls rows r).rows
  unfolding after_export
  after_export-keeps calls rows (threw t) s = s
  after_export-keeps calls rows (ok n) s = elim (Bool-cases (is_cancelled j.id rows)) [
    | inl x ↦ rw x s
    | inr x ↦ rw x (after_store-keeps n _ rows a.stored s)
  ]

  execute_export-keeps :
      (calls : List Call) (rows : List TransferJob)
      → I rows
      → I (execute_export a j calls rows).rows
  unfolding execute_export
  execute_export-keeps calls rows s = elim (Bool-cases (is_cancelled j.id rows)) [
    | inl x ↦ rw x s
    | inr x ↦ elim (Bool-cases (is_database_scope j.scope)) [
      | inl y ↦ rw (x, y) (after_export-keeps _ rows a.exported s)
      | inr y ↦
          elim (Bool-cases
            (is_given j.schema_name && is_given j.table_name && is_tabular j.format)) [
              | inl z ↦
                  rw (x, y, z)
                    (after_export-keeps _ _ a.exported (report_all-keeps a.progress rows s))
              | inr z ↦ rw (x, y, z) s
            ]
    ]
  ]

  execute_connected-keeps :
      (calls : List Call) (rows : List TransferJob) (r : Reply (Unit {0}))
      → I rows
      → I (execute_connected a j calls rows r).rows
  unfolding execute_connected execute_import
  execute_connected-keeps calls rows (threw t) s = s
  execute_connected-keeps calls rows (ok u) s = elim (Bool-cases (is_import j.direction)) [
    | inl x ↦ rw x (
        after_backup-keeps _ _ a.backup (
          keep (set_progress 5) rows
            (record { id = λ k. refl; deleted = λ k. refl; queued = λ k q. q }) s))
    | inr x ↦ rw x (execute_export-keeps calls rows s)
  ]

  pub execute_job-keeps : (rows : List TransferJob) → I rows → I (execute_job a j rows).rows
  unfolding execute_job
  execute_job-keeps rows s = execute_connected-keeps [] rows a.connection s
