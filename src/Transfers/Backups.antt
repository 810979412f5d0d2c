-- ===== src/Transfers/Backups.antt =====
-- The backup before an import.
use qubit_hosting_panel.Common.{
  ℕ, ◌≡◌, refl, Bool, true, false, Option, none, some, List, [], ◌∷◌, ◌==◌, any, All, Bool-cases,
  inl, inr, ◌&&◌,
}
use qubit_hosting_panel.Common.Table.{All-update_rows, All-updated}
use qubit_hosting_panel.Provisioning.Pass.Actions.{Reply, ok, threw}
use qubit_hosting_panel.Transfers.Model.{TransferJob, has_id, is_given, is_tabular, is_import}
use qubit_hosting_panel.Transfers.Execution.{
  Answers, Call, Executed, backup_call, import_call, export_call, store_call, set_backup,
  set_reported, report_all, set_imported, is_cancelled, after_import, after_source, after_backup,
  execute_import, after_store, after_export, execute_export, is_database_scope, execute_connected,
  execute_job,
}

abbrev pub is_import_call : Call → Bool
is_import_call import_call = true
is_import_call _ = false

-- The row of the job names the backup.
abbrev pub BackedUp : ℕ → ℕ → TransferJob → Type 0
BackedUp id b j = (j.id == id) ≡ true → j.pre_import_backup_id ≡ some b

-- Where an import was asked for, the calls are a backup and then the import, the backup has an id,
-- which is on the job, and the job is one that imports.
pub record Guarded (a : Answers) (j : TransferJob) (x : Executed) : Type 0 where
  pub backed :
      any is_import_call x.calls ≡ true
      → (x.calls ≡ backup_call ∷ import_call ∷ [])
        × ((b : ℕ) × (a.backup ≡ ok (some b)) × All (BackedUp j.id b) x.rows)
        × (is_import j.direction ≡ true)

module _ (a : Answers) (j : TransferJob) where
  reported-BackedUp :
      (b : ℕ) (ps : List (ℕ × ℕ)) (rows : List TransferJob)
      → All (BackedUp j.id b) rows
      → All (BackedUp j.id b) (report_all j.id ps rows)
  unfolding report_all
  reported-BackedUp b [] rows h = h
  reported-BackedUp b (p ∷ ps) rows h = reported-BackedUp b ps _ (
      All-update_rows (BackedUp j.id b) (BackedUp j.id b) (has_id j.id) (set_reported p) rows
        (λ k _ q. q) (λ k _ q. q) h)

  imported-BackedUp :
      (b : ℕ) (calls : List Call) (rows : List TransferJob) (r : Reply (Option ℕ))
      → All (BackedUp j.id b) rows
      → All (BackedUp j.id b) (after_import a j calls rows r).rows
  unfolding after_import
  imported-BackedUp b calls rows (threw t) h = h
  imported-BackedUp b calls rows (ok n) h =
      All-update_rows (BackedUp j.id b) (BackedUp j.id b) (has_id j.id) (set_imported n a.now) rows
        (λ k _ q. q) (λ k _ q. q) h

  -- The import and what goes before it, after a backup.
  sourced-Guarded :
      (b : ℕ) (rows : List TransferJob) (r : Reply (Unit {0}))
      → a.backup ≡ ok (some b)
      → is_import j.direction ≡ true
      → All (BackedUp j.id b) rows
      → Guarded a j (after_source a j (backup_call ∷ []) rows r)
  unfolding after_source after_import
  sourced-Guarded b rows (threw t) e d h = record { backed = λ i. cc i }
  sourced-Guarded b rows (ok u) e d h = record {
    backed = λ i. (
      made a.imported,
      (b, e, imported-BackedUp b _ _ a.imported (reported-BackedUp b a.progress rows h)),
      d,
    );
  }
    where
      made :
          (r : Reply (Option ℕ))
          → (after_import a j
              (backup_call ∷ import_call ∷ [])
              (report_all j.id a.progress rows)
              r).calls
            ≡ backup_call ∷ import_call ∷ []
      made (threw t) = refl
      made (ok n) = refl

  backup-Guarded :
      (rows : List TransferJob) (r : Reply (Option ℕ))
      → a.backup ≡ r
      → is_import j.direction ≡ true
      → Guarded a j (after_backup a j (backup_call ∷ []) rows r)
  unfolding after_backup
  backup-Guarded rows (threw t) e d = record { backed = λ i. cc i }
  backup-Guarded rows (ok none) e d = record { backed = λ i. cc i }
  backup-Guarded rows (ok (some b)) e d =
      let named =
        All-updated (λ k. k.pre_import_backup_id ≡ some b) (λ k. k.id == j.id) (has_id j.id)
          (set_backup b) rows (λ k _. refl) (λ k n. n) in
      elim (Bool-cases (is_given j.source_ciphertext)) [
        | inl x ↦ rw x (sourced-Guarded b _ a.source e d named)
        | inr x ↦ rw x (record { backed = λ i. cc i })
      ]

  export-Guarded :
      (rows : List TransferJob) (r : Reply ℕ)
      → Guarded a j (after_export a j (export_call ∷ []) rows r)
  unfolding after_export after_store
  export-Guarded rows (threw t) = record { backed = λ i. cc i }
  export-Guarded rows (ok n) = elim (Bool-cases (is_cancelled j.id rows)) [
    | inl x ↦ rw x (record { backed = λ i. cc i })
    | inr x ↦ rw x (stored-Guarded a.stored)
  ]
    where
      stored-Guarded :
          (r : Reply (Unit {0}))
          → Guarded a j (after_store a j n (export_call ∷ store_call ∷ []) rows r)
      stored-Guarded (threw t) = record { backed = λ i. cc i }
      stored-Guarded (ok u) = record { backed = λ i. cc i }

  execute_export-Guarded : (rows : List TransferJob) → Guarded a j (execute_export a j [] rows)
  unfolding execute_export
  execute_export-Guarded rows = elim (Bool-cases (is_cancelled j.id rows)) [
    | inl x ↦ rw x (record { backed = λ i. cc i })
    | inr x ↦ elim (Bool-cases (is_database_scope j.scope)) [
      | inl y ↦ rw (x, y) (export-Guarded rows a.exported)
      | inr y ↦
          elim (Bool-cases
            (is_given j.schema_name && is_given j.table_name && is_tabular j.format)) [
              | inl z ↦ rw (x, y, z) (export-Guarded _ a.exported)
              | inr z ↦ rw (x, y, z) (record { backed = λ i. cc i })
            ]
    ]
  ]

  connected-Guarded :
      (rows : List TransferJob) (r : Reply (Unit {0}))
      → Guarded a j (execute_connected a j [] rows r)
  unfolding execute_connected execute_import
  connected-Guarded rows (threw t) = record { backed = λ i. cc i }
  connected-Guarded rows (ok u) = elim (Bool-cases (is_import j.direction)) [
    | inl d ↦ rw d (backup-Guarded _ a.backup refl d)
    | inr d ↦ rw d (execute_export-Guarded rows)
  ]

-- An execution asks for an import only after a backup, which has given an id: the calls that it makes
-- are the backup and then the import, and the id stands on the job when it ends, however it ends. A
-- job that exports never imports.
pub execute_job-Guarded :
    (a : Answers) (j : TransferJob) (rows : List TransferJob) → Guarded a j (execute_job a j rows)
unfolding execute_job
execute_job-Guarded a j rows = connected-Guarded a j rows a.connection
