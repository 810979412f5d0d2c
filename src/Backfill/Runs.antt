-- ===== src/Backfill/Runs.antt =====
-- A dry run and a real run.
use qubit_hosting_panel.Common.{
  ◌+◌, ◌≡◌, refl, inl, inr, true, false, List, [], ◌∷◌, ◌++◌, arith, Bool-cases, length,
  length-append,
}
use qubit_hosting_panel.Backfill.{
  WorkspaceSubscription, PackageGrant, BackfillAudit, BackfillDb, BackfillTally,
  merge_missing_entitlements, candidates_of, store_merged, has_any, is_scanned, keep_if,
  backfill_one, backfill_each, backfill_subscription_entitlements,
}

-- What holds between a dry run and a real run from one state on.
pub record Agrees (db : BackfillDb) (dry real : BackfillTally × BackfillDb) : Type 0 where
  pub tally : dry.0 ≡ real.0
  pub untouched : dry.1 ≡ db
  pub audited : length real.1.audits ≡ length db.audits + real.0.changed_subscriptions

length-append_one : {A : Type 0} (xs : List A) (x : A) → length (xs ++ x ∷ []) ≡ length xs + 1
length-append_one xs x = omega (arith, length-append xs (x ∷ []))

backfill_each-Agrees :
    (grants : List PackageGrant) (xs : List WorkspaceSubscription) (db db' : BackfillDb)
    (t : BackfillTally)
    → length db'.audits ≡ length db.audits + t.changed_subscriptions
    → Agrees db (backfill_each true grants xs (t, db)) (backfill_each false grants xs (t, db'))
unfolding backfill_each backfill_one store_merged
backfill_each-Agrees grants [] db db' t h = record { tally = refl; untouched = refl; audited = h }
backfill_each-Agrees grants (s ∷ xs) db db' t h =
    let m = merge_missing_entitlements s.snapshot (candidates_of s.package_id grants) in
    let t' : BackfillTally = record {
      changed_subscriptions = t.changed_subscriptions + 1;
      granted_entitlements = t.granted_entitlements + length m.added_codes;
    } in
    let entry : BackfillAudit = record {
      resource_id = s.id;
      added_codes = m.added_codes;
      new_count = length m.snapshot;
      previous_count = length s.snapshot;
    } in
    elim (Bool-cases (has_any m.added_codes)) [
      | inl e ↦ rw e (
          backfill_each-Agrees grants xs db (store_merged s m db') t'
            (omega (arith, length-append_one db'.audits entry, h)))
      | inr e ↦ rw e (backfill_each-Agrees grants xs db db' t h)
    ]

-- A dry run changes nothing and returns the counts of the real run, which writes one audit entry for
-- each subscription that it counts as changed.
pub backfill-Agrees :
    (grants : List PackageGrant) (db : BackfillDb)
    → Agrees db
        (backfill_subscription_entitlements true grants db)
        (backfill_subscription_entitlements false grants db)
unfolding backfill_subscription_entitlements
backfill-Agrees grants db =
    backfill_each-Agrees grants (keep_if is_scanned db.subscriptions) db db
      (record { changed_subscriptions = 0; granted_entitlements = 0 }) (omega arith)
