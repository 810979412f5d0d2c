-- ===== src/Provisioning/Worker/Attempts.antt =====
-- Attempts and their maximum through a run of the worker.
use qubit_hosting_panel.Common.{
  ℕ, ◌≡◌, refl, sym, ap, subst, ◌∙◌, inl, inr, true, none, some, List, [], ◌∷◌, map, arith, ◌==◌,
  All, Option-cases, Bool-cases,
}
use qubit_hosting_panel.Common.Table.{find, update_where, All-find, find_sound}
use qubit_hosting_panel.Provisioning.Model.{Job, Db}
use qubit_hosting_panel.Provisioning.Claim.{
  is_provider_reconciliation_poll, next_provisioning_attempt_count, claimable, select_candidate,
  claims, set_claimed, claim,
}
use qubit_hosting_panel.Provisioning.Claim.Selection.{
  job_id, Distinct, earliest-All, earliest-passes, earliest-key,
}
use qubit_hosting_panel.Provisioning.Pass.{process_job}
use qubit_hosting_panel.Provisioning.Pass.Actions.{ok, ProviderJob, Answers}
use qubit_hosting_panel.Provisioning.Pass.Bounds.{IsNamed, IsBounded, RowOf, Good, map-update_where}
use qubit_hosting_panel.Provisioning.Pass.Kept.{process_job-Good}
use qubit_hosting_panel.Provisioning.Worker.{
  Tally, no_tally, take_turn, rounds, process_provisioning_jobs,
}

-- The tables of a worker: every job within its maximum, no blank provider id, the primary key.
pub record IsSound (ids : List ℕ) (db : Db) : Type 0 where
  pub rows : All IsBounded db.jobs
  pub resources : All (λ r. IsNamed r.provider_resource_id) db.resources
  pub keys : map job_id db.jobs ≡ ids

-- What is asked of the outside of a round: no other process writes between the select and the
-- update, and the provider names what it accepts.
pub record IsQuiet (a : Answers) : Type 0 where
  pub alone : (db : Db) → a.meanwhile db ≡ db
  pub naming : (answer : ProviderJob) → a.submitted ≡ ok answer → IsNamed answer.id

module _ (now : ℕ) (c : Job) (bounded : IsBounded c) (due : claimable now c ≡ true) where
  -- A claim counts an attempt only where one is left.
  set_claimed-IsBounded : IsBounded (set_claimed now c c)
  unfolding set_claimed next_provisioning_attempt_count claimable is_provider_reconciliation_poll
  set_claimed-IsBounded = elim (Option-cases c.result.provider_resource_id) [
    | inl e ↦ record { within = ground arith; named = bounded.named }
    | inr (p, e) ↦ record {
      within = ground (arith, bounded.named p e, bounded.within);
      named = bounded.named;
    }
  ]

  claimed-rows :
      (js : List Job)
      → All IsBounded js
      → All (λ j. (j.id == c.id) ≡ true → j ≡ c) js
      → All (RowOf (set_claimed now c c)) (update_where (claims c) (set_claimed now c) js)
  unfolding set_claimed
  claimed-rows [] b k = tt
  claimed-rows (j ∷ js) b k = elim (Bool-cases (claims c j)) [
    | inl e ↦
        let same : j ≡ c = k.0 (ground arith) in
        rw e (
          subst (λ x. RowOf (set_claimed now c c) (set_claimed now c x)) (sym same)
              (set_claimed-IsBounded, λ _. refl),
          claimed-rows js b.1 k.1,
        )
    | inr e ↦
        rw e ((b.0, λ g. ap (λ (x : Job). x.maximum_attempts) (k.0 g)), claimed-rows js b.1 k.1)
  ]

  claimed-Good :
      (ids : List ℕ) (db : Db)
      → IsSound ids db
      → All (λ j. (j.id == c.id) ≡ true → j ≡ c) db.jobs
      → Good (set_claimed now c c) ids (claim now c db).1
  unfolding claim
  claimed-Good ids db s k = record {
    rows = claimed-rows db.jobs s.rows k;
    resources = s.resources;
    keys =
        map-update_where (claims c) (set_claimed now c) db.jobs (unfold set_claimed in λ j. refl)
        ∙ s.keys;
  }

  -- The row that the claim returns is the candidate's.
  claim-row :
      (db : Db) {j : Job}
      → All (λ j. (j.id == c.id) ≡ true → j ≡ c) db.jobs
      → (claim now c db).0 ≡ some j
      → j ≡ set_claimed now c c
  unfolding claim
  claim-row db {j} k e = elim (Option-cases (find (claims c) db.jobs)) [
    | inl n ↦ ground arith
    | inr (x, f) ↦
        let same : x ≡ c =
          All-find (λ i. (i.id == c.id) ≡ true → i ≡ c) (claims c) db.jobs k f
            (ground (arith, find_sound (claims c) db.jobs f)) in
        ground arith
  ]

sound : (job : Job) (ids : List ℕ) (db : Db) → Good job ids db → IsSound ids db
sound job ids db g = record { rows = firsts db.jobs g.rows; resources = g.resources; keys = g.keys }
  where
    firsts : (js : List Job) → All (RowOf job) js → All IsBounded js
    firsts [] h = tt
    firsts (j ∷ js) h = (h.0.0, firsts js h.1)

take_turn-idle :
    (a : Answers) (c : Job) (t : Tally) (db : Db)
    → (claim a.now c (a.meanwhile db)).0 ≡ none
    → (take_turn a c (t, db)).1 ≡ (claim a.now c (a.meanwhile db)).1
unfolding take_turn
take_turn-idle a c t db e = rw (e, take_turn)

take_turn-claimed :
    (a : Answers) (c : Job) (t : Tally) (db : Db) {j : Job}
    → (claim a.now c (a.meanwhile db)).0 ≡ some j
    → (take_turn a c (t, db)).1 ≡ (process_job a j (claim a.now c (a.meanwhile db)).1).1
unfolding take_turn
take_turn-claimed a c t db e = rw (e, take_turn)

module _ (ids : List ℕ) (distinct : Distinct ids) where
  take_turn-IsSound :
      (a : Answers) (c : Job) (t : Tally) (db : Db)
      → IsQuiet a
      → IsSound ids db
      → select_candidate a.now db ≡ some c
      → IsSound ids (take_turn a c (t, db)).1
  unfolding select_candidate
  take_turn-IsSound a c t db q s e =
      let key = earliest-key (claimable a.now) db.jobs (rw s.keys distinct) e in
      let bounded = earliest-All (claimable a.now) IsBounded db.jobs s.rows e in
      let due = earliest-passes (claimable a.now) db.jobs e in
      let good = claimed-Good a.now c bounded due ids db s key in
      elim (Option-cases (claim a.now c db).0) [
        | inl n ↦
            rw
              (take_turn-idle a c t db (ap (λ x. (claim a.now c x).0) (q.alone db) ∙ n), q.alone db)
              (sound _ ids _ good)
        | inr (j, n) ↦
            let job = set_claimed a.now c c in
            rw
              (
                take_turn-claimed a c t db (
                    ap (λ x. (claim a.now c x).0) (q.alone db)
                    ∙ n
                    ∙ ap some (claim-row a.now c bounded due db key n)),
                q.alone db,
              )
              (sound job ids _ (
                process_job-Good a job ids (set_claimed-IsBounded a.now c bounded due) q.naming _
                  good))
      ]

  rounds-IsSound :
      (answers : List Answers) (s : Tally × Db)
      → All IsQuiet answers
      → IsSound ids s.1
      → IsSound ids (rounds answers s).1
  unfolding rounds
  rounds-IsSound [] s q h = h
  rounds-IsSound (a ∷ later) s q h = elim (Option-cases (select_candidate a.now s.1)) [
    | inl e ↦ rw (e, rounds) h
    | inr (c, e) ↦
        rw (e, rounds)
          (rounds-IsSound later (take_turn a c s) q.1 (take_turn-IsSound a c s.0 s.1 q.0 h e))
  ]

-- Where no other process writes between a select and its update and the provider names what it
-- accepts, no run of the worker brings a job above its maximum of attempts, with polls not counted.
pub attempts_bounded :
    (answers : List Answers) (db : Db) (ids : List ℕ)
    → Distinct ids
    → All IsQuiet answers
    → IsSound ids db
    → IsSound ids (process_provisioning_jobs answers db).1
unfolding process_provisioning_jobs
attempts_bounded answers db ids d q s = rounds-IsSound ids d answers (no_tally, db) q s
