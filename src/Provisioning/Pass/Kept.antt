-- ===== src/Provisioning/Pass/Kept.antt =====
-- Attempts and their maximum through a whole pass.
use qubit_hosting_panel.Common.{
  ℕ, ◌≡◌, refl, inl, inr, true, false, Option, none, some, List, [], ◌∷◌, ◌++◌, arith, ◌==◌,
  Bool-cases,
}
use qubit_hosting_panel.Common.Table.{All-find}
use qubit_hosting_panel.Provisioning.Model.{
  ProviderJobStatus, Job, Resource, ResourceStatus, Build, Effect, Db,
}
use qubit_hosting_panel.Provisioning.Pass.Actions.{
  ◌>>◌, change, pure, ask, bind-keeps, Reply, ok, threw, Outcome, done, failed, gave_up,
  ProviderJob, Answers,
}
use qubit_hosting_panel.Provisioning.Pass.Records.{
  mark_started, record_redeployment, record_provision, has_submission,
}
use qubit_hosting_panel.Provisioning.Pass.{
  Verdict, waiting, finished, configured_application, existing_resource, deployment_input,
  submit_application, notify, redeploy, follow, poll_provider, provision, dispatch, route, attempt,
  settle, process_job,
}
use qubit_hosting_panel.Provisioning.Pass.Bounds.{
  IsNamed, IsBounded, Good, map-update_resources, redeployment-Good, pending-Good, success-Good,
  failure-Good, provision-Good,
}

ask-same : {A : Type 0} (reply : Reply A) (db : Db) → (ask reply db).1 ≡ db
ask-same (ok x) db = refl
ask-same (threw t) db = refl

module _ (a : Answers) (job : Job) (ids : List ℕ) (bounded : IsBounded job)
    (naming : (answer : ProviderJob) → a.submitted ≡ ok answer → IsNamed answer.id) where
  -- The marks of a started attempt leave jobs and resources alone, however the attempt ends.
  submit-same :
      (app : Option Build) (db : Db)
      → ((submit_application a job app db).1.jobs ≡ db.jobs)
        × ((submit_application a job app db).1.resources ≡ db.resources)
  unfolding submit_application deployment_input mark_started
  submit-same app db = ground arith

  submit-Good :
      (app : Option Build) (db : Db)
      → Good job ids db
      → Good job ids (submit_application a job app db).1
  submit-Good app db g = record {
    rows = rw (submit-same app db).0 g.rows;
    resources = rw (submit-same app db).1 g.resources;
    keys = rw (submit-same app db).0 g.keys;
  }

  submit-answer :
      (app : Option Build) (db : Db) (answer : ProviderJob)
      → (submit_application a job app db).0 ≡ done answer
      → a.submitted ≡ ok answer
  unfolding submit_application deployment_input
  submit-answer app db answer h = ground arith

  Good-same :
      (db db' : Db)
      → db'.jobs ≡ db.jobs
      → db'.resources ≡ db.resources
      → Good job ids db
      → Good job ids db'
  Good-same db db' j r g = record {
    rows = rw j g.rows;
    resources = rw r g.resources;
    keys = rw j g.keys;
  }

  notify-same :
      (r : Resource) (db : Db)
      → (((notify a job r >> pure waiting) db).1.jobs ≡ db.jobs)
        × (((notify a job r >> pure waiting) db).1.resources ≡ db.resources)
  unfolding notify
  notify-same r db = ground arith

  redeploy-Good :
      (b : Build) (r : Resource) (db : Db)
      → IsNamed r.provider_resource_id
      → Good job ids db
      → Good job ids (redeploy a job b r db).1
  unfolding redeploy
  redeploy-Good b r db n g =
      bind-keeps (Good job ids)
        (λ answer.
          change (record_redeployment a.now job r answer) >> (notify a job r >> pure waiting))
        (submit_application a job (some b)) db (submit-Good (some b) db g)
        (λ answer h.
          let db' =
            record_redeployment a.now job r answer (submit_application a job (some b) db).1 in
          let same = notify-same r db' in
          Good-same db' _ same.0 same.1
            (redeployment-Good a job ids bounded r answer _ n (submit-Good (some b) db g)))

  follow-Good :
      (r : Resource) (status : ProviderJobStatus) (db : Db)
      → IsNamed r.provider_resource_id
      → Good job ids db
      → Good job ids (follow a job r status db).1
  unfolding follow
  follow-Good r ProviderJobStatus.failed db n g = record {
    rows = g.rows;
    resources =
        map-update_resources (λ s. s.id == r.id) (λ s. record s { status = ResourceStatus.failed })
          db.resources (λ s. refl) g.resources;
    keys = g.keys;
  }
  follow-Good r ProviderJobStatus.succeeded db n g = success-Good a job ids bounded r db n g
  follow-Good r ProviderJobStatus.pending db n g =
      pending-Good a job ids bounded r ProviderJobStatus.pending db n g
  follow-Good r ProviderJobStatus.running db n g =
      pending-Good a job ids bounded r ProviderJobStatus.running db n g

  poll_provider-Good :
      (r : Resource) (db : Db)
      → IsNamed r.provider_resource_id
      → Good job ids db
      → Good job ids (poll_provider a job r db).1
  unfolding poll_provider
  poll_provider-Good r db n g =
      let polled = record db {
        effects = db.effects ++ Effect.poll job.id r.provider_resource_id ∷ [];
      } in
      let good = Good-same db polled refl refl g in
      bind-keeps (Good job ids) (follow a job r) (ask a.polled) polled
        (rw (ask-same a.polled polled) good)
        (λ status h.
          follow-Good r status (ask a.polled polled).1 n (rw (ask-same a.polled polled) good))

  provision_app-Good :
      (app : Option Build) (db : Db) → Good job ids db → Good job ids (provision a job app db).1
  unfolding provision
  provision_app-Good app db g =
      bind-keeps (Good job ids)
        (λ answer.
          change (record_provision a job app answer)
          >> pure (elim answer.status [ ProviderJobStatus.succeeded ↦ finished | _ ↦ waiting ]))
        (submit_application a job app) db (submit-Good app db g)
        (λ answer h.
          provision-Good a job ids bounded app answer _
            (naming answer (submit-answer app db answer h)) (submit-Good app db g))

  existing-IsNamed :
      (app : Option Build) (db : Db) {r : Resource}
      → Good job ids db
      → existing_resource job app db ≡ some r
      → IsNamed r.provider_resource_id
  unfolding existing_resource
  existing-IsNamed app db g e =
      All-find (λ r. IsNamed r.provider_resource_id) _ db.resources g.resources e

  dispatch-Good :
      (app : Option Build) (o : Option Resource) (db : Db)
      → ((r : Resource) → o ≡ some r → IsNamed r.provider_resource_id)
      → Good job ids db
      → Good job ids (dispatch a job app o db).1
  unfolding dispatch
  dispatch-Good app none db n g = provision_app-Good app db g
  dispatch-Good none (some r) db n g = poll_provider-Good r db (n r refl) g
  dispatch-Good (some b) (some r) db n g = elim (Bool-cases (has_submission job.result)) [
    | inl e ↦ rw e (poll_provider-Good r db (n r refl) g)
    | inr e ↦ rw e (redeploy-Good b r db (n r refl) g)
  ]

  settle-Good : (o : Outcome Verdict × Db) → Good job ids o.1 → Good job ids (settle a job o).1
  unfolding settle
  settle-Good (done v, db) g = g
  settle-Good (failed t, db) g = failure-Good a job ids bounded false _ db g
  settle-Good (gave_up m, db) g = failure-Good a job ids bounded true m db g

  pub process_job-Good : (db : Db) → Good job ids db → Good job ids (process_job a job db).1
  unfolding process_job attempt route
  process_job-Good db g = settle-Good (attempt a job db) (
      bind-keeps (Good job ids) (λ _. route a job) (ask a.connect) db (rw (ask-same a.connect db) g)
        (λ _ h.
          let db' = (ask a.connect db).1 in
          let g' : Good job ids db' = rw (ask-same a.connect db) g in
          let app = configured_application job db' in
          dispatch-Good app (existing_resource job app db') db'
            (λ r e. existing-IsNamed app db' g' e) g'))
