-- ===== src/Provisioning/Pass/Success.antt =====
-- What the tables hold after a pass that ends a job well.
use qubit_hosting_panel.Common.{
  ◌≡◌, ◌≢◌, refl, inl, inr, true, false, Option, none, some, [], ◌∷◌, ◌++◌, arith, ◌==◌, any, All,
  is_id, Bool-cases,
}
use qubit_hosting_panel.Common.Table.{All-updated}
use qubit_hosting_panel.Provisioning.Model.{
  JobStatus, Job, Resource, BuildStatus, Build, DeploymentStatus, Deployment, CheckoutStatus,
  Checkout, Effect, Db,
}
use qubit_hosting_panel.Provisioning.Pass.Actions.{
  Reply, ok, threw, Outcome, done, failed, gave_up, ProviderJob, Answers,
}
use qubit_hosting_panel.Provisioning.Pass.Records.{
  mark_started, record_success, record_provision, conflicts, is_succeeded, has_submission,
}
use qubit_hosting_panel.Provisioning.Pass.{
  Verdict, finished, configured_application, existing_resource, deployment_input,
  submit_application, notify, redeploy, follow, poll_provider, provision, dispatch, route, attempt,
  settle, process_job,
}

abbrev pub JobDone : Job → Type 0
JobDone j = (j.status ≡ JobStatus.succeeded) × (j.locked_at ≡ none) × (j.last_error ≡ none)

abbrev pub CheckoutActive : Checkout → Type 0
CheckoutActive c = c.status ≡ CheckoutStatus.active

abbrev pub BuildDone : Build → Type 0
BuildDone b = b.status ≡ BuildStatus.succeeded

abbrev pub DeploymentRunning : Deployment → Type 0
DeploymentRunning d = d.status ≡ DeploymentStatus.running

-- The job, and the checkout that it was queued for.
pub record IsSettled (job : Job) (db : Db) : Type 0 where
  pub job_done : All (λ j. (j.id == job.id) ≡ true → JobDone j) db.jobs
  pub checkout_active :
      All (λ c. is_id job.input.checkout_id c.id ≡ true → CheckoutActive c) db.checkouts

-- The build and the deployment that the job was queued for.
pub record IsLive (job : Job) (db : Db) : Type 0 where
  pub build_done :
      All (λ b. is_id job.input.application_build_id b.id ≡ true → BuildDone b) db.builds
  pub deployment_running :
      All (λ d. is_id job.input.deployment_id d.id ≡ true → DeploymentRunning d) db.deployments

module _ (a : Answers) (job : Job) where
  success-IsSettled : (r : Resource) (db : Db) → IsSettled job (record_success a.now job r db)
  unfolding record_success
  success-IsSettled r db = record {
    job_done =
        All-updated JobDone (λ j. j.id == job.id) _ _ db.jobs (λ j _. (refl, refl, refl))
          (λ j e. e);
    checkout_active =
        All-updated CheckoutActive (λ c. is_id job.input.checkout_id c.id) _ _ db.checkouts
          (λ c _. refl) (λ c e. e);
  }

  success-IsLive : (r : Resource) (db : Db) → IsLive job (record_success a.now job r db)
  unfolding record_success
  success-IsLive r db = record {
    build_done =
        All-updated BuildDone (λ b. is_id job.input.application_build_id b.id) _ _ db.builds
          (λ b _. refl) (λ b e. e);
    deployment_running =
        All-updated DeploymentRunning (λ d. is_id job.input.deployment_id d.id) _ _ db.deployments
          (λ d _. refl) (λ d e. e);
  }

  provision-IsSettled :
      (app : Option Build) (answer : ProviderJob) (db : Db)
      → is_succeeded answer.status ≡ true
      → IsSettled job (record_provision a job app answer db)
  unfolding record_provision
  provision-IsSettled app answer db e = record {
    job_done =
        rw e
          (All-updated JobDone (λ j. j.id == job.id) _ _ _ (λ j _. (refl, refl, refl)) (λ j x. x));
    checkout_active = rw e (
        All-updated CheckoutActive (λ c. is_id job.input.checkout_id c.id) _ _ _ (λ c _. refl)
          (λ c x. x));
  }

  -- The writes to the build and the deployment wait for the new resource's row.
  provision-IsLive :
      (app : Option Build) (answer : ProviderJob) (db : Db)
      → is_succeeded answer.status ≡ true
      → any (conflicts job answer.id) db.resources ≡ false
      → IsLive job (record_provision a job app answer db)
  unfolding record_provision
  provision-IsLive app answer db e n = record {
    build_done =
        rw (n, e)
          (All-updated BuildDone (λ b. is_id job.input.application_build_id b.id) _ _ db.builds
            (λ b _. refl) (λ b x. x));
    deployment_running =
        rw (n, e)
          (All-updated DeploymentRunning (λ d. is_id job.input.deployment_id d.id) _ _
            db.deployments (λ d _. refl) (λ d x. x));
  }

  -- How a pass can end its job.
  pub data Ends (db after : Db) : Type 0 where
    by_poll : (r : Resource) (db' : Db) → after ≡ record_success a.now job r db' → Ends db after
    by_provision :
        (app : Option Build) (answer : ProviderJob) (db' : Db)
        → a.submitted ≡ ok answer
        → is_succeeded answer.status ≡ true
        → db'.resources ≡ db.resources
        → after ≡ record_provision a job app answer db'
        → Ends db after

  poll_provider-Ends :
      (r : Resource) (db : Db)
      → (poll_provider a job r db).0 ≡ done finished
      → Ends db (poll_provider a job r db).1
  unfolding poll_provider follow
  poll_provider-Ends r db h =
      by_poll r
        (record db { effects = db.effects ++ Effect.poll job.id r.provider_resource_id ∷ [] })
        (ground arith)

  not_redeploy : (b : Build) (r : Resource) (db : Db) → (redeploy a job b r db).0 ≢ done finished
  unfolding redeploy submit_application deployment_input notify
  not_redeploy b r db h = ground arith

  deployment_input-resources :
      (app : Option Build) (db : Db) → (deployment_input a job app db).1.resources ≡ db.resources
  unfolding deployment_input mark_started
  deployment_input-resources app db = ground arith

  provision-Ends :
      (app : Option Build) (db : Db) (reply : Reply ProviderJob)
      → a.submitted ≡ reply
      → (provision a job app db).0 ≡ done finished
      → Ends db (provision a job app db).1
  unfolding provision submit_application
  provision-Ends app db (threw t) e h = ground arith
  provision-Ends app db (ok answer) e h =
      by_provision app answer
        (record (deployment_input a job app db).1 {
          effects = (deployment_input a job app db).1.effects ++ Effect.submit job.id ∷ [];
        })
        e (ground arith) (deployment_input-resources app db) (ground arith)

  dispatch-Ends :
      (app : Option Build) (o : Option Resource) (db : Db)
      → (dispatch a job app o db).0 ≡ done finished
      → Ends db (dispatch a job app o db).1
  unfolding dispatch
  dispatch-Ends app none db h = provision-Ends app db a.submitted refl h
  dispatch-Ends none (some r) db h = poll_provider-Ends r db h
  dispatch-Ends (some b) (some r) db h = elim (Bool-cases (has_submission job.result)) [
    | inl e ↦ rw e (poll_provider-Ends r db (rw e at h))
    | inr e ↦ absurd (not_redeploy b r db (rw e at h))
  ]

  attempt-Ends :
      (db : Db) (reply : Reply (Unit {0}))
      → a.connect ≡ reply
      → (attempt a job db).0 ≡ done finished
      → Ends db (attempt a job db).1
  unfolding attempt route
  attempt-Ends db (ok _) e h =
      let app = configured_application job db in
      simp e (dispatch-Ends app (existing_resource job app db) db (simp e at h))
  attempt-Ends db (threw t) e h = ground arith

  settle-Ends :
      (db : Db) (o : Outcome Verdict × Db)
      → (o.0 ≡ done finished → Ends db o.1)
      → (settle a job o).0 ≡ some finished
      → Ends db (settle a job o).1
  unfolding settle
  settle-Ends db (done v, after) k h = k (ground arith)
  settle-Ends db (failed t, after) k h = cc
  settle-Ends db (gave_up m, after) k h = cc

  process_job-Ends :
      (db : Db) → (process_job a job db).0 ≡ some finished → Ends db (process_job a job db).1
  unfolding process_job
  process_job-Ends db h = settle-Ends db (attempt a job db) (attempt-Ends db a.connect refl) h

  Ends-IsSettled : (db after : Db) → Ends db after → IsSettled job after
  Ends-IsSettled db after (by_poll r db' e) = rw e (success-IsSettled r db')
  Ends-IsSettled db after (by_provision app answer db' _ s _ e) =
      rw e (provision-IsSettled app answer db' s)

  Ends-IsLive :
      (db after : Db)
      → ((answer : ProviderJob)
          → a.submitted ≡ ok answer
          → any (conflicts job answer.id) db.resources ≡ false)
      → Ends db after
      → IsLive job after
  Ends-IsLive db after fresh (by_poll r db' e) = rw e (success-IsLive r db')
  Ends-IsLive db after fresh (by_provision app answer db' t s same e) =
      rw e (provision-IsLive app answer db' s (rw same (fresh answer t)))

-- A pass that ends a job, by a poll or by a submission that succeeds at once, leaves the job
-- succeeded, unlocked and without an error, and activates the checkout that it was queued for.
pub finished-IsSettled :
    (a : Answers) (job : Job) (db : Db)
    → (process_job a job db).0 ≡ some finished
    → IsSettled job (process_job a job db).1
finished-IsSettled a job db h = Ends-IsSettled a job db _ (process_job-Ends a job db h)

-- Such a pass also leaves the job's build succeeded and its deployment running, unless the provider
-- answered a submission with an id that a live resource holds already.
pub finished-IsLive :
    (a : Answers) (job : Job) (db : Db)
    → ((answer : ProviderJob)
        → a.submitted ≡ ok answer
        → any (conflicts job answer.id) db.resources ≡ false)
    → (process_job a job db).0 ≡ some finished
    → IsLive job (process_job a job db).1
finished-IsLive a job db fresh h = Ends-IsLive a job db _ fresh (process_job-Ends a job db h)
