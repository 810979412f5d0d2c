-- ===== src/Provisioning/Pass/Calls.antt =====
-- Which calls of the provider a pass makes.
use qubit_hosting_panel.Common.{
  ◌≡◌, refl, sym, append_nil, true, Option, none, some, List, [], ◌∷◌, ◌++◌, arith, ◌∙◌,
}
use qubit_hosting_panel.Provisioning.Model.{Job, Resource, Build, Effect, Db}
use qubit_hosting_panel.Provisioning.Pass.Actions.{Thrown, Reply, ok, threw, Outcome, Answers}
use qubit_hosting_panel.Provisioning.Pass.Records.{
  record_pending, record_success, record_failure, has_submission,
}
use qubit_hosting_panel.Provisioning.Pass.{
  Verdict, configured_application, existing_resource, follow, poll_provider, dispatch, route,
  attempt, settle, process_job,
}

module _ (a : Answers) (job : Job) (r : Resource) where
  -- A poll leaves its one entry, whatever the provider answers.
  effects-poll_provider :
      (db : Db)
      → (poll_provider a job r db).1.effects
        ≡ db.effects ++ Effect.poll job.id r.provider_resource_id ∷ []
  unfolding poll_provider follow record_pending record_success
  effects-poll_provider db = ground arith

effects-settle :
    (a : Answers) (job : Job) (o : Outcome Verdict × Db) → (settle a job o).1.effects ≡ o.1.effects
unfolding settle record_failure
effects-settle a job o = ground arith

pub dispatch_submitted :
    (a : Answers) (job : Job) (app : Option Build) (r : Resource) (db : Db)
    → has_submission job.result ≡ true
    → dispatch a job app (some r) db ≡ poll_provider a job r db
unfolding dispatch
dispatch_submitted a job none r db h = refl
dispatch_submitted a job (some b) r db h = rw h

-- The entries of the polls of a pass: one where the client of the provider is at hand, and none where
-- it is not.
abbrev pub polls_of : Reply (Unit {0}) → Job → Resource → List Effect
polls_of (ok u) job r = Effect.poll job.id r.provider_resource_id ∷ []
polls_of (threw t) job r = []

attempt-route :
    (a : Answers) (job : Job) (db : Db)
    → a.connect ≡ ok tt
    → (attempt a job db).1.effects ≡ (route a job db).1.effects
unfolding attempt
attempt-route a job db c = simp c

attempt-thrown :
    (a : Answers) (job : Job) (db : Db) (t : Thrown)
    → a.connect ≡ threw t
    → (attempt a job db).1.effects ≡ db.effects
unfolding attempt
attempt-thrown a job db t c = simp c

-- With a provider the pass takes its route, without one it makes no call, nor does the `catch`.
effects-attempt :
    (a : Answers) (job : Job) (db : Db) (r : Resource) (o : Reply (Unit {0}))
    → a.connect ≡ o
    → has_submission job.result ≡ true
    → existing_resource job (configured_application job db) db ≡ some r
    → (attempt a job db).1.effects ≡ db.effects ++ polls_of o job r
unfolding route
effects-attempt a job db r (threw t) c h e =
    attempt-thrown a job db t c ∙ sym (append_nil db.effects)
effects-attempt a job db r (ok tt) c h e =
    let app = configured_application job db in
    attempt-route a job db c
    ∙ rw (e, dispatch_submitted a job app r db h) (effects-poll_provider a job r db)

-- A job whose provider resource is recorded and found is never submitted again, whatever the provider
-- and the credential store answer: a pass over it polls that resource, once, and calls nothing else;
-- where the client of the provider cannot be made, it calls nothing at all.
pub poll_only :
    (a : Answers) (job : Job) (db : Db) (r : Resource)
    → has_submission job.result ≡ true
    → existing_resource job (configured_application job db) db ≡ some r
    → (process_job a job db).1.effects ≡ db.effects ++ polls_of a.connect job r
unfolding process_job
poll_only a job db r h e =
    effects-settle a job (attempt a job db) ∙ effects-attempt a job db r a.connect refl h e
