-- ===== src/Provisioning/Pass/Bounds.antt =====
-- Attempts and their maximum through the writes of a pass.
use qubit_hosting_panel.Common.{
  ℕ, ◌+◌, ◌≤◌, ◌≡◌, refl, sym, subst, ◌∙◌, inl, inr, Bool, true, false, Option, none, some, List,
  [], ◌∷◌, map, arith, ◌==◌, if◌then◌else◌, All, All-append, Bool-cases, any, coalesce,
}
use qubit_hosting_panel.Common.Text.{Text, trim, is_empty}
use qubit_hosting_panel.Common.Table.{update_where, All-update_where}
use qubit_hosting_panel.Provisioning.Model.{
  JobStatus, ProviderJobStatus, Job, Resource, ResourceStatus, Build, Db,
}
use qubit_hosting_panel.Provisioning.Claim.Selection.{job_id}
use qubit_hosting_panel.Provisioning.Pass.Actions.{ProviderJob, Answers}
use qubit_hosting_panel.Provisioning.Pass.Records.{
  record_redeployment, record_pending, record_success, record_provision, record_failure, conflicts,
  new_resource, is_succeeded, poll_delay, completion,
}

-- A provider id that is not blank.
abbrev pub IsNamed : Text → Type 0
IsNamed p = is_empty (trim p) ≡ false

-- Within the maximum, and a recorded provider id is not blank.
pub record IsBounded (j : Job) : Type 0 where
  pub within : j.attempt_count ≤ j.maximum_attempts
  pub named : (p : Text) → j.result.provider_resource_id ≡ some p → IsNamed p

-- The same, for a table where the rows of the claimed job have its maximum.
abbrev pub RowOf : Job → Job → Type 0
RowOf job j = IsBounded j × ((j.id == job.id) ≡ true → j.maximum_attempts ≡ job.maximum_attempts)

pub record Good (job : Job) (ids : List ℕ) (db : Db) : Type 0 where
  pub rows : All (RowOf job) db.jobs
  pub resources : All (λ r. IsNamed r.provider_resource_id) db.resources
  pub keys : map job_id db.jobs ≡ ids

-- An update that keeps ids keeps the keys.
pub map-update_where :
    (p : Job → Bool) (f : Job → Job) (js : List Job)
    → ((j : Job) → (f j).id ≡ j.id)
    → map job_id (update_where p f js) ≡ map job_id js
map-update_where p f [] h = refl
map-update_where p f (j ∷ js) h = elim (Bool-cases (p j)) [
  | inl e ↦ rw (e, h j, map-update_where p f js h)
  | inr e ↦ rw (e, map-update_where p f js h)
]

pub map-update_resources :
    (p : Resource → Bool) (f : Resource → Resource) (rs : List Resource)
    → ((r : Resource) → (f r).provider_resource_id ≡ r.provider_resource_id)
    → All (λ r. IsNamed r.provider_resource_id) rs
    → All (λ r. IsNamed r.provider_resource_id) (update_where p f rs)
map-update_resources p f rs h g =
    All-update_where (λ r. IsNamed r.provider_resource_id) p f rs
      (λ r _ x. subst IsNamed (sym (h r)) x) g

module _ (a : Answers) (job : Job) (ids : List ℕ) (bounded : IsBounded job) where
  -- A row that keeps its count, with the id of the resource in its result.
  named_result :
      (p : Text) (j k : Job)
      → IsNamed p
      → k.attempt_count ≡ j.attempt_count
      → k.maximum_attempts ≡ j.maximum_attempts
      → k.result.provider_resource_id ≡ some p
      → IsBounded j
      → IsBounded k
  named_result p j k n e m r b = record {
    within = omega (arith, b.within);
    named = λ q s. ground arith;
  }

  pub redeployment-Good :
      (r : Resource) (answer : ProviderJob) (db : Db)
      → IsNamed r.provider_resource_id
      → Good job ids db
      → Good job ids (record_redeployment a.now job r answer db)
  unfolding record_redeployment
  redeployment-Good r answer db n g = record {
    rows =
        All-update_where (RowOf job) (λ j. j.id == job.id) _ db.jobs
          (λ j _ x. (named_result r.provider_resource_id j _ n refl refl refl x.0, x.1)) g.rows;
    resources =
        map-update_resources (λ s. s.id == r.id)
          (λ s. record s {
            status = ResourceStatus.provisioning;
            public_url = coalesce answer.public_url r.public_url;
          })
          db.resources (λ s. refl) g.resources;
    keys = map-update_where _ _ db.jobs (λ j. refl) ∙ g.keys;
  }

  pub pending-Good :
      (r : Resource) (status : ProviderJobStatus) (db : Db)
      → IsNamed r.provider_resource_id
      → Good job ids db
      → Good job ids (record_pending a.now job r status db)
  unfolding record_pending
  pending-Good r status db n g = record {
    rows =
        All-update_where (RowOf job) (λ j. j.id == job.id) _ db.jobs
          (λ j _ x. (named_result r.provider_resource_id j _ n refl refl refl x.0, x.1)) g.rows;
    resources =
        map-update_resources (λ s. s.id == r.id)
          (λ s. record s { status = ResourceStatus.provisioning }) db.resources (λ s. refl)
          g.resources;
    keys = map-update_where _ _ db.jobs (λ j. refl) ∙ g.keys;
  }

  pub success-Good :
      (r : Resource) (db : Db)
      → IsNamed r.provider_resource_id
      → Good job ids db
      → Good job ids (record_success a.now job r db)
  unfolding record_success
  success-Good r db n g = record {
    rows =
        All-update_where (RowOf job) (λ j. j.id == job.id) _ db.jobs
          (λ j _ x. (named_result r.provider_resource_id j _ n refl refl refl x.0, x.1)) g.rows;
    resources =
        map-update_resources (λ s. s.id == r.id) (λ s. record s { status = ResourceStatus.running })
          db.resources (λ s. refl) g.resources;
    keys = map-update_where _ _ db.jobs (λ j. refl) ∙ g.keys;
  }

  pub failure-Good :
      (terminal : Bool) (m : Text) (db : Db)
      → Good job ids db
      → Good job ids (record_failure a.now job terminal m db)
  unfolding record_failure
  failure-Good terminal m db g = record {
    rows =
        All-update_where (RowOf job) (λ j. j.id == job.id) _ db.jobs
          (λ j e x. (record { within = spent terminal j (x.1 e); named = x.0.named }, x.1)) g.rows;
    resources = g.resources;
    keys = map-update_where _ _ db.jobs (λ j. refl) ∙ g.keys;
  }
    where
      spent :
          (b : Bool) (j : Job)
          → j.maximum_attempts ≡ job.maximum_attempts
          → (if b then job.maximum_attempts else job.attempt_count) ≤ j.maximum_attempts
      spent true j e = omega arith
      spent false j e = omega (arith, bounded.within)

  pub provision-Good :
      (app : Option Build) (answer : ProviderJob) (db : Db)
      → IsNamed answer.id
      → Good job ids db
      → Good job ids (record_provision a job app answer db)
  unfolding record_provision
  provision-Good app answer db n g =
      elim (Bool-cases (any (conflicts job answer.id) db.resources)) [
        | inl taken ↦ record {
          rows = rw taken rows_of;
          resources = rw taken g.resources;
          keys = rw taken keys_of;
        }
        | inr free ↦ record {
          rows = rw free rows_of;
          resources = rw free (
              All-append (λ r. IsNamed r.provider_resource_id) db.resources
                (new_resource a job app answer ∷ []) g.resources (n, tt));
          keys = rw free keys_of;
        }
      ]
    where
      change_of : Job → Job
      change_of j = record j {
        status = if is_succeeded answer.status then JobStatus.succeeded else JobStatus.queued;
        locked_at = none;
        next_attempt_at = a.now + poll_delay;
        result = record {
          provider_resource_id = some answer.id;
          provider_status = some answer.status;
          public_url = answer.public_url;
        };
        completed_at = completion a.now answer.status;
        last_error = none;
      }

      rows_of : All (RowOf job) (update_where (λ j. j.id == job.id) change_of db.jobs)
      rows_of =
          All-update_where (RowOf job) (λ j. j.id == job.id) change_of db.jobs
            (λ j _ x. (named_result answer.id j _ n refl refl refl x.0, x.1)) g.rows

      keys_of : map job_id (update_where (λ j. j.id == job.id) change_of db.jobs) ≡ ids
      keys_of = map-update_where (λ j. j.id == job.id) change_of db.jobs (λ j. refl) ∙ g.keys
