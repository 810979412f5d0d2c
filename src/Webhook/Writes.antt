-- ===== src/Webhook/Writes.antt =====
-- Which rows a notification changes.
use qubit_hosting_panel.Common.{
  ℕ, ◌≡◌, refl, subst, sym, ap, inl, inr, Bool, true, false, Option, none, some, List, [], ◌∷◌,
  ◌++◌, arith, ◌==◌, All, Bool-cases, Pointwise, Pointwise-refl,
}
use qubit_hosting_panel.Common.Text.{Text}
use qubit_hosting_panel.Common.Table.{find, find_sound, All-updated, Pointwise-update_where}
use qubit_hosting_panel.Provisioning.Model.{Resource, BuildStatus, Build, Deployment, Effect, Db}
use qubit_hosting_panel.Provisioning.Pass.Records.{set_resource_status}
use qubit_hosting_panel.Webhook.{
  CoolifyWebhookRequest, is_test, WebhookResponse, is_authentic, failure_reason_of,
  resource_status_of, build_status_of, is_resource, builds_resource, find_application,
  is_deployment, set_deployment, write_build, write_deployment, apply_event, reconcile_event,
  receive_application, receive,
}

-- A row of the join.
abbrev pub Joined : Text → Build × Resource → Type 0
Joined uuid (b, r) = (is_resource uuid r ≡ true) × (builds_resource r b ≡ true)

found-Joined :
    (uuid : Text) (x : Resource) (builds : List Build) (o : Option Build)
    (later : Option (Build × Resource)) (k : Build × Resource)
    → is_resource uuid x ≡ true
    → find (builds_resource x) builds ≡ o
    → (later ≡ some k → Joined uuid k)
    → elim o [ none ↦ later | some c ↦ some (c, x) ] ≡ some k
    → Joined uuid k
found-Joined uuid x builds none later k e f go g = go g
found-Joined uuid x builds (some c) later k e f go g =
    let same : (c, x) ≡ k = ground arith in
    subst (Joined uuid) same (e, find_sound (builds_resource x) builds f)

find_application_lem :
    (uuid : Text) (builds : List Build) (rs : List Resource) (k : Build × Resource)
    → find_application uuid builds rs ≡ some k
    → Joined uuid k
unfolding find_application
find_application_lem uuid builds [] k h = cc
find_application_lem uuid builds (x ∷ rs) k h = elim (Bool-cases (is_resource uuid x)) [
  | inr e ↦ find_application_lem uuid builds rs k (rw e at h)
  | inl e ↦
      found-Joined uuid x builds (find (builds_resource x) builds) (find_application uuid builds rs)
        k e refl (find_application_lem uuid builds rs k) (rw e at h)
]

-- What a notification of an application does to the tables.
pub record Reconciled (now : ℕ) (q : CoolifyWebhookRequest) (b : Build) (r : Resource) (db db' : Db)
    : Type 0 where
  pub jobs : db'.jobs ≡ db.jobs
  pub checkouts : db'.checkouts ≡ db.checkouts
  pub resource : All (λ x. (x.id == r.id) ≡ true → x.status ≡ resource_status_of q) db'.resources
  pub other_resources : Pointwise (λ x y. (x.id == r.id) ≡ false → y ≡ x) db.resources db'.resources
  pub other_builds : Pointwise (λ x y. (b.id == x.id) ≡ false → y ≡ x) db.builds db'.builds
  pub other_deployments :
      Pointwise
        (λ x y. (x.application_build_id == b.id) ≡ false → y ≡ x)
        db.deployments
        db'.deployments

-- A relation of the rows before and after an update that leaves every row but those it meets.
abbrev pub Elsewhere : {A : Type 0} → (A → Bool) → A → A → Type 0
Elsewhere p x y = p x ≡ false → y ≡ x

module _ (now : ℕ) (q : CoolifyWebhookRequest) (b : Build) (r : Resource) where
  builds-kept :
      (o : Option BuildStatus) (db : Db)
      → Pointwise (Elsewhere (λ x. b.id == x.id)) db.builds (write_build q b.id o db).builds
  unfolding write_build
  builds-kept none db = Pointwise-refl (Elsewhere (λ x. b.id == x.id)) (λ x _. refl) db.builds
  builds-kept (some status) db =
      Pointwise-update_where (Elsewhere (λ x. b.id == x.id)) (λ x. b.id == x.id)
        (λ x. record x { status = status; failure_reason = failure_reason_of q }) db.builds
        (λ x e n. cc (e, n)) (λ x _. refl)

  deployments-kept :
      (o : Option Text) (db : Db)
      → Pointwise
          (Elsewhere (λ x. x.application_build_id == b.id))
          db.deployments
          (write_deployment now q b.id o db).deployments
  unfolding write_deployment
  deployments-kept none db =
      Pointwise-refl (Elsewhere (λ x. x.application_build_id == b.id)) (λ x _. refl) db.deployments
  deployments-kept (some uuid) db =
      Pointwise-update_where (Elsewhere (λ x. x.application_build_id == b.id))
        (is_deployment b.id uuid) (set_deployment now q) db.deployments
        (λ x e n. absurd (ground arith)) (λ x _. refl)

  -- Each write leaves the other tables.
  write_deployment-tables :
      (o : Option Text) (db : Db)
      → write_deployment now q b.id o db
        ≡ record db { deployments = (write_deployment now q b.id o db).deployments }
  unfolding write_deployment
  write_deployment-tables none db = refl
  write_deployment-tables (some uuid) db = refl

  write_build-tables :
      (o : Option BuildStatus) (db : Db)
      → write_build q b.id o db ≡ record db { builds = (write_build q b.id o db).builds }
  unfolding write_build
  write_build-tables none db = refl
  write_build-tables (some status) db = refl

  tables-Reconciled :
      (db : Db) (builds : List Build) (deployments : List Deployment)
      → Pointwise (Elsewhere (λ x. b.id == x.id)) db.builds builds
      → Pointwise (Elsewhere (λ x. x.application_build_id == b.id)) db.deployments deployments
      → Reconciled now q b r db (record (set_resource_status r.id (resource_status_of q) db) {
        builds = builds;
        deployments = deployments;
        effects = db.effects ++ Effect.publish b.id ∷ [];
      })
  tables-Reconciled db builds deployments h k = record {
    jobs = refl;
    checkouts = refl;
    resource =
        All-updated (λ x. x.status ≡ resource_status_of q) (λ x. x.id == r.id) (λ x. x.id == r.id)
          (λ x. record x { status = resource_status_of q }) db.resources (λ x _. refl) (λ x e. e);
    other_resources =
        Pointwise-update_where (Elsewhere (λ x. x.id == r.id)) (λ x. x.id == r.id)
          (λ x. record x { status = resource_status_of q }) db.resources (λ x e n. cc (e, n))
          (λ x _. refl);
    other_builds = h;
    other_deployments = k;
  }

  apply_event-Reconciled : (db : Db) → Reconciled now q b r db (apply_event now q b r db)
  unfolding apply_event
  apply_event-Reconciled db =
      let db' = set_resource_status r.id (resource_status_of q) db in
      let db'' = write_build q b.id (build_status_of q) db' in
      let e = write_build-tables (build_status_of q) db' in
      let f = write_deployment-tables q.deployment_uuid db'' in
      let kept =
        subst
          (λ x.
            Pointwise (Elsewhere (λ x. x.application_build_id == b.id)) x
              (write_deployment now q b.id q.deployment_uuid db'').deployments)
          (ap (λ x. x.deployments) e) (deployments-kept q.deployment_uuid db'') in
      subst
        (λ x.
          Reconciled now q b r db (record x { effects = x.effects ++ Effect.publish b.id ∷ [] }))
        (sym f)
        (subst
          (λ x.
            Reconciled now q b r db
              (record (record x {
                deployments = (write_deployment now q b.id q.deployment_uuid db'').deployments;
              }) { effects = x.effects ++ Effect.publish b.id ∷ [] }))
          (sym e) (tables-Reconciled db db''.builds _ (builds-kept (build_status_of q) db') kept))

reconcile-Reconciled :
    (now : ℕ) (q : CoolifyWebhookRequest) (uuid : Text) (db : Db) (o : Option (Build × Resource))
    → find_application uuid db.builds db.resources ≡ o
    → (reconcile_event now q o db).0 ≡ WebhookResponse.processed
    → (b : Build) × (r : Resource) × Joined uuid (b, r)
      × Reconciled now q b r db (reconcile_event now q o db).1
unfolding reconcile_event
reconcile-Reconciled now q uuid db none f h = cc
reconcile-Reconciled now q uuid db (some (b, r)) f h = (
  b,
  r,
  find_application_lem uuid db.builds db.resources (b, r) f,
  apply_event-Reconciled now q b r db,
)

application-Reconciled :
    (now : ℕ) (q : CoolifyWebhookRequest) (o : Option Text) (db : Db)
    → (receive_application now q o db).0 ≡ WebhookResponse.processed
    → (uuid : Text) × (b : Build) × (r : Resource) × (o ≡ some uuid)
      × Joined uuid (b, r)
      × Reconciled now q b r db (receive_application now q o db).1
unfolding receive_application
application-Reconciled now q none db h = cc
application-Reconciled now q (some uuid) db h =
    let (b, r, j, k) =
      reconcile-Reconciled now q uuid db (find_application uuid db.builds db.resources) refl h in
    (uuid, b, r, refl, j, k)

-- A notification that is processed names the provider id of a live resource with a live build; it
-- sets the status of that resource and changes no other resource, no build but that one, no
-- deployment of another build, no job of the worker and no checkout.
pub receive-Reconciled :
    (expected actual : Option Text) (now : ℕ) (q : CoolifyWebhookRequest) (db : Db)
    → (receive expected actual now q db).0 ≡ WebhookResponse.processed
    → (uuid : Text) × (b : Build) × (r : Resource) × (q.application_uuid ≡ some uuid)
      × Joined uuid (b, r)
      × Reconciled now q b r db (receive expected actual now q db).1
unfolding receive
receive-Reconciled expected actual now q db h = elim (Bool-cases (is_authentic expected actual)) [
  | inr e ↦ absurd (let g = rw e at h in cc)
  | inl e ↦ elim (Bool-cases (is_test q.event)) [
    | inl t ↦ absurd (let g = rw (e, t) at h in cc)
    | inr t ↦ rw (e, t) (application-Reconciled now q q.application_uuid db (rw (e, t) at h))
  ]
]
