-- ===== src/Provisioning/Queue/Once.antt =====
-- The jobs of one subscription.
use qubit_hosting_panel.Common.{
  ℕ, ◌≡◌, inl, inr, true, false, some, List, [], ◌∷◌, ◌++◌, arith, ==_refl, any, Bool-cases,
}
use qubit_hosting_panel.Common.Table.{find, find_sound}
use qubit_hosting_panel.Provisioning.Model.{Job, Db}
use qubit_hosting_panel.Provisioning.Queue.{
  holds_key, initial_job, QueueRequest, queue_initial_provisioning,
}

holds_key-initial : (q : QueueRequest) → holds_key q.subscription_id (initial_job q) ≡ true
holds_key-initial q = rw (==_refl q.subscription_id)

any-append_holder :
    (s : ℕ) (js : List Job) (j : Job)
    → holds_key s j ≡ true
    → any (holds_key s) (js ++ j ∷ []) ≡ true
any-append_holder s [] j h = rw h
any-append_holder s (k ∷ js) j h = ground (arith, any-append_holder s js j h)

find-append_holder :
    (s : ℕ) (js : List Job) (j : Job)
    → any (holds_key s) js ≡ false
    → holds_key s j ≡ true
    → find (holds_key s) (js ++ j ∷ []) ≡ some j
find-append_holder s [] j n h = rw h
find-append_holder s (k ∷ js) j n h = ground (arith, find-append_holder s js j)

find_of_any :
    (s : ℕ) (js : List Job)
    → any (holds_key s) js ≡ true
    → (j : Job) × (find (holds_key s) js ≡ some j)
find_of_any s [] h = cc
find_of_any s (j ∷ js) h = elim (Bool-cases (holds_key s j)) [
  | inl e ↦ (j, rw e)
  | inr e ↦ let (k, f) = find_of_any s js (rw e at h) in (k, rw e f)
]

-- Queueing succeeds, and its id is that of a live job with the key of the subscription; queueing again
-- for the subscription, from whatever checkout and workspace, changes nothing and returns that job.
pub queue-queue :
    (p q : QueueRequest) (db : Db)
    → q.subscription_id ≡ p.subscription_id
    → (j : Job) × ((queue_initial_provisioning p db).0 ≡ some j.id)
      × (find (holds_key p.subscription_id) (queue_initial_provisioning p db).1.jobs ≡ some j)
      × (holds_key p.subscription_id j ≡ true)
      × (queue_initial_provisioning q (queue_initial_provisioning p db).1
          ≡ (some j.id, (queue_initial_provisioning p db).1))
unfolding queue_initial_provisioning
queue-queue p q db e = elim (Bool-cases (any (holds_key p.subscription_id) db.jobs)) [
  | inl there ↦
      let (j, f) = find_of_any p.subscription_id db.jobs there in
      (
        j,
        simp (there, f),
        simp (there, f),
        find_sound (holds_key p.subscription_id) db.jobs f,
        simp (e, there, f),
      )
  | inr new ↦
      let appended =
        find-append_holder p.subscription_id db.jobs (initial_job p) new (holds_key-initial p) in
      (
        initial_job p,
        simp new,
        simp (new, appended),
        holds_key-initial p,
        simp (
          e,
          new,
          any-append_holder p.subscription_id db.jobs (initial_job p) (holds_key-initial p),
          appended,
        ),
      )
]
