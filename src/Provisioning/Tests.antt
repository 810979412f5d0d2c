-- ===== src/Provisioning/Tests.antt =====
-- Runs of the worker on a small database, and the theorems at them.
use qubit_hosting_panel.Common.{true, ◌≡◌, refl, false, none, some, [], ◌∷◌, ◌++◌, arith, any}
use qubit_hosting_panel.Common.Text.{Text, codes, is_space, trim, trim_start, trim_end, text_eq}
use qubit_hosting_panel.Common.Table.{find}
use qubit_hosting_panel.Provisioning.Model.{Job, JobStatus, ProviderJobStatus, Effect}
use qubit_hosting_panel.Provisioning.Queue.{QueueRequest, holds_key, queue_initial_provisioning}
use qubit_hosting_panel.Provisioning.Queue.Once.{queue-queue}
use qubit_hosting_panel.Provisioning.Claim.{claim}
use qubit_hosting_panel.Provisioning.Claim.Exclusion.{claim-exclusive}
use qubit_hosting_panel.Provisioning.Pass.{
  finished, configured_application, existing_resource, follow, poll_provider, dispatch, route,
  attempt, settle, process_job,
}
use qubit_hosting_panel.Provisioning.Pass.Actions.{ok, ProviderJob, Answers}
use qubit_hosting_panel.Provisioning.Pass.Name.{resource_name}
use qubit_hosting_panel.Provisioning.Pass.Records.{conflicts}
use qubit_hosting_panel.Provisioning.Pass.Calls.{poll_only}
use qubit_hosting_panel.Provisioning.Pass.Success.{IsSettled, finished-IsSettled}
use qubit_hosting_panel.Provisioning.Pass.Retries.{IsFailed, process_job-IsFailed}
use qubit_hosting_panel.Provisioning.Pass.Bounds.{IsNamed}
use qubit_hosting_panel.Provisioning.Worker.{process_provisioning_jobs}
use qubit_hosting_panel.Provisioning.Worker.Attempts.{IsSound, IsQuiet, attempts_bounded}
use qubit_hosting_panel.Provisioning.Samples.{
  request, empty_db, accepted_job, round_at, followed, resource, followed_db, waiting_db,
}

abbrev later_request : QueueRequest
later_request = record request { checkout_id = 10; new_id = 2; now = 2000 }

queue-queue_example :
    (j : Job) × ((queue_initial_provisioning request empty_db).0 ≡ some j.id)
    × (find (holds_key 5) (queue_initial_provisioning request empty_db).1.jobs ≡ some j)
    × (holds_key 5 j ≡ true)
    × (queue_initial_provisioning later_request (queue_initial_provisioning request empty_db).1
        ≡ (some j.id, (queue_initial_provisioning request empty_db).1))
queue-queue_example = queue-queue request later_request empty_db refl

claim-exclusive_example :
    claim 50001 followed (claim 50000 (record followed { status = JobStatus.queued }) waiting_db).1
    ≡ (none, (claim 50000 (record followed { status = JobStatus.queued }) waiting_db).1)
claim-exclusive_example =
    claim-exclusive 50000 50001 (record followed { status = JobStatus.queued }) followed waiting_db
      refl

found :
    existing_resource followed (configured_application followed followed_db) followed_db
    ≡ some resource
unfolding existing_resource configured_application
found = refl

poll_only_example :
    (process_job (round_at 50000 ProviderJobStatus.failed) followed followed_db).1.effects
    ≡ [] ++ Effect.poll 1 (codes "app-1") ∷ []
poll_only_example =
    poll_only (round_at 50000 ProviderJobStatus.failed) followed followed_db resource refl found

ends_well :
    (process_job (round_at 50000 ProviderJobStatus.succeeded) followed followed_db).0
    ≡ some finished
unfolding process_job settle attempt route existing_resource configured_application dispatch
    poll_provider follow
ends_well = refl

finished-IsSettled_example :
    IsSettled followed
      (process_job (round_at 50000 ProviderJobStatus.succeeded) followed followed_db).1
finished-IsSettled_example =
    finished-IsSettled (round_at 50000 ProviderJobStatus.succeeded) followed followed_db ends_well

abbrev other_round : Answers
other_round = record (round_at 50000 ProviderJobStatus.succeeded) {
  submitted = ok (record accepted_job { id = codes "app-2" });
}

ends_well_too : (process_job other_round followed followed_db).0 ≡ some finished
unfolding process_job settle attempt route existing_resource configured_application dispatch
    poll_provider follow
ends_well_too = refl

id_is_new :
    (answer : ProviderJob)
    → other_round.submitted ≡ ok answer
    → any (conflicts followed answer.id) followed_db.resources ≡ false
unfolding text_eq
id_is_new answer e =
    let same : record accepted_job { id = codes "app-2" } ≡ answer = cc in rw (← same)

fails : (process_job (round_at 50000 ProviderJobStatus.failed) followed followed_db).0 ≡ none
unfolding process_job settle attempt route existing_resource configured_application dispatch
    poll_provider follow
fails = refl

process_job-IsFailed_example :
    (m : Text) × IsFailed 50000 followed m
      (process_job (round_at 50000 ProviderJobStatus.failed) followed followed_db).1
process_job-IsFailed_example =
    process_job-IsFailed (round_at 50000 ProviderJobStatus.failed) followed followed_db fails

resource_name_test :
    resource_name none (some (codes "My  Shop!")) (codes "0a1b2c3d-4e5f") ≡ codes "my-shop-0a1b2c3d"
unfolding resource_name
resource_name_test = refl

waiting-IsSound : IsSound (1 ∷ []) waiting_db
unfolding is_space trim trim_start trim_end
waiting-IsSound = record {
  rows = (record { within = omega arith; named = λ p e. named_app p e }, tt);
  resources = (refl, tt);
  keys = refl;
}
  where
    named_app : (p : Text) → some (codes "app-1") ≡ some p → IsNamed p
    named_app p e = let same : codes "app-1" ≡ p = cc in rw (← same)

quiet : IsQuiet (round_at 50000 ProviderJobStatus.running)
unfolding is_space trim trim_start trim_end
quiet = record { alone = λ db. refl; naming = λ answer e. named_answer answer e }
  where
    named_answer : (answer : ProviderJob) → ok accepted_job ≡ ok answer → IsNamed answer.id
    named_answer answer e = let same : accepted_job ≡ answer = cc in rw (← same)

attempts_bounded_example :
    IsSound
      (1 ∷ [])
      (process_provisioning_jobs (round_at 50000 ProviderJobStatus.running ∷ []) waiting_db).1
attempts_bounded_example =
    attempts_bounded (round_at 50000 ProviderJobStatus.running ∷ []) waiting_db (1 ∷ []) (tt, tt)
      (quiet, tt) waiting-IsSound
