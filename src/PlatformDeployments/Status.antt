-- ===== src/PlatformDeployments/Status.antt =====
-- The lifecycle of a platform deployment (src/db/schema/platformDeployments.ts), and
-- `normalizePlatformDeploymentStatus` of src/services/operations/platformDeploymentService.ts.
use qubit_hosting_panel.Common.{Bool, true, false, ◌||◌, if◌then◌else◌}
use qubit_hosting_panel.Common.Text.{Text, codes, contains, to_lower}

pub data PlatformStatus : Type 0 where
  queued running succeeded failed cancelled : PlatformStatus

-- `ACTIVE_STATUSES.includes(status)`
abbrev pub is_active : PlatformStatus → Bool
is_active PlatformStatus.queued = true
is_active PlatformStatus.running = true
is_active _ = false

-- `['succeeded', 'failed', 'cancelled'].includes(status)`
abbrev pub is_completed : PlatformStatus → Bool
is_completed PlatformStatus.succeeded = true
is_completed PlatformStatus.failed = true
is_completed PlatformStatus.cancelled = true
is_completed _ = false

abbrev pub says_failed : Text → Bool
says_failed n = contains (codes "failed") n || contains (codes "error") n

abbrev pub says_cancelled : Text → Bool
says_cancelled n = contains (codes "cancelled") n || contains (codes "canceled") n

abbrev pub says_succeeded : Text → Bool
says_succeeded n =
    contains (codes "finished") n
    || contains (codes "succeeded") n
    || contains (codes "success") n
    || contains (codes "completed") n

abbrev pub says_queued : Text → Bool
says_queued n = contains (codes "queued") n || contains (codes "pending") n

unfoldable pub normalize_platform_deployment_status : Text → PlatformStatus
normalize_platform_deployment_status status =
    let n = to_lower status in
    if says_failed n
    then PlatformStatus.failed
    else (if says_cancelled n
        then PlatformStatus.cancelled
        else (if says_succeeded n
            then PlatformStatus.succeeded
            else (if says_queued n then PlatformStatus.queued else PlatformStatus.running)))
