-- ===== src/Lib.antt =====
-- The hosting panel sells plans, takes payments, enforces quotas and provisions applications at a
-- hosting provider. The definitions below translate its services and controllers; the theorems of
-- the last list are what makes them correct.
--
-- The parts and their files:
-- * Provisioning (src/services/provisioning/provisioningService.ts): Provisioning/Model.antt is
--   the rows, Provisioning/Queue.antt queueInitialProvisioning, Provisioning/Claim.antt the
--   select and the guarded update of processProvisioningJobs, Provisioning/Pass.antt its try
--   block and catch with the writes in Pass/Records.antt, Provisioning/Worker.antt its loop. A
--   pass is a function of the claimed job, the database and the answers of the provider and of
--   the credential store; a thrown error is a value, and what was written before it stays
--   written. The loop is structural recursion on the list of the rounds' answers, whose length is
--   the limit of the source, so that every run ends. Other processes may write between a select
--   and the update that claims.
-- * Quotas (src/services/usage/quotaEngine.ts): Quota/Decision.antt is evaluateQuota,
--   Quota/Entitlement.antt effectiveEntitlement, Quota/Reservations.antt reserveWorkspaceUsage,
--   commitUsageReservation and releaseUsageReservation. The advisory lock makes the transaction
--   of a reserve one step; an effective entitlement is an argument of it.
-- * Payments (src/controllers/PaymentController.ts): Payments.antt is initiate and
--   applyProviderResult. What other requests write while the provider opens an order is an
--   argument. A payment that completes a checkout leads to the queue of Provisioning when the
--   workspace is set up.
-- * Platform deployments (src/services/operations/platformDeploymentService.ts):
--   PlatformDeployments/Status.antt is the lifecycle and the reading of provider statuses,
--   Rows.antt the table with its unique index, Start.antt startPlatformDeployment, Refresh.antt
--   refreshPlatformDeployment, listPlatformDeployments and getPlatformDeployment. The log
--   sanitizer is an arbitrary function. A refresh works on a row that was read before, while
--   other processes write.
-- * Provider webhook (src/controllers/CoolifyWebhookController.ts): Webhook.antt is receive,
--   which writes the resources, builds and deployments of Provisioning/Model.antt while the
--   worker owns the jobs.
-- * Sessions (src/services/auth/authenticatedSessionService.ts,
--   src/controllers/SessionController.ts): Sessions.antt is authenticateSession and the
--   operations of a user on sessions; the check of a token's signature is a parameter.
-- * Authorization (src/services/authorization/permissionService.ts and
--   adminAuthorizationService.ts): Authorization.antt is getEffectivePermissionCodes and
--   authorizeAdmin, for a session of Sessions.antt.
-- * Entitlement backfill (src/services/subscriptions/subscriptionEntitlementBackfillService.ts):
--   Backfill.antt is mergeMissingEntitlements and backfillSubscriptionEntitlements, on the
--   snapshot items of Quota/Entitlement.antt.
-- * Deployment recipe (src/services/applications/deploymentRecipeService.ts): Recipe.antt is
--   buildSafeInstallCommand and resolveDeploymentContract with its checks, for the entry that the
--   catalogue has of a framework.
-- * Release commands (src/services/applications/applicationReleaseSettingsService.ts):
--   Release.antt is the default policy, the quoting of a command for the shell and
--   applicationPostDeploymentCommand. Printing a number takes one more unit of fuel than the
--   number, which is enough since each step divides by ten.
-- * Environment (src/services/applications/frameworkDatabaseEnvironmentService.ts):
--   Environment.antt is the variables of database connections, with the ones that deploymentInput
--   of the worker adds per binding; encodeURIComponent is a parameter.
-- * Environment files (app/utils/envFileParser.ts): EnvFile.antt is closingQuoteIndex and
--   decodeValue, EnvFile/Lines.antt the cutting of lines and isLikelySecretEnvKey,
--   EnvFile/Parse.antt parseEnvFile; the scan for a closing quote goes forward and counts the
--   backslashes that the source counts backwards. The loop over the lines has the number of lines
--   as its fuel, since every round takes one line at least.
-- * Authentication (src/controllers/AuthController.ts, src/services/auth):
--   Authentication/Model.antt is the rows and the hashes of codes, Codes.antt, Requests.antt and
--   Resends.antt requestOtp and resendOtp, Verification.antt verifyOtp, Tokens.antt refresh,
--   logout and switchContext on the sessions of Sessions.antt, Handoffs.antt createHandoff and
--   consumeHandoff. A request that reads, waits and writes is two definitions, and Writes.antt
--   and Parallel.antt put the writes of many requests in any order. Hash functions, the cipher of
--   codes (which throws where the environment has no key), the check and the signing of tokens,
--   URL parsing and the delivery of a message are parameters; a thrown error or an early response
--   is a value. Not modelled: the signing of the access token in createSession, cookies, and the
--   docs session of switchContext.
-- * Provider reconciliation (src/services/hosting/providerReconciliationService.ts and
--   managedCoolifyProvider of providerConnectionService.ts): Reconciliation/Snapshot.antt is the
--   sanitizer and the statuses, Inventory.antt the loop over the listed items, Runs.antt the run,
--   on the resources that Provisioning also writes. The listings are arguments, and so is whose
--   token can be decrypted; an error of a listing is a value.
-- * Database transfers (src/services/databases/databaseTransferJobService.ts):
--   Transfers/Model.antt is the table with its unique index, the enqueues and the actions of a
--   user, Execution.antt executeJob, Worker.antt processDatabaseTransferJobs. The limit of a pass
--   is its fuel, as in the source. The answers of the engines, the backup, the storage and the
--   audit log are functions of the job.
-- A table is the list of its rows (Common/Table.antt): limit(1) takes the first row, an update
-- its where. A uuid is a number, a timestamp a number of milliseconds, a soft deletion a flag, a
-- text that the code cuts or compares the list of its code units (Common/Text.antt). Numbers are
-- natural numbers, which is what the code stores in these columns.
-- Not modelled: the pages and components, the HTTP envelopes, the schemas and migrations beyond
-- the columns used, the clients of the hosting, payment, mail and source providers, encryption,
-- and the scripts.
pub mod EnvFile
pub mod Environment
pub mod Recipe
pub mod Release
pub mod Backfill
pub mod Authorization
pub mod Sessions
pub mod Webhook
pub mod PlatformDeployments
pub mod Common
pub mod Provisioning
pub mod Quota
pub mod Payments
pub mod Authentication
pub mod Reconciliation
pub mod Transfers
