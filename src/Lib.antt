-- ===== src/Lib.antt =====
-- VAC, a self-hosted deployment platform: the Go API under api/internal. This library models the core
-- that decides which deployment runs when, and what its rows say.
--
-- The parts, and the files that model them:
-- - api/internal/deploy/status.go: Deploy/Status.antt. The status constants are data types,
--   IsTerminalDeploymentStatus is is_terminal, DeriveAppStatus is derive_app_status with the loop's
--   flags in Seen, MapPsStateToServiceStatus is map_ps_state.
-- - The deployments table, api/internal/store/deployments.go with the constraints of
--   api/internal/db/migrations: Deploy/Schema.antt has the rows, the constraints and what an INSERT or
--   an UPDATE does; Deploy/Table.antt has each statement under its Go name in snake case
--   (CreateDeployment is create_deployment); Deploy/Retention.antt has PruneDeployments;
--   Deploy/Statement.antt has all of them as one type. The rows are a list with the latest insert
--   first. Deploy/Invariant.antt has the order that the statements keep between them.
-- - api/internal/deploy/worker.go: Deploy/Worker.antt. The state is the queue, the number of goroutines
--   inside process, and the in-flight map; Deploy/Worker/Pool.antt runs any interleaving of the
--   events of handlers and goroutines.
-- - api/internal/server/handler/deployments.go and approvals.go: Deploy/Handlers.antt. A handler takes
--   the database, the worker and the app statuses, and returns them with the response; it calls the
--   statements and Enqueue as the source does.
-- - api/internal/webhook: Webhook/Trigger.antt has the refs and the trigger rules, Webhook/Verify.antt
--   the credentials, Webhook/Window.antt the deploy windows.
-- - Webhook of api/internal/server/handler/webhooks.go: Deploy/Delivery.antt, whose end, from the
--   coalescing check on, is webhook_deploy of Deploy/Handlers.antt. Deploy/Delivery/Terms.antt has
--   what a delivery is asked for, apart from the handler's own tests.
-- - api/internal/deploy/window_sweeper.go: Deploy/Sweeper.antt, with the query that feeds it.
-- - api/internal/compose/preflight.go: Compose.antt has the decoded document, Compose/Strings.antt the
--   Go library's functions on texts, Compose/Views.antt the parse pass, Compose/Tables.antt the matcher
--   tables, Compose/Preflight.antt the rules. Compose/Spelled.antt says what is taken for a way
--   to the host, Compose/Host.antt and Compose/Escapes.antt relate the report to it.
-- - api/internal/store/services.go: Deploy/Services.antt, each statement as a function of the rows.
-- - api/internal/deploy/pipeline.go with CheckWithRetry of healthcheck.go: Deploy/Pipeline.antt has the
--   state of a run and the record World of what is outside it, Deploy/Pipeline/Steps.antt the ways to
--   build a step, Fetch.antt, Stack.antt and Gate.antt beside it the stages, and Deploy.antt there Run,
--   cut into route, bring_up, build, body, started, load and run, from its last lines to its first. The
--   worker of Deploy/Worker.antt calls it; it calls the statements of Deploy/Table.antt, the preflight
--   and the statements of Deploy/Services.antt. Lifecycle.antt has the statuses that follow each other,
--   Stays.antt and Stages.antt the steps that leave the status alone, Ends.antt to Terminal.antt how a
--   run ends, Silent.antt and Blocked.antt what a blocked run calls.
-- - api/internal/crashloop/monitor.go: Crashloop.antt. The three maps are functions of the service's
--   key, handle is handle, and what it asks of Docker, the store and the notifier is a list of effects.
-- - api/internal/ws/hub.go: Ws.antt, whose methods are steps of the hub's state; Ws/Balance.antt has the
--   callbacks.
-- - api/internal/domainstatus: DomainStatus.antt, the engine's entries and the overlay of push errors;
--   DomainStatus/Active.antt says what a status stands for, DomainStatus/Apex.antt what an apex is.
-- - api/internal/proxy with the requests of api/internal/caddy/client.go: Proxy.antt has what the manager
--   reads and the record Caddy; Proxy/Names.antt, Proxy/Hosts.antt and Proxy/Routes.antt the names, hosts
--   and routes; Proxy/Apply.antt applyApp and what it calls, Proxy/Sync.antt the methods that take routeMu,
--   Proxy/Health.antt WaitHealthy. It tells the engine of DomainStatus.antt how a push went, and the
--   pipeline calls Sync, WaitHealthy, MaintainOn and MaintainOff. Proxy/Exposure.antt says what a route
--   exposes, Proxy/Reach.antt with its children and Proxy/Stays.antt what the methods keep, and
--   Proxy/Server.antt is a server that meets the laws of the record.
-- - api/internal/preview/preview.go with store/previews.go and DeleteApp of store/apps.go: Preview.antt has
--   the statements on the columns they use, with the cascade of apps.parent_app_id, Preview/Slug.antt
--   DeriveSlug and Preview/Service.antt the methods. A preview's deployment is a row of the table of
--   Deploy/Schema.antt, which Worker.Enqueue takes and Worker.Cancel interrupts; the handler of Webhook
--   takes the answers of the service as a parameter. Preview/Runs.antt has sequences of methods,
--   Preview/Cap.antt, Preview/Spared.antt, Preview/Valid.antt with Preview/Calm.antt,
--   and Preview/Full.antt the theorems.
-- - api/internal/auth/totp.go with store/users.go, server/handler/auth.go, totp.go and stepup.go: Account.antt
--   has the columns of an account and the statements on them, Account/Totp.antt the second factor and
--   Account/Login.antt the handlers. Account/Guesses.antt and Account/Lockout.antt count wrong
--   guesses, Account/Events.antt and Account/Replay.antt follow an accepted step. bcrypt, the box, the
--   TOTP generator and SHA-256 are the record Crypto, of which no law is needed.
-- - api/internal/jobs/scheduler.go: Jobs.antt, the slots of interval jobs and the in-flight set.
--
-- A UUID and a timestamp are natural numbers. NOW() and the UUID that the database draws are arguments.
-- Postgres may order rows of one instant as it likes: the argument `tie` stands for its choice. Texts
-- that the code takes apart are lists of their bytes. HMAC-SHA256, JSON decoding, the secret box, the
-- time zone table and the clock are parameters, and so is yaml.Unmarshal. The texts of the preflight are
-- ASCII. A loop is a recursion on a list, and CheckWithRetry's on its number of attempts; fuel is
-- that of fmt's %d, 20 digits, which hold any number of 64 bits, and that of the cascade that DELETE of an
-- app sets off, one step for each row of the table, since no app has more ancestors than that.
--
-- A run of the pipeline has the deploy's context as a count of the calls and statements that it still
-- lets through, any number or no bound at all; a call that the context cuts off has no effect. Each
-- program and package answers the same whenever it is asked in a run, and no other process writes the
-- row meanwhile.
--
-- The methods of the preview service and the login handlers run one after the other.
--
-- Not modelled: a lost database connection, logging, audit entries, the messages of errors and findings,
-- and the other packages under api/internal.
pub mod Account
pub mod Compose
pub mod Crashloop
pub mod Deploy
pub mod DomainStatus
pub mod Jobs
pub mod Prelude
pub mod Preview
pub mod Proxy
pub mod Webhook
pub mod Ws
