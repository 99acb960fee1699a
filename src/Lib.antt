-- ===== src/Lib.antt =====
-- A model of the backend of a YClients business-intelligence portal: the synchronization subsystem
-- (a job queue in PostgreSQL, a register of runs, a worker and an orchestrator under one advisory
-- lock), the listings of the YClients API, and the authorization of the portal (roles, access
-- scopes, refresh-token sessions, the principal of a request, the ownership of branches).
--
-- The API puts jobs in the queue; the worker claims the oldest one and calls the orchestrator, which
-- takes the lock, opens a run, calls the pipeline, records its events on the job and closes the run;
-- an idle worker closes what a dead one has left running, tops the queue up and sweeps old rows.
-- Sync.Integrity.Steps lets all these operations happen in any order. A request to the API is
-- answered within the scope of its principal, whom Auth.Deps resolves from the access token and whose
-- session lives in the refresh tokens. The listings read a window of days in pieces of one page; the
-- pipeline calls them. A branch belongs to one tenant, and Portal.Ownership says when it may move;
-- Portal.Staff keeps the rows that stand for a user in the branches.
--
-- Files, and the code that each of them models:
--   Prelude                    names, tests, lists, SQL on lists of rows, keyed tables, texts
--   Sync/Tables                models.py: SyncJob, SyncJobEvent, SyncRun, SyncState
--   Sync/Parsing               sync_parsing.py: serialize_dt, parse_date of a text, parse_datetime,
--                              parse_datetime_start, parse_datetime_end
--   Sync/State, Sync/Control   sync_control.py: SyncControlService
--   Sync/Jobs, Sync/Progress   sync_jobs.py: SyncJobService
--   Sync/Integrity             the invariant of the tables of both services
--   Sync/AutoEnqueue           sync_worker.py: enqueue_auto_sync_jobs_if_due
--   Sync/Orchestrator          sync_orchestrator.py: run_sync_job; the lock of sync_control.py
--   Sync/Worker                sync_worker.py: process_next_job, reap_orphans_if_no_sync_running
--   Auth, Auth/Hierarchy       auth_hierarchy.py, and the roles of models.py
--   Auth/Metrics               plan_config.py: the money metrics
--   Auth/Scope                 auth_scope.py
--   Auth/Sessions              auth_sessions.py; sync_security.py: secure_equals
--   Auth/Tenancy               the branches and the staff rows of a user in auth_service.py; the
--                              visible money metrics in auth_deps.py
--   Auth/Deps                  auth_deps.py; open_paths.py
--   Yclients/Paging            yclients_api.py: the paginated and the dated listings
--   Portal/Ownership           portal_tenant_ownership.py; data_sources.py:
--                              companies_claimed_elsewhere
--   Portal/Staff               portal_staff_sync.py: the staff rows of portal users
--   Tests                      concrete rows and inputs
-- A function keeps the name that it has in the source, without a leading underscore. A step of a
-- long function has a name of its own, and the comment above it says which step it is.
--
-- How the code is modelled:
--   * A table is the list of its rows, and a sequence the next id that it gives. An operation takes
--     the database and returns it, committed. A query with ORDER BY and LIMIT 1 sorts and takes the
--     head. A call that raises has written no table; an event with its progress is one call, and so
--     is the closing of a run. The test of the advisory lock may have taken the lock before it
--     raised, a close that raises gives nothing back and skips the ones behind it, and a write on
--     the worker's session raises once an earlier write on it has raised.
--   * A moment is a natural number of microseconds. One reading of the clock serves one call. The
--     difference of two moments is compared as a sum, since natural numbers have no negative part. A
--     negative setting, which the code treats like 0, is a 0.
--   * A text is the list of its code points, and `lower` lowers ASCII letters. A role is a data type
--     with one constructor for every other text.
--   * A set of integers is a list, in which neither order nor repetition matters.
--   * The datetime module is the interface DateTimeText, with the laws that the code relies on. The
--     pipeline, the log file, SHA-256, the random tokens and the signing of access tokens are
--     parameters, and so is every exception that a call may raise.
--   * An HTTPException is the value `refused` of the type Reply. A request that is refused has
--     written what it committed before, and nothing else.
--   * The server of YClients is a parameter: a function of the number of requests sent, of the
--     parameters and of the page. PyJWT is a parameter, a function from tokens to claims.
--   * Loops on rows are structural. The page loop and the halving of a window run on fuel: 2,001
--     rounds without a budget, since the code refuses page 2,001; one round more than the allowed
--     requests with one, since each round counts a request; and the length of the window in days
--     plus one, since a half is shorter. Out of fuel the model gives `stuck`, which is no result of
--     the code.
--
-- Not modelled: the pipeline and its network calls other than the listings, the SQL of the dashboard
-- and of the reports, the routes, credentials and their encryption, cookies, printing and logging,
-- notifications, the web front end, migrations and deployment: third-party calls, SQL texts, other
-- languages or glue. Of the staff rows, the retry of an insertion that lost its id and the flag that
-- something was written.
pub mod Prelude
pub mod Sync
pub mod Auth
pub mod Yclients
pub mod Portal
pub mod Tests
