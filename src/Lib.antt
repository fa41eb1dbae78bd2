-- ===== src/Lib.antt =====
-- Verification of groupware-migrator, a server that copies mail, calendars and address books from
-- one groupware server to another.
--
-- A client hands a request to the job manager (src/groupware_migrator/engine/background.py), which
-- creates a job in the state store (engine/state.py) and gives its run to a thread pool. The run
-- (engine/runner.py) builds a list of the collections to copy (engine/planner.py), and for each one
-- copies the items that the source connector yields to the destination connector
-- (connectors/base.py), unless it has recorded the item's fingerprint (engine/idempotency.py). It
-- writes counters, checkpoints, fingerprints and audit events to the store as it goes. When the
-- run has ended, the manager's callback may set a timer for a retry, and tells webhooks
-- (engine/webhooks.py) and users (engine/mailer.py). After a restart the store marks the jobs that were
-- running as failed. Requests also come from the rows of a table (engine/batch.py) and from schedules
-- (engine/scheduler.py, with the cron expressions of engine/cron.py); they can be checked before
-- (engine/preflight.py), or given to other processes (engine/redis_jobs.py).
--
-- The files, and the code that they model (paths below src/groupware_migrator):
--
--   Base         shared notation, Booleans, options, lists as tables, results, Python's strings and
--                dictionaries
--   Domain       models/domain.py: Types has the enumerations and dataclasses, Workload has
--                `_infer_workload` and `_validate_workload_protocols`, ToDict the `to_dict` methods,
--                FromDict the `from_dict` constructors
--   State        engine/state.py: Schema has the tables, Jobs the operations on jobs and audit events,
--                Progress those on checkpoints, fingerprints and sync cursors, Batches those on batches,
--                Accounts those on users, API keys and second factors, Schedules, Webhooks,
--                Organizations and OidcProviders those on these tables, Listings the listings of jobs and events, the
--                statistics and the clean-up, SyncKey `_sync_key_for_request`
--   Engine       Connectors: connectors/base.py; Idempotency: engine/idempotency.py; Planner:
--                engine/planner.py; Runner: engine/runner.py, where Items has the body of the loop
--                over the items and Run the rest of `run`, and Abstract says what a job promises without
--                the tables, which Refinement proves of the loop; Background:
--                engine/background.py; Cron, Scheduler, Webhooks, Mailer, Batch, Preflight,
--                Reporting and RedisJobs: the files of these names in engine
--   Api          RateLimit: api/rate_limit.py, the limiter of the login attempts
--   Tests        concrete connectors and stores, and the theorems applied to them
--
-- How the state corresponds. A table is a list of rows in the order of insertion, and the store is
-- the record of the tables with the time that a write reads, `clock`: it does not advance within an
-- operation or a run, and no theorem relies on its value. An operation of the store is a function
-- that returns the new store. The SQL of a statement is written out: an UPDATE changes the rows that
-- its WHERE clause selects, an INSERT ... ON CONFLICT updates the row of that key or adds one. Texts
-- of times are numbers of microseconds. Columns of JSON text hold the JSON value. A method
-- holds the lock of the store while it runs its statements, so that it is one step. A method that calls
-- others, as those on incremental cursors and on batches do, takes the lock once for each and is
-- modelled with no other call between them; `consume_totp_recovery_code`, where that matters, is the two
-- steps `read_codes` and `write_codes`.
--
-- A run takes the state of the destination, of any type, through every call of the destination
-- connector, failing ones included. A Python exception is a value: the run state has beside it the
-- exception that leaves the loop, and `conclude` is the `except` block. The source's generator of
-- items is the list of the items that it yields and the exception that ends it, if one does. The stop
-- event is a function of how often it has been read. A new job's id is a parameter; SHA-256, UTF-8, the
-- case mappings and the parser of mail headers are the fields of the record `Library`; the sync key
-- of a request is any function of the request that may raise, of which `sync_key_for_request` is the
-- source's. No theorem assumes anything of them. The protocol of a plugin is a text without the
-- attribute `value`: where the source reads that, the model raises. What the
-- constructors use of Python is the record `Builtins`: lower case, `int` of a text, `str` of a list, and
-- two exceptions; a theorem that needs it says that lower case is idempotent or keeps the values of the
-- enumerations. The days of `datetime` are the record `Calendar`, of which `IsCalendar` says that the
-- months follow one another. `csv.DictReader`, the answers of the web servers and the JSON encoder are
-- parameters as well.
--
-- The job manager's operations are functions on a record. A future is a number that stays in `active`
-- until its run ends; the run's end, its callback, a timer's firing and the clients' calls are the
-- steps of a relation, in any order, so that every interleaving of whole operations is covered.
--
-- Every loop is recursion on a list, but for two that run on fuel: `decimal`, which has one more than the
-- number that it prints, and the search of `cron_next`, whose fuel is the bound of the source's own loop,
-- 366 * 5 * 24 * 60: each turn passes over at least a minute, so it reaches every time within as many
-- minutes. Numbers are unbounded, as in Python; the source has no machine integers.
--
-- What is left out: the exceptions of the database itself, logging, the export of
-- the store, the texts of mails and the CSV form of reports, the threads that wait (`drain`, the
-- ticking of the scheduler), and the code that speaks to servers or the web: the connectors, the HTTP interface,
-- identity providers, PostgreSQL and the worker process.
pub mod Base
pub mod Domain
pub mod State
pub mod Engine
pub mod Api
pub mod Tests
