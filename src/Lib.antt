-- ===== src/Lib.antt =====
-- Verification of umbral: models of the service's own logic and the theorems that make it correct.
--
-- The durable job runtime (src/umbral/application/jobs/) runs background work. `submit` makes an
-- execution and the outbox row of its first attempt; a relay publishes due rows to a queue; a worker
-- that takes a message from the queue makes a `claim`, which gives it a lease, runs the handler and
-- gives the result or the exception to `record_outcome`; a reaper takes up executions whose lease
-- ran out; a scheduler submits commands that are due. The runtime's state is the record
-- `Jobs.State.Runtime`: the executions, the index of identities, the outbox and the schedules are
-- association lists in insertion order, as Python's dictionaries are. An operation is a function from
-- the runtime to the next one and a result; an exception is an `err`, and what was written before it
-- stays written. The runtime's re-entrant lock makes each operation one step.
--
-- Files and the code they model:
--   Prelude          shared types, dictionaries, results and lemmas
--   Text             characters, and the methods of Python's `str` as a parameter with laws
--   Audit            src/umbral/domain/audit.py: AuditActor, AuditContext
--   Jobs/Contracts   src/umbral/application/jobs/contracts.py: normalize_job_type, normalize_target,
--                    normalize_idempotency_key, JobIdentity, SubmitJob
--   Jobs/Failures    the same file: TransientJobError, PermanentJobError, classify_failure
--   Jobs/State       src/umbral/application/jobs/service.py: the records, `_snapshot`
--   Jobs/Submit      the same file: advance_time, submit, get, identity, correlation_id
--   Jobs/Lease       the same file: claim, _abandon_locked, reap_expired
--   Jobs/Outcome     the same file: record_outcome, complete, _json_object
--   Jobs/Relay       the same file: relay_due, pending_outbox_count, rebuild_outbox,
--                    reclaim_expired_outbox; src/umbral/application/jobs/relay.py
--   Jobs/Schedule    the same file: add_schedule, schedule_tick
--   Jobs/Invariant   the well-formedness of a runtime, kept by every operation
--   Jobs/Steps       the calls of the port JobRuntime (src/umbral/application/jobs/ports.py) as
--                    steps, and what every sequence of them keeps
--   Jobs/Guarantees  what the runtime promises its callers
--   Identity/Policy  src/umbral/domain/identity/policy.py: ACTION_RULES, authorize_roles
--   Identity/Models  src/umbral/domain/identity/models.py: users, role assignments, sessions
--   Identity/Events  src/umbral/domain/identity/events.py: validate_event
--   Identity/Store   src/umbral/infrastructure/db/repositories/identity.py: InMemoryIdentityStore
--   Identity/Authorization   src/umbral/application/identity/authorization.py: AccessControl
--   Identity/Administration  src/umbral/application/identity/administration.py: set_user_status,
--                    change_role, bootstrap_administrator
--   Identity/LinkStore  src/umbral/infrastructure/db/repositories/identity.py: the other tables
--   Identity/Email   src/umbral/domain/identity/email.py: normalize_email
--   Identity/Links   src/umbral/application/identity/access.py: requesting, issuing and confirming a
--                    magic link, logout, and the webhook of emails
--   Identity/Invitations  the preload of invitations (src/umbral/application/identity/administration.py)
--                    and the purge of requests (src/umbral/application/identity/retention.py)
--   Identity/Roles, Identity/Transactions  facts on assignments and on transactions
--   Identity/Attempts, Identity/Evolution  how the services change the table of attempts
--   Identity/Guarantees      what authorization, administration and the links promise
--   Radar/Profile    src/umbral/application/radar/contracts.py: SearchProfile
--   Radar/Filters    src/umbral/application/radar/hard_filters.py: apply_hard_filters
--   Radar/Policy     src/umbral/application/radar/profile_policy.py: validate_profile, can_transition
--   Radar/Guarantees what the filters let through and what a draft without errors is
--   Silver/Dedupe    src/umbral/application/silver/dedupe_policy.py: evaluate_pair
--   Silver/Guarantees  what is merged, and what is left for a review
--   Objects/Contracts  src/umbral/application/objects/contracts.py and ports.py: references, metadata
--   Objects/Repository src/umbral/application/objects/service.py: InMemoryObjectMetadataRepository
--   Objects/Service, Objects/Reconcile  the same file: VersionedObjects
--   Objects/View, Objects/Publishing, Objects/Puts, Objects/Runs  the abstract store that they implement
--   Objects/Guarantees what repeated puts, opening and reconciling return
--   Ingestion/Contracts  src/umbral/application/ingestion/contracts.py, and the tables of
--                    src/umbral/infrastructure/db/repositories/imports.py
--   Ingestion/Capture, Ingestion/Process  src/umbral/application/ingestion/service.py: process
--   Ingestion/Guarantees what every call of process keeps
--
-- A request is authorized by its session's token: `authorize` finds the session by the token's digest,
-- refuses it when it was revoked or idle, and asks the matrix of actions about the roles its user
-- has at that moment. Each service runs in a transaction of the store, which is a function of the store
-- here: an exception that leaves it restores every table (`Identity.Store.transaction`).
--
-- A magic link is requested, issued by a job and confirmed: the limiter counts the requests of an address
-- and of an origin, an issued link replaces the older one of its subject, and a confirmation verifies
-- the provider's proof, admits the user and starts a session. A service that calls a provider does so
-- between two transactions; the calls of one service are not interleaved with another's here.
--
-- A search profile is validated as a draft of untyped values before it is stored; its hard filters then
-- decide which listings are candidates at all, before any scoring. Listings of different sources are
-- compared in pairs, to find the ones that offer the same property.
--
-- Bodies are kept as object versions: `put` writes a pending row, uploads the bytes and makes the row
-- available; `reconcile_pending` decides the rows that an interrupted put has left. A client sees the
-- available rows only, as the abstract store of Objects/View.
--
-- An import's job calls `process`: it reads the raw batch from the object store, and captures, skips or
-- quarantines each record; what is transient is raised for a retry, what is not ends the run.
--
-- Identifiers (UUIDs) are numbers, and what `uuid4()` returns is an argument; a step that makes an
-- execution requires that it is fresh. Time is a count of microseconds; what a
-- call of `put` reads of the clock and generates is `Objects.Service.Readings`, anew in each call. Loops are structural recursions
-- over the lists they go through, so that there is no fuel. Parameters stand for code outside the
-- repository: the methods of `str`, the length of `json.dumps`, the text of an identifier and of a time
-- (`Jobs.State.Config`), the handlers' normalisers, the queue, the digest of a token, `str.casefold`,
-- the tests of floats (`Radar.Profile.Numbers`), and their arithmetic and the texts of the dedupe policy
-- (`Silver.Dedupe.Floats`, `Silver.Dedupe.Texts`), the digest of a body (`Objects.Service.Outside`) and
-- the provider of the bytes (`Objects.Contracts.ObjectStore`). The validation of an import's payload and
-- its hash are arguments too (`Ingestion.Capture.Reader`).
--
-- Not modelled: limits below zero of `rebuild_outbox` and `reap_expired`, a `retry_after` that is a
-- float, the wall-clock stamp of a classification, `submissions` and `submit_simple`; the reports and
-- exports of identities; the service of the radar and its scores; criteria, scoring, the service of
-- silver, the submission and the contract of imports, and the registry of events. The web interface,
-- the adapters to the database and to other services, the workers and the operations scripts are input
-- and output around the services.
pub mod Prelude
pub mod Text
pub mod Audit
pub mod Jobs
pub mod Identity
pub mod Radar
pub mod Silver
pub mod Objects
pub mod Ingestion
