-- ===== src/Lib.antt =====
-- The backend of the portal (apps/backend), a service that scans projects for vulnerable and badly
-- licensed components and lets a team decide on what it finds. This library models its core and
-- proves what makes it correct.
--
-- The parts. A request is authenticated into a principal (core/security.py); a service loads rows,
-- checks the principal's team (core/authz.py), changes the rows and commits. A user triggers a
-- scan, a worker runs it (tasks/scan_source.py) and leaves findings on it; the team triages the
-- findings (services/vulnerability_service.py) and decides on components
-- (services/component_approval_service.py); a build asks the policy gate for a verdict
-- (services/policy_gate.py). The worker reaches Dependency-Track through a circuit breaker
-- (integrations/dt/breaker.py). Super admins change roles and deactivate users
-- (services/admin_user_service.py), which ends the users' sessions (services/auth_service.py).
--
-- The files.
--   Prelude         Boolean tests on the native numbers, lists, tables read and written by key,
--                   results of code that may raise, sorting and paging
--   Samples         a small store for the examples
--   Model           the rows of models/*.py and the store, one list for each table
--   Security        core/security.py, core/authz.py: roles, principal, gates, team check
--   Triage          services/vulnerability_service.py: workflow, guard and update of a finding, with
--                   the audit row of core/audit.py, and in Triage.History its status history
--   Approvals       services/component_approval_service.py: list, get, create, transition, delete
--   Breaker         integrations/dt/breaker.py and health.py, over four Redis keys
--   PolicyGate      services/policy_gate.py: the verdict of a project
--   AdminUsers      services/admin_user_service.py and the trigger of alembic/versions/0013
--   Scans           services/scan_service.py, cancel_scan of services/admin_scan_service.py, and in
--                   Scans.Worker the commits of tasks/scan_source.py
--   Sessions        services/auth_service.py: issue, rotation, reuse detection, logout
--   Oauth           services/oauth_service.py: the callback of a login, its checks in Oauth.State and
--                   the search for its user in Oauth.Resolution; in Oauth.Identities
--                   services/oauth_identity_service.py: accounts listed and unlinked
--   PasswordReset   services/password_reset_service.py: requesting and consuming a reset token
--   AdminTeams      services/admin_team_service.py: the members of a team, and in AdminTeams.Teams
--                   the teams themselves with the cascade of a delete
--   ApiKeys         services/api_key_service.py and core/api_key_auth.py: in ApiKeys.Bearer the text of
--                   a key, in ApiKeys.Present its use, in ApiKeys.Steps lists, revocation and runs
--   Webhooks        services/webhook_service.py: deliveries of GitHub and GitLab; in Webhooks.Payload
--                   signatures in hexadecimal, repository URLs and the fields of a payload
--   Projects        services/project_service.py: create, list, get, update, archive
--   Search          core/sql_safety.py, and the pattern of the list queries
--   Masking         core/pii_mask.py, on the values of Json
-- Each parent file declares the operations, its child modules prove one thing each, and the
-- module Examples applies the theorems to concrete stores.
--
-- How code becomes definitions. A coroutine of a service is a function from the store and a
-- request to a result and the store after the commit; an exception is an `err` and leaves the
-- store, except where the code commits before it raises. UUIDs and moments are numbers, and the
-- ones that the database or the clock supplies are fields of the request. Where a service checks
-- rows that it has loaded without a lock, the model takes two stores: `seen`, the snapshot that
-- the checks read, and `db`, the store that the commit meets with its indexes and its trigger;
-- `seen` is arbitrary, so a run over requests covers the interleavings of their transactions; where
-- a property needs a snapshot that is current in some column, that is a hypothesis of it. An
-- operation that takes one store locks its row first, or is modelled with nothing in between its
-- reads and its commit. Rows that are written after an unlocked read (the delete of an approval, the sessions that a deactivation or a
-- password reset ends, the scans that the delete of a team looks for) are those of the snapshot. The
-- trigger on users counts in rows of its own, since it holds off no other transaction. An audit
-- row has the moment at which its transaction started. Calls of the breaker are split into the
-- steps before and after the callable for the same reason. A session of the worker is a single
-- step, and so are record_success and record_failure of the breaker, each with all its commands.
-- A read of an attribute that a rollback has expired is an `err` like any other exception.
--
-- Bounds and fuel. Only the chain walk of Sessions uses fuel: one more than the number of rows,
-- which the walk cannot exceed, as it visits no row twice. Numbers are unbounded, as in Python; a
-- column's width is not reached by the modelled code, which only adds one to a version or a count.
--
-- Texts. Where the code only compares a text it is a `String`; where it walks the characters it is a
-- list of code points, and white space and case are those of Latin-1 and ASCII text. bcrypt, HMAC and
-- SHA-256 are parameters with the behaviour that the code relies on as hypotheses; random bytes are
-- arguments.
--
-- Not modelled: HTTP parsing and responses, logging, settings, token coding, what the scan stages
-- compute and store, the restart of a container, commits that fail for other reasons than a
-- constraint, and the remaining operations and services (the calls to OAuth providers,
-- notifications, project details, licenses, exports, backups).
pub mod Prelude
pub mod Samples
pub mod Model
pub mod Security
pub mod Triage
pub mod Approvals
pub mod Breaker
pub mod PolicyGate
pub mod AdminUsers
pub mod Projects
pub mod Scans
pub mod Sessions
pub mod Oauth
pub mod PasswordReset
pub mod AdminTeams
pub mod ApiKeys
pub mod Json
pub mod Webhooks
pub mod Search
pub mod Masking
