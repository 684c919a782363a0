-- ===== src/Lib.antt =====
-- The Baptist API (`app/`, `migrations/`): a FastAPI service over PostgreSQL, whose tenants are kept
-- apart by row-level security and whose spending passes an approval ladder.
--
-- The parts and how they meet. A request is authenticated (`app/core/security.py`), its claims become
-- a request context (`app/deps.py`), and one transaction binds the context to the database
-- (`app/db/rls.py`), where the functions of the schema `app` read it back
-- (`migrations/versions/0002_roles_and_functions.py`). In that transaction the approval ladder
-- (`app/services/approval_ladder.py`) quotes a price, and later executes at a new price after the
-- checks of the preview, of the budget (`migrations/versions/0004_audit_and_cost.py`) and of the
-- idempotency key, and writes an audit card (`app/services/audit.py`). Every error ends in a problem
-- response (`app/core/errors.py`).
--
-- The files.
--   Prelude    Boolean tests, lists and integers over the native numbers.
--   Problem    `app/core/errors.py`, and `ProblemCode`, `FieldError`, `Problem` of
--              `app/schemas/common.py`. `Problem.Api` has the handlers: an exception is a value of
--              `AppException`, and `handle` is the choice of a handler that `create_app` registers.
--   Db         `Db.Rows`: a record for a row of each table of `app/models`. `Db.Statements`: a
--              statement takes the caller and the tables and gives a value and new tables, or an
--              error; a transaction is aborted by the first error of a statement, and refuses every
--              later one. `Db.Rls`: the functions, the trigger and the policies of migration 0002.
--              `Db.Context`: `tenant_context`, with the settings that are local to a transaction and
--              those that outlive it.
--   Cost       `cost.month_spend` and `cost.assert_budget`.
--   Audit      `audit.write_card` and the service function that calls it.
--   Ladder     `create_preview`, `_evaluate_gates`, `execute`, `_load_preview` and
--              `_find_existing_approval`, each under its own name without the underscore. A sequence
--              of `await`s is a do block; `Exec` passes the transaction and ends at an exception.
--   Security   `app/core/security.py`: `AuthenticatedUser.from_claims`, `JwksCache` with its lock and
--              what it fetches, and `TokenVerifier`, over the functions of PyJWT as parameters; and
--              `app/deps.py`.
--   Config     `app/config.py`: the parsing of the CORS origins, and the check of a deployed
--              environment.
--   Locations  `app/routers/locations.py`, `app/services/location.py`, the repositories, the schemas of
--              `app/schemas/location.py`, and the policies and constraints of
--              `migrations/versions/0003_location.py`: listing, reading, creating, changing.
--   Web        `app/core/etag.py`, `app/core/idempotency.py`, `app/core/envelope.py`, `_request_id` and
--              the middleware of `app/main.py` with the context of the logs, and the replies that
--              the routes share, conditional ones among them.
--   Identity   `GET /v1/me`, `app/routers/identity.py`.
--   Health     `app/routers/health.py`, and `check_ready` of `app/db/session.py`.
--   History    runs of whole requests, which are quotes, executions for a caller of any tenant, and
--              added and changed locations: what holds of every session that they lead to, and that the
--              answers keep the promise of the idempotency keys (`History.Receipts`), which is said
--              there without tables.
--   Migrations `migrations/versions`: every statement as data (`Migrations.Spine`, `Access`, `Places`,
--              `Spending` and `Approving` are 0001 to 0005), what a statement does to the schema
--              (`apply`), which statements have all that they name (`accepts`), and what privileges and
--              policies permit (`may`).
--   Architecture  `scripts/check_architecture.py`, over the files and the tracked paths of a checkout.
--   Examples   concrete inputs, and the theorems at them.
--
-- Amounts. Money is a whole number of ten-thousandths of a dollar, the last place of
-- `Numeric(12, 4)`; caps, which have two places, are multiples of a hundred. Prices with more places,
-- which PostgreSQL rounds on storing and Python's `Decimal` divides to 28 digits, are not modelled.
-- The range of the column is modelled (`fits_12_4`). Time stamps count microseconds. Identifiers are
-- numbers; how a UUID is printed and read is a parameter (`UuidText`), with the round trip as its
-- documented behaviour. JSON texts are parameters (`Codec`).
--
-- From outside. The work that an execution dispatches is a parameter: a function of the tables that
-- gives an outcome and new tables. `now()`, `current_date`, Python's clock and the next identifier are
-- the fields of `Env`. There is no fuel: every loop of the modelled code runs over a list.
--
-- Time. Requests of a run follow one another. What others commit meanwhile is modelled for one
-- execution, between its statements (`Ladder.Concurrent`); for the rest a transaction is alone.
--
-- Not modelled: the output of the logs, the CORS middleware, the engine and its pool, and
-- `migrations/env.py`; the bodies of the functions in the schema of the migrations, which stand in
-- `Db.Rls`, `Cost` and `Audit` instead; HTTP, JSON parsing and what pydantic checks before a handler
-- runs.
pub mod Prelude
pub mod Problem
pub mod Db
pub mod Cost
pub mod Audit
pub mod Ladder
pub mod Security
pub mod Config
pub mod Locations
pub mod Web
pub mod Identity
pub mod Health
pub mod History
pub mod Migrations
pub mod Architecture
pub mod Examples
