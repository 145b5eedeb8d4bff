-- ===== src/Lib.antt =====
-- ShiftMate Web: the backend's shifts, pay rates, summaries, imports and exports.
--
-- The backend is a FastAPI application over PostgreSQL. A request is one transaction on the rows of
-- one user; a service checks its input with the pure domain, reads and writes through a repository,
-- and raises an error with a code. Imports read a schedule with an extraction model, are reviewed
-- item by item, and are committed to shifts; the analytics summarise the shifts of a range with the
-- pay rates of their days; exports write them as an iCalendar file; a daily job cleans up. A user
-- may connect a calendar, which is then kept in step with the shifts, and may upload policies, from
-- which questions are answered; an assistant answers questions on both, and tools for a model offer
-- the same services, read only.
--
-- Files, and the code that they model:
--   Domain            backend/app/domain: Schedule is schedule.py (Shift and PayRate with
--                     __post_init__ as make_shift and make_pay_rate, calculate_shift, and
--                     duration_hours in Schedule/Hours), Analytics is analytics.py, Decimal the part
--                     of Python's decimal that they use, Zone dates, instants and time zones
--   Database          the records of backend/app/repositories as rows and the tables of a user; Rows
--                     has the statements on a table, Transaction the rollback of
--                     backend/app/core/database.py
--   Shifts            backend/app/services/shifts.py with backend/app/repositories/shifts.py
--   PayRates          backend/app/services/pay_rates.py with backend/app/repositories/pay_rates.py
--   Analytics         backend/app/services/analytics.py
--   Imports           backend/app/services/imports.py; Normalize is _normalize_extracted, Tables
--                     backend/app/repositories/imports.py
--   Ics               backend/app/services/ics.py
--   RateLimiter       FixedWindowRateLimiter of backend/app/core/http_security.py
--   HttpErrors        the error answers of backend/app/core/http_security.py
--   Maintenance       backend/app/services/maintenance.py: perform is _perform, and the three
--                     transactions of run are claim, finish and fail, which step puts in the order
--                     in which those of several runs come
--   Policies          backend/app/services/policy_text.py: chunk_policy_pages, and Extract for the
--                     pages; Documents is backend/app/repositories/policies.py with the operations of
--                     PolicyService, Prepare prepare_chunks, Uploads create_policy of
--                     backend/app/api/v1/policies.py, Answers backend/app/services/retrieval.py with
--                     retrieve_evidence and answer_question
--   Calendar          sync of backend/app/services/calendar.py; Tables is
--                     backend/app/repositories/calendar.py, Calls what is asked of the provider,
--                     OAuth backend/app/services/calendar_security.py, Callback calendar_callback of
--                     backend/app/api/v1/calendar.py, Exports backend/app/services/calendar_exports.py
--   Assistant         backend/app/services/assistant.py, its graph unrolled; State has its records,
--                     Rules is evaluate_consecutive_days, Routing deterministic_route
--   Quotas            backend/app/core/quotas.py and the counting functions of
--                     migrations/versions/20260903_0006_security_quotas_and_maintenance.py
--   Auth              the checks of backend/app/core/auth.py and backend/app/mcp/auth.py
--   UploadFiles       backend/app/services/upload_validation.py
--   Mcp               backend/app/mcp/operations.py and the invoke of backend/app/mcp/server.py
--   Prelude           shared names, Boolean tests, lists, texts and results that may be errors
--   Examples          data for the tests, which stand in a module Tests of each part
-- The other children hold proofs and are named for what they prove.
--
-- Numbers and time: dates are ordinals, instants and durations microseconds, all natural numbers; a
-- difference is taken only where the code has tested the order, or stops at zero where the source's
-- would be negative and the branch is not reached. A Decimal is a coefficient with its places, kept
-- to 28 digits with rounding to even as the default context does; negative and special values occur
-- only in what a caller gives and are refused. count_digits recurses on fuel, the number itself,
-- which is enough, and chunks_from on the length of the page, since each round goes on by a character
-- at least. The loops of the source are recursion on their lists.
--
-- Parameters: the zone database (Zones), the extraction model (Extractor), how Python prints ids,
-- instants, dates and numbers (Printer), the calendar provider with the cipher of its token
-- (Provider), Fernet, json and urlparse (Calendar.OAuth's Library), the embeddings and the order
-- of their scores (Embeddings, Scoring), the models that answer (GroundedAnswerer, Assistant),
-- and PyJWT (TokenLibrary), and the digest, the suffix and the pages of a file (FileLibrary). A
-- reply of the provider may depend on the round of the loop, and what other requests do between
-- two transactions of an upload is a function on the tables. The ids that the database draws and
-- the clock are arguments. Row-level security is the choice of the rows of one user, and the
-- advisory lock of the pay rates and the lock of the limiter make an operation one step.
--
-- Not modelled: routing and serialisation (libraries around the services), the clients of
-- external services, the authorization URL, the bearer header and the internal secret, the
-- frontend, the migrations beyond the constraints and functions that the operations meet, and the
-- deployment. The unique constraint on the events of a calendar's rows is not tested by a write.
-- The raw payload of an item is kept only as far as it is read again, and the owner's id is left
-- out of the rows.
pub mod Prelude
pub mod Domain
pub mod Examples
pub mod Database
pub mod PayRates
pub mod Shifts
pub mod Analytics
pub mod Imports
pub mod Maintenance
pub mod RateLimiter
pub mod HttpErrors
pub mod Ics
pub mod Policies
pub mod Calendar
pub mod Assistant
pub mod Quotas
pub mod Auth
pub mod Mcp
pub mod UploadFiles
