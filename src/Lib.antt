-- ===== src/Lib.antt =====
-- A model of the FX engine: customers hold balances in four currencies, receive credits, ask for quotes
-- priced from stored rates, and execute a quote once. A request passes the middleware, is read by the
-- schemas, and reaches an endpoint, which calls one service in a database session of its own; the
-- repositories are the services' only way to the tables.
--
-- Which file models which part (paths from the repository's root):
--   Money, Money/Arithmetic, Money/Printing: app/utils/money.py (Currency, round_money, round_rate,
--     decimal_to_str), with the decimal arithmetic of Python's default context that the services use on
--     amounts and rates.
--   Errors: app/utils/errors.py (ApiError and its constructors), and the other exceptions as values;
--     Errors/Responses has problem_response and the three handlers.
--   Middleware: app/middleware/request_id.py. Text has the calls of str that it and Application make.
--   Application: app/main.py, the handler of validation errors and the choice of a handler.
--   Api/Schemas: app/api/schemas, what is accepted of a body and the responses' fields.
--   Api/Routes: app/api/routes, one function per endpoint.
--   Settings: app/configs/settings.py.
--   Schema, Schema/Columns: app/db/models.py, one record per table and one of all tables.
--   Session, Session/Backend: app/db/session.py (get_db) and the calls made in a SQLAlchemy session.
--   Observability: the counters of app/utils/observability.py; log_event stands in Session.
--   Repositories/Balances, Repositories/Ledger, Repositories/Rates: app/repositories/balances.py,
--     ledger.py and rates.py, one function per function.
--   Customers: app/services/customers.py.
--   Quotes, Quotes/Pricing: app/services/quotes.py.
--   Rates, Rates/Provider: app/services/rates.py.
--   Executions, and below it Rejections, Checks, Movement: app/services/executions.py; execute_quote is
--     cut into its steps, composed in the order of the source.
--   Concurrency/Phases: app/services/executions.py again, a call of execute_quote cut at the statements at
--     which it may wait for another transaction; Concurrency/Views has what a session sees between two
--     of them, and Concurrency/Interleaving the steps of any number of sessions.
--   Startup: create_all of app/db/session.py, with the triggers of that file and of app/db/models.py.
--   System/Requests: the table of routes, and a request in the session of get_db. System/Http: a request
--     from the middleware to the response, with the handlers where Starlette runs them.
-- The other files below these hold lemmas, named for what they are about; Concurrency/Protocol states what
-- a phase may do to the tables, Concurrency/Invariant what holds between steps; System/Sound has the invariant
-- of the tables, System/Effects says what each route does, System/Runs is about sequences of requests,
-- and Tests has the concrete runs.
--
-- A call is a function from a World (the transaction, the clock's readings, the next identifier, the
-- counters and the log) to an outcome, a value or an exception, and the World after it. What was counted
-- or logged before an exception stays. The database engine is an argument, Engine: how a transaction
-- begins, commits and rolls back, how an identifier prints, the digest of a request, and what a test has
-- put in the place of the debit hook. What is relied on is IsTransactional: a commit publishes what was
-- flushed, a rollback drops it. The rate provider's answer is an argument of fetch.
--
-- Money is a whole number of hundredths, a stored rate a number of units of 10 ^ -10, a time a number of
-- microseconds; a Decimal is a coefficient and a scale, and arithmetic rounds to 28 digits, half to even.
-- A NUMERIC(20, s) column holds coefficients below 10 ^ 20; beyond it an insert raises. count_digits
-- takes its argument as fuel, which is enough since a number has no more digits than its value. Tables
-- that only grow are lists, the newest row first; balances, idempotency keys and current rates are maps
-- from the columns of their unique constraints. A call of uuid4 gives a number that no earlier call gave.
--
-- What the framework makes of a path, its UUIDs and a body is the argument Routed: an operation, an
-- HTTPException or a list of errors of validation; the parser of decimals in a body is an argument of
-- amount_field, and whether SELECT 1 goes through one of readyz. A text is a String where it is only
-- compared or printed, and the list of its characters where its parts are read.
--
-- Calls that run at the same time: every session sees what the others have committed with its own pending
-- rows over it, as under READ COMMITTED, and its next statement is run only while no other session holds
-- the lock that it takes: the key that it inserts, the quote, the zero row that it inserts for a balance,
-- the balance. Between two phases any other request may be served, with two conditions: a credit waits
-- for its balance, and the identifier of a new quote is none that a call names already. These other
-- requests do not wait for an uncommitted zero row, so that there are more interleavings here than in
-- Postgres. A call has nine phases, which is the fuel of a run alone.
--
-- The start of the application is a list of statements, what SQLAlchemy emits for the events and the
-- missing tables, run one after another; what is relied on is IsDocumented: the order of the events, and
-- what Postgres does with each of the four kinds of statement.
--
-- Not modelled: the text of /metrics and the latency histograms, which are output only; foreign keys,
-- identifiers that nothing refers to, timestamps that the database fills and the printing of times; the
-- advisory lock of a refresh, and two requests at the same time of which neither is an execution.
pub mod Prelude
pub mod Money
pub mod Text
pub mod Errors
pub mod Settings
pub mod Schema
pub mod Session
pub mod Repositories
pub mod Observability
pub mod Executions
pub mod Customers
pub mod Quotes
pub mod Rates
pub mod Middleware
pub mod Application
pub mod Api
pub mod System
pub mod Startup
pub mod Concurrency
pub mod Tests
