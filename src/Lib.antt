-- ===== src/Lib.antt =====
-- The Balotly backend: paid voting, as a ledger in PostgreSQL, with background workers inside the
-- API.
--
-- The repository has at this point the database schema, the primitives below the API, and the
-- runtime for its workers; the routes are still empty. The modules follow its parts.
--
-- Base: what all modules share. Python's dicts are association lists in insertion order (Dict),
--   signed numbers stand over the native ones (Int), and a text that is walked is a list of its
--   UTF-8 bytes (Text).
-- Schema: the ten tables of api/v1/models, which alembic/versions/07f7b6151968_initial_schema.py
--   creates. Rows has a record for each model; Sql the three-valued conditions, under which a CHECK
--   constraint refuses a row only where it is false; Checks the constraints and the column types;
--   Constraints the foreign keys, the unique indexes and the order of the tests; Statements what
--   INSERT, UPDATE, DELETE (with CASCADE, RESTRICT and SET NULL) and the triggers of `votes` do. A
--   statement runs on its own: one that fails changes nothing. The clashes of a unique index are
--   tested among rows of different keys. Table, References and the modules below Statements carry
--   the proofs. The relationships of the ORM and its Python-side defaults are not modelled.
-- Migration: the revision alembic/versions/07f7b6151968_initial_schema.py itself. Catalog is what
--   PostgreSQL keeps of a schema, Conditions the syntax of CHECK constraints and of a partial index
--   with its evaluation, Operations what Alembic's calls and the executed statements do to a
--   catalog. Tables, indexes and functions have names of their own kinds; the indexes that
--   PostgreSQL makes by itself for keys and UNIQUE constraints, and that a column exists which a
--   constraint names, are not modelled. Revision is `upgrade` and `downgrade`. Enforcement is what
--   PostgreSQL tests of a row by a catalog; Writes and Cells see the rows of Schema as rows of the
--   catalog's tables, and Refinement compares both. Execution is what PostgreSQL does with a
--   statement by a catalog; it follows ON DELETE CASCADE as often as the catalog has tables.
--   Commands are statements on the ten tables, and Simulation compares them with those of Schema.
--   Metadata is the schema as the models of api/v1/models declare it, with the names of indexes
--   that SQLAlchemy documents.
-- Runtime: workers/runtime.py. Status and Backoff are a worker's status and delay, in units of
--   2^-1074 seconds, the least double, so that doubling is exact; `float_limit` is where
--   `math.ldexp` raises OverflowError. Supervisor is `_supervise`, cut at its awaits: one call runs
--   it from the await at which it is suspended to the next. Lifecycle has the constructor, `start`,
--   `stop` cut at `gather`, and the step relation of the event loop: a caller's start or stop, the
--   cancellation of a stop that waits, which `gather` hands on to the tasks, or a task that is
--   resumed. `asyncio.Task.cancel` sets a request that the next resumption at an await delivers. The exponent that the constructor computes by logarithms is a parameter; `IsExponent`
--   says that it is the least one that reaches the maximum, and theorems that rest on it name it.
--   The model has no fuel: an endless run is a sequence of steps without end.
-- Url: api/db/url.py. Query and Split are what it calls of Python 3.12's `urllib.parse`, with U+FFFD
--   for escapes that are no UTF-8; Build is `build_async_url`. The parameter `netloc_ok` stands for Python's tests of a network location
--   (brackets and Unicode normal forms).
-- Security: api/core/security.py. Base64 and Utf8 are what it uses of Python; Vault is `_key` and
--   the encryption, Passwords the hashing and its decoy, Hashes the hashes for look-ups. `AESGCM`,
--   `hashlib.sha256`, `hmac` and bcrypt are parameters; what is relied on is stated by IsAesgcm,
--   IsBcrypt, MakesHashes and, for SHA-256, that a digest has 32 bytes. Random draws are arguments.
--   The cost of a call is the list of its rounds of bcrypt; a malformed hash costs none.
-- App: Lifespan is `lifespan` of main.py, with the way in which each await ends as a parameter;
--   Health its `health_check`, which reads a runtime of Runtime; Origins its list of CORS origins.
--   Broker is api/core/mq.py, with a parameter that says which calls of aio_pika raise. Engine is
--   api/db/database.py with the settings that it reads; Environment is alembic/env.py, which
--   imports it: what pydantic has read, and the variables after `load_dotenv`, are two arguments,
--   since they need not agree, and how each step of a run ends is a parameter. Logging is
--   api/utils/logger.py, with its set-up in main.py over the levels of Python's `logging`;
--   Responses is api/core/errors.py and api/utils/success_response.py.
--
-- Not modelled: the Redis client and SQLAlchemy's sessions (construction by their libraries), the
-- settings that are only declared, the FastAPI application and its middleware, the relationships
-- of the ORM, and what the routes will hold.
pub mod Base
pub mod Runtime
pub mod Schema
pub mod Url
pub mod Security
pub mod App
pub mod Migration
