-- ===== src/Lib.antt =====
-- The media API: a multi-tenant HTTP service that stores tagged pictures and videos.
--
-- Handlers call services (internal/service), which call repositories over PostgreSQL
-- (internal/adapter/postgres) and a file storage; middlewares (internal/adapter/http/middleware)
-- authenticate, limit and deduplicate the requests; a worker takes jobs from a queue table.
--
-- Prelude      lists measured by native numbers, Boolean tests, texts as lists of code points.
-- Result       internal/domain/errors.go; Go's (value, error) results.
-- Domain       internal/domain, internal/port/auth.go: entities, scopes, the identity of a context.
-- Name         internal/service/sanitize.go: SanitizeName. NFC is a parameter.
-- Upload       internal/service/media_service.go: the pure helpers of uploads.
-- Database     internal/adapter/postgres/tx.go and the tables of its migrations. A statement is a
--              function on the tables that says what its SQL text does; a transaction threads them,
--              any statement of it may fail, and an error is taken to undo all of it. An environment
--              holds what the server adds: the time, the ids it draws, its collation, its faults.
-- Paging       the keyset pagination that both lists share; Client follows the cursors of a list.
-- TagRepo      internal/adapter/postgres/tag_repo.go: every method.
-- MediaRepo    internal/adapter/postgres/media_repo.go: every method; Listing has List.
-- Tenancy      the calls of both repositories in any order, by any tenants.
-- JobQueue     internal/adapter/postgres/job_queue.go: Enqueue, Dequeue, Complete, Fail, Cleanup;
--              Depth has Stats, Spent and Starts count how often a job is handed out.
-- Worker       internal/service/worker.go: processOne; job_handlers.go: the no-op handler.
-- RateLimit    internal/adapter/http/middleware/ratelimit.go, in exact arithmetic.
-- Http         requests, responses and handlers with a state.
-- Idempotency  internal/adapter/postgres/idempotency_store.go and
--              internal/adapter/http/middleware/idempotency.go.
-- Auth         internal/adapter/postgres/auth_verifier.go and internal/adapter/http/middleware/auth.go;
--              Keys has CreateTenant and CreateAPIKey, Access what credentials and refusals are.
-- Cursor       internal/service/cursor.go. Base64 and JSON are a parameter.
-- LocalStorage internal/adapter/storage/local/local_storage.go.
-- Service      internal/service/tag_service.go and media_service.go, over the repositories and a
--              storage interface (internal/port/storage.go); Consistency and Deletion relate the
--              table of media to the files.
-- Atoi         int and strconv.Atoi.
-- Dto          internal/adapter/http/dto/dto.go and the conversions into it.
-- Handler      internal/adapter/http/handler: Tags, Media and Health. A handler is what it parses, which
--              may end it with a response, and the service that it calls then.
-- Middleware   internal/adapter/http/middleware: cors.go, request_id.go, secheaders.go, recovery.go, the
--              refusals of ratelimit.go and the statuses of logger.go.
-- Metrics      internal/adapter/http/middleware/metrics.go: the requests that are counted.
-- Router       internal/adapter/server/router.go: the routes, and all middlewares in their order.
-- S3Storage    internal/adapter/storage/s3/s3_storage.go, over the calls of the AWS SDK.
-- Backends     both storages as what the services expect of a storage; Tenants the keys in S3.
-- SqsQueue     internal/adapter/sqs/sqs_queue.go, a stub.
-- Config       config/config.go.
-- Program      cmd/api/main.go: run, as the sequence of what is started and stopped.
-- Fixtures     environments and tables for the runs in the modules named Tests; HostFixtures
--              and StorageFixtures a host, a router and a storage for them.
--
-- A UUID is a natural number, a time the nanoseconds since a fixed epoch. SHA-256 and NFC are
-- parameters. The walk over pages is recursion on fuel; one request more than there are rows is
-- shown to be enough. Concurrency appears as sequences of transactions, each of which is atomic, and
-- as the set of rows that other transactions lock when a job is taken.
--
-- JSON, the texts of UUIDs, multipart forms, content sniffing, the path matching of chi and its RealIP
-- and Compress are parameters.
--
-- Not modelled: the migrations, the logs, the other metrics,
-- the goroutines and their tickers, the row-level policies of the database, and a COMMIT whose answer
-- is lost, which may have taken effect: it counts as undone here.
pub mod Metrics
pub mod Program
pub mod Config
pub mod StorageFixtures
pub mod Backends
pub mod S3Storage
pub mod HostFixtures
pub mod Router
pub mod Middleware
pub mod Handler
pub mod Dto
pub mod Atoi
pub mod Prelude
pub mod Result
pub mod Domain
pub mod Database
pub mod Paging
pub mod TagRepo
pub mod MediaRepo
pub mod Name
pub mod Upload
pub mod SqsQueue
pub mod Tenancy
pub mod JobQueue
pub mod RateLimit
pub mod Http
pub mod Idempotency
pub mod Auth
pub mod Cursor
pub mod LocalStorage
pub mod Service
pub mod Fixtures
pub mod Worker
