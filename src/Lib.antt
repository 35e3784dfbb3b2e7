-- ===== src/Lib.antt =====
-- Verification of bankstmt-analyzer: a service that takes bank statements as PDF uploads, has them read by
-- an OCR service and analysed by a language model, and serves what it found.
--
-- Parts and how they interact. A handler (internal/http/uploads.go) stores the PDFs of a request in the blob
-- store (internal/storage), records the upload and its files in one transaction (internal/db/store.go) and
-- queues it. A worker runs the steps of the pipeline (internal/pipeline/pipeline.go, steps.go): it marks the
-- upload as being processed, sends every file without a text to the OCR client (internal/ocr), sends the texts
-- to the model's client (internal/llm), converts the reply into rows (internal/pipeline/convert.go), replaces
-- the upload's analysis in one transaction, and marks the upload as completed. The errors of all steps pass
-- the scrubber (internal/pipeline/scrub.go). The status handler reads what is recorded, and the visualization
-- handler (internal/http/visualization.go) aggregates the transactions of a window of months. The router lets
-- a request to any of them through only with the key of the configuration (internal/config). The command
-- (cmd/api/main.go) connects to the database (internal/db/pool.go), migrates it, builds these parts and starts the
-- roles that its flags choose.
--
-- Files:
--   Prelude     names of the libraries, Boolean tests and lists on native numbers
--   Text        Go strings as bytes, with what the program uses of strings, unicode, path and strconv
--   Go          error values, results, calls that change a state, and rules for what they leave
--   Db          the tables (internal/db/models.go); Db.Queries the statements of internal/db/*.sql.go with the
--               constraints of db/migrations; Db.Store the transactions of internal/db/store.go; Db.Rows lemmas
--               on filtered tables; Db.Store.Atomic, Recorded, Replace, Live and Quiet what they leave; Db.Sums the
--               aggregate functions, Db.Visualization the queries of visualization.sql.go
--   World       the database, the stored files and the documents sent to the OCR service, and the calls of the
--               blob store as internal/storage/storage.go promises them
--   Ocr, Llm    the clients (internal/ocr, internal/llm), their construction and requests; Llm.Reply the reply and
--               the message that asks for it
--   Pipeline    Pipeline.Scrub, Pipeline.Convert and Pipeline.Steps, each with the proofs about it below it;
--               Pipeline.Runs any sequence of calls that the queue makes, Pipeline.Runs.Uploaded one
--               upload from its request to its status
--   Http        Http.Problem (problem.go), Http.Uploads, Http.Uploads.Create and Http.Status (uploads.go),
--               Http.Window (window.go), Http.Visualization (visualization.go), Http.Router (router.go,
--               middleware.go, health.go)
--   Config      the configuration and its checks (internal/config/config.go)
--   Storage     the keys and both stores (internal/storage): Storage.Local files, Storage.S3 a bucket
--   Db.Pool     the connection to the database (internal/db/pool.go, redact.go)
--   Pipeline.Start, Storage.S3.Open   building the pipeline and the bucket's store, queueing, the worker
--   Migrate, Logging   the migrations at the start (internal/migrate) and the log's level (internal/logging)
--   Command     the process (cmd/api/main.go): Command.Flags its command line, Command.Parts what it builds
--   Tests       concrete runs
--
-- A function of the source has its name here in snake case, and a method takes what it uses of its receiver as
-- arguments. State is passed: a call takes a World or a Db and returns a Result with the state it leaves, also
-- when it returns an error. Each statement sent to the database, and each call of the blob store, may fail:
-- the state lists the outcomes of the calls to come, and a call behind the list's end succeeds. A rollback
-- restores the tables; a COMMIT that returns an error counts as rolled back, so an answer that is lost behind a
-- COMMIT that took effect is not modelled. A blob call that fails has changed nothing. Uuids are numbers that are compared only,
-- and the ones that uuid.New gives are arguments.
--
-- Money is exact: a sum is the difference of two numbers of hundredths, and where the program has float64 the
-- operations of Go.Float.Float64 are applied to it.
--
-- Parameters stand for code outside the repository: the HTTP exchange and encoding/json of both clients, Scan
-- of pgtype.Numeric, parsing and printing of uuids, the multipart reader, the queue's answer, env.Parse, float64,
-- the database's collation, the router's matching, the client of the S3 service, http.NewRequest, url.Parse, the
-- library of the connection pool, goose, the HTTP server, the queue's Start and Run, and the Wait of errgroup. Only
-- the theorem on the bucket assumes anything of them, as Storage.S3.IsLawful, and the ones on a whole run of the
-- pipeline, that the services answer (Pipeline.Runs.Completes.IsReady, Pipeline.Runs.Uploaded.Reads).
--
-- Loops are structural recursion. The one function on fuel prints a number in decimal: it has the number itself
-- plus one, and each round divides by ten. An int32 is a remainder modulo 2 ^ 32.
--
-- Not modelled: log lines, contexts and timeouts, the escapes that %q writes, the letters that strings.ToLower
-- maps outside ASCII (its results are compared with ASCII texts only), the Retry-After header, the branch of
-- buildAnalysis for a nil reply, truncate for limits below the ellipsis's three bytes (its callers give 400 and 500), the directories of the file system, CORS headers and request ids, signals, the
-- settings of the HTTP server, and the generated files (docs/docs.go, internal/db/db.go and querier.go).
pub mod Prelude
pub mod Text
pub mod Go
pub mod Db
pub mod World
pub mod Ocr
pub mod Llm
pub mod Pipeline
pub mod Http
pub mod Config
pub mod Storage
pub mod Logging
pub mod Migrate
pub mod Command
pub mod Tests
