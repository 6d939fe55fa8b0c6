-- ===== src/Lib.antt =====
-- AegisIngest: an HTTP API that takes audit reports in bursts, a Kafka topic, workers that bring each
-- report through its lifecycle, and a dashboard with load tests. The four share PostgreSQL tables.
--
-- The files, and the code that they are about (paths from the repository's root):
--   * Base: names of the libraries, lists and texts; Base.Effects has calls that change a state and
--     may raise (`Exec`), with the rules for what a call keeps (`Keeps`) and leads to (`Leads`).
--   * Float: Python's floats, as a parameter `F : Float` with the laws of rounded arithmetic in
--     `IsIeee`. Float.Fixed is an arithmetic that satisfies the laws, for the concrete runs.
--   * Runtime: the functions of the standard library and of packages that the program calls for a
--     value (SHA-256, UUIDs, CRC-32, MurmurHash), as a parameter.
--   * Limiter: api/src/limiter.py. `acquire`, `release`, `get_stats` and `check_agency_limit` are
--     the methods of the two classes. Limiter.Pipelines is the interleaving of any number of
--     requests that share a limiter.
--   * Database: the tables of database/init.sql with their constraints, and the SQL statements of
--     both repositories. Database.Validity is the invariant of the documents.
--   * Repository: api/src/repository.py. Repository.History runs any sequence of its writes, and
--     Repository.Registry looks jobs up again after such a sequence.
--   * Producer: api/src/producer.py. Storage: api/src/storage.py.
--   * Api, Api.Request, Api.Ingest: `ingest_audit_report` of api/src/main.py. `process` is its
--     `try` block, `leave` its `finally` block, and `serve` the handler behind the exception handler.
--     Api.Status has `health_check` and `get_job_status`, and
--     Api.Startup the `lifespan` of the service.
--   * Worker: Worker.Results is worker/src/repository.py, Worker.Processor is
--     worker/src/processor.py, Worker.Consumer is `handle_record` of worker/src/consumer.py, and
--     Worker.Analyzer is
--     the scoring of worker/src/analyzer.py; Worker.Analyzer.Report reads a report, with `Json` for the
--     values of json.loads. Worker.Tasks has the tasks of one batch under the
--     semaphore: `Task` is a call cut at each statement and transaction, `record_task` is
--     `handle_record` cut so, and `turns` gives the tasks turns in any order. Worker.Heartbeats is
--     the table `worker_status`, which both repositories write.
--   * Dashboard: the logic of dashboard/src/app.py. Dashboard.Performance is the test that follows
--     the jobs it has started, and Dashboard.Console the burst, the samples and the uploads.
--   * Pdf: `create_simple_pdf` of dashboard/src/app.py. Pdf.Report is
--     scripts/generate_sample_reports.py: a report of random findings, and its PDF.
--   * Samples: concrete values for the tests, which stand in modules named Tests. Base.Texts has
--     texts and bytes as lists of numbers.
--
-- How the parts meet: the handler takes a slot of the limiter, asks the bucket of the agency, saves
-- the content, registers the document in the tables (or in memory, without a database), sends an
-- event to the partition of the agency, and records that. The consumer reads events, and the
-- processor brings the rows of the same tables to COMPLETED. The dashboard counts these rows.
--
-- What comes from outside is an argument: clocks, fresh identifiers, and for each call of a service
-- whether it succeeds (`Surroundings`, `Conditions`, `Visit`). So a theorem about a call is about
-- every pattern of failures. Loops are recursions on lists. The one recursion on fuel takes the
-- digits of a number n in at most n steps, and each digit leaves a smaller number. Numbers are
-- natural numbers where the code has counts, with its subtractions cut off at 0 where it writes
-- max(0, …).
--
-- Not modelled: JSON bodies in which a field that the API documents as a text is something else, the
-- histograms and the metadata of events, the routes for statistics, metrics and the console, the
-- upgrade of the tables, the consumer's loop around the tasks of a batch (`asyncio.gather`, which
-- raises the first exception while other tasks go on, and the commit of the offsets), start-up of
-- the worker and of the dashboard, the pages, listings and telemetry of the dashboard, and
-- scripts/load_test.py.
pub mod Base
pub mod Float
pub mod Limiter
pub mod Database
pub mod Runtime
pub mod Repository
pub mod Producer
pub mod Storage
pub mod Api
pub mod Worker
pub mod Dashboard
pub mod Samples
pub mod Pdf
