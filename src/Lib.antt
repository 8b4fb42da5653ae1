-- ===== src/Lib.antt =====
-- The image gallery: a web service that takes image uploads, a job queue on a Valkey stream, and a
-- worker that turns each job into a thumbnail and metadata.
--
-- The parts, and how they meet. The server starts from its environment (Config). A form of files is
-- taken apart by the upload handler (Web), and each file is validated, its object stored under a
-- safe key (Storage) and its row inserted; then a job for it is published to the stream (Gallery).
-- A consumer reads the entries with a bounded number of jobs in work, runs the worker's handler on
-- each with retries, and dead-letters what fails for good (Queue). The worker moves the row from
-- pending through processing to ready; the dead-letter hook moves it to failed (Worker). Both write
-- through an adapter (Adapter) over the repository of the rows (Database), which drops what the
-- caches hold of an image (Cache). A settings page keeps a row for each user (Settings). Demo
-- controls inject delays and errors into requests and jobs (Faults), and a load generator with a
-- circuit breaker drives the service (Loadgen).
--
-- The modules:
--   Prelude    lists, options, Boolean tests and their case lemmas.
--   Text       Go strings as lists of bytes; Text/Decimal has strconv.Itoa and Atoi on 64-bit ints,
--              Text/Utf8 the runes of a string and utf8.ValidString, Text/Search strings.Split,
--              HasPrefix and the like.
--   Config     internal/config: `validate` and its sections of validation_methods.go in
--              Config/Validation, `is_valid_bucket_name` in Config/Bucket, `parse_list` and the other
--              readers of config.go in Config/Parsing, `load` in Config/Loading.
--   Domain     internal/domain/image/models.go: `check_filename` … are the validate methods of a
--              request, `validate_tag` Tag.Validate, `validate_request` CreateImageRequest.Validate,
--              `get_offset` and `calculate_total_pages` the paging. Domain/Events has the event and
--              the stream of events.go.
--   Queue      internal/platform/queue: `values` and `job_from_message` of job.go; `attempts`,
--              `send_dead_letter` and `handle` of consumer.go, the options of options.go, and
--              Queue/Consumer/Loop the steps of Consumer.Run; Queue/Stream has `publish` of
--              producer.go and the calls that read the stream.
--   Worker     internal/worker/processor.go: `handle_job` is Processor.Handle, `process` its steps,
--              `on_dead_letter` the hook; Worker/Images is the repository that it calls, Lifecycle
--              and Settled join it to the consumer as internal/app/worker.go does.
--   Gallery    internal/services/implementations: `create_image` and `delete_image` of
--              image_service.go, Gallery/Update and Gallery/Cached for the other operations, and
--              Gallery/Validation for validation_service.go.
--   Database   internal/platform/database: `validate_pagination` and the sortings of models.go; the
--              statements of image_repository.go with what is made of their answers, in
--              Database/Reads, `search_statement` in Database/Search, `get_with_tags` in
--              Database/Tagged, and the writes in Database/Writes and Database/Creation.
--   Adapter    image_repository_adapter.go of the implementations: `adapter` is what the worker uses
--              of it, Adapter/Creation has `create_stored_image` and `update_stored_image`,
--              Adapter/Listing and Adapter/Lookups the reads; Adapter/Tags has `get_or_create` of
--              tag_repository.go, and tag_service.go.
--   Cache      internal/platform/cache/redis.go, and cache_service.go of the implementations.
--   Settings   internal/domain/settings and settings_service.go of the implementations:
--              `get_settings`, `update_settings` and `reset_settings`, with the table of the
--              repository; Settings/Colors has the palettes of the tags.
--   Storage    internal/platform/storage/service.go: `store`, `validate_magic_number`,
--              `sanitize_filename`, `generate_storage_path`; Storage/Access has the other calls, and
--              Storage/Processor is processor.go.
--   Web        internal/web/handlers/upload.go: `upload_images_handler`, `process_uploaded_file`,
--              `parse_tags`; Web/Serve has the thumbnail and the deletion of handlers.go and api.go,
--              Web/Listing `list_images_handler` and Web/Format `format_file_size` of api.go.
--   Faults     internal/domain/demo/controls.go and internal/faults: `validate_controls`, the
--              service behind its cache, `middleware`, `slow_database` and `worker_fault`.
--   Loadgen    internal/loadgen: `record_result` is breaker.record; Scenarios, Summary, Engine
--              (the steps of a run), Client, Options and Incident model the files of these names or
--              parts.
--   Tests      runs at concrete inputs, and an instance of each theorem with hypotheses.
--
-- How state is modelled. What lies outside (database, object store, stream server, caches) is a type
-- `W` with functions for the calls; where a theorem depends on what a call does, a record of laws
-- says so (RepositoryLaws, LeavesRows, NeverSkips, StreamLeavesRows, CacheHolds, CacheLaws, Holds,
-- KeepsObjects, Table, SqlLaws, CreationLaws, RedisLaws, TagLaws, StoresEntries, ListsGroups).
-- The consumer, the image service and the injector also keep a list of the events or calls that they
-- make. Errors are values that say what they wrap; their texts, spans, metrics and log lines are left
-- out. Consumer.Run and the engine of the load generator are step relations, whose steps interleave
-- in any order; every other operation is modelled as one run without another in between.
--
-- Bounds and fuel. Numbers are natural numbers; where the source computes with 64-bit ints the wrap
-- is written out (the backoff, the pixel product, the offset of a page). The retry loop recurses on
-- the attempts that are left, which starts at the maximum. The loop of formatFileSize has fuel for 7
-- divisions by 1024, which take any int64 below 1024. No definition runs on other fuel. A
-- float64 is a fraction in the breaker, comes with its comparison in the controls and the settings,
-- and with its arithmetic in the image processor.
--
-- Not modelled: what a statement of SQL means, of which the text is kept with each run of white space
-- as one space; the albums, and the repository of tags of the database; HTML, JSON and the other
-- handlers; the clients of object stores and the image codecs (which call other libraries); the
-- payloads of domain events, telemetry, and the wiring of the parts.
pub mod Prelude
pub mod Text
pub mod Database
pub mod Queue
pub mod Worker
pub mod Domain
pub mod Config
pub mod Gallery
pub mod Adapter
pub mod Cache
pub mod Settings
pub mod Storage
pub mod Web
pub mod Faults
pub mod Loadgen
pub mod Tests
