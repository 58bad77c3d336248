-- ===== src/Lib.antt =====
-- llm-metrics-exporter reads the telemetry of inference engines, maps it to one canonical schema, and
-- serves or pushes it. This library models the parts that must not lose or invent data:
--
--   Tail         internal/tail/tail.go: Read as `read`, feed as `feed`, keep as `keep`. A Reader is a
--                record; what os.Open, Stat and each f.Read answer is an argument (`Open`, `Sys`).
--                Tail/Lines says what a reader owes, Tail/Feed and Tail/Progress are about the chunks
--                and the loop, Tail/Exact and Tail/History about the life of a log: what stands at its
--                path has an identity and bytes, apart from what the reader takes it for. Tail/Counting
--                is about a count over the lines, which the adapters that read logs share.
--   Metrics      internal/metrics/metrics.go: the schema, Validate as `validate`, Key as `key`. float64
--                is the parameter `Floats`: a type with the comparisons and tests that the code uses.
--   Promtext     internal/promtext/promtext.go: what adapters ask of a parsed exposition, `Families`:
--                Match, Has, Sum, Histogram, LabelValues.
--   Adapter      internal/adapter/adapter.go: Result, SelectModel as `select_model` and, in
--                Adapter/Builder, the Builder.
--   Engines      internal/adapter/vllm, llamacpp, sglang and tensorfold: each Map, in a file of its own;
--                Engines/Detect is internal/engines/detect.go, Engines/Tensorfold/RequestLog is reqlog.go,
--                on top of Tail.
--   Registration internal/registration/registration.go: Validate, in Registration/Load Parse and
--                LoadDir, in Registration/Write Write, in Registration/Remove Remove. A directory is a
--                map from names to bytes.
--   Discovery    internal/discovery/discovery.go: probe, with what the endpoint answers as arguments.
--   Ds4          internal/adapter/ds4/ds4.go: ParseLine as `parse_line`, the counting callback as
--                `on_line`, Collect as `collect`, on top of Tail.
--   Collector    internal/collector/collector.go: report as `report`, with what it emits for an arm, and
--                in Collector/Lifecycle closeArm, collectArm and its goroutine on one arm;
--                Collector/Sync is sync, on what its maps hold for one backend, with a count of the calls
--                of Collect in flight beside it.
--   RemoteWrite  internal/remotewrite. Series is encode.go: seriesKey, withStale, activeSeries and, in
--                Series/Encode, encodeFamilies. Queue is sender.go: enqueue, collect and atomicWrite;
--                Queue/Send is sendOne, Queue/Retry is deliver, Queue/Restore is restore, Queue/History
--                is Run's sequence of operations. The directory is a map from names to bytes, and where
--                a write, a read, a request or a removal fails is an argument of the operation.
--   Base         what the parts share: byte strings, tests, decimals, association lists, orders.
--
-- The parts interact as in the program: a registration names an engine; the engine's mapping asks the
-- parsed exposition through the Builder; Ds4 and the request log call Tail.read and fold its lines; the
-- collector reports the samples that fit the schema; the queue encodes a gathered registry by Series and
-- stores it; the delivery loop takes what the queue stored, and a restart reads it back.
--
-- Fuel: Tail.read gives its loop one more round than the bytes it may read (max_read), and feed the
-- length of its chunk. Both are shown to be enough. Every other loop is structural.
--
-- Bounds: the counters of ds4, of the request log and of merged histograms are taken modulo 2^64 as in
-- Go; byte counts, sizes and times stay below 2^63, which the code does not check either. Times of the
-- queue are milliseconds, but last_success, which is in seconds.
--
-- Assumptions on code that is not in the repository are named where they are used: Tail.Progress.Serves
-- (a read returns at most what was asked for, from the place asked for, and no empty success), the
-- order and tests of Floats (Metrics.Bounds.IsOrder), a marshaller that may fail (Codec), the YAML
-- library and url.Parse (Registration.Load.Codec, with RoundTrips where a registration must be read
-- back), snappy, protobuf and SHA-256 (RemoteWrite.Queue.Restore.Decoder), and json.Unmarshal of a
-- request-log line (decode).
--
-- sendOne is one step here, while the code lets enqueue run between its two locked parts; enqueue only
-- appends to the list of files, whose head sendOne holds. Go visits the workers of a source in no fixed
-- order; Adapter/Builder takes them as they first appear. Sums of float64 are stated for whole numbers.
--
-- A log that is cut and has grown past the reader's offset again, or whose identity the file system gave
-- to another file of such a length, looks like the old one to the code too; the histories leave it out.
--
-- Not modelled: the automatic arms of the collector, Observe and the listeners of discovery, the query
-- client of promtext, the text parser (the client library's), the release tools, command lines, HTTP
-- and logging.
pub mod Base
pub mod Tail
pub mod Metrics
pub mod Promtext
pub mod Adapter
pub mod Engines
pub mod Registration
pub mod Discovery
pub mod Ds4
pub mod Collector
pub mod RemoteWrite
