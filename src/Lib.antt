-- ===== src/Lib.antt =====
-- Verification of the asset optimizer, a Go worker that takes mesh optimization jobs from a
-- PostgreSQL message queue, optimizes the model that a job names, and announces the result.
--
-- A message goes through four parts. The consumer (internal/mq/consumer.go) reads it from the queue,
-- hands its payload to the processor and then completes, retries or dead-letters it. The processor
-- (internal/handler) checks the job, runs the pipeline (download, inspect, optimize, inspect again,
-- hash, upload) in a work directory of its own, and announces the result. The pipeline's steps call
-- the optimizer (internal/optimizer), the storage (internal/storage), the work directory manager
-- (internal/workdir) and the publisher (internal/mq/publisher.go). The service (cmd/asset-optimizer)
-- opens all of these, serves a health endpoint until a signal, and closes them in reverse order.
--
-- Files and the code that they model:
--   Errors                Go errors and `errors.As`; the error types of internal/handler
--   Contracts             the messages of the event contracts, by the fields that the program uses
--   Jobs                  internal/jobs/types.go
--   Optimizer/Options     internal/optimizer/options.go
--   Optimizer/Inspection  internal/optimizer/inspect.go, with the CSV reader and the numbers it uses
--   Optimizer/Inspection/Printed  reports as tables, and what the parser reads from their print
--   Config                internal/config/config.go, and the queue configuration of main.go
--   Workdir               internal/workdir/workdir.go
--   Handler/World         the services of the processor, and the trace of its calls
--   Handler/Validation    internal/handler/validation.go, and what a job that passes it is
--   Handler/Events        internal/handler/events.go
--   Handler/Pipeline      internal/handler/pipeline.go, and what its success has on record
--                         Handler/Pipeline/Atomic: when the output is stored
--   Handler/Processor     internal/handler/handler.go
--   Handler/Protocol      an automaton over the processor's calls, and that every run follows it
--   Handler/Outcome       what the processor returns against what it announced
--                         Handler/Outcome/Succeeded, Failed: what is behind either end
--   Mq/World              the queue client and the handler that the consumer calls
--   Mq/Telemetry          internal/mq/telemetry.go
--   Mq/Consumer           internal/mq/consumer.go, with its policy, its retries, its backoff and its loop
--   Mq/Consumer/Closing   Start and Close of internal/mq/consumer.go, with workers that interleave
--   Mq/Carrier            the headers of a message in internal/mq/telemetry.go
--   Mq/Publisher          internal/mq/publisher.go, and the publication records of telemetry.go
--   Mq/Connection         internal/mq/connection.go
--   Optimizer/Cli         internal/optimizer/cli.go
--   Storage               internal/storage/s3.go, and below it that it closes what it opens
--   Telemetry             internal/telemetry/telemetry.go; Telemetry/System: system.go
--   Effects               actions over a trace, `defer`, and the rules for proofs about them
--   Service               cmd/asset-optimizer: run, execute, the health endpoint, the shutdown
--   Service/Production    the dependencies of a run outside tests: the components themselves
--   Service/Protocol      the life cycle of a run, read off its trace
--   Service/Lifecycle     that every run follows it, which Service/Outcome concludes
--   Service/Failures      which failures end a run; Service/Ready: what a run without one has done
--   Lint                  scripts/ci/no-nested-if.go: the visitor, and below it the search for files
--   Delivery              the consumer with the processor as its handler, and with the publisher below;
--                         Delivery/Serial: that one message is processed at a time;
--                         Delivery/Tidy: that a job's work directory is removed;
--                         Delivery/Produced: the programs and transfers behind a result;
--                         Delivery/Honest: what it means that a command left its queue
--   Base                  numbers, texts and file paths
--   Samples, Tests        concrete data, and the theorems at concrete data
--
-- Calls of a service are effects. A stateful function takes the trace of all calls so far, newest
-- first, and returns the longer trace. A service's reply is a function of that trace and of the call,
-- so that the theorems hold for any order and number of failures. Code outside the repository is a
-- parameter: the queue client, S3, the gltf-transform process, the file system, UUID parsing, the
-- object key rule, SHA-256, protobuf decoding and the clock. Where a theorem relies on it, the
-- hypothesis is stated; `PlainEnv` says that no service returns one of the error types that only
-- internal/handler/handler.go builds.
--
-- Numbers: Go's signed integers are integers with a sign, and the arithmetic that can wrap around
-- is reduced to 64 bits (`wrap64`). The worker's loop runs on fuel, one unit for a round; fuel is
-- enough as soon as it exceeds the number of reads that are left before the context ends.
-- Cancellation is what the environment answers when the context is asked. A worker is one sequence of
-- rounds: the workers of one consumer share no state in this program, so that each is its own trace.
--
-- Two roots need care in Workdir: `MakesTemp` states what os.MkdirTemp documents for a root with no
-- separator at its end. A line that is no CSV ends the parse of a report with an error whose text is
-- an argument.
--
-- Service reads a run of the service as one trace of the calls of its dependencies; `deferring` is
-- Go's `defer`. `stage` replays a trace through the life cycle that a run has to follow, and `none`
-- is a breach of it. What callers do at the same time, in Mq/Connection and in Mq/Consumer/Closing,
-- is a step relation, so that a run is any interleaving. The lint's file system is a finite tree.
--
-- Not modelled: the particle mesh script, which is JavaScript; the decoding of the environment, the
-- exporters, the log handlers and the builders of the telemetry records, which are calls of libraries
-- with no logic of their own, so that a record in a trace stands for the attempt to emit it; main
-- itself, which hands the exit code to the operating system; time outs, which are what the
-- environment answers.
pub mod Base
pub mod Contracts
pub mod Errors
pub mod Effects
pub mod Service
pub mod Optimizer
pub mod Handler
pub mod Jobs
pub mod Mq
pub mod Config
pub mod Workdir
pub mod Delivery
pub mod Lint
pub mod Storage
pub mod Telemetry
mod Samples
mod Tests
