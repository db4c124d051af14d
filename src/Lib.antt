-- ===== src/Lib.antt =====
-- go-ffmpeg-hls-swarm starts many FFmpeg clients that play an HLS stream, keeps them running, and
-- measures what they do. The orchestrator starts the clients one by one (Ramp); the client manager
-- gives each a supervisor, whose callbacks it counts (Manager); the supervisor runs FFmpeg (Ffmpeg)
-- and restarts it (Supervisor); FFmpeg's output goes line by line through lossy pipelines (Pipeline)
-- to parsers (Progress, Debug); the callbacks of these (Manager) keep statistics of each client
-- (Samples, Client, Throughput), which are put together for all (Aggregator, Manager). A scraper of
-- the origin knows the sizes of the segments (Scraper), which the debug parser looks up; another
-- scrapes the origin's own metrics (Origin). The figures go to Prometheus (Collector) and to the
-- terminal (Tui).
--
-- Common: texts, numbers as texts, maps, integers and lists over the native numbers, and
--   floating-point numbers as a record of operations. WholeFloats is an instance, for evaluation.
-- Supervisor: internal/supervisor/state.go, supervisor.go and `ShouldReset` of backoff.go. `run` is
--   `Run`, over the list of what the environment does in each turn (`Round`); `run_once` is `runOnce`.
--   The delay of `Backoff.Calculate` is a parameter there.
-- Backoff: internal/supervisor/backoff.go; `calculate` is `Calculate`, over floating-point numbers as
--   a parameter; Recovery is about `SetAttempts`.
-- Pipeline: internal/parser/pipeline.go; schedules of the reader's and the parser's atomic actions are
--   lists.
-- Debug, Samples: internal/parser/debug_events.go. A line is what the regular expressions find in it
--   (`Line`), with its time stamp; `parse_line` is `ParseLine` from there on. A map that Go ranges over
--   in any order is an association list; the proofs show that the one for segments has one entry at
--   most. Figures is `Stats`; the T-digest library is a parameter.
-- Progress: internal/parser/progress.go; `ParseFloat` is a parameter.
-- Hls: internal/parser/hls_events.go, with its regular expressions as functions on bytes.
-- Ffmpeg: internal/process/ffmpeg.go and probe.go; `url.Parse`, `sort.Slice` and the answer of ffprobe
--   are parameters. Description says what a command line is to contain.
-- Scraper: internal/metrics/segment_scraper.go; the decoded answer of the origin is an argument.
-- Aggregator: internal/stats/aggregator.go; a map of clients is a list in the order in which the loop
--   meets them.
-- Collector: internal/metrics/collector.go; a method gives its calls of the Prometheus library.
-- Origin: internal/metrics/origin_scraper.go; the decoded answers of the exporters are arguments, and
--   a T-digest is the list of what was added to it.
-- Tui: internal/tui/model.go; the statistics are a type parameter.
-- Socket: internal/parser/socket_reader.go; schedules of `Run` and `Close` are lists of actions.
-- Preflight: internal/preflight/checks.go; the answers of the operating system are a record.
-- Ring, Throughput: internal/timeseries/throughput_tracker.go and the rings of debug_events.go.
-- Client: internal/stats/client_stats.go.
-- Ramp: internal/orchestrator/ramp_scheduler.go, `ClientJitter` of internal/supervisor/jitter.go,
--   `rampUp` of internal/orchestrator/orchestrator.go. `Int63n` is a parameter, with its documented
--   range as hypothesis, and so is the time that late timers and starts take; Estimate is about `EstimatedRampDuration`.
-- Manager: internal/orchestrator/client_manager.go: the counts; in Callbacks
--   `createDebugEventCallback`, in Progress `createProgressCallback` and `GetProgressStats`, in Sampling
--   `sampleThroughput`, in Debugging `computeDebugStats`, in Clients `StartClient` and `Shutdown`.
-- Config: internal/config/validate.go; `url.Parse` is a parameter, and the product of the scrape interval
--   wraps at 64 bits.
--
-- Bounds: 64-bit counters of lines, bytes and nanoseconds are unbounded numbers, which no run of the
-- program reaches. The digits of a number are printed with one step of fuel more than the number, and
-- each digit takes one (`digits-fuel` of Common/Numbers: more fuel gives the same). Nothing else has
-- fuel: `run` of Supervisor recurses on the turns that the environment gives, and with a limit on
-- restarts it is shown to return within them.
--
-- Concurrency: an operation that holds its mutex to the end is one step. Where goroutines meet without
-- one, in Pipeline, Socket and the counts of Manager, every interleaving of the steps is a list of
-- actions, and the theorems are about any list. The debug callback of a client loads its bytes and
-- stores their sum in two steps, between which the progress callback may come (Manager/Interplay).
--
-- Not modelled: the text that the terminal interface renders, the metrics server, logging, flags and
-- the exit summary, which are input and output or lay out strings with a library; the wiring of the
-- orchestrator beyond `rampUp`; `Stop` of the supervisor, which signals a process group.
pub mod Common
pub mod Ring
pub mod Supervisor
pub mod Backoff
pub mod Pipeline
pub mod Throughput
pub mod Samples
pub mod Debug
pub mod Client
pub mod Ramp
pub mod Tui
pub mod Socket
pub mod Manager
pub mod Config
pub mod Progress
pub mod Scraper
pub mod Aggregator
pub mod Collector
pub mod Origin
pub mod Ffmpeg
pub mod Hls
pub mod Preflight
