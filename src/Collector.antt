-- ===== src/Collector.antt =====
-- internal/metrics/collector.go: what the program reports to Prometheus. The client library of Prometheus
-- is not modelled: a method gives the calls that it makes of it, in order, with the collector after it.
mod Metrics
mod Updates
mod Events
mod Summaries
mod Values
mod Deltas
mod Counters
mod Errors
mod Observations
mod Agreement
mod Sorting
mod Quantiles
mod Examples
