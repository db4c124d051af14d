-- ===== src/Debug.antt =====
-- internal/parser/debug_events.go: `DebugEventParser`, from the matched line on. The regular
-- expressions of `ParseLine` stay outside: a line that one of them matches is a `Line`, with what
-- its groups captured.
pub mod State
pub mod Download
pub mod Network
pub mod Lines
pub mod Figures
pub mod Pending
pub mod Requests
pub mod Segments
mod Timing
mod Classes
pub mod Counters
mod Examples
