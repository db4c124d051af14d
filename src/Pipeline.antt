-- ===== src/Pipeline.antt =====
-- internal/parser/pipeline.go: the lossy pipeline between a reader and a parser goroutine. The
-- channel is the list of its lines, oldest first. The two goroutines are interleaved as a list of
-- actions; each action is one atomic operation of the source, or one with the channel send or
-- receive beside it. The 64-bit counters are taken as unbounded.
pub mod Conservation
pub mod Order
pub mod Drain
mod Examples
use go_ffmpeg_hls_swarm.Common.{
  ℕ, zero, suc, ◌+◌, ◌≡◌, List, [], ◌∷◌, ◌++◌, Bool, true, false, ltb, ◌==◌, if◌then◌else◌, Option,
  none, some, length, Float, pos,
}

-- `Pipeline`. `feeding` is the line between the count and the send of `FeedLine`, `parsing` the one
-- that `RunParser` has received and not yet counted; `delivered` are the lines that `ParseLine` has
-- been given, oldest first.
pub record Pipeline (F Line : Type 0) : Type 0 where
  pub buffer_size : ℕ
  pub drop_threshold : F
  pub line_chan : List Line
  pub closed : Bool
  pub lines_read : ℕ
  pub lines_dropped : ℕ
  pub lines_parsed : ℕ
  pub feeding : Option Line
  pub parsing : Option Line
  pub delivered : List Line

-- `bufferSize < 1` of an unsigned size.
abbrev default_size : ℕ → ℕ
default_size n = if ltb n 1 then 1000 else n

module _ (fl : Float) {Line : Type 0} where
  open fl use {F, lit, of_int, lt, le, div}

  -- `NewPipeline`.
  unfoldable pub new_pipeline : ℕ → F → Pipeline F Line
  new_pipeline size threshold = record {
    buffer_size = default_size size;
    drop_threshold = if le threshold (lit 0 0) then lit 1 2 else threshold;
    line_chan = [];
    closed = false;
    lines_read = 0;
    lines_dropped = 0;
    lines_parsed = 0;
    feeding = none;
    parsing = none;
    delivered = [];
  }

  -- `DropRate`.
  unfoldable pub drop_rate : Pipeline F Line → F
  drop_rate p =
      if p.lines_read == 0
      then lit 0 0
      else div (of_int (pos p.lines_dropped)) (of_int (pos p.lines_read))

  -- `IsDegraded`.
  unfoldable pub is_degraded : Pipeline F Line → Bool
  unfolding drop_rate
  is_degraded p = lt p.drop_threshold (drop_rate p)

pub data Action (Line : Type 0) : Type 0 where
  -- the reader counts a line, and sends or drops it
  count : Line → Action Line
  send : Action Line
  -- the reader ends
  close : Action Line
  -- the parser receives a line, and has parsed it
  receive : Action Line
  finish : Action Line

module _ {F Line : Type 0} where
  -- `atomic.AddInt64(&p.linesRead, 1)`.
  count_line : Line → Pipeline F Line → Pipeline F Line
  count_line line p = record p { lines_read = suc p.lines_read; feeding = some line }

  -- The `select` with a default of `FeedLine` and `RunReader`. A send on a closed channel panics:
  -- `none`.
  offer : Line → Pipeline F Line → Option (Pipeline F Line × Bool)
  offer line p =
      if p.closed
      then none
      else if ltb (length p.line_chan) p.buffer_size
      then some (record p { line_chan = p.line_chan ++ line ∷ []; feeding = none }, true)
      else some (record p { lines_dropped = suc p.lines_dropped; feeding = none }, false)

  -- `FeedLine`, in one piece.
  unfoldable pub feed_line : Line → Pipeline F Line → Option (Pipeline F Line × Bool)
  unfolding count_line offer
  feed_line line p = offer line (count_line line p)

  -- `CloseChannel`; `closeOnce` makes later calls do nothing.
  unfoldable pub close_channel : Pipeline F Line → Pipeline F Line
  close_channel p = if p.closed then p else record p { closed = true }

  -- The two halves of the body of `RunParser`. On an empty channel the receive waits, or the loop
  -- has ended.
  receive_line : Pipeline F Line → Pipeline F Line
  receive_line p = elim p.line_chan [
    | [] ↦ p
    | line ∷ rest ↦ record p { line_chan = rest; parsing = some line }
  ]

  finish_line : Pipeline F Line → Pipeline F Line
  finish_line p = elim p.parsing [
    | none ↦ p
    | some line ↦ record p {
      lines_parsed = suc p.lines_parsed;
      parsing = none;
      delivered = p.delivered ++ line ∷ [];
    }
  ]

  abbrev sent : Option (Pipeline F Line × Bool) → Option (Pipeline F Line)
  sent none = none
  sent (some (p, queued)) = some p

  -- Which actions a state allows: each goroutine does its own in order. One that it does not allow
  -- leaves the state as it was.
  pub step : Action Line → Pipeline F Line → Option (Pipeline F Line)
  unfolding count_line offer close_channel receive_line finish_line
  step (count line) p = elim p.feeding [ none ↦ some (count_line line p) | some other ↦ some p ]
  step send p = elim p.feeding [ none ↦ some p | some line ↦ sent (offer line p) ]
  step close p = elim p.feeding [ none ↦ some (close_channel p) | some line ↦ some p ]
  step receive p = elim p.parsing [ none ↦ some (receive_line p) | some line ↦ some p ]
  step finish p = some (finish_line p)

  -- A schedule of the two goroutines; `none` is a panic.
  pub run : List (Action Line) → Pipeline F Line → Option (Pipeline F Line)
  run [] p = some p
  run (a ∷ rest) p = elim (step a p) [ none ↦ none | some q ↦ run rest q ]

  -- `Stats`.
  unfoldable pub stats : Pipeline F Line → ℕ × ℕ × ℕ
  stats p = (p.lines_read, p.lines_dropped, p.lines_parsed)

  -- `RunReader`, and the loops of `FDReader.Run` and `PipeReader.Run`: every line is fed, and the
  -- channel closed.
  pub run_reader : List Line → Pipeline F Line → Option (Pipeline F Line)
  run_reader [] p = some (close_channel p)
  run_reader (line ∷ lines) p = elim (feed_line line p) [
    | none ↦ none
    | some (q, queued) ↦ run_reader lines q
  ]

  -- `RunParser` over n lines that the closed channel still holds.
  pub run_parser : ℕ → Pipeline F Line → Pipeline F Line
  unfolding receive_line finish_line
  run_parser zero p = p
  run_parser (suc n) p = run_parser n (finish_line (receive_line p))

  -- The body of `DrainChannel`.
  discard_line : Pipeline F Line → Pipeline F Line
  discard_line p = elim p.line_chan [ [] ↦ p | line ∷ rest ↦ record p { line_chan = rest } ]

  -- `DrainChannel` over n lines that the closed channel still holds.
  pub drain_channel : ℕ → Pipeline F Line → Pipeline F Line
  unfolding discard_line
  drain_channel zero p = p
  drain_channel (suc n) p = drain_channel n (discard_line p)
