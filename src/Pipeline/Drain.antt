-- ===== src/Pipeline/Drain.antt =====
-- A reader of pipeline.go that runs to its end before the parser: what is dropped, what is parsed.
use mathlib.Core.List.{append-nil, append_assoc}
use native.Mathlib.Nat.{add-zero}
use go_ffmpeg_hls_swarm.Common.{
  ℕ, suc, ◌+◌, ◌≤◌, ◌<◌, ◌≡◌, ◌≢◌, refl, List, [], ◌∷◌, ◌++◌, Bool, true, false, none, some, length,
  arith, inl, inr, Option-cases, Float,
}
use go_ffmpeg_hls_swarm.Pipeline.{
  Pipeline, run_parser, drain_channel, run_reader, feed_line, new_pipeline, close_channel,
  receive_line, finish_line,
}
use go_ffmpeg_hls_swarm.Pipeline.Conservation.{length-snoc}

module _ {F Line : Type 0} where
  parse_one :
      (line : Line) (lines : List Line) (p : Pipeline F Line)
      → p.line_chan ≡ line ∷ lines
      → p.parsing ≡ none
      → finish_line (receive_line p) ≡ record p {
        line_chan = lines;
        parsing = none;
        lines_parsed = suc p.lines_parsed;
        delivered = p.delivered ++ line ∷ [];
      }
  unfolding finish_line receive_line
  parse_one line lines p e f = ground arith

  -- `RunParser` over a channel delivers all that it holds, in order, and counts each line.
  run_parser_lem :
      (lines : List Line) (p : Pipeline F Line)
      → p.line_chan ≡ lines
      → p.parsing ≡ none
      → run_parser (length lines) p ≡ record p {
        line_chan = [];
        parsing = none;
        lines_parsed = p.lines_parsed + length lines;
        delivered = p.delivered ++ lines;
      }
  unfolding run_parser
  run_parser_lem [] p e f = ground (arith, append-nil p.delivered)
  run_parser_lem (line ∷ lines) p e f =
      let q = finish_line (receive_line p) in
      ground (
        arith,
        parse_one line lines p e f,
        run_parser_lem lines q,
        append_assoc p.delivered (line ∷ []) lines,
      )

  -- What a reader leaves behind: the channel closed, every line counted, and queued or dropped.
  pub record Read (n : ℕ) (p q : Pipeline F Line) : Type 0 where
    pub ended : q.closed ≡ true
    pub counted : q.lines_read ≡ p.lines_read + n
    pub kept : q.lines_dropped + length q.line_chan ≡ p.lines_dropped + length p.line_chan + n
    pub parser_apart :
        (q.parsing ≡ p.parsing) × (q.lines_parsed ≡ p.lines_parsed) × (q.delivered ≡ p.delivered)
    pub same_size : q.buffer_size ≡ p.buffer_size
    pub within : length p.line_chan ≤ p.buffer_size → length q.line_chan ≤ p.buffer_size

  feed_line-Read :
      (line : Line) (p : Pipeline F Line) {q : Pipeline F Line} {b : Bool}
      → feed_line line p ≡ some (q, b)
      → (q.closed ≡ p.closed)
        × (q.lines_read ≡ suc p.lines_read)
        × (q.lines_dropped + length q.line_chan ≡ p.lines_dropped + length p.line_chan + 1)
        × (q.parsing ≡ p.parsing)
        × (q.lines_parsed ≡ p.lines_parsed)
        × (q.delivered ≡ p.delivered)
        × (q.buffer_size ≡ p.buffer_size)
        × (length p.line_chan ≤ p.buffer_size → length q.line_chan ≤ p.buffer_size)
  unfolding feed_line
  feed_line-Read line p h = ground (arith, length-snoc p.line_chan line)

  feed_line-ne-none :
      (line : Line) (p : Pipeline F Line) → p.closed ≡ false → feed_line line p ≢ none
  unfolding feed_line
  feed_line-ne-none line p e h = ground arith

  run_reader-Read :
      (lines : List Line) (p : Pipeline F Line) {q : Pipeline F Line}
      → run_reader lines p ≡ some q
      → Read (length lines) p q
  unfolding run_reader close_channel
  run_reader-Read [] p {q} h = ground (arith, add-zero p.lines_read)
  run_reader-Read (line ∷ lines) p {q} h = elim (Option-cases (feed_line line p)) [
    | inl e ↦ ground arith
    | inr ((r, b), e) ↦
        ground (arith, feed_line-Read line p e, run_reader-Read lines r {q = q} (ground (arith, e)))
  ]

  run_reader-total :
      (lines : List Line) (p : Pipeline F Line)
      → p.closed ≡ false
      → (q : Pipeline F Line) × (run_reader lines p ≡ some q)
  unfolding run_reader
  run_reader-total [] p e = (close_channel p, refl)
  run_reader-total (line ∷ lines) p e = elim (Option-cases (feed_line line p)) [
    | inl none' ↦ absurd (feed_line-ne-none line p e none')
    | inr ((r, b), fed) ↦
        let (q, end) = run_reader-total lines r (ground (arith, feed_line-Read line p fed)) in
        (q, rw (fed, run_reader) end)
  ]

module _ {F Line : Type 0} where
  -- `DrainChannel` takes the lines that the channel holds, and nothing else changes.
  drain_channel_lem :
      (lines : List Line) (p : Pipeline F Line)
      → p.line_chan ≡ lines
      → drain_channel (length lines) p ≡ record p { line_chan = [] }
  unfolding drain_channel
  drain_channel_lem [] p e = ground arith
  drain_channel_lem (line ∷ lines) p e =
      ground (arith, drain_channel_lem lines (record p { line_chan = lines }) refl)

  -- A reader whose lines fit in the channel.
  run_reader_fits :
      (lines : List Line) (p : Pipeline F Line)
      → p.closed ≡ false
      → p.feeding ≡ none
      → length p.line_chan + length lines ≤ p.buffer_size
      → run_reader lines p
        ≡ some (record p {
          line_chan = p.line_chan ++ lines;
          closed = true;
          lines_read = p.lines_read + length lines;
        })
  unfolding run_reader feed_line close_channel
  run_reader_fits [] p e f h = ground (arith, append-nil p.line_chan)
  run_reader_fits (line ∷ lines) p e f h =
      let q = record p {
        line_chan = p.line_chan ++ line ∷ [];
        lines_read = suc p.lines_read;
        feeding = none;
      } in
      ground (
        arith,
        length-snoc p.line_chan line,
        append_assoc p.line_chan (line ∷ []) lines,
        run_reader_fits lines q,
      )

-- A reader feeds any lines to a new pipeline to its end, and then the parser empties the channel:
-- nothing panics; every line is counted as read, each is either dropped or parsed, the parsed ones
-- are those delivered, and at most `bufferSize` were kept.
pub run_reader-run_parser :
    (fl : Float) {Line : Type 0} (size : ℕ) (threshold : fl.F) (lines : List Line)
    → (q : Pipeline fl.F Line) × (run_reader lines (new_pipeline fl size threshold) ≡ some q)
      × (let r = run_parser (length q.line_chan) q in
          (r.line_chan ≡ [])
          × (r.lines_read ≡ length lines)
          × (r.lines_dropped + r.lines_parsed ≡ length lines)
          × (r.delivered ≡ q.line_chan)
          × (length q.line_chan ≤ r.buffer_size))
unfolding new_pipeline
run_reader-run_parser fl size threshold lines =
    let p = new_pipeline fl size threshold in
    let (q, end) = run_reader-total lines p refl in
    let read = run_reader-Read lines p end in
    let parsed = run_parser_lem q.line_chan q refl (ground (arith, read)) in
    (
      q,
      end,
      (
        ground (arith, parsed),
        ground (arith, parsed, read),
        ground (arith, parsed, read),
        ground (arith, parsed, read),
        ground (arith, parsed, read),
      ),
    )

-- With no more lines than the channel holds, none is dropped and the parser gets all of them in
-- order, however late it starts.
run_reader-lossless :
    (fl : Float) {Line : Type 0} (size : ℕ) (threshold : fl.F) (lines : List Line)
    → 0 < size
    → length lines ≤ size
    → (q : Pipeline fl.F Line) × (run_reader lines (new_pipeline fl size threshold) ≡ some q)
      × (let r = run_parser (length lines) q in
          (r.delivered ≡ lines) × (r.lines_dropped ≡ 0) × (r.lines_parsed ≡ length lines))
unfolding new_pipeline
run_reader-lossless fl size threshold lines z h =
    let p = new_pipeline fl size threshold in
    let q = record p { line_chan = lines; closed = true; lines_read = length lines } in
    let parsed = run_parser_lem lines q refl refl in
    (
      q,
      ground (arith, run_reader_fits lines p),
      (ground (arith, parsed), ground (arith, parsed), ground (arith, parsed)),
    )

-- A reader feeds any lines to a new pipeline to its end, and the channel is drained in place of a parser: nothing
-- panics and the channel is empty, but the lines that it held are counted neither as dropped nor as parsed.
run_reader-drain_channel :
    (fl : Float) {Line : Type 0} (size : ℕ) (threshold : fl.F) (lines : List Line)
    → (q : Pipeline fl.F Line) × (run_reader lines (new_pipeline fl size threshold) ≡ some q)
      × (let r = drain_channel (length q.line_chan) q in
          (r.line_chan ≡ [])
          × (r.lines_read ≡ length lines)
          × (r.lines_dropped + length q.line_chan ≡ length lines)
          × (r.lines_parsed ≡ 0)
          × (r.delivered ≡ []))
unfolding new_pipeline
run_reader-drain_channel fl size threshold lines =
    let p = new_pipeline fl size threshold in
    let (q, end) = run_reader-total lines p refl in
    let read = run_reader-Read lines p end in
    let drained = drain_channel_lem q.line_chan q refl in
    (
      q,
      end,
      (
        ground (arith, drained),
        ground (arith, drained, read),
        ground (arith, drained, read),
        ground (arith, drained, read),
        ground (arith, drained, read),
      ),
    )
