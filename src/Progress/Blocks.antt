-- ===== src/Progress/Blocks.antt =====
-- progress.go: what the parser makes of the blocks that FFmpeg prints.
use go_ffmpeg_hls_swarm.Common.{
  ℕ, ◌+◌, ◌≡◌, inl, inr, refl, ◌∙◌, ap, true, Option, none, some, List, [], ◌∷◌, ◌++◌, map, length,
  take, All, Text, codes, cut-append, append-nil, append_assoc, parse_int-format_int, Float, arith,
}
use go_ffmpeg_hls_swarm.Progress.{
  ProgressUpdate, ProgressParser, parse_lines, parse_line, parse_value, parse_speed,
  parse_key_value, end_block, empty_update, new_progress_parser,
}
use go_ffmpeg_hls_swarm.Progress.Reports.{
  Report, Other, IsSpeed, IsReport, print_pair, print_speed, print_report, print_reports, size_of,
  count_lines, trim_suffix-append, print_size-cases,
}

module _ (F : Float) (parse_float : Text → F.F) where
  abbrev speed_of : Option Text → F.F
  speed_of none = F.lit 0 0
  speed_of (some t) = parse_float t

  -- The update for a report.
  abbrev pub update_of : Report → ProgressUpdate F.F
  update_of r = record {
    frame = r.frame;
    fps = parse_float r.fps;
    bitrate = r.bitrate;
    total_size = size_of r.total_size;
    out_time_us = r.out_time_us;
    speed = speed_of r.speed;
    progress = r.progress;
    received_at = r.time;
  }

  parse_speed-print_speed :
      (o : Option Text) → IsSpeed o → parse_speed F parse_float (print_speed o) ≡ speed_of o
  unfolding parse_speed
  parse_speed-print_speed none h = refl
  parse_speed-print_speed (some t) h = ground (arith, trim_suffix-append t b'x', h)

  parse_lines-append :
      (ls ms : List (ℕ × Text)) (p : ProgressParser F.F)
      → parse_lines F parse_float (ls ++ ms) p
        ≡ parse_lines F parse_float ms (parse_lines F parse_float ls p)
  unfolding parse_lines
  parse_lines-append [] ms p = refl
  parse_lines-append ((now, l) ∷ ls) ms p =
      parse_lines-append ls ms (parse_line F parse_float now l p)

  -- A key that the parser does not know only counts as a line.
  parse_line-unknown :
      (now : ℕ) (pair : Text × Text) (p : ProgressParser F.F)
      → Other pair
      → parse_line F parse_float now (print_pair pair) p
        ≡ record p { lines_processed = p.lines_processed + 1 }
  unfolding parse_line parse_key_value parse_value
  parse_line-unknown now (key, value) p (h, lacks) = ground (
    arith,
    cut-append b'=' key value lacks,
    h.0,
    h.1.0,
    h.1.1.0,
    h.1.1.1.0,
    h.1.1.1.1.0,
    h.1.1.1.1.1.0,
    h.1.1.1.1.1.1.0,
  )

  parse_lines-unknown :
      (now : ℕ) (others : List (Text × Text)) (rest : List Text) (p : ProgressParser F.F)
      → All Other others
      → parse_lines F parse_float (map (λ line. (now, line)) (map print_pair others ++ rest)) p
        ≡ parse_lines F parse_float
            (map (λ line. (now, line)) rest)
            (record p { lines_processed = p.lines_processed + length others })
  unfolding parse_lines
  parse_lines-unknown now [] rest p h = ground arith
  parse_lines-unknown now (pair ∷ others) rest p h =
      ap (parse_lines F parse_float (map (λ line. (now, line)) (map print_pair others ++ rest)))
        (parse_line-unknown now pair p h.0)
      ∙ parse_lines-unknown now others rest (record p { lines_processed = p.lines_processed + 1 })
          h.1
      ∙ ap
          (λ n.
            parse_lines F parse_float (map (λ line. (now, line)) rest)
              (record p { lines_processed = n }))
          (omega arith)

  -- The lines of a block up to the unknown keys, and those behind them.
  parse_lines-head :
      (r : Report) (rest : List (ℕ × Text)) (p : ProgressParser F.F)
      → IsReport r
      → parse_lines F parse_float
          (map (λ line. (r.time, line)) (take 5 (print_report r)) ++ rest)
          (record p { current = empty_update F })
        ≡ parse_lines F parse_float rest (record p {
          lines_processed = p.lines_processed + 5;
          current = record (empty_update F) {
            frame = r.frame;
            fps = parse_float r.fps;
            bitrate = r.bitrate;
            total_size = size_of r.total_size;
            out_time_us = r.out_time_us;
          };
        })
  unfolding parse_lines parse_line empty_update
  parse_lines-head r rest p h =
      let frame = parse_int-format_int r.frame h.0.0 h.0.1 in
      let out_time = parse_int-format_int r.out_time_us h.2.0 h.2.1 in
      elim (print_size-cases r.total_size h.1) [
        | inl (t, size) ↦ ground (arith, t, frame, out_time, size)
        | inr (t, t', size) ↦ ground (arith, t, t', frame, out_time, size)
      ]

  parse_lines-tail :
      (r : Report) (p : ProgressParser F.F)
      → IsSpeed r.speed
      → parse_lines F parse_float
          ((r.time, codes "speed=" ++ print_speed r.speed)
            ∷ (r.time, codes "progress=" ++ r.progress)
            ∷ [])
          p
        ≡ end_block F parse_float r.time r.progress (record p {
          lines_processed = p.lines_processed + 2;
          current = record p.current { speed = speed_of r.speed };
        })
  unfolding parse_lines parse_line end_block
  parse_lines-tail r p h = ground (arith, parse_speed-print_speed r.speed h)

  abbrev waiting : ℕ → ℕ → List (ProgressUpdate F.F) → ProgressParser F.F
  waiting blocks lines calls = record {
    has_callback = true;
    current = empty_update F;
    blocks_received = blocks;
    lines_processed = lines;
    calls = calls;
  }

  parse_lines-report :
      (r : Report) (blocks lines : ℕ) (calls : List (ProgressUpdate F.F))
      → IsReport r
      → parse_lines F parse_float
          (map (λ line. (r.time, line)) (print_report r))
          (waiting blocks lines calls)
        ≡ waiting (blocks + 1) (lines + (7 + length r.others)) (calls ++ update_of r ∷ [])
  unfolding end_block empty_update
  parse_lines-report r blocks lines calls h =
      parse_lines-head r _ (waiting blocks lines calls) h
      ∙ parse_lines-unknown r.time r.others _ _ h.3
      ∙ parse_lines-tail r _ h.4
      ∙ ground arith

  parse_lines-reports :
      (reports : List Report) (blocks lines : ℕ) (calls : List (ProgressUpdate F.F))
      → All IsReport reports
      → parse_lines F parse_float (print_reports reports) (waiting blocks lines calls)
        ≡ waiting
            (blocks + length reports)
            (lines + count_lines reports)
            (calls ++ map update_of reports)
  unfolding parse_lines
  parse_lines-reports [] blocks lines calls h = ground (arith, append-nil calls)
  parse_lines-reports (r ∷ reports) blocks lines calls h =
      parse_lines-append (map (λ line. (r.time, line)) (print_report r)) (print_reports reports) _
      ∙ ap (parse_lines F parse_float (print_reports reports))
          (parse_lines-report r blocks lines calls h.0)
      ∙ parse_lines-reports reports (blocks + 1) (lines + (7 + length r.others))
          (calls ++ update_of r ∷ []) h.1
      ∙ ground (arith, append_assoc calls (update_of r ∷ []) (map update_of reports))

  -- A new parser that reads the blocks printed for reports gives its callback the update of each report, in their
  -- order and with the time of its block, counts every block and every line, and has an
  -- empty update at the end. The numbers of the reports fit in 64 bits, their other keys are
  -- unknown to the parser, and a speed that is printed is not empty and not N/A.
  pub parse_lines-print_reports :
      (reports : List Report)
      → All IsReport reports
      → let p = parse_lines F parse_float (print_reports reports) (new_progress_parser F true) in
        (p.calls ≡ map update_of reports)
        × (p.blocks_received ≡ length reports)
        × (p.lines_processed ≡ count_lines reports)
        × (p.current ≡ empty_update F)
  unfolding new_progress_parser
  parse_lines-print_reports reports h =
      let e = parse_lines-reports reports 0 0 [] h in
      (
        ap (λ p. p.calls) e,
        ap (λ p. p.blocks_received) e ∙ omega arith,
        ap (λ p. p.lines_processed) e ∙ omega arith,
        ap (λ p. p.current) e,
      )
