-- ===== src/Pipeline/Conservation.antt =====
-- The counters of pipeline.go: no line is counted twice or lost, and the channel stays in bounds.
use go_ffmpeg_hls_swarm.Common.{
  ℕ, suc, ◌+◌, ◌≤◌, ◌≡◌, List, [], ◌∷◌, ◌++◌, Option, none, some, inl, inr, length, length-append,
  arith, Float, Option-cases,
}
use go_ffmpeg_hls_swarm.Pipeline.{
  Pipeline, Action, count, send, close, receive, finish, step, run, new_pipeline, finish_line,
}

abbrev pub held {ℓ} : {A : Type ℓ} → Option A → ℕ
held none = 0
held (some a) = 1

-- Each line that was read is dropped, parsed, in the channel, or in the hands of a goroutine; the
-- channel holds at most `bufferSize` lines; what was parsed is what was delivered.
pub record Accounts {F Line : Type 0} (p : Pipeline F Line) : Type 0 where
  pub conserved :
      p.lines_read
      ≡ p.lines_dropped + p.lines_parsed + length p.line_chan + held p.feeding + held p.parsing
  pub bounded : length p.line_chan ≤ p.buffer_size
  pub parsed_delivered : length p.delivered ≡ p.lines_parsed

pub length-snoc {ℓ} : {A : Type ℓ} (xs : List A) (x : A) → length (xs ++ x ∷ []) ≡ suc (length xs)
length-snoc xs x = omega (arith, length-append xs (x ∷ []))

module _ {F Line : Type 0} where
  step_send-Accounts :
      (p : Pipeline F Line) {q : Pipeline F Line} → Accounts p → step send p ≡ some q → Accounts q
  unfolding step
  step_send-Accounts p v h = elim (Option-cases p.feeding) [
    | inl e ↦ ground arith
    | inr (line, e) ↦ ground (arith, length-snoc p.line_chan line)
  ]

  finish_line-Accounts : (p : Pipeline F Line) → Accounts p → Accounts (finish_line p)
  unfolding finish_line
  finish_line-Accounts p v = elim (Option-cases p.parsing) [
    | inl e ↦ ground arith
    | inr (line, e) ↦ ground (arith, length-snoc p.delivered line)
  ]

  step-Accounts :
      (a : Action Line) (p : Pipeline F Line) {q : Pipeline F Line}
      → Accounts p
      → step a p ≡ some q
      → Accounts q
  unfolding step
  step-Accounts (count line) p v h = ground arith
  step-Accounts send p v h = step_send-Accounts p v h
  step-Accounts close p v h = ground arith
  step-Accounts receive p v h = ground arith
  step-Accounts finish p v h = ground (arith, finish_line-Accounts p v)

  run-Accounts :
      (acts : List (Action Line)) (p : Pipeline F Line) {q : Pipeline F Line}
      → Accounts p
      → run acts p ≡ some q
      → Accounts q
  unfolding run
  run-Accounts [] p v h = ground arith
  run-Accounts (a ∷ acts) p v h = elim (Option-cases (step a p)) [
    | inl e ↦ ground arith
    | inr (r, e) ↦ run-Accounts acts r (step-Accounts a p v e) (ground arith)
  ]

-- From a new pipeline, in every interleaving of the reader and the parser: lines read = dropped +
-- parsed + queued + held by either goroutine, the channel holds at most `bufferSize` lines, and
-- `linesParsed` counts the calls of `ParseLine`.
pub run-new-Accounts :
    (fl : Float) {Line : Type 0} (size : ℕ) (threshold : fl.F) (acts : List (Action Line))
    {q : Pipeline fl.F Line}
    → run acts (new_pipeline fl size threshold) ≡ some q
    → Accounts q
unfolding new_pipeline
run-new-Accounts fl size threshold acts h =
    run-Accounts acts (new_pipeline fl size threshold) (omega arith) h
