-- ===== src/Pipeline/Order.antt =====
-- The pipeline of pipeline.go keeps the order of the lines, whatever it drops.
use mathlib.Core.List.{Sublist, append-nil, append_assoc, sublist-append_left}
use mathlib.Core.List.Sublist
use go_ffmpeg_hls_swarm.Common.{
  ◌≡◌, refl, List, [], ◌∷◌, ◌++◌, Option, none, some, arith, inl, inr, Option-cases, Float, ℕ, ◌⊎◌,
}
use go_ffmpeg_hls_swarm.Pipeline.{
  Pipeline, Action, count, send, close, receive, finish, step, run, new_pipeline,
}

abbrev pub to_list {ℓ} : {A : Type ℓ} → Option A → List A
to_list none = []
to_list (some a) = a ∷ []

-- The lines that a schedule reads.
abbrev pub lines_of : {Line : Type 0} → List (Action Line) → List Line
lines_of [] = []
lines_of (count line ∷ acts) = line ∷ lines_of acts
lines_of (send ∷ acts) = lines_of acts
lines_of (close ∷ acts) = lines_of acts
lines_of (receive ∷ acts) = lines_of acts
lines_of (finish ∷ acts) = lines_of acts

-- A line that is dropped leaves the others.
drop_last :
    {Line : Type 0} (xs ys zs : List Line) (l : Line)
    → Sublist (xs ++ (ys ++ (zs ++ []))) ((xs ++ (ys ++ (zs ++ l ∷ []))) ++ [])
drop_last xs ys zs l =
    simp (append-nil, ← append_assoc) (sublist-append_left (xs ++ ys ++ zs) (l ∷ []))

add_last :
    {Line : Type 0} (xs ys zs : List Line) (l : Line)
    → (xs ++ (ys ++ (zs ++ []))) ++ l ∷ [] ≡ xs ++ (ys ++ (zs ++ l ∷ []))
add_last xs ys zs l = simp (append-nil, append_assoc)

lines_of-cons :
    {Line : Type 0} (a : Action Line) (acts : List (Action Line))
    → lines_of (a ∷ acts) ≡ lines_of (a ∷ []) ++ lines_of acts
lines_of-cons (count line) acts = refl
lines_of-cons _ acts = refl

module _ {F Line : Type 0} where
  -- The lines that a pipeline has let through or still holds, oldest first.
  abbrev pub kept : Pipeline F Line → List Line
  kept p = p.delivered ++ (to_list p.parsing ++ (p.line_chan ++ to_list p.feeding))

  same_kept :
      (a : Action Line) (p q : Pipeline F Line)
      → kept q ≡ kept p
      → Sublist (kept q) (kept p ++ lines_of (a ∷ []))
  same_kept a p q e = rw e (sublist-append_left (kept p) (lines_of (a ∷ [])))

  step_send_cases :
      (p : Pipeline F Line) (line : Line) {q : Pipeline F Line}
      → p.feeding ≡ some line
      → step send p ≡ some q
      → (kept q ≡ kept p) ⊎ (kept q ≡ p.delivered ++ (to_list p.parsing ++ (p.line_chan ++ [])))
  unfolding step
  step_send_cases p line e h = ground (arith, append-nil (p.line_chan ++ line ∷ []))

  step_send-kept :
      (p : Pipeline F Line) {q : Pipeline F Line}
      → step send p ≡ some q
      → Sublist (kept q) (kept p ++ [])
  unfolding step
  step_send-kept p {q} h = elim (Option-cases p.feeding) [
    | inl e ↦ same_kept send p q (ground arith)
    | inr (line, e) ↦ elim (step_send_cases p line {q = q} e h) [
      | inl same ↦ same_kept send p q same
      | inr less ↦ rw (less, e) (drop_last p.delivered (to_list p.parsing) p.line_chan line)
    ]
  ]

  step_count-kept :
      (line : Line) (p : Pipeline F Line) {q : Pipeline F Line}
      → step (count line) p ≡ some q
      → (kept q ≡ kept p) ⊎ (kept q ≡ kept p ++ line ∷ [])
  unfolding step
  step_count-kept line p h =
      ground (arith, add_last p.delivered (to_list p.parsing) p.line_chan line)

  step-kept :
      (a : Action Line) (p : Pipeline F Line) {q : Pipeline F Line}
      → step a p ≡ some q
      → Sublist (kept q) (kept p ++ lines_of (a ∷ []))
  unfolding step
  step-kept (count line) p {q} h = elim (step_count-kept line p {q = q} h) [
    | inl same ↦ same_kept (count line) p q same
    | inr more ↦ rw more (Sublist.refl (kept p ++ line ∷ []))
  ]
  step-kept send p h = step_send-kept p h
  step-kept close p {q} h = same_kept close p q (ground arith)
  step-kept receive p {q} h = same_kept receive p q (ground arith)
  step-kept finish p {q} h = elim (Option-cases p.parsing) [
    | inl e ↦ same_kept finish p q (ground arith)
    | inr (line, e) ↦
        same_kept finish p q
          (ground (arith, append_assoc p.delivered (line ∷ []) (p.line_chan ++ to_list p.feeding)))
  ]

  run-kept :
      (acts : List (Action Line)) (p : Pipeline F Line) {q : Pipeline F Line}
      → run acts p ≡ some q
      → Sublist (kept q) (kept p ++ lines_of acts)
  unfolding run
  run-kept [] p {q} h =
      let e : kept q ≡ kept p = ground arith in rw (e, append-nil (kept p)) (Sublist.refl (kept p))
  run-kept (a ∷ acts) p {q} h = elim (Option-cases (step a p)) [
    | inl e ↦ absurd (ground arith)
    | inr (r, e) ↦ Sublist.trans (run-kept acts r {q = q} (ground (arith, e))) (
        rw (lines_of-cons a acts, ← append_assoc (kept p) (lines_of (a ∷ [])) (lines_of acts))
          (Sublist.append (step-kept a p {q = r} e) (Sublist.refl (lines_of acts))))
  ]

-- From a new pipeline, in every interleaving: the lines given to the parser, followed by those still
-- on the way, are the lines read with some left out, in the order in which they were read.
pub run-new-kept :
    (fl : Float) {Line : Type 0} (size : ℕ) (threshold : fl.F) (acts : List (Action Line))
    {q : Pipeline fl.F Line}
    → run acts (new_pipeline fl size threshold) ≡ some q
    → Sublist
        (q.delivered ++ (to_list q.parsing ++ (q.line_chan ++ to_list q.feeding)))
        (lines_of acts)
unfolding new_pipeline
run-new-kept fl size threshold acts {q} h = run-kept acts (new_pipeline fl size threshold) {q = q} h
