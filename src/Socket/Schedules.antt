-- ===== src/Socket/Schedules.antt =====
-- socket_reader.go: what holds in every interleaving of `Run` and `Close`.
use go_ffmpeg_hls_swarm.Common.{
  ℕ, ◌+◌, ◌++◌, ◌≤◌, ◌≡◌, refl, Bool, true, false, inl, inr, Option-cases, Option, none, some, List,
  [], ◌∷◌, length, length-append, Text, arith,
}
use go_ffmpeg_hls_swarm.Pipeline.{Pipeline, feed_line, close_channel}
use go_ffmpeg_hls_swarm.Socket.{
  Phase, created, accepting, accepted, reading, exited, SocketReader, Action, start, accept,
  accept_error, store, line, end_of_file, close, max_unix_socket_path_len, validate_socket_path,
  new_socket_reader, cleanup, close_conn, leave, close_reader, read_line, step, run,
}

-- What a phase says of the channel and of the connection.
abbrev pub InPhase : {F : Type 0} → Phase → SocketReader F → Type 0
InPhase created r =
    (r.pipeline.closed ≡ false) × (r.conn ≡ false) × (r.connected ≡ false) × (r.ready ≡ false)
InPhase accepting r =
    (r.pipeline.closed ≡ false) × (r.conn ≡ false) × (r.connected ≡ false) × (r.ready ≡ true)
InPhase accepted r =
    (r.pipeline.closed ≡ false) × (r.conn ≡ false) × (r.connected ≡ true) × (r.ready ≡ true)
InPhase reading r = (r.pipeline.closed ≡ false) × (r.ready ≡ true) × (r.conn ≡ r.connected)
InPhase exited r =
    (r.pipeline.closed ≡ true)
    × (r.cleaned_up ≡ true)
    × (r.conn ≡ false)
    × (r.connected ≡ false)
    × (r.ready ≡ true)

module _ {F : Type 0} where
  pub record IsSound (r : SocketReader F) : Type 0 where
    pub phase : InPhase r.phase r
    pub counted : r.pipeline.lines_read ≡ r.lines_read
    pub cleaned : r.cleaned_up ≡ true → (r.listening ≡ false) × (r.socket_file ≡ false)
    pub closed : r.closed_once ≡ true → r.cleaned_up ≡ true

  abbrev pub Safe : Option (SocketReader F) → Type 0
  Safe none = ⊥
  Safe (some s) = IsSound s

  read_line-Safe :
      (l : Text) (r : SocketReader F) → IsSound r → r.phase ≡ reading → Safe (read_line l r)
  unfolding read_line feed_line
  read_line-Safe l r h e = ground arith

  close_reader-IsSound :
      (p : Phase) (r : SocketReader F) → r.phase ≡ p → IsSound r → IsSound (close_reader r)
  unfolding close_reader cleanup close_conn
  close_reader-IsSound created r e h = ground arith
  close_reader-IsSound accepting r e h = ground arith
  close_reader-IsSound accepted r e h = ground arith
  close_reader-IsSound reading r e h = ground arith
  close_reader-IsSound exited r e h = ground arith

  step-Safe :
      (a : Action) (p : Phase) (r : SocketReader F) → r.phase ≡ p → IsSound r → Safe (step a r)
  unfolding step leave cleanup close_conn close_channel
  step-Safe start created r e h = ground arith
  step-Safe start _ r e h = rw (e, step) h
  step-Safe accept accepting r e h = ground arith
  step-Safe accept _ r e h = rw (e, step) h
  step-Safe accept_error accepting r e h = ground arith
  step-Safe accept_error _ r e h = rw (e, step) h
  step-Safe store accepted r e h = ground arith
  step-Safe store _ r e h = rw (e, step) h
  step-Safe (line l) reading r e h = rw (e, step) (read_line-Safe l r h e)
  step-Safe (line l) _ r e h = rw (e, step) h
  step-Safe end_of_file reading r e h = ground arith
  step-Safe end_of_file _ r e h = rw (e, step) h
  step-Safe close p r e h = close_reader-IsSound p r e h

  run-Safe : (actions : List Action) (r : SocketReader F) → IsSound r → Safe (run actions r)
  unfolding run
  run-Safe [] r h = h
  run-Safe (a ∷ rest) r h = elim (Option-cases (step a r)) [
    | inl panic ↦ absurd (rw panic at (step-Safe a r.phase r refl h))
    | inr (s, e) ↦ rw (e, run) (run-Safe rest s (rw e at (step-Safe a r.phase r refl h)))
  ]

-- The line that `Run` reads in an action: one that comes while it reads.
abbrev pub taken : Action → Phase → List Text
taken (line l) reading = l ∷ []
taken _ _ = []

-- The bytes of lines, each with its newline.
abbrev pub sum_bytes : List Text → ℕ
sum_bytes [] = 0
sum_bytes (l ∷ lines) = length l + 1 + sum_bytes lines

sum_bytes-append :
    (lines more : List Text) → sum_bytes (lines ++ more) ≡ sum_bytes lines + sum_bytes more
sum_bytes-append [] more = omega arith
sum_bytes-append (l ∷ lines) more = omega (arith, sum_bytes-append lines more)

module _ {F : Type 0} where
  -- The lines that `Run` reads in a schedule.
  abbrev pub lines_of : List Action → SocketReader F → List Text
  lines_of [] r = []
  lines_of (a ∷ rest) r =
      let more : List Text = elim (step a r) [ none ↦ [] | some s ↦ lines_of rest s ] in
      taken a r.phase ++ more

  -- The reader has counted these lines more, and their bytes.
  abbrev pub Counts : List Text → SocketReader F → Option (SocketReader F) → Type 0
  Counts lines r none = Unit {0}
  Counts lines r (some s) =
      (s.lines_read ≡ r.lines_read + length lines) × (s.bytes_read ≡ r.bytes_read + sum_bytes lines)

  close_reader-Counts : (r : SocketReader F) → Counts [] r (some (close_reader r))
  unfolding close_reader cleanup close_conn
  close_reader-Counts r = ground arith

  read_line-Counts : (l : Text) (r : SocketReader F) → Counts (l ∷ []) r (read_line l r)
  unfolding read_line
  read_line-Counts l r = ground arith

  step-Counts :
      (a : Action) (p : Phase) (r : SocketReader F) → r.phase ≡ p → Counts (taken a p) r (step a r)
  unfolding step leave cleanup close_conn
  step-Counts start p r e = ground arith
  step-Counts accept p r e = ground arith
  step-Counts accept_error p r e = ground arith
  step-Counts store p r e = ground arith
  step-Counts (line l) reading r e = rw (e, step) (read_line-Counts l r)
  step-Counts (line l) _ r e = rw (e, step) ground arith
  step-Counts end_of_file p r e = ground arith
  step-Counts close p r e = close_reader-Counts r

  Counts-trans :
      (lines more : List Text) (r s : SocketReader F) (o : Option (SocketReader F))
      → Counts lines r (some s)
      → Counts more s o
      → Counts (lines ++ more) r o
  Counts-trans lines more r s none h k = tt
  Counts-trans lines more r s (some t) h k = (
    omega (arith, length-append lines more, h, k),
    omega (arith, sum_bytes-append lines more, h, k),
  )

  run-Counts :
      (actions : List Action) (r : SocketReader F) → Counts (lines_of actions r) r (run actions r)
  unfolding run
  run-Counts [] r = (omega arith, omega arith)
  run-Counts (a ∷ rest) r = elim (Option-cases (step a r)) [
    | inl panic ↦ rw (panic, run) tt
    | inr (s, e) ↦
        rw (e, run)
          (Counts-trans (taken a r.phase) (lines_of rest s) r s (run rest s)
            (rw e at (step-Counts a r.phase r refl)) (run-Counts rest s))
  ]

-- A reader is made only for a path of 104 bytes at most. In every interleaving of its `Run` with calls of `Close` it
-- never panics by a line on a closed channel; each line read is fed, and its bytes are counted with
-- its newline, from 0 on; the channel is closed once `Run` has returned and not before, and then no connection
-- is open, and the socket is closed and removed; after a first `Close` it is too.
pub run-new-Safe :
    {F : Type 0} (path : Text) (listens : Bool) (p : Pipeline F Text) (actions : List Action)
    {r : SocketReader F}
    → p.closed ≡ false
    → p.lines_read ≡ 0
    → new_socket_reader path listens p ≡ some r
    → (length path ≤ max_unix_socket_path_len)
      × Safe (run actions r)
      × (r.lines_read ≡ 0)
      × (r.bytes_read ≡ 0)
      × Counts (lines_of actions r) r (run actions r)
unfolding new_socket_reader validate_socket_path
run-new-Safe path listens p actions {r} open_channel fresh made = (
  ground arith,
  run-Safe actions r (ground arith),
  ground arith,
  ground arith,
  run-Counts actions r,
)
