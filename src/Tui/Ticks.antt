-- ===== src/Tui/Ticks.antt =====
-- model.go: the model after any messages, and the ticks that are on their way to it.
use go_ffmpeg_hls_swarm.Common.{
  ℕ, zero, suc, ◌+◌, ◌≡◌, ◌↔◌, Bool, true, false, ◌||◌, not, if◌then◌else◌, List, [], ◌∷◌, Option,
  none, some, Text, codes, text_eq, text_eq_iff, arith,
}
use go_ffmpeg_hls_swarm.Tui.{
  Msg, key, window_size, tick_msg, stats_msg, quit_msg, other, Cmd, nothing, tick_cmd, quit, Model,
  Config, blank, new, init, is_quit_key, update, view,
}

abbrev pub ticks : Cmd → ℕ
ticks tick_cmd = 1
ticks nothing = 0
ticks quit = 0

module _ {S D : Type 0} where
  -- Messages with their times are delivered, with the number of ticks on their way. A tick comes only after the
  -- command for it, so one that none is on its way for is no run.
  abbrev pub deliver : List (ℕ × Msg S D) → Model S D → ℕ → Option (Model S D × ℕ)
  deliver [] m pending = some (m, pending)
  deliver ((now, tick_msg) ∷ messages) m zero = none
  deliver ((now, tick_msg) ∷ messages) m (suc pending) =
      let (m', c) = update now tick_msg m in deliver messages m' (ticks c + pending)
  deliver ((now, key k) ∷ messages) m pending =
      let (m', c) = update now (key k) m in deliver messages m' (ticks c + pending)
  deliver ((now, window_size w h) ∷ messages) m pending =
      let (m', c) = update now (window_size w h) m in deliver messages m' (ticks c + pending)
  deliver ((now, stats_msg s d) ∷ messages) m pending =
      let (m', c) = update now (stats_msg s d) m in deliver messages m' (ticks c + pending)
  deliver ((now, quit_msg) ∷ messages) m pending =
      let (m', c) = update now quit_msg m in deliver messages m' (ticks c + pending)
  deliver ((now, other) ∷ messages) m pending =
      let (m', c) = update now other m in deliver messages m' (ticks c + pending)

  -- How often r was pressed, whether the program was told to quit, and what d has made of the view.
  abbrev pub refreshes : List (ℕ × Msg S D) → ℕ
  refreshes [] = 0
  refreshes ((now, msg) ∷ messages) =
      (elim msg [ key k ↦ if text_eq k (codes "r") then 1 else 0 | _ ↦ 0 ]) + refreshes messages

  abbrev pub told_to_quit : Bool → List (ℕ × Msg S D) → Bool
  told_to_quit quitting [] = quitting
  told_to_quit quitting ((now, msg) ∷ messages) =
      told_to_quit (elim msg [ key k ↦ is_quit_key k || quitting | quit_msg ↦ true | _ ↦ quitting ])
        messages

  abbrev pub toggled : Bool → List (ℕ × Msg S D) → Bool
  toggled shown [] = shown
  toggled shown ((now, msg) ∷ messages) =
      toggled (elim msg [ key k ↦ if text_eq k (codes "d") then not shown else shown | _ ↦ shown ])
        messages

  key-effect :
      (now : ℕ) (k : Text) (m : Model S D)
      → let (m', c) = update now (key k) m in
        (m'.quitting ≡ is_quit_key k || m.quitting)
        × (m'.detailed_view
            ≡ (if text_eq k (codes "d") then not m.detailed_view else m.detailed_view))
        × (ticks c ≡ (if text_eq k (codes "r") then 1 else 0))
  unfolding update text_eq
  key-effect now k m = ground (
    arith,
    text_eq_iff k (codes "q"),
    text_eq_iff k (codes "ctrl+c"),
    text_eq_iff k (codes "esc"),
    text_eq_iff k (codes "d"),
    text_eq_iff k (codes "r"),
  )

  deliver-effect :
      (messages : List (ℕ × Msg S D)) (m : Model S D) (pending : ℕ) (m' : Model S D) (pending' : ℕ)
      → deliver messages m pending ≡ some (m', pending')
      → (pending' ≡ pending + refreshes messages)
        × (m'.quitting ≡ told_to_quit m.quitting messages)
        × (m'.detailed_view ≡ toggled m.detailed_view messages)
  unfolding update
  deliver-effect [] m pending m' pending' h = ground arith
  deliver-effect ((now, tick_msg) ∷ messages) m zero m' pending' h = cc
  deliver-effect ((now, tick_msg) ∷ messages) m (suc pending) m' pending' h =
      ground (arith, deliver-effect messages (update now tick_msg m).0 (1 + pending) m' pending' h)
  deliver-effect ((now, key k) ∷ messages) m pending m' pending' h =
      let (n, c) = update now (key k) m in
      let effect = key-effect now k m in
      let rest = deliver-effect messages n (ticks c + pending) m' pending' h in
      (omega (arith, rest.0, effect.2), rw (← effect.0) rest.1, rw (← effect.1) rest.2)
  deliver-effect ((now, window_size w x) ∷ messages) m pending m' pending' h = ground (
    arith,
    deliver-effect messages (update now (window_size w x) m).0 (0 + pending) m' pending' h,
  )
  deliver-effect ((now, stats_msg s d) ∷ messages) m pending m' pending' h =
      ground (
        arith,
        deliver-effect messages (update now (stats_msg s d) m).0 (0 + pending) m' pending' h,
      )
  deliver-effect ((now, quit_msg) ∷ messages) m pending m' pending' h =
      ground (arith, deliver-effect messages (update now quit_msg m).0 (0 + pending) m' pending' h)
  deliver-effect ((now, other) ∷ messages) m pending m' pending' h =
      ground (arith, deliver-effect messages m (0 + pending) m' pending' h)

  -- After any messages to a new model, in which a tick comes only once it was commanded: the ticks on their way
  -- are one more than the times that r was pressed, and the model is quitting exactly if it was told to,
  -- after which the view is blank, and the detailed view is on if d was pressed an odd number of
  -- times.
  pub deliver-pending :
      (start : ℕ) (cfg : Config S D) (messages : List (ℕ × Msg S D)) (has_summaries : S → Bool)
      {m : Model S D} {pending : ℕ}
      → deliver messages (new start cfg) (ticks (init (new start cfg))) ≡ some (m, pending)
      → (pending ≡ 1 + refreshes messages)
        × (m.quitting ≡ told_to_quit false messages)
        × (m.detailed_view ≡ toggled false messages)
        × ((view has_summaries m ≡ blank) ↔ (told_to_quit false messages ≡ true))
  unfolding new view
  deliver-pending start cfg messages has_summaries {m} {pending} h =
      let (p, q, v) = deliver-effect messages (new start cfg) 1 m pending h in
      (p, q, v, (ground arith, ground arith))
