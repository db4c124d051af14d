-- ===== src/Manager/Downloads.antt =====
-- client_manager.go: the bytes that `createProgressCallback` counts over the FFmpeg processes of a client.
use go_ffmpeg_hls_swarm.Common.{
  ℕ, ◌+◌, ◌-◌, ◌≤◌, ◌≡◌, refl, ◌∙◌, ap, sym, if◌then◌else◌, leb, none, some, List, [], ◌∷◌, ℤ, pos,
  ◌+ℤ◌, ◌-ℤ◌, +ℤ_pos, +ℤ_zero, Float, arith,
}
use go_ffmpeg_hls_swarm.Progress.{empty_update}
use go_ffmpeg_hls_swarm.Manager.Progress.{
  ClientProgress, note_progress, get_client, put_client, bytes_delta, previous_size,
}

-- The sizes that a process reports: the first and the others.
abbrev pub Run : Type 0
Run = ℕ × List ℕ

abbrev last_size : ℕ → List ℕ → ℕ
last_size size [] = size
last_size size (next ∷ sizes) = last_size next sizes

-- A process reports no size that is less than its last.
abbrev pub Grows : ℕ → List ℕ → Type 0
Grows size [] = Unit {0}
Grows size (next ∷ sizes) = (size ≤ next) × Grows next sizes

abbrev pub AllGrow : List Run → Type 0
AllGrow [] = Unit {0}
AllGrow ((size, sizes) ∷ runs) = Grows size sizes × AllGrow runs

abbrev min_size : ℕ → ℕ → ℕ
min_size a b = if leb a b then a else b

-- The last sizes together, and of each process but the first what is counted too little: its first size,
-- or the last of the process before, whichever is less. `prev` is the last size of the process before.
abbrev pub sum_last_sizes : List Run → ℕ
sum_last_sizes [] = 0
sum_last_sizes ((size, sizes) ∷ runs) = last_size size sizes + sum_last_sizes runs

abbrev pub sum_missed : ℕ → List Run → ℕ
sum_missed prev [] = 0
sum_missed prev ((size, sizes) ∷ runs) = min_size prev size + sum_missed (last_size size sizes) runs

abbrev gained : ℕ → List ℕ → ℕ
gained prev [] = 0
gained prev (size ∷ sizes) = (size - prev) + gained size sizes

gained-Grows :
    (size : ℕ) (sizes : List ℕ) → Grows size sizes → gained size sizes + size ≡ last_size size sizes
gained-Grows size [] h = omega arith
gained-Grows size (next ∷ sizes) h = omega (arith, gained-Grows next sizes h.1, h.0)

delta_pos : (size next : ℕ) → bytes_delta (some (pos size)) (pos next) ≡ pos (next - size)
unfolding bytes_delta ◌-ℤ◌
delta_pos size next = ground arith

combine :
    (x m m' : ℤ) (prev size g last missed sums : ℕ)
    → x +ℤ pos missed ≡ m' +ℤ pos sums
    → m' ≡ m +ℤ pos (size - prev + g)
    → g + size ≡ last
    → x +ℤ pos (min_size prev size + missed) ≡ m +ℤ pos (last + sums)
combine x m m' prev size g last missed sums h k e =
    let kept = min_size prev size in
    ap (λ n. x +ℤ pos n) (omega arith)
    ∙ sym (+ℤ_pos x missed kept)
    ∙ ap (λ z. z +ℤ pos kept) (h ∙ ap (λ z. z +ℤ pos sums) k ∙ +ℤ_pos m (size - prev + g) sums)
    ∙ +ℤ_pos m (size - prev + g + sums) kept
    ∙ ap (λ n. m +ℤ pos n) (ground arith)

module _ {A : Type 0} where
  get_client-put_client :
      (id : ℕ) (a : A) (m : List (ℕ × A)) → get_client id (put_client id a m) ≡ some a
  unfolding get_client put_client
  get_client-put_client id a [] = ground arith
  get_client-put_client id a ((j, b) ∷ m) = ground (arith, get_client-put_client id a m)

module _ (F : Float) where
  -- The updates of one client with these sizes.
  abbrev report_sizes : ℕ → List ℕ → ClientProgress F.F → ClientProgress F.F
  report_sizes id [] m = m
  report_sizes id (size ∷ sizes) m =
      report_sizes id sizes
        (note_progress F id (record (empty_update F) { total_size = pos size }) m)

  abbrev pub report_runs : ℕ → List Run → ClientProgress F.F → ClientProgress F.F
  report_runs id [] m = m
  report_runs id ((size, sizes) ∷ runs) m = report_runs id runs (report_sizes id (size ∷ sizes) m)

  -- What another size adds, where the client reported `size` last: 0 before it has reported one.
  HasSize : ℕ → ℕ → ClientProgress F.F → Type 0
  HasSize id size m =
      (next : ℕ)
      → bytes_delta (previous_size F (get_client id m.latest_progress)) (pos next)
        ≡ pos (next - size)

  note_progress-HasSize :
      (id prev size : ℕ) (m : ClientProgress F.F)
      → HasSize id prev m
      → let m' = note_progress F id (record (empty_update F) { total_size = pos size }) m in
        HasSize id size m'
        × (m'.total_bytes_downloaded ≡ m.total_bytes_downloaded +ℤ pos (size - prev))
  unfolding HasSize note_progress
  note_progress-HasSize id prev size m h =
      let update = record (empty_update F) { total_size = pos size } in
      (
        λ next.
            ap (λ o. bytes_delta (previous_size F o) (pos next))
              (get_client-put_client id update m.latest_progress)
            ∙ delta_pos size next,
        ap (λ d. m.total_bytes_downloaded +ℤ d) (h size),
      )

  report_sizes-HasSize :
      (id prev : ℕ) (sizes : List ℕ) (m : ClientProgress F.F)
      → HasSize id prev m
      → let m' = report_sizes id sizes m in
        HasSize id (last_size prev sizes) m'
        × (m'.total_bytes_downloaded ≡ m.total_bytes_downloaded +ℤ pos (gained prev sizes))
  report_sizes-HasSize id prev [] m h = (h, sym (+ℤ_zero _))
  report_sizes-HasSize id prev (size ∷ sizes) m h =
      let m' = note_progress F id (record (empty_update F) { total_size = pos size }) m in
      let (known, total) = note_progress-HasSize id prev size m h in
      let (last, more) = report_sizes-HasSize id size sizes m' known in
      (
        last,
        more
            ∙ ap (λ n. n +ℤ pos (gained size sizes)) total
            ∙ +ℤ_pos _ (size - prev) (gained size sizes),
      )

  report_runs-total :
      (id prev : ℕ) (runs : List Run) (m : ClientProgress F.F)
      → AllGrow runs
      → HasSize id prev m
      → (report_runs id runs m).total_bytes_downloaded +ℤ pos (sum_missed prev runs)
        ≡ m.total_bytes_downloaded +ℤ pos (sum_last_sizes runs)
  report_runs-total id prev [] m all h = refl
  report_runs-total id prev ((size, sizes) ∷ runs) m all h =
      let (last, total) = report_sizes-HasSize id prev (size ∷ sizes) m h in
      let m' = report_sizes id (size ∷ sizes) m in
      let rest = report_runs-total id (last_size size sizes) runs m' all.1 last in
      combine _ _ _ prev size _ _ _ _ rest total (gained-Grows size sizes all.0)

  get_client-HasSize :
      (id : ℕ) (m : ClientProgress F.F) → get_client id m.latest_progress ≡ none → HasSize id 0 m
  unfolding HasSize bytes_delta
  get_client-HasSize id m h next = ground (arith, h)

  -- A client that has not reported before runs processes one after another, each of which reports at least one size
  -- and none less than its last: the bytes that the manager counts more are the last sizes of
  -- the processes together, less, for each process but the first, its first size or the last size of
  -- the process before, whichever is less.
  pub report_runs-downloaded :
      (id : ℕ) (runs : List Run) (m : ClientProgress F.F)
      → get_client id m.latest_progress ≡ none
      → AllGrow runs
      → (report_runs id runs m).total_bytes_downloaded +ℤ pos (sum_missed 0 runs)
        ≡ m.total_bytes_downloaded +ℤ pos (sum_last_sizes runs)
  report_runs-downloaded id runs m h all =
      report_runs-total id 0 runs m all (get_client-HasSize id m h)
