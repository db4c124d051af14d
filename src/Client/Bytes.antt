-- ===== src/Client/Bytes.antt =====
-- client_stats.go: the bytes of a client over the FFmpeg processes that it runs.
use go_ffmpeg_hls_swarm.Common.{
  ℕ, ◌≡◌, refl, ◌∙◌, List, [], ◌∷◌, ℤ, pos, ◌+ℤ◌, +ℤ_assoc, +ℤ_zero, zero_+ℤ, arith, sym, ap,
}
use go_ffmpeg_hls_swarm.Client.{
  ClientStats, on_process_start, update_current_bytes, total_bytes, new_client_stats,
}

-- The sizes that a process reports, and the last of them: 0 before the first.
abbrev pub last_size : ℤ → List ℤ → ℤ
last_size best [] = best
last_size best (size ∷ sizes) = last_size size sizes

abbrev pub sum_last : List (List ℤ) → ℤ
sum_last [] = pos 0
sum_last (sizes ∷ runs) = last_size (pos 0) sizes +ℤ sum_last runs

module _ {R : Type 0} where
  -- A process reports its sizes.
  abbrev pub report : List ℤ → ClientStats R → ClientStats R
  report [] s = s
  report (size ∷ sizes) s = report sizes (update_current_bytes size s)

  -- Processes run one after another.
  abbrev pub run_processes : List (List ℤ) → ClientStats R → ClientStats R
  run_processes [] s = s
  run_processes (sizes ∷ runs) s = run_processes runs (report sizes (on_process_start s))

  report-current :
      (sizes : List ℤ) (s : ClientStats R)
      → ((report sizes s).bytes_from_previous_runs ≡ s.bytes_from_previous_runs)
        × ((report sizes s).current_process_bytes ≡ last_size s.current_process_bytes sizes)
  unfolding update_current_bytes
  report-current [] s = (refl, refl)
  report-current (size ∷ sizes) s = report-current sizes (update_current_bytes size s)

  run_processes-total :
      (runs : List (List ℤ)) (s : ClientStats R)
      → total_bytes (run_processes runs s) ≡ total_bytes s +ℤ sum_last runs
  unfolding total_bytes on_process_start
  run_processes-total [] s = sym (+ℤ_zero (total_bytes s))
  run_processes-total (sizes ∷ runs) s = ground (
    arith,
    run_processes-total runs (report sizes (on_process_start s)),
    report-current sizes (on_process_start s),
    +ℤ_assoc (total_bytes s) (last_size (pos 0) sizes) (sum_last runs),
  )

  new_client_stats-total : (zero : R) (now : ℕ) → total_bytes (new_client_stats zero now) ≡ pos 0
  unfolding total_bytes new_client_stats ◌+ℤ◌
  new_client_stats-total zero now = refl

  -- Of a new client: where `OnProcessStart` is called as each FFmpeg process starts, the bytes in all are the sum, over the
  -- processes, of the last size that each reported.
  pub run_processes-total_bytes :
      (zero : R) (now : ℕ) (runs : List (List ℤ))
      → total_bytes (run_processes runs (new_client_stats zero now)) ≡ sum_last runs
  run_processes-total_bytes zero now runs =
      run_processes-total runs (new_client_stats zero now)
      ∙ ap (λ n. n +ℤ sum_last runs) (new_client_stats-total zero now)
      ∙ zero_+ℤ (sum_last runs)
