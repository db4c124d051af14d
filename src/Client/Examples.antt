-- ===== src/Client/Examples.antt =====
-- A client's statistics, and the theorems on them at concrete reports.
use go_ffmpeg_hls_swarm.Common.{
  ◌+◌, ◌≡◌, refl, [], ◌∷◌, false, ℤ, pos, Float, ltb, ◌^◌, ◌*◌, ◌/◌, arith,
}
use go_ffmpeg_hls_swarm.Common.WholeFloats.{whole}
use go_ffmpeg_hls_swarm.Client.{
  ClientStats, new_client_stats, get_http_errors, is_stalled, error_index,
}
use go_ffmpeg_hls_swarm.Client.Errors.{
  record_all, count_in, key_of, occurrences, record_all-get_http_errors,
}
use go_ffmpeg_hls_swarm.Client.Speed.{
  update_speeds, update_speeds-is_stalled, update_speeds-unnoticed,
}

-- Tenths of the integers, in which the threshold of 0.9 is 9.
abbrev tenths : Float
tenths = record whole { lit = λ m k. pos (m * 10 / 10 ^ k) }

abbrev client : ClientStats ℤ
client = new_client_stats (pos 0) 100

record_all-get_http_errors_example :
    count_in (key_of 404) (get_http_errors (record_all (404 ∷ 503 ∷ 404 ∷ 302 ∷ []) client))
    ≡ occurrences (error_index 404) (404 ∷ 503 ∷ 404 ∷ 302 ∷ [])
record_all-get_http_errors_example =
    record_all-get_http_errors (pos 0) 100 404 (404 ∷ 503 ∷ 404 ∷ 302 ∷ [])

abbrev playing : ClientStats ℤ
playing = record client { speed = pos 10 }

update_speeds-is_stalled_example :
    is_stalled 5000000200 (update_speeds tenths ((150, pos 5) ∷ (160, pos 8) ∷ []) playing)
    ≡ ltb (150 + 5000000000) 5000000200
update_speeds-is_stalled_example =
    update_speeds-is_stalled tenths ((160, pos 8) ∷ []) playing 150 5000000200 (pos 5) refl
      (omega arith) ((refl, refl, refl), ((refl, refl, refl), tt))

update_speeds-unnoticed_example :
    is_stalled 9000000000 (update_speeds tenths ((150, pos 5) ∷ []) client) ≡ false
update_speeds-unnoticed_example =
    update_speeds-unnoticed tenths ((150, pos 5) ∷ []) 100 9000000000 refl ((refl, refl, refl), tt)
