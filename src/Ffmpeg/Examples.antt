-- ===== src/Ffmpeg/Examples.antt =====
-- The command line of client 42 with an IP override, and variants with a sort by insertion.
use mathlib.Core.List.{Permᴰ}
use mathlib.Core.List.Permᴰ
use go_ffmpeg_hls_swarm.Common.{
  ◌≡◌, refl, true, if◌then◌else◌, Option, some, List, [], ◌∷◌, ◌++◌, pos, ltb_ℤ, Bool-cases, inl,
  inr, Text, codes, arith,
}
use go_ffmpeg_hls_swarm.Ffmpeg.{
  FfmpegConfig, FfmpegRunner, Url, Program, ProgramInfo, default_ffmpeg_config, new_ffmpeg_runner,
  set_progress_fd, build_command, effective_url, user_agent_of, find_ffprobe, probe_args,
  variant_highest, variant_lowest, probe_variants,
}
use go_ffmpeg_hls_swarm.Ffmpeg.Variants.{
  Selects, IsBest, IsLeast, Ascending, probe_variants-Selects,
}

abbrev parse_url : Text → Option Url
parse_url s = some (record {
  host = codes "cdn.example.com";
  port = [];
  with_host = λ h. codes "http://" ++ h ++ codes "/a.m3u8";
})

abbrev config : FfmpegConfig
config = record (default_ffmpeg_config (codes "http://cdn.example.com/a.m3u8")) {
  resolve_ip = codes "10.0.0.1";
  dangerous_mode = true;
  stats_enabled = true;
  headers = codes "-i: x" ∷ [];
}

abbrev runner : FfmpegRunner
runner = (build_command parse_url (pos 42) (set_progress_fd (pos 3) (new_ffmpeg_runner config))).1

effective_url_rewritten : effective_url parse_url config ≡ codes "http://10.0.0.1/a.m3u8"
unfolding effective_url
effective_url_rewritten = refl

-- ffprobe gets the rewritten URL, and no Host header.
probe_args_rewritten :
    probe_args parse_url config
    ≡ codes "-v"
      ∷ codes "quiet"
      ∷ codes "-print_format"
      ∷ codes "json"
      ∷ codes "-show_programs"
      ∷ codes "-user_agent"
      ∷ codes "go-ffmpeg-hls-swarm/1.0"
      ∷ codes "http://10.0.0.1/a.m3u8"
      ∷ []
unfolding probe_args default_ffmpeg_config
probe_args_rewritten = refl

-- The first client has the number 0, and no number in its user agent.
user_agent_of_first :
    user_agent_of (record runner { client_id = pos 0 }) ≡ codes "go-ffmpeg-hls-swarm/1.0"
unfolding user_agent_of build_command set_progress_fd new_ffmpeg_runner default_ffmpeg_config
user_agent_of_first = refl

find_ffprobe_beside :
    find_ffprobe (λ path. true) (record config { binary_path = codes "/opt/bin/ffmpeg" })
    ≡ codes "/opt/bin/ffprobe"
unfolding find_ffprobe
find_ffprobe_beside = refl

abbrev insert : ProgramInfo → List ProgramInfo → List ProgramInfo
insert p [] = p ∷ []
insert p (q ∷ programs) =
    let rest = insert p programs in if ltb_ℤ q.bitrate p.bitrate then q ∷ rest else p ∷ q ∷ programs

abbrev sort : List ProgramInfo → List ProgramInfo
sort [] = []
sort (p ∷ programs) = insert p (sort programs)

insert-Permᴰ :
    (p : ProgramInfo) (programs : List ProgramInfo) → Permᴰ (insert p programs) (p ∷ programs)
insert-Permᴰ p [] = Permᴰ.cons refl Permᴰ.nil
insert-Permᴰ p (q ∷ programs) = elim (Bool-cases (ltb_ℤ q.bitrate p.bitrate)) [
  | inl less ↦
      rw less (Permᴰ.trans (Permᴰ.cons refl (insert-Permᴰ p programs)) (Permᴰ.swap refl refl))
  | inr more ↦ rw more (Permᴰ.refl (p ∷ q ∷ programs))
]

sort-Permᴰ : (programs : List ProgramInfo) → Permᴰ (sort programs) programs
sort-Permᴰ [] = Permᴰ.nil
sort-Permᴰ (p ∷ programs) =
    Permᴰ.trans (insert-Permᴰ p (sort programs)) (Permᴰ.cons refl (sort-Permᴰ programs))

insert-Ascending :
    (p : ProgramInfo) (programs : List ProgramInfo)
    → Ascending programs
    → Ascending (insert p programs)
insert-Ascending p [] h = tt
insert-Ascending p (q ∷ []) h = ground arith
insert-Ascending p (q ∷ r ∷ programs) h = ground (arith, insert-Ascending p (r ∷ programs) h.1)

sort-Ascending : (programs : List ProgramInfo) → Ascending (sort programs)
sort-Ascending [] = tt
sort-Ascending (p ∷ programs) = insert-Ascending p (sort programs) (sort-Ascending programs)

abbrev best : Program
best = record { program_id = pos 0; variant_bitrate = codes "2500000" }

abbrev programs : List Program
programs =
    record { program_id = pos 1; variant_bitrate = codes "800000" }
    ∷ record { program_id = pos 2; variant_bitrate = codes "N/A" }
    ∷ []

probe_variants-Selects_example :
    Selects IsBest
      (best ∷ programs)
      (probe_variants sort (some (best ∷ programs)) (record config { variant = variant_highest }))
    × Selects IsLeast
        (best ∷ programs)
        (probe_variants sort (some (best ∷ programs)) (record config { variant = variant_lowest }))
probe_variants-Selects_example =
    probe_variants-Selects sort config best programs
      (record { rearranges = sort-Permᴰ; ascends = sort-Ascending })
      (omega arith, (omega arith, (omega arith, tt)))
