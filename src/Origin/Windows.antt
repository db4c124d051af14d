-- ===== src/Origin/Windows.antt =====
-- origin_scraper.go: the rolling windows of the network rates.
use go_ffmpeg_hls_swarm.Common.{
  ℕ, ◌≤◌, ◌≡◌, refl, ◌∙◌, ap, sym, inl, inr, ◌||◌, ◌*◌, pos, ltb_ℤ, sub_ℕ, ltb, Bool-cases, List,
  [], ◌∷◌, ◌++◌, length, arith,
}
use go_ffmpeg_hls_swarm.Origin.{
  NetworkSample, Window, second, recent, values, cleanup_network_window, add_rate,
}

module _ {R : Type 0} where
  recent-recent :
      (size now later : ℕ) (l : List (NetworkSample R))
      → now ≤ later
      → recent size later (recent size now l) ≡ recent size later l
  recent-recent size now later [] h = refl
  recent-recent size now later (s ∷ l) h = ground (arith, recent-recent size now later l h)

  recent-append :
      (size now : ℕ) (l m : List (NetworkSample R))
      → recent size now (l ++ m) ≡ recent size now l ++ recent size now m
  recent-append size now [] m = refl
  recent-append size now (s ∷ l) m = ground (arith, recent-append size now l m)

  length-recent :
      (size now : ℕ) (l : List (NetworkSample R)) → length (recent size now l) ≤ length l
  length-recent size now [] = omega arith
  length-recent size now (s ∷ l) = ground (arith, length-recent size now l)

  recent-all :
      (size now : ℕ) (l : List (NetworkSample R))
      → length l ≤ length (recent size now l)
      → recent size now l ≡ l
  recent-all size now [] h = refl
  recent-all size now (s ∷ l) h = ground (arith, recent-all size now l, length-recent size now l)

  values-append :
      (l : List (NetworkSample R)) (s : NetworkSample R)
      → values (l ++ s ∷ []) ≡ values l ++ s.value ∷ []
  values-append [] s = refl
  values-append (x ∷ l) s = ap (λ m. x.value ∷ m) (values-append l s)

  -- The digest has the values of the samples, and the samples are those of the rates that are recent
  -- now, and will be later on.
  pub record Tracks (size now : ℕ) (rates : List (NetworkSample R)) (w : Window R) : Type 0 where
    pub summed : w.digest ≡ values w.samples
    pub kept : (later : ℕ) → now ≤ later → recent size later w.samples ≡ recent size later rates

  pub cleanup-samples :
      (size now : ℕ) (w : Window R)
      → w.digest ≡ values w.samples
      → cleanup_network_window size now w ≡ record {
        samples = recent size now w.samples;
        digest = values (recent size now w.samples);
      }
  unfolding cleanup_network_window
  cleanup-samples size now w h =
      elim (Bool-cases (ltb (length (recent size now w.samples)) (length w.samples))) [
        | inl fewer ↦ rw fewer refl
        | inr same ↦
            let all_kept = recent-all size now w.samples (ground arith) in
            ground (arith, all_kept, ap values all_kept)
      ]

  pub cleanup-Tracks :
      (size before now : ℕ) (rates : List (NetworkSample R)) (w : Window R)
      → before ≤ now
      → Tracks size before rates w
      → Tracks size now rates (cleanup_network_window size now w)
  cleanup-Tracks size before now rates w h t = rw (cleanup-samples size now w t.summed) (record {
    summed = refl;
    kept = λ later k. recent-recent size now later w.samples k ∙ t.kept later (omega arith);
  })

  pub add_rate-Tracks :
      (size last_clean before now : ℕ) (rate : R) (rates : List (NetworkSample R)) (w : Window R)
      → before ≤ now
      → Tracks size before rates w
      → Tracks size now
          (rates ++ record { value = rate; time = now } ∷ [])
          (add_rate size last_clean now rate w)
  unfolding add_rate
  add_rate-Tracks size last_clean before now rate rates w h t =
      let s : NetworkSample R = record { value = rate; time = now } in
      let grown : Window R = record {
        samples = w.samples ++ s ∷ [];
        digest = w.digest ++ rate ∷ [];
      } in
      let tracks : Tracks size now (rates ++ s ∷ []) grown = record {
        summed = ap (λ d. d ++ rate ∷ []) t.summed ∙ sym (values-append w.samples s);
        kept = λ later k.
            recent-append size later w.samples (s ∷ [])
            ∙ ap (λ l. l ++ recent size later (s ∷ [])) (t.kept later (omega arith))
            ∙ sym (recent-append size later rates (s ∷ []));
      } in
      elim (Bool-cases
        (ltb 20 (length grown.samples) || ltb_ℤ (pos (10 * second)) (sub_ℕ now last_clean))) [
          | inl old ↦
              rw old (cleanup-Tracks size now now (rates ++ s ∷ []) grown (omega arith) tracks)
          | inr young ↦ rw young tracks
        ]
