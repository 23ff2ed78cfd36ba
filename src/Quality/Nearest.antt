-- ===== src/Quality/Nearest.antt =====
-- GetBestMatch returns the resolution whose expected bit rate is the nearest.
use rpi_webrtc_streamer.Base.{
  ℕ, suc, ◌≤◌, ◌<◌, ◌≡◌, refl, sym, ap, subst, ◌∙◌, ◌⊎◌, inl, inr, Bool, true, false, not, Option,
  some, List, [], ◌∷◌, arith, ltb, if◌then◌else◌, ltb→lt, Bool-cases, ltb_false→le, length,
  get_elem?, All,
}
use rpi_webrtc_streamer.Quality.{
  ResolutionConfigEntry, MotionFactor, VideoEncodingParams, QualityConfig, int_max, no_params,
  is_same_resolution, choose_motion_factor, expected_diff, best_candidate, get_best_match,
}

-- The entry that a resolution stands for is one of the list, and none is nearer to the bit rate.
pub record IsNearest (diff_of : ResolutionConfigEntry → ℕ) (es : List ResolutionConfigEntry)
    (p : VideoEncodingParams) : Type 0 where
  pub entry : ResolutionConfigEntry
  pub place : ℕ
  pub listed : get_elem? es place ≡ some entry
  pub same_width : p.width ≡ entry.width
  pub same_height : p.height ≡ entry.height
  pub nearest : All (λ e. diff_of entry ≤ diff_of e) es

module _ (kush_gauge : ℕ → ℕ → ℕ → MotionFactor → ℕ) (mf : MotionFactor) (q : QualityConfig) where
  abbrev diff_of : ResolutionConfigEntry → ℕ
  diff_of = expected_diff kush_gauge mf q.target_bitrate

  abbrev params : ResolutionConfigEntry → VideoEncodingParams
  params e = record {
    width = e.width;
    height = e.height;
    framerate = q.target_framerate;
    bitrate = q.target_bitrate;
  }

  -- The loop from a candidate on: the candidate stays if no entry is nearer, else the first of the
  -- nearest entries is returned.
  abbrev Best : List ResolutionConfigEntry → VideoEncodingParams → ℕ → VideoEncodingParams → Type 0
  Best es candidate d r =
      (r ≡ candidate) × All (λ e. d ≤ diff_of e) es
      ⊎ (e : ResolutionConfigEntry) × (i : ℕ) × (get_elem? es i ≡ some e)
        × (r ≡ params e)
        × (diff_of e < d)
        × All (λ e'. diff_of e ≤ diff_of e') es

  first-Best :
      (e : ResolutionConfigEntry) (es : List ResolutionConfigEntry)
      (candidate r : VideoEncodingParams) (d : ℕ) (closer : Bool)
      → ltb (diff_of e) d ≡ closer
      → Best es (if closer then params e else candidate) (if closer then diff_of e else d) r
      → Best (e ∷ es) candidate d r
  first-Best e es candidate r d true c (inl (same, all)) =
      inr (e, 0, refl, same, ltb→lt _ _ c, (omega arith, all))
  first-Best e es candidate r d true c (inr (e', i, at, same, lt, all)) =
      let first : diff_of e < d = ltb→lt _ _ c in
      inr (e', suc i, at, same, omega arith, (omega arith, all))
  first-Best e es candidate r d false c (inl (same, all)) = inl (same, (ltb_false→le _ _ c, all))
  first-Best e es candidate r d false c (inr (e', i, at, same, lt, all)) =
      let first : d ≤ diff_of e = ltb_false→le _ _ c in
      inr (e', suc i, at, same, lt, (omega arith, all))

  best_candidate-Best :
      (es : List ResolutionConfigEntry) (candidate : VideoEncodingParams) (d : ℕ)
      → Best es candidate d (best_candidate kush_gauge mf q es candidate d)
  unfolding best_candidate
  best_candidate-Best [] candidate d = inl (refl, tt)
  best_candidate-Best (e ∷ es) candidate d =
      first-Best e es candidate _ d (ltb (diff_of e) d) refl (best_candidate-Best es _ _)

  -- A list with an entry that is near enough has a best one.
  candidate-IsNearest :
      (es : List ResolutionConfigEntry) (r : VideoEncodingParams)
      → 0 < length es
      → All (λ e. diff_of e < int_max) es
      → Best es no_params int_max r
      → IsNearest diff_of es r
  candidate-IsNearest [] r some_entry near best = absurd (omega arith)
  candidate-IsNearest (e ∷ es) r some_entry near (inl (_, far)) =
      let close : diff_of e < int_max = near.0 in
      let not_close : int_max ≤ diff_of e = far.0 in absurd (omega arith)
  candidate-IsNearest (e ∷ es) r some_entry near (inr (e', i, at, same, _, all)) = record {
    entry = e';
    place = i;
    listed = at;
    same_width = ap (λ (p : VideoEncodingParams). p.width) same;
    same_height = ap (λ (p : VideoEncodingParams). p.height) same;
    nearest = all;
  }

same_resolution-IsNearest :
    (diff_of : ResolutionConfigEntry → ℕ) (es : List ResolutionConfigEntry)
    (p r : VideoEncodingParams)
    → is_same_resolution p r ≡ true
    → IsNearest diff_of es r
    → IsNearest diff_of es p
same_resolution-IsNearest diff_of es p r same v =
    let (width, height) : (p.width ≡ r.width) × (p.height ≡ r.height) =
      (ground arith, ground arith) in
    record {
      entry = v.entry;
      place = v.place;
      listed = v.listed;
      same_width = width ∙ v.same_width;
      same_height = height ∙ v.same_height;
      nearest = v.nearest;
    }

-- With dynamic resolutions, at least one entry, and distances below the maximal int, GetBestMatch
-- returns a resolution of the list, and none of the list has an expected bit rate that is nearer to
-- the target; the result becomes the current resolution.
pub get_best_match-IsNearest :
    (kush_gauge : ℕ → ℕ → ℕ → MotionFactor → ℕ) (average : List ℕ → Option ℕ) (target_bitrate : ℕ)
    (q : QualityConfig)
    → q.use_dynamic_resolution ≡ true
    → 0 < length q.resolution_config
    → All
        (λ e.
          expected_diff kush_gauge (choose_motion_factor (average q.samples)) target_bitrate e
          < int_max)
        q.resolution_config
    → IsNearest
        (expected_diff kush_gauge (choose_motion_factor (average q.samples)) target_bitrate)
        q.resolution_config
        (get_best_match kush_gauge average target_bitrate q).0
      × ((get_best_match kush_gauge average target_bitrate q).1.current_res
          ≡ (get_best_match kush_gauge average target_bitrate q).0)
unfolding get_best_match
get_best_match-IsNearest kush_gauge average target_bitrate q dynamic some_entry near =
    let mf = choose_motion_factor (average q.samples) in
    let q₁ : QualityConfig = record q { target_bitrate = target_bitrate } in
    let candidate = best_candidate kush_gauge mf q₁ q.resolution_config no_params int_max in
    let v =
      candidate-IsNearest kush_gauge mf q₁ q.resolution_config candidate some_entry near
        (best_candidate-Best kush_gauge mf q₁ q.resolution_config no_params int_max) in
    let P : VideoEncodingParams × QualityConfig → Type 0 = λ r.
      IsNearest (expected_diff kush_gauge mf target_bitrate) q.resolution_config r.0
      × (r.1.current_res ≡ r.0) in
    let best : Bool → Bool → VideoEncodingParams × QualityConfig = λ fixed same.
      if fixed
      then (q.current_res, q)
      else (if same
          then (q.current_res, q₁)
          else (candidate, record q₁ { current_res = candidate })) in
    subst (λ d. P (best (not d) (is_same_resolution q.current_res candidate))) (sym dynamic)
      (elim (Bool-cases (is_same_resolution q.current_res candidate)) [
        | inl same ↦
            subst (λ b. P (best false b)) (sym same)
              (same_resolution-IsNearest _ q.resolution_config q.current_res candidate same v, refl)
        | inr other ↦ subst (λ b. P (best false b)) (sym other) (v, refl)
      ])
