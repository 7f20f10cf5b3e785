-- ===== src/Detectors/Anomaly.antt =====
-- src/honeypot_ai/detectors.py, `_robust_anomaly_scores`, and `numeric_vector` of
-- src/honeypot_ai/features.py.
use nsf_research_open_siem.Base.{
  ℕ, zero, suc, ◌-◌, ◌/◌, ◌%◌, pos, ltb, String, Bool, not, ◌&&◌, List, [], ◌∷◌, map, string_eq,
  if◌then◌else◌,
}
use nsf_research_open_siem.Base.Dict.{Dict, length, insert}
use nsf_research_open_siem.Base.Sort.{sorted}
use nsf_research_open_siem.Models.{SessionFeatures}
use nsf_research_open_siem.Runtime.{Runtime}

module _ (py : Runtime) where
  open py use {
    Float, float_add, float_sub, float_mul, float_div, float_abs, float_min, float_le, of_int,
    z_scale,
  }

  unfoldable pub numeric_vector : SessionFeatures Float → List Float
  numeric_vector f =
      of_int (pos f.total_events)
      ∷ of_int (pos f.login_failures)
      ∷ of_int (pos f.login_successes)
      ∷ of_int (pos f.commands)
      ∷ of_int (pos f.download_commands)
      ∷ of_int (pos f.reverse_shells)
      ∷ of_int (pos f.persistence_attempts)
      ∷ of_int (pos f.scanner_commands)
      ∷ of_int (pos f.suricata_alerts)
      ∷ of_int (pos f.network_connections)
      ∷ of_int f.bytes_out
      ∷ of_int f.bytes_in
      ∷ f.duration_seconds
      ∷ of_int (pos (length f.usernames))
      ∷ of_int (pos (length f.passwords))
      ∷ []

  element : ℕ → List Float → Float
  element i [] = of_int (pos 0)
  element zero (x ∷ xs) = x
  element (suc i) (x ∷ xs) = element i xs

  -- `statistics.median` of a column, which is never empty
  unfoldable pub median : List Float → Float
  unfolding sorted element
  median xs =
      let s = sorted float_le xs in
      let n = length xs in
      if ltb 0 (n % 2)
      then element (n / 2) s
      else float_div (float_add (element (n / 2 - 1) s) (element (n / 2) s)) (of_int (pos 2))

  unfoldable pub mad : List Float → Float → Float
  mad values med = median (map (λ v. float_abs (float_sub v med)) values)

  zip_cons : List Float → List (List Float) → List (List Float)
  zip_cons (x ∷ xs) (c ∷ cs) = (x ∷ c) ∷ zip_cons xs cs
  zip_cons _ _ = []

  -- `zip(*vectors)`
  unfoldable pub columns : List (List Float) → List (List Float)
  unfolding zip_cons
  columns [] = []
  columns (v ∷ []) = map (λ x. x ∷ []) v
  columns (v ∷ w ∷ vs) = zip_cons v (columns (w ∷ vs))

  abbrev is_zero : Float → Bool
  is_zero x = float_le x (of_int (pos 0)) && float_le (of_int (pos 0)) x

  -- One round of the inner loop: what is added to `total`, if anything.
  unfoldable pub add_deviation : Float → Float → Float → Float → Float
  add_deviation value med spread total =
      let robust_z = float_div (float_mul z_scale (float_sub value med)) spread in
      if is_zero spread
      then if not (float_le value med)
        then float_add total (float_min (float_sub value med) (of_int (pos 10)))
        else total
      else if not (float_le robust_z (of_int (pos 0)))
      then float_add total (float_min robust_z (of_int (pos 10)))
      else total

  unfoldable pub deviation : List Float → List Float → List Float → Float → Float
  unfolding add_deviation
  deviation (v ∷ vs) (m ∷ ms) (s ∷ ss) total = deviation vs ms ss (add_deviation v m s total)
  deviation _ _ _ total = total

  zero_scores : List (SessionFeatures Float) → Dict String Float → Dict String Float
  zero_scores [] d = d
  zero_scores (f ∷ fs) d = zero_scores fs (insert f.key (of_int (pos 0)) d)

  score_loop :
      List Float → List Float → List (SessionFeatures Float) → Dict String Float → Dict String Float
  score_loop ms ss [] d = d
  score_loop ms ss (f ∷ fs) d =
      score_loop ms ss fs (insert f.key (deviation (numeric_vector f) ms ss (of_int (pos 0))) d)

  unfoldable pub robust_anomaly_scores : List (SessionFeatures Float) → Dict String Float
  unfolding zero_scores score_loop numeric_vector
  robust_anomaly_scores fs =
      let cs = columns (map numeric_vector fs) in
      let ms = map median cs in
      let ss = map (λ c. mad c (median c)) cs in
      if ltb (length fs) 3 then zero_scores fs [] else score_loop ms ss fs []
