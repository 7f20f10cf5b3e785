-- ===== src/Ml/Candidates.antt =====
-- src/honeypot_ai/ml.py, `_threshold_candidates`: each score as a threshold, with what it gives.
use nsf_research_open_siem.Base.{
  ℕ, zero, suc, ◌+◌, ℤ, pos, sub_ℕ, pos_part, neg_part, Bool, List, [], ◌∷◌, Option, none, some,
  ◌==◌, nat_eq, ltb_ℤ, if◌then◌else◌, map,
}
use nsf_research_open_siem.Base.Dict.{length}
use nsf_research_open_siem.Base.Lists.{count}
use nsf_research_open_siem.Runtime.{Runtime}
use nsf_research_open_siem.Endpoint.Windows.{EndpointWindow}
use nsf_research_open_siem.Ml.Numerics.{Scored, Numerics}

pub record Candidate (Float : Type 0) : Type 0 where
  pub threshold : Float
  pub alerts : ℕ
  pub alerts_per_day : Option Float
  pub true_positives : ℕ
  pub false_positives : ℕ
  pub true_negatives : ℤ
  pub false_negatives : ℤ
  pub false_positive_rate : Option Float
  pub true_positive_rate : Option Float
  pub precision_at_threshold : Option Float
  pub recall_at_threshold : Option Float
  pub f1_at_threshold : Option Float

-- The labels that `group_labels == 1` and `group_labels == 0` select.
abbrev pub is_malicious : {A : Type 0} → Scored A → Bool
is_malicious x = x.1 == 1

abbrev pub is_benign : {A : Type 0} → Scored A → Bool
is_benign x = x.1 == 0

abbrev earliest : {A : Type 0} → ℤ → List (EndpointWindow A) → ℤ
earliest t [] = t
earliest t (w ∷ ws) = earliest (if ltb_ℤ w.window_start t then w.window_start else t) ws

abbrev latest : {A : Type 0} → ℤ → List (EndpointWindow A) → ℤ
latest t [] = t
latest t (w ∷ ws) = latest (if ltb_ℤ t w.window_end then w.window_end else t) ws

abbrev minus : ℤ → ℤ → ℤ
minus a b = sub_ℕ (pos_part a + neg_part b) (neg_part a + pos_part b)

module _ (py : Runtime) (np : Numerics py) where
  open py use {Float, of_int, float_le, float_add, float_mul, float_div}
  open np use {float_lt, float_eq, ratio, next_up, np_max, descending}

  unfoldable pub safe_div : ℕ → ℕ → Option Float
  safe_div n zero = none
  safe_div n (suc d) = some (ratio (pos n) (pos (suc d)))

  -- The times are whole seconds.
  unfoldable pub duration_days : List (EndpointWindow Float) → Option Float
  duration_days [] = none
  duration_days (w ∷ ws) =
      let seconds = of_int (minus (latest w.window_end ws) (earliest w.window_start ws)) in
      if float_le seconds (of_int (pos 0))
      then none
      else some (float_div seconds (of_int (pos 86_400)))

  abbrev per_day : ℕ → Option Float → Option Float
  per_day alerts none = none
  per_day alerts (some days) = some (float_div (of_int (pos alerts)) days)

  unfoldable pub alerts_per_day : ℕ → List (EndpointWindow Float) → Option Float
  unfolding duration_days
  alerts_per_day alerts windows = per_day alerts (duration_days windows)

  -- The harmonic mean, unless both are zero.
  unfoldable pub f1_of : Option Float → Option Float → Option Float
  f1_of (some p) (some r) =
      if float_lt (of_int (pos 0)) (float_add p r)
      then some (float_div (float_mul (float_mul (of_int (pos 2)) p) r) (float_add p r))
      else none
  f1_of p r = none

  -- `sorted_scores[index:end]` behind its first element, and `sorted_scores[end:]`
  unfoldable pub ties : Float → List (Scored Float) → List (Scored Float)
  ties s [] = []
  ties s (x ∷ xs) = if float_eq x.0 s then x ∷ ties s xs else []

  unfoldable pub after_ties : Float → List (Scored Float) → List (Scored Float)
  after_ties s [] = []
  after_ties s (x ∷ xs) = if float_eq x.0 s then after_ties s xs else x ∷ xs

  module _ (positive_total negative_total : ℕ) (days : Option Float) where
    unfoldable pub candidate_record : Float → ℕ → ℕ → ℕ → Candidate Float
    unfolding safe_div f1_of
    candidate_record threshold alerts true_positives false_positives =
        let precision = safe_div true_positives alerts in
        let recall = safe_div true_positives positive_total in
        record {
          threshold = threshold;
          alerts = alerts;
          alerts_per_day = per_day alerts days;
          true_positives = true_positives;
          false_positives = false_positives;
          true_negatives = sub_ℕ negative_total false_positives;
          false_negatives = sub_ℕ positive_total true_positives;
          false_positive_rate = safe_div false_positives negative_total;
          true_positive_rate = recall;
          precision_at_threshold = precision;
          recall_at_threshold = recall;
          f1_at_threshold = f1_of precision recall;
        }

    -- `while index < len(sorted_scores)`, on what stands from the index on. Each turn takes at least
    -- one element.
    unfoldable pub candidate_loop : ℕ → ℕ → ℕ → ℕ → List (Scored Float) → List (Candidate Float)
    unfolding nat_eq
    candidate_loop zero alerts tp fp xs = []
    candidate_loop (suc fuel) alerts tp fp [] = []
    candidate_loop (suc fuel) alerts tp fp (x ∷ xs) =
        let group = x ∷ ties x.0 xs in
        let alerts' = alerts + length group in
        let tp' = tp + count is_malicious group in
        let fp' = fp + count is_benign group in
        candidate_record x.0 alerts' tp' fp'
        ∷ candidate_loop fuel alerts' tp' fp' (after_ties x.0 xs)

  unfoldable pub threshold_candidates :
      List (Scored Float) → List (EndpointWindow Float) → List (Candidate Float)
  unfolding nat_eq duration_days
  threshold_candidates [] windows = []
  threshold_candidates (x ∷ xs) windows =
      let scored = x ∷ xs in
      let positives = count is_malicious scored in
      let negatives = count is_benign scored in
      let days = duration_days windows in
      let over = next_up (np_max (map (λ y. y.0) scored)) in
      candidate_record positives negatives days over 0 0 0
      ∷ candidate_loop positives negatives days (length scored) 0 0 0 (descending scored)
