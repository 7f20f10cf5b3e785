-- ===== src/Ml/Calibration.antt =====
-- src/honeypot_ai/ml.py, `_select_calibration_threshold`: the threshold that a holdout gives.
use nsf_research_open_siem.Base.{
  pos, String, Bool, false, ltb, List, [], ◌∷◌, Option, none, some, ◌==◌, nat_eq, string_eq,
  if◌then◌else◌,
}
use nsf_research_open_siem.Base.Lists.{filter, any_of, greatest}
use nsf_research_open_siem.Base.Text.{is_some}
use nsf_research_open_siem.Base.Result.{Result, ok, raise}
use nsf_research_open_siem.Runtime.{Runtime}
use nsf_research_open_siem.Endpoint.Windows.{EndpointWindow}
use nsf_research_open_siem.Ml.Numerics.{Scored, Numerics}
use nsf_research_open_siem.Ml.Names.{MlError, value_error}
use nsf_research_open_siem.Ml.Candidates.{Candidate, threshold_candidates}
use nsf_research_open_siem.Ml.Metrics.{BestF1, best_f1_metrics}

-- What the choice rests on: the rest of the returned dict.
pub data Basis (Float : Type 0) : Type 0 where
  fell_back : String → Basis Float
  by_f1 : BestF1 Float → Basis Float
  by_candidate : Candidate Float → Basis Float

pub record Selection (Float : Type 0) : Type 0 where
  pub objective : String
  pub selected_threshold : Float
  pub threshold_source : String
  pub fallback_threshold : Float
  pub basis : Basis Float

module _ (py : Runtime) (np : Numerics py) where
  open py use {Float, float_le, of_int}
  open np use {float_lt, float_eq, float_neg}

  -- `_metric_or_zero`
  unfoldable pub metric_or_zero : Option Float → Float
  metric_or_zero none = of_int (pos 0)
  metric_or_zero (some x) = x

  -- Tuples of floats in their order, with what decides when all are equal.
  unfoldable pub lexicographic : List (Float × Float) → Bool → Bool
  lexicographic [] last = last
  lexicographic ((x, y) ∷ ps) last = if float_eq x y then lexicographic ps last else float_lt x y

  abbrev both : (Candidate Float → Option Float) → Candidate Float → Candidate Float → Float × Float
  both f a b = (metric_or_zero (f a), metric_or_zero (f b))

  abbrev both_negated :
      (Candidate Float → Option Float) → Candidate Float → Candidate Float → Float × Float
  both_negated f a b = (float_neg (metric_or_zero (f a)), float_neg (metric_or_zero (f b)))

  -- What decides between candidates of the same recall.
  abbrev pub fpr_ties : Candidate Float → Candidate Float → List (Float × Float)
  fpr_ties a b =
      both (λ c. c.f1_at_threshold) a b
      ∷ both (λ c. c.precision_at_threshold) a b
      ∷ both_negated (λ c. c.false_positive_rate) a b
      ∷ []

  unfoldable pub fpr_less : Candidate Float → Candidate Float → Bool
  unfolding lexicographic metric_or_zero
  fpr_less a b =
      lexicographic (both (λ c. c.recall_at_threshold) a b ∷ fpr_ties a b) (ltb a.alerts b.alerts)

  unfoldable pub budget_less : Candidate Float → Candidate Float → Bool
  unfolding lexicographic metric_or_zero nat_eq
  budget_less a b = lexicographic (both (λ c. c.recall_at_threshold) a b ∷ []) (
      if a.alerts == b.alerts
      then lexicographic
          (both (λ c. c.f1_at_threshold) a b ∷ both (λ c. c.precision_at_threshold) a b ∷ []) false
      else ltb a.alerts b.alerts)

  -- `value is not None and value <= bound`
  abbrev pub within : Float → Option Float → Bool
  within bound none = false
  within bound (some x) = float_le x bound

  module _ (fallback_threshold : Float) (objective : String) where
    unfoldable pub fallback_threshold_selection : String → Selection Float
    fallback_threshold_selection reason = record {
      objective = objective;
      selected_threshold = fallback_threshold;
      threshold_source = "training_quantile";
      fallback_threshold = fallback_threshold;
      basis = fell_back reason;
    }

    abbrev select_best_f1 : Option (BestF1 Float) → Selection Float
    select_best_f1 none =
        fallback_threshold_selection "calibration best-F1 threshold was unavailable"
    select_best_f1 (some best) = record {
      objective = objective;
      selected_threshold = best.best_f1_threshold;
      threshold_source = "calibration_best_f1";
      fallback_threshold = fallback_threshold;
      basis = by_f1 best;
    }

    abbrev pub selected_candidate : String → Candidate Float → Selection Float
    selected_candidate source c = record {
      objective = objective;
      selected_threshold = c.threshold;
      threshold_source = source;
      fallback_threshold = fallback_threshold;
      basis = by_candidate c;
    }

    -- `max(valid, key=…)`, unless nothing is valid
    abbrev pub select_greatest :
        (Candidate Float → Candidate Float → Bool)
        → String
        → String
        → List (Candidate Float)
        → Selection Float
    select_greatest less source reason [] = fallback_threshold_selection reason
    select_greatest less source reason (c ∷ cs) = selected_candidate source (greatest less c cs)

    unfoldable pub select_target_fpr : Float → Bool → List (Candidate Float) → Selection Float
    unfolding fallback_threshold_selection filter any_of greatest fpr_less
    select_target_fpr target binary candidates =
        if binary
        then if any_of (λ c. is_some c.false_positive_rate) candidates
          then select_greatest fpr_less "calibration_target_fpr"
              "no threshold satisfied the target false-positive rate"
              (filter (λ c. within target c.false_positive_rate) candidates)
          else fallback_threshold_selection "target-fpr requires benign calibration windows"
        else fallback_threshold_selection "target-fpr requires binary calibration labels"

    unfoldable pub select_target_alerts : Float → List (Candidate Float) → Selection Float
    unfolding fallback_threshold_selection filter greatest budget_less
    select_target_alerts target candidates =
        select_greatest budget_less "calibration_target_alerts_per_day"
          "calibration duration did not support an alerts/day budget"
          (filter (λ c. within target c.alerts_per_day) candidates)

    unfoldable pub select_calibration_threshold :
        List (Scored Float)
        → List (EndpointWindow Float)
        → Float
        → Float
        → Bool
        → Result MlError (Selection Float)
    unfolding string_eq threshold_candidates best_f1_metrics fallback_threshold_selection
        select_target_fpr select_target_alerts
    select_calibration_threshold scored windows target_fpr target_alerts binary =
        if objective == "best-f1"
        then ok (
            if binary
            then select_best_f1 (best_f1_metrics py np scored)
            else fallback_threshold_selection "calibration labels were not binary")
        else if objective == "target-fpr"
        then ok (select_target_fpr target_fpr binary (threshold_candidates py np scored windows))
        else if objective == "target-alerts-per-day"
        then ok (select_target_alerts target_alerts (threshold_candidates py np scored windows))
        else raise (value_error objective)
