-- ===== src/Ml/Tune.antt =====
-- src/honeypot_ai/ml.py, `tune_temporal_split`. Constants and dates of the report are left out.
use nsf_research_open_siem.Base.{
  ℕ, ℤ, pos, String, Bool, true, false, not, ◌&&◌, ltb, leb, List, [], ◌∷◌, Option, none, some,
  string_eq, if◌then◌else◌,
}
use nsf_research_open_siem.Base.Dict.{Dict, length}
use nsf_research_open_siem.Base.Result.{Result, ok, raise, ◌>>=◌}
use nsf_research_open_siem.Runtime.{Runtime}
use nsf_research_open_siem.Endpoint.State.{feature_names}
use nsf_research_open_siem.Endpoint.Windows.{EndpointWindow}
use nsf_research_open_siem.Ml.Numerics.{Numerics}
use nsf_research_open_siem.Ml.Names.{
  MlError, value_error, scorer_river, scorer_isolation_raw, scorer_isolation_log1p,
  normalize_threshold_objective,
}
use nsf_research_open_siem.Ml.Scorers.{Learners, high_threshold}
use nsf_research_open_siem.Ml.Metrics.{
  Evaluation, labelled, label_counts, evaluation_metrics, best_evaluation_scorers,
}
use nsf_research_open_siem.Ml.Calibration.{Selection, select_calibration_threshold}
use nsf_research_open_siem.Ml.Split.{fit_windows, ordered_windows, excluded_windows, split_three}
use nsf_research_open_siem.Ml.Fit.{
  has_binary_labels, river_model, river_scores, isolation_model, isolation_scores,
}
use nsf_research_open_siem.Ml.Evaluate.{in_open_unit, in_unit}

-- The entries of one scorer; the targets stand in the report.
pub record TunedScorer (Float : Type 0) : Type 0 where
  pub selected_threshold : Float
  pub threshold_source : String
  pub training_quantile_threshold : Float
  pub high_threshold : Float
  pub calibration_selection : Selection Float
  pub calibration : Evaluation Float
  pub test : Evaluation Float

pub record TuningReport (Float : Type 0) : Type 0 where
  pub threshold_objective : String
  pub input_rows : ℕ
  pub evaluated_rows : ℕ
  pub excluded_rows : ℕ
  pub train_rows : ℕ
  pub fit_rows : ℕ
  pub calibration_rows : ℕ
  pub test_rows : ℕ
  pub train_labels : Dict String ℕ
  pub fit_labels : Dict String ℕ
  pub calibration_labels : Dict String ℕ
  pub test_labels : Dict String ℕ
  pub scorers : Dict String (Option (TunedScorer Float))
  pub best_scorers : Dict String (Option String)

pub record TuningOptions (Float : Type 0) : Type 0 where
  pub train_fraction : Float
  pub calibration_fraction : Float
  pub threshold_quantile : Float
  pub threshold_objective : String
  pub target_fpr : Float
  pub target_alerts_per_day : Float
  pub seed : ℤ

pub data Phase : Type 0 where
  calibration_phase : Phase
  test_phase : Phase

module _ (py : Runtime) (np : Numerics py) where
  open py use {Float, float_le, float_add, of_int}
  open np use {quantile}

  abbrev phase_metrics : Phase → Option (TunedScorer Float) → Option (Evaluation Float)
  phase_metrics p none = none
  phase_metrics calibration_phase (some t) = some t.calibration
  phase_metrics test_phase (some t) = some t.test

  abbrev in_phase :
      Phase → Dict String (Option (TunedScorer Float)) → Dict String (Option (Evaluation Float))
  in_phase p [] = []
  in_phase p ((name, t) ∷ d) = (name, phase_metrics p t) ∷ in_phase p d

  unfoldable pub best_tuned_scorers :
      Dict String (Option (TunedScorer Float)) → Phase → Dict String (Option String)
  unfolding best_evaluation_scorers
  best_tuned_scorers d p = best_evaluation_scorers py np (in_phase p d)

  module _ (o : TuningOptions Float) (objective : String)
      (calibration test : List (EndpointWindow Float)) where
    -- From the scores of the fitted, the calibration and the test windows.
    unfoldable pub tuned_scorer_metrics :
        List Float → List Float → List Float → Result MlError (TunedScorer Float)
    unfolding select_calibration_threshold high_threshold evaluation_metrics has_binary_labels
        labelled
    tuned_scorer_metrics train_scores calibration_scores test_scores = do
      let fallback = quantile train_scores o.threshold_quantile
      choice ←
          select_calibration_threshold py np fallback objective
            (labelled calibration_scores calibration) calibration o.target_fpr
            o.target_alerts_per_day (has_binary_labels calibration)
      let threshold = choice.selected_threshold
      let high = high_threshold py np train_scores threshold
      ok (record {
        selected_threshold = threshold;
        threshold_source = choice.threshold_source;
        training_quantile_threshold = fallback;
        high_threshold = high;
        calibration_selection = choice;
        calibration =
            evaluation_metrics py np (labelled calibration_scores calibration) calibration threshold
              high (has_binary_labels calibration);
        test =
            evaluation_metrics py np (labelled test_scores test) test threshold high
              (has_binary_labels test);
      })

  -- The checks of the arguments, in their order.
  unfoldable pub tuning_error : TuningOptions Float → ℕ → Option String
  unfolding in_open_unit in_unit
  tuning_error o n =
      if ltb n 3
      then some "cannot tune fewer than three endpoint windows"
      else if not (in_open_unit py np o.train_fraction)
      then some "train_fraction must be in the range (0, 1)"
      else if not (in_open_unit py np o.calibration_fraction)
      then some "calibration_fraction must be in the range (0, 1)"
      else if float_le (of_int (pos 1)) (float_add o.train_fraction o.calibration_fraction)
      then some "train_fraction plus calibration_fraction must be less than 1"
      else if not (in_unit py np o.threshold_quantile)
      then some "threshold_quantile must be in the range (0, 1]"
      else if not (float_le (of_int (pos 0)) o.target_fpr && float_le o.target_fpr (of_int (pos 1)))
      then some "target_fpr must be in the range [0, 1]"
      else if float_le o.target_alerts_per_day (of_int (pos 0))
      then some "target_alerts_per_day must be greater than 0"
      else none

module _ (py : Runtime) (np : Numerics py) (lib : Learners py) where
  open py use {Float}

  module _ (o : TuningOptions Float) (objective : String)
      (rows calibration test : List (EndpointWindow Float)) where
    unfoldable pub tune_river : Result MlError (TunedScorer Float)
    unfolding river_model river_scores tuned_scorer_metrics
    tune_river =
        let r = river_model py np lib feature_names o.seed rows in
        tuned_scorer_metrics py np o objective calibration test
          (river_scores py np lib feature_names r rows)
          (river_scores py np lib feature_names r calibration)
          (river_scores py np lib feature_names r test)

    unfoldable pub tune_isolation : Bool → Result MlError (TunedScorer Float)
    unfolding isolation_model isolation_scores tuned_scorer_metrics
    tune_isolation log1p =
        let f = isolation_model py np lib feature_names log1p o.seed rows in
        tuned_scorer_metrics py np o objective calibration test
          (isolation_scores py np lib feature_names f rows)
          (isolation_scores py np lib feature_names f calibration)
          (isolation_scores py np lib feature_names f test)

    abbrev tune_isolations : Result MlError (Dict String (Option (TunedScorer Float)))
    tune_isolations = do
      raw ← tune_isolation false
      log ← tune_isolation true
      ok ((scorer_isolation_raw, some raw) ∷ (scorer_isolation_log1p, some log) ∷ [])

    unfoldable pub tune_scorers : Result MlError (Dict String (Option (TunedScorer Float)))
    unfolding tune_river tune_isolation
    tune_scorers = do
      r ← tune_river
      more ←
          if leb 2 (length rows)
          then tune_isolations
          else ok ((scorer_isolation_raw, none) ∷ (scorer_isolation_log1p, none) ∷ [])
      ok ((scorer_river, some r) ∷ more)

  module _ (year : ℤ → ℕ) (min_year : Option ℕ) where
    abbrev tuned :
        TuningOptions Float
        → String
        → ℕ
        → ℕ
        → List (EndpointWindow Float)
        → List (EndpointWindow Float)
        → Result MlError (TuningReport Float)
    tuned o objective share both raw ordered = do
      let parts = split_three share both ordered
      let rows = fit_windows (parts.0)
      scorers ← tune_scorers o objective rows (parts.1) (parts.2)
      ok (record {
        threshold_objective = objective;
        input_rows = length raw;
        evaluated_rows = length ordered;
        excluded_rows = length (excluded_windows year min_year raw);
        train_rows = length (parts.0);
        fit_rows = length rows;
        calibration_rows = length (parts.1);
        test_rows = length (parts.2);
        train_labels = label_counts (parts.0);
        fit_labels = label_counts rows;
        calibration_labels = label_counts (parts.1);
        test_labels = label_counts (parts.2);
        scorers = scorers;
        best_scorers = best_tuned_scorers py np scorers test_phase;
      })

    abbrev unless_error :
        Option String → Result MlError (TuningReport Float) → Result MlError (TuningReport Float)
    unless_error (some e) r = raise (value_error e)
    unless_error none r = r

    -- `share n` is `int(n * train_fraction)`, and `both n` the same of the two fractions together.
    unfoldable pub tune_temporal_split :
        List (EndpointWindow Float)
        → TuningOptions Float
        → (ℕ → ℕ)
        → (ℕ → ℕ)
        → Result MlError (TuningReport Float)
    unfolding ordered_windows excluded_windows split_three fit_windows tune_scorers label_counts
        best_tuned_scorers normalize_threshold_objective tuning_error
    tune_temporal_split raw o share both = do
      objective ← normalize_threshold_objective py o.threshold_objective
      let ordered = ordered_windows year min_year raw
      let n = length ordered
      unless_error (tuning_error py np o n) (tuned o objective (share n) (both n) raw ordered)
