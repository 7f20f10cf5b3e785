-- ===== src/Ml/Evaluate.antt =====
-- src/honeypot_ai/ml.py, `evaluate_temporal_split`. Constants and dates of the report are left out.
use nsf_research_open_siem.Base.{
  ℕ, ℤ, pos, String, Bool, true, false, not, ◌&&◌, ltb, leb, List, [], ◌∷◌, Option, none, some,
  string_eq, contains, if◌then◌else◌,
}
use nsf_research_open_siem.Base.Dict.{Dict, length}
use nsf_research_open_siem.Base.Lists.{filter}
use nsf_research_open_siem.Base.Result.{Result, ok, raise, ◌>>=◌}
use nsf_research_open_siem.Runtime.{Runtime}
use nsf_research_open_siem.Endpoint.State.{feature_names}
use nsf_research_open_siem.Endpoint.Windows.{EndpointWindow}
use nsf_research_open_siem.Ml.Numerics.{Numerics}
use nsf_research_open_siem.Ml.Names.{
  MlError, value_error, scorer_river, scorer_isolation_raw, scorer_isolation_log1p,
  resolve_feature_names,
}
use nsf_research_open_siem.Ml.Scorers.{Learners, high_threshold}
use nsf_research_open_siem.Ml.Metrics.{
  Evaluation, labelled, label_counts, evaluation_metrics, best_evaluation_scorers,
}
use nsf_research_open_siem.Ml.Split.{
  fit_windows, ordered_windows, excluded_windows, split_index, split_two,
}
use nsf_research_open_siem.Ml.Fit.{
  has_binary_labels, river_model, river_scores, isolation_model, isolation_scores, river_threshold,
}

pub record EvaluationReport (Float : Type 0) : Type 0 where
  pub input_rows : ℕ
  pub evaluated_rows : ℕ
  pub excluded_rows : ℕ
  pub split_index : ℕ
  pub train_rows : ℕ
  pub fit_rows : ℕ
  pub test_rows : ℕ
  pub train_labels : Dict String ℕ
  pub fit_labels : Dict String ℕ
  pub test_labels : Dict String ℕ
  -- `none` for a scorer that was skipped
  pub scorers : Dict String (Option (Evaluation Float))
  pub used_features : List String
  pub excluded_features : List String
  pub best_scorers : Dict String (Option String)

module _ (py : Runtime) (np : Numerics py) where
  open py use {Float, float_le, of_int}
  open np use {float_lt}

  -- `0.0 < x < 1.0` and `0.0 < x <= 1.0`
  unfoldable pub in_open_unit : Float → Bool
  in_open_unit x = float_lt (of_int (pos 0)) x && float_lt x (of_int (pos 1))

  unfoldable pub in_unit : Float → Bool
  in_unit x = float_lt (of_int (pos 0)) x && float_le x (of_int (pos 1))

module _ (py : Runtime) (np : Numerics py) (lib : Learners py) where
  open py use {Float}
  open np use {quantile}

  module _ (names : List String) (seed : ℤ) (q : Float)
      (rows test : List (EndpointWindow Float)) where
    -- The metrics on the test windows, with the thresholds of the scores of the fitted rows.
    abbrev evaluated : List Float → Float → List Float → Evaluation Float
    evaluated train_scores threshold test_scores =
        evaluation_metrics py np (labelled test_scores test) test threshold
          (high_threshold py np train_scores threshold) (has_binary_labels test)

    unfoldable pub evaluate_river : Evaluation Float
    unfolding river_model river_scores river_threshold high_threshold evaluation_metrics
        has_binary_labels labelled
    evaluate_river =
        let r = river_model py np lib names seed rows in
        let scores = river_scores py np lib names r rows in
        evaluated scores (river_threshold py np lib scores q) (river_scores py np lib names r test)

    unfoldable pub evaluate_isolation : Bool → Evaluation Float
    unfolding isolation_model isolation_scores high_threshold evaluation_metrics has_binary_labels
        labelled
    evaluate_isolation log1p =
        let f = isolation_model py np lib names log1p seed rows in
        let scores = isolation_scores py np lib names f rows in
        evaluated scores (quantile scores q) (isolation_scores py np lib names f test)

    unfoldable pub evaluate_scorers : Dict String (Option (Evaluation Float))
    unfolding evaluate_river evaluate_isolation
    evaluate_scorers =
        (scorer_river, some evaluate_river)
        ∷ (if leb 2 (length rows)
            then (scorer_isolation_raw, some (evaluate_isolation false))
              ∷ (scorer_isolation_log1p, some (evaluate_isolation true))
              ∷ []
            else (scorer_isolation_raw, none) ∷ (scorer_isolation_log1p, none) ∷ [])

  module _ (year : ℤ → ℕ) (min_year : Option ℕ) where
    abbrev report_on :
        Float
        → ℤ
        → ℕ
        → List (EndpointWindow Float)
        → List (EndpointWindow Float)
        → List String
        → EvaluationReport Float
    report_on q seed share raw ordered names =
        let parts = split_two share ordered in
        let rows = fit_windows (parts.0) in
        let scorers = evaluate_scorers names seed q rows (parts.1) in
        record {
          input_rows = length raw;
          evaluated_rows = length ordered;
          excluded_rows = length (excluded_windows year min_year raw);
          split_index = split_index (length ordered) share;
          train_rows = length (parts.0);
          fit_rows = length rows;
          test_rows = length (parts.1);
          train_labels = label_counts (parts.0);
          fit_labels = label_counts rows;
          test_labels = label_counts (parts.1);
          scorers = scorers;
          used_features = names;
          excluded_features = filter (λ n. not (contains names n)) feature_names;
          best_scorers = best_evaluation_scorers py np scorers;
        }

    -- `share n` is `int(n * train_fraction)`.
    unfoldable pub evaluate_temporal_split :
        List (EndpointWindow Float)
        → Float
        → (ℕ → ℕ)
        → Float
        → ℤ
        → Option (List String)
        → Result MlError (EvaluationReport Float)
    unfolding ordered_windows excluded_windows split_two split_index fit_windows evaluate_scorers
        label_counts best_evaluation_scorers filter string_eq resolve_feature_names in_open_unit
        in_unit
    evaluate_temporal_split raw fraction share q seed feature_names' =
        let ordered = ordered_windows year min_year raw in
        if ltb (length ordered) 2
        then raise (value_error "cannot evaluate fewer than two endpoint windows")
        else if not (in_open_unit py np fraction)
        then raise (value_error "train_fraction must be in the range (0, 1)")
        else if not (in_unit py np q)
        then raise (value_error "threshold_quantile must be in the range (0, 1]")
        else (do
          names ← resolve_feature_names feature_names'
          ok (report_on q seed (share (length ordered)) raw ordered names))
