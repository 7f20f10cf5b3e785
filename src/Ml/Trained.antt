-- ===== src/Ml/Trained.antt =====
-- src/honeypot_ai/ml.py, `train_model`: the models that it trains to choose from.
use nsf_research_open_siem.Base.{
  ℤ, String, ◌<>◌, Bool, true, false, leb, List, [], ◌∷◌, string_eq, if◌then◌else◌, map,
}
use nsf_research_open_siem.Base.Dict.{Dict, length, insert}
use nsf_research_open_siem.Base.Lists.{count}
use nsf_research_open_siem.Runtime.{Runtime}
use nsf_research_open_siem.Endpoint.State.{feature_names}
use nsf_research_open_siem.Endpoint.Windows.{EndpointWindow}
use nsf_research_open_siem.Ml.Numerics.{Scored, Numerics}
use nsf_research_open_siem.Ml.Names.{scorer_river, scorer_isolation_log1p}
use nsf_research_open_siem.Ml.Scorers.{
  Metric, number, integer, text, Learners, Model, river, forest, high_threshold,
}
use nsf_research_open_siem.Ml.Metrics.{labelled}
use nsf_research_open_siem.Ml.Fit.{
  has_binary_labels, river_model, river_scores, isolation_model, isolation_scores, river_threshold,
}

-- A trained model with its thresholds and the scores of its training rows.
pub record Trained (M Float : Type 0) : Type 0 where
  pub model : M
  pub threshold : Float
  pub high_threshold : Float
  pub train_scores : List Float

module _ (py : Runtime) (np : Numerics py) (lib : Learners py) where
  open py use {Float, float_le, of_int}
  open np use {float_lt, np_min, np_max, np_mean, quantile, roc_auc_score, precision_recall_fscore}
  open lib use {River, Forest}

  abbrev pub Metrics : Type 0
  Metrics = Dict String (Metric Float)

  abbrev pub Models : Type 0
  Models = Dict String (Trained (Model River Forest) Float)

  abbrev binary_metrics : Bool → String → List (Scored Float) → Float → Metrics → Metrics
  binary_metrics false prefix scored threshold m = m
  binary_metrics true prefix scored threshold m =
      let f = precision_recall_fscore (map (λ x. (float_le threshold x.0, x.1)) scored) in
      let alerts = count (λ x. float_le threshold x.0) scored in
      insert (prefix <> "_f1_at_threshold") (number f.2) (
        insert (prefix <> "_recall_at_threshold") (number f.1) (
          insert (prefix <> "_precision_at_threshold") (number f.0) (
            insert (prefix <> "_alerts_at_threshold") (integer alerts)
              (insert (prefix <> "_roc_auc") (number (roc_auc_score scored)) m))))

  unfoldable pub add_score_metrics :
      Bool → String → List (Scored Float) → Float → Float → Metrics → Metrics
  unfolding insert string_eq
  add_score_metrics binary prefix scored threshold high m =
      let scores = map (λ x. x.0) scored in
      binary_metrics binary prefix scored threshold (
        insert (prefix <> "_high_threshold") (number high) (
          insert (prefix <> "_threshold") (number threshold) (
            insert (prefix <> "_score_mean") (number (np_mean scores)) (
              insert (prefix <> "_score_max") (number (np_max scores))
                (insert (prefix <> "_score_min") (number (np_min scores)) m)))))

  -- The model that was fitted to the training rows, with its thresholds.
  unfoldable pub train_river :
      ℤ → Float → List (EndpointWindow Float) → Trained (Model River Forest) Float
  unfolding river_model river_scores river_threshold high_threshold
  train_river seed q rows =
      let r = river_model py np lib feature_names seed rows in
      let scores = river_scores py np lib feature_names r rows in
      let threshold = river_threshold py np lib scores q in
      record {
        model = river r;
        threshold = threshold;
        high_threshold = high_threshold py np scores threshold;
        train_scores = scores;
      }

  unfoldable pub train_isolation :
      Bool → ℤ → Float → List (EndpointWindow Float) → Trained (Model River Forest) Float
  unfolding isolation_model isolation_scores high_threshold
  train_isolation log1p seed q rows =
      let f = isolation_model py np lib feature_names log1p seed rows in
      let scores = isolation_scores py np lib feature_names f rows in
      let threshold = quantile scores q in
      record {
        model = forest f;
        threshold = threshold;
        high_threshold = high_threshold py np scores threshold;
        train_scores = scores;
      }

  abbrev all_scores : Model River Forest → List (EndpointWindow Float) → List Float
  all_scores (river r) ws = river_scores py np lib feature_names r ws
  all_scores (forest f) ws = isolation_scores py np lib feature_names f ws

  -- The metrics of a trained model on all the windows.
  unfoldable pub with_metrics :
      String → Trained (Model River Forest) Float → List (EndpointWindow Float) → Metrics → Metrics
  unfolding add_score_metrics river_scores isolation_scores has_binary_labels labelled
  with_metrics prefix t ws m =
      add_score_metrics (has_binary_labels ws) prefix (labelled (all_scores t.model ws) ws)
        t.threshold t.high_threshold m

  -- The models to choose from, with the metrics: the forests need two training rows.
  unfoldable pub train_all :
      ℤ
      → Float
      → List (EndpointWindow Float)
      → List (EndpointWindow Float)
      → Metrics
      → Models × Metrics
  unfolding train_river train_isolation with_metrics insert string_eq
  train_all seed q rows ws m =
      let r = train_river seed q rows in
      let m1 = with_metrics "river" r ws m in
      let raw = train_isolation false seed q rows in
      let log = train_isolation true seed q rows in
      if leb 2 (length rows)
      then (
        (scorer_river, r) ∷ (scorer_isolation_log1p, log) ∷ [],
        with_metrics "isolation_log1p" log ws (with_metrics "isolation" raw ws m1),
      )
      else (
        (scorer_river, r) ∷ [],
        insert "isolation_log1p_baseline" (text "skipped: fewer than two training rows")
            (insert "isolation_baseline" (text "skipped: fewer than two training rows") m1),
      )
