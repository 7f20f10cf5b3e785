-- ===== src/Ml/Train.antt =====
-- src/honeypot_ai/ml.py, `train_model` and `train_calibrated_model`. The artifact that `joblib` writes
-- and the result are returned; writing the two files and the time of training are left out.
use Prim.Native.String.{slice}
use nsf_research_open_siem.Base.{
  ℕ, ℤ, pos, String, ◌<>◌, ◌&&◌, ltb, List, [], ◌∷◌, Option, none, some, string_eq, if◌then◌else◌,
  map,
}
use nsf_research_open_siem.Base.Dict.{Dict, length, keys, lookup, insert}
use nsf_research_open_siem.Base.Bytes.{take}
use nsf_research_open_siem.Base.Result.{Result, ok, raise, ◌>>=◌}
use nsf_research_open_siem.Runtime.{Runtime}
use nsf_research_open_siem.Endpoint.Windows.{EndpointWindow}
use nsf_research_open_siem.Ml.Numerics.{Numerics}
use nsf_research_open_siem.Ml.Names.{
  MlError, value_error, key_error, normalize_scorer, normalize_threshold_objective,
}
use nsf_research_open_siem.Ml.Scorers.{
  Metric, number, integer, text, Learners, Model, Artifact, select_scorer, high_threshold,
  score_many,
}
use nsf_research_open_siem.Ml.Metrics.{labelled}
use nsf_research_open_siem.Ml.Calibration.{Selection, select_calibration_threshold}
use nsf_research_open_siem.Ml.Split.{fit_windows, ordered_windows, split_two}
use nsf_research_open_siem.Ml.Fit.{has_binary_labels}
use nsf_research_open_siem.Ml.Trained.{Trained, Models, Metrics, train_all}

pub record TrainOptions (Float : Type 0) : Type 0 where
  pub threshold_quantile : Float
  pub seed : ℤ
  pub scorer : String
  pub calibration_windows : Option (List (EndpointWindow Float))
  pub threshold_objective : Option String
  pub target_fpr : Float
  pub target_alerts_per_day : Float

pub record ModelTrainingResult (Float : Type 0) : Type 0 where
  pub model_id : String
  pub threshold : Float
  pub high_threshold : Float
  pub training_rows : ℕ
  pub selected_scorer : String
  pub metrics : Dict String (Metric Float)

abbrev comma : List String → String
comma [] = ""
comma (x ∷ []) = x
comma (x ∷ y ∷ ys) = x <> "," <> comma (y ∷ ys)

-- `hashlib.sha1` of the texts that `digest.update` gets, the JSON text of a window's record,
-- `str(seed)`, and `s.replace("-", "_")`
pub record Texts (py : Runtime) : Type 0 where
  pub sha1 : List String → String
  pub window_json : EndpointWindow py.Float → String
  pub show_seed : ℤ → String
  pub replace_dashes : String → String

module _ (py : Runtime) (np : Numerics py) (lib : Learners py) where
  open py use {Float, float_le, of_int}
  open np use {float_lt, np_min, np_max, np_mean, quantile, roc_auc_score, precision_recall_fscore}
  open lib use {River, Forest}

  abbrev pub at_key : {A : Type 0} → String → Option A → Result MlError A
  at_key k none = raise (key_error k)
  at_key k (some a) = ok a

  -- The selected model, whose thresholds calibration may replace, with where they come from.
  abbrev pub Deployed : Type 0
  Deployed = Trained (Model River Forest) Float × String × Metrics py np lib

  -- The deployed model once calibration has made its choice.
  abbrev pub recalibrated :
      TrainOptions Float
      → String
      → ℕ
      → Trained (Model River Forest) Float
      → Metrics py np lib
      → Selection Float
      → Deployed
  recalibrated o objective rows t m choice =
      let threshold = choice.selected_threshold in
      let high = high_threshold py np t.train_scores threshold in
      (
        record t { threshold = threshold; high_threshold = high },
        choice.threshold_source,
        insert "selected_high_threshold" (number high) (
            insert "selected_threshold" (number threshold) (
              insert "target_alerts_per_day" (number o.target_alerts_per_day) (
                insert "target_fpr" (number o.target_fpr) (
                  insert "calibration_rows" (integer rows) (
                    insert "threshold_source" (text choice.threshold_source)
                      (insert "threshold_objective" (text objective) m)))))),
      )

  unfoldable pub calibrate :
      TrainOptions Float
      → String
      → String
      → List (EndpointWindow Float)
      → Trained (Model River Forest) Float
      → Metrics py np lib
      → Result MlError Deployed
  unfolding score_many select_calibration_threshold high_threshold has_binary_labels labelled insert
      string_eq
  calibrate o objective selected [] t m = ok (t, "training_quantile", m)
  calibrate o objective selected (w ∷ ws) t m = do
    scores ← score_many py np lib (w ∷ ws) t.model selected
    choice ←
        select_calibration_threshold py np t.threshold objective (labelled scores (w ∷ ws)) (w ∷ ws)
          o.target_fpr o.target_alerts_per_day (has_binary_labels (w ∷ ws))
    ok (recalibrated o objective (length (w ∷ ws)) t m choice)

  unfoldable pub deploy :
      TrainOptions Float
      → String
      → Option (List (EndpointWindow Float))
      → Option String
      → Trained (Model River Forest) Float
      → Metrics py np lib
      → Result MlError Deployed
  unfolding calibrate normalize_threshold_objective
  deploy o selected (some ws) (some objective) t m = do
    name ← normalize_threshold_objective py objective
    calibrate o name selected ws t m
  deploy o selected ws objective t m = ok (t, "training_quantile", m)

  module _ (texts : Texts py) where
    open texts use {sha1, window_json, show_seed, replace_dashes}

    unfoldable pub model_id : List (EndpointWindow Float) → ℤ → String
    unfolding take
    model_id ws seed =
        slice (sha1 ("endpoint-window-v2" ∷ show_seed seed ∷ map window_json (take 5_000 ws))) 0 20

    abbrev pub first_metrics :
        TrainOptions Float → String → List (EndpointWindow Float) → ℕ → Metrics py np lib
    first_metrics o requested ws rows =
        ("rows", integer (length ws))
        ∷ ("training_rows", integer rows)
        ∷ ("threshold_quantile", number o.threshold_quantile)
        ∷ ("requested_scorer", text requested)
        ∷ []

    abbrev pub packaged :
        List (EndpointWindow Float)
        → ℤ
        → ℕ
        → String
        → Deployed
        → ModelTrainingResult Float × Artifact py np lib
    packaged ws seed rows selected d = (
      record {
        model_id = model_id ws seed;
        threshold = d.0.threshold;
        high_threshold = d.0.high_threshold;
        training_rows = rows;
        selected_scorer = selected;
        metrics = d.2;
      },
      record {
        kind = "endpoint-window-anomaly";
        model_id = some (model_id ws seed);
        selected_scorer = some selected;
        model = d.0.model;
        threshold = some d.0.threshold;
        high_threshold = some d.0.high_threshold;
      },
    )

    abbrev pub selection_metrics :
        String
        → Trained (Model River Forest) Float
        → Models py np lib
        → Metrics py np lib
        → Metrics py np lib
    selection_metrics selected t models m = insert "trained_scorers" (text (comma (keys models))) (
        insert "selected_high_threshold" (number t.high_threshold) (
          insert "selected_threshold" (number t.threshold)
            (insert "selected_scorer" (text selected) m)))

    -- From the trained models and their metrics on.
    abbrev pub trained_from :
        TrainOptions Float
        → List (EndpointWindow Float)
        → ℕ
        → String
        → Models py np lib × Metrics py np lib
        → Result MlError (ModelTrainingResult Float × Artifact py np lib)
    trained_from o ws rows requested (models, m) = do
      selected ← select_scorer py np replace_dashes requested (keys models) m
      t ← at_key selected (lookup selected models)
      d ←
          deploy o selected o.calibration_windows o.threshold_objective t
            (selection_metrics selected t models m)
      ok (packaged ws o.seed rows selected d)

    abbrev pub trained :
        TrainOptions Float
        → List (EndpointWindow Float)
        → String
        → Result MlError (ModelTrainingResult Float × Artifact py np lib)
    trained o ws requested =
        let rows = fit_windows ws in
        trained_from o ws (length rows) requested (
          train_all py np lib o.seed o.threshold_quantile rows ws
            (first_metrics o requested ws (length rows)))

    unfoldable pub train_model :
        TrainOptions Float
        → List (EndpointWindow Float)
        → Result MlError (ModelTrainingResult Float × Artifact py np lib)
    unfolding train_all select_scorer deploy model_id normalize_scorer fit_windows keys lookup
        insert string_eq
    train_model o [] =
        raise (value_error "cannot train ML model with an empty endpoint-window dataset")
    train_model o (w ∷ ws) =
        if float_lt (of_int (pos 0)) o.threshold_quantile
          && float_le o.threshold_quantile (of_int (pos 1))
        then (do requested ← normalize_scorer o.scorer; trained o (w ∷ ws) requested)
        else raise (value_error "threshold_quantile must be in the range (0, 1]")

    -- `share n` is `int(n * (1.0 - calibration_fraction))`.
    unfoldable pub train_calibrated_model :
        TrainOptions Float
        → String
        → Float
        → (ℕ → ℕ)
        → (ℤ → ℕ)
        → Option ℕ
        → List (EndpointWindow Float)
        → Result MlError (ModelTrainingResult Float × Artifact py np lib)
    unfolding train_model normalize_threshold_objective ordered_windows split_two
    train_calibrated_model o objective fraction share year min_year ws = do
      name ← normalize_threshold_objective py objective
      let ordered = ordered_windows year min_year ws
      let parts = split_two (share (length ordered)) ordered
      if float_lt (of_int (pos 0)) fraction && float_lt fraction (of_int (pos 1))
          then (if ltb (length ordered) 2
              then raise (
                  value_error
                    "cannot calibrate a deployed threshold with fewer than two endpoint windows")
              else train_model
                  (record o {
                    calibration_windows = some (parts.1);
                    threshold_objective = some name;
                  })
                  (parts.0))
          else raise (value_error "calibration_fraction must be in the range (0, 1)")
