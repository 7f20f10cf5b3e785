-- ===== src/Ml/Safety.antt =====
-- src/honeypot_ai/ml.py: what training can raise.
use mathlib.Core.Path.{subst}
use nsf_research_open_siem.Base.{
  ℕ, pos, ◌≡◌, String, Bool, true, false, ◌&&◌, List, [], ◌∷◌, Option, none, some, ◌==◌, string_eq,
  contains, arith, inl, inr, ℤ, leb, Bool-cases,
}
use nsf_research_open_siem.Base.Dict.{length, keys, lookup}
use nsf_research_open_siem.Base.Result.{Result, ok, raise, ◌>>=◌}
use nsf_research_open_siem.Runtime.{Runtime}
use nsf_research_open_siem.Endpoint.Windows.{EndpointWindow}
use nsf_research_open_siem.Ml.Numerics.{Scored, Numerics}
use nsf_research_open_siem.Ml.Names.{
  MlError, named, scorer_river, scorer_isolation_log1p, normalize_scorer,
  normalize_threshold_objective,
}
use nsf_research_open_siem.Ml.Scorers.{Learners, Model, river, forest, select_scorer, score_many}
use nsf_research_open_siem.Ml.Metrics.{labelled}
use nsf_research_open_siem.Ml.Split.{fit_windows}
use nsf_research_open_siem.Ml.Fit.{has_binary_labels}
use nsf_research_open_siem.Ml.Calibration.{select_calibration_threshold}
use nsf_research_open_siem.Ml.Trained.{
  Trained, Models, Metrics, train_all, train_river, train_isolation,
}
use nsf_research_open_siem.Ml.Train.{
  TrainOptions, Texts, at_key, recalibrated, packaged, selection_metrics, first_metrics, calibrate,
  deploy, trained_from, trained, train_model,
}
use nsf_research_open_siem.Ml.Selected.{
  Clean, Selects, bind-Clean, map-Clean, named-Clean, same_text, same_key, normalize_scorer-Clean,
  or_false, river_plain, select_scorer-Selects,
}

module _ (py : Runtime) (np : Numerics py) where
  open py use {Float}

  select_calibration_threshold-Clean :
      (fallback : Float) (objective : String) (scored : List (Scored Float))
      (ws : List (EndpointWindow Float)) (fpr per_day : Float) (binary : Bool)
      → Clean (select_calibration_threshold py np fallback objective scored ws fpr per_day binary)
  unfolding select_calibration_threshold
  select_calibration_threshold-Clean fallback objective scored ws fpr per_day binary =
      elim (Bool-cases (objective == "best-f1")) [
        | inl t ↦ rw t tt
        | inr f ↦ rw f (elim (Bool-cases (objective == "target-fpr")) [
          | inl t ↦ rw t tt
          | inr g ↦ rw g (elim (Bool-cases (objective == "target-alerts-per-day")) [
            | inl t ↦ rw t tt
            | inr e ↦ rw e tt
          ])
        ])
      ]

  module _ (lib : Learners py) where
    open lib use {River, Forest}

    -- The model has the method that the scorer's name leads to.
    abbrev Fits : String → Model River Forest → Type 0
    Fits s (river r) = (s == scorer_isolation_log1p) ≡ false
    Fits s (forest f) = (s == scorer_isolation_log1p) ≡ true

    score_many-Clean :
        (ws : List (EndpointWindow Float)) (model : Model River Forest) (s : String)
        → Fits s model
        → Clean (score_many py np lib ws model s)
    unfolding score_many
    score_many-Clean [] model s f = tt
    score_many-Clean (w ∷ ws) (river r) s f = rw f tt
    score_many-Clean (w ∷ ws) (forest r) s f = rw f tt

    calibrate-Clean :
        (o : TrainOptions Float) (objective s : String) (ws : List (EndpointWindow Float))
        (t : Trained (Model River Forest) Float) (m : Metrics py np lib)
        → Fits s t.model
        → Clean (calibrate py np lib o objective s ws t m)
    unfolding calibrate
    calibrate-Clean o objective s [] t m f = tt
    calibrate-Clean o objective s (w ∷ ws) t m f =
        bind-Clean (score_many py np lib (w ∷ ws) t.model s) _
          (score_many-Clean (w ∷ ws) t.model s f)
          (λ scores e.
            let scored = labelled scores (w ∷ ws) in
            let binary = has_binary_labels (w ∷ ws) in
            map-Clean
              (select_calibration_threshold py np t.threshold objective scored (w ∷ ws) o.target_fpr
                o.target_alerts_per_day binary)
              (recalibrated py np lib o objective (length (w ∷ ws)) t m)
              (select_calibration_threshold-Clean t.threshold objective scored (w ∷ ws) o.target_fpr
                o.target_alerts_per_day binary))

    deploy-Clean :
        (o : TrainOptions Float) (s : String) (ws : Option (List (EndpointWindow Float)))
        (objective : Option String) (t : Trained (Model River Forest) Float) (m : Metrics py np lib)
        → Fits s t.model
        → Clean (deploy py np lib o s ws objective t m)
    unfolding deploy normalize_threshold_objective
    deploy-Clean o s none objective t m f = tt
    deploy-Clean o s (some ws) none t m f = tt
    deploy-Clean o s (some ws) (some objective) t m f =
        bind-Clean (named _ _) _ (named-Clean _ _) (λ name e. calibrate-Clean o name s ws t m f)

    -- Every trained model stands under the name of a scorer that it fits.
    abbrev Found : String → Option (Trained (Model River Forest) Float) → Type 0
    Found s none = true ≡ false
    Found s (some t) = Fits s t.model

    Found-River :
        (s : String) (r : Trained (Model River Forest) Float)
        → Fits scorer_river r.model
        → contains (scorer_river ∷ []) s ≡ true
        → Found s (lookup s ((scorer_river, r) ∷ []))
    unfolding lookup
    Found-River s r f h =
        let e = same_text s scorer_river (ground (arith, h)) in rw (e, same_key scorer_river) f

    Found-both :
        (s : String) (r l : Trained (Model River Forest) Float)
        → Fits scorer_river r.model
        → Fits scorer_isolation_log1p l.model
        → contains (scorer_river ∷ scorer_isolation_log1p ∷ []) s ≡ true
        → Found s (lookup s ((scorer_river, r) ∷ (scorer_isolation_log1p, l) ∷ []))
    unfolding lookup
    Found-both s r l f g h = elim (Bool-cases (s == scorer_river)) [
      | inl t ↦ rw t (rw (same_text s scorer_river t) f)
      | inr n ↦ let t = or_false n h in rw (n, t) (rw (same_text s scorer_isolation_log1p t) g)
    ]

    at-Found :
        {B : Type 0} (s : String) (o : Option (Trained (Model River Forest) Float))
        (k : Trained (Model River Forest) Float → Result MlError B)
        → Found s o
        → ((t : Trained (Model River Forest) Float) → Fits s t.model → Clean (k t))
        → Clean (at_key py np lib s o >>= k)
    at-Found s none k f c = f
    at-Found s (some t) k f c = c t f

    Selects-Clean : (names : List String) (r : Result MlError String) → Selects names r → Clean r
    Selects-Clean names (ok s) h = tt
    Selects-Clean names (raise e) h = h

    -- River has been trained, and every model stands under a scorer that it fits.
    abbrev Complete : Models py np lib × Metrics py np lib → Type 0
    Complete p =
        (contains (keys p.0) scorer_river ≡ true)
        × ((s : String) → contains (keys p.0) s ≡ true → Found s (lookup s p.0))

    train_all-Complete :
        (seed : ℤ) (q : Float) (rows ws : List (EndpointWindow Float)) (m : Metrics py np lib)
        → Complete (train_all py np lib seed q rows ws m)
    unfolding train_all keys train_river train_isolation
    train_all-Complete seed q rows ws m = elim (Bool-cases (leb 2 (length rows))) [
      | inl t ↦ rw t (
        ground arith,
        λ s h.
            Found-both s (train_river py np lib seed q rows)
              (train_isolation py np lib true seed q rows) river_plain
              (same_key scorer_isolation_log1p) h,
      )
      | inr f ↦
          rw f
            (ground arith, λ s h. Found-River s (train_river py np lib seed q rows) river_plain h)
    ]

    module _ (texts : Texts py) (o : TrainOptions Float) (ws : List (EndpointWindow Float)) where
      trained_from-Clean :
          (rows : ℕ) (requested : String) (models : Models py np lib) (m : Metrics py np lib)
          → contains (keys models) scorer_river ≡ true
          → ((s : String) → contains (keys models) s ≡ true → Found s (lookup s models))
          → Clean (trained_from py np lib texts o ws rows requested (models, m))
      trained_from-Clean rows requested models m h found =
          let choice = select_scorer py np texts.replace_dashes requested (keys models) m in
          let selects =
            select_scorer-Selects py np texts.replace_dashes requested (keys models) m h in
          bind-Clean choice _ (Selects-Clean (keys models) choice selects) (λ s e.
            at-Found s (lookup s models) _ (found s (subst (Selects (keys models)) e selects))
              (λ t f.
                let m' = selection_metrics py np lib texts s t models m in
                map-Clean (deploy py np lib o s o.calibration_windows o.threshold_objective t m')
                  (packaged py np lib texts ws o.seed rows s)
                  (deploy-Clean o s o.calibration_windows o.threshold_objective t m' f)))

      pair_Clean :
          (rows : ℕ) (requested : String) (p : Models py np lib × Metrics py np lib)
          → Complete p
          → Clean (trained_from py np lib texts o ws rows requested p)
      pair_Clean rows requested (models, m) c = trained_from-Clean rows requested models m c.0 c.1

      trained-Clean : (requested : String) → Clean (trained py np lib texts o ws requested)
      trained-Clean requested =
          let rows = fit_windows ws in
          let m = first_metrics py np lib texts o requested ws (length rows) in
          pair_Clean (length rows) requested
            (train_all py np lib o.seed o.threshold_quantile rows ws m)
            (train_all-Complete o.seed o.threshold_quantile rows ws m)

    -- Training, whatever it is given, returns a model or raises a ValueError: the chosen scorer has
    -- been trained, and its model has the method that scores the calibration windows.
    pub train_model-Clean :
        (texts : Texts py) (o : TrainOptions Float) (ws : List (EndpointWindow Float))
        → Clean (train_model py np lib texts o ws)
    unfolding train_model
    train_model-Clean texts o [] = tt
    train_model-Clean texts o (w ∷ ws) =
        elim (Bool-cases (
          np.float_lt (py.of_int (pos 0)) o.threshold_quantile
          && py.float_le o.threshold_quantile (py.of_int (pos 1)))) [
            | inl t ↦ rw t (
                bind-Clean (normalize_scorer o.scorer) _ (normalize_scorer-Clean o.scorer)
                  (λ requested e. trained-Clean texts o (w ∷ ws) requested))
            | inr f ↦ rw f tt
          ]
