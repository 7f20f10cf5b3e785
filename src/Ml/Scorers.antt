-- ===== src/Ml/Scorers.antt =====
-- src/honeypot_ai/ml.py: which of the trained models is chosen, and what it says of a window.
use Prim.Native.String.{compare}
use Prim.Native.Nat.{Ordering}
use nsf_research_open_siem.Base.{
  ℕ, ℤ, pos, String, ◌<>◌, Bool, true, false, List, [], ◌∷◌, Option, none, some, ltb, ◌==◌, nat_eq,
  string_eq, contains, if◌then◌else◌, map,
}
use nsf_research_open_siem.Base.Dict.{Dict, values, lookup}
use nsf_research_open_siem.Base.Lists.{greatest}
use nsf_research_open_siem.Base.Result.{Result, ok, raise}
use nsf_research_open_siem.Runtime.{Runtime}
use nsf_research_open_siem.Endpoint.State.{feature_names}
use nsf_research_open_siem.Endpoint.Windows.{EndpointWindow, feature_vector}
use nsf_research_open_siem.Ml.Numerics.{Numerics}
use nsf_research_open_siem.Ml.Names.{
  MlError, value_error, no_attribute, scorer_river, scorer_isolation_log1p, normalize_scorer,
}

-- The values of the dicts that hold metrics.
pub data Metric (Float : Type 0) : Type 0 where
  missing : Metric Float
  number : Float → Metric Float
  integer : ℕ → Metric Float
  text : String → Metric Float

-- The models of River and scikit-learn: anomaly detectors that learn window by window, and forests
-- that are fitted to a matrix, with or without `log1p` in front.
pub record Learners (py : Runtime) : Type 1 where
  pub River : Type 0
  pub Forest : Type 0
  pub half_space_trees : ℕ → ℤ → River
  pub learn_one : Dict String py.Float → River → River
  pub score_one : River → Dict String py.Float → py.Float
  pub fit : Bool → ℤ → List (List py.Float) → Forest
  pub decision_function : Forest → List (List py.Float) → List py.Float

pub data Model (River Forest : Type 0) : Type 0 where
  river : River → Model River Forest
  forest : Forest → Model River Forest

-- A scorer's area under the curve, its preference and its name.
abbrev pub Ranked : Type 0 → Type 0
Ranked Float = Float × ℕ × String

abbrev pub preference : String → ℕ
preference name =
    if name == scorer_isolation_log1p then 2 else if name == scorer_river then 1 else 0

module _ (replace_dashes : String → String) where
  unfoldable pub metric_prefix : String → String
  unfolding string_eq
  metric_prefix scorer =
      if scorer == scorer_river
      then "river"
      else if scorer == scorer_isolation_log1p
      then "isolation_log1p"
      else replace_dashes scorer

module _ (py : Runtime) (np : Numerics py) where
  open py use {Float, float_le, float_add, float_mul, float_abs, of_int}
  open np use {float_lt, float_eq, float_neg, literal, quantile}

  abbrev pub as_number : Metric Float → Option Float
  as_number (number x) = some x
  as_number (integer n) = some (of_int (pos n))
  as_number m = none

  -- `dict.get(key)` of metrics, when it is a number
  unfoldable pub number_of : String → Dict String (Metric Float) → Option Float
  unfolding lookup string_eq
  number_of key metrics = elim (lookup key metrics) [ none ↦ none | some m ↦ as_number m ]

  abbrev pub text_less : String → String → Bool
  text_less s t = elim (compare s t) [ Ordering.lt ↦ true | _ ↦ false ]

  -- The order of the tuples.
  unfoldable pub ranked_less : Ranked Float → Ranked Float → Bool
  unfolding nat_eq
  ranked_less a b =
      if float_eq a.0 b.0
      then if a.1 == b.1 then text_less a.2 b.2 else ltb a.1 b.1
      else float_lt a.0 b.0

  abbrev pub river_auc : List (Ranked Float) → Option Float
  river_auc [] = none
  river_auc (r ∷ rs) = if r.2 == scorer_river then some r.0 else river_auc rs

  abbrev pub river_suffices : Float → Option Float → Bool
  river_suffices best none = false
  river_suffices best (some auc) = float_le best (float_add auc (literal "0.005"))

  abbrev pub max_of : Float → Float → Float
  max_of a b = if float_lt a b then b else a

  module _ (replace_dashes : String → String) where
    abbrev pub cons_ranked : String → Option Float → List (Ranked Float) → List (Ranked Float)
    cons_ranked name none rs = rs
    cons_ranked name (some auc) rs = (auc, preference name, name) ∷ rs

    unfoldable pub ranking : List String → Dict String (Metric Float) → List (Ranked Float)
    unfolding number_of metric_prefix string_eq
    ranking [] metrics = []
    ranking (name ∷ names) metrics =
        cons_ranked name (number_of (metric_prefix replace_dashes name <> "_roc_auc") metrics)
          (ranking names metrics)

    abbrev pub choose : List String → List (Ranked Float) → String
    choose names [] =
        if contains names scorer_isolation_log1p then scorer_isolation_log1p else scorer_river
    choose names (r ∷ rs) =
        if river_suffices (greatest float_lt r.0 (map (λ x. x.0) rs)) (river_auc (r ∷ rs))
        then scorer_river
        else (greatest ranked_less r rs).2

    -- `candidate_models` is given by its keys.
    unfoldable pub select_scorer :
        String → List String → Dict String (Metric Float) → Result MlError String
    unfolding string_eq ranking greatest
    select_scorer requested names metrics =
        if requested == "auto"
        then ok (choose names (ranking names metrics))
        else if contains names requested
        then ok requested
        else raise (value_error (requested <> " requires at least two training rows"))

  unfoldable pub high_threshold : List Float → Float → Float
  high_threshold train_scores threshold =
      let high = quantile train_scores (literal "0.995") in
      if float_le high threshold
      then float_add threshold
          (max_of (float_mul (float_abs threshold) (literal "0.5")) (literal "0.05"))
      else high

  abbrev pub or_high : Float → Option Float → Float
  or_high threshold none =
      max_of (float_mul threshold (literal "2.0")) (float_add threshold (literal "0.5"))
  or_high threshold (some high) = high

  unfoldable pub severity : Float → Float → Option Float → String
  severity score threshold high =
      if float_le (or_high threshold high) score
      then "high"
      else if float_le threshold score
      then "medium"
      else "low"

  -- `[feature_vector(window)[name] for name in names]`
  unfoldable pub row : List String → EndpointWindow Float → List Float
  row names w = values (feature_vector py names w.features)

  module _ (lib : Learners py) where
    open lib use {River, Forest, score_one, decision_function}

    abbrev scores_by :
        Model River Forest → String → List (EndpointWindow Float) → Result MlError (List Float)
    scores_by (forest f) scorer ws =
        if scorer == scorer_isolation_log1p
        then ok (map float_neg (decision_function f (map (row feature_names) ws)))
        else raise (no_attribute "score_one")
    scores_by (river r) scorer ws =
        if scorer == scorer_isolation_log1p
        then raise (no_attribute "decision_function")
        else ok (map (λ w. score_one r (feature_vector py feature_names w.features)) ws)

    unfoldable pub score_many :
        List (EndpointWindow Float) → Model River Forest → String → Result MlError (List Float)
    unfolding string_eq row
    score_many [] model scorer = ok []
    score_many (w ∷ ws) model scorer = scores_by model scorer (w ∷ ws)

    -- The artifact of a stored model.
    pub record Artifact : Type 0 where
      pub kind : String
      pub model_id : Option String
      pub selected_scorer : Option String
      pub model : Model River Forest
      pub threshold : Option Float
      pub high_threshold : Option Float

    abbrev by_method : Model River Forest → String
    by_method (forest f) = scorer_isolation_log1p
    by_method (river r) = scorer_river

    abbrev by_kind : String → Model River Forest → String
    by_kind kind model = if kind == "river-half-space-trees" then scorer_river else by_method model

    abbrev by_name : Option String → String → Model River Forest → Result MlError String
    by_name (some scorer) kind model = normalize_scorer scorer
    by_name none kind model = ok (by_kind kind model)

    unfoldable pub artifact_scorer : Artifact → Result MlError String
    unfolding normalize_scorer string_eq
    artifact_scorer a = by_name a.selected_scorer a.kind a.model
