-- ===== src/Ml/Fit.antt =====
-- src/honeypot_ai/ml.py: fitting the two kinds of models, and scoring windows with them.
use nsf_research_open_siem.Base.{ℤ, String, Bool, ◌&&◌, List, [], ◌∷◌, ◌==◌, nat_eq, string_eq, map}
use nsf_research_open_siem.Base.Dict.{length}
use nsf_research_open_siem.Base.Lists.{any_of}
use nsf_research_open_siem.Runtime.{Runtime}
use nsf_research_open_siem.Endpoint.Windows.{EndpointWindow, feature_vector}
use nsf_research_open_siem.Ml.Numerics.{Numerics}
use nsf_research_open_siem.Ml.Metrics.{label_of}
use nsf_research_open_siem.Ml.Scorers.{Learners, row, max_of}
use nsf_research_open_siem.Ml.Split.{least, most}

-- `len(set(labels)) == 2`; a label is 0 or 1.
unfoldable pub has_binary_labels : {A : Type 0} → List (EndpointWindow A) → Bool
unfolding any_of nat_eq string_eq
has_binary_labels ws = any_of (λ w. label_of w == 1) ws && any_of (λ w. label_of w == 0) ws

module _ (py : Runtime) (np : Numerics py) (lib : Learners py) where
  open py use {Float}
  open np use {float_neg, quantile, literal}
  open lib use {River, Forest, half_space_trees, learn_one, score_one, fit, decision_function}

  module _ (names : List String) where
    abbrev learn : List (EndpointWindow Float) → River → River
    learn [] r = r
    learn (w ∷ ws) r = learn ws (learn_one (feature_vector py names w.features) r)

    -- The trees keep a window of between 16 and 250 rows.
    unfoldable pub river_model : ℤ → List (EndpointWindow Float) → River
    river_model seed ws = learn ws (half_space_trees (most 16 (least 250 (length ws))) seed)

    unfoldable pub river_scores : River → List (EndpointWindow Float) → List Float
    river_scores r ws = map (λ w. score_one r (feature_vector py names w.features)) ws

    unfoldable pub isolation_model : Bool → ℤ → List (EndpointWindow Float) → Forest
    unfolding row
    isolation_model log1p seed ws = fit log1p seed (map (row py np names) ws)

    unfoldable pub isolation_scores : Forest → List (EndpointWindow Float) → List Float
    unfolding row
    isolation_scores f ws = map float_neg (decision_function f (map (row py np names) ws))

  unfoldable pub river_threshold : List Float → Float → Float
  river_threshold scores q = max_of py np (quantile scores q) (literal "0.05")
