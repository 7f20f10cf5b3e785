-- ===== src/Ml/Metrics.antt =====
-- src/honeypot_ai/ml.py: the metrics of scores against the labels, and the best scorers by them.
use nsf_research_open_siem.Base.{
  ℕ, suc, ℤ, pos, sub_ℕ, String, Bool, true, false, not, ◌&&◌, List, [], ◌∷◌, ◌++◌, Option, none,
  some, ◌==◌, nat_eq, string_eq, contains, if◌then◌else◌, map,
}
use nsf_research_open_siem.Base.Dict.{Dict, length, upsert}
use nsf_research_open_siem.Base.Lists.{count, greatest}
use nsf_research_open_siem.Runtime.{Runtime}
use nsf_research_open_siem.Endpoint.Windows.{EndpointWindow}
use nsf_research_open_siem.Ml.Numerics.{Scored, Numerics}
use nsf_research_open_siem.Ml.Candidates.{is_malicious, is_benign, safe_div, alerts_per_day}
use nsf_research_open_siem.Ml.Scorers.{text_less}

-- The entries `best_f1`, `best_f1_threshold`, …, which are all `None` or none of them.
pub record BestF1 (Float : Type 0) : Type 0 where
  pub best_f1 : Float
  pub best_f1_threshold : Float
  pub best_f1_precision : Float
  pub best_f1_recall : Float
  pub best_f1_alerts : ℕ

-- The entries that need both labels.
pub record Curves (Float : Type 0) : Type 0 where
  pub roc_auc : Float
  pub pr_auc : Float
  pub precision_at_threshold : Float
  pub recall_at_threshold : Float
  pub f1_at_threshold : Float
  pub best : Option (BestF1 Float)

pub record Evaluation (Float : Type 0) : Type 0 where
  pub threshold : Float
  pub high_threshold : Float
  pub score_min : Float
  pub score_max : Float
  pub score_mean : Float
  pub alerts : ℕ
  pub high_alerts : ℕ
  pub medium_alerts : ℤ
  pub alert_rate : Option Float
  pub alerts_per_day : Option Float
  pub true_positives : ℕ
  pub false_positives : ℕ
  pub true_negatives : ℕ
  pub false_negatives : ℕ
  pub false_positive_rate : Option Float
  pub true_positive_rate : Option Float
  pub curves : Option (Curves Float)

-- `1 if window.label == "malicious" else 0`
abbrev pub label_of : {A : Type 0} → EndpointWindow A → ℕ
label_of w = if w.label == "malicious" then 1 else 0

-- The scores with the labels of their windows.
unfoldable pub labelled : {A : Type 0} → List A → List (EndpointWindow A) → List (Scored A)
unfolding string_eq
labelled [] ws = []
labelled (s ∷ ss) [] = []
labelled (s ∷ ss) (w ∷ ws) = (s, label_of w) ∷ labelled ss ws

abbrev counted_label : String → String
counted_label label =
    if contains ("benign" ∷ "malicious" ∷ "unknown" ∷ []) label then label else "unknown"

abbrev count_labels : {A : Type 0} → List (EndpointWindow A) → Dict String ℕ → Dict String ℕ
count_labels [] d = d
count_labels (w ∷ ws) d = count_labels ws (upsert (counted_label w.label) 0 suc d)

unfoldable pub label_counts : {A : Type 0} → List (EndpointWindow A) → Dict String ℕ
unfolding upsert string_eq
label_counts ws = count_labels ws (("benign", 0) ∷ ("malicious", 0) ∷ ("unknown", 0) ∷ [])

module _ (py : Runtime) (np : Numerics py) where
  open py use {Float, float_le, float_add, float_mul, float_div, of_int}
  open np use {
    float_lt, float_eq, np_max, np_min, np_mean, roc_auc_score, average_precision_score,
    precision_recall_curve, precision_recall_fscore,
  }

  -- The harmonic mean, 0 where both are zero.
  abbrev f1_or_zero : Float → Float → Float
  f1_or_zero p r =
      if float_lt (of_int (pos 0)) (float_add p r)
      then float_div (float_mul (float_mul (of_int (pos 2)) p) r) (float_add p r)
      else of_int (pos 0)

  -- F1, threshold, precision and recall for each threshold of the curve.
  abbrev curve_rows : List Float → List Float → List Float → List (Float × Float × Float × Float)
  curve_rows (p ∷ ps) (r ∷ rs) (t ∷ ts) = (f1_or_zero p r, t, p, r) ∷ curve_rows ps rs ts
  curve_rows ps rs ts = []

  abbrev best_row :
      List (Scored Float) → List (Float × Float × Float × Float) → Option (BestF1 Float)
  best_row scored [] = none
  best_row scored (x ∷ xs) =
      let best = greatest (λ a b. float_lt a.0 b.0) x xs in
      some (record {
        best_f1 = best.0;
        best_f1_threshold = best.1;
        best_f1_precision = best.2;
        best_f1_recall = best.3;
        best_f1_alerts = count (λ y. float_le best.1 y.0) scored;
      })

  unfoldable pub best_f1_metrics : List (Scored Float) → Option (BestF1 Float)
  unfolding greatest
  best_f1_metrics scored =
      let curve = precision_recall_curve scored in
      best_row scored (curve_rows curve.0 curve.1 curve.2)

  unfoldable pub curves_of : Bool → Float → List (Scored Float) → Option (Curves Float)
  unfolding best_f1_metrics
  curves_of false threshold scored = none
  curves_of true threshold scored =
      let fscore = precision_recall_fscore (map (λ x. (float_le threshold x.0, x.1)) scored) in
      some (record {
        roc_auc = roc_auc_score scored;
        pr_auc = average_precision_score scored;
        precision_at_threshold = fscore.0;
        recall_at_threshold = fscore.1;
        f1_at_threshold = fscore.2;
        best = best_f1_metrics scored;
      })

  -- The flag tells whether the functions of scikit-learn are passed or `None`.
  unfoldable pub evaluation_metrics :
      List (Scored Float) → List (EndpointWindow Float) → Float → Float → Bool → Evaluation Float
  unfolding safe_div alerts_per_day curves_of nat_eq
  evaluation_metrics scored windows threshold high_threshold binary =
      let alerts = count (λ x. float_le threshold x.0) scored in
      let high_alerts = count (λ x. float_le high_threshold x.0) scored in
      let tp = count (λ x. float_le threshold x.0 && is_malicious x) scored in
      let fp = count (λ x. float_le threshold x.0 && is_benign x) scored in
      record {
        threshold = threshold;
        high_threshold = high_threshold;
        score_min = np_min (map (λ x. x.0) scored);
        score_max = np_max (map (λ x. x.0) scored);
        score_mean = np_mean (map (λ x. x.0) scored);
        alerts = alerts;
        high_alerts = high_alerts;
        medium_alerts = sub_ℕ alerts high_alerts;
        alert_rate = safe_div py np alerts (length windows);
        alerts_per_day = alerts_per_day py np alerts windows;
        true_positives = tp;
        false_positives = fp;
        true_negatives = count (λ x. not (float_le threshold x.0) && is_benign x) scored;
        false_negatives = count (λ x. not (float_le threshold x.0) && is_malicious x) scored;
        false_positive_rate = safe_div py np fp (count is_benign scored);
        true_positive_rate = safe_div py np tp (count is_malicious scored);
        curves = curves_of binary threshold scored;
      }

  -- A number and the scorer's name, in the order of tuples.
  abbrev pair_less : Float × String → Float × String → Bool
  pair_less a b = if float_eq a.0 b.0 then text_less py np a.1 b.1 else float_lt a.0 b.0

  abbrev from_curves : (Curves Float → Option Float) → Evaluation Float → Option Float
  from_curves f e = elim e.curves [ none ↦ none | some c ↦ f c ]

  abbrev highest_metrics : Dict String (Evaluation Float → Option Float)
  highest_metrics =
      ("pr_auc", from_curves (λ c. some c.pr_auc))
      ∷ ("roc_auc", from_curves (λ c. some c.roc_auc))
      ∷ ("f1_at_threshold", from_curves (λ c. some c.f1_at_threshold))
      ∷ ("best_f1", from_curves (λ c. elim c.best [ none ↦ none | some b ↦ some b.best_f1 ]))
      ∷ ("precision_at_threshold", from_curves (λ c. some c.precision_at_threshold))
      ∷ ("recall_at_threshold", from_curves (λ c. some c.recall_at_threshold))
      ∷ []

  abbrev lowest_metrics : Dict String (Evaluation Float → Option Float)
  lowest_metrics =
      ("lowest_false_positive_rate", λ e. e.false_positive_rate)
      ∷ ("lowest_alerts_per_day", λ e. e.alerts_per_day)
      ∷ []

  abbrev cons_value : String → Option Float → List (Float × String) → List (Float × String)
  cons_value name none rs = rs
  cons_value name (some x) rs = (x, name) ∷ rs

  -- The scorers for which the metric is a number; a scorer that was skipped has none.
  unfoldable pub ranked :
      (Evaluation Float → Option Float)
      → Dict String (Option (Evaluation Float))
      → List (Float × String)
  ranked metric [] = []
  ranked metric ((name, none) ∷ d) = ranked metric d
  ranked metric ((name, some e) ∷ d) = cons_value name (metric e) (ranked metric d)

  abbrev winner : (Float × String → Float × String → Bool) → List (Float × String) → Option String
  winner less [] = none
  winner less (r ∷ rs) = some (greatest less r rs).1

  abbrev winners :
      (Float × String → Float × String → Bool)
      → Dict String (Evaluation Float → Option Float)
      → Dict String (Option (Evaluation Float))
      → Dict String (Option String)
  winners less [] d = []
  winners less ((name, metric) ∷ metrics) d =
      (name, winner less (ranked metric d)) ∷ winners less metrics d

  unfoldable pub best_evaluation_scorers :
      Dict String (Option (Evaluation Float)) → Dict String (Option String)
  unfolding ranked greatest
  best_evaluation_scorers d =
      winners pair_less highest_metrics d ++ winners (λ a b. pair_less b a) lowest_metrics d
