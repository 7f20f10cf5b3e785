-- ===== src/Tests/Models.antt =====
-- The theorems about models, at three windows with their scores.
use nsf_research_open_siem.Base.{
  ℕ, suc, ◌+◌, ◌≤◌, ℤ, pos, ◌≡◌, ◌≢◌, ◌⊎◌, refl, true, false, List, [], ◌∷◌, ◌++◌, none, some, leb,
  string_eq, nat_eq, arith,
}
use nsf_research_open_siem.Base.Dict.{length}
use nsf_research_open_siem.Base.Lists.{All, count, filter}
use nsf_research_open_siem.Base.Sort.{sorted, insert_sorted}
use nsf_research_open_siem.Endpoint.Windows.{EndpointWindow}
use nsf_research_open_siem.Ml.Numerics.{Scored}
use nsf_research_open_siem.Ml.Candidates.{is_malicious, is_benign, threshold_candidates}
use nsf_research_open_siem.Ml.Counts.{Tells, threshold_candidates-Tells}
use nsf_research_open_siem.Ml.Covers.{is_threshold, threshold_candidates_cover}
use nsf_research_open_siem.Ml.Calibration.{select_target_fpr}
use nsf_research_open_siem.Ml.Choice.{Chosen, FellBack, select_target_fpr_lem}
use nsf_research_open_siem.Ml.Metrics.{labelled, evaluation_metrics}
use nsf_research_open_siem.Ml.Confusion.{evaluation_metrics_add_up}
use nsf_research_open_siem.Ml.Split.{in_order, ordered_windows, split_three}
use nsf_research_open_siem.Ml.Temporal.{Precedes, split_three-Precedes}
use nsf_research_open_siem.Ml.Scorers.{Learners}
use nsf_research_open_siem.Ml.Train.{Texts, TrainOptions, train_model}
use nsf_research_open_siem.Ml.Selected.{Clean}
use nsf_research_open_siem.Ml.Safety.{train_model-Clean}
use nsf_research_open_siem.Ml.Alerts.{Formats, alerts_of}
use nsf_research_open_siem.Ml.Raised.{alerts_of_lem}
use nsf_research_open_siem.Tests.Sample.{sample_py}
use nsf_research_open_siem.Tests.Numbers.{sample_np, sample_np_laws}

abbrev early : EndpointWindow ℕ
early = record {
  id = "w1";
  endpoint = "10.0.0.1";
  role = "protected_destination";
  window_start = pos 60;
  window_end = pos 120;
  features = ("event_count", 8) ∷ [];
  label = "benign";
  label_reasons = [];
  source_event_count = 2;
}

abbrev middle : EndpointWindow ℕ
middle = record early { window_start = pos 120; window_end = pos 180; label = "malicious" }

abbrev late : EndpointWindow ℕ
late = record early { window_start = pos 180; window_end = pos 240 }

abbrev windows : List (EndpointWindow ℕ)
windows = late ∷ early ∷ middle ∷ []

abbrev scored : List (Scored ℕ)
scored = (3, 0) ∷ (1, 0) ∷ (3, 1) ∷ []

threshold_candidates-Tells_example :
    All (Tells leb scored) (threshold_candidates sample_py sample_np scored windows)
threshold_candidates-Tells_example =
    threshold_candidates-Tells sample_py sample_np sample_np_laws scored windows

cover_example :
    count
      (is_threshold sample_py sample_np (threshold_candidates sample_py sample_np scored windows))
      scored
    ≡ length scored
cover_example = threshold_candidates_cover sample_py sample_np sample_np_laws scored windows

fpr_example :
    FellBack sample_py sample_np sample_np_laws 2 1 "target-fpr" true
      (threshold_candidates sample_py sample_np scored windows)
      (select_target_fpr sample_py sample_np 1 "target-fpr" 2 true
        (threshold_candidates sample_py sample_np scored windows))
    ⊎ ((chosen : Chosen sample_py sample_np sample_np_laws 2
          (threshold_candidates sample_py sample_np scored windows)
          (select_target_fpr sample_py sample_np 1 "target-fpr" 2 true
            (threshold_candidates sample_py sample_np scored windows)))
        × Tells leb scored chosen.candidate)
fpr_example =
    select_target_fpr_lem sample_py sample_np sample_np_laws 2 1 "target-fpr" true scored windows

add_up_example :
    let pairs = labelled (3 ∷ 1 ∷ 3 ∷ []) windows in
    let e = evaluation_metrics sample_py sample_np pairs windows 2 3 false in
    (e.true_positives + e.false_positives ≡ e.alerts)
    × (e.true_positives + e.false_negatives ≡ count is_malicious pairs)
    × (e.false_positives + e.true_negatives ≡ count is_benign pairs)
add_up_example = evaluation_metrics_add_up sample_py sample_np (3 ∷ 1 ∷ 3 ∷ []) windows 2 3 false

abbrev year : ℤ → ℕ
year t = 2_024

three : length (ordered_windows year (some 2_000) windows) ≡ 3
unfolding ordered_windows filter sorted insert_sorted in_order
three = refl

split_example :
    let ws = ordered_windows year (some 2_000) windows in
    let parts = split_three 1 2 ws in
    (1 ≤ length parts.0)
    × (1 ≤ length parts.1)
    × (1 ≤ length parts.2)
    × (parts.0 ++ (parts.1 ++ parts.2) ≡ ws)
    × Precedes parts.0 (parts.1 ++ parts.2)
    × Precedes parts.1 parts.2
split_example = split_three-Precedes year (some 2_000) 1 2 windows (omega (arith, three))

-- Models that score every window with 3.
abbrev sample_lib : Learners sample_py
sample_lib = record {
  River = ℕ;
  Forest = ℕ;
  half_space_trees = λ n seed. n;
  learn_one = λ d n. suc n;
  score_one = λ n d. 3;
  fit = λ log1p seed rows. length rows;
  decision_function = λ f rows. 3 ∷ [];
}

abbrev sample_texts : Texts sample_py
sample_texts = record {
  sha1 = λ ts. "0123456789abcdef0123456789abcdef";
  window_json = λ w. w.id;
  show_seed = λ n. "42";
  replace_dashes = λ s. s;
}

abbrev options : TrainOptions ℕ
options = record {
  threshold_quantile = 4;
  seed = pos 42;
  scorer = "auto";
  calibration_windows = some (late ∷ []);
  threshold_objective = some "fpr";
  target_fpr = 2;
  target_alerts_per_day = 200;
}

train_model-Clean_example :
    Clean (train_model sample_py sample_np sample_lib sample_texts options windows)
train_model-Clean_example =
    train_model-Clean sample_py sample_np sample_lib sample_texts options windows

abbrev sample_formats : Formats sample_py
sample_formats = record {
  four_digits = λ x. "3.0000";
  general = λ x. "3";
  eight_digits = λ x. "3.00000000";
  repr = λ x. "3.0";
  spaced = λ s. s;
  isoformat = λ t. "";
  sha1 = λ s. "0123456789abcdef0123456789abcdef";
}

alerts_example :
    let alerts =
      alerts_of sample_py sample_np sample_formats
        (pos 300)
        "auto"
        "m"
        2
        none
        false
        ((early, 1) ∷ (late, 3) ∷ []) in
    (length alerts ≡ count (λ (x : EndpointWindow ℕ × ℕ). leb 2 x.1) ((early, 1) ∷ (late, 3) ∷ []))
    × All (λ a. a.severity ≢ "low") alerts
alerts_example =
    alerts_of_lem sample_py sample_np sample_np_laws sample_formats (pos 300) "auto" "m" 2 none
      ((early, 1) ∷ (late, 3) ∷ [])
