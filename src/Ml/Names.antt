-- ===== src/Ml/Names.antt =====
-- src/honeypot_ai/ml.py: the names of features, scorers and threshold objectives.
use nsf_research_open_siem.Base.{
  String, ◌<>◌, not, List, [], ◌∷◌, Option, none, some, string_eq, contains,
}
use nsf_research_open_siem.Base.Dict.{Dict, lookup}
use nsf_research_open_siem.Base.Lists.{filter}
use nsf_research_open_siem.Base.Result.{Result, ok, raise}
use nsf_research_open_siem.Runtime.{Runtime}
use nsf_research_open_siem.Endpoint.State.{feature_names}

-- A ValueError with its text, a model without the method that is called, or a missing key.
pub data MlError : Type 0 where
  value_error : String → MlError
  no_attribute : String → MlError
  key_error : String → MlError

abbrev pub scorer_river : String
scorer_river = "river-half-space-trees"

abbrev pub scorer_isolation_raw : String
scorer_isolation_raw = "isolation-forest-raw"

abbrev pub scorer_isolation_log1p : String
scorer_isolation_log1p = "isolation-forest-log1p"

abbrev pub label_defining_features : List String
label_defining_features =
    "suricata_alerts" ∷ "reverse_shells" ∷ "persistence_attempts" ∷ "download_commands"
    ∷ "hash_count" ∷ "scanner_commands" ∷ "privilege_changes" ∷ "sensitive_file_writes"
    ∷ "download_tool_execs" ∷ []

unfoldable pub behavioral_feature_names : List String
unfolding filter string_eq
behavioral_feature_names =
    filter (λ name. not (contains label_defining_features name)) feature_names

abbrev joined : List String → String
joined [] = ""
joined (x ∷ []) = x
joined (x ∷ y ∷ ys) = x <> ", " <> joined (y ∷ ys)

abbrev unless_unknown : List String → List String → Result MlError (List String)
unless_unknown resolved [] = ok resolved
unless_unknown resolved (n ∷ ns) =
    raise (value_error ("unknown feature names: " <> joined (n ∷ ns)))

unfoldable pub resolve_feature_names : Option (List String) → Result MlError (List String)
unfolding filter string_eq
resolve_feature_names none = ok feature_names
resolve_feature_names (some []) =
    raise (value_error "feature_names must contain at least one feature")
resolve_feature_names (some (n ∷ ns)) =
    unless_unknown (n ∷ ns) (filter (λ name. not (contains feature_names name)) (n ∷ ns))

abbrev pub named : String → Option String → Result MlError String
named error none = raise (value_error error)
named error (some name) = ok name

abbrev pub scorer_aliases : Dict String String
scorer_aliases =
    ("auto", "auto")
    ∷ ("river", scorer_river)
    ∷ (scorer_river, scorer_river)
    ∷ ("isolation", scorer_isolation_log1p)
    ∷ ("isolation-forest", scorer_isolation_log1p)
    ∷ (scorer_isolation_log1p, scorer_isolation_log1p)
    ∷ []

unfoldable pub normalize_scorer : String → Result MlError String
unfolding lookup string_eq
normalize_scorer scorer =
    named
      ("unsupported scorer: " <> scorer
        <> "; choose one of auto, river-half-space-trees, isolation-forest-log1p")
      (lookup scorer scorer_aliases)

abbrev pub objective_aliases : Dict String String
objective_aliases =
    ("best-f1", "best-f1")
    ∷ ("f1", "best-f1")
    ∷ ("best_f1", "best-f1")
    ∷ ("target-fpr", "target-fpr")
    ∷ ("target_fpr", "target-fpr")
    ∷ ("fpr", "target-fpr")
    ∷ ("target-alerts-per-day", "target-alerts-per-day")
    ∷ ("target_alerts_per_day", "target-alerts-per-day")
    ∷ ("alerts-per-day", "target-alerts-per-day")
    ∷ ("alerts_per_day", "target-alerts-per-day")
    ∷ []

unfoldable pub normalize_threshold_objective : Runtime → String → Result MlError String
unfolding lookup string_eq
normalize_threshold_objective py objective =
    named
      ("unsupported threshold objective: " <> objective
        <> "; choose one of best-f1, target-fpr, target-alerts-per-day")
      (lookup (py.lower (py.strip objective)) objective_aliases)
