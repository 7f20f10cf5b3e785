-- ===== src/Detectors/Findings.antt =====
-- src/honeypot_ai/detectors.py: techniques, severities and the findings themselves.
use mathlib.Core.Option.{get_or}
use nsf_research_open_siem.Base.{
  pos, String, Bool, true, false, not, ◌&&◌, ◌||◌, List, [], ◌∷◌, ◌++◌, Option, none, some,
  string_eq, if◌then◌else◌,
}
use nsf_research_open_siem.Base.Dict.{Dict, lookup, update}
use nsf_research_open_siem.Base.Group.{group}
use nsf_research_open_siem.Base.Sort.{sorted}
use nsf_research_open_siem.Models.{Event, SessionFeatures, RiskFinding}
use nsf_research_open_siem.Runtime.{Runtime}
use nsf_research_open_siem.Mitre.{map_event}
use nsf_research_open_siem.Features.{session_key}
use nsf_research_open_siem.Detectors.Heuristic.{heuristic_score}
use nsf_research_open_siem.Detectors.Anomaly.{robust_anomaly_scores}

-- `grouped[key].append(event)` on a `defaultdict(list)`
unfoldable pub events_by_session : List Event → Dict String (List Event)
events_by_session es =
    group (λ e. some (session_key e)) (λ _. []) (λ e grouped. grouped ++ e ∷ []) es []

abbrev pub is_empty {ℓ} : {A : Type ℓ} → List A → Bool
is_empty [] = true
is_empty (x ∷ xs) = false

module _ (py : Runtime) where
  open py use {Float, float_add, float_mul, float_min, float_le, of_int, quarters, round}

  -- `a < b`; no score is a NaN
  abbrev pub float_lt : Float → Float → Bool
  float_lt a b = not (float_le b a)

  unfoldable pub technique_loop : List Event → List String → List String
  technique_loop [] ordered = ordered
  technique_loop (e ∷ es) ordered = technique_loop es (update (map_event py e) ordered)

  unfoldable pub session_techniques : List Event → List String
  unfolding technique_loop
  session_techniques es = technique_loop es []

  unfoldable pub severity : Float → String
  severity score =
      if float_le (of_int (pos 70)) score
      then "critical"
      else if float_le (of_int (pos 40)) score
      then "high"
      else if float_le (of_int (pos 15)) score
      then "medium"
      else "low"

  abbrev pub outlier_reason : String
  outlier_reason = "session feature outlier versus local baseline"

  -- `anomaly_score >= 3.0 and (base_score > 0 or techniques or anomaly_score >= 20.0)`
  unfoldable pub is_outlier : Float → Float → List String → Bool
  is_outlier anomaly base techniques =
      float_le (of_int (pos 3)) anomaly
      && (float_lt (of_int (pos 0)) base
          || not (is_empty techniques)
          || float_le (of_int (pos 20)) anomaly)

  unfoldable pub total_score : Float → Float → List String → Float
  total_score anomaly base techniques = float_add base (
      if is_outlier anomaly base techniques
      then float_min (float_mul anomaly (quarters 6)) (of_int (pos 20))
      else of_int (pos 0))

  -- One round of the loop: `none` is `continue`.
  unfoldable pub finding : Float → List String → SessionFeatures Float → Option (RiskFinding Float)
  finding anomaly techniques f =
      let (points, reasons) = heuristic_score f in
      let base = quarters points in
      let score = total_score anomaly base techniques in
      if float_le score (of_int (pos 0)) && is_empty techniques
      then none
      else some (record {
        session_key = f.key;
        src_ip = f.src_ip;
        score = round score 2;
        severity = severity score;
        reasons =
            reasons ++ (if is_outlier anomaly base techniques then outlier_reason ∷ [] else []);
        mitre_techniques = techniques;
        anomaly_score = round anomaly 2;
      })

  abbrev pub append_found :
      Option (RiskFinding Float) → List (RiskFinding Float) → List (RiskFinding Float)
  append_found none rest = rest
  append_found (some r) rest = r ∷ rest

  unfoldable pub findings :
      Dict String (List Event)
      → Dict String Float
      → List (SessionFeatures Float)
      → List (RiskFinding Float)
  findings grouped scores [] = []
  findings grouped scores (f ∷ fs) =
      append_found
        (finding (get_or (lookup f.key scores) (of_int (pos 0)))
          (session_techniques (get_or (lookup f.key grouped) [])) f)
        (findings grouped scores fs)

  abbrev pub by_score : RiskFinding Float → RiskFinding Float → Bool
  by_score a b = float_le b.score a.score

  unfoldable pub score_sessions :
      List Event → List (SessionFeatures Float) → List (RiskFinding Float)
  score_sessions es fs =
      sorted by_score (findings (events_by_session es) (robust_anomaly_scores py fs) fs)
