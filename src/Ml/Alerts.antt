-- ===== src/Ml/Alerts.antt =====
-- src/honeypot_ai/ml.py, `score_windows`: the alerts of a stored model.
use Prim.Native.String.{slice}
use mathlib.Core.Option.{get_or}
use nsf_research_open_siem.Base.{
  ℤ, pos, String, ◌<>◌, Bool, not, ◌&&◌, List, [], ◌∷◌, Option, string_eq, if◌then◌else◌, map,
}
use nsf_research_open_siem.Base.Dict.{Dict}
use nsf_research_open_siem.Base.Bytes.{take}
use nsf_research_open_siem.Base.Lists.{filter}
use nsf_research_open_siem.Base.Sort.{sorted}
use nsf_research_open_siem.Base.Result.{Result, ok, ◌>>=◌}
use nsf_research_open_siem.Models.{float, str, list, obj, Items, nil, cons, Fields, end, field}
use nsf_research_open_siem.Runtime.{Runtime}
use nsf_research_open_siem.Endpoint.State.{feature_names}
use nsf_research_open_siem.Endpoint.Windows.{EndpointWindow, feature_vector}
use nsf_research_open_siem.Ml.Numerics.{Numerics}
use nsf_research_open_siem.Ml.Names.{MlError}
use nsf_research_open_siem.Ml.Scorers.{Learners, Artifact, severity, score_many, artifact_scorer}

pub record MlAlert (Float : Type 0) : Type 0 where
  pub id : String
  pub model_id : String
  pub endpoint : String
  pub role : String
  pub window_start : ℤ
  pub window_end : ℤ
  pub score : Float
  pub threshold : Float
  pub severity : String
  pub reasons : List String
  pub features : Dict String Float
  pub created_at : ℤ

-- Python's formats `{x:.4f}`, `{x:g}` and `{x:.8f}`, `repr(x)`, `name.replace("_", " ")`,
-- `isoformat()`, and the hexadecimal SHA-1 of a text
pub record Formats (py : Runtime) : Type 0 where
  pub four_digits : py.Float → String
  pub general : py.Float → String
  pub eight_digits : py.Float → String
  pub repr : py.Float → String
  pub spaced : String → String
  pub isoformat : ℤ → String
  pub sha1 : String → String

module _ (py : Runtime) (np : Numerics py) where
  open py use {Float, float_le, float_of, round, of_int}
  open np use {float_lt, literal}

  -- The five greatest positive features, the first ones of equal ones.
  unfoldable pub top_features : Dict String Float → Dict String Float
  unfolding filter sorted take
  top_features features =
      take 5
        (sorted (λ a b. float_le b.1 a.1) (filter (λ f. float_lt (of_int (pos 0)) f.1) features))

  abbrev pub not_above : MlAlert Float → MlAlert Float → Bool
  not_above a b = float_le b.score a.score

  -- `score < alert_threshold and not include_below_threshold` is skipped.
  abbrev pub is_reported : Float → Bool → EndpointWindow Float × Float → Bool
  is_reported threshold include_below x = not (float_lt x.1 threshold && not include_below)

  module _ (fmt : Formats py) where
    open fmt use {four_digits, general, eight_digits, repr, spaced, isoformat, sha1}

    unfoldable pub alert_id : String → EndpointWindow Float → Float → String
    alert_id model_id w score =
        slice (sha1 (model_id <> "|" <> w.id <> "|" <> eight_digits score)) 0 20

    abbrev relation : Float → Float → String
    relation score threshold = if float_le threshold score then "crossed" else "below"

    unfoldable pub alert_for_window :
        ℤ → String → String → Float → Option Float → EndpointWindow Float × Float → MlAlert Float
    unfolding top_features alert_id severity
    alert_for_window now scorer model_id threshold high (w, score) =
        let features = feature_vector py feature_names w.features in
        record {
          id = alert_id model_id w score;
          model_id = model_id;
          endpoint = w.endpoint;
          role = w.role;
          window_start = w.window_start;
          window_end = w.window_end;
          score = round score 6;
          threshold = round threshold 6;
          severity = severity py np score threshold high;
          reasons =
              (scorer
                <> " anomaly score "
                <> four_digits score
                <> " "
                <> relation score threshold
                <> " threshold "
                <> four_digits threshold)
              ∷ map (λ f. spaced (f.0) <> "=" <> general (f.1)) (top_features features);
          features = features;
          created_at = now;
        }

    abbrev texts : List String → Items
    texts [] = nil
    texts (t ∷ ts) = cons (str t) (texts ts)

    abbrev numbers : Dict String Float → Fields
    numbers [] = end
    numbers ((name, x) ∷ d) = field name (float (repr x)) (numbers d)

    unfoldable pub alert_to_record : MlAlert Float → Fields
    alert_to_record a = field "id" (str a.id) (
        field "model_id" (str a.model_id) (
          field "endpoint" (str a.endpoint) (
            field "role" (str a.role) (
              field "window_start" (str (isoformat a.window_start)) (
                field "window_end" (str (isoformat a.window_end)) (
                  field "score" (float (repr a.score)) (
                    field "threshold" (float (repr a.threshold)) (
                      field "severity" (str a.severity) (
                        field "reasons" (list (texts a.reasons)) (
                          field "features" (obj (numbers a.features))
                            (field "created_at" (str (isoformat a.created_at)) end)))))))))))

    abbrev zipped : List (EndpointWindow Float) → List Float → List (EndpointWindow Float × Float)
    zipped [] ss = []
    zipped (w ∷ ws) [] = []
    zipped (w ∷ ws) (s ∷ ss) = (w, s) ∷ zipped ws ss

    unfoldable pub alerts_of :
        ℤ
        → String
        → String
        → Float
        → Option Float
        → Bool
        → List (EndpointWindow Float × Float)
        → List (MlAlert Float)
    unfolding filter sorted alert_for_window
    alerts_of now scorer model_id threshold high include_below xs = sorted not_above (
        map (alert_for_window now scorer model_id threshold high)
          (filter (is_reported threshold include_below) xs))

    module _ (lib : Learners py) where
      unfoldable pub score_windows :
          ℤ
          → List (EndpointWindow Float)
          → Artifact py np lib
          → Option Float
          → Bool
          → Result MlError (List (MlAlert Float))
      unfolding artifact_scorer score_many alerts_of
      score_windows now ws artifact threshold include_below = do
        scorer ← artifact_scorer py np lib artifact
        scores ← score_many py np lib ws artifact.model scorer
        ok (
            alerts_of now scorer (get_or artifact.model_id "unknown-model")
              (get_or threshold (get_or artifact.threshold (literal "0.5"))) artifact.high_threshold
              include_below (zipped ws scores))
