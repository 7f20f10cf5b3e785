-- ===== src/Ml/Raised.antt =====
-- src/honeypot_ai/ml.py, `score_windows`: how many alerts there are, and how severe.
use nsf_research_open_siem.Base.{
  ℤ, ◌≡◌, refl, sym, ◌∙◌, ◌≢◌, String, Bool, true, false, List, [], ◌∷◌, Option, inl, inr,
  Bool-cases, arith, map, differ,
}
use nsf_research_open_siem.Base.Dict.{length}
use nsf_research_open_siem.Base.Lists.{All, filter, count, length-perm, sorted-All}
use nsf_research_open_siem.Base.Sort.{sorted-perm}
use nsf_research_open_siem.Runtime.{Runtime}
use nsf_research_open_siem.Endpoint.Windows.{EndpointWindow}
use nsf_research_open_siem.Ml.Numerics.{Numerics, NumericLaws}
use nsf_research_open_siem.Ml.Scorers.{severity, or_high}
use nsf_research_open_siem.Ml.Alerts.{Formats, not_above, alert_for_window, is_reported, alerts_of}

length-map-filter :
    {A B : Type 0} (f : A → B) (test : A → Bool) (xs : List A)
    → length (map f (filter test xs)) ≡ count test xs
unfolding filter count
length-map-filter f test [] = refl
length-map-filter f test (x ∷ xs) = ground (arith, length-map-filter f test xs)

module _ (py : Runtime) (np : Numerics py) (laws : NumericLaws py np) where
  open py use {Float, float_le}
  open np use {float_lt}

  -- A score that reaches the threshold is at least of medium severity.
  severity_reached :
      (score threshold : Float) (high : Option Float)
      → float_le threshold score ≡ true
      → severity py np score threshold high ≢ "low"
  unfolding severity
  severity_reached score threshold high h =
      elim (Bool-cases (float_le (or_high py np threshold high) score)) [
        | inl t ↦ rw t (differ "high" "low" refl)
        | inr f ↦ rw (f, h) (differ "medium" "low" refl)
      ]

  reported_iff :
      (threshold : Float) (x : EndpointWindow Float × Float)
      → is_reported py np threshold false x ≡ float_le threshold x.1
  reported_iff threshold x = ground (arith, laws.lt_iff x.1 threshold)

  count_reported :
      (threshold : Float) (xs : List (EndpointWindow Float × Float))
      → count (is_reported py np threshold false) xs ≡ count (λ x. float_le threshold x.1) xs
  unfolding count
  count_reported threshold [] = refl
  count_reported threshold (x ∷ xs) =
      rw (reported_iff threshold x, count_reported threshold xs) refl

  module _ (fmt : Formats py) (now : ℤ) (scorer model_id : String) (threshold : Float)
      (high : Option Float) where
    severe :
        (xs : List (EndpointWindow Float × Float))
        → All
            (λ a. a.severity ≢ "low")
            (map
              (alert_for_window py np fmt now scorer model_id threshold high)
              (filter (is_reported py np threshold false) xs))
    unfolding filter alert_for_window
    severe [] = tt
    severe (x ∷ xs) = elim (Bool-cases (is_reported py np threshold false x)) [
      | inl t ↦
          rw t (severity_reached x.1 threshold high (sym (reported_iff threshold x) ∙ t), severe xs)
      | inr f ↦ rw f (severe xs)
    ]

    -- Unless alerts below the threshold are asked for, there is one alert for each window whose
    -- score reaches it, and none of low severity.
    pub alerts_of_lem :
        (xs : List (EndpointWindow Float × Float))
        → let alerts = alerts_of py np fmt now scorer model_id threshold high false xs in
          (length alerts ≡ count (λ x. float_le threshold x.1) xs)
          × All (λ a. a.severity ≢ "low") alerts
    unfolding alerts_of
    alerts_of_lem xs = (
      length-perm (sorted-perm (not_above py np) _)
          ∙ length-map-filter (alert_for_window py np fmt now scorer model_id threshold high)
              (is_reported py np threshold false) xs
          ∙ count_reported threshold xs,
      sorted-All _ (not_above py np) _ (severe xs),
    )
