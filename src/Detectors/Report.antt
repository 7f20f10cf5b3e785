-- ===== src/Detectors/Report.antt =====
-- src/honeypot_ai/detectors.py: which sessions are reported, how, and in which order.
use nsf_research_open_siem.Base.{
  ℕ, ◌+◌, ◌≤◌, pos, leb, ◌≡◌, sym, ◌∙◌, ap, ◌↔◌, ◌⊎◌, inl, inr, String, true, false, List, [], none,
  some, if◌then◌else◌, arith, string_eq, Bool-cases,
}
use nsf_research_open_siem.Base.Dict.{length}
use nsf_research_open_siem.Models.{SessionFeatures, RiskFinding}
use nsf_research_open_siem.Runtime.{Runtime}
use nsf_research_open_siem.Detectors.Heuristic.{heuristic_score, large_transfer}
use nsf_research_open_siem.Detectors.Score.{heuristic_score-eq-zero_iff, heuristic_score-guessing}
use nsf_research_open_siem.Detectors.Findings.{severity, is_outlier, total_score, finding}
use nsf_research_open_siem.Detectors.Laws.{FloatLaws}

module _ (py : Runtime) where
  open py use {Float, float_le, quarters, of_int}

  -- A severity in quarter points.
  level : ℕ → String
  level q =
      if leb 280 q
      then "critical"
      else if leb 160 q
      then "high"
      else if leb 60 q
      then "medium"
      else "low"

  low_levels : (q : ℕ) (s : String) → q ≤ 72 → s ≡ level q → (s ≡ "low") ⊎ (s ≡ "medium")
  unfolding level
  low_levels q s few e = ground arith

  module _ (laws : FloatLaws py) where
    severity-level : (q : ℕ) → severity py (quarters q) ≡ level q
    unfolding severity level
    severity-level q = simp (
      laws.of_int_quarters,
      laws.quarters_le 280 q (omega arith),
      laws.quarters_le 160 q (omega arith),
      laws.quarters_le 60 q (omega arith),
    )

    quarters_lt : (q : ℕ) → float_le (quarters q) (of_int (pos 0)) ≡ leb q 0
    quarters_lt q = simp (laws.of_int_quarters, laws.quarters_ge q 0 (omega arith))

    boost_pos :
        (a : Float)
        → float_le (of_int (pos 3)) a ≡ true
        → float_le (quarters 0) (py.float_min (py.float_mul a (quarters 6)) (of_int (pos 20)))
          ≡ true
    boost_pos a h =
        laws.min_pos _ _
          (laws.mul_pos a 6 (
            laws.le_trans _ (of_int (pos 3)) a
              (rw (laws.of_int_quarters 3) (laws.quarters_le 0 12 (omega arith))) h))
          (rw (laws.of_int_quarters 20) (laws.quarters_le 0 80 (omega arith)))

    outlier_three :
        (a b : Float) (ts : List String)
        → is_outlier py a b ts ≡ true
        → float_le (of_int (pos 3)) a ≡ true
    unfolding is_outlier
    outlier_three a b ts h = ground arith

    -- The total is at least the heuristic score.
    total_score-grows :
        (a : Float) (q : ℕ) (ts : List String)
        → float_le (quarters q) (total_score py a (quarters q) ts) ≡ true
    total_score-grows a q ts = elim (Bool-cases (is_outlier py a (quarters q) ts)) [
      | inl out ↦
          unfold total_score in
          (rw (out, total_score) (laws.add_grows q _ (boost_pos a (outlier_three a _ ts out))))
      | inr plain ↦
          unfold total_score in
          (rw (plain, total_score)
            (laws.add_grows q _ (rw (laws.of_int_quarters 0) (laws.quarters_le 0 0 (omega arith)))))
    ]

    plain_total :
        (a : Float) (q : ℕ) (ts : List String)
        → is_outlier py a (quarters q) ts ≡ false
        → total_score py a (quarters q) ts ≡ quarters q
    unfolding total_score
    plain_total a q ts h = rw (h, total_score) (rw (laws.of_int_quarters 0) (laws.add_zero q))

    skipped :
        (a : Float) (ts : List String) (f : SessionFeatures Float)
        → finding py a ts f ≡ none
        → (float_le (total_score py a (quarters (heuristic_score f).0) ts) (of_int (pos 0)) ≡ true)
          × (ts ≡ [])
    unfolding finding
    skipped a ts f h = ground arith

    skip :
        (a : Float) (ts : List String) (f : SessionFeatures Float)
        → float_le (total_score py a (quarters (heuristic_score f).0) ts) (of_int (pos 0)) ≡ true
        → ts ≡ []
        → finding py a ts f ≡ none
    unfolding finding
    skip a ts f h e = ground arith

    no_outlier :
        (a : Float) → float_le (of_int (pos 20)) a ≡ false → is_outlier py a (quarters 0) [] ≡ false
    unfolding is_outlier
    no_outlier a h = ground (arith, zero_le)
      where
        zero_le : float_le (quarters 0) (of_int (pos 0)) ≡ true
        zero_le = quarters_lt 0

    -- With an anomaly score below 20, a session gives no finding exactly when there is neither a
    -- reason nor a technique.
    pub finding-eq-none_iff :
        (a : Float) (ts : List String) (f : SessionFeatures Float)
        → float_le (of_int (pos 20)) a ≡ false
        → (finding py a ts f ≡ none) ↔ (((heuristic_score f).1 ≡ []) × (ts ≡ []))
    finding-eq-none_iff a ts f h = (
      λ e.
          let (low, no_techniques) = skipped a ts f e in
          let q = (heuristic_score f).0 in
          let nothing : leb q 0 ≡ true =
            sym (quarters_lt q) ∙ laws.le_trans _ _ _ (total_score-grows a q ts) low in
          ((heuristic_score-eq-zero_iff f).0 (ground arith), no_techniques),
      λ (no_reasons, no_techniques).
          let z = (heuristic_score-eq-zero_iff f).1 no_reasons in
          skip a ts f (rw (z, no_techniques, plain_total a 0 [] (no_outlier a h)) (quarters_lt 0))
            no_techniques,
    )

    severity_found :
        (a : Float) (ts : List String) (f : SessionFeatures Float) (r : RiskFinding Float)
        → finding py a ts f ≡ some r
        → r.severity ≡ severity py (total_score py a (quarters (heuristic_score f).0) ts)
    unfolding finding
    severity_found a ts f r h = ground arith

    -- A session without successful logins, commands, alerts, files, addresses or large transfers,
    -- and with an anomaly score below 3, is not rated above medium, however many logins fail.
    pub severity-guessing :
        (a : Float) (ts : List String) (f : SessionFeatures Float) (r : RiskFinding Float)
        → f.login_successes ≡ 0
        → f.commands
            + f.download_commands
            + f.reverse_shells
            + f.persistence_attempts
            + f.scanner_commands
            + f.suricata_alerts
            + length f.hashes
            + length f.urls
          ≡ 0
        → large_transfer f ≡ false
        → float_le (of_int (pos 3)) a ≡ false
        → finding py a ts f ≡ some r
        → (r.severity ≡ "low") ⊎ (r.severity ≡ "medium")
    severity-guessing a ts f r s z l h e =
        let q = (heuristic_score f).0 in
        let few = heuristic_score-guessing f s z l in
        low_levels q r.severity few (
          severity_found a ts f r e
          ∙ ap (severity py) (plain_total a q ts (unfold is_outlier in (ground arith)))
          ∙ severity-level q)
