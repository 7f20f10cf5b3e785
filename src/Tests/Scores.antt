-- ===== src/Tests/Scores.antt =====
-- The theorems about scores and findings, at two sessions.
use nsf_research_open_siem.Base.{
  ℕ, ◌≤◌, ◌≡◌, refl, ◌↔◌, ◌⊎◌, String, false, List, [], ◌∷◌, some, none, arith, string_eq,
}
use nsf_research_open_siem.Models.{RiskFinding}
use nsf_research_open_siem.Detectors.Heuristic.{
  heuristic_score, large_transfer, access_evidence, command_evidence, indicator_evidence, note,
}
use nsf_research_open_siem.Base.Text.{show}
use nsf_research_open_siem.Detectors.Score.{ShowsLess, heuristic_score_mono}
use nsf_research_open_siem.Detectors.Findings.{finding, is_outlier, total_score, severity}
use nsf_research_open_siem.Detectors.Report.{finding-eq-none_iff, severity-guessing}
use nsf_research_open_siem.Tests.Sample.{sample_py, sample_laws, calm, busy}

calm-ShowsLess : ShowsLess calm busy
calm-ShowsLess = record {
  failures = omega arith;
  successes = omega arith;
  commands = omega arith;
  downloads = omega arith;
  shells = omega arith;
  persistence = omega arith;
  scans = omega arith;
  alerts = omega arith;
  hashes = omega arith;
  urls = omega arith;
  passwords = omega arith;
  bytes_out = omega arith;
  bytes_in = omega arith;
}

mono_example : (heuristic_score calm).0 ≤ (heuristic_score busy).0
mono_example = heuristic_score_mono calm busy calm-ShowsLess

small_transfer : large_transfer calm ≡ false
unfolding large_transfer
small_transfer = refl

abbrev no_techniques : List String
no_techniques = []

none_example :
    (finding sample_py 4 no_techniques calm ≡ none)
    ↔ (((heuristic_score calm).1 ≡ []) × (no_techniques ≡ []))
none_example = finding-eq-none_iff sample_py sample_laws 4 no_techniques calm refl

abbrev guesses : RiskFinding ℕ
guesses = record {
  session_key = "a1";
  src_ip = some "1.1.1.1";
  score = 6;
  severity = "low";
  reasons = "2 failed login attempt(s)" ∷ [];
  mitre_techniques = "T1110" ∷ [];
  anomaly_score = 4;
}

found : finding sample_py 4 ("T1110" ∷ []) calm ≡ some guesses
unfolding finding heuristic_score access_evidence command_evidence indicator_evidence note
    large_transfer total_score is_outlier severity show string_eq
found = refl

severity_example : (guesses.severity ≡ "low") ⊎ (guesses.severity ≡ "medium")
severity_example =
    severity-guessing sample_py sample_laws 4 ("T1110" ∷ []) calm guesses refl refl small_transfer
      refl found
