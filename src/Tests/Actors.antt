-- ===== src/Tests/Actors.antt =====
-- The theorems about techniques and actors, at a small log.
use nsf_research_open_siem.Base.{true, refl, string_eq, ℕ, ◌≡◌, [], ◌∷◌, map, sum, some}
use nsf_research_open_siem.Base.Equality.{contains}
use nsf_research_open_siem.Base.Dict.{Distinct, add}
use nsf_research_open_siem.Base.Text.{is_in, any_in}
use nsf_research_open_siem.Models.{RiskFinding, find, get}
use nsf_research_open_siem.Mitre.{
  map_event, mark, any_lower_in, login_failed, malware_alert, alert_text,
}
use nsf_research_open_siem.Mitre.Known.{is_known, map_event-Distinct}
use nsf_research_open_siem.Correlation.Actors.{correlate_actors}
use nsf_research_open_siem.Correlation.Visits.{sides, total_events-correlate_actors}
use nsf_research_open_siem.Tests.Sample.{sample_py, sample_ip, sample_log, command_event}

abbrev sample_finding : RiskFinding ℕ
sample_finding = record {
  session_key = "cowrie:a1";
  src_ip = some "1.1.1.1";
  score = 24;
  severity = "low";
  reasons = "2 failed login attempt(s)" ∷ [];
  mitre_techniques = "T1110" ∷ [];
  anomaly_score = 4;
}

actors_example :
    sum (
      map
        (λ a. a.total_events)
        (correlate_actors sample_py sample_ip sample_log (sample_finding ∷ [])))
    ≡ sum (map sides sample_log)
actors_example = total_events-correlate_actors sample_py sample_ip sample_log (sample_finding ∷ [])

shows_download : contains (map_event sample_py command_event) "T1105" ≡ true
unfolding map_event mark add any_lower_in any_in is_in login_failed malware_alert alert_text find
    get string_eq
shows_download = refl

map_event-Distinct_example :
    Distinct (map_event sample_py command_event) × (is_known "T1105" ≡ true)
map_event-Distinct_example = map_event-Distinct sample_py command_event "T1105" shows_download
